-- ===== src/Events/Router/Gates.antt =====
-- The gates of `_gate_and_run` under any interleaving of the router's threads: every block that
-- runs under the lock, and every call outside it, is one step.
use glados_docker.Common.{
  Bool-cases, List, Option-cases, String, [], ap, arith, eq_iff, get, get-put, get-put_self, inl,
  inr, refl, some, str_eq, subst, true, ℕ, ◌+◌, ◌<◌, ◌∙◌, ◌∷◌, ◌≡◌, ◌≤◌,
}
use glados_docker.Events.Config.{
  EventRule, FileRead, LoadResult, config_error, load_events_config, loaded,
}
use glados_docker.Events.Router.{
  adopt, count_fire, gate, load, record_result, seed_clear, seed_rule, stamp_clear,
}
use glados_docker.Events.State.{Call, Env, Router, RunResult, log, read_clock}

pub data Step (env : Env) : Router → Router → Type 0 where
  gate_step : (rule : EventRule) (r : Router) → Step env r (gate env rule r).1
  clear_step : (rule : EventRule) (r : Router) → Step env r (stamp_clear env rule r)
  record_step :
      (rule : EventRule) (result : RunResult) (reason : String) (r : Router)
      → Step env r (record_result env rule result reason r)
  count_step : (rule : EventRule) (r : Router) → Step env r (count_fire rule r)
  load_step : (file : FileRead) (r : Router) → Step env r (load env file r).1
  call_step : (c : Call) (r : Router) → Step env r (log c r)

pub data Reach (env : Env) (r : Router) : Router → Type 0 where
  here : Reach env r r
  next : {s t : Router} → Reach env r s → Step env s t → Reach env r t

-- The rule's last attempt was at `t` or later.
pub record Stamped (id : String) (t : ℕ) (r : Router) : Type 0 where
  pub last : ℕ
  pub stored : get id r.last_attempt ≡ some last
  pub since : t ≤ last

seed_rule-last_attempt :
    (env : Env) (now : ℕ) (rule : EventRule) (r : Router)
    → (seed_rule env now rule r).last_attempt ≡ r.last_attempt
unfolding seed_rule
seed_rule-last_attempt env now rule r = ground arith

seed_clear-last_attempt :
    (env : Env) (now : ℕ) (rules : List EventRule) (r : Router)
    → (seed_clear env now rules r).last_attempt ≡ r.last_attempt
unfolding seed_clear
seed_clear-last_attempt env now [] r = refl
seed_clear-last_attempt env now (rule ∷ rules) r =
    seed_clear-last_attempt env now rules (seed_rule env now rule r)
    ∙ seed_rule-last_attempt env now rule r

adopt-last_attempt :
    (env : Env) (l : LoadResult) (r : Router) → (adopt env l r).1.last_attempt ≡ r.last_attempt
unfolding adopt
adopt-last_attempt env (loaded c) r =
    seed_clear-last_attempt env (env.clock r.calls) c.rules (log read_clock r)
adopt-last_attempt env (config_error e) r = refl

load-last_attempt :
    (env : Env) (file : FileRead) (r : Router) → (load env file r).1.last_attempt ≡ r.last_attempt
unfolding load
load-last_attempt env file r = adopt-last_attempt env (load_events_config file) r

gate-Stamped :
    (env : Env) (rule : EventRule) (r : Router) (id : String) (t : ℕ)
    → 0 < t
    → Stamped id t r
    → Stamped id t (gate env rule r).1
unfolding gate
gate-Stamped env rule r id t pos h = elim (Bool-cases (gate env rule r).0) [
  | inl yes' ↦ elim (Bool-cases (str_eq rule.id id)) [
    | inl same ↦ record {
      last = env.clock r.calls;
      stored = ground (arith, get-put rule.id id (env.clock r.calls) r.last_attempt);
      since = ground (arith, h.stored, h.since, eq_iff rule.id id);
    }
    | inr other ↦ record {
      last = h.last;
      stored = ground (arith, get-put rule.id id (env.clock r.calls) r.last_attempt, h.stored);
      since = h.since;
    }
  ]
  | inr no' ↦ record { last = h.last; stored = ground (arith, h.stored); since = h.since }
]

Step-Stamped :
    {env : Env} {r s : Router} (id : String) (t : ℕ)
    → 0 < t
    → Step env r s
    → Stamped id t r
    → Stamped id t s
unfolding stamp_clear record_result count_fire
Step-Stamped {env} id t pos (gate_step rule r) h = gate-Stamped env rule r id t pos h
Step-Stamped id t pos (clear_step rule r) h = record {
  last = h.last;
  stored = h.stored;
  since = h.since;
}
Step-Stamped id t pos (record_step rule result reason r) h = record {
  last = h.last;
  stored = h.stored;
  since = h.since;
}
Step-Stamped id t pos (count_step rule r) h = record {
  last = h.last;
  stored = h.stored;
  since = h.since;
}
Step-Stamped {env} id t pos (load_step file r) h = record {
  last = h.last;
  stored = ap (get id) (load-last_attempt env file r) ∙ h.stored;
  since = h.since;
}
Step-Stamped id t pos (call_step c r) h = record {
  last = h.last;
  stored = h.stored;
  since = h.since;
}

Reach-Stamped :
    {env : Env} {r s : Router} (id : String) (t : ℕ)
    → 0 < t
    → Stamped id t r
    → Reach env r s
    → Stamped id t s
Reach-Stamped id t pos h here = h
Reach-Stamped id t pos h (next path st) = Step-Stamped id t pos st (Reach-Stamped id t pos h path)

gate_stamps :
    (env : Env) (rule : EventRule) (r : Router)
    → (gate env rule r).0 ≡ true
    → Stamped rule.id (env.clock r.calls) (gate env rule r).1
unfolding gate
gate_stamps env rule r passed = record {
  last = env.clock r.calls;
  stored = ground (arith, get-put_self rule.id (env.clock r.calls) r.last_attempt);
  since = omega arith;
}

-- Two passes of the gate for rules of one id, whatever other steps of any thread lie between them
-- and even across a reload of the rules, are at least the later rule's `cooldown_s` apart, if the
-- clock was not 0 at the first.
pub cooldown_spacing :
    {env : Env} (rule later : EventRule) (r s : Router)
    → rule.id ≡ later.id
    → 0 < env.clock r.calls
    → (gate env rule r).0 ≡ true
    → Reach env (gate env rule r).1 s
    → (gate env later s).0 ≡ true
    → env.clock r.calls + later.cooldown_s ≤ env.clock s.calls
cooldown_spacing {env} rule later r s same pos passed path again = spaced (
    subst (λ id. Stamped id (env.clock r.calls) s) same
      (Reach-Stamped rule.id _ pos (gate_stamps env rule r passed) path))
  where
    spaced :
        Stamped later.id (env.clock r.calls) s
        → env.clock r.calls + later.cooldown_s ≤ env.clock s.calls
    spaced h = unfold gate in ground (arith, h.stored, h.since)

-- A rule with `min_clear_s` passes the gate only if its entity was seen to leave the trigger state
-- at least that long ago: an entity that was never seen to leave it blocks the rule.
pub gate_needs_clear :
    (env : Env) (rule : EventRule) (r : Router)
    → 0 < rule.min_clear_s
    → (gate env rule r).0 ≡ true
    → (cleared : ℕ) × (get rule.id r.clear_since ≡ some cleared)
      × (cleared + rule.min_clear_s ≤ env.clock r.calls)
unfolding gate
gate_needs_clear env rule r pos passed = elim (Option-cases (get rule.id r.clear_since)) [
  | inl e ↦ absurd (ground arith)
  | inr (c, e) ↦ (c, e, ground arith)
]
