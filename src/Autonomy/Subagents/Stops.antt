-- ===== src/Autonomy/Subagents/Stops.antt =====
-- What a stop does to the subagents that share an event.
use glados_docker.Common.{
  Bool, Bool-cases, List, Option, String, [], ap, arith, eq_iff, false, get, get-put, inl, inr,
  none, put, refl, set, some, str_eq, sym, true, ℕ, ◌&&◌, ◌+◌, ◌-◌, ◌==◌, ◌∙◌, ◌∷◌, ◌≡◌, ◌≤◌,
}
use glados_docker.Autonomy.Subagents.{
  Subagent, SubagentManager, Tick, do_tick, end_run, is_set, loop_run, or_same, start, start_agent,
  stop, stop_agent, stop_subagent, tick_run, with_agent,
}

-- A test of a thread's loop, a tick of a thread that has passed it, or a call of the manager; no
-- thread begins.
pub data Event : Type 0 where
  tested : String → ℕ → Event
  ticked : String → ℕ → Tick → Event
  started : String → Event
  stopped : String → Event

abbrev loop_agent : ℕ → String → Option Subagent → SubagentManager → SubagentManager
loop_agent now id none m = m
loop_agent now id (some a) m = loop_run now id a m

abbrev tick_agent : ℕ → Tick → String → Option Subagent → SubagentManager → SubagentManager
tick_agent now t id none m = m
tick_agent now t id (some a) m = tick_run now t id a m

unfoldable pub step : Event → SubagentManager → SubagentManager
step (tested id now) m = loop_agent now id (get id m.agents) m
step (ticked id now t) m = tick_agent now t id (get id m.agents) m
step (started id) m = or_same m (start id m)
step (stopped id) m = or_same m (stop id m)

unfoldable pub run : List Event → SubagentManager → SubagentManager
run [] m = m
run (e ∷ es) m = run es (step e m)

abbrev quiet_agent : ℕ → SubagentManager → Option Subagent → Bool
quiet_agent n m none = false
quiet_agent n m (some a) = is_set a.shutdown_event m && a.tick_count + a.due == n

-- The event of a subagent is set, and its ticks and the threads that are to tick are `n`.
abbrev pub quiet_at : String → ℕ → SubagentManager → Bool
quiet_at j n m = quiet_agent n m (get j m.agents)

quiet-other :
    (id j : String) (n : ℕ) (b : Subagent) (m : SubagentManager)
    → str_eq id j ≡ false
    → quiet_at j n m ≡ true
    → quiet_at j n (with_agent id b m) ≡ true
quiet-other id j n b m differ q =
    let now : get j (put id b m.agents) ≡ get j m.agents =
      grind (arith, get-put id j b m.agents, differ) in
    ap (quiet_agent n m) now ∙ q

quiet_known :
    (j : String) (n : ℕ) (a : Subagent) (m : SubagentManager)
    → get j m.agents ≡ some a
    → quiet_at j n m ≡ true
    → is_set a.shutdown_event m && a.tick_count + a.due == n ≡ true
quiet_known j n a m g q = ap (quiet_agent n m) (sym g) ∙ q

-- A change of one subagent that keeps its event and its ticks.
quiet-with_agent :
    (id j : String) (n : ℕ) (a b : Subagent) (m : SubagentManager)
    → get id m.agents ≡ some a
    → b.shutdown_event ≡ a.shutdown_event
    → b.tick_count + b.due ≡ a.tick_count + a.due
    → quiet_at j n m ≡ true
    → quiet_at j n (with_agent id b m) ≡ true
quiet-with_agent id j n a b m g e t q = elim (Bool-cases (str_eq id j)) [
  | inl same ↦
      let known : get j m.agents ≡ some a = grind (arith, eq_iff id j, same, g) in
      let now : get j (put id b m.agents) ≡ some b = grind (arith, get-put id j b m.agents, same) in
      ap (quiet_agent n m) now
      ∙ ap (λ x. is_set x m && b.tick_count + b.due == n) e
      ∙ ap (λ x. is_set a.shutdown_event m && x == n) t
      ∙ quiet_known j n a m known q
  | inr differ ↦ quiet-other id j n b m differ q
]

quiet-loop :
    (id j : String) (now : ℕ) (n : ℕ) (a : Subagent) (m : SubagentManager)
    → get id m.agents ≡ some a
    → quiet_at j n m ≡ true
    → quiet_at j n (loop_run now id a m) ≡ true
unfolding loop_run end_run
quiet-loop id j now n a m g q = elim (Bool-cases (is_set a.shutdown_event m)) [
  | inl set ↦ grind (
    arith,
    set,
    quiet-with_agent id j n a (record a { running = false; looping = a.looping - 1 }) m g refl refl
        q,
  )
  | inr unset ↦
      let differ : str_eq id j ≡ false =
        grind (arith, quiet_known j n a m, eq_iff id j, g, unset, q) in
      let passed =
        quiet-other id j n (record a { looping = a.looping - 1; due = a.due + 1 }) m differ q in
      grind (arith, unset, passed, q)
]

quiet-tick :
    (id j : String) (now : ℕ) (t : Tick) (n : ℕ) (a : Subagent) (m : SubagentManager)
    → get id m.agents ≡ some a
    → quiet_at j n m ≡ true
    → quiet_at j n (tick_run now t id a m) ≡ true
unfolding tick_run do_tick
quiet-tick id j now t n a m g q = elim (Bool-cases (a.due == 0)) [
  | inl none_due ↦ grind (arith, none_due, q)
  | inr some_due ↦
      let b : Subagent = record a {
        looping = a.looping + 1;
        due = a.due - 1;
        last_tick = now;
        tick_count = a.tick_count + 1;
      } in
      let after : quiet_at j n (with_agent id b m) ≡ true =
        quiet-with_agent id j n a b m g refl (ground (arith, some_due)) q in
      rw some_due after
]

quiet-stop :
    (n e : ℕ) (m : SubagentManager) (o : Option Subagent)
    → quiet_agent n m o ≡ true
    → quiet_agent n (record m { set_events = e ∷ m.set_events }) o ≡ true
quiet-stop n e m none q = q
quiet-stop n e m (some a) q = grind (arith, q)

quiet-stop_subagent :
    (n : ℕ) (a : Subagent) (m : SubagentManager) (o : Option Subagent)
    → quiet_agent n m o ≡ true
    → quiet_agent n (stop_subagent a m) o ≡ true
quiet-stop_subagent n a m o q = elim (Bool-cases a.running) [
  | inl going ↦ grind (arith, going, quiet-stop n a.shutdown_event m o q)
  | inr idle ↦ grind (arith, idle, q)
]

quiet-start :
    (id j : String) (n : ℕ) (a : Subagent) (m : SubagentManager)
    → get id m.agents ≡ some a
    → quiet_at j n m ≡ true
    → quiet_at j n (or_same m (start_agent id (some a) m)) ≡ true
quiet-start id j n a m g q =
    let more = quiet-with_agent id j n a (record a { launched = a.launched + 1 }) m g refl refl q in
    elim (Bool-cases a.running) [
      | inl going ↦ grind (arith, going, q)
      | inr idle ↦ grind (arith, idle, more)
    ]

quiet-step :
    (e : Event) (j : String) (n : ℕ) (m : SubagentManager)
    → quiet_at j n m ≡ true
    → quiet_at j n (step e m) ≡ true
unfolding step start stop
quiet-step (tested id now) j n m q = go (get id m.agents) refl
  where
    go : (o : Option Subagent) → get id m.agents ≡ o → quiet_at j n (loop_agent now id o m) ≡ true
    go none g = q
    go (some a) g = quiet-loop id j now n a m g q
quiet-step (ticked id now t) j n m q = go (get id m.agents) refl
  where
    go : (o : Option Subagent) → get id m.agents ≡ o → quiet_at j n (tick_agent now t id o m) ≡ true
    go none g = q
    go (some a) g = quiet-tick id j now t n a m g q
quiet-step (started id) j n m q = go (get id m.agents) refl
  where
    go :
        (o : Option Subagent)
        → get id m.agents ≡ o
        → quiet_at j n (or_same m (start_agent id o m)) ≡ true
    go none g = q
    go (some a) g = quiet-start id j n a m g q
quiet-step (stopped id) j n m q = go (get id m.agents)
  where
    go : (o : Option Subagent) → quiet_at j n (or_same m (stop_agent o m)) ≡ true
    go none = q
    go (some a) = quiet-stop_subagent n a m (get j m.agents) q

quiet-run :
    (es : List Event) (j : String) (n : ℕ) (m : SubagentManager)
    → quiet_at j n m ≡ true
    → quiet_at j n (run es m) ≡ true
unfolding run
quiet-run [] j n m q = q
quiet-run (e ∷ es) j n m q = quiet-run es j n (step e m) (quiet-step e j n m q)

-- How often a subagent has ticked, and whether its event is set.
abbrev pub ticks_of : Option Subagent → ℕ
ticks_of none = 0
ticks_of (some a) = a.tick_count

abbrev pub told_to_stop : SubagentManager → Option Subagent → Bool
told_to_stop m none = false
told_to_stop m (some a) = is_set a.shutdown_event m

quiet_ticks :
    (n : ℕ) (m : SubagentManager) (o : Option Subagent)
    → quiet_agent n m o ≡ true
    → (told_to_stop m o ≡ true) × (ticks_of o ≤ n)
quiet_ticks n m none q = cc q
quiet_ticks n m (some a) q = (ground (arith, q), ground (arith, q))

-- A stop of one running subagent stops all that share its shutdown event: whatever tests of loops,
-- ticks, starts and stops come after it, without a thread that begins, the event of each of them
-- stays set, and it ticks at most once more for each of its threads that had passed the test of its
-- loop before the stop.
pub stop_quiets :
    (id j : String) (a b : Subagent) (m n : SubagentManager) (es : List Event)
    → get id m.agents ≡ some a
    → a.running ≡ true
    → get j m.agents ≡ some b
    → b.shutdown_event ≡ a.shutdown_event
    → stop id m ≡ some n
    → (told_to_stop (run es n) (get j (run es n).agents) ≡ true)
      × (ticks_of (get j (run es n).agents) ≤ b.tick_count + b.due)
unfolding stop
stop_quiets id j a b m n es g r h e s =
    let q : stop_subagent a m ≡ n = cc (ap (λ o. stop_agent o m) (sym g) ∙ s) in
    let after : quiet_agent (b.tick_count + b.due) (stop_subagent a m) (some b) ≡ true =
      grind (arith, r, e) in
    quiet_ticks (b.tick_count + b.due) (run es n) (get j (run es n).agents) (
      quiet-run es j (b.tick_count + b.due) n (
        ap (λ x. quiet_at j (b.tick_count + b.due) x) (sym q)
        ∙ ap (quiet_agent (b.tick_count + b.due) (stop_subagent a m)) h
        ∙ after))
