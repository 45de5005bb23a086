-- ===== src/Events/State.antt =====
-- glados/events: the state of `EventRouter` (router.py), the verdicts of decision.py, and the
-- callables that the router is given, with the record of its calls.
use glados_docker.Common.{Bool, Dict, List, Option, String, [], false, none, ℕ, ◌∷◌}
use glados_docker.Events.Config.{ConfigError, EventActionSpec, EventRule, EventsConfig}

pub record Verdict : Type 0 where
  pub act : Bool
  pub reason : String
  pub quip : String

pub data RunResult : Type 0 where
  declined errored fired : RunResult

pub data Call : Type 0 where
  read_clock check_quiet : Call
  ask_state : String → Call
  ask_decision : String → Call
  run_action : EventActionSpec → Call
  say : String → String → Call
  audit : ℕ → RunResult → String → String → Call

pub record Env : Type 0 where
  pub clock : List Call → ℕ
  pub quiet_check : List Call → Bool
  -- `none` where `get_state` raises.
  pub get_state : List Call → String → Option (Option String)
  pub decision_fn : List Call → EventRule → Verdict
  -- The message of the `HAActionError`, if it is raised.
  pub action_fn : List Call → EventActionSpec → Option String
  pub announce_fn : List Call → String → String → Bool

pub record RuleStatus : Type 0 where
  pub last_result : RunResult
  pub last_reason : String
  pub last_ts : ℕ

pub record Router : Type 0 where
  pub config : EventsConfig
  pub load_error : Option ConfigError
  pub last_attempt : Dict ℕ
  pub clear_since : Dict ℕ
  pub status : Dict RuleStatus
  pub fire_count : Dict ℕ
  pub calls : List Call

abbrev pub engine_off : EventsConfig
engine_off = record { enabled = false; rules = [] }

abbrev pub init : Router
init = record {
  config = engine_off;
  load_error = none;
  last_attempt = [];
  clear_since = [];
  status = [];
  fire_count = [];
  calls = [];
}

abbrev pub log : Call → Router → Router
log c r = record r { calls = c ∷ r.calls }
