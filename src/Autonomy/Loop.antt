-- ===== src/Autonomy/Loop.antt =====
-- glados/autonomy/loop.py: what `AutonomyLoop.run` does with one event, and the gate of
-- glados/observability/priority.py that holds it back while a chat is answered. Times are
-- milliseconds, of the monotonic clock for the gate and of the wall clock for the loop. The text of
-- the prompt is an argument; how `_build_prompt` makes it is not modelled.
pub mod Quiet
use glados_docker.Common.{
  Bool, List, String, [], false, if◌then◌else◌, leb, length, ltb, not, str_eq, strip, true, ℕ, ◌&&◌,
  ◌++◌, ◌+◌, ◌-◌, ◌==◌, ◌∷◌,
}

pub record Gate : Type 0 where
  pub active_chats : ℕ
  pub last_chat_end_ts : ℕ

-- `_GRACE_AFTER_CHAT_S`
abbrev pub grace_after_chat : ℕ
grace_after_chat = 2000

unfoldable pub is_chat_in_flight : ℕ → Gate → Bool
is_chat_in_flight now g =
    if ltb 0 g.active_chats then true else ltb (now - g.last_chat_end_ts) grace_after_chat

-- The enter and the exit of `chat_in_flight`.
unfoldable pub enter_chat : Gate → Gate
enter_chat g = record g { active_chats = g.active_chats + 1 }

unfoldable pub exit_chat : ℕ → Gate → Gate
exit_chat now g =
    let active = g.active_chats - 1 in
    record {
      active_chats = active;
      last_chat_end_ts = if active == 0 then now else g.last_chat_end_ts;
    }

pub record AutonomyConfig : Type 0 where
  pub cooldown : ℕ
  pub coalesce_ticks : Bool

pub data Event : Type 0 where
  task_update : Bool → Event
  time_tick vision_update : Event

-- The loop, with what it shares: the gate, the event that something is being spoken, the queue
-- of the language model with its bound (0 is none) and the number of calls in flight.
pub record AutonomyLoop : Type 0 where
  pub config : AutonomyConfig
  pub gate : Gate
  pub speaking : Bool
  pub llm_queue : List String
  pub max_queue : ℕ
  pub inflight : ℕ
  pub processing_active : Bool
  pub last_prompt_ts : ℕ

unfoldable pub should_skip : ℕ → ℕ → AutonomyLoop → Bool
unfolding is_chat_in_flight
should_skip mono now l =
    if l.speaking
    then true
    else if is_chat_in_flight mono l.gate
    then true
    else if l.config.cooldown == 0
    then false
    else ltb (now - l.last_prompt_ts) l.config.cooldown

-- `_pending_autonomy`
unfoldable pub pending_autonomy : AutonomyLoop → Bool
pending_autonomy l = ltb 0 (l.inflight + length l.llm_queue)

abbrev pub is_muted : Event → Bool
is_muted (task_update notify_user) = not notify_user
is_muted time_tick = false
is_muted vision_update = false

abbrev pub is_tick : Event → Bool
is_tick time_tick = true
is_tick _ = false

abbrev pub is_full : AutonomyLoop → Bool
is_full l = if l.max_queue == 0 then false else leb l.max_queue (length l.llm_queue)

-- `_dispatch`, with the clock at its end, and whether the prompt was put in the queue.
unfoldable pub dispatch : ℕ → String → AutonomyLoop → Bool × AutonomyLoop
dispatch now prompt l =
    let stripped = strip prompt in
    if str_eq stripped "" then (false, l) else if is_full l then (false, l) else (
      true,
      record l {
        llm_queue = l.llm_queue ++ stripped ∷ [];
        processing_active = true;
        last_prompt_ts = now;
      },
    )

-- The body of the loop of `run`, with the clocks at the test and at the end.
unfoldable pub handle_event : ℕ → ℕ → ℕ → Event → String → AutonomyLoop → Bool × AutonomyLoop
unfolding should_skip pending_autonomy dispatch
handle_event mono now later event prompt l =
    if is_muted event
    then (false, l)
    else if should_skip mono now l
    then (false, l)
    else if is_tick event && l.config.coalesce_ticks && pending_autonomy l
    then (false, l)
    else if str_eq prompt ""
    then (false, l)
    else dispatch later prompt l
