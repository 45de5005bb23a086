-- ===== src/Autonomy/SubagentTests.antt =====
-- Subagents at concrete inputs.
use glados_docker.Common.{
  Bool, List, String, [], false, get, if◌then◌else◌, put, refl, some, true, ℕ, ◌+◌, ◌∷◌, ◌≡◌, ◌≤◌,
}
use glados_docker.Autonomy.Subagents.{
  Subagent, SubagentManager, do_tick, end_run, loop_run, quiet, start, start_all, stop, tick_run,
  with_agent,
}
use glados_docker.Autonomy.Subagents.Stops.{
  Event, run, started, step, stop_quiets, tested, ticked, ticks_of, told_to_stop,
}

abbrev agent : String → Bool → ℕ → Subagent
agent title going ticks = record {
  title = title;
  loop_interval_s = 10;
  run_on_start = true;
  shutdown_event = 7;
  running = going;
  launched = 0;
  looping = if going then 1 else 0;
  due = 0;
  last_tick = 0;
  tick_count = ticks;
}

abbrev empty_manager : SubagentManager
empty_manager = record { agents = []; shutdown_event = 7; set_events = []; slots = [] }

-- Its thread has passed the test of the loop.
abbrev about_to_tick : Subagent
about_to_tick = record (agent "News" true 5) { looping = 0; due = 1 }

abbrev two_agents : SubagentManager
two_agents = record empty_manager {
  agents = ("mail", agent "Mail" true 3) ∷ ("news", about_to_tick) ∷ [];
}

abbrev mail_stopped : SubagentManager
mail_stopped = record two_agents { set_events = 7 ∷ [] }

abbrev later : List Event
later = ticked "news" 100 quiet ∷ started "mail" ∷ tested "news" 200 ∷ []

mail_stops : stop "mail" two_agents ≡ some mail_stopped
unfolding stop get
mail_stops = refl

known :
    (get "mail" two_agents.agents ≡ some (agent "Mail" true 3))
    × (get "news" two_agents.agents ≡ some about_to_tick)
unfolding get
known = (refl, refl)

stop_quiets_example :
    (told_to_stop (run later mail_stopped) (get "news" (run later mail_stopped).agents) ≡ true)
    × (ticks_of (get "news" (run later mail_stopped).agents) ≤ 5 + 1)
stop_quiets_example =
    stop_quiets "mail" "news" (agent "Mail" true 3) about_to_tick two_agents mail_stopped later
      known.0 refl known.1 refl mail_stops

-- The thread that had passed the test ticks once more, and then ends.
last_tick_comes :
    get "news" (run later mail_stopped).agents
    ≡ some (record (agent "News" false 6) { last_tick = 100 })
unfolding run step loop_run tick_run do_tick end_run start get put
last_tick_comes = refl

-- A start before the first thread has begun makes a second thread.
abbrev idle_mail : SubagentManager
idle_mail = with_agent "mail" (agent "Mail" false 0) empty_manager

two_threads :
    (start_all ("mail" ∷ "mail" ∷ []) idle_mail).agents
    ≡ ("mail", record (agent "Mail" false 0) { launched = 2 }) ∷ []
unfolding start_all start get put
two_threads = refl
