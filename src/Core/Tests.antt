-- ===== src/Core/Tests.antt =====
-- Registrations, prompts and shutdowns at concrete inputs.
use glados_docker.Common.{
  List, Option, String, [], any_of, arith, false, if◌then◌else◌, keep, map, none, refl, some,
  str_eq, true, values, ℕ, ◌++◌, ◌∷◌, ◌≡◌,
}
use glados_docker.Core.Context.{
  Content, build_combined_prompt, gives, insert_priority, raises, register, unregister,
}
use glados_docker.Core.Context.Order.{
  Op, at_priority, build, build-registry, falling, register_op, registry, unregister_op,
}
use glados_docker.Core.Shutdown.{
  ComponentEntry, ShutdownOrchestrator, World, add_to_group, initiate_shutdown, insert_number,
  join_thread,
}
use glados_docker.Core.Shutdown.Groups.{in_group, mem, rising}
use glados_docker.Core.Shutdown.Names.{names_of, result_names}
use glados_docker.Core.Shutdown.Order.{OrderedShutdown, shutdown_complete, shutdown_order}

abbrev registrations : List Op
registrations =
    register_op "emotion" "e1" 5
    ∷ register_op "memory" "m1" 5
    ∷ register_op "preferences" "p1" 10
    ∷ register_op "emotion" "e2" 5
    ∷ unregister_op "tasks"
    ∷ []

build-registry_example :
    (falling (build [] registrations) ≡ true)
    × (keep (at_priority 5) (build [] registrations)
        ≡ keep (at_priority 5) (registry [] registrations))
build-registry_example = build-registry registrations 5

in_order : map (λ e. e.source) (build [] registrations) ≡ "p1" ∷ "m1" ∷ "e2" ∷ []
unfolding build register unregister insert_priority
in_order = refl

abbrev answers : String → Content
answers s = if str_eq s "m1" then raises else gives s

prompt : build_combined_prompt answers ", " (build [] registrations) ≡ some "p1, e2"
unfolding build register unregister insert_priority build_combined_prompt
prompt = refl

abbrev part : String → ℕ → Option (List String) → String × ComponentEntry
part name priority queue =
    (name, record { name = name; queue = queue; priority = priority; drain_timeout = 5 })

abbrev engine : ShutdownOrchestrator
engine = record {
  shutdown_event = false;
  global_timeout = 30;
  components =
      part "llm" 2 (some ("a" ∷ "b" ∷ []))
      ∷ part "tts" 3 (some [])
      ∷ part "asr" 1 none
      ∷ part "tools" 2 (some ("c" ∷ []))
      ∷ [];
  results = [];
  calls = 0;
}

-- Every thread stops at once.
abbrev calm : World
calm = record { clock = λ n. 100; is_alive = λ n name. false; join = λ n name. none }

shutdown_order_example : OrderedShutdown calm engine
shutdown_order_example = shutdown_order calm engine

shutdown_complete_example :
    (ps : List ℕ) × (rising ps ≡ true)
    × ((p : ℕ) → mem p ps ≡ any_of (in_group p) (values engine.components))
    × (result_names (initiate_shutdown calm engine)
        ≡ result_names engine ++ names_of (values engine.components) ps)
shutdown_complete_example = shutdown_complete calm engine (λ k. omega arith)

stopped :
    result_names (initiate_shutdown calm engine)
    ≡ "asr" ∷ "llm_queue" ∷ "tools_queue" ∷ "llm" ∷ "tools" ∷ "tts_queue" ∷ "tts" ∷ []
unfolding initiate_shutdown add_to_group insert_number join_thread
stopped = refl

drained :
    map (λ r. r.items_drained) (initiate_shutdown calm engine).results
    ≡ 0 ∷ 2 ∷ 1 ∷ 0 ∷ 0 ∷ 0 ∷ 0 ∷ []
unfolding initiate_shutdown add_to_group insert_number join_thread
drained = refl
