-- ===== src/Core/Shutdown.antt =====
-- glados/core/shutdown.py: `ShutdownOrchestrator`. `World` is what the clock and the threads answer
-- to each call, by its number; a clock that is read only to set the timeout of a `join` is left
-- out, and so is that timeout. Nothing is put in a queue while it is drained; the items that a
-- drain takes are counted and dropped, and what it leaves in the queue is not kept here.
pub mod Groups
pub mod Names
pub mod Order
use glados_docker.Common.{
  Bool, Dict, List, Option, String, [], false, if◌then◌else◌, leb, ltb, map, none, not, put, remove,
  some, str_append, true, values, ℕ, ◌++◌, ◌+◌, ◌-◌, ◌==◌, ◌∷◌,
}

pub record ComponentEntry : Type 0 where
  pub name : String
  pub queue : Option (List String)
  pub priority : ℕ
  pub drain_timeout : ℕ

pub record ShutdownResult : Type 0 where
  pub component : String
  pub success : Bool
  pub duration : ℕ
  pub items_drained : ℕ
  pub error : Option String

-- `join` is the text of an exception, if it raises.
pub record World : Type 0 where
  pub clock : ℕ → ℕ
  pub is_alive : ℕ → String → Bool
  pub join : ℕ → String → Option String

pub record ShutdownOrchestrator : Type 0 where
  pub shutdown_event : Bool
  pub global_timeout : ℕ
  pub components : Dict ComponentEntry
  pub results : List ShutdownResult
  pub calls : ℕ

unfoldable pub register_component : ComponentEntry → ShutdownOrchestrator → ShutdownOrchestrator
register_component c o = record o { components = put c.name c o.components }

unfoldable pub unregister_component : String → ShutdownOrchestrator → ShutdownOrchestrator
unregister_component name o = record o { components = remove name o.components }

abbrev pub add_result : ℕ → ShutdownResult → ShutdownOrchestrator → ShutdownOrchestrator
add_result calls r o = record o { results = o.results ++ r ∷ []; calls = calls }

-- The loop of `_drain_queue`: the items that it took, and the number of its clock's reads.
unfoldable pub drain_items : World → ℕ → List String → ℕ → ℕ × ℕ
drain_items w deadline [] calls = (0, calls + 1)
drain_items w deadline (x ∷ items) calls =
    let rest = drain_items w deadline items (calls + 1) in
    if ltb (w.clock calls) deadline then (rest.0 + 1, rest.1) else (0, calls + 1)

abbrev pub drain_queue : World → ComponentEntry → List String → ℕ → ℕ × ℕ
drain_queue w c items calls = drain_items w (w.clock calls + c.drain_timeout) items (calls + 1)

abbrev pub drained_result : String → ℕ → ShutdownResult
drained_result name n = record {
  component = str_append name "_queue";
  success = true;
  duration = 0;
  items_drained = n;
  error = none;
}

-- The drain of one component, if it has a queue.
abbrev pub drain_one :
    World → ComponentEntry → Option (List String) → ShutdownOrchestrator → ShutdownOrchestrator
drain_one w c none o = o
drain_one w c (some items) o =
    let drained = drain_queue w c items o.calls in
    add_result drained.1 (drained_result c.name drained.0) o

unfoldable pub drain_group :
    World → List ComponentEntry → ShutdownOrchestrator → ShutdownOrchestrator
unfolding drain_items
drain_group w [] o = o
drain_group w (c ∷ group) o = drain_group w group (drain_one w c c.queue o)

-- `_join_thread`, from the number of the first of its calls: the result and the next number.
abbrev pub joined : String → Bool → ℕ → Option String → ShutdownResult
joined name success duration error = record {
  component = name;
  success = success;
  duration = duration;
  items_drained = 0;
  error = error;
}

unfoldable pub join_thread : World → ComponentEntry → ℕ → ShutdownResult × ℕ
join_thread w c n =
    if not (w.is_alive (n + 1) c.name)
    then (joined c.name true 0 none, n + 2)
    else let duration = w.clock (n + 3) - w.clock n in
      elim (w.join (n + 2) c.name) [
        | some exc ↦ (joined c.name false duration (some exc), n + 4)
        | none ↦
            if w.is_alive (n + 4) c.name
            then (joined c.name false duration (some "Timeout"), n + 5)
            else (joined c.name true duration none, n + 5)
      ]

unfoldable pub join_group :
    World → List ComponentEntry → ShutdownOrchestrator → ShutdownOrchestrator
join_group w [] o = o
join_group w (c ∷ group) o =
    join_group w group (add_result (join_thread w c o.calls).1 (join_thread w c o.calls).0 o)

-- `priority_groups`, a dictionary by priority in insertion order.
abbrev pub Groups : Type 0
Groups = List (ℕ × List ComponentEntry)

unfoldable pub add_to_group : ComponentEntry → Groups → Groups
add_to_group c [] = (c.priority, c ∷ []) ∷ []
add_to_group c ((p, group) ∷ groups) =
    if p == c.priority then (p, group ++ c ∷ []) ∷ groups else (p, group) ∷ add_to_group c groups

unfoldable pub group_by_priority : List ComponentEntry → Groups → Groups
unfolding add_to_group
group_by_priority [] groups = groups
group_by_priority (c ∷ cs) groups = group_by_priority cs (add_to_group c groups)

-- `priority_groups[p]`, of a key that is there.
unfoldable pub group_of : ℕ → Groups → List ComponentEntry
group_of p [] = []
group_of p ((q, group) ∷ groups) = if q == p then group else group_of p groups

unfoldable pub insert_number : ℕ → List ℕ → List ℕ
insert_number p [] = p ∷ []
insert_number p (q ∷ qs) = if leb p q then p ∷ q ∷ qs else q ∷ insert_number p qs

-- `sorted`
unfoldable pub sort_numbers : List ℕ → List ℕ
unfolding insert_number
sort_numbers [] = []
sort_numbers (p ∷ ps) = insert_number p (sort_numbers ps)

-- The loop over the groups, from the time of the start.
unfoldable pub shutdown_groups :
    World → ℕ → List ℕ → Groups → ShutdownOrchestrator → ShutdownOrchestrator
unfolding drain_group join_group group_of
shutdown_groups w start [] groups o = o
shutdown_groups w start (p ∷ ps) groups o =
    let now = w.clock o.calls in
    let o' = record o { calls = o.calls + 1 } in
    elim (leb o.global_timeout (now - start)) [
      | true ↦ o'
      | false ↦
          shutdown_groups w start ps groups
            (join_group w (group_of p groups) (drain_group w (group_of p groups) o'))
    ]

unfoldable pub initiate_shutdown : World → ShutdownOrchestrator → ShutdownOrchestrator
unfolding shutdown_groups group_by_priority sort_numbers
initiate_shutdown w o =
    let groups = group_by_priority (values o.components) [] in
    shutdown_groups w (w.clock o.calls) (sort_numbers (map (λ g. g.0) groups)) groups
      (record o { shutdown_event = true; calls = o.calls + 1 })
