-- ===== src/Core/Shutdown/Names.antt =====
-- The names of the results that the steps of a shutdown add.
use glados_docker.Common.{
  List, Option-cases, String, [], ap, append-cons, append-nil, append_assoc, arith, if◌then◌else◌,
  inl, inr, is_some, keep, map, map-append, str_append, sym, ℕ, ◌++◌, ◌∙◌, ◌∷◌, ◌≡◌,
}
use glados_docker.Core.Shutdown.{
  ComponentEntry, Groups, ShutdownOrchestrator, World, add_result, drain_group, drain_queue,
  drained_result, group_of, join_group, join_thread,
}
use glados_docker.Core.Shutdown.Groups.{in_group}

-- The names of the results of a group's queues, then of its threads.
abbrev pub queue_names : List ComponentEntry → List String
queue_names [] = []
queue_names (c ∷ cs) =
    if is_some c.queue then str_append c.name "_queue" ∷ queue_names cs else queue_names cs

abbrev pub group_names : List ComponentEntry → List String
group_names cs = queue_names cs ++ map (λ c. c.name) cs

-- The names of the results of the groups, one after another.
abbrev pub names_of : List ComponentEntry → List ℕ → List String
names_of cs [] = []
names_of cs (p ∷ ps) = group_names (keep (in_group p) cs) ++ names_of cs ps

abbrev pub result_names : ShutdownOrchestrator → List String
result_names o = map (λ r. r.component) o.results

drain_group-names :
    (w : World) (cs : List ComponentEntry) (o : ShutdownOrchestrator)
    → result_names (drain_group w cs o) ≡ result_names o ++ queue_names cs
unfolding drain_group
drain_group-names w [] o = sym (append-nil (result_names o))
drain_group-names w (c ∷ cs) o = elim (Option-cases c.queue) [
  | inl no_queue ↦ rw (no_queue, drain_group) (drain_group-names w cs o)
  | inr (items, there) ↦
      let drained = drain_queue w c items o.calls in
      let r = drained_result c.name drained.0 in
      rw (there, drain_group)
        (drain_group-names w cs (add_result drained.1 r o)
          ∙ ap (λ ns. ns ++ queue_names cs) (map-append (λ x. x.component) o.results (r ∷ []))
          ∙ append-cons (result_names o) (str_append c.name "_queue") (queue_names cs))
]

join_thread-name :
    (w : World) (c : ComponentEntry) (n : ℕ) → (join_thread w c n).0.component ≡ c.name
unfolding join_thread
join_thread-name w c n = ground arith

join_group-names :
    (w : World) (cs : List ComponentEntry) (o : ShutdownOrchestrator)
    → result_names (join_group w cs o) ≡ result_names o ++ map (λ c. c.name) cs
unfolding join_group
join_group-names w [] o = sym (append-nil (result_names o))
join_group-names w (c ∷ cs) o =
    let r = (join_thread w c o.calls).0 in
    join_group-names w cs (add_result (join_thread w c o.calls).1 r o)
    ∙ ap (λ ns. ns ++ map (λ d. d.name) cs) (map-append (λ x. x.component) o.results (r ∷ []))
    ∙ append-cons (result_names o) r.component (map (λ d. d.name) cs)
    ∙ ap (λ n. result_names o ++ n ∷ map (λ d. d.name) cs) (join_thread-name w c o.calls)

pub group_done :
    (w : World) (p : ℕ) (cs : List ComponentEntry) (groups : Groups) (o : ShutdownOrchestrator)
    → group_of p groups ≡ keep (in_group p) cs
    → result_names (join_group w (group_of p groups) (drain_group w (group_of p groups) o))
      ≡ result_names o ++ group_names (keep (in_group p) cs)
group_done w p cs groups o g =
    let group = group_of p groups in
    let all_names : result_names (join_group w group (drain_group w group o))
        ≡ result_names o ++ group_names group =
      join_group-names w group (drain_group w group o)
      ∙ ap (λ ns. ns ++ map (λ c. c.name) group) (drain_group-names w group o)
      ∙ append_assoc (result_names o) (queue_names group) (map (λ c. c.name) group) in
    all_names ∙ ap (λ x. result_names o ++ group_names x) g
