-- ===== src/Core/Shutdown/Order.antt =====
-- The order in which a shutdown stops the components.
use glados_docker.Common.{
  Bool-cases, List, Option, String, [], any_of, ap, append-nil, append_assoc, arith, false, inl,
  inr, keep, leb, length, none, refl, some, subst, suc, sym, take, true, values, zero, ℕ, ◌++◌, ◌+◌,
  ◌-◌, ◌<◌, ◌∙◌, ◌∷◌, ◌≡◌, ◌≤◌,
}
use glados_docker.Core.Shutdown.{
  ComponentEntry, Groups, ShutdownOrchestrator, World, add_result, drain_group, drain_one,
  group_by_priority, group_of, initiate_shutdown, join_group, join_thread, shutdown_groups,
  sort_numbers,
}
use glados_docker.Core.Shutdown.Groups.{
  distinct-all, group_of-all, in_group, mem, mem-all, mem-sort, ranks, rising, rising-sort,
}
use glados_docker.Core.Shutdown.Names.{group_done, group_names, names_of, result_names}

abbrev counted : ShutdownOrchestrator → ShutdownOrchestrator
counted o = record o { calls = o.calls + 1 }

abbrev after_group : World → List ComponentEntry → ShutdownOrchestrator → ShutdownOrchestrator
after_group w group o = join_group w group (drain_group w group (counted o))

stops :
    (w : World) (start p : ℕ) (ps : List ℕ) (groups : Groups) (o : ShutdownOrchestrator)
    → leb o.global_timeout (w.clock o.calls - start) ≡ true
    → shutdown_groups w start (p ∷ ps) groups o ≡ counted o
unfolding shutdown_groups
stops w start p ps groups o late = rw (late, shutdown_groups)

goes_on :
    (w : World) (start p : ℕ) (ps : List ℕ) (groups : Groups) (o : ShutdownOrchestrator)
    → leb o.global_timeout (w.clock o.calls - start) ≡ false
    → shutdown_groups w start (p ∷ ps) groups o
      ≡ shutdown_groups w start ps groups (after_group w (group_of p groups) o)
unfolding shutdown_groups
goes_on w start p ps groups o in_time = rw (in_time, shutdown_groups)

-- The groups of the first `n` priorities were stopped, all of them where the time is enough.
record Stopped (w : World) (start : ℕ) (cs : List ComponentEntry) (ps : List ℕ)
    (before : List String) (timeout : ℕ) (o : ShutdownOrchestrator) : Type 0 where
  n : ℕ
  names : result_names o ≡ before ++ names_of cs (take n ps)
  complete : ((k : ℕ) → w.clock k - start < timeout) → length ps ≤ n

same_timeout-join :
    (w : World) (cs : List ComponentEntry) (o : ShutdownOrchestrator)
    → (join_group w cs o).global_timeout ≡ o.global_timeout
unfolding join_group
same_timeout-join w [] o = refl
same_timeout-join w (c ∷ cs) o =
    same_timeout-join w cs (add_result (join_thread w c o.calls).1 (join_thread w c o.calls).0 o)

same_timeout-one :
    (w : World) (c : ComponentEntry) (q : Option (List String)) (o : ShutdownOrchestrator)
    → (drain_one w c q o).global_timeout ≡ o.global_timeout
same_timeout-one w c none o = refl
same_timeout-one w c (some items) o = refl

too_late : (t m : ℕ) → leb m t ≡ true → ¬ (t < m)
too_late t m h l = ground (arith, h, l)

same_timeout-drain :
    (w : World) (cs : List ComponentEntry) (o : ShutdownOrchestrator)
    → (drain_group w cs o).global_timeout ≡ o.global_timeout
unfolding drain_group
same_timeout-drain w [] o = refl
same_timeout-drain w (c ∷ cs) o =
    same_timeout-drain w cs (drain_one w c c.queue o) ∙ same_timeout-one w c c.queue o

shutdown_groups-Stopped :
    (w : World) (start : ℕ) (ps : List ℕ) (cs : List ComponentEntry) (groups : Groups)
    (o : ShutdownOrchestrator)
    → ((p : ℕ) → group_of p groups ≡ keep (in_group p) cs)
    → Stopped w start cs ps (result_names o) o.global_timeout (shutdown_groups w start ps groups o)
unfolding shutdown_groups
shutdown_groups-Stopped w start [] cs groups o g = record {
  n = 0;
  names = sym (append-nil (result_names o));
  complete = λ t. omega arith;
}
shutdown_groups-Stopped w start (p ∷ ps) cs groups o g =
    elim (Bool-cases (leb o.global_timeout (w.clock o.calls - start))) [
      | inl late ↦ record {
        n = 0;
        names =
            ap result_names (stops w start p ps groups o late) ∙ sym (append-nil (result_names o));
        complete =
            λ t. absurd (too_late (w.clock o.calls - start) o.global_timeout late (t o.calls));
      }
      | inr in_time ↦
          let drained = drain_group w (group_of p groups) (counted o) in
          let after = after_group w (group_of p groups) o in
          let rest = shutdown_groups-Stopped w start ps cs groups after g in
          let same =
            same_timeout-join w (group_of p groups) drained
            ∙ same_timeout-drain w (group_of p groups) (counted o) in
          let names : result_names (shutdown_groups w start ps groups after)
              ≡ result_names o
                ++ (group_names (keep (in_group p) cs) ++ names_of cs (take rest.n ps)) =
            rest.names
            ∙ ap (λ ns. ns ++ names_of cs (take rest.n ps))
                (group_done w p cs groups (counted o) (g p))
            ∙ append_assoc (result_names o) (group_names (keep (in_group p) cs))
                (names_of cs (take rest.n ps)) in
          record {
            n = suc rest.n;
            names = ap result_names (goes_on w start p ps groups o in_time) ∙ names;
            complete = λ t.
                omega
                  (arith, rest.complete (λ k. subst (λ m. w.clock k - start < m) (sym same) (t k)));
          }
    ]

-- What a shutdown leaves: a list of all the components' priorities, strictly rising, and how many of
-- them it came to.
pub record OrderedShutdown (w : World) (o : ShutdownOrchestrator) : Type 0 where
  pub priorities : List ℕ
  pub rising_priorities : rising priorities ≡ true
  pub covers : (p : ℕ) → mem p priorities ≡ any_of (in_group p) (values o.components)
  pub n : ℕ
  pub names :
      result_names (initiate_shutdown w o)
      ≡ result_names o ++ names_of (values o.components) (take n priorities)

ordered :
    (w : World) (o : ShutdownOrchestrator)
    → Stopped w
        (w.clock o.calls)
        (values o.components)
        (sort_numbers (ranks (group_by_priority (values o.components) [])))
        (result_names o)
        o.global_timeout
        (initiate_shutdown w o)
unfolding initiate_shutdown group_of
ordered w o =
    let cs = values o.components in
    let groups = group_by_priority cs [] in
    shutdown_groups-Stopped w (w.clock o.calls) (sort_numbers (ranks groups)) cs groups
      (record o { shutdown_event = true; calls = o.calls + 1 }) (λ p. group_of-all p cs [])

-- A shutdown stops the groups of components in the strictly rising order of their priorities, each
-- group with the drains of its queues before the joins of its threads, in the order of
-- registration; the global timeout can only cut the last groups off as a whole.
pub shutdown_order : (w : World) (o : ShutdownOrchestrator) → OrderedShutdown w o
shutdown_order w o =
    let cs = values o.components in
    let groups = group_by_priority cs [] in
    let s = ordered w o in
    record {
      priorities = sort_numbers (ranks groups);
      rising_priorities = rising-sort (ranks groups) (distinct-all cs [] refl);
      covers = λ p. mem-sort p (ranks groups) ∙ mem-all p cs [] ∙ ground arith;
      n = s.n;
      names = s.names;
    }

take_all : (n : ℕ) (ps : List ℕ) → length ps ≤ n → take n ps ≡ ps
take_all zero [] h = refl
take_all zero (p ∷ ps) h = absurd (omega arith)
take_all (suc n) [] h = refl
take_all (suc n) (p ∷ ps) h = ap (◌∷◌ p) (take_all n ps (omega arith))

-- If the clock stays within the global timeout, every registered component has its result: the
-- groups of all the components' priorities are stopped, in strictly rising order.
pub shutdown_complete :
    (w : World) (o : ShutdownOrchestrator)
    → ((k : ℕ) → w.clock k - w.clock o.calls < o.global_timeout)
    → (ps : List ℕ) × (rising ps ≡ true)
      × ((p : ℕ) → mem p ps ≡ any_of (in_group p) (values o.components))
      × (result_names (initiate_shutdown w o) ≡ result_names o ++ names_of (values o.components) ps)
shutdown_complete w o timely =
    let cs = values o.components in
    let groups = group_by_priority cs [] in
    let s = ordered w o in
    (
      sort_numbers (ranks groups),
      rising-sort (ranks groups) (distinct-all cs [] refl),
      λ p. mem-sort p (ranks groups) ∙ mem-all p cs [] ∙ ground arith,
      s.names
          ∙ ap (λ ps. result_names o ++ names_of cs ps)
              (take_all s.n (sort_numbers (ranks groups)) (s.complete timely)),
    )
