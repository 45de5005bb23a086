-- ===== src/Core/KnowledgeTests.antt =====
-- The store of knowledge at concrete inputs.
use glados_docker.Common.{List, [], map, none, refl, ◌+◌, ◌∷◌, ◌≡◌}
use glados_docker.Core.Knowledge.{
  add_entry, delete_entry, load_entries, max_id, missing, update_entries, update_entry,
  write_entries,
}
use glados_docker.Core.Knowledge.Ids.{Op, add_op, delete_op, run, step, update_op}
use glados_docker.Core.Knowledge.Lookup.{entry_after, entry_at, entry_at-step}

abbrev edits : List Op
edits = add_op 1 "a" ∷ add_op 2 "b" ∷ add_op 3 "c" ∷ delete_op 2 ∷ update_op 4 3 "d" ∷ []

ids : map (λ e. e.entry_id) (load_entries (run missing edits)) ≡ 1 ∷ 3 ∷ []
unfolding run step add_entry delete_entry update_entry update_entries load_entries write_entries
    max_id
ids = refl

entry_at-step_example :
    (entry_at (max_id (load_entries (run missing edits)) + 1) (run missing edits) ≡ none)
    × (entry_at 3 (step (run missing edits) (update_op 9 3 "e"))
        ≡ entry_after
            (max_id (load_entries (run missing edits)) + 1)
            3
            (update_op 9 3 "e")
            (entry_at 3 (run missing edits)))
entry_at-step_example = entry_at-step (run missing edits) (update_op 9 3 "e") 3

-- The id of the newest entry is used again after it is deleted.
used_again : (add_entry 9 "x" (step (run missing edits) (delete_op 3))).0.entry_id ≡ 2
unfolding run step add_entry delete_entry update_entry update_entries load_entries write_entries
    max_id
used_again = refl
