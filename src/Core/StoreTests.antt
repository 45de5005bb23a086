-- ===== src/Core/StoreTests.antt =====
-- The generic store at concrete inputs.
use glados_docker.Common.{
  List, [], get, has, none, put, refl, remove, some, true, ℕ, ◌*◌, ◌+◌, ◌∷◌, ◌≡◌,
}
use glados_docker.Core.KeyStore.{
  File, cut_short, delete_key, holds, missing, not_opened, open_store, refused_value, save_store,
  saved, serializable, set_locked, tell_set, update_key,
}
use glados_docker.Core.KeyStore.Restart.{
  Op, delete_op, restart-run, run, set_op, step, tell_op, update_op,
}
use glados_docker.Core.KeyStore.Changes.{follow, follow-run}

abbrev writes_ops : List (Op ℕ)
writes_ops =
    set_op "a" 1 saved
    ∷ set_op "b" 2 saved
    ∷ tell_op 1
    ∷ update_op "a" (λ v. some (v + 10)) saved
    ∷ update_op "c" (λ v. some v) saved
    ∷ delete_op "b" saved
    ∷ []

abbrev as_saved : ℕ → ℕ
as_saved n = n * 2

restart-run_example :
    (let s = run as_saved (open_store true missing) writes_ops in
      (open_store true s.file).entries ≡ serializable as_saved s.entries)
restart-run_example = restart-run as_saved writes_ops refl

reopened :
    (open_store true (run as_saved (open_store true missing) writes_ops).file).entries
    ≡ ("a", 22) ∷ []
unfolding run step set_locked tell_set update_key delete_key save_store open_store get put remove
    has
reopened = refl

abbrev on_disk : File ℕ
on_disk = holds (("a", 4) ∷ [])

abbrev faulty_ops : List (Op ℕ)
faulty_ops =
    set_op "a" 5 not_opened
    ∷ tell_op 0
    ∷ set_op "b" 2 cut_short
    ∷ tell_op 0
    ∷ delete_op "a" saved
    ∷ []

follow-run_example :
    (let s = open_store true on_disk in
      follow s.entries (run as_saved s faulty_ops).changes ≡ (run as_saved s faulty_ops).entries)
follow-run_example = follow-run as_saved true on_disk faulty_ops refl

-- Two calls of `set` that overlap may be told in the other order.
abbrev overlapping : List (Op ℕ)
overlapping = set_op "a" 1 saved ∷ set_op "a" 2 saved ∷ tell_op 1 ∷ tell_op 0 ∷ []

told_backwards :
    ((run as_saved (open_store true missing) overlapping).entries ≡ ("a", 2) ∷ [])
    × (follow [] (run as_saved (open_store true missing) overlapping).changes ≡ ("a", 1) ∷ [])
unfolding run step set_locked tell_set save_store open_store get put
told_backwards = (refl, refl)

-- A value that cannot be written: `set` raises, with the value in the store and nobody told.
refused : (set_locked as_saved "a" 1 refused_value (open_store true missing)).0 ≡ none
unfolding set_locked save_store open_store put
refused = refl
