-- ===== src/Core/KeyStore/Restart.antt =====
-- A store that is opened again.
use glados_docker.Common.{
  Bool, Bool-cases, List, Option, String, [], all_of, arith, false, get, get_elem?, has, inl, inr,
  length, none, put, refl, remove, some, true, ℕ, ◌∷◌, ◌≡◌,
}
use glados_docker.Core.KeyStore.{
  Store, Write, after_save, begin_telling, clear_store, cut_short, delete_key, loaded_entries,
  missing, not_opened, open_store, refused_value, save_store, saved, serializable, set_locked,
  store_updated, tell_change, tell_of, tell_set, update_key, updated_value, write_store,
  written_file,
}

-- The steps of the threads: the locked part of a `set`, a call of `on_change` that a `set` has still
-- to make, and the other methods.
pub data Op {ℓ} (V : Type ℓ) : Type ℓ where
  set_op : String → V → Write → Op V
  tell_op : ℕ → Op V
  delete_op : String → Write → Op V
  update_op : String → (V → Option V) → Write → Op V
  clear_op : Write → Op V

module _ {ℓ} {V : Type ℓ} where
  abbrev pub is_saved : Op V → Bool
  is_saved (set_op key v saved) = true
  is_saved (delete_op key saved) = true
  is_saved (update_op key fields saved) = true
  is_saved (clear_op saved) = true
  is_saved (tell_op n) = true
  is_saved _ = false

module _ {ℓ} {V : Type ℓ} (asdict : V → V) where
  unfoldable pub step : Store V → Op V → Store V
  unfolding set_locked tell_set delete_key update_key clear_store
  step s (set_op key v w) = (set_locked asdict key v w s).1
  step s (tell_op n) = tell_set n s
  step s (delete_op key w) = (delete_key asdict key w s).1
  step s (update_op key fields w) = (update_key asdict key fields w s).1
  step s (clear_op w) = (clear_store asdict w s).1

  unfoldable pub run : Store V → List (Op V) → Store V
  unfolding step
  run s [] = s
  run s (op ∷ ops) = run (step s op) ops

  -- The file has what the store has.
  abbrev InStep : Store V → Type ℓ
  InStep s = (s.has_path ≡ true) × (loaded_entries s.file ≡ serializable asdict s.entries)

  write-InStep {κ} :
      {R : Type κ} (r : R) (next : Store V → Store V) (b : Bool) (s : Store V)
      → s.has_path ≡ b
      → b ≡ true
      → ((t : Store V) → InStep t → InStep (next t))
      → InStep (after_save r next (write_store asdict b saved s)).1
  write-InStep r next false s p t keeps = cc t
  write-InStep r next true s p t keeps =
      keeps (record s { file = written_file asdict saved s.file s.entries }) (p, refl)

  save_store-InStep {κ} :
      {R : Type κ} (r : R) (next : Store V → Store V) (s : Store V)
      → s.has_path ≡ true
      → ((t : Store V) → InStep t → InStep (next t))
      → InStep (after_save r next (save_store asdict saved s)).1
  unfolding save_store
  save_store-InStep r next s p keeps = write-InStep r next s.has_path s refl p keeps

  tell-InStep : (n : ℕ) (s : Store V) (o : Option (String × V)) → InStep s → InStep (tell_of n s o)
  tell-InStep n s none h = h
  tell-InStep n s (some (key, v)) h = h

  delete-InStep : (key : String) (s : Store V) → InStep s → InStep (delete_key asdict key saved s).1
  unfolding delete_key
  delete-InStep key s h = elim (Bool-cases (has key s.entries)) [
    | inl there ↦ rw there (
        save_store-InStep true (tell_change key none) (record s { entries = remove key s.entries })
          h.0 (λ t k. k))
    | inr gone ↦ rw gone h
  ]

  updated-InStep :
      (key : String) (s : Store V) (o : Option V)
      → InStep s
      → InStep (store_updated asdict key saved s o).1
  updated-InStep key s none h = h
  updated-InStep key s (some v) h =
      save_store-InStep (some v) (tell_change key (some v))
        (record s { entries = put key v s.entries }) h.0 (λ t k. k)

  step-InStep : (s : Store V) (op : Op V) → is_saved op ≡ true → InStep s → InStep (step s op)
  unfolding step set_locked update_key clear_store tell_set
  step-InStep s (set_op key v saved) e h =
      save_store-InStep tt (begin_telling key v) (record s { entries = put key v s.entries }) h.0
        (λ t k. k)
  step-InStep s (tell_op n) e h = tell-InStep n s (get_elem? s.untold n) h
  step-InStep s (delete_op key saved) e h = delete-InStep key s h
  step-InStep s (update_op key fields saved) e h =
      updated-InStep key s (updated_value fields (get key s.entries)) h
  step-InStep s (clear_op saved) e h =
      save_store-InStep (length s.entries) (λ t. t) (record s { entries = [] }) h.0 (λ t k. k)
  step-InStep s (set_op key v not_opened) e h = cc
  step-InStep s (set_op key v cut_short) e h = cc
  step-InStep s (set_op key v refused_value) e h = cc
  step-InStep s (delete_op key not_opened) e h = cc
  step-InStep s (delete_op key cut_short) e h = cc
  step-InStep s (delete_op key refused_value) e h = cc
  step-InStep s (update_op key fields not_opened) e h = cc
  step-InStep s (update_op key fields cut_short) e h = cc
  step-InStep s (update_op key fields refused_value) e h = cc
  step-InStep s (clear_op not_opened) e h = cc
  step-InStep s (clear_op cut_short) e h = cc
  step-InStep s (clear_op refused_value) e h = cc

  run_from-InStep :
      (s : Store V) (ops : List (Op V)) → all_of is_saved ops ≡ true → InStep s → InStep (run s ops)
  unfolding run
  run_from-InStep s [] e h = h
  run_from-InStep s (op ∷ ops) e h =
      run_from-InStep (step s op) ops (ground arith) (step-InStep s op (ground arith) h)

  open-InStep : InStep (open_store true missing)
  unfolding open_store
  open-InStep = (refl, refl)

-- A store with a path, on a file that is missing at first, after any steps of operations whose writes
-- all succeed: opened again, it has the same keys in the same order, each with what `asdict` makes of
-- its value.
pub restart-run {ℓ} :
    {V : Type ℓ} (asdict : V → V) (ops : List (Op V))
    → all_of (is_saved) ops ≡ true
    → (let s = run asdict (open_store true missing) ops in
        (open_store true s.file).entries ≡ serializable asdict s.entries)
unfolding open_store
restart-run asdict ops e =
    (run_from-InStep asdict (open_store true missing) ops e (open-InStep asdict)).1
