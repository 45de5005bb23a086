-- ===== src/Core/KeyStore/Changes.antt =====
-- What `on_change` is told.
use glados_docker.Common.{
  Bool, Bool-cases, Dict, List, Option, String, [], ap, arith, false, get, get_elem?, has, inl, inr,
  none, not, put, refl, remove, some, subst, suc, sym, true, zero, ◌&&◌, ◌++◌, ◌∙◌, ◌∷◌, ◌≡◌,
}
use glados_docker.Core.KeyStore.{
  File, Store, Write, after_save, begin_telling, cut_short, delete_key, not_opened, open_store,
  raises, refused_value, save_store, saved, set_locked, store_updated, tell_change, tell_of,
  tell_set, unreadable, update_key, updated_value, write_store, written_file,
}
use glados_docker.Core.KeyStore.Restart.{
  Op, clear_op, delete_op, run, set_op, step, tell_op, update_op,
}

-- A dictionary that follows the calls of `on_change`.
abbrev pub follow {ℓ} : {V : Type ℓ} → Dict V → List (String × Option V) → Dict V
follow d [] = d
follow d ((key, none) ∷ changes) = follow (remove key d) changes
follow d ((key, some v) ∷ changes) = follow (put key v d) changes

-- Methods that do not overlap: the call of `on_change` of a `set` comes before any other step. None
-- is `clear`, and none raises. `telling` is whether such a call is the next step.
abbrev pub one_by_one {ℓ} : {V : Type ℓ} → Bool → List (Op V) → Bool
one_by_one telling [] = not telling
one_by_one false (set_op key v w ∷ ops) = not (raises w) && one_by_one true ops
one_by_one false (tell_op n ∷ ops) = false
one_by_one false (delete_op key w ∷ ops) = not (raises w) && one_by_one false ops
one_by_one false (update_op key fields w ∷ ops) = not (raises w) && one_by_one false ops
one_by_one false (clear_op w ∷ ops) = false
one_by_one true (tell_op zero ∷ ops) = one_by_one false ops
one_by_one true (tell_op (suc n) ∷ ops) = false
one_by_one true (set_op key v w ∷ ops) = false
one_by_one true (delete_op key w ∷ ops) = false
one_by_one true (update_op key fields w ∷ ops) = false
one_by_one true (clear_op w ∷ ops) = false

-- The calls of `on_change` that are still to be made.
abbrev to_tell {ℓ} : {V : Type ℓ} → List (String × V) → List (String × Option V)
to_tell [] = []
to_tell ((key, v) ∷ rest) = (key, some v) ∷ to_tell rest

module _ {ℓ} {V : Type ℓ} (asdict : V → V) (d : Dict V) where
  follow-append :
      (c : Dict V) (changes : List (String × Option V)) (key : String) (v : Option V)
      → follow c (changes ++ (key, v) ∷ []) ≡ follow (follow c changes) ((key, v) ∷ [])
  follow-append c [] key v = refl
  follow-append c ((k, none) ∷ changes) key v = follow-append (remove k c) changes key v
  follow-append c ((k, some w) ∷ changes) key v = follow-append (put k w c) changes key v

  record Follows (s : Store V) : Type ℓ where
    told : follow d s.changes ≡ s.entries
    all_told : s.untold ≡ []

  record Awaits (s : Store V) : Type ℓ where
    key : String
    value : V
    one_left : s.untold ≡ (key, value) ∷ []
    lags : put key value (follow d s.changes) ≡ s.entries

  -- A write that does not raise has changed nothing but the file.
  write-Keeps {κ} :
      {R : Type κ} (P : Store V → Type ℓ) (r : R) (next : Store V → Store V) (b : Bool) (w : Write)
      (s : Store V)
      → raises w ≡ false
      → ((f : File V) → P (next (record s { file = f })))
      → P (after_save r next (write_store asdict b w s)).1
  write-Keeps P r next false w s e h = h s.file
  write-Keeps P r next true saved s e h = h (written_file asdict saved s.file s.entries)
  write-Keeps P r next true not_opened s e h = h s.file
  write-Keeps P r next true cut_short s e h = h unreadable
  write-Keeps P r next true refused_value s e h = cc e

  tell-Follows :
      (key : String) (v : Option V) (s : Store V) (e : Dict V) (f : File V)
      → Follows s
      → follow s.entries ((key, v) ∷ []) ≡ e
      → Follows (tell_change key v (record s { entries = e; file = f }))
  tell-Follows key v s e f h k = record {
    told = follow-append d s.changes key v ∙ ap (λ c. follow c ((key, v) ∷ [])) h.told ∙ k;
    all_told = h.all_told;
  }

  set-Awaits :
      (key : String) (v : V) (w : Write) (s : Store V)
      → raises w ≡ false
      → Follows s
      → Awaits (set_locked asdict key v w s).1
  unfolding set_locked save_store
  set-Awaits key v w s e h =
      write-Keeps Awaits tt (begin_telling key v) s.has_path w
        (record s { entries = put key v s.entries }) e
        (λ f. record {
          key = key;
          value = v;
          one_left = ap (λ u. u ++ (key, v) ∷ []) h.all_told;
          lags = ap (put key v) h.told;
        })

  tell_set-Follows : (s : Store V) → Awaits s → Follows (tell_set 0 s)
  unfolding tell_set
  tell_set-Follows s h =
      subst (λ u. Follows (tell_of 0 (record s { untold = u }) (get_elem? u 0))) (sym h.one_left)
        (record { told = follow-append d s.changes h.key (some h.value) ∙ h.lags; all_told = refl })

  delete-Follows :
      (key : String) (w : Write) (s : Store V)
      → raises w ≡ false
      → Follows s
      → Follows (delete_key asdict key w s).1
  unfolding delete_key save_store
  delete-Follows key w s e h = elim (Bool-cases (has key s.entries)) [
    | inl there ↦ rw there (
        write-Keeps Follows true (tell_change key none) s.has_path w
          (record s { entries = remove key s.entries }) e
          (λ f. tell-Follows key none s (remove key s.entries) f h refl))
    | inr gone ↦ rw gone h
  ]

  updated-Follows :
      (key : String) (w : Write) (s : Store V) (o : Option V)
      → raises w ≡ false
      → Follows s
      → Follows (store_updated asdict key w s o).1
  unfolding save_store
  updated-Follows key w s none e h = h
  updated-Follows key w s (some v) e h =
      write-Keeps Follows (some v) (tell_change key (some v)) s.has_path w
        (record s { entries = put key v s.entries }) e
        (λ f. tell-Follows key (some v) s (put key v s.entries) f h refl)

  -- What holds before the next step.
  Ready : Bool → Store V → Type ℓ
  Ready true s = Awaits s
  Ready false s = Follows s

  run-Follows :
      (telling : Bool) (s : Store V) (ops : List (Op V))
      → one_by_one telling ops ≡ true
      → Ready telling s
      → Follows (run asdict s ops)
  unfolding run step update_key Ready
  run-Follows false s [] e h = h
  run-Follows true s [] e h = cc e
  run-Follows false s (set_op key v w ∷ ops) e h =
      run-Follows true (set_locked asdict key v w s).1 ops (ground (arith, e))
        (set-Awaits key v w s (ground (arith, e)) h)
  run-Follows false s (tell_op n ∷ ops) e h = cc e
  run-Follows false s (delete_op key w ∷ ops) e h =
      run-Follows false (delete_key asdict key w s).1 ops (ground (arith, e))
        (delete-Follows key w s (ground (arith, e)) h)
  run-Follows false s (update_op key fields w ∷ ops) e h =
      run-Follows false (update_key asdict key fields w s).1 ops (ground (arith, e))
        (updated-Follows key w s (updated_value fields (get key s.entries)) (ground (arith, e)) h)
  run-Follows false s (clear_op w ∷ ops) e h = cc e
  run-Follows true s (tell_op zero ∷ ops) e h =
      run-Follows false (tell_set 0 s) ops e (tell_set-Follows s h)
  run-Follows true s (tell_op (suc n) ∷ ops) e h = cc e
  run-Follows true s (set_op key v w ∷ ops) e h = cc e
  run-Follows true s (delete_op key w ∷ ops) e h = cc e
  run-Follows true s (update_op key fields w ∷ ops) e h = cc e
  run-Follows true s (clear_op w ∷ ops) e h = cc e

opened-Ready {ℓ} :
    {V : Type ℓ} (asdict : V → V) (has_path : Bool) (file : File V)
    → Ready asdict (open_store has_path file).entries false (open_store has_path file)
unfolding open_store Ready
opened-Ready asdict has_path file = record { told = refl; all_told = refl }

-- Whoever starts with the entries of the store as it is opened and follows the calls of `on_change`
-- has its entries after any calls but `clear` that come one after another and of which none raises,
-- whether or not the file can be written.
pub follow-run {ℓ} :
    {V : Type ℓ} (asdict : V → V) (has_path : Bool) (file : File V) (ops : List (Op V))
    → one_by_one false ops ≡ true
    → (let s = open_store has_path file in
        follow s.entries (run asdict s ops).changes ≡ (run asdict s ops).entries)
follow-run asdict has_path file ops e =
    let s = open_store has_path file in
    (run-Follows asdict s.entries false s ops e (opened-Ready asdict has_path file)).told
