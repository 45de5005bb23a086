-- ===== src/Autonomy/Memory/Reload.antt =====
-- What a new process reads back from the file.
use glados_docker.Common.{
  Bool, Bool-cases, Dict, List, Option, Option-cases, String, [], ap, append-cons, append-nil,
  arith, eq_iff, false, get, has, inl, inr, keys, keys-append, map, mem_text, mem_text-append, not,
  put, put-append, refl, remove, some, sym, true, values, ℕ, ◌&&◌, ◌++◌, ◌∙◌, ◌∷◌, ◌≡◌,
}
use glados_docker.Autonomy.Memory.{
  MemoryEntry, SubagentMemory, Write, clear_all, delete, load, load_lines, mark_shown,
  prune_if_needed, save, set_entry, set_value, writes,
}
use glados_docker.Autonomy.Memory.Keys.{distinct}
use glados_docker.Autonomy.Memory.Bounds.{IsKept, keyed, put-IsKept, remove-IsKept}
use glados_docker.Autonomy.Memory.Runs.{
  Op, clear_op, delete_op, get-keyed, load-IsKept, prune-IsKept, run, set_entry-key, set_op,
  shown_op, step, step-IsKept,
}

-- No key of the first is in the second.
abbrev apart : Dict MemoryEntry → List String → Bool
apart [] ks = true
apart ((k, e) ∷ d) ks = not (mem_text k ks) && apart d ks

apart-append :
    (d : Dict MemoryEntry) (k : String) (ks : List String)
    → apart d ks ≡ true
    → mem_text k (keys d) ≡ false
    → apart d (ks ++ k ∷ []) ≡ true
apart-append [] k ks h m = refl
apart-append ((j, e) ∷ d) k ks h m =
    ground (arith, apart-append d k ks, mem_text-append j k ks, eq_iff j k, eq_iff k j, h, m)

apart-nil : (d : Dict MemoryEntry) → apart d [] ≡ true
apart-nil [] = refl
apart-nil ((k, e) ∷ d) = apart-nil d

load_lines-values :
    (d acc : Dict MemoryEntry)
    → keyed d ≡ true
    → distinct (keys d) ≡ true
    → apart d (keys acc) ≡ true
    → load_lines (map some (values d)) acc ≡ acc ++ d
unfolding load_lines
load_lines-values [] acc h o a = sym (append-nil acc)
load_lines-values ((k, e) ∷ d) acc h o a =
    let at_key : e.key ≡ k = (eq_iff e.key k).0 (ground (arith, h)) in
    ap (λ j. load_lines (map some (values d)) (put j e acc)) at_key
    ∙ ap (load_lines (map some (values d))) (put-append k e acc (ground (arith, a)))
    ∙ load_lines-values d (acc ++ (k, e) ∷ []) (ground (arith, h)) (ground (arith, o)) (
        ap (apart d) (keys-append acc k e)
        ∙ apart-append d k (keys acc) (ground (arith, a)) (ground (arith, o)))
    ∙ append-cons acc (k, e) d

-- A new process reads back what the memory holds.
abbrev Reads : SubagentMemory → Type 0
Reads m = load_lines m.file [] ≡ m.entries

save-Reads : (m : SubagentMemory) → IsKept m.entries → Reads (save writes m)
unfolding save
save-Reads m i = load_lines-values m.entries [] i.at_key i.once (apart-nil m.entries)

step-Reads : (m : SubagentMemory) (op : Op) → IsKept m.entries → Reads m → Reads (step writes m op)
unfolding step set_value mark_shown delete clear_all
step-Reads m (set_op now k v) i r =
    let e = set_entry now k v (get k m.entries) in
    let m' = record m { entries = put k e m.entries } in
    save-Reads (prune_if_needed m')
      (prune-IsKept m' (put-IsKept k e m.entries (set_entry-key now k v m.entries i.at_key) i))
step-Reads m (shown_op now k) i r = elim (Option-cases (get k m.entries)) [
  | inl none_there ↦ rw (none_there, step) r
  | inr (e, there) ↦
      let e' = record e { shown_at = some now } in
      rw (there, step)
        (save-Reads (record m { entries = put k e' m.entries })
          (put-IsKept k e' m.entries (get-keyed k m.entries e i.at_key there) i))
]
step-Reads m (delete_op k) i r = elim (Bool-cases (has k m.entries)) [
  | inl there ↦
      rw (there, step)
        (save-Reads (record m { entries = remove k m.entries }) (remove-IsKept k m.entries i))
  | inr absent ↦ rw (absent, step) r
]
step-Reads m clear_op i r =
    save-Reads (record m { entries = [] }) (record { at_key = refl; once = refl })

abbrev all_written : List Op → List (Write × Op)
all_written ops = map (λ op. (writes, op)) ops

run-Reads :
    (m : SubagentMemory) (ops : List Op)
    → IsKept m.entries
    → Reads m
    → Reads (run m (all_written ops))
unfolding run
run-Reads m [] i r = r
run-Reads m (op ∷ ops) i r =
    run-Reads (step writes m op) ops (step-IsKept writes m op i) (step-Reads m op i r)

-- Whatever the file held at first, after any operations whose writes succeed, a memory that is
-- loaded from the file has the entries, in the order, that this one has.
pub load-run :
    (max_entries : ℕ) (file : List (Option MemoryEntry)) (ops : List Op)
    → (let m = run (load max_entries file) (all_written ops) in
        (load max_entries m.file).entries ≡ m.entries)
unfolding load
load-run max_entries file ops =
    run-Reads (load max_entries file) ops (load-IsKept max_entries file) refl
