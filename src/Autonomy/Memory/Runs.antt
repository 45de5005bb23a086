-- ===== src/Autonomy/Memory/Runs.antt =====
-- Any sequence of operations keeps the invariant, and a `set` the bound.
use glados_docker.Common.{
  Bool-cases, Dict, List, Option, Option-cases, String, [], ap, arith, eq_iff, get, has, inl, inr,
  leb, length, none, put, refl, some, str_eq, subst, sym, take, true, values, ℕ, ◌-◌, ◌∙◌, ◌∷◌, ◌≡◌,
  ◌≤◌,
}
use glados_docker.Autonomy.Memory.{
  MemoryEntry, SubagentMemory, Write, clear_all, delete, entry_keys, load, load_lines, mark_shown,
  prune_if_needed, save, set_entry, set_value, sort_age,
}
use glados_docker.Autonomy.Memory.Bounds.{
  IsKept, keyed, prune-length, put-IsKept, remove-IsKept, remove_all-IsKept,
}

pub data Op : Type 0 where
  set_op : ℕ → String → String → Op
  shown_op : ℕ → String → Op
  delete_op : String → Op
  clear_op : Op

unfoldable pub step : Write → SubagentMemory → Op → SubagentMemory
unfolding set_value mark_shown delete clear_all
step w m (set_op now key value) = (set_value w now key value m).1
step w m (shown_op now key) = (mark_shown w now key m).1
step w m (delete_op key) = (delete w key m).1
step w m clear_op = clear_all w m

-- The operations, each with how its write ends.
unfoldable pub run : SubagentMemory → List (Write × Op) → SubagentMemory
unfolding step
run m [] = m
run m ((w, op) ∷ ops) = run (step w m op) ops

pub get-keyed :
    (k : String) (d : Dict MemoryEntry) (e : MemoryEntry)
    → keyed d ≡ true
    → get k d ≡ some e
    → e.key ≡ k
unfolding get
get-keyed k [] e h g = absurd (cc g)
get-keyed k ((j, f) ∷ d) e h g = elim (Bool-cases (str_eq j k)) [
  | inl found ↦
      let same : f ≡ e = ground (arith, g, found) in
      ap (λ x. x.key) (sym same) ∙ (eq_iff f.key j).0 (ground (arith, h)) ∙ (eq_iff j k).0 found
  | inr other ↦ get-keyed k d e (ground (arith, h)) (ground (arith, g, other))
]

pub set_entry-key :
    (now : ℕ) (k v : String) (d : Dict MemoryEntry)
    → keyed d ≡ true
    → (set_entry now k v (get k d)).key ≡ k
set_entry-key now k v d h = elim (Option-cases (get k d)) [
  | inl none_there ↦ rw none_there
  | inr (e, there) ↦ rw there (get-keyed k d e h there)
]

pub prune-IsKept : (m : SubagentMemory) → IsKept m.entries → IsKept (prune_if_needed m).entries
unfolding prune_if_needed
prune-IsKept m i = elim (Bool-cases (leb (length m.entries) m.max_entries)) [
  | inl fits ↦ rw fits i
  | inr over ↦ rw over (
      remove_all-IsKept
        (entry_keys (take (length m.entries - m.max_entries) (sort_age (values m.entries))))
        m.entries i)
]

pub step-IsKept :
    (w : Write) (m : SubagentMemory) (op : Op) → IsKept m.entries → IsKept (step w m op).entries
unfolding step set_value mark_shown delete clear_all save
step-IsKept w m (set_op now k v) i =
    let e = set_entry now k v (get k m.entries) in
    prune-IsKept (record m { entries = put k e m.entries })
      (put-IsKept k e m.entries (set_entry-key now k v m.entries i.at_key) i)
step-IsKept w m (shown_op now k) i = elim (Option-cases (get k m.entries)) [
  | inl none_there ↦ rw (none_there, step) i
  | inr (e, there) ↦
      rw (there, step)
        (put-IsKept k (record e { shown_at = some now }) m.entries
          (get-keyed k m.entries e i.at_key there) i)
]
step-IsKept w m (delete_op k) i = elim (Bool-cases (has k m.entries)) [
  | inl there ↦ rw (there, step) (remove-IsKept k m.entries i)
  | inr absent ↦ rw (absent, step) i
]
step-IsKept w m clear_op i = record { at_key = refl; once = refl }

run-IsKept :
    (m : SubagentMemory) (ops : List (Write × Op)) → IsKept m.entries → IsKept (run m ops).entries
unfolding run
run-IsKept m [] i = i
run-IsKept m ((w, op) ∷ ops) i = run-IsKept (step w m op) ops (step-IsKept w m op i)

load_lines-IsKept :
    (lines : List (Option MemoryEntry)) (d : Dict MemoryEntry)
    → IsKept d
    → IsKept (load_lines lines d)
unfolding load_lines
load_lines-IsKept [] d i = i
load_lines-IsKept (none ∷ lines) d i = i
load_lines-IsKept (some e ∷ lines) d i =
    load_lines-IsKept lines (put e.key e d) (put-IsKept e.key e d refl i)

pub load-IsKept :
    (max_entries : ℕ) (file : List (Option MemoryEntry)) → IsKept (load max_entries file).entries
unfolding load
load-IsKept max_entries file = load_lines-IsKept file [] (record { at_key = refl; once = refl })

prune-max : (m : SubagentMemory) → (prune_if_needed m).max_entries ≡ m.max_entries
unfolding prune_if_needed
prune-max m = ground arith

step-max : (w : Write) (m : SubagentMemory) (op : Op) → (step w m op).max_entries ≡ m.max_entries
unfolding step set_value mark_shown delete clear_all save
step-max w m (set_op now k v) =
    prune-max (record m { entries = put k (set_entry now k v (get k m.entries)) m.entries })
step-max w m (shown_op now k) = elim (Option-cases (get k m.entries)) [
  | inl none_there ↦ rw (none_there, step)
  | inr (e, there) ↦ rw (there, step)
]
step-max w m (delete_op k) = ground arith
step-max w m clear_op = refl

run-max : (m : SubagentMemory) (ops : List (Write × Op)) → (run m ops).max_entries ≡ m.max_entries
unfolding run
run-max m [] = refl
run-max m ((w, op) ∷ ops) = run-max (step w m op) ops ∙ step-max w m op

set-bounded :
    (m : SubagentMemory) (w : Write) (now : ℕ) (k v : String)
    → IsKept m.entries
    → length (set_value w now k v m).1.entries ≤ m.max_entries
unfolding set_value save
set-bounded m w now k v i =
    let e = set_entry now k v (get k m.entries) in
    prune-length (record m { entries = put k e m.entries })
      (put-IsKept k e m.entries (set_entry-key now k v m.entries i.at_key) i)

load-max :
    (max_entries : ℕ) (file : List (Option MemoryEntry))
    → (load max_entries file).max_entries ≡ max_entries
unfolding load
load-max max_entries file = refl

-- Whatever the file held at first, and whatever operations came before, with writes that succeed
-- or fail: after a `set` there are at most `max_entries` entries.
pub set_value-bounded :
    (max_entries : ℕ) (file : List (Option MemoryEntry)) (ops : List (Write × Op)) (w : Write)
    (now : ℕ) (key value : String)
    → (let m = run (load max_entries file) ops in
        length (set_value w now key value m).1.entries ≤ max_entries)
set_value-bounded max_entries file ops w now key value =
    let m = run (load max_entries file) ops in
    subst (λ n. length (set_value w now key value m).1.entries ≤ n)
      (run-max (load max_entries file) ops ∙ load-max max_entries file)
      (set-bounded m w now key value
        (run-IsKept (load max_entries file) ops (load-IsKept max_entries file)))
