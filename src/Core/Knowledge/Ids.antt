-- ===== src/Core/Knowledge/Ids.antt =====
-- The ids of the entries: they rise along the file.
use glados_docker.Common.{
  Bool, List, Option, String, [], ap, arith, false, if◌then◌else◌, keep, length, ltb, none, not,
  refl, some, true, ℕ, ◌&&◌, ◌++◌, ◌<◌, ◌==◌, ◌∙◌, ◌∷◌, ◌≡◌, ◌≤◌,
}
use glados_docker.Core.Knowledge.{
  File, KnowledgeEntry, add_entry, changed, clear_entries, delete_entry, load_entries, max_id,
  new_entry, update_entries, update_entry, write_entries, write_updated,
}

pub data Op : Type 0 where
  add_op : ℕ → String → Op
  update_op : ℕ → ℕ → String → Op
  delete_op : ℕ → Op
  clear_op : Op

unfoldable pub step : File → Op → File
unfolding add_entry update_entry delete_entry clear_entries
step f (add_op now text) = (add_entry now text f).1
step f (update_op now i text) = (update_entry now i text f).1
step f (delete_op i) = (delete_entry i f).1
step f clear_op = (clear_entries f).1

unfoldable pub run : File → List Op → File
unfolding step
run f [] = f
run f (op ∷ ops) = run (step f op) ops

-- Each id is greater than those before it, the first than `n`.
abbrev pub rising : ℕ → List KnowledgeEntry → Bool
rising n [] = true
rising n (e ∷ es) = ltb n e.entry_id && rising e.entry_id es

pub load-write : (es : List KnowledgeEntry) → load_entries (write_entries es) ≡ es
unfolding load_entries write_entries
load-write [] = refl
load-write (e ∷ es) = ap (◌∷◌ e) (load-write es)

pub below_max : (e : KnowledgeEntry) (es : List KnowledgeEntry) → max_id es ≤ max_id (e ∷ es)
unfolding max_id
below_max e es = omega arith

rising-add_entry :
    (n : ℕ) (es : List KnowledgeEntry) (e : KnowledgeEntry)
    → rising n es ≡ true
    → n < e.entry_id
    → max_id es < e.entry_id
    → rising n (es ++ e ∷ []) ≡ true
unfolding max_id
rising-add_entry n [] e r h m = ground arith
rising-add_entry n (x ∷ es) e r h m = ground (arith, rising-add_entry x.entry_id es e)

rising-update_entry :
    (now i : ℕ) (text : String) (n : ℕ) (es : List KnowledgeEntry) (u : Option KnowledgeEntry)
    → rising n (update_entries now i text es u).1 ≡ rising n es
unfolding update_entries
rising-update_entry now i text n [] u = refl
rising-update_entry now i text n (e ∷ es) u = ground (
  arith,
  rising-update_entry now i text e.entry_id es (some (changed now text e)),
  rising-update_entry now i text e.entry_id es u,
)

rising_weaken :
    (m n : ℕ) (es : List KnowledgeEntry) → m ≤ n → rising n es ≡ true → rising m es ≡ true
rising_weaken m n [] h r = refl
rising_weaken m n (e ∷ es) h r = ground arith

rising-keep :
    (p : KnowledgeEntry → Bool) (n : ℕ) (es : List KnowledgeEntry)
    → rising n es ≡ true
    → rising n (keep p es) ≡ true
rising-keep p n [] r = refl
rising-keep p n (e ∷ es) r =
    ground (arith, rising-keep p e.entry_id es, rising_weaken n e.entry_id (keep p es))

abbrev Rises : File → Type 0
Rises f = rising 0 (load_entries f) ≡ true

write-Rises : (es : List KnowledgeEntry) → rising 0 es ≡ true → Rises (write_entries es)
write-Rises es r = rw (load-write es) r

updated-Rises :
    (f : File) (p : Option KnowledgeEntry × List KnowledgeEntry)
    → Rises f
    → rising 0 p.1 ≡ true
    → Rises (write_updated f p).1
updated-Rises f (none, es) h r = h
updated-Rises f (some e, es) h r = write-Rises es r

if-Rises :
    {A : Type 0} (b : Bool) (x y : A) (f g : File)
    → Rises f
    → Rises g
    → Rises (if◌then◌else◌ {A = A × File} b (x, f) (y, g)).1
if-Rises true x y f g h k = h
if-Rises false x y f g h k = k

step-Rises : (f : File) (op : Op) → Rises f → Rises (step f op)
unfolding step add_entry update_entry delete_entry clear_entries
step-Rises f (add_op now text) h =
    write-Rises (load_entries f ++ new_entry now text (load_entries f) ∷ []) (
      rising-add_entry 0 (load_entries f) (new_entry now text (load_entries f)) h (omega arith)
        (omega arith))
step-Rises f (update_op now i text) h =
    updated-Rises f (update_entries now i text (load_entries f) none) h
      (rising-update_entry now i text 0 (load_entries f) none ∙ h)
step-Rises f (delete_op i) h =
    let es = load_entries f in
    let kept = keep (λ e. not (e.entry_id == i)) es in
    if-Rises (length kept == length es) false true f (write_entries kept) h
      (write-Rises kept (rising-keep (λ e. not (e.entry_id == i)) 0 es h))
step-Rises f clear_op h =
    if-Rises (length (load_entries f) == 0) 0 (length (load_entries f)) f (write_entries []) h
      (write-Rises [] refl)

-- From a file whose ids rise, such as a missing one, and after any operations: the ids rise along
-- the file, so that no two entries have the same.
pub run-rising :
    (f : File) (ops : List Op)
    → rising 0 (load_entries f) ≡ true
    → rising 0 (load_entries (run f ops)) ≡ true
unfolding run
run-rising f [] h = h
run-rising f (op ∷ ops) h = run-rising (step f op) ops (step-Rises f op h)
