-- ===== src/Core/Knowledge/Lookup.antt =====
-- What the operations do to the entry of each id.
use glados_docker.Common.{
  ==_iff, Bool, Bool-cases, List, Option, String, [], ap, arith, false, find_first, first_some,
  if◌then◌else◌, inl, inr, is_some, keep, length, length-keep-le, none, not, refl, some, sym, true,
  ℕ, ◌++◌, ◌+◌, ◌<◌, ◌==◌, ◌||◌, ◌∙◌, ◌∷◌, ◌≡◌,
}
use glados_docker.Core.Knowledge.{
  File, KnowledgeEntry, add_entry, changed, clear_entries, delete_entry, load_entries, max_id,
  new_entry, update_entries, update_entry, write_entries, write_updated,
}
use glados_docker.Core.Knowledge.Ids.{Op, add_op, clear_op, delete_op, load-write, step, update_op}

-- The first entry with an id.
abbrev pub find_entry : ℕ → List KnowledgeEntry → Option KnowledgeEntry
find_entry i es = find_first (λ e. e.entry_id == i) es

abbrev pub entry_at : ℕ → File → Option KnowledgeEntry
entry_at i f = find_entry i (load_entries f)

find-add_entry :
    (j : ℕ) (es : List KnowledgeEntry) (e : KnowledgeEntry)
    → find_entry j (es ++ e ∷ []) ≡ first_some (find_entry j es) (find_entry j (e ∷ []))
find-add_entry j [] e = refl
find-add_entry j (x ∷ es) e = ground (arith, find-add_entry j es e)

above_none : (j : ℕ) (es : List KnowledgeEntry) → max_id es < j → find_entry j es ≡ none
unfolding max_id
above_none j [] h = refl
above_none j (e ∷ es) h = ground (arith, above_none j es)

abbrev pub changed_if_there : ℕ → String → Option KnowledgeEntry → Option KnowledgeEntry
changed_if_there now text none = none
changed_if_there now text (some e) = some (changed now text e)

-- What becomes of the entry of id `j`, where `next` is the id of the next entry.
abbrev pub entry_after : ℕ → ℕ → Op → Option KnowledgeEntry → Option KnowledgeEntry
entry_after next j (add_op now text) old =
    if next == j
    then some (record { entry_id = next; text = text; created_at = now; updated_at = now })
    else old
entry_after next j (update_op now i text) old =
    if i == j then changed_if_there now text old else old
entry_after next j (delete_op i) old = if i == j then none else old
entry_after next j clear_op old = none

find-update_entry :
    (now i : ℕ) (text : String) (j : ℕ) (es : List KnowledgeEntry) (u : Option KnowledgeEntry)
    → find_entry j (update_entries now i text es u).1
      ≡ (if i == j then changed_if_there now text (find_entry j es) else find_entry j es)
unfolding update_entries
find-update_entry now i text j [] u = ground arith
find-update_entry now i text j (e ∷ es) u = ground (
  arith,
  find-update_entry now i text j es (some (changed now text e)),
  find-update_entry now i text j es u,
)

-- Without an entry of the id, `update` changes nothing.
update_entry-absent :
    (now i : ℕ) (text : String) (es : List KnowledgeEntry) (u : Option KnowledgeEntry)
    → is_some (update_entries now i text es u).0 ≡ (is_some (find_entry i es) || is_some u)
unfolding update_entries
update_entry-absent now i text [] u = ground arith
update_entry-absent now i text (e ∷ es) u = ground (
  arith,
  update_entry-absent now i text es (some (changed now text e)),
  update_entry-absent now i text es u,
)

find-delete_entry :
    (i j : ℕ) (es : List KnowledgeEntry)
    → find_entry j (keep (λ e. not (e.entry_id == i)) es)
      ≡ (if i == j then none else find_entry j es)
find-delete_entry i j [] = ground arith
find-delete_entry i j (e ∷ es) = ground (arith, find-delete_entry i j es)

same_length :
    (p : KnowledgeEntry → Bool) (es : List KnowledgeEntry)
    → length (keep p es) ≡ length es
    → keep p es ≡ es
same_length p [] h = refl
same_length p (e ∷ es) h = elim (Bool-cases (p e)) [
  | inl stays ↦ rw stays (ap (◌∷◌ e) (same_length p es (ground arith)))
  | inr goes ↦ absurd (ground (arith, length-keep-le p es))
]

written-lem :
    (j : ℕ) (f : File) (p : Option KnowledgeEntry × List KnowledgeEntry)
    → (p.0 ≡ none → find_entry j p.1 ≡ entry_at j f)
    → entry_at j (write_updated f p).1 ≡ find_entry j p.1
written-lem j f (none, es) h = sym (h refl)
written-lem j f (some e, es) h = ap (find_entry j) (load-write es)

unchanged :
    (now i : ℕ) (text : String) (j : ℕ) (es : List KnowledgeEntry)
    → (update_entries now i text es none).0 ≡ none
    → find_entry j (update_entries now i text es none).1 ≡ find_entry j es
unchanged now i text j es h = ground (
  arith,
  find-update_entry now i text j es none,
  update_entry-absent now i text es none,
  ==_iff i j,
)

empty-lem : (es : List KnowledgeEntry) → length es ≡ 0 → es ≡ []
empty-lem [] h = refl
empty-lem (e ∷ es) h = absurd (omega arith)

if-entry_at :
    {A : Type 0} (b : Bool) (x y : A) (j : ℕ) (f : File) (es : List KnowledgeEntry)
    → (b ≡ true → load_entries f ≡ es)
    → entry_at j (if◌then◌else◌ {A = A × File} b (x, f) (y, write_entries es)).1 ≡ find_entry j es
if-entry_at true x y j f es h = ap (find_entry j) (h refl)
if-entry_at false x y j f es h = ap (find_entry j) (load-write es)

entry-step :
    (f : File) (op : Op) (j : ℕ)
    → entry_at j (step f op) ≡ entry_after (max_id (load_entries f) + 1) j op (entry_at j f)
unfolding step add_entry update_entry delete_entry clear_entries
entry-step f (add_op now text) j =
    let es = load_entries f in
    let e = new_entry now text es in
    rw (load-write (es ++ e ∷ [])) (ground (arith, find-add_entry j es e, above_none j es))
entry-step f (update_op now i text) j =
    let es = load_entries f in
    written-lem j f (update_entries now i text es none) (unchanged now i text j es)
    ∙ find-update_entry now i text j es none
entry-step f (delete_op i) j =
    let es = load_entries f in
    let kept = keep (λ e. not (e.entry_id == i)) es in
    if-entry_at (length kept == length es) false true j f kept (λ same.
      sym (same_length (λ e. not (e.entry_id == i)) es ((==_iff (length kept) (length es)).0 same)))
    ∙ find-delete_entry i j es
entry-step f clear_op j =
    let es = load_entries f in
    if-entry_at (length es == 0) 0 (length es) j f []
      (λ empty. empty-lem es ((==_iff (length es) 0).0 empty))

-- Each operation does to the entry of each id what its name says and leaves the entries of all
-- other ids as they are; the id of a new entry belongs to no entry before.
pub entry_at-step :
    (f : File) (op : Op) (j : ℕ)
    → (entry_at (max_id (load_entries f) + 1) f ≡ none)
      × (entry_at j (step f op) ≡ entry_after (max_id (load_entries f) + 1) j op (entry_at j f))
entry_at-step f op j =
    (above_none (max_id (load_entries f) + 1) (load_entries f) (omega arith), entry-step f op j)
