-- ===== src/Autonomy/Memory/Evict.antt =====
-- The entries that `_prune_if_needed` evicts are the oldest.
use glados_docker.Common.{
  Bool, Bool-cases, Dict, List, Option, String, [], all_of, ap, arith, eq_iff, false, find_first,
  get, get-remove_all, if◌then◌else◌, inl, inr, leb, length, mem_text, none, refl, remove_all, some,
  str_eq, subst, suc, take, true, values, zero, ℕ, ◌&&◌, ◌-◌, ◌∙◌, ◌∷◌, ◌≡◌, ◌≤◌,
}
use glados_docker.Autonomy.Memory.{
  MemoryEntry, SubagentMemory, entry_keys, insert_age, prune_if_needed, sort_age,
}
use glados_docker.Autonomy.Memory.Keys.{distinct, mem_text-sort}
use glados_docker.Autonomy.Memory.Bounds.{IsKept, entry_keys-values, evicted, keyed}

-- The first entry with a key.
abbrev find_key : String → List MemoryEntry → Option MemoryEntry
find_key k es = find_first (λ e. str_eq e.key k) es

-- The oldest first.
abbrev rising : List MemoryEntry → Bool
rising [] = true
rising (e ∷ es) = all_of (λ f. leb e.created_at f.created_at) es && rising es

find_key-insert :
    (k : String) (e : MemoryEntry) (es : List MemoryEntry)
    → mem_text e.key (entry_keys es) ≡ false
    → find_key k (insert_age e es) ≡ find_key k (e ∷ es)
unfolding insert_age
find_key-insert k e [] m = refl
find_key-insert k e (f ∷ es) m =
    ground (arith, find_key-insert k e es, m, eq_iff e.key k, eq_iff f.key k, eq_iff f.key e.key)

find_key-sort :
    (k : String) (es : List MemoryEntry)
    → distinct (entry_keys es) ≡ true
    → find_key k (sort_age es) ≡ find_key k es
unfolding sort_age
find_key-sort k [] h = refl
find_key-sort k (e ∷ es) h =
    find_key-insert k e (sort_age es) (mem_text-sort e.key es ∙ ground (arith, h))
    ∙ ap (λ o. if str_eq e.key k then some e else o) (find_key-sort k es (ground (arith, h)))

find_key-values :
    (k : String) (d : Dict MemoryEntry) → keyed d ≡ true → find_key k (values d) ≡ get k d
unfolding get
find_key-values k [] h = refl
find_key-values k ((j, e) ∷ d) h =
    ground (arith, find_key-values k d, h, eq_iff e.key j, eq_iff e.key k, eq_iff j k)

all_of-insert :
    (p : MemoryEntry → Bool) (e : MemoryEntry) (es : List MemoryEntry)
    → all_of p (insert_age e es) ≡ (p e && all_of p es)
unfolding insert_age
all_of-insert p e [] = refl
all_of-insert p e (f ∷ es) = ground (arith, all_of-insert p e es)

older_trans :
    (m n : ℕ) (es : List MemoryEntry)
    → m ≤ n
    → all_of (λ f. leb n f.created_at) es ≡ true
    → all_of (λ f. leb m f.created_at) es ≡ true
older_trans m n [] h a = refl
older_trans m n (e ∷ es) h a = ground (arith, older_trans m n es h)

rising-insert :
    (e : MemoryEntry) (es : List MemoryEntry) → rising es ≡ true → rising (insert_age e es) ≡ true
unfolding insert_age
rising-insert e [] h = refl
rising-insert e (f ∷ es) h = ground (
  arith,
  h,
  rising-insert e es,
  older_trans e.created_at f.created_at es,
  all_of-insert (λ g. leb f.created_at g.created_at) e es,
)

rising-sort : (es : List MemoryEntry) → rising (sort_age es) ≡ true
unfolding sort_age
rising-sort [] = refl
rising-sort (e ∷ es) = rising-insert e (sort_age es) (rising-sort es)

find_key-all_of :
    (m : ℕ) (k : String) (es : List MemoryEntry) (f : MemoryEntry)
    → all_of (λ g. leb m g.created_at) es ≡ true
    → find_key k es ≡ some f
    → m ≤ f.created_at
find_key-all_of m k [] f a q = absurd (cc q)
find_key-all_of m k (e ∷ es) f a q = elim (Bool-cases (str_eq e.key k)) [
  | inl found ↦
      let same : e ≡ f = ground (arith, q, found) in
      subst (λ g. m ≤ g.created_at) same (ground (arith, a))
  | inr other ↦ find_key-all_of m k es f (ground (arith, a)) (ground (arith, q, other))
]

-- In a list with the oldest first, what is taken is not newer than what is left.
taken_older :
    (n : ℕ) (j i : String) (es : List MemoryEntry) (e f : MemoryEntry)
    → rising es ≡ true
    → find_key j es ≡ some e
    → find_key i es ≡ some f
    → mem_text j (entry_keys (take n es)) ≡ true
    → mem_text i (entry_keys (take n es)) ≡ false
    → e.created_at ≤ f.created_at
taken_older zero j i es e f r x y taken left = absurd (cc taken)
taken_older (suc n) j i [] e f r x y taken left = absurd (cc taken)
taken_older (suc n) j i (g ∷ es) e f r x y taken left = elim (Bool-cases (str_eq g.key j)) [
  | inl found ↦
      let same : g ≡ e = ground (arith, x, found) in
      subst (λ h. h.created_at ≤ f.created_at) same
        (find_key-all_of g.created_at i es f (ground (arith, r)) (ground (arith, y, left)))
  | inr other ↦
      taken_older n j i es e f (ground (arith, r)) (ground (arith, x, other))
        (ground (arith, y, left)) (ground (arith, taken, other)) (ground (arith, left))
]

-- Where each entry stands at its key and each key once, an entry that `_prune_if_needed` evicts is
-- not newer than any entry that it leaves.
pub prune_oldest :
    (m : SubagentMemory) (j i : String) (e f : MemoryEntry)
    → IsKept m.entries
    → get j m.entries ≡ some e
    → get j (prune_if_needed m).entries ≡ none
    → get i (prune_if_needed m).entries ≡ some f
    → e.created_at ≤ f.created_at
unfolding prune_if_needed
prune_oldest m j i e f kept there gone left =
    elim (Bool-cases (leb (length m.entries) m.max_entries)) [
      | inl fits ↦ absurd (ground (arith, fits, there, gone))
      | inr over ↦
          let n = length m.entries - m.max_entries in
          let es = values m.entries in
          let once : distinct (entry_keys es) ≡ true =
            ap distinct (entry_keys-values m.entries kept.at_key) ∙ kept.once in
          let look : (k : String) → find_key k (sort_age es) ≡ get k m.entries =
            λ k. find_key-sort k es once ∙ find_key-values k m.entries kept.at_key in
          let after : (k : String)
              → get k (remove_all (evicted m) m.entries)
                ≡ (if mem_text k (evicted m) then none else get k m.entries) =
            λ k. get-remove_all (evicted m) k m.entries in
          taken_older n j i (sort_age es) e f (rising-sort es) (look j ∙ there)
            (look i ∙ ground (arith, over, left, after i))
            (ground (arith, over, there, gone, after j)) (ground (arith, over, left, after i))
    ]
