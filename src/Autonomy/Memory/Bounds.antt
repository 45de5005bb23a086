-- ===== src/Autonomy/Memory/Bounds.antt =====
-- The memory keeps its bound, and keeps each key once.
use glados_docker.Common.{
  Bool, Bool-cases, Dict, List, String, [], ap, arith, eq_iff, inl, inr, keys, leb, length,
  length-take, map, mem_text, put, refl, remove, remove_all, str_eq, suc, sym, take, true, values,
  zero, ℕ, ◌&&◌, ◌-◌, ◌||◌, ◌∙◌, ◌∷◌, ◌≡◌, ◌≤◌,
}
use glados_docker.Autonomy.Memory.{
  MemoryEntry, SubagentMemory, entry_keys, prune_if_needed, sort_age,
}
use glados_docker.Autonomy.Memory.Keys.{
  all_in, distinct, distinct-remove, distinct-sort, distinct-take, length-remove_all,
  length-sort_age, mem_text-sort,
}

-- Each entry stands at its key, and each key once.
abbrev pub keyed : Dict MemoryEntry → Bool
keyed [] = true
keyed ((k, e) ∷ d) = str_eq e.key k && keyed d

pub record IsKept (d : Dict MemoryEntry) : Type 0 where
  pub at_key : keyed d ≡ true
  pub once : distinct (keys d) ≡ true

pub entry_keys-values : (d : Dict MemoryEntry) → keyed d ≡ true → entry_keys (values d) ≡ keys d
entry_keys-values [] h = refl
entry_keys-values ((k, e) ∷ d) h = ground (arith, entry_keys-values d, h, eq_iff e.key k)

all_in_self :
    (n : ℕ) (es : List MemoryEntry) (js : List String)
    → ((k : String) → mem_text k (entry_keys es) ≡ true → mem_text k js ≡ true)
    → all_in (entry_keys (take n es)) js ≡ true
all_in_self zero es js h = refl
all_in_self (suc n) [] js h = refl
all_in_self (suc n) (e ∷ es) js h =
    ground
      (arith, h e.key, all_in_self n es js (λ k m. h k (ground (arith, m))), eq_iff e.key e.key)

length-map {ℓ} : {A B : Type ℓ} (f : A → B) (xs : List A) → length (map f xs) ≡ length xs
length-map f [] = refl
length-map f (x ∷ xs) = ap suc (length-map f xs)

-- The keys that `_prune_if_needed` removes.
abbrev pub evicted : SubagentMemory → List String
evicted m = entry_keys (take (length m.entries - m.max_entries) (sort_age (values m.entries)))

length-evicted : (m : SubagentMemory) → length (evicted m) ≡ length m.entries - m.max_entries
length-evicted m =
    let n = length m.entries - m.max_entries in
    omega (
      arith,
      length-map (λ e. e.key) (take n (sort_age (values m.entries))),
      length-take n (sort_age (values m.entries)),
      length-sort_age (values m.entries),
      length-map (λ x. x.1) m.entries,
    )

evicted-distinct : (m : SubagentMemory) → IsKept m.entries → distinct (evicted m) ≡ true
evicted-distinct m i =
    distinct-take (length m.entries - m.max_entries) (sort_age (values m.entries)) (
      distinct-sort (values m.entries)
      ∙ ap distinct (entry_keys-values m.entries i.at_key)
      ∙ i.once)

evicted-all_in :
    (m : SubagentMemory) → IsKept m.entries → all_in (evicted m) (keys m.entries) ≡ true
evicted-all_in m i =
    all_in_self (length m.entries - m.max_entries) (sort_age (values m.entries)) (keys m.entries)
      (λ k h.
        ap (mem_text k) (sym (entry_keys-values m.entries i.at_key))
        ∙ sym (mem_text-sort k (values m.entries))
        ∙ h)

-- What is left by `_prune_if_needed`.
pub prune-length :
    (m : SubagentMemory) → IsKept m.entries → length (prune_if_needed m).entries ≤ m.max_entries
unfolding prune_if_needed
prune-length m i = elim (Bool-cases (leb (length m.entries) m.max_entries)) [
  | inl fits ↦ ground (arith, fits)
  | inr over ↦
      let left =
        length-remove_all (evicted m) m.entries (evicted-distinct m i) i.once
          (evicted-all_in m i) in
      ground (arith, over, left, length-evicted m)
]

keyed-put :
    (k : String) (e : MemoryEntry) (d : Dict MemoryEntry)
    → e.key ≡ k
    → keyed d ≡ true
    → keyed (put k e d) ≡ true
unfolding put
keyed-put k e [] q h = ground (arith, q, eq_iff e.key k)
keyed-put k e ((j, f) ∷ d) q h = ground (arith, keyed-put k e d, q, h, eq_iff e.key j, eq_iff j k)

mem_text-put :
    (k j : String) (e : MemoryEntry) (d : Dict MemoryEntry)
    → mem_text j (keys (put k e d)) ≡ (str_eq k j || mem_text j (keys d))
unfolding put
mem_text-put k j e [] = refl
mem_text-put k j e ((i, f) ∷ d) =
    ground (arith, mem_text-put k j e d, eq_iff i k, eq_iff k j, eq_iff i j)

distinct-put :
    (k : String) (e : MemoryEntry) (d : Dict MemoryEntry)
    → distinct (keys d) ≡ true
    → distinct (keys (put k e d)) ≡ true
unfolding put
distinct-put k e [] h = refl
distinct-put k e ((j, f) ∷ d) h =
    ground (arith, distinct-put k e d, mem_text-put k j e d, h, eq_iff j k, eq_iff k j)

keyed-remove : (k : String) (d : Dict MemoryEntry) → keyed d ≡ true → keyed (remove k d) ≡ true
unfolding remove
keyed-remove k [] h = refl
keyed-remove k ((j, e) ∷ d) h = ground (arith, keyed-remove k d, h)

pub put-IsKept :
    (k : String) (e : MemoryEntry) (d : Dict MemoryEntry)
    → e.key ≡ k
    → IsKept d
    → IsKept (put k e d)
put-IsKept k e d q i = record {
  at_key = keyed-put k e d q i.at_key;
  once = distinct-put k e d i.once;
}

pub remove-IsKept : (k : String) (d : Dict MemoryEntry) → IsKept d → IsKept (remove k d)
remove-IsKept k d i = record {
  at_key = keyed-remove k d i.at_key;
  once = distinct-remove k d i.once;
}

pub remove_all-IsKept :
    (ks : List String) (d : Dict MemoryEntry) → IsKept d → IsKept (remove_all ks d)
unfolding remove_all
remove_all-IsKept [] d i = i
remove_all-IsKept (k ∷ ks) d i = remove_all-IsKept ks (remove k d) (remove-IsKept k d i)
