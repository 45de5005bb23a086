-- ===== src/Autonomy/Memory/Keys.antt =====
-- Lists of keys that are distinct, and what they remove from a dictionary.
use glados_docker.Common.{
  Bool, Dict, List, String, [], all_of, ap, arith, eq_iff, false, if◌then◌else◌, keys, length,
  mem_text, not, refl, remove, remove_all, str_eq, suc, take, true, zero, ℕ, ◌&&◌, ◌+◌, ◌||◌, ◌∙◌,
  ◌∷◌, ◌≡◌,
}
use glados_docker.Autonomy.Memory.{MemoryEntry, entry_keys, insert_age, sort_age}

abbrev pub distinct : List String → Bool
distinct [] = true
distinct (k ∷ ks) = not (mem_text k ks) && distinct ks

abbrev pub all_in : List String → List String → Bool
all_in ks js = all_of (λ k. mem_text k js) ks

pub mem_text-insert :
    (j : String) (e : MemoryEntry) (es : List MemoryEntry)
    → mem_text j (entry_keys (insert_age e es)) ≡ (str_eq e.key j || mem_text j (entry_keys es))
unfolding insert_age
mem_text-insert j e [] = refl
mem_text-insert j e (f ∷ es) = ground (arith, mem_text-insert j e es)

pub distinct-insert :
    (e : MemoryEntry) (es : List MemoryEntry)
    → distinct (entry_keys (insert_age e es))
      ≡ (not (mem_text e.key (entry_keys es)) && distinct (entry_keys es))
unfolding insert_age
distinct-insert e [] = refl
distinct-insert e (f ∷ es) = ground (
  arith,
  distinct-insert e es,
  mem_text-insert f.key e es,
  eq_iff e.key f.key,
  eq_iff f.key e.key,
)

pub mem_text-sort :
    (j : String) (es : List MemoryEntry)
    → mem_text j (entry_keys (sort_age es)) ≡ mem_text j (entry_keys es)
unfolding sort_age
mem_text-sort j [] = refl
mem_text-sort j (e ∷ es) =
    mem_text-insert j e (sort_age es) ∙ ap (λ b. str_eq e.key j || b) (mem_text-sort j es)

pub distinct-sort :
    (es : List MemoryEntry) → distinct (entry_keys (sort_age es)) ≡ distinct (entry_keys es)
unfolding sort_age
distinct-sort [] = refl
distinct-sort (e ∷ es) =
    ground (arith, distinct-insert e (sort_age es), mem_text-sort e.key es, distinct-sort es)

pub length-insert_age :
    (e : MemoryEntry) (es : List MemoryEntry) → length (insert_age e es) ≡ suc (length es)
unfolding insert_age
length-insert_age e [] = refl
length-insert_age e (f ∷ es) = ground (arith, length-insert_age e es)

pub length-sort_age : (es : List MemoryEntry) → length (sort_age es) ≡ length es
unfolding sort_age
length-sort_age [] = refl
length-sort_age (e ∷ es) = length-insert_age e (sort_age es) ∙ ap suc (length-sort_age es)

pub mem_text-take :
    (n : ℕ) (j : String) (es : List MemoryEntry)
    → mem_text j (entry_keys es) ≡ false
    → mem_text j (entry_keys (take n es)) ≡ false
mem_text-take zero j es h = refl
mem_text-take (suc n) j [] h = refl
mem_text-take (suc n) j (e ∷ es) h = ground (arith, mem_text-take n j es)

pub distinct-take :
    (n : ℕ) (es : List MemoryEntry)
    → distinct (entry_keys es) ≡ true
    → distinct (entry_keys (take n es)) ≡ true
distinct-take zero es h = refl
distinct-take (suc n) [] h = refl
distinct-take (suc n) (e ∷ es) h = ground (arith, distinct-take n es, mem_text-take n e.key es)

module _ {ℓ} {V : Type ℓ} where
  length-remove_absent :
      (k : String) (d : Dict V) → mem_text k (keys d) ≡ false → length (remove k d) ≡ length d
  unfolding remove
  length-remove_absent k [] m = refl
  length-remove_absent k ((j, v) ∷ d) m = ground (arith, length-remove_absent k d, m)

  pub length-remove :
      (k : String) (d : Dict V)
      → distinct (keys d) ≡ true
      → mem_text k (keys d) ≡ true
      → suc (length (remove k d)) ≡ length d
  unfolding remove
  length-remove k [] h m = cc m
  length-remove k ((j, v) ∷ d) h m =
      ground (arith, length-remove k d, length-remove_absent k d, h, m, eq_iff j k)

  pub mem_text-remove :
      (k j : String) (d : Dict V)
      → mem_text j (keys (remove k d)) ≡ (if str_eq k j then false else mem_text j (keys d))
  unfolding remove
  mem_text-remove k j [] = ground arith
  mem_text-remove k j ((i, v) ∷ d) =
      ground (arith, mem_text-remove k j d, eq_iff k j, eq_iff i k, eq_iff i j)

  pub distinct-remove :
      (k : String) (d : Dict V) → distinct (keys d) ≡ true → distinct (keys (remove k d)) ≡ true
  unfolding remove
  distinct-remove k [] h = refl
  distinct-remove k ((j, v) ∷ d) h = ground (arith, distinct-remove k d, mem_text-remove k j d, h)

  pub all_in-remove :
      (k : String) (ks : List String) (d : Dict V)
      → mem_text k ks ≡ false
      → all_in ks (keys d) ≡ true
      → all_in ks (keys (remove k d)) ≡ true
  all_in-remove k [] d m h = refl
  all_in-remove k (j ∷ ks) d m h =
      ground (arith, all_in-remove k ks d, mem_text-remove k j d, m, h, eq_iff k j, eq_iff j k)

  -- The number of entries that a list of keys removes.
  pub length-remove_all :
      (ks : List String) (d : Dict V)
      → distinct ks ≡ true
      → distinct (keys d) ≡ true
      → all_in ks (keys d) ≡ true
      → length (remove_all ks d) + length ks ≡ length d
  unfolding remove_all
  length-remove_all [] d k h a = omega arith
  length-remove_all (j ∷ ks) d k h a =
      let rest =
        length-remove_all ks (remove j d) (ground (arith, k)) (distinct-remove j d h)
          (all_in-remove j ks d (ground (arith, k)) (ground (arith, a))) in
      omega (arith, rest, length-remove j d h (ground (arith, a)))
