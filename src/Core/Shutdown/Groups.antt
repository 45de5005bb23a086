-- ===== src/Core/Shutdown/Groups.antt =====
-- The groups of the components by priority, and the order of the priorities.
use glados_docker.Common.{
  Bool, List, [], all_of, any_of, ap, append-cons, append-nil, arith, false, if◌then◌else◌, keep,
  ltb, map, not, refl, sym, true, ℕ, ◌&&◌, ◌++◌, ◌<◌, ◌==◌, ◌||◌, ◌∙◌, ◌∷◌, ◌≡◌,
}
use glados_docker.Core.Shutdown.{
  ComponentEntry, Groups, add_to_group, group_by_priority, group_of, insert_number, sort_numbers,
}

abbrev pub mem : ℕ → List ℕ → Bool
mem p ps = any_of (λ q. q == p) ps

-- Strictly rising numbers.
abbrev pub rising : List ℕ → Bool
rising [] = true
rising (p ∷ ps) = all_of (λ q. ltb p q) ps && rising ps

abbrev pub in_group : ℕ → ComponentEntry → Bool
in_group p c = c.priority == p

group_of-add :
    (p : ℕ) (c : ComponentEntry) (groups : Groups)
    → group_of p (add_to_group c groups)
      ≡ (if c.priority == p then group_of p groups ++ c ∷ [] else group_of p groups)
unfolding group_of add_to_group
group_of-add p c [] = ground arith
group_of-add p c ((q, group) ∷ groups) = ground (arith, group_of-add p c groups)

pub group_of-all :
    (p : ℕ) (cs : List ComponentEntry) (groups : Groups)
    → group_of p (group_by_priority cs groups) ≡ group_of p groups ++ keep (in_group p) cs
unfolding group_by_priority
group_of-all p [] groups = sym (append-nil (group_of p groups))
group_of-all p (c ∷ cs) groups =
    group_of-all p cs (add_to_group c groups)
    ∙ ap (λ g. g ++ keep (in_group p) cs) (group_of-add p c groups)
    ∙ placed (in_group p c)
  where
    placed :
        (b : Bool)
        → (if b then group_of p groups ++ c ∷ [] else group_of p groups) ++ keep (in_group p) cs
          ≡ group_of p groups ++ (if b then c ∷ keep (in_group p) cs else keep (in_group p) cs)
    placed true = append-cons (group_of p groups) c (keep (in_group p) cs)
    placed false = refl

abbrev pub ranks : Groups → List ℕ
ranks groups = map (λ g. g.0) groups

abbrev pub distinct : List ℕ → Bool
distinct [] = true
distinct (p ∷ ps) = not (mem p ps) && distinct ps

mem-add :
    (p : ℕ) (c : ComponentEntry) (groups : Groups)
    → mem p (ranks (add_to_group c groups)) ≡ (c.priority == p || mem p (ranks groups))
unfolding add_to_group
mem-add p c [] = refl
mem-add p c ((q, group) ∷ groups) = ground (arith, mem-add p c groups)

distinct-add :
    (c : ComponentEntry) (groups : Groups)
    → distinct (ranks groups) ≡ true
    → distinct (ranks (add_to_group c groups)) ≡ true
unfolding add_to_group
distinct-add c [] h = refl
distinct-add c ((q, group) ∷ groups) h =
    ground (arith, distinct-add c groups, mem-add q c groups, h)

pub distinct-all :
    (cs : List ComponentEntry) (groups : Groups)
    → distinct (ranks groups) ≡ true
    → distinct (ranks (group_by_priority cs groups)) ≡ true
unfolding group_by_priority
distinct-all [] groups h = h
distinct-all (c ∷ cs) groups h = distinct-all cs (add_to_group c groups) (distinct-add c groups h)

pub mem-all :
    (p : ℕ) (cs : List ComponentEntry) (groups : Groups)
    → mem p (ranks (group_by_priority cs groups)) ≡ (any_of (in_group p) cs || mem p (ranks groups))
unfolding group_by_priority
mem-all p [] groups = refl
mem-all p (c ∷ cs) groups = ground (arith, mem-all p cs (add_to_group c groups), mem-add p c groups)

all_of-insert :
    (q : ℕ → Bool) (p : ℕ) (ps : List ℕ) → all_of q (insert_number p ps) ≡ (q p && all_of q ps)
unfolding insert_number
all_of-insert q p [] = refl
all_of-insert q p (r ∷ ps) = ground (arith, all_of-insert q p ps)

mem-insert : (p r : ℕ) (ps : List ℕ) → mem p (insert_number r ps) ≡ (r == p || mem p ps)
unfolding insert_number
mem-insert p r [] = refl
mem-insert p r (q ∷ ps) = ground (arith, mem-insert p r ps)

pub mem-sort : (p : ℕ) (ps : List ℕ) → mem p (sort_numbers ps) ≡ mem p ps
unfolding sort_numbers
mem-sort p [] = refl
mem-sort p (r ∷ ps) = mem-insert p r (sort_numbers ps) ∙ ap (λ b. r == p || b) (mem-sort p ps)

above_trans :
    (m n : ℕ) (ps : List ℕ)
    → m < n
    → all_of (λ q. ltb n q) ps ≡ true
    → all_of (λ q. ltb m q) ps ≡ true
above_trans m n [] h a = refl
above_trans m n (p ∷ ps) h a = ground (arith, above_trans m n ps h)

rising-insert :
    (p : ℕ) (ps : List ℕ) → mem p ps ≡ false → rising ps ≡ true → rising (insert_number p ps) ≡ true
unfolding insert_number
rising-insert p [] m h = refl
rising-insert p (q ∷ ps) m h =
    ground (arith, m, h, rising-insert p ps, above_trans p q ps, all_of-insert (λ r. ltb q r) p ps)

pub rising-sort : (ps : List ℕ) → distinct ps ≡ true → rising (sort_numbers ps) ≡ true
unfolding sort_numbers
rising-sort [] h = refl
rising-sort (p ∷ ps) h =
    rising-insert p (sort_numbers ps) (mem-sort p ps ∙ ground (arith, h))
      (rising-sort ps (ground (arith, h)))
