-- ===== src/Ha/Cache/Twins.antt =====
-- The light and the switch of one device.
use glados_docker.Common.{
  Bool, Bool-cases, List, String, [], any_of, arith, eq_iff, false, get, inl, inr, keep, length,
  ltb, mem_text, not, refl, str_eq, subst, true, ◌&&◌, ◌||◌, ◌∙◌, ◌∷◌, ◌≡◌, ◌⊎◌,
}
use glados_docker.Ha.Cache.Scores.{CandidateMatch, light_has_dim_capability}
use glados_docker.Ha.Cache.Candidates.{
  dedup_light_switch_twins, drop_entity_ids, entity_ids, group_by_device, in_domain, losers,
  losing_side,
}
use glados_docker.Ha.Cache.Groups.{
  all_in, all_in_self, any_of-keep, group-lem, group_of, has_twins, is_side, keep-keep,
  losers-dropped, of_device,
}

-- If the ids of all candidates with a property are dropped, no candidate with it is kept.
none_kept :
    (p : CandidateMatch → Bool) (drops : List String) (cs : List CandidateMatch)
    → all_in (entity_ids (keep p cs)) drops ≡ true
    → any_of p (keep (λ c. not (mem_text c.entity.entity_id drops)) cs) ≡ false
none_kept p drops [] h = refl
none_kept p drops (c ∷ cs) h = ground (arith, none_kept p drops cs)

or_false : (b : Bool) → (b || false) ≡ true → b ≡ true
or_false true h = refl
or_false false h = h

one_domain : (d : String) → str_eq d "light" ≡ true → str_eq d "switch" ≡ true → ⊥
one_domain d h g =
    let light : str_eq "light" "switch" ≡ true =
      subst (λ e. str_eq e "switch" ≡ true) ((eq_iff d "light").0 h) g in
    cc

-- A list with a light and a switch has two elements.
two_sides :
    (cs : List CandidateMatch)
    → any_of (in_domain "light") cs ≡ true
    → any_of (in_domain "switch") cs ≡ true
    → ltb (length cs) 2 ≡ false
two_sides [] h g = cc
two_sides (c ∷ []) h g = absurd (one_domain c.entity.domain (or_false _ h) (or_false _ g))
two_sides (c ∷ d ∷ cs) h g = ground arith

abbrev loses : (String → String) → String → List CandidateMatch → Bool
loses lower domain cs = all_in (entity_ids (keep (in_domain domain) cs)) (losers lower cs)

losing_side-loses :
    (lower : String → String) (ls ss : List CandidateMatch)
    → ltb 0 (length ls) ≡ true
    → ltb 0 (length ss) ≡ true
    → (losing_side lower ls ss ≡ ls) ⊎ (losing_side lower ls ss ≡ ss)
losing_side-loses lower [] ss h g = cc
losing_side-loses lower (l ∷ ls) [] h g = cc
losing_side-loses lower (l ∷ ls) (s ∷ ss) h g =
    elim (Bool-cases (any_of (λ c. light_has_dim_capability lower c.entity) (l ∷ ls))) [
      | inl e ↦ inr (rw e refl)
      | inr e ↦ inl (rw e refl)
    ]

some_kept :
    (p : CandidateMatch → Bool) (cs : List CandidateMatch)
    → any_of p cs ≡ true
    → ltb 0 (length (keep p cs)) ≡ true
some_kept p [] h = cc
some_kept p (c ∷ cs) h = ground (arith, some_kept p cs)

one_side_loses :
    (lower : String → String) (cs : List CandidateMatch)
    → any_of (in_domain "light") cs ≡ true
    → any_of (in_domain "switch") cs ≡ true
    → (loses lower "light" cs ≡ true) ⊎ (loses lower "switch" cs ≡ true)
unfolding losers
one_side_loses lower cs h g =
    let ls = keep (in_domain "light") cs in
    let ss = keep (in_domain "switch") cs in
    elim (losing_side-loses lower ls ss (some_kept _ cs h) (some_kept _ cs g)) [
      | inl e ↦ inl (rw (two_sides cs h g, e) (all_in_self (entity_ids ls)))
      | inr e ↦ inr (rw (two_sides cs h g, e) (all_in_self (entity_ids ss)))
    ]

mem_trans :
    (i : String) (xs ys : List String)
    → mem_text i xs ≡ true
    → all_in xs ys ≡ true
    → mem_text i ys ≡ true
mem_trans i [] ys h g = cc
mem_trans i (x ∷ xs) ys h g = ground (arith, eq_iff x i, mem_trans i xs ys)

all_in_trans :
    (ids xs ys : List String) → all_in ids xs ≡ true → all_in xs ys ≡ true → all_in ids ys ≡ true
all_in_trans [] xs ys h g = refl
all_in_trans (i ∷ ids) xs ys h g = ground (arith, mem_trans i xs ys, all_in_trans ids xs ys)

none_among :
    (p q : CandidateMatch → Bool) (cs : List CandidateMatch)
    → any_of p cs ≡ false
    → any_of p (keep q cs) ≡ false
none_among p q [] h = refl
none_among p q (c ∷ cs) h = ground (arith, none_among p q cs)

-- The side of a device that loses is not kept.
side_dropped :
    (lower : String → String) (domain did : String) (cs : List CandidateMatch)
    → loses lower domain (keep (of_device did) cs) ≡ true
    → any_of (is_side domain did) (dedup_light_switch_twins lower cs) ≡ false
unfolding dedup_light_switch_twins get
side_dropped lower domain did cs h =
    let groups = group_by_device cs [] in
    let drops = drop_entity_ids lower groups in
    let g : group_of did groups ≡ keep (of_device did) cs = group-lem did cs [] in
    let dropped : all_in (losers lower (keep (of_device did) cs)) drops ≡ true =
      subst (λ xs. all_in (losers lower xs) drops ≡ true) g (losers-dropped lower did groups) in
    none_kept (is_side domain did) drops cs (
      subst (λ xs. all_in (entity_ids xs) drops ≡ true)
        (keep-keep (in_domain domain) (of_device did) cs)
        (all_in_trans (entity_ids (keep (in_domain domain) (keep (of_device did) cs)))
          (losers lower (keep (of_device did) cs)) drops h dropped))

-- A side that is in no candidate is in none that is kept.
side_absent :
    (lower : String → String) (domain did : String) (cs : List CandidateMatch)
    → any_of (is_side domain did) cs ≡ false
    → any_of (is_side domain did) (dedup_light_switch_twins lower cs) ≡ false
unfolding dedup_light_switch_twins
side_absent lower domain did cs h =
    none_among (is_side domain did)
      (λ c. not (mem_text c.entity.entity_id (drop_entity_ids lower (group_by_device cs [])))) cs h

and_no : (a b : Bool) → (a ≡ false) ⊎ (b ≡ false) → (a && b) ≡ false
and_no a b (inl e) = rw e refl
and_no true b (inr e) = e
and_no false b (inr e) = refl

on_side :
    (domain did : String) (cs : List CandidateMatch)
    → any_of (is_side domain did) cs ≡ true
    → any_of (in_domain domain) (keep (of_device did) cs) ≡ true
on_side domain did cs h = any_of-keep (in_domain domain) (of_device did) cs ∙ h

-- After the pass over the twins, no device has both a light and a switch among the candidates.
pub dedup-has_twins :
    (lower : String → String) (did : String) (cs : List CandidateMatch)
    → has_twins did (dedup_light_switch_twins lower cs) ≡ false
dedup-has_twins lower did cs =
    and_no (any_of (is_side "light" did) (dedup_light_switch_twins lower cs))
      (any_of (is_side "switch" did) (dedup_light_switch_twins lower cs))
      (elim (Bool-cases (any_of (is_side "light" did) cs)) [
        | inr e ↦ inl (side_absent lower "light" did cs e)
        | inl l ↦ elim (Bool-cases (any_of (is_side "switch" did) cs)) [
          | inr e ↦ inr (side_absent lower "switch" did cs e)
          | inl s ↦
              elim (one_side_loses lower (keep (of_device did) cs) (on_side "light" did cs l)
                (on_side "switch" did cs s)) [
                  | inl e ↦ inl (side_dropped lower "light" did cs e)
                  | inr e ↦ inr (side_dropped lower "switch" did cs e)
                ]
        ]
      ])
