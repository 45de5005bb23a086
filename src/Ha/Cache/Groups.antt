-- ===== src/Ha/Cache/Groups.antt =====
-- The groups of `_dedup_light_switch_twins`, and the entity ids that it drops.
use glados_docker.Common.{
  Bool, Bool-cases, Dict, List, Option-cases, String, [], all_of, any_of, append-cons, append-nil,
  arith, eq_iff, get, get-put, if◌then◌else◌, inl, inr, keep, mem_text, opt_eq, or_else, put, refl,
  some, str_eq, sym, true, ◌&&◌, ◌++◌, ◌||◌, ◌∙◌, ◌∷◌, ◌≡◌,
}
use glados_docker.Ha.Cache.{nonempty}
use glados_docker.Ha.Cache.Scores.{CandidateMatch}
use glados_docker.Ha.Cache.Candidates.{drop_entity_ids, group_by_device, in_domain, losers}

abbrev pub of_device : String → CandidateMatch → Bool
of_device did c = opt_eq (nonempty c.device_id) (some did)

-- The entities of one domain on a device.
abbrev pub is_side : String → String → CandidateMatch → Bool
is_side domain did c = of_device did c && in_domain domain c

-- The device has a light and a switch in the list.
abbrev pub has_twins : String → List CandidateMatch → Bool
has_twins did cs = any_of (is_side "light" did) cs && any_of (is_side "switch" did) cs

abbrev pub group_of : String → Dict (List CandidateMatch) → List CandidateMatch
group_of did groups = or_else (get did groups) []

grow :
    (did d : String) (c : CandidateMatch) (rest : List CandidateMatch)
    (groups : Dict (List CandidateMatch))
    → group_of did (put d (group_of d groups ++ c ∷ []) groups) ++ rest
      ≡ group_of did groups ++ (if str_eq d did then c ∷ rest else rest)
grow did d c rest groups = elim (Bool-cases (str_eq d did)) [
  | inl e ↦
      rw (get-put d did (group_of d groups ++ c ∷ []) groups, e, (eq_iff d did).0 e)
        (append-cons (group_of did groups) c rest)
  | inr e ↦ rw (get-put d did (group_of d groups ++ c ∷ []) groups, e) refl
]

pub group-lem :
    (did : String) (cs : List CandidateMatch) (groups : Dict (List CandidateMatch))
    → group_of did (group_by_device cs groups) ≡ group_of did groups ++ keep (of_device did) cs
unfolding group_by_device
group-lem did [] groups = sym (append-nil (group_of did groups))
group-lem did (c ∷ cs) groups = elim (Option-cases (nonempty c.device_id)) [
  | inl e ↦ rw (e, group_by_device) (group-lem did cs groups)
  | inr (d, e) ↦
      rw (e, group_by_device)
        (group-lem did cs (put d (group_of d groups ++ c ∷ []) groups)
          ∙ grow did d c (keep (of_device did) cs) groups)
]

abbrev pub all_in : List String → List String → Bool
all_in ids drops = all_of (λ i. mem_text i drops) ids

mem-append :
    (i : String) (xs ys : List String) → mem_text i (xs ++ ys) ≡ (mem_text i xs || mem_text i ys)
mem-append i [] ys = refl
mem-append i (x ∷ xs) ys = ground (arith, mem-append i xs ys)

pub any_of-keep :
    (p q : CandidateMatch → Bool) (cs : List CandidateMatch)
    → any_of p (keep q cs) ≡ any_of (λ c. q c && p c) cs
any_of-keep p q [] = refl
any_of-keep p q (c ∷ cs) = ground (arith, any_of-keep p q cs)

pub keep-keep :
    (p q : CandidateMatch → Bool) (cs : List CandidateMatch)
    → keep p (keep q cs) ≡ keep (λ c. q c && p c) cs
keep-keep p q [] = refl
keep-keep p q (c ∷ cs) = ground (arith, keep-keep p q cs)

all_in-append : (ids xs ys : List String) → all_in ids ys ≡ true → all_in ids (xs ++ ys) ≡ true
all_in-append [] xs ys h = refl
all_in-append (i ∷ ids) xs ys h = ground (arith, mem-append i xs ys, all_in-append ids xs ys)

all_in-left : (ids xs ys : List String) → all_in ids xs ≡ true → all_in ids (xs ++ ys) ≡ true
all_in-left [] xs ys h = refl
all_in-left (i ∷ ids) xs ys h = ground (arith, mem-append i xs ys, all_in-left ids xs ys)

all_in-cons :
    (i : String) (ids xs : List String) → all_in ids xs ≡ true → all_in ids (i ∷ xs) ≡ true
all_in-cons i [] xs h = refl
all_in-cons i (j ∷ ids) xs h = ground (arith, all_in-cons i ids xs)

pub all_in_self : (ids : List String) → all_in ids ids ≡ true
all_in_self [] = refl
all_in_self (i ∷ ids) = ground (arith, eq_iff i i, all_in-cons i ids ids (all_in_self ids))

-- What is lost of one group is dropped.
pub losers-dropped :
    (lower : String → String) (did : String) (groups : Dict (List CandidateMatch))
    → all_in (losers lower (group_of did groups)) (drop_entity_ids lower groups) ≡ true
unfolding drop_entity_ids get
losers-dropped lower did [] = unfold losers in refl
losers-dropped lower did ((d, group) ∷ groups) = elim (Bool-cases (str_eq d did)) [
  | inl e ↦ rw e (
      all_in-left (losers lower group) (losers lower group) (drop_entity_ids lower groups)
        (all_in_self (losers lower group)))
  | inr e ↦ rw e (
      all_in-append (losers lower (group_of did groups)) (losers lower group)
        (drop_entity_ids lower groups) (losers-dropped lower did groups))
]
