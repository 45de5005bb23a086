-- ===== src/Ha/Cache/Admission.antt =====
-- What `get_candidates` admits: the cutoffs, the filters and the limit.
use glados_docker.Common.{
  Bool, Bool-cases, List, Option, Option-cases, String, [], all_of, arith, false, if◌then◌else◌,
  inl, inr, is_blank, keep, leb, length, length-take, ltb, map, mem_text, none, not, refl, some,
  strip, suc, take, true, zero, ℕ, ◌&&◌, ◌*◌, ◌∙◌, ◌∷◌, ◌≡◌, ◌≤◌,
}
use glados_docker.Ha.Cache.{EntityCache, EntityState, all_entities}
use glados_docker.Ha.Cache.Scores.{
  CandidateMatch, Matcher, Query, Search, best_match, cutoff_for, in_domains, insert_rank,
  is_segment_entity, past_cutoff, ranked_match, read_query, score_entities, score_entity,
  searchable_names, sort_rank,
}
use glados_docker.Ha.Cache.Candidates.{
  all_candidates, dedup_light_switch_twins, drop_entity_ids, exact_matches, first_equal,
  get_candidates, group_by_device,
}
use glados_docker.Ha.Cache.Cutoffs.{cutoff_critical, cutoff_least, is_critical}

-- The full score for what is critical, and a score of 60 at least for the rest.
abbrev pub scored_enough : CandidateMatch → Bool
scored_enough c = leb (if is_critical c.entity then 10000 else 6000) c.score

-- What the arguments of the search ask of a candidate.
abbrev pub asked_for : Matcher → Search → CandidateMatch → Bool
asked_for m s c = in_domains s.domain_filter c.entity && not (is_segment_entity m s c.entity)

abbrev pub is_admitted : Matcher → Search → CandidateMatch → Bool
is_admitted m s c = scored_enough c && asked_for m s c

module _ {ℓ} {A : Type ℓ} where
  all_of-take :
      (p : A → Bool) (n : ℕ) (xs : List A) → all_of p xs ≡ true → all_of p (take n xs) ≡ true
  all_of-take p zero xs h = refl
  all_of-take p (suc n) [] h = refl
  all_of-take p (suc n) (x ∷ xs) h = ground (arith, all_of-take p n xs)

  all_of-keep : (p q : A → Bool) (xs : List A) → all_of p xs ≡ true → all_of p (keep q xs) ≡ true
  all_of-keep p q [] h = refl
  all_of-keep p q (x ∷ xs) h = ground (arith, all_of-keep p q xs)

score_enough :
    (critical : Bool) (cutoff score : ℕ)
    → (critical ≡ true → cutoff ≡ 100)
    → 60 ≤ cutoff
    → ltb score (100 * cutoff) ≡ false
    → leb (if critical then 10000 else 6000) score ≡ true
score_enough true cutoff score h l g = let e = h refl in ground arith
score_enough false cutoff score h l g = ground arith

abbrev snd_admitted : Matcher → Search → ℕ × CandidateMatch → Bool
snd_admitted m s p = is_admitted m s p.1

abbrev opt_admitted : Matcher → Search → Option (ℕ × CandidateMatch) → Bool
opt_admitted m s none = true
opt_admitted m s (some c) = snd_admitted m s c

past_cutoff-enough :
    (m : Matcher) (s : Search) (q : Query) (e : EntityState) (o : Option (String × ℕ))
    → in_domains s.domain_filter e ≡ true
    → is_segment_entity m s e ≡ false
    → opt_admitted m s (past_cutoff m s q e o) ≡ true
unfolding ranked_match
past_cutoff-enough m s q e none d g = refl
past_cutoff-enough m s q e (some (name, score)) d g =
    elim (Bool-cases (ltb score (100 * cutoff_for e))) [
      | inl low ↦ rw low refl
      | inr high ↦
          rw
            (
              high,
              score_enough (is_critical e) (cutoff_for e) score (cutoff_critical e) (cutoff_least e)
                  high,
              d,
              g,
            )
            refl
    ]

score_entity-admitted :
    (m : Matcher) (s : Search) (q : Query) (e : EntityState)
    → opt_admitted m s (score_entity m s q e) ≡ true
unfolding score_entity
score_entity-admitted m s q e = elim (Bool-cases (in_domains s.domain_filter e)) [
  | inr out ↦ rw out refl
  | inl inside ↦ elim (Bool-cases (is_segment_entity m s e)) [
    | inl segment ↦ rw (inside, segment) refl
    | inr whole ↦
        rw (inside, whole)
          (past_cutoff-enough m s q e (best_match m q.q (searchable_names e)) inside whole)
  ]
]

score_entities-admitted :
    (m : Matcher) (s : Search) (q : Query) (es : List EntityState)
    → all_of (snd_admitted m s) (score_entities m s q es) ≡ true
unfolding score_entities
score_entities-admitted m s q [] = refl
score_entities-admitted m s q (e ∷ es) =
    ground (arith, score_entity-admitted m s q e, score_entities-admitted m s q es)

all_of-insert_rank :
    (p : ℕ × CandidateMatch → Bool) (c : ℕ × CandidateMatch) (cs : List (ℕ × CandidateMatch))
    → all_of p (insert_rank c cs) ≡ (p c && all_of p cs)
unfolding insert_rank
all_of-insert_rank p c [] = refl
all_of-insert_rank p c (d ∷ ds) = ground (arith, all_of-insert_rank p c ds)

all_of-sort_rank :
    (p : ℕ × CandidateMatch → Bool) (cs : List (ℕ × CandidateMatch))
    → all_of p (sort_rank cs) ≡ all_of p cs
unfolding sort_rank
all_of-sort_rank p [] = refl
all_of-sort_rank p (c ∷ cs) =
    ground (arith, all_of-insert_rank p c (sort_rank cs), all_of-sort_rank p cs)

all_of-matches :
    (p : CandidateMatch → Bool) (cs : List (ℕ × CandidateMatch))
    → all_of p (map (λ c. c.1) cs) ≡ all_of (λ c. p c.1) cs
all_of-matches p [] = refl
all_of-matches p (c ∷ cs) = ground (arith, all_of-matches p cs)

exact_matches-admitted :
    (m : Matcher) (s : Search) (q : String) (es : List EntityState)
    → all_of (is_admitted m s) (exact_matches m s q es) ≡ true
unfolding exact_matches
exact_matches-admitted m s q [] = refl
exact_matches-admitted m s q (e ∷ es) =
    let rest = exact_matches-admitted m s q es in
    elim (Bool-cases (in_domains s.domain_filter e)) [
      | inr out ↦ rw out rest
      | inl inside ↦ elim (Bool-cases (is_segment_entity m s e)) [
        | inl segment ↦ rw (inside, segment) rest
        | inr whole ↦ elim (Option-cases (first_equal m.lower q (searchable_names e))) [
          | inl nothing ↦ rw (inside, whole, nothing) rest
          | inr (name, found) ↦ rw (inside, whole, found) (ground arith)
        ]
      ]
    ]

ranked-admitted :
    (m : Matcher) (s : Search) (q : Query) (es : List EntityState)
    → all_of (is_admitted m s) (map (λ p. p.1) (sort_rank (score_entities m s q es))) ≡ true
ranked-admitted m s q es =
    all_of-matches (is_admitted m s) (sort_rank (score_entities m s q es))
    ∙ all_of-sort_rank (snd_admitted m s) (score_entities m s q es)
    ∙ score_entities-admitted m s q es

dedup-all_of :
    (lower : String → String) (p : CandidateMatch → Bool) (cs : List CandidateMatch)
    → all_of p cs ≡ true
    → all_of p (dedup_light_switch_twins lower cs) ≡ true
unfolding dedup_light_switch_twins
dedup-all_of lower p cs h =
    all_of-keep p
      (λ c. not (mem_text c.entity.entity_id (drop_entity_ids lower (group_by_device cs [])))) cs h

all_of-if :
    (p : CandidateMatch → Bool) (b : Bool) (xs ys : List CandidateMatch)
    → all_of p xs ≡ true
    → all_of p ys ≡ true
    → all_of p (if b then xs else ys) ≡ true
all_of-if p true xs ys h g = h
all_of-if p false xs ys h g = g

all_candidates-admitted :
    (m : Matcher) (rapidfuzz : Bool) (s : Search) (query : String) (c : EntityCache)
    → all_of (is_admitted m s) (all_candidates m rapidfuzz s query c) ≡ true
unfolding all_candidates
all_candidates-admitted m false s query c =
    exact_matches-admitted m s (m.lower (strip query)) (all_entities c)
all_candidates-admitted m true s query c =
    let ranked = ranked-admitted m s (read_query m s query) (all_entities c) in
    all_of-if (is_admitted m s) s.twin_dedup
      (dedup_light_switch_twins m.lower
        (map (λ p. p.1) (sort_rank (score_entities m s (read_query m s query) (all_entities c)))))
      (map (λ p. p.1) (sort_rank (score_entities m s (read_query m s query) (all_entities c))))
      (dedup-all_of m.lower (is_admitted m s)
        (map (λ p. p.1) (sort_rank (score_entities m s (read_query m s query) (all_entities c))))
        ranked)
      ranked

-- Whatever the fuzzy matcher answers, and with or without it: there are at most as many candidates
-- as the limit; a lock, an alarm panel, a camera or a garage door is a candidate only with the full
-- score, and any other entity only with a score of at least 60; each is in a domain of the filter,
-- and where segments are ignored none is a segment.
pub get_candidates-admitted :
    (m : Matcher) (rapidfuzz : Bool) (s : Search) (query : String) (c : EntityCache)
    → (length (get_candidates m rapidfuzz s query c) ≤ s.limit)
      × (all_of (is_admitted m s) (get_candidates m rapidfuzz s query c) ≡ true)
unfolding get_candidates
get_candidates-admitted m rapidfuzz s query c = elim (Bool-cases (is_blank query)) [
  | inl blank ↦ rw blank (omega arith, refl)
  | inr asked ↦ rw asked (
    omega (arith, length-take s.limit (all_candidates m rapidfuzz s query c)),
    all_of-take (is_admitted m s) s.limit (all_candidates m rapidfuzz s query c)
        (all_candidates-admitted m rapidfuzz s query c),
  )
]
