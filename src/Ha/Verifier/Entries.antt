-- ===== src/Ha/Verifier/Entries.antt =====
-- The dictionary of a result, which has an entry for each transition of a distinct entity.
use glados_docker.Common.{
  Bool, Dict, List, String, [], ap, append-cons, append-nil, arith, eq_iff, false, keys,
  keys-append, map, mem_text, mem_text-append, not, put-append, refl, sym, true, ◌&&◌, ◌++◌, ◌∙◌,
  ◌∷◌, ◌≡◌,
}
use glados_docker.Ha.Verifier.{
  EntityVerification, ExpectedTransition, Observed, verify_entities, verify_entity,
}

abbrev pub distinct : List ExpectedTransition → Bool
distinct [] = true
distinct (t ∷ ts) = not (mem_text t.entity_id (map (λ u. u.entity_id) ts)) && distinct ts

abbrev ids : List ExpectedTransition → List String
ids ts = map (λ t. t.entity_id) ts

abbrev pub entry : Dict Observed → ExpectedTransition → String × EntityVerification
entry observed t = (t.entity_id, verify_entity observed t)

-- No transition's entity is in the dictionary.
abbrev fresh : List ExpectedTransition → List String → Bool
fresh [] ks = true
fresh (t ∷ ts) ks = not (mem_text t.entity_id ks) && fresh ts ks

fresh-append :
    (ts : List ExpectedTransition) (k : String) (ks : List String)
    → fresh ts ks ≡ true
    → mem_text k (ids ts) ≡ false
    → fresh ts (ks ++ k ∷ []) ≡ true
fresh-append [] k ks h m = refl
fresh-append (t ∷ ts) k ks h m = ground (
  arith,
  fresh-append ts k ks,
  mem_text-append t.entity_id k ks,
  eq_iff t.entity_id k,
  eq_iff k t.entity_id,
)

pub nothing_kept : (ts : List ExpectedTransition) → fresh ts [] ≡ true
nothing_kept [] = refl
nothing_kept (t ∷ ts) = ground (arith, nothing_kept ts)

pub verify_entities-append :
    (observed : Dict Observed) (ts : List ExpectedTransition) (acc : Dict EntityVerification)
    → distinct ts ≡ true
    → fresh ts (keys acc) ≡ true
    → verify_entities observed ts acc ≡ acc ++ map (entry observed) ts
unfolding verify_entities
verify_entities-append observed [] acc d f = sym (append-nil acc)
verify_entities-append observed (t ∷ ts) acc d f =
    let v = verify_entity observed t in
    let added = put-append t.entity_id v acc (ground (arith, f)) in
    ap (verify_entities observed ts) added
    ∙ verify_entities-append observed ts (acc ++ (t.entity_id, v) ∷ []) (ground (arith, d)) (
        ap (fresh ts) (keys-append acc t.entity_id v)
        ∙ fresh-append ts t.entity_id (keys acc) (ground (arith, f)) (ground (arith, d)))
    ∙ append-cons acc (t.entity_id, v) (map (entry observed) ts)
