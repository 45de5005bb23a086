-- ===== src/Ha/Cache/Keys.antt =====
-- The keys of `EntityCache`: every writer keeps the entities under their own ids.
use glados_docker.Common.{
  Bool-cases, Dict, List, Option, Option-cases, String, [], arith, eq_iff, get, get-put, get-remove,
  inl, inr, none, opt_eq, or_else, put, refl, remove, some, split_once, str_eq, subst, ℕ, ◌∷◌, ◌≡◌,
}
use glados_docker.Ha.Cache.{
  EntityCache, EntityState, EventData, RegistryEntry, StateObj, annotate, apply_entity_registry,
  apply_get_states, apply_new_state, apply_state_changed, carry_devices, carry_over, dot,
  empty_cache, extract_entity_state, extract_parts, keep_device, nonempty, rebuild_entities,
  remove_entity, set_device, set_found, set_named, store_entity,
}

pub data Op : Type 0 where
  get_states_op : ℕ → List StateObj → Op
  registry_op : List RegistryEntry → Op
  state_changed_op : ℕ → EventData → Op

unfoldable pub step : EntityCache → Op → EntityCache
unfolding apply_get_states apply_entity_registry apply_state_changed
step c (get_states_op ts states) = (apply_get_states ts states c).1
step c (registry_op entries) = (apply_entity_registry entries c).1
step c (state_changed_op now d) = apply_state_changed now d c

unfoldable pub run : EntityCache → List Op → EntityCache
unfolding step
run c [] = c
run c (op ∷ ops) = run (step c op) ops

-- An entity is the one of its key, and its domain is what precedes the first dot.
abbrev pub FitsKey : String → EntityState → Type 0
FitsKey eid e = (e.entity_id ≡ eid) × (rest : String) × (split_once dot eid ≡ some (e.domain, rest))

abbrev pub IsKeyed : Dict EntityState → Type 0
IsKeyed d = (eid : String) (e : EntityState) → get eid d ≡ some e → FitsKey eid e

none-IsKeyed : IsKeyed []
unfolding get
none-IsKeyed eid e h = cc

put-IsKeyed :
    (eid : String) (e : EntityState) (d : Dict EntityState)
    → FitsKey eid e
    → IsKeyed d
    → IsKeyed (put eid e d)
put-IsKeyed eid e d f k j x h = elim (Bool-cases (str_eq eid j)) [
  | inl same ↦
      let p : some e ≡ some x = rw (get-put eid j e d, same) at h in
      let q : e ≡ x = cc p in
      subst (λ i. FitsKey i x) ((eq_iff eid j).0 same) (subst (λ y. FitsKey eid y) q f)
  | inr other ↦ k j x (rw (get-put eid j e d, other) at h)
]

remove-IsKeyed : (eid : String) (d : Dict EntityState) → IsKeyed d → IsKeyed (remove eid d)
remove-IsKeyed eid d k j x h = k j x (ground (arith, get-remove eid j d))

extract_parts-fits :
    (as_of : ℕ) (o : StateObj) (eid : String) (parts : Option (String × String)) (e : EntityState)
    → split_once dot eid ≡ parts
    → extract_parts as_of o eid parts ≡ some e
    → FitsKey e.entity_id e
extract_parts-fits as_of o eid none e p h = cc
extract_parts-fits as_of o eid (some (a, b)) e p h =
    let new : EntityState = or_else (extract_parts as_of o eid (some (a, b))) e in
    let q : new ≡ e = cc h in subst (λ x. FitsKey x.entity_id x) q (refl, b, p)

extract-fits :
    (as_of : ℕ) (o : StateObj) (e : EntityState)
    → extract_entity_state as_of o ≡ some e
    → FitsKey e.entity_id e
unfolding extract_entity_state
extract-fits as_of o e h = elim (Option-cases o.entity_id) [
  | inl n ↦ cc (rw n at h)
  | inr (eid, s) ↦ extract_parts-fits as_of o eid (split_once dot eid) e refl (rw s at h)
]

keep_device-fits :
    (eid : String) (prior e : EntityState) (new old : Option String)
    → FitsKey eid e
    → FitsKey eid (keep_device prior e new old)
keep_device-fits eid prior e none none f = f
keep_device-fits eid prior e none (some did) f = f
keep_device-fits eid prior e (some did) old f = f

carry_over-fits :
    (eid : String) (prior : Option EntityState) (e : EntityState)
    → FitsKey eid e
    → FitsKey eid (carry_over prior e)
unfolding carry_over
carry_over-fits eid none e f = f
carry_over-fits eid (some prior) e f =
    keep_device-fits eid prior e (nonempty e.device_id) (nonempty prior.device_id) f

rebuild-IsKeyed :
    (ts : ℕ) (states : List StateObj) (d : Dict EntityState)
    → IsKeyed d
    → IsKeyed (rebuild_entities ts states d)
unfolding rebuild_entities
rebuild-IsKeyed ts [] d k = k
rebuild-IsKeyed ts (s ∷ states) d k = elim (Option-cases (extract_entity_state ts s)) [
  | inl n ↦ rw (n, rebuild_entities) (rebuild-IsKeyed ts states d k)
  | inr (e, x) ↦
      rw (x, rebuild_entities)
        (rebuild-IsKeyed ts states (put e.entity_id e d)
          (put-IsKeyed e.entity_id e d (extract-fits ts s e x) k))
]

carry_devices-IsKeyed :
    (entities d : Dict EntityState) → IsKeyed d → IsKeyed (carry_devices entities d)
unfolding carry_devices
carry_devices-IsKeyed [] d k = k
carry_devices-IsKeyed ((eid, prior) ∷ entities) d k = elim (Option-cases (get eid d)) [
  | inl n ↦ rw (n, carry_devices) (carry_devices-IsKeyed entities d k)
  | inr (e, x) ↦
      rw (x, carry_devices)
        (carry_devices-IsKeyed entities (put eid (carry_over (some prior) e) d) (
          put-IsKeyed eid (carry_over (some prior) e) d
            (carry_over-fits eid (some prior) e (k eid e x)) k))
]

set_device-IsKeyed :
    (did : Option String) (eid : String) (e : EntityState) (c : EntityCache)
    → FitsKey eid e
    → IsKeyed c.entities
    → IsKeyed (set_device did eid e c).1.entities
set_device-IsKeyed did eid e c f k = elim (Bool-cases (opt_eq e.device_id did)) [
  | inl same ↦ rw same k
  | inr other ↦ rw other (put-IsKeyed eid (record e { device_id = did }) c.entities f k)
]

set_found-IsKeyed :
    (did : Option String) (eid : String) (c : EntityCache) (o : Option EntityState)
    → get eid c.entities ≡ o
    → IsKeyed c.entities
    → IsKeyed (set_found did eid c o).1.entities
set_found-IsKeyed did eid c none g k = k
set_found-IsKeyed did eid c (some e) g k = set_device-IsKeyed did eid e c (k eid e g) k

set_named-IsKeyed :
    (did : Option String) (c : EntityCache) (o : Option String)
    → IsKeyed c.entities
    → IsKeyed (set_named did c o).1.entities
set_named-IsKeyed did c none k = k
set_named-IsKeyed did c (some eid) k = set_found-IsKeyed did eid c (get eid c.entities) refl k

registry-IsKeyed :
    (entries : List RegistryEntry) (c : EntityCache)
    → IsKeyed c.entities
    → IsKeyed (apply_entity_registry entries c).1.entities
unfolding apply_entity_registry annotate
registry-IsKeyed [] c k = k
registry-IsKeyed (entry ∷ entries) c k =
    registry-IsKeyed entries (annotate entry c).1
      (set_named-IsKeyed (nonempty entry.device_id) c (nonempty entry.entity_id) k)

store_entity-IsKeyed :
    (now : ℕ) (s : StateObj) (c : EntityCache) (o : Option EntityState)
    → extract_entity_state now s ≡ o
    → IsKeyed c.entities
    → IsKeyed (store_entity c o).entities
store_entity-IsKeyed now s c none x k = k
store_entity-IsKeyed now s c (some e) x k =
    put-IsKeyed e.entity_id (carry_over (get e.entity_id c.entities) e) c.entities
      (carry_over-fits e.entity_id (get e.entity_id c.entities) e (extract-fits now s e x)) k

remove_entity-IsKeyed :
    (c : EntityCache) (o : Option String)
    → IsKeyed c.entities
    → IsKeyed (remove_entity c o).entities
remove_entity-IsKeyed c none k = k
remove_entity-IsKeyed c (some eid) k = remove-IsKeyed eid c.entities k

new_state-IsKeyed :
    (now : ℕ) (eid : Option String) (c : EntityCache) (o : Option StateObj)
    → IsKeyed c.entities
    → IsKeyed (apply_new_state now eid c o).entities
new_state-IsKeyed now eid c none k = remove_entity-IsKeyed c (nonempty eid) k
new_state-IsKeyed now eid c (some s) k =
    store_entity-IsKeyed now s c (extract_entity_state now s) refl k

step-IsKeyed : (c : EntityCache) (op : Op) → IsKeyed c.entities → IsKeyed (step c op).entities
unfolding step apply_get_states apply_state_changed
step-IsKeyed c (get_states_op ts states) k =
    carry_devices-IsKeyed c.entities (rebuild_entities ts states [])
      (rebuild-IsKeyed ts states [] none-IsKeyed)
step-IsKeyed c (registry_op entries) k = registry-IsKeyed entries c k
step-IsKeyed c (state_changed_op now d) k = new_state-IsKeyed now d.entity_id c d.new_state k

run_from-IsKeyed :
    (c : EntityCache) (ops : List Op) → IsKeyed c.entities → IsKeyed (run c ops).entities
unfolding run
run_from-IsKeyed c [] k = k
run_from-IsKeyed c (op ∷ ops) k = run_from-IsKeyed (step c op) ops (step-IsKeyed c op k)

-- After any snapshots, registry syncs and events, every entity of the cache is the one whose id is
-- its key, and its domain is the text before the first dot of that id.
pub entities-IsKeyed : (ops : List Op) → IsKeyed (run empty_cache ops).entities
entities-IsKeyed ops = run_from-IsKeyed empty_cache ops none-IsKeyed
