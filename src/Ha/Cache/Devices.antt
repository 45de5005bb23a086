-- ===== src/Ha/Cache/Devices.antt =====
-- The device ids of `EntityCache` across refreshes.
use glados_docker.Common.{
  Bool, Bool-cases, Dict, List, Option, Option-cases, String, [], all_of, arith, eq_iff, false,
  first_some, get, get-put, get-remove, has, if◌then◌else◌, inl, inr, none, or_else, put, refl,
  some, split_once, str_eq, subst, sym, true, ℕ, ◌&&◌, ◌∙◌, ◌∷◌, ◌≡◌,
}
use glados_docker.Ha.Cache.{
  EntityCache, EntityState, StateObj, apply_get_states, apply_new_state, apply_state_changed,
  carry_devices, carry_over, dot, extract_entity_state, extract_parts, keep_device, nonempty,
  rebuild_entities, remove_entity, store_entity,
}
use glados_docker.Ha.Cache.Keys.{Op, get_states_op, registry_op, run, state_changed_op, step}

abbrev device : Option EntityState → Option String
device none = none
device (some e) = nonempty e.device_id

abbrev pub device_of : String → Dict EntityState → Option String
device_of eid d = device (get eid d)

-- An event or a snapshot, as opposed to a sync with the registry.
abbrev pub is_refresh : Op → Bool
is_refresh (get_states_op ts states) = true
is_refresh (registry_op entries) = false
is_refresh (state_changed_op now d) = true

-- The entity is there after each of the operations.
abbrev pub stays_present : String → EntityCache → List Op → Bool
stays_present eid c [] = true
stays_present eid c (op ∷ ops) = has eid (step c op).entities && stays_present eid (step c op) ops

device_of-put :
    (j eid : String) (e : EntityState) (d : Dict EntityState)
    → device_of eid (put j e d) ≡ (if str_eq j eid then nonempty e.device_id else device_of eid d)
device_of-put j eid e d = ground (arith, get-put j eid e d)

-- The later state has a device where the new one or the earlier one has.
keep_device-lem :
    (prior e : EntityState) (new old : Option String)
    → nonempty e.device_id ≡ new
    → nonempty prior.device_id ≡ old
    → nonempty (keep_device prior e new old).device_id ≡ first_some new old
keep_device-lem prior e none none n o = n
keep_device-lem prior e none (some did) n o = o
keep_device-lem prior e (some did) old n o = n

carry_over-lem :
    (prior : Option EntityState) (e : EntityState)
    → nonempty (carry_over prior e).device_id ≡ first_some (nonempty e.device_id) (device prior)
unfolding carry_over
carry_over-lem none e = ground arith
carry_over-lem (some prior) e =
    keep_device-lem prior e (nonempty e.device_id) (nonempty prior.device_id) refl refl

-- An entity with a device keeps it through the rest of the loop.
carry_devices-kept :
    (eid did : String) (entities d : Dict EntityState)
    → device_of eid d ≡ some did
    → device_of eid (carry_devices entities d) ≡ some did
unfolding carry_devices
carry_devices-kept eid did [] d h = h
carry_devices-kept eid did ((j, prior) ∷ entities) d h = elim (Option-cases (get j d)) [
  | inl n ↦ rw (n, carry_devices) (carry_devices-kept eid did entities d h)
  | inr (e, x) ↦
      rw (x, carry_devices)
        (carry_devices-kept eid did entities (put j (carry_over (some prior) e) d) (
          ground (
            arith,
            eq_iff j eid,
            carry_over-lem (some prior) e,
            device_of-put j eid (carry_over (some prior) e) d,
          )))
]

-- An entity that is there without a device gets the one that it had.
carry_devices-gives :
    (eid did : String) (entities d : Dict EntityState)
    → has eid d ≡ true
    → device_of eid d ≡ none
    → device_of eid entities ≡ some did
    → device_of eid (carry_devices entities d) ≡ some did
unfolding carry_devices has get
carry_devices-gives eid did [] d p b h = cc
carry_devices-gives eid did ((j, prior) ∷ entities) d p b h = elim (Option-cases (get j d)) [
  | inl n ↦
      rw (n, carry_devices)
        (carry_devices-gives eid did entities d p b (ground (arith, eq_iff j eid)))
  | inr (e, x) ↦
      rw (x, carry_devices)
        (given e (carry_over (some prior) e) x (carry_over-lem (some prior) e)
          (carry_devices-gives eid did entities (put j (carry_over (some prior) e) d)))
]
  where
    given :
        (e new : EntityState)
        → get j d ≡ some e
        → nonempty new.device_id ≡ first_some (nonempty e.device_id) (nonempty prior.device_id)
        → (has eid (put j new d) ≡ true
            → device_of eid (put j new d) ≡ none
            → device_of eid entities ≡ some did
            → device_of eid (carry_devices entities (put j new d)) ≡ some did)
        → device_of eid (carry_devices entities (put j new d)) ≡ some did
    given e new x c rest = elim (Bool-cases (str_eq j eid)) [
      | inl same ↦
          carry_devices-kept eid did entities (put j new d)
            (ground (arith, eq_iff j eid, device_of-put j eid new d))
      | inr other ↦
          rest (ground (arith, get-put j eid new d)) (ground (arith, device_of-put j eid new d))
            (ground arith)
    ]

has-carry_devices :
    (eid : String) (entities d : Dict EntityState) → has eid (carry_devices entities d) ≡ has eid d
unfolding carry_devices has
has-carry_devices eid [] d = refl
has-carry_devices eid ((j, prior) ∷ entities) d = elim (Option-cases (get j d)) [
  | inl n ↦ rw (n, carry_devices) (has-carry_devices eid entities d)
  | inr (e, x) ↦
      rw (x, carry_devices)
        (has-carry_devices eid entities (put j (carry_over (some prior) e) d)
          ∙ ground (arith, eq_iff j eid, get-put j eid (carry_over (some prior) e) d))
]

extract-bare :
    (as_of : ℕ) (o : StateObj) (e : EntityState)
    → extract_entity_state as_of o ≡ some e
    → nonempty e.device_id ≡ none
unfolding extract_entity_state
extract-bare as_of o e h = elim (Option-cases o.entity_id) [
  | inl n ↦ cc (rw n at h)
  | inr (eid, s) ↦ bare eid (split_once dot eid) (rw s at h)
]
  where
    bare :
        (eid : String) (parts : Option (String × String))
        → extract_parts as_of o eid parts ≡ some e
        → nonempty e.device_id ≡ none
    bare eid none h = cc
    bare eid (some (a, b)) h =
        let new : EntityState = or_else (extract_parts as_of o eid (some (a, b))) e in
        let q : new ≡ e = cc h in subst (λ x. nonempty x.device_id ≡ none) q refl

rebuild-bare :
    (ts : ℕ) (states : List StateObj) (eid : String) (d : Dict EntityState)
    → device_of eid d ≡ none
    → device_of eid (rebuild_entities ts states d) ≡ none
unfolding rebuild_entities
rebuild-bare ts [] eid d h = h
rebuild-bare ts (s ∷ states) eid d h = elim (Option-cases (extract_entity_state ts s)) [
  | inl n ↦ rw (n, rebuild_entities) (rebuild-bare ts states eid d h)
  | inr (e, x) ↦
      rw (x, rebuild_entities)
        (rebuild-bare ts states eid (put e.entity_id e d)
          (ground (arith, device_of-put e.entity_id eid e d, extract-bare ts s e x)))
]

store-device :
    (now : ℕ) (s : StateObj) (eid did : String) (c : EntityCache) (o : Option EntityState)
    → extract_entity_state now s ≡ o
    → device_of eid c.entities ≡ some did
    → device_of eid (store_entity c o).entities ≡ some did
store-device now s eid did c none x h = h
store-device now s eid did c (some e) x h =
    let new : EntityState = carry_over (get e.entity_id c.entities) e in
    elim (Bool-cases (str_eq e.entity_id eid)) [
      | inl same ↦
          let q : e.entity_id ≡ eid = (eq_iff e.entity_id eid).0 same in
          rw (device_of-put e.entity_id eid new c.entities, same)
            (carry_over-lem (get e.entity_id c.entities) e ∙ rw (extract-bare now s e x, q) h)
      | inr other ↦ rw (device_of-put e.entity_id eid new c.entities, other) h
    ]

remove-device :
    (eid did : String) (c : EntityCache) (o : Option String)
    → device_of eid c.entities ≡ some did
    → has eid (remove_entity c o).entities ≡ true
    → device_of eid (remove_entity c o).entities ≡ some did
unfolding has
remove-device eid did c none h p = h
remove-device eid did c (some i) h p = ground (arith, get-remove i eid c.entities)

new_state-device :
    (now : ℕ) (i : Option String) (eid did : String) (c : EntityCache) (o : Option StateObj)
    → device_of eid c.entities ≡ some did
    → has eid (apply_new_state now i c o).entities ≡ true
    → device_of eid (apply_new_state now i c o).entities ≡ some did
new_state-device now i eid did c none h p = remove-device eid did c (nonempty i) h p
new_state-device now i eid did c (some s) h p =
    store-device now s eid did c (extract_entity_state now s) refl h

step-device :
    (eid did : String) (c : EntityCache) (op : Op)
    → device_of eid c.entities ≡ some did
    → is_refresh op ≡ true
    → has eid (step c op).entities ≡ true
    → device_of eid (step c op).entities ≡ some did
unfolding step apply_get_states apply_state_changed get
step-device eid did c (get_states_op ts states) h r p =
    let rebuilt = rebuild_entities ts states [] in
    carry_devices-gives eid did c.entities rebuilt
      (sym (has-carry_devices eid c.entities rebuilt) ∙ p) (rebuild-bare ts states eid [] refl) h
step-device eid did c (registry_op entries) h r p = cc
step-device eid did c (state_changed_op now d) h r p =
    new_state-device now d.entity_id eid did c d.new_state h p

-- An entity whose device is known keeps it through any events and full snapshots, in which no
-- device is named, as long as the entity is there after each of them.
pub device_stays :
    (eid did : String) (ops : List Op) (c : EntityCache)
    → device_of eid c.entities ≡ some did
    → all_of is_refresh ops ≡ true
    → stays_present eid c ops ≡ true
    → device_of eid (run c ops).entities ≡ some did
unfolding run
device_stays eid did [] c h r p = h
device_stays eid did (op ∷ ops) c h r p =
    device_stays eid did ops (step c op) (step-device eid did c op h (ground arith) (ground arith))
      (ground arith) (ground arith)
