-- ===== src/Auth/RateLimit/Bound.antt =====
-- How many calls the limiter lets through.
use glados_docker.Common.{
  Bool, Bool-cases, List, String, [], arith, eq_iff, false, get, get-put, get-put_self,
  if◌then◌else◌, inl, inr, leb, ltb, refl, some, subst, suc, sym, true, zero, ℕ, ◌*◌, ◌+◌, ◌<◌, ◌∷◌,
  ◌≡◌, ◌≢◌, ◌≤◌,
}
use glados_docker.Auth.RateLimit.{Bucket, TokenBucket, allow, refill, stored, take_token}

-- The calls of one key at the given times: how many were allowed, and the limiter after them.
unfoldable pub calls_of : String → List ℕ → TokenBucket → ℕ × TokenBucket
calls_of key [] t = (0, t)
calls_of key (now ∷ times) t =
    let (allowed, t') = allow now key t in
    let (n, t'') = calls_of key times t' in ((if allowed then n + 1 else n), t'')

-- No time is after `stop`.
abbrev pub Before : ℕ → List ℕ → Type 0
Before stop [] = Unit {0}
Before stop (t ∷ ts) = (t ≤ stop) × Before stop ts

-- Up to `stop` the bucket's tokens cannot be below zero.
abbrev pub Solvent : ℕ → ℕ → Bucket → Type 0
Solvent capacity stop b = b.debt + b.last * capacity ≤ b.credit + stop * capacity

earned_le : (a b k : ℕ) → a ≤ b → a * k ≤ b * k
earned_le a b k h = grind arith

-- What two buckets are to each other where the second may have spent `w` more.
record Pays (capacity stop w : ℕ) (b b' : Bucket) : Type 0 where
  solvent : Solvent capacity stop b'
  paid : w + b.debt + b.last * capacity + b'.credit ≤ b.credit + b'.debt + b'.last * capacity

refill-Pays :
    (capacity window now stop : ℕ) (b : Bucket)
    → now ≤ stop
    → Solvent capacity stop b
    → Pays capacity stop 0 b (refill capacity window now b)
      × ((refill capacity window now b).last ≡ now)
unfolding refill
refill-Pays capacity window now stop b h s =
    let full = leb (capacity * window + (b.debt + b.last * capacity)) (b.credit + now * capacity) in
    elim (Bool-cases full) [
      | inl e ↦ rw e (
        record { solvent = omega (arith, earned_le now stop capacity h); paid = ground (arith, e) },
        refl,
      )
      | inr e ↦ rw e (record { solvent = omega (arith, s); paid = omega arith }, refl)
    ]

take_token-Pays :
    (capacity window now stop : ℕ) (b : Bucket)
    → now ≤ stop
    → Solvent capacity stop b
    → (let (allowed, b') = take_token capacity window now b in
        Pays capacity stop (if allowed then window else 0) b b')
unfolding take_token
take_token-Pays capacity window now stop b h s =
    let r = refill capacity window now b in
    let (p, at) = refill-Pays capacity window now stop b h s in
    elim (Bool-cases (ltb r.credit (r.debt + window))) [
      | inl e ↦ rw e p
      | inr e ↦ rw e (record {
        solvent =
            let enough : r.debt + window ≤ r.credit = ground (arith, e) in
            let kept : r.last * capacity ≤ stop * capacity =
              ap_le at (earned_le now stop capacity h) in
            omega (arith, enough, kept);
        paid = omega (arith, p.paid);
      })
    ]
  where
    ap_le : {n : ℕ} → n ≡ now → now * capacity ≤ stop * capacity → n * capacity ≤ stop * capacity
    ap_le e k = subst (λ m. m * capacity ≤ stop * capacity) (sym e) k

allow-bucket :
    (now : ℕ) (key : String) (t : TokenBucket) (b : Bucket)
    → get key t.state ≡ some b
    → ((allow now key t).0 ≡ (take_token t.capacity t.window now b).0)
      × (get key (allow now key t).1.state ≡ some (take_token t.capacity t.window now b).1)
      × ((allow now key t).1.capacity ≡ t.capacity)
      × ((allow now key t).1.window ≡ t.window)
unfolding allow
allow-bucket now key t b e = rw e (refl, get-put_self key _ t.state, refl, refl)

spend_step :
    (allowed : Bool) (n w spent cost credit' debt' credit : ℕ)
    → (if allowed then w else 0) + spent + credit' ≤ credit + debt'
    → n * w + debt' ≤ credit' + cost
    → (if allowed then n + 1 else n) * w + spent ≤ credit + cost
spend_step true n w spent cost credit' debt' credit paid rest = omega arith
spend_step false n w spent cost credit' debt' credit paid rest = omega arith

-- Whatever the times of the calls of a key, in whatever order, up to `stop`: the calls that are
-- allowed take no more than the tokens in its bucket and `capacity` tokens for each `window` that
-- has passed from the bucket's time to `stop`, in parts of a token, where these together are not
-- below zero.
pub calls_of_bound :
    (key : String) (times : List ℕ) (stop : ℕ) (t : TokenBucket) (b : Bucket)
    → get key t.state ≡ some b
    → Before stop times
    → Solvent t.capacity stop b
    → (calls_of key times t).0 * t.window + (b.debt + b.last * t.capacity)
      ≤ b.credit + stop * t.capacity
unfolding calls_of
calls_of_bound key [] stop t b e h s = omega (arith, s)
calls_of_bound key (now ∷ times) stop t b e h s =
    let t' : TokenBucket = (allow now key t).1 in
    let b' : Bucket = (take_token t.capacity t.window now b).1 in
    let (same, put', cap, win) = allow-bucket now key t b e in
    let p = take_token-Pays t.capacity t.window now stop b h.0 s in
    let later = calls_of_bound key times stop t' b' put' h.1 (rw cap p.solvent) in
    spend_step (allow now key t).0 (calls_of key times t').0 t.window (b.debt + b.last * t.capacity)
      (stop * t.capacity) b'.credit (b'.debt + b'.last * t.capacity) b.credit
      (rw same (omega (arith, p.paid))) (rw (cap, win) at later)

window-le : (capacity window : ℕ) → 0 < capacity → window ≤ capacity * window
window-le zero window h = elim h [ ]
window-le (suc c) window h = omega arith

-- A call of a key is allowed once the bucket has a token with what the time has earned; and
-- no call of a key changes the bucket of another.
pub allow_after_wait :
    (now : ℕ) (key other : String) (t : TokenBucket) (b : Bucket)
    → get key t.state ≡ some b
    → 0 < t.capacity
    → t.window + b.debt + b.last * t.capacity ≤ b.credit + now * t.capacity
    → key ≢ other
    → ((allow now key t).0 ≡ true) × (get other (allow now key t).1.state ≡ get other t.state)
unfolding allow
allow_after_wait now key other t b e some_capacity wait ne = (
  ground (arith, e, window-le t.capacity t.window some_capacity),
  ground (
    arith,
    get-put key other
        (take_token t.capacity t.window now (stored t.capacity t.window now (get key t.state))).1
        t.state,
    eq_iff key other,
  ),
)
