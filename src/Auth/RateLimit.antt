-- ===== src/Auth/RateLimit.antt =====
-- glados/auth/rate_limit.py: `TokenBucket`. Times are ticks of the monotonic clock. `allow` reads the
-- clock before it takes the lock, so the times of the calls on a bucket need not ascend, and tokens
-- can be negative. The tokens of a bucket are fractions; they are counted here in parts of which
-- `window` make one token, as a credit less a debt, so that no rounding is lost and none is cut off.
pub mod Bound
use glados_docker.Common.{
  Bool, Dict, Option, String, [], false, get, if◌then◌else◌, leb, ltb, none, put, remove, some,
  true, ℕ, ◌*◌, ◌+◌,
}

pub record Bucket : Type 0 where
  pub credit : ℕ
  pub debt : ℕ
  pub last : ℕ

pub record TokenBucket : Type 0 where
  pub capacity : ℕ
  pub window : ℕ
  pub state : Dict Bucket

-- `self._state.get(key, (float(self.capacity), now))`
abbrev pub stored : ℕ → ℕ → ℕ → Option Bucket → Bucket
stored capacity window now none = record { credit = capacity * window; debt = 0; last = now }
stored capacity window now (some b) = b

-- The bucket with `min(capacity, tokens + elapsed / window * capacity)` tokens: the signed elapsed
-- time `now - last` adds to both sides.
unfoldable pub refill : ℕ → ℕ → ℕ → Bucket → Bucket
refill capacity window now b =
    let credit = b.credit + now * capacity in
    let debt = b.debt + b.last * capacity in
    if leb (capacity * window + debt) credit
    then record { credit = capacity * window; debt = 0; last = now }
    else record { credit = credit; debt = debt; last = now }

-- One call on the bucket of a key: whether it is allowed, and the bucket after it.
unfoldable pub take_token : ℕ → ℕ → ℕ → Bucket → Bool × Bucket
unfolding refill
take_token capacity window now b =
    let r = refill capacity window now b in
    if ltb r.credit (r.debt + window)
    then (false, r)
    else (true, record r { debt = r.debt + window })

unfoldable pub allow : ℕ → String → TokenBucket → Bool × TokenBucket
unfolding take_token
allow now key t =
    let (allowed, b) =
      take_token t.capacity t.window now (stored t.capacity t.window now (get key t.state)) in
    (allowed, record t { state = put key b t.state })

unfoldable pub reset : Option String → TokenBucket → TokenBucket
reset none t = record t { state = [] }
reset (some key) t = record t { state = remove key t.state }
