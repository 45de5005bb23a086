-- ===== src/Common/Integers.antt =====
-- The integers over the native numbers, with their Boolean tests.
use Prim.Native.Nat.{ℕ}
use mathlib.Core.Bool.{Bool, true, false}
use glados_docker.Common.Tests.{leb, if◌then◌else◌}

-- `negsuc n` is `- (n + 1)`.
pub data ℤ : Type 0 where
  pos : ℕ → ℤ
  negsuc : ℕ → ℤ

-- `a <= b`
abbrev pub leq_int : ℤ → ℤ → Bool
leq_int (pos a) (pos b) = leb a b
leq_int (pos a) (negsuc b) = false
leq_int (negsuc a) (pos b) = true
leq_int (negsuc a) (negsuc b) = leb b a

-- `a < b`
abbrev pub less_int : ℤ → ℤ → Bool
less_int a b = if leq_int b a then false else true

-- `min(a, b)` and `max(a, b)`
abbrev pub min_int : ℤ → ℤ → ℤ
min_int a b = if leq_int a b then a else b

abbrev pub max_int : ℤ → ℤ → ℤ
max_int a b = if leq_int a b then b else a
