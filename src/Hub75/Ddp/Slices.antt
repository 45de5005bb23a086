-- ===== src/Hub75/Ddp/Slices.antt =====
-- Slices of a list and what was put before them.
use glados_docker.Common.{
  List, [], ap, arith, drop, length, refl, suc, take, zero, ℕ, ◌++◌, ◌+◌, ◌∷◌, ◌≡◌, ◌≤◌,
}

module _ {ℓ} {A : Type ℓ} where
  take-nil : (n : ℕ) → take {A = A} n [] ≡ []
  take-nil zero = refl
  take-nil (suc n) = refl

  pub take-take-append :
      (n : ℕ) (xs ys : List A) → n ≤ length xs → take n (take n xs ++ ys) ≡ take n xs
  take-take-append zero xs ys h = refl
  take-take-append (suc n) [] ys h = absurd (omega arith)
  take-take-append (suc n) (x ∷ xs) ys h = ap (◌∷◌ x) (take-take-append n xs ys (omega arith))

  pub drop-take-append :
      (n k m : ℕ) (xs ys : List A)
      → n ≤ length xs
      → m ≡ n + k
      → drop m (take n xs ++ ys) ≡ drop k ys
  drop-take-append zero k m xs ys h e = ap (λ i. drop i ys) (omega (arith, e))
  drop-take-append (suc n) k m [] ys h e = absurd (omega arith)
  drop-take-append (suc n) k zero (x ∷ xs) ys h e = absurd (omega arith)
  drop-take-append (suc n) k (suc m) (x ∷ xs) ys h e =
      drop-take-append n k m xs ys (omega arith) (omega arith)

  pub take-add : (n k m : ℕ) (xs : List A) → m ≡ n + k → take m xs ≡ take n xs ++ take k (drop n xs)
  take-add zero k m xs e = ap (λ i. take i xs) (omega (arith, e))
  take-add (suc n) zero m [] e = take-nil m
  take-add (suc n) (suc k) m [] e = take-nil m
  take-add (suc n) k zero (x ∷ xs) e = absurd (omega arith)
  take-add (suc n) k (suc m) (x ∷ xs) e = ap (◌∷◌ x) (take-add n k m xs (omega arith))

  pub take-length : (xs : List A) → take (length xs) xs ≡ xs
  take-length [] = refl
  take-length (x ∷ xs) = ap (◌∷◌ x) (take-length xs)

  pub drop-length : (n : ℕ) (xs : List A) → length xs ≤ n → drop n xs ≡ []
  drop-length zero [] h = refl
  drop-length zero (x ∷ xs) h = absurd (omega arith)
  drop-length (suc n) [] h = refl
  drop-length (suc n) (x ∷ xs) h = drop-length n xs (omega arith)
