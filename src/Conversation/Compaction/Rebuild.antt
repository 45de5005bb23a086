-- ===== src/Conversation/Compaction/Rebuild.antt =====
-- The two loops of `CompactionAgent.tick` over the indices of the history.
use mathlib.Core.Path.{ap₂}
use glados_docker.Common.{
  Bool-cases, List, [], ap, arith, drop, false, inl, inr, leb, length, ltb, max, refl, suc, sym,
  take, true, zero, ℕ, ◌&&◌, ◌++◌, ◌+◌, ◌-◌, ◌<◌, ◌∙◌, ◌∷◌, ◌≡◌, ◌≤◌,
}
use glados_docker.Conversation.Message.{Message}
use glados_docker.Conversation.Compaction.{compactable, mem, rebuild}

-- `n` indices from `i` on.
abbrev pub upto : ℕ → ℕ → List ℕ
upto i zero = []
upto i (suc n) = i ∷ upto (i + 1) n

pub upto_eq : (a b n k : ℕ) → a ≡ b → n ≡ k → upto a n ≡ upto b k
upto_eq a b n k p q = cc

upto_empty : (a k : ℕ) → k ≡ 0 → upto a k ≡ []
upto_empty a k e = ap (upto a) e

drop-nil : (k : ℕ) → drop {A = Message} k [] ≡ []
drop-nil zero = refl
drop-nil (suc k) = refl

drop-suc : (k j : ℕ) (m : Message) (ms : List Message) → k ≡ suc j → drop k (m ∷ ms) ≡ drop j ms
drop-suc k j m ms e = ap (λ i. drop i (m ∷ ms)) e

drop-zero : (k : ℕ) (ms : List Message) → k ≡ 0 → drop k ms ≡ ms
drop-zero k ms e = ap (λ i. drop i ms) e

take-suc : (k j : ℕ) (m : Message) (ms : List Message) → k ≡ suc j → take k (m ∷ ms) ≡ m ∷ take j ms
take-suc k j m ms e = ap (λ i. take i (m ∷ ms)) e

take-zero : (k : ℕ) (ms : List Message) → k ≡ 0 → take k ms ≡ []
take-zero k ms e = ap (λ i. take i ms) e

upto_cons : (i hi : ℕ) → i < hi → upto i (hi - i) ≡ i ∷ upto (i + 1) (hi - (i + 1))
upto_cons i hi h = let e : hi - i ≡ suc (hi - (i + 1)) = omega arith in ap (upto i) e

pub compactable-upto :
    (lo hi i : ℕ) (ms : List Message)
    → hi ≤ i + length ms
    → compactable lo hi i ms ≡ upto (max i lo) (hi - max i lo)
unfolding compactable
compactable-upto lo hi i [] h = upto_eq (max i lo) (max i lo) 0 (hi - max i lo) refl (omega arith)
compactable-upto lo hi i (m ∷ ms) h = elim (Bool-cases (ltb i lo)) [
  | inl early ↦ rw early (
      compactable-upto lo hi (i + 1) ms (omega arith)
      ∙ upto_eq (max (i + 1) lo) (max i lo) (hi - max (i + 1) lo) (hi - max i lo) (ground arith)
          (ground arith))
  | inr late ↦ elim (Bool-cases (leb hi i)) [
    | inl past ↦
        rw (late, past)
          (compactable-upto lo hi (i + 1) ms (omega arith)
            ∙ (upto_empty (max (i + 1) lo) (hi - max (i + 1) lo) (ground arith)
                ∙ sym (upto_empty (max i lo) (hi - max i lo) (ground arith))))
    | inr inside ↦
        let a : lo ≤ i = ground arith in
        let b : i < hi = ground arith in
        rw (late, inside)
          (ap (◌∷◌ i) (
              compactable-upto lo hi (i + 1) ms (omega arith)
              ∙ upto_eq (max (i + 1) lo) (i + 1) (hi - max (i + 1) lo) (hi - (i + 1)) (omega arith)
                  (omega arith))
            ∙ (sym (upto_cons i hi b)
                ∙ upto_eq i (max i lo) (hi - i) (hi - max i lo) (omega arith) (omega arith)))
  ]
]

mem-upto : (i lo n : ℕ) → mem i (upto lo n) ≡ (leb lo i && ltb i (lo + n))
mem-upto i lo zero = ground arith
mem-upto i lo (suc n) = ground (arith, mem-upto i (lo + 1) n)

rebuild_after :
    (lo n i : ℕ) (note : Message) (ms : List Message)
    → lo ≤ i
    → rebuild (upto lo n) note true i ms ≡ drop (lo + n - i) ms
unfolding rebuild
rebuild_after lo n i note [] h = sym (drop-nil (lo + n - i))
rebuild_after lo n i note (m ∷ ms) h =
    let rest = rebuild_after lo n (i + 1) note ms (omega arith) in
    elim (Bool-cases (ltb i (lo + n))) [
      | inl inside ↦
          let e : mem i (upto lo n) ≡ true = ground (arith, mem-upto i lo n) in
          rw e (rest ∙ sym (drop-suc (lo + n - i) (lo + n - (i + 1)) m ms (ground arith)))
      | inr past ↦
          let e : mem i (upto lo n) ≡ false = ground (arith, mem-upto i lo n) in
          rw e (
            ap (◌∷◌ m) (rest ∙ drop-zero (lo + n - (i + 1)) ms (ground arith))
            ∙ sym (drop-zero (lo + n - i) (m ∷ ms) (ground arith)))
    ]

rebuild_lem :
    (lo n i : ℕ) (note : Message) (ms : List Message)
    → 0 < n
    → i ≤ lo
    → lo + n ≤ i + length ms
    → rebuild (upto lo n) note false i ms ≡ take (lo - i) ms ++ note ∷ drop (lo + n - i) ms
unfolding rebuild
rebuild_lem lo n i note [] pos h fits = absurd (omega arith)
rebuild_lem lo n i note (m ∷ ms) pos h fits = elim (Bool-cases (ltb i lo)) [
  | inl before ↦
      let e : mem i (upto lo n) ≡ false = ground (arith, mem-upto i lo n) in
      rw e (
        ap (◌∷◌ m) (rebuild_lem lo n (i + 1) note ms pos (ground arith) (omega arith))
        ∙ sym (
            ap₂ (λ xs ys. xs ++ note ∷ ys) (take-suc (lo - i) (lo - (i + 1)) m ms (ground arith))
              (drop-suc (lo + n - i) (lo + n - (i + 1)) m ms (ground arith))))
  | inr at ↦
      let e : mem i (upto lo n) ≡ true = ground (arith, mem-upto i lo n) in
      rw e (
        ap (◌∷◌ note) (
          rebuild_after lo n (i + 1) note ms (ground arith)
          ∙ sym (drop-suc (lo + n - i) (lo + n - (i + 1)) m ms (ground arith)))
        ∙ sym (
            ap (λ xs. xs ++ note ∷ drop (lo + n - i) (m ∷ ms))
              (take-zero (lo - i) (m ∷ ms) (ground arith))))
]

pub take-upto : (k a n : ℕ) → k ≤ n → take k (upto a n) ≡ upto a k
take-upto zero a n h = refl
take-upto (suc k) a zero h = absurd (omega arith)
take-upto (suc k) a (suc n) h = ap (◌∷◌ a) (take-upto k (a + 1) n (omega arith))

pub length-upto : (a n : ℕ) → length (upto a n) ≡ n
length-upto a zero = refl
length-upto a (suc n) = ap suc (length-upto (a + 1) n)

pub rebuild_start :
    (lo n : ℕ) (note : Message) (ms : List Message)
    → 0 < n
    → lo + n ≤ length ms
    → rebuild (upto lo n) note false 0 ms ≡ take lo ms ++ note ∷ drop (lo + n) ms
rebuild_start lo n note ms pos fits =
    rebuild_lem lo n 0 note ms pos (omega arith) (omega arith)
    ∙ ap₂ (λ i j. take i ms ++ note ∷ drop j ms) (omega arith) (omega arith)
