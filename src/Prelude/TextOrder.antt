-- ===== src/Prelude/TextOrder.antt =====
-- The order of native texts that Go's `<` decides.
use Prim.Native.Nat.{ℕ, compare as compare_ℕ, Ordering}
use Prim.Native.Char.{code}
use Prim.Native.String.compare
use Prim.Native.String.{String, [], ◌∷◌, compare, then}
use mathlib.Core.Path.{◌≡◌, refl, sym, ◌∙◌}
use mathlib.Core.Logic.{◌⊎◌, inl, inr}
use mathlib.Core.Bool.{Bool, true, false}
use native.Mathlib.Omega.{arith}
use text.Mathlib.Text.{is_lt}
use text.Mathlib.TextEquality.{path_by_compare}

then_lt :
    (o r : Ordering)
    → then o r ≡ Ordering.lt
    → (o ≡ Ordering.lt) ⊎ ((o ≡ Ordering.eq) × (r ≡ Ordering.lt))
then_lt Ordering.lt r e = inl refl
then_lt Ordering.eq r e = inr (refl, e)
then_lt Ordering.gt r e = cc

number_gt : (m n : ℕ) → compare_ℕ m n ≡ Ordering.gt → compare_ℕ n m ≡ Ordering.lt
number_gt m n e = ground arith

number_lt : (m n : ℕ) → compare_ℕ m n ≡ Ordering.lt → compare_ℕ n m ≡ Ordering.gt
number_lt m n e = ground arith

number_eq : (m n : ℕ) → compare_ℕ m n ≡ Ordering.eq → compare_ℕ n m ≡ Ordering.eq
number_eq m n e = ground arith

number_cotrans :
    (m n k : ℕ)
    → compare_ℕ m n ≡ Ordering.lt
    → (compare_ℕ m k ≡ Ordering.lt) ⊎ (compare_ℕ k n ≡ Ordering.lt)
number_cotrans m n k e = ground arith

number_cases :
    (m n k : ℕ)
    → compare_ℕ m n ≡ Ordering.eq
    → (compare_ℕ m k ≡ Ordering.lt)
      ⊎ (((compare_ℕ m k ≡ Ordering.eq) × (compare_ℕ k n ≡ Ordering.eq))
          ⊎ (compare_ℕ k n ≡ Ordering.lt))
number_cases m n k e = ground arith

then_gt :
    (o r : Ordering)
    → then o r ≡ Ordering.gt
    → (o ≡ Ordering.gt) ⊎ ((o ≡ Ordering.eq) × (r ≡ Ordering.gt))
then_gt Ordering.lt r e = cc
then_gt Ordering.eq r e = inr (refl, e)
then_gt Ordering.gt r e = inl refl

compare_gt : (s t : String) → compare s t ≡ Ordering.gt → compare t s ≡ Ordering.lt
compare_gt [] [] e = let bad = sym compare.nil-nil ∙ e in cc
compare_gt [] (d ∷ t) e = let bad = sym (compare.nil-cons d t) ∙ e in cc
compare_gt (c ∷ s) [] e = compare.nil-cons c s
compare_gt (c ∷ s) (d ∷ t) e =
    elim (then_gt (compare_ℕ (code c) (code d)) (compare s t)
      (sym (compare.cons-cons c d s t) ∙ e)) [
        | inl gt ↦ compare.cons-cons d c t s ∙ (rw (number_gt (code c) (code d) gt) refl)
        | inr (eq, gt) ↦
            compare.cons-cons d c t s ∙ (rw (number_eq (code c) (code d) eq) (compare_gt s t gt))
      ]

compare_lt : (s t : String) → compare s t ≡ Ordering.lt → compare t s ≡ Ordering.gt
compare_lt [] [] e = let bad = sym compare.nil-nil ∙ e in cc
compare_lt [] (d ∷ t) e = compare.cons-nil d t
compare_lt (c ∷ s) [] e = let bad = sym (compare.cons-nil c s) ∙ e in cc
compare_lt (c ∷ s) (d ∷ t) e =
    elim (then_lt (compare_ℕ (code c) (code d)) (compare s t)
      (sym (compare.cons-cons c d s t) ∙ e)) [
        | inl lt ↦ compare.cons-cons d c t s ∙ (rw (number_lt (code c) (code d) lt) refl)
        | inr (eq, lt) ↦
            compare.cons-cons d c t s ∙ (rw (number_eq (code c) (code d) eq) (compare_lt s t lt))
      ]

compare_cotrans :
    (s t u : String)
    → compare s t ≡ Ordering.lt
    → (compare s u ≡ Ordering.lt) ⊎ (compare u t ≡ Ordering.lt)
compare_cotrans [] [] u e = let bad = sym compare.nil-nil ∙ e in cc
compare_cotrans [] (d ∷ t) [] e = inr (compare.nil-cons d t)
compare_cotrans [] (d ∷ t) (b ∷ u) e = inl (compare.nil-cons b u)
compare_cotrans (c ∷ s) [] u e = let bad = sym (compare.cons-nil c s) ∙ e in cc
compare_cotrans (c ∷ s) (d ∷ t) [] e = inr (compare.nil-cons d t)
compare_cotrans (c ∷ s) (d ∷ t) (b ∷ u) e =
    elim (then_lt (compare_ℕ (code c) (code d)) (compare s t)
      (sym (compare.cons-cons c d s t) ∙ e)) [
        | inl lt ↦ elim (number_cotrans (code c) (code d) (code b) lt) [
          | inl left ↦ inl (compare.cons-cons c b s u ∙ (rw left refl))
          | inr right ↦ inr (compare.cons-cons b d u t ∙ (rw right refl))
        ]
        | inr (eq, lt) ↦ elim (number_cases (code c) (code d) (code b) eq) [
          | inl less ↦ inl (compare.cons-cons c b s u ∙ (rw less refl))
          | inr (inl (same, also)) ↦ elim (compare_cotrans s t u lt) [
            | inl left ↦ inl (compare.cons-cons c b s u ∙ (rw same left))
            | inr right ↦ inr (compare.cons-cons b d u t ∙ (rw also right))
          ]
          | inr (inr more) ↦ inr (compare.cons-cons b d u t ∙ (rw more refl))
        ]
      ]

-- `s < t` on texts.
abbrev pub before : String → String → Bool
before s t = is_lt (compare s t)

before_lt : (o : Ordering) → is_lt o ≡ true → o ≡ Ordering.lt
before_lt Ordering.lt e = refl
before_lt Ordering.eq e = cc
before_lt Ordering.gt e = cc

pub before_asym : (s t : String) → before s t ≡ true → before t s ≡ false
before_asym s t e = let after = compare_lt s t (before_lt (compare s t) e) in rw after refl

pub before_cotrans :
    (s t u : String) → before s t ≡ true → (before s u ≡ true) ⊎ (before u t ≡ true)
before_cotrans s t u e = elim (compare_cotrans s t u (before_lt (compare s t) e)) [
  | inl left ↦ inl (rw left refl)
  | inr right ↦ inr (rw right refl)
]

pub before_connected : (s t : String) → before s t ≡ false → before t s ≡ false → s ≡ t
before_connected s t e f = decided (compare s t) refl
  where
    decided : (o : Ordering) → compare s t ≡ o → s ≡ t
    decided Ordering.lt same = let bad = rw same at e in cc
    decided Ordering.eq same = path_by_compare s t same
    decided Ordering.gt same = let bad = rw (compare_gt s t same) at f in cc
