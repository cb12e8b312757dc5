-- ===== src/Prelude/Lists.antt =====
-- Lists measured by the native numbers, and lists filtered by Boolean tests.
use Prim.Native.Nat.{ℕ, suc, ◌+◌, ◌≤◌}
use mathlib.Core.Path.{◌≡◌, refl, ap, subst}
use mathlib.Core.Logic.{◌⊎◌, inl, inr, ◌≢◌}
use mathlib.Core.Bool.{Bool, true, false, ◌||◌}
use mathlib.Core.List.{List, [], ◌∷◌, ◌++◌, map}
use Prim.Native.String.{String}
use mathlib.Core.Option.{Option, none, some, some-injective}
use native.Mathlib.Omega.{arith}
use kpack.Prelude.Tests.{if◌then◌else◌, Bool-cases}

module _ {ℓ} {A : Type ℓ} where
  abbrev pub length : List A → ℕ
  length [] = 0
  length (x ∷ xs) = suc (length xs)

  pub length-append : (xs ys : List A) → length (xs ++ ys) ≡ length xs + length ys
  length-append [] ys = omega arith
  length-append (x ∷ xs) ys = omega (arith, length-append xs ys)

  -- The elements that pass a test, in order: the `for`, `if`, `append` loop of the code.
  unfoldable pub select : (A → Bool) → List A → List A
  select p [] = []
  select p (x ∷ xs) = if p x then x ∷ select p xs else select p xs

  unfoldable pub any : (A → Bool) → List A → Bool
  any p [] = false
  any p (x ∷ xs) = p x || any p xs

  -- The first element that passes a test: the `for`, `if`, `return` loop.
  unfoldable pub find : (A → Bool) → List A → Option A
  find p [] = none
  find p (x ∷ xs) = if p x then some x else find p xs

  abbrev pub head? : List A → Option A
  head? [] = none
  head? (x ∷ xs) = some x

  unfoldable pub last? : List A → Option A
  last? [] = none
  last? (x ∷ []) = some x
  last? (x ∷ y ∷ xs) = last? (y ∷ xs)

module _ {A : Type 0} where
  -- Membership with its position, by recursion, so that it can be taken apart into data.
  abbrev pub In : A → List A → Type 0
  In a [] = ⊥
  In a (x ∷ xs) = (a ≡ x) ⊎ In a xs

  -- The proposition that every element has a property.
  abbrev pub All : (A → Type 0) → List A → Type 0
  All P [] = Unit
  All P (x ∷ xs) = P x × All P xs

  pub In-append_left : (a : A) (xs ys : List A) → In a xs → In a (xs ++ ys)
  In-append_left a [] ys h = elim h [ ]
  In-append_left a (x ∷ xs) ys (inl e) = inl e
  In-append_left a (x ∷ xs) ys (inr h) = inr (In-append_left a xs ys h)

  pub In-append_right : (a : A) (xs ys : List A) → In a ys → In a (xs ++ ys)
  In-append_right a [] ys h = h
  In-append_right a (x ∷ xs) ys h = inr (In-append_right a xs ys h)

  pub In-append_cases : (a : A) (xs ys : List A) → In a (xs ++ ys) → In a xs ⊎ In a ys
  In-append_cases a [] ys h = inr h
  In-append_cases a (x ∷ xs) ys (inl e) = inl (inl e)
  In-append_cases a (x ∷ xs) ys (inr h) = elim (In-append_cases a xs ys h) [
    | inl l ↦ inl (inr l)
    | inr r ↦ inr r
  ]

  pub In-select : (p : A → Bool) (a : A) (xs : List A) → In a (select p xs) → In a xs × (p a ≡ true)
  unfolding select
  In-select p a [] h = elim h [ ]
  In-select p a (x ∷ xs) h = ground (arith, In-select p a xs)

  pub In-select_of :
      (p : A → Bool) (a : A) (xs : List A) → In a xs → p a ≡ true → In a (select p xs)
  unfolding select
  In-select_of p a [] h t = elim h [ ]
  In-select_of p a (x ∷ xs) h t = ground (arith, In-select_of p a xs)

  pub length-select : (p : A → Bool) (xs : List A) → length (select p xs) ≤ length xs
  unfolding select
  length-select p [] = omega arith
  length-select p (x ∷ xs) = ground (arith, length-select p xs)

  pub select-append :
      (p : A → Bool) (xs ys : List A) → select p (xs ++ ys) ≡ select p xs ++ select p ys
  unfolding select
  select-append p [] ys = refl
  select-append p (x ∷ xs) ys = ground (arith, select-append p xs ys)

  pub find-In : (p : A → Bool) (a : A) (xs : List A) → find p xs ≡ some a → In a xs × (p a ≡ true)
  unfolding find
  find-In p a [] h = ground arith
  find-In p a (x ∷ xs) h = ground (arith, find-In p a xs)

  pub find-none : (p : A → Bool) (a : A) (xs : List A) → find p xs ≡ none → In a xs → p a ≡ false
  unfolding find
  find-none p a [] h i = elim i [ ]
  find-none p a (x ∷ xs) h i = ground (arith, find-none p a xs)

  pub any-In : (p : A → Bool) (xs : List A) → any p xs ≡ true → (a : A) × In a xs × (p a ≡ true)
  unfolding any
  any-In p [] h = ground arith
  any-In p (x ∷ xs) h = elim (Bool-cases (p x)) [
    | inl e ↦ (x, inl refl, e)
    | inr e ↦ let (a, i, t) = any-In p xs (ground arith) in (a, inr i, t)
  ]

  pub any_of_In : (p : A → Bool) (a : A) (xs : List A) → In a xs → p a ≡ true → any p xs ≡ true
  unfolding any
  any_of_In p a [] i t = elim i [ ]
  any_of_In p a (x ∷ xs) i t = ground (arith, any_of_In p a xs)

  pub last?-In : (a : A) (xs : List A) → last? xs ≡ some a → In a xs
  unfolding last?
  last?-In a [] h = ground arith
  last?-In a (x ∷ []) h = ground arith
  last?-In a (x ∷ y ∷ xs) h = inr (last?-In a (y ∷ xs) h)

module _ {A B : Type 0} where
  pub length-map : (f : A → B) (xs : List A) → length (map f xs) ≡ length xs
  length-map f [] = refl
  length-map f (x ∷ xs) = ap suc (length-map f xs)

  pub In-map : (f : A → B) (a : A) (xs : List A) → In a xs → In (f a) (map f xs)
  In-map f a [] h = elim h [ ]
  In-map f a (x ∷ xs) (inl e) = inl (ap f e)
  In-map f a (x ∷ xs) (inr h) = inr (In-map f a xs h)

module _ {A : Type 0} (key : A → String) where
  -- No two elements have one key.
  abbrev pub Distinct : List A → Type 0
  Distinct [] = Unit
  Distinct (x ∷ xs) = All (λ y. key x ≢ key y) xs × Distinct xs

  pub Distinct-apart : (x y : A) (xs : List A) → Distinct (x ∷ xs) → In y xs → key x ≢ key y
  Distinct-apart x y [] d i = elim i [ ]
  Distinct-apart x y (z ∷ xs) d (inl e) = rw e d.0.0
  Distinct-apart x y (z ∷ xs) d (inr i) = Distinct-apart x y xs (d.0.1, d.1.1) i

  -- Of two elements that pass a test, the first is not the last of the list.
  pub head?-select-ne_last? :
      (p : A → Bool) (xs : List A) (a m : A)
      → Distinct xs
      → 2 ≤ length (select p xs)
      → head? (select p xs) ≡ some a
      → last? xs ≡ some m
      → key a ≢ key m
  unfolding select last?
  head?-select-ne_last? p [] a m d two h l = absurd (omega arith)
  head?-select-ne_last? p (x ∷ []) a m d two h l = absurd (ground arith)
  head?-select-ne_last? p (x ∷ y ∷ xs) a m d two h l = elim (Bool-cases (p x)) [
    | inl e ↦
        let i : In m (y ∷ xs) = last?-In m (y ∷ xs) l in
        let same : x ≡ a = some-injective x a (rw (e, select) at h) in
        subst (λ z. key z ≢ key m) same (Distinct-apart x m (y ∷ xs) d i)
    | inr e ↦
        head?-select-ne_last? p (y ∷ xs) a m d.1 (rw (e, select) at two) (rw (e, select) at h) l
  ]
