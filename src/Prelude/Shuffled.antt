-- ===== src/Prelude/Shuffled.antt =====
-- Sorting what arrives in any order: where elements that tie are equal, the result is the same.
use kpack.Prelude.Sorting.{insert, sort}
use kpack.Prelude.{
  ◌≡◌, ◌⊎◌, refl, ap, sym, ◌∙◌, Bool, true, false, List, [], ◌∷◌, ◌++◌, In, In-append_left,
  In-append_right, In-append_cases, inl, inr, Bool-cases,
}

-- A `less` test that is asymmetric, and under which no element is below what an incomparable one is
-- not below.
pub record IsStrict {A : Type 0} (less : A → A → Bool) : Type 0 where
  pub asym : (a b : A) → less a b ≡ true → less b a ≡ false
  pub cotrans : (a b c : A) → less a b ≡ true → (less a c ≡ true) ⊎ (less c b ≡ true)

-- The ways in which what two senders send can reach one receiver, and what all senders send.
pub data Shuffle {A : Type 0} : List A → List A → List A → Type 0 where
  nothing : Shuffle [] [] []
  left : {x : A} {xs ys zs : List A} → Shuffle xs ys zs → Shuffle (x ∷ xs) ys (x ∷ zs)
  right : {y : A} {xs ys zs : List A} → Shuffle xs ys zs → Shuffle xs (y ∷ ys) (y ∷ zs)

pub data Interleaves {A : Type 0} : List (List A) → List A → Type 0 where
  none_sent : Interleaves [] []
  with_one :
      {xs : List A} {xss : List (List A)} {ys zs : List A}
      → Interleaves xss ys
      → Shuffle xs ys zs
      → Interleaves (xs ∷ xss) zs

-- All that is sent, sender by sender.
abbrev pub in_turn : {A : Type 0} → List (List A) → List A
in_turn [] = []
in_turn (xs ∷ xss) = xs ++ in_turn xss

module _ {A : Type 0} (less : A → A → Bool) (order : IsStrict less) where
  -- Two elements that tie are one.
  abbrev pub IsTieFree : A → A → Type 0
  IsTieFree a b = less a b ≡ false → less b a ≡ false → a ≡ b

  above : (a b c : A) → less a b ≡ true → less a c ≡ false → less c b ≡ true
  above a b c e f = elim (order.cotrans a b c e) [
    | inl t ↦ let bad : true ≡ false = sym t ∙ f in cc
    | inr t ↦ t
  ]

  past : (x y : A) (ys : List A) → less y x ≡ true → insert less x (y ∷ ys) ≡ y ∷ insert less x ys
  unfolding insert
  past x y ys t = rw t refl

  here : (x y : A) (ys : List A) → less y x ≡ false → insert less x (y ∷ ys) ≡ x ∷ y ∷ ys
  unfolding insert
  here x y ys f = rw f refl

  alone : (x : A) → insert less x [] ≡ x ∷ []
  unfolding insert
  alone x = refl

  -- Before a list that both go in front of.
  insert-insert_front :
      (x y : A) (zs : List A)
      → IsTieFree x y
      → insert less x zs ≡ x ∷ zs
      → insert less y zs ≡ y ∷ zs
      → insert less x (y ∷ zs) ≡ insert less y (x ∷ zs)
  insert-insert_front x y zs tie in_front in_front' = elim (Bool-cases (less y x)) [
    | inl t ↦ past x y zs t ∙ ap (λ l. y ∷ l) in_front ∙ sym (here y x zs (order.asym y x t))
    | inr f ↦ elim (Bool-cases (less x y)) [
      | inl t ↦ here x y zs f ∙ sym (past y x zs t ∙ ap (λ l. x ∷ l) in_front')
      | inr g ↦ rw (tie g f) refl
    ]
  ]

  insert-insert :
      (x y : A) (zs : List A)
      → IsTieFree x y
      → insert less x (insert less y zs) ≡ insert less y (insert less x zs)
  insert-insert x y [] tie =
      ap (insert less x) (alone y)
      ∙ insert-insert_front x y [] tie (alone x) (alone y)
      ∙ sym (ap (insert less y) (alone x))
  insert-insert x y (z ∷ zs) tie = elim (Bool-cases (less z x)) [
    | inl zx ↦ elim (Bool-cases (less z y)) [
      | inl zy ↦
          ap (insert less x) (past y z zs zy)
          ∙ past x z (insert less y zs) zx
          ∙ ap (λ l. z ∷ l) (insert-insert x y zs tie)
          ∙ sym (ap (insert less y) (past x z zs zx) ∙ past y z (insert less x zs) zy)
      | inr zy ↦
          ap (insert less x) (here y z zs zy)
          ∙ past x y (z ∷ zs) (above z x y zx zy)
          ∙ ap (λ l. y ∷ l) (past x z zs zx)
          ∙ sym (ap (insert less y) (past x z zs zx) ∙ here y z (insert less x zs) zy)
    ]
    | inr zx ↦ elim (Bool-cases (less z y)) [
      | inl zy ↦
          ap (insert less x) (past y z zs zy)
          ∙ here x z (insert less y zs) zx
          ∙ sym (
              ap (insert less y) (here x z zs zx)
              ∙ past y x (z ∷ zs) (above z y x zy zx)
              ∙ ap (λ l. x ∷ l) (past y z zs zy))
      | inr zy ↦
          ap (insert less x) (here y z zs zy)
          ∙ insert-insert_front x y (z ∷ zs) tie (here x z zs zx) (here y z zs zy)
          ∙ sym (ap (insert less y) (here x z zs zx))
    ]
  ]

  -- Any two elements of a list that tie are one.
  abbrev pub AreTieFree : List A → Type 0
  AreTieFree xs = (a b : A) → In a xs → In b xs → IsTieFree a b

  sort_middle :
      (y : A) (xs ys : List A)
      → ((a : A) → In a xs → IsTieFree a y)
      → sort less (xs ++ (y ∷ ys)) ≡ insert less y (sort less (xs ++ ys))
  unfolding sort
  sort_middle y [] ys tie = refl
  sort_middle y (x ∷ xs) ys tie =
      ap (insert less x) (sort_middle y xs ys (λ a i. tie a (inr i)))
      ∙ insert-insert x y (sort less (xs ++ ys)) (tie x (inl refl))

  In-skip : (a y : A) (xs ys : List A) → In a (xs ++ ys) → In a (xs ++ (y ∷ ys))
  In-skip a y xs ys i = elim (In-append_cases a xs ys i) [
    | inl j ↦ In-append_left a xs (y ∷ ys) j
    | inr j ↦ In-append_right a xs (y ∷ ys) (inr j)
  ]

  -- What two senders send sorts alike however it is shuffled.
  sort-Shuffle :
      {xs ys zs : List A}
      → Shuffle xs ys zs
      → AreTieFree (xs ++ ys)
      → sort less zs ≡ sort less (xs ++ ys)
  unfolding sort
  sort-Shuffle nothing tie = refl
  sort-Shuffle (left {x} {xs} {ys} {zs} s) tie =
      ap (insert less x) (sort-Shuffle s (λ a b i j. tie a b (inr i) (inr j)))
  sort-Shuffle (right {y} {xs} {ys} {zs} s) tie =
      ap (insert less y)
        (sort-Shuffle s (λ a b i j. tie a b (In-skip a y xs ys i) (In-skip b y xs ys j)))
      ∙ sym (
          sort_middle y xs ys (λ a i.
            tie a y (In-append_left a xs (y ∷ ys) i) (In-append_right y xs (y ∷ ys) (inl refl))))

  sort_append :
      (xs ys zs : List A)
      → AreTieFree (xs ++ ys)
      → sort less ys ≡ sort less zs
      → sort less (xs ++ ys) ≡ sort less (xs ++ zs)
  unfolding sort
  sort_append [] ys zs tie e = e
  sort_append (x ∷ xs) ys zs tie e =
      ap (insert less x) (sort_append xs ys zs (λ a b i j. tie a b (inr i) (inr j)) e)

  In-Shuffle : {xs ys zs : List A} (a : A) → Shuffle xs ys zs → In a (xs ++ ys) → In a zs
  In-Shuffle a nothing i = i
  In-Shuffle a (left s) (inl same) = inl same
  In-Shuffle a (left s) (inr i) = inr (In-Shuffle a s i)
  In-Shuffle a (right {y} {xs} {ys} {zs} s) i = elim (In-append_cases a xs (y ∷ ys) i) [
    | inl j ↦ inr (In-Shuffle a s (In-append_left a xs ys j))
    | inr (inl same) ↦ inl same
    | inr (inr j) ↦ inr (In-Shuffle a s (In-append_right a xs ys j))
  ]

  -- However the senders take turns, the result is the same.
  pub sort-Interleaves :
      {xss : List (List A)} {zs : List A}
      → Interleaves xss zs
      → AreTieFree zs
      → sort less zs ≡ sort less (in_turn xss)
  sort-Interleaves none_sent tie = refl
  sort-Interleaves (with_one {xs} {xss} {ys} {zs} rest s) tie =
      let of_both : AreTieFree (xs ++ ys) =
        λ a b i j. tie a b (In-Shuffle a s i) (In-Shuffle b s j) in
      let of_rest : AreTieFree ys =
        λ a b i j. of_both a b (In-append_right a xs ys i) (In-append_right b xs ys j) in
      sort-Shuffle s of_both
      ∙ sort_append xs ys (in_turn xss) of_both (sort-Interleaves rest of_rest)
