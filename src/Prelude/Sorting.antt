-- ===== src/Prelude/Sorting.antt =====
-- Go's `sort`: a stable insertion sort by a `less` test. `sort.Slice` promises a sorted
-- permutation, and `sort.SliceStable` that equal elements keep their order; this one has both.
use mathlib.Core.List.{Perm}
use mathlib.Core.List.Perm
use mathlib.Core.Option.{some-injective}
use kpack.Prelude.{
  ◌≡◌, refl, inl, inr, Bool, true, false, List, [], ◌∷◌, some, arith, if◌then◌else◌, length, In,
  All, last?, select, Bool-cases, last?-In, subst, sym, ◌≢◌, String, Distinct,
}

-- How a `less` test reads an order in which elements may tie. A `less` that answers true on a tie
-- is allowed, as one type of the code has it.
pub record IsLess {A : Type 0} (less : A → A → Bool) (le : A → A → Type 0) : Type 0 where
  pub le_of_less : (a b : A) → less a b ≡ true → le a b
  pub le_of_not-less : (a b : A) → less a b ≡ false → le b a
  pub le_trans : (a b c : A) → le a b → le b c → le a c

-- No element stands before one that it does not come up to.
abbrev pub IsSorted : {A : Type 0} → (A → A → Type 0) → List A → Type 0
IsSorted le [] = Unit
IsSorted le (x ∷ xs) = All (λ y. le x y) xs × IsSorted le xs

module _ {A : Type 0} (less : A → A → Bool) where
  unfoldable pub insert : A → List A → List A
  insert x [] = x ∷ []
  insert x (y ∷ ys) = if less y x then y ∷ insert x ys else x ∷ y ∷ ys

  unfoldable pub sort : List A → List A
  unfolding insert
  sort [] = []
  sort (x ∷ xs) = insert x (sort xs)

  insert-perm : (x : A) (ys : List A) → Perm (insert x ys) (x ∷ ys)
  unfolding insert
  insert-perm x [] = Perm.refl (x ∷ [])
  insert-perm x (y ∷ ys) = elim (Bool-cases (less y x)) [
    | inl e ↦ rw e (Perm.trans (Perm.cons y (insert-perm x ys)) (Perm.swap x y ys))
    | inr e ↦ rw e (Perm.refl (x ∷ y ∷ ys))
  ]

  pub sort-perm : (xs : List A) → Perm (sort xs) xs
  unfolding sort
  sort-perm [] = Perm.refl []
  sort-perm (x ∷ xs) = Perm.trans (insert-perm x (sort xs)) (Perm.cons x (sort-perm xs))

  In-insert : (a x : A) (ys : List A) → In a (insert x ys) → In a (x ∷ ys)
  unfolding insert
  In-insert a x [] h = h
  In-insert a x (y ∷ ys) h = ground (arith, In-insert a x ys)

  In-insert_of : (a x : A) (ys : List A) → In a (x ∷ ys) → In a (insert x ys)
  unfolding insert
  In-insert_of a x [] h = h
  In-insert_of a x (y ∷ ys) h = ground (arith, In-insert_of a x ys)

  pub In-sort : (a : A) (xs : List A) → In a (sort xs) → In a xs
  unfolding sort
  In-sort a [] h = h
  In-sort a (x ∷ xs) h = ground (arith, In-insert a x (sort xs), In-sort a xs)

  pub In-sort_of : (a : A) (xs : List A) → In a xs → In a (sort xs)
  unfolding sort
  In-sort_of a [] h = h
  In-sort_of a (x ∷ xs) h = ground (arith, In-insert_of a x (sort xs), In-sort_of a xs)

  pub length-select-insert :
      (p : A → Bool) (x : A) (ys : List A)
      → length (select p (insert x ys)) ≡ length (select p (x ∷ ys))
  unfolding insert select
  length-select-insert p x [] = refl
  length-select-insert p x (y ∷ ys) = ground (arith, length-select-insert p x ys)

  -- Sorting keeps the number of elements that pass a test.
  pub length-select-sort :
      (p : A → Bool) (xs : List A) → length (select p (sort xs)) ≡ length (select p xs)
  unfolding sort select
  length-select-sort p [] = refl
  length-select-sort p (x ∷ xs) =
      ground (arith, length-select-insert p x (sort xs), length-select-sort p xs)

module _ {A : Type 0} (less : A → A → Bool) (key : A → String) where
  All-ne-insert :
      (z x : A) (ys : List A)
      → key z ≢ key x
      → All (λ y. key z ≢ key y) ys
      → All (λ y. key z ≢ key y) (insert less x ys)
  unfolding insert
  All-ne-insert z x [] h all = (h, tt)
  All-ne-insert z x (y ∷ ys) h all = elim (Bool-cases (less y x)) [
    | inl e ↦ rw e (all.0, All-ne-insert z x ys h all.1)
    | inr e ↦ rw e (h, all)
  ]

  insert-Distinct : (x : A) (ys : List A) → Distinct key (x ∷ ys) → Distinct key (insert less x ys)
  unfolding insert
  insert-Distinct x [] d = d
  insert-Distinct x (y ∷ ys) d = elim (Bool-cases (less y x)) [
    | inl e ↦
        rw e (All-ne-insert y x ys (λ q. d.0.0 (sym q)) d.1.0, insert-Distinct x ys (d.0.1, d.1.1))
    | inr e ↦ rw e d
  ]

  All-ne-sort :
      (z : A) (xs : List A) → All (λ y. key z ≢ key y) xs → All (λ y. key z ≢ key y) (sort less xs)
  unfolding sort
  All-ne-sort z [] all = tt
  All-ne-sort z (x ∷ xs) all = All-ne-insert z x (sort less xs) all.0 (All-ne-sort z xs all.1)

  pub sort-Distinct : (xs : List A) → Distinct key xs → Distinct key (sort less xs)
  unfolding sort
  sort-Distinct [] d = tt
  sort-Distinct (x ∷ xs) d =
      insert-Distinct x (sort less xs) (All-ne-sort x xs d.0, sort-Distinct xs d.1)

module _ {A : Type 0} (less : A → A → Bool) (le : A → A → Type 0) (order : IsLess less le) where
  All-insert :
      (z x : A) (ys : List A) → le z x → All (λ y. le z y) ys → All (λ y. le z y) (insert less x ys)
  unfolding insert
  All-insert z x [] h all = (h, tt)
  All-insert z x (y ∷ ys) h all = elim (Bool-cases (less y x)) [
    | inl e ↦ rw e (all.0, All-insert z x ys h all.1)
    | inr e ↦ rw e (h, all)
  ]

  All-through : (x y : A) (ys : List A) → le x y → All (λ z. le y z) ys → All (λ z. le x z) ys
  All-through x y [] h all = tt
  All-through x y (z ∷ ys) h all = (order.le_trans x y z h all.0, All-through x y ys h all.1)

  insert-IsSorted : (x : A) (ys : List A) → IsSorted le ys → IsSorted le (insert less x ys)
  unfolding insert
  insert-IsSorted x [] s = (tt, tt)
  insert-IsSorted x (y ∷ ys) s = elim (Bool-cases (less y x)) [
    | inl e ↦ rw e (All-insert y x ys (order.le_of_less y x e) s.0, insert-IsSorted x ys s.1)
    | inr e ↦ let h = order.le_of_not-less y x e in rw e ((h, All-through x y ys h s.0), s)
  ]

  pub sort-IsSorted : (xs : List A) → IsSorted le (sort less xs)
  unfolding sort
  sort-IsSorted [] = tt
  sort-IsSorted (x ∷ xs) = insert-IsSorted x (sort less xs) (sort-IsSorted xs)

  pub le_refl : (a : A) → le a a
  le_refl a = elim (Bool-cases (less a a)) [
    | inl e ↦ order.le_of_less a a e
    | inr e ↦ order.le_of_not-less a a e
  ]

  All-In : (z a : A) (ys : List A) → All (λ y. le z y) ys → In a ys → le z a
  All-In z a [] all i = elim i [ ]
  All-In z a (y ∷ ys) all (inl e) = rw e all.0
  All-In z a (y ∷ ys) all (inr i) = All-In z a ys all.1 i

  -- The last element of a sorted list is one of the greatest.
  pub last?-greatest :
      (xs : List A) (m a : A) → IsSorted le xs → last? xs ≡ some m → In a xs → le a m
  unfolding last?
  last?-greatest [] m a s l i = elim i [ ]
  last?-greatest (x ∷ []) m a s l (inl e) = rw e (subst (le x) (some-injective x m l) (le_refl x))
  last?-greatest (x ∷ []) m a s l (inr i) = elim i [ ]
  last?-greatest (x ∷ y ∷ ys) m a s l (inl e) =
      rw e (All-In x m (y ∷ ys) s.0 (last?-In m (y ∷ ys) l))
  last?-greatest (x ∷ y ∷ ys) m a s l (inr i) = last?-greatest (y ∷ ys) m a s.1 l i

  -- The first element of a sorted list is one of the least.
  pub head-least : (x a : A) (xs : List A) → IsSorted le (x ∷ xs) → In a (x ∷ xs) → le x a
  head-least x a xs s (inl e) = rw e (le_refl x)
  head-least x a xs s (inr i) = All-In x a xs s.0 i

  -- What a test keeps of a sorted list is sorted.
  pub select-IsSorted : (p : A → Bool) (xs : List A) → IsSorted le xs → IsSorted le (select p xs)
  unfolding select
  select-IsSorted p [] s = tt
  select-IsSorted p (x ∷ xs) s = elim (Bool-cases (p x)) [
    | inl e ↦ rw e (All-select x xs s.0, select-IsSorted p xs s.1)
    | inr e ↦ rw e (select-IsSorted p xs s.1)
  ]
    where
      All-select : (z : A) (ys : List A) → All (λ y. le z y) ys → All (λ y. le z y) (select p ys)
      All-select z [] all = tt
      All-select z (y ∷ ys) all = elim (Bool-cases (p y)) [
        | inl e ↦ rw e (all.0, All-select z ys all.1)
        | inr e ↦ rw e (All-select z ys all.1)
      ]
