-- ===== src/Prelude/Outcome.antt =====
-- Recursions that Go runs with no bound of their own. The model runs them on fuel, and keeps apart
-- a result, a failure of the code (an error or a panic) and a run that the fuel did not finish.
use kpack.Prelude.{◌≡◌, refl, List, [], ◌∷◌, Result, ok, err, Error, In, All, inl, inr}

pub data Outcome {ℓ} (A : Type ℓ) : Type ℓ where
  returns : A → Outcome A
  fails : Error → Outcome A
  unfinished : Outcome A

infixl 5 ◌>>=◌
abbrev pub ◌>>=◌ {ℓ κ} : {A : Type ℓ} {B : Type κ} → Outcome A → (A → Outcome B) → Outcome B
m >>= rest = elim m [ returns a ↦ rest a | fails e ↦ fails e | unfinished ↦ unfinished ]

abbrev pub of_result {ℓ} : {A : Type ℓ} → Result A → Outcome A
of_result r = elim r [ ok a ↦ returns a | err e ↦ fails e ]

module _ {A B : Type 0} where
  -- The loop that calls a function on each element, collects the results and stops at a failure.
  unfoldable pub for_each : (A → Outcome B) → List A → Outcome (List B)
  for_each f [] = returns []
  for_each f (x ∷ xs) = do b ← f x; bs ← for_each f xs; returns (b ∷ bs)

  pub >>=-returns :
      (m : Outcome A) (rest : A → Outcome B) {b : B}
      → (m >>= rest) ≡ returns b
      → (a : A) × (m ≡ returns a) × (rest a ≡ returns b)
  >>=-returns (returns a) rest e = (a, refl, e)
  >>=-returns (fails x) rest e = cc
  >>=-returns unfinished rest e = cc

module _ {A B : Type 0} where
  -- If the loop returns, the call on each element did.
  pub for_each-In :
      (f : A → Outcome B) (xs : List A) (bs : List B) (x : A)
      → for_each f xs ≡ returns bs
      → In x xs
      → (b : B) × (f x ≡ returns b)
  unfolding for_each
  for_each-In f [] bs x e i = elim i [ ]
  for_each-In f (y ∷ ys) bs x e (inl same) =
      let (b, first, rest) = >>=-returns (f y) _ e in (b, rw same first)
  for_each-In f (y ∷ ys) bs x e (inr i) =
      let (b, first, rest) = >>=-returns (f y) _ e in
      let (cs, others, last) = >>=-returns (for_each f ys) _ rest in for_each-In f ys cs x others i

  -- If each call returns, so does the loop.
  pub for_each-total :
      (f : A → Outcome B) (xs : List A)
      → All (λ x. (b : B) × (f x ≡ returns b)) xs
      → (bs : List B) × (for_each f xs ≡ returns bs)
  unfolding for_each
  for_each-total f [] all = ([], refl)
  for_each-total f (x ∷ xs) all =
      let (b, first) = all.0 in
      let (bs, rest) = for_each-total f xs all.1 in (b ∷ bs, rw (first, rest) refl)
