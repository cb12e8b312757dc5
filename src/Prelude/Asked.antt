-- ===== src/Prelude/Asked.antt =====
-- What a run asks the server for: a predicate on each of its requests, and one on its answer that
-- what comes after may rely on.
use kpack.Prelude.Results.{Error, Result, ok, err, is_not_found}
use kpack.Prelude.Run.{M, ◌>>=◌, ◌>>◌, pure, throw, lift, ask, request, attempt, optional}
use kpack.Prelude.Lists.{All}
use kpack.Prelude.Tests.{Bool-cases}
use mathlib.Core.Path.{◌≡◌, refl}
use mathlib.Core.Logic.{inl, inr}
use mathlib.Core.List.{List}
use mathlib.Core.Option.{Option}

-- From requests that satisfy `P`, a run goes on with such requests, and its answer satisfies `Q`.
abbrev pub Asks : {R A : Type 0} → (R → Type 0) → (A → Type 0) → M R A → Type 0
Asks {R} {A} P Q m = (h : List R) → All P h → All P (m h).1 × ((a : A) → (m h).0 ≡ ok a → Q a)

abbrev pub Any : {A : Type 0} → A → Type 0
Any a = Unit

module _ {R : Type 0} (P : R → Type 0) where
  pub Asks-pure : {A : Type 0} (Q : A → Type 0) (a : A) → Q a → Asks P Q (pure a)
  unfolding pure
  Asks-pure Q a q h all = (all, λ b e. let same : a ≡ b = cc in rw (← same) q)

  pub Asks-throw : {A : Type 0} (Q : A → Type 0) (x : Error) → Asks {A = A} P Q (throw x)
  unfolding throw
  Asks-throw Q x h all = (all, λ b e. cc)

  pub Asks-lift :
      {A : Type 0} (Q : A → Type 0) (r : Result A) → ((a : A) → r ≡ ok a → Q a) → Asks P Q (lift r)
  unfolding lift
  Asks-lift Q r q h all = (all, q)

  pub Asks-ask : {A : Type 0} (q : List R → Result A) → Asks P Any (ask q)
  unfolding ask
  Asks-ask q h all = (all, λ a e. tt)

  pub Asks-request : {A : Type 0} (r : R) (q : List R → Result A) → P r → Asks P Any (request r q)
  unfolding request
  Asks-request r q p h all = ((p, all), λ a e. tt)

  module _ {A B : Type 0} (Q : A → Type 0) (Q' : B → Type 0) where
    pub Asks-bind :
        (m : M R A) (f : A → M R B)
        → Asks P Q m
        → ((a : A) → Q a → Asks P Q' (f a))
        → Asks P Q' (m >>= f)
    unfolding ◌>>=◌
    Asks-bind m f first rest h all = after (m h) (first h all)
      where
        after :
            (r : Result A × List R)
            → All P r.1 × ((a : A) → r.0 ≡ ok a → Q a)
            → All P (((λ u. r) >>= f) h).1 × ((b : B) → (((λ u. r) >>= f) h).0 ≡ ok b → Q' b)
        after (ok a, k) (kept, answer) = rest a (answer a refl) k kept
        after (err x, k) (kept, answer) = (kept, λ b e. cc)

  pub Asks-optional : {A : Type 0} (m : M R A) → Asks P Any m → Asks P Any (optional m)
  unfolding optional
  Asks-optional {A} m first h all = after (m h) (first h all).0
    where
      after :
          (r : Result A × List R)
          → All P r.1
          → All P (optional (λ u. r) h).1
            × ((b : Option A) → (optional (λ u. r) h).0 ≡ ok b → Unit {0})
      after (ok a, k) kept = (kept, λ b e. tt)
      after (err x, k) kept = elim (Bool-cases (is_not_found x)) [
        | inl t ↦ (rw t kept, λ b e. tt)
        | inr f ↦ (rw f kept, λ b e. tt)
      ]

  pub Asks-attempt : {A : Type 0} (m : M R A) → Asks P Any m → Asks P Any (attempt m)
  unfolding attempt
  Asks-attempt m first h all = ((first h all).0, λ a e. tt)

  pub Asks-then :
      {A : Type 0} (Q : A → Type 0) (m : M R Unit) (k : M R A)
      → Asks P Any m
      → Asks P Q k
      → Asks P Q (m >> k)
  unfolding ◌>>◌
  Asks-then Q m k first rest = Asks-bind Any Q m (λ u. k) first (λ u any. rest)

  -- What a check established holds for what comes after it.
  pub Asks-checked :
      {A : Type 0} (C : Type 0) (Q : A → Type 0) (m : M R Unit) (k : M R A)
      → Asks P (λ u. C) m
      → (C → Asks P Q k)
      → Asks P Q (m >> k)
  unfolding ◌>>◌
  Asks-checked C Q m k first rest = Asks-bind (λ u. C) Q m (λ u. k) first (λ u c. rest c)
