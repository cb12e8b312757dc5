-- ===== src/Prelude/Answers.antt =====
-- Runs against a server, one answer at a time.
use kpack.Prelude.Results.{Error, is_not_found, Result, ok, err}
use kpack.Prelude.Run.{M, ◌>>=◌, ◌>>◌, pure, throw, lift, ask, request, done, wrap, optional}
use mathlib.Core.Path.{◌≡◌, refl, ap, ◌∙◌, subst}
use mathlib.Core.Bool.{Bool, true, false}
use mathlib.Core.Logic.{inl, inr}
use kpack.Prelude.Tests.{if◌then◌else◌, Option-cases}
use mathlib.Core.List.{List, ◌∷◌}
use mathlib.Core.Option.{Option, none, some}
use Prim.Native.String.{String}

module _ {R : Type 0} {A B : Type 0} where
  pub bind-ok :
      (m : M R A) (f : A → M R B) (h g : List R) (a : A) → m h ≡ (ok a, g) → (m >>= f) h ≡ f a g
  unfolding ◌>>=◌
  bind-ok m f h g a e = ap (λ r. ((λ u. r) >>= f) h) e

  pub bind-err :
      (m : M R A) (f : A → M R B) (h g : List R) (x : Error)
      → m h ≡ (err x, g)
      → (m >>= f) h ≡ (err x, g)
  unfolding ◌>>=◌
  bind-err m f h g x e = ap (λ r. ((λ u. r) >>= f) h) e

  -- A run that ends well did so in both parts.
  pub bind-inv :
      (m : M R A) (f : A → M R B) (h g : List R) (b : B)
      → (m >>= f) h ≡ (ok b, g)
      → (a : A) × (k : List R) × (m h ≡ (ok a, k)) × (f a k ≡ (ok b, g))
  unfolding ◌>>=◌
  bind-inv m f h g b = after (m h)
    where
      after :
          (r : Result A × List R)
          → ((λ u. r) >>= f) h ≡ (ok b, g)
          → (a : A) × (k : List R) × (r ≡ (ok a, k)) × (f a k ≡ (ok b, g))
      after (ok a, k) e = (a, k, refl, e)
      after (err x, k) e = let bad : err x ≡ ok b = ap (λ r. r.0) e in cc

module _ {R : Type 0} {A : Type 0} where
  pub pure-inv : (a b : A) (h g : List R) → pure a h ≡ (ok b, g) → a ≡ b
  unfolding pure
  pure-inv a b h g e = let same : ok a ≡ ok b = ap (λ r. r.0) e in cc

  pub lift-inv : (r : Result A) (b : A) (h g : List R) → lift r h ≡ (ok b, g) → r ≡ ok b
  unfolding lift
  lift-inv r b h g e = ap (λ r. r.0) e

  pub then-ok : (m : M R Unit) (k : M R A) (h g : List R) → m h ≡ (ok tt, g) → (m >> k) h ≡ k g
  unfolding ◌>>◌
  then-ok m k h g e = bind-ok m (λ u. k) h g tt e

  -- A sequence depends on its first part by what that does from where it starts.
  pub then_same : (m n : M R Unit) (k : M R A) (h : List R) → m h ≡ n h → (m >> k) h ≡ (n >> k) h
  unfolding ◌>>◌ ◌>>=◌
  then_same m n k h e = ap (λ r. ((λ u. r) >> k) h) e

  pub wrap-ok :
      (t : String) (m : M R A) (h g : List R) (a : A) → m h ≡ (ok a, g) → wrap t m h ≡ (ok a, g)
  unfolding wrap
  wrap-ok t m h g a e = rw e refl

  pub ask-is : (q : List R → Result A) (h : List R) (r : Result A) → q h ≡ r → ask q h ≡ (r, h)
  unfolding ask
  ask-is q h r e = rw e refl

  pub optional-ok :
      (m : M R A) (h g : List R) (a : A) → m h ≡ (ok a, g) → optional m h ≡ (ok (some a), g)
  unfolding optional
  optional-ok m h g a e = ap (λ r. optional (λ u. r) h) e

  missing :
      (x : Error) (g : List R)
      → is_not_found x ≡ true
      → optional {A = A} (λ u. (err x, g)) g ≡ (ok none, g)
  unfolding optional
  missing x g t = rw t refl

  pub optional-missing :
      (m : M R A) (h g : List R) (x : Error)
      → m h ≡ (err x, g)
      → is_not_found x ≡ true
      → optional m h ≡ (ok none, g)
  unfolding optional
  optional-missing m h g x e t = ap (λ r. optional (λ u. r) h) e ∙ missing x g t

-- A run that ends well got an answer to the question, the computation or the write it starts with.
module _ {R : Type 0} {A B : Type 0} where
  pub lift_bind-inv :
      (r : Result A) (f : A → M R B) (h g : List R) (b : B)
      → (lift r >>= f) h ≡ (ok b, g)
      → (a : A) × (r ≡ ok a) × (f a h ≡ (ok b, g))
  unfolding ◌>>=◌ lift
  lift_bind-inv (ok a) f h g b e = (a, refl, e)
  lift_bind-inv (err x) f h g b e = let bad : err x ≡ ok b = ap (λ r. r.0) e in cc

  pub ask_bind-inv :
      (q : List R → Result A) (f : A → M R B) (h g : List R) (b : B)
      → (ask q >>= f) h ≡ (ok b, g)
      → (a : A) × (q h ≡ ok a) × (f a h ≡ (ok b, g))
  unfolding ◌>>=◌ lift ask
  ask_bind-inv q f h g b e = lift_bind-inv (q h) f h g b e

  pub request_bind-inv :
      (r : R) (q : List R → Result A) (f : A → M R B) (h g : List R) (b : B)
      → (request r q >>= f) h ≡ (ok b, g)
      → (a : A) × (q h ≡ ok a) × (f a (r ∷ h) ≡ (ok b, g))
  unfolding ◌>>=◌ request
  request_bind-inv r q f h g b e = after (q h) e
    where
      after :
          (x : Result A)
          → ((λ u. (x, r ∷ h)) >>= f) h ≡ (ok b, g)
          → (a : A) × (x ≡ ok a) × (f a (r ∷ h) ≡ (ok b, g))
      after (ok a) e = (a, refl, e)
      after (err y) e = let bad : err y ≡ ok b = ap (λ r. r.0) e in cc

  -- What a run ends with, made of the answer of its last part.
  pub bind_pure-inv :
      (m : M R A) (f : A → B) (h g : List R) (b : B)
      → (m >>= λ a. pure (f a)) h ≡ (ok b, g)
      → (a : A) × (m h ≡ (ok a, g)) × (f a ≡ b)
  unfolding pure
  bind_pure-inv m f h g b e =
      let (a, k, first, last) = bind-inv m (λ x. pure (f x)) h g b e in
      let state : k ≡ g = ap (λ r. r.1) last in
      (a, subst (λ x. m h ≡ (ok a, x)) state first, pure-inv (f a) b k g last)

-- How a pass ends whose work came to `work`: where the cache has the outcome already nothing is
-- written, and the pass answers with the error of its work. Otherwise the outcome is written, and the
-- error of that write comes first.
abbrev pub first_error : Option Error → Option Error → Result (Unit {0})
first_error (some e) work = err e
first_error none work = done work

module _ {R : Type 0} where
  abbrev pub ending : Bool → Option Error → Option Error → R → List R → Result (Unit {0}) × List R
  ending cached answer work r h =
      if cached then (done work, h) else (first_error answer work, r ∷ h)

  abbrev write_unless : Bool → R → (List R → Option Error) → M R (Unit {0})
  write_unless cached r q = if cached then pure tt else request r (λ h. done (q h))

  pub write-ending :
      (cached : Bool) (r : R) (q : List R → Option Error) (h : List R)
      → write_unless cached r q h ≡ ending cached (q h) none r h
  unfolding pure request
  write-ending true r q h = refl
  write-ending false r q h = elim (Option-cases (q h)) [
    | inl n ↦ rw n refl
    | inr (x, s) ↦ rw s refl
  ]

  pub write_lift-ending :
      (cached : Bool) (r : R) (q : List R → Option Error) (work : Option Error) (h : List R)
      → (write_unless cached r q >> lift (done work)) h ≡ ending cached (q h) work r h
  unfolding ◌>>◌ ◌>>=◌ pure request lift
  write_lift-ending true r q work h = refl
  write_lift-ending false r q work h = after (q h)
    where
      after :
          (x : Option Error)
          → ((λ u. (done x, r ∷ h)) >> lift (done work)) h ≡ (first_error x (work), r ∷ h)
      after none = refl
      after (some y) = refl

  pub write_throw-ending :
      (cached : Bool) (r : R) (q : List R → Option Error) (e : Error) (h : List R)
      → (write_unless cached r q >> throw e) h ≡ ending cached (q h) (some e) r h
  unfolding ◌>>◌ ◌>>=◌ pure request throw
  write_throw-ending true r q e h = refl
  write_throw-ending false r q e h = after (q h)
    where
      after :
          (x : Option Error)
          → ((λ u. (done x, r ∷ h)) >> throw e) h ≡ (first_error x (some e), r ∷ h)
      after none = refl
      after (some y) = refl
