-- ===== src/ImageReconciler/Reconcile/Counts.antt =====
-- Counting the builds that a run against the API server asks for.
use kpack.Prelude.{
  if◌then◌else◌, ℕ, suc, ◌+◌, ◌≤◌, ◌≡◌, refl, String, Bool, true, false, [], ◌∷◌, Result, ok, err,
  Error, arith, Bool-cases, inl, inr, is_not_found,
}
use kpack.Api.Meta.{Foreign}
use kpack.ImageReconciler.Server.{
  Request, History, track, create_build, delete_build, create_resolver, update_resolver,
  create_claim, update_claim, delete_claim, update_image_status, M, ◌>>=◌, ◌>>◌, pure, throw, lift,
  ask, request, wrap, wrap_by, optional,
}

module _ {K : Foreign} where
  -- The builds that a history asks for.
  unfoldable pub creates : History K → ℕ
  creates [] = 0
  creates (create_build b ∷ h) = suc (creates h)
  creates (track k n m ∷ h) = creates h
  creates (delete_build n ∷ h) = creates h
  creates (create_resolver m s ∷ h) = creates h
  creates (update_resolver r ∷ h) = creates h
  creates (create_claim c ∷ h) = creates h
  creates (update_claim c ∷ h) = creates h
  creates (delete_claim n u ∷ h) = creates h
  creates (update_image_status i ∷ h) = creates h

  -- A request for a build counts, the others do not.
  unfoldable pub weight : Request K → ℕ
  weight (create_build b) = 1
  weight (track k n m) = 0
  weight (delete_build n) = 0
  weight (create_resolver m s) = 0
  weight (update_resolver r) = 0
  weight (create_claim c) = 0
  weight (update_claim c) = 0
  weight (delete_claim n u) = 0
  weight (update_image_status i) = 0

  creates-weight : (r : Request K) (h : History K) → creates (r ∷ h) ≡ creates h + weight r
  unfolding creates weight
  creates-weight (create_build b) h = omega arith
  creates-weight (track k n m) h = omega arith
  creates-weight (delete_build n) h = omega arith
  creates-weight (create_resolver m s) h = omega arith
  creates-weight (update_resolver r) h = omega arith
  creates-weight (create_claim c) h = omega arith
  creates-weight (update_claim c) h = omega arith
  creates-weight (delete_claim n u) h = omega arith
  creates-weight (update_image_status i) h = omega arith

  run-pure : {A : Type 0} (a : A) (h : History K) → creates (pure a h).1 ≡ creates h
  unfolding pure
  run-pure a h = refl

  run-throw : (A : Type 0) (e : Error) (h : History K) → creates (throw {A = A} e h).1 ≡ creates h
  unfolding throw
  run-throw A e h = refl

  run-lift : {A : Type 0} (r : Result A) (h : History K) → creates (lift r h).1 ≡ creates h
  unfolding lift
  run-lift r h = refl

  run-ask :
      {A : Type 0} (q : History K → Result A) (h : History K) → creates (ask q h).1 ≡ creates h
  unfolding ask
  run-ask q h = refl

  run-request :
      {A : Type 0} (r : Request K) (q : History K → Result A) (h : History K)
      → creates (request r q h).1 ≡ creates h + weight r
  unfolding request
  run-request r q h = creates-weight r h

  run-wrap :
      {A : Type 0} (t : String) (m : M (Request K) A) (h : History K)
      → creates (wrap t m h).1 ≡ creates (m h).1
  unfolding wrap
  run-wrap t m h = refl

  run-wrap_by :
      {A : Type 0} (t : Error → String) (m : M (Request K) A) (h : History K)
      → creates (wrap_by t m h).1 ≡ creates (m h).1
  unfolding wrap_by
  run-wrap_by t m h = refl

  run-optional :
      {A : Type 0} (m : M (Request K) A) (h : History K)
      → creates (optional m h).1 ≡ creates (m h).1
  unfolding optional
  run-optional {A} m h = after (m h)
    where
      after : (r : Result A × History K) → creates (optional (λ g. r) h).1 ≡ creates r.1
      after (ok a, g) = refl
      after (err x, g) = elim (Bool-cases (is_not_found x)) [
        | inl t ↦ rw t refl
        | inr t ↦ rw t refl
      ]

  run-bind :
      {A B : Type 0} (k : ℕ) (m : M (Request K) A) (f : A → M (Request K) B) (h : History K)
      → ((a : A) (g : History K) → creates (f a g).1 ≤ creates g + k)
      → creates ((m >>= f) h).1 ≤ creates (m h).1 + k
  unfolding ◌>>=◌
  run-bind {A} k m f h hf = after (m h)
    where
      after : (r : Result A × History K) → creates (((λ g. r) >>= f) h).1 ≤ creates r.1 + k
      after (ok a, g) = hf a g
      after (err x, g) = omega arith

  run-then :
      {B : Type 0} (n : ℕ) (m : M (Request K) Unit) (k : M (Request K) B) (h : History K)
      → ((g : History K) → creates (k g).1 ≤ creates g + n)
      → creates ((m >> k) h).1 ≤ creates (m h).1 + n
  unfolding ◌>>◌
  run-then n m k h hk = run-bind n m (λ u. k) h (λ u. hk)

-- A run that asks for at most `n` builds from any history.
pub record AtMost {K : Foreign} {A : Type 0} (n : ℕ) (m : M (Request K) A) : Type 0 where
  pub bound : (h : History K) → creates (m h).1 ≤ creates h + n

module _ {K : Foreign} where
  pub AtMost-pure : {A : Type 0} {n : ℕ} (a : A) → AtMost n (pure {R = Request K} a)
  AtMost-pure a = record { bound = λ h. omega (arith, run-pure a h) }

  pub AtMost-throw : {A : Type 0} {n : ℕ} (e : Error) → AtMost n (throw {R = Request K} {A = A} e)
  AtMost-throw {A} e = record { bound = λ h. omega (arith, run-throw A e h) }

  pub AtMost-lift : {A : Type 0} {n : ℕ} (r : Result A) → AtMost n (lift {R = Request K} r)
  AtMost-lift r = record { bound = λ h. omega (arith, run-lift r h) }

  pub AtMost-ask : {A : Type 0} {n : ℕ} (q : History K → Result A) → AtMost n (ask q)
  AtMost-ask q = record { bound = λ h. omega (arith, run-ask q h) }

  pub AtMost-wrap :
      {A : Type 0} {n : ℕ} {m : M (Request K) A} (t : String) → AtMost n m → AtMost n (wrap t m)
  AtMost-wrap {m = m} t hm = record { bound = λ h. omega (arith, hm.bound h, run-wrap t m h) }

  pub AtMost-wrap_by :
      {A : Type 0} {n : ℕ} {m : M (Request K) A} (t : Error → String)
      → AtMost n m
      → AtMost n (wrap_by t m)
  AtMost-wrap_by {m = m} t hm = record { bound = λ h. omega (arith, hm.bound h, run-wrap_by t m h) }

  pub AtMost-request :
      {A : Type 0} {n : ℕ} (r : Request K) (q : History K → Result A)
      → weight r ≤ n
      → AtMost n (request r q)
  AtMost-request r q le = record { bound = λ h. omega (arith, run-request r q h, le) }

  pub AtMost-optional :
      {A : Type 0} {n : ℕ} {m : M (Request K) A} → AtMost n m → AtMost n (optional m)
  AtMost-optional {m = m} hm = record { bound = λ h. omega (arith, hm.bound h, run-optional m h) }

  pub AtMost-bind :
      {A B : Type 0} {n : ℕ} {m : M (Request K) A} {f : A → M (Request K) B}
      → AtMost 0 m
      → ((a : A) → AtMost n (f a))
      → AtMost n (m >>= f)
  AtMost-bind {n = n} {m = m} {f = f} hm hf = record {
    bound = λ h. omega (arith, hm.bound h, run-bind n m f h (λ a. (hf a).bound));
  }

  pub AtMost-then :
      {B : Type 0} {n : ℕ} {m : M (Request K) Unit} {k : M (Request K) B}
      → AtMost 0 m
      → AtMost n k
      → AtMost n (m >> k)
  AtMost-then {n = n} {m = m} {k = k} hm hk = record {
    bound = λ h. omega (arith, hm.bound h, run-then n m k h hk.bound);
  }

  pub AtMost-last :
      {A B : Type 0} {n : ℕ} {m : M (Request K) A} {f : A → M (Request K) B}
      → AtMost n m
      → ((a : A) → AtMost 0 (f a))
      → AtMost n (m >>= f)
  AtMost-last {m = m} {f = f} hm hf = record {
    bound = λ h. omega (arith, hm.bound h, run-bind 0 m f h (λ a. (hf a).bound));
  }

  pub AtMost-if :
      {A : Type 0} {n : ℕ} (b : Bool) {m k : M (Request K) A}
      → AtMost n m
      → AtMost n k
      → AtMost n (if b then m else k)
  AtMost-if true hm hk = hm
  AtMost-if false hm hk = hk

  pub AtMost-choice :
      {A : Type 0} {n : ℕ} (b : Bool) {m k : M (Request K) A}
      → AtMost n m
      → AtMost n k
      → AtMost n (elim b [ true ↦ m | false ↦ k ])
  AtMost-choice true hm hk = hm
  AtMost-choice false hm hk = hk
