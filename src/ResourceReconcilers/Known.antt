-- ===== src/ResourceReconcilers/Known.antt =====
-- The five reconcilers: what their passes have in common, once what came of the reading is known.
use kpack.Prelude.Run.{M, ◌>>◌, ask, lift, done, optional}
use kpack.Prelude.Answers.{bind-ok, then_same, ask-is, optional-ok, ending, write_lift-ending}
use kpack.Prelude.{
  none, ◌>>=◌, ℕ, ◌≡◌, refl, ◌∙◌, String, List, Option, some, Result, ok, err, Error, plain,
  not_found, invalid, network, panicked, permanent, returned, message, is_ok, error_of,
}
use kpack.Api.Condition.{Condition, Status, condition_ready, get_condition, is_true}
use kpack.Cnb.Resources.{SecretRef}
use kpack.ResourceReconcilers.Reading.{Kind, Reading, recorded, read_images, reading_status}
use kpack.ResourceReconcilers.Pass.{
  write_unless_equal, update_status, found_resource, reconcile_with,
}

abbrev pub said : Option Condition → String
said none = ""
said (some c) = c.message

abbrev pub error_text : {Found : Type 0} → Result Found → String
error_text (ok found) = ""
error_text (err e) = message e

-- A status that says whether the resource is ready, and why not, and speaks of a generation.
abbrev pub IsAnswer : {Found : Type 0} → Status → ℕ → Result Found → Type 0
IsAnswer status generation o =
    (is_true (get_condition status.conditions condition_ready) ≡ is_ok o)
    × (said (get_condition status.conditions condition_ready) ≡ error_text o)
    × (status.observed_generation ≡ generation)

-- What was read, or the zero value where there was an error.
abbrev pub or_zero : {Found : Type 0} → Found → Result Found → Found
or_zero zero (ok found) = found
or_zero zero (err e) = zero

module _ {Spec Found : Type 0} (C : Reading Spec Found) where
  -- What comes of the keychain and the reading, in a row.
  abbrev pub read_with : SecretRef → Spec → Result Found
  read_with secret_ref spec = C.keychain_for_secret_ref secret_ref >>= λ k. C.read k spec

  -- No part of the reading panics.
  abbrev pub IsReturned : Result Found → Type 0
  IsReturned o = returned o ≡ ok o

  module _ {T : Type 0} (answered : Result Found → T) where
    recorded-returned :
        (r o : Result Found)
        → r ≡ o
        → IsReturned o
        → recorded C answered r ≡ ok (answered o, error_of o)
    recorded-returned r (ok a) same safe = rw same refl
    recorded-returned r (err (plain m)) same safe = rw same refl
    recorded-returned r (err (not_found m)) same safe = rw same refl
    recorded-returned r (err (invalid m)) same safe = rw same refl
    recorded-returned r (err (network m)) same safe = rw same refl
    recorded-returned r (err (permanent e)) same safe = rw same refl
    recorded-returned r (err (panicked m)) same safe = cc

    read_images-returned :
        (spec : Spec) (k : Result C.Keychain) (o : Result Found)
        → (k >>= λ x. C.read x spec) ≡ o
        → IsReturned o
        → read_images C answered spec k ≡ ok (answered o, error_of o)
    unfolding read_images
    read_images-returned spec (ok k) o e safe = recorded-returned (C.read k spec) o e safe
    read_images-returned spec (err x) o e safe = recorded-returned (err x) o e safe

    pub reading_status-returned :
        (secret_ref : SecretRef) (spec : Spec) (o : Result Found)
        → read_with secret_ref spec ≡ o
        → IsReturned o
        → reading_status C answered secret_ref spec ≡ ok (answered o, error_of o)
    unfolding reading_status
    reading_status-returned secret_ref spec o e safe =
        read_images-returned spec (C.keychain_for_secret_ref secret_ref) o e safe

module _ {T : Type 0} (K : Kind T) (key : T → String × String) (observed : T → T) where
  -- The cache holds a resource throughout a pass.
  abbrev pub IsHeld : T → Type 0
  IsHeld t = (h : List T) → K.get h (key t).0 (key t).1 ≡ ok t

  -- The write of a pass, and the error of the reading that it answers with.
  abbrev pub written : T → T → Option Error → M T (Unit {0})
  written t desired e = write_unless_equal K key observed t (observed desired) >> lift (done e)

  update_status-IsHeld :
      (t desired : T) (h : List T)
      → IsHeld t
      → key desired ≡ key t
      → update_status K key observed desired h
        ≡ write_unless_equal K key observed t (observed desired) h
  unfolding update_status
  update_status-IsHeld t desired h held same =
      bind-ok (ask (λ k. K.get k (key desired).0 (key desired).1)) _ h h t
        (ask-is _ h (ok t) (rw same (held h)))

  written-ending :
      (t desired : T) (e : Option Error) (h : List T)
      → written t desired e h
        ≡ ending
            (K.status_equal (observed desired) t)
            (K.answer_update h (observed desired))
            e
            (observed desired)
            h
  unfolding write_unless_equal
  written-ending t desired e h =
      write_lift-ending (K.status_equal (observed desired) t) (observed desired)
        (λ g. K.answer_update g (observed desired)) e h

  pub reconcile_with-IsHeld :
      (status : T → Result (T × Option Error)) (t desired : T) (e : Option Error) (h : List T)
      → IsHeld t
      → status t ≡ ok (desired, e)
      → key desired ≡ key t
      → reconcile_with K key observed status (key t).0 (key t).1 h
        ≡ ending
            (K.status_equal (observed desired) t)
            (K.answer_update h (observed desired))
            e
            (observed desired)
            h
  unfolding reconcile_with found_resource lift
  reconcile_with-IsHeld status t desired e h held answer same =
      let first : lift (status t) h ≡ (ok (desired, e), h) = rw answer refl in
      bind-ok (optional (ask (λ k. K.get k (key t).0 (key t).1))) _ h h (some t)
        (optional-ok _ h h t (ask-is _ h (ok t) (held h)))
      ∙ bind-ok (lift (status t)) _ h h (desired, e) first
      ∙ then_same _ _ (lift (done e)) h (update_status-IsHeld t desired h held same)
      ∙ written-ending t desired e h
