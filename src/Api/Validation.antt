-- ===== src/Api/Validation.antt =====
-- pkg/apis/build/v1alpha2/image_validation.go: the checks of an image that need no other library.
use kpack.Prelude.{
  ℕ, zero, suc, negsuc, ap, Option-cases, ℤ, pos, ltb_ℤ, ◌≡◌, refl, String, false, List, [], ◌∷◌,
  Option, none, some, if◌then◌else◌, ◌&&◌, is_some, Result, ok, err, panicked, Bool-cases, inl, inr,
}
use kpack.Api.Meta.{Foreign}
use kpack.Api.Image.{ImageSpec, ImageCacheConfig}

-- `apis.FieldError`, by its message and its paths.
pub record FieldError : Type 0 where
  pub message : String
  pub paths : List String

abbrev history_limit_error : String → FieldError
history_limit_error path = record {
  message = "build history limit must be greater than 0";
  paths = path ∷ [];
}

-- A pointer that is read: nil panics.
abbrev at_limit : Option ℤ → (ℤ → Result (Option FieldError)) → Result (Option FieldError)
at_limit none check = err (panicked "nil limit")
at_limit (some limit) check = check limit

positive : (z : ℤ) → ltb_ℤ z (pos 1) ≡ false → (n : ℕ) × (z ≡ pos (suc n))
positive (pos zero) e = cc
positive (pos (suc n)) e = (n, refl)
positive (negsuc n) e = cc

module _ {K : Foreign} where
  unfoldable pub validate_build_history_limit : ImageSpec K → Result (Option FieldError)
  validate_build_history_limit spec = at_limit spec.failed_build_history_limit (λ failed.
      if ltb_ℤ failed (pos 1)
      then ok (some (history_limit_error "failedBuildHistoryLimit"))
      else at_limit spec.success_build_history_limit (λ success.
        if ltb_ℤ success (pos 1)
        then ok (some (history_limit_error "successBuildHistoryLimit"))
        else ok none))

  -- `ImageCacheConfig.Validate`.
  unfoldable pub validate_cache : Option (ImageCacheConfig K) → Option FieldError
  validate_cache none = none
  validate_cache (some c) =
      if is_some c.volume && is_some c.registry
      then some (record {
        message = "only one type of cache can be specified";
        paths = "volume" ∷ "registry" ∷ [];
      })
      else none

  -- Limits that validate are both at least 1.
  pub validate_build_history_limit-positive :
      (spec : ImageSpec K)
      → validate_build_history_limit spec ≡ ok none
      → ((f : ℕ) × (spec.failed_build_history_limit ≡ some (pos (suc f))))
        × ((s : ℕ) × (spec.success_build_history_limit ≡ some (pos (suc s))))
  unfolding validate_build_history_limit
  validate_build_history_limit-positive spec e =
      elim (Option-cases spec.failed_build_history_limit) [
        | inl missing ↦ let bad = rw (missing, validate_build_history_limit) at e in cc
        | inr (failed, f) ↦ elim (Bool-cases (ltb_ℤ failed (pos 1))) [
          | inl low ↦ let bad = rw (f, validate_build_history_limit, low) at e in cc
          | inr high ↦ elim (Option-cases spec.success_build_history_limit) [
            | inl missing ↦ let bad = rw (f, validate_build_history_limit, high, missing) at e in cc
            | inr (success, g) ↦ elim (Bool-cases (ltb_ℤ success (pos 1))) [
              | inl low ↦ let bad = rw (f, validate_build_history_limit, high, g, low) at e in cc
              | inr enough ↦
                  let (n, same) = positive failed high in
                  let (m, same_too) = positive success enough in
                  ((n, rw f (ap some same)), (m, rw g (ap some same_too)))
            ]
          ]
        ]
      ]
