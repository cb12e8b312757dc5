-- ===== src/Cnb/Support/Relaxed.antt =====
-- buildpack_validation.go: the relaxed mixin contract accepts all that the strict one accepts.
use kpack.Prelude.{
  ◌≡◌, refl, String, true, false, ◌||◌, not, List, [], ◌∷◌, starts_with, Bool-cases, inl, inr,
  if◌then◌else◌, ok, err, bind-ok_inv, ◌==◌, Option-cases,
}
use kpack.Cnb.Resources.{OrderEntry, BuildpackStack}
use kpack.Cnb.Resolver.{Semver}
use kpack.Cnb.Fetcher.{BuildpackLayerInfo}
use kpack.Cnb.Support.{
  present, mixin_present, missing_mixins, no_missing, validate_required_mixins, is_anystack,
  supports_stack, supports_stacks, unless_meta, unsupported_api, supports,
}

mixin_present-relaxed :
    (mixins : List String) (m : String)
    → present mixins m ≡ true
    → mixin_present mixins m true ≡ ok true
unfolding mixin_present
mixin_present-relaxed mixins m h =
    elim (Bool-cases (starts_with m "build:" || starts_with m "run:")) [
      | inl e ↦ rw (e, h) refl
      | inr e ↦ rw (e, h) refl
    ]

-- Strictly, no mixin is missing only if each stands in the list.
strict_head :
    (provided : List String) (m : String) (ms : List String)
    → missing_mixins provided (m ∷ ms) false ≡ ok []
    → (present provided m ≡ true) × (missing_mixins provided ms false ≡ ok [])
unfolding missing_mixins mixin_present
strict_head provided m ms e =
    let (rest, below, last) = bind-ok_inv (missing_mixins provided ms false) _ [] e in
    elim (Bool-cases (present provided m)) [
      | inl found ↦ (found, let none_left = rw found at last in cc)
      | inr gone ↦ let bad = rw gone at last in cc
    ]

missing_mixins-relaxed :
    (provided required : List String)
    → missing_mixins provided required false ≡ ok []
    → missing_mixins provided required true ≡ ok []
unfolding missing_mixins
missing_mixins-relaxed provided [] e = refl
missing_mixins-relaxed provided (m ∷ ms) e =
    let (found, rest) = strict_head provided m ms e in
    let found_too : mixin_present provided m true ≡ ok true =
      mixin_present-relaxed provided m found in
    let rest_too : missing_mixins provided ms true ≡ ok [] =
      missing_mixins-relaxed provided ms rest in
    rw (found_too, rest_too) refl

validate_required_mixins-relaxed :
    (provided required : List String)
    → validate_required_mixins provided required false ≡ ok tt
    → validate_required_mixins provided required true ≡ ok tt
unfolding validate_required_mixins
validate_required_mixins-relaxed provided required e =
    let (missing, found, rest) = bind-ok_inv (missing_mixins provided required false) _ tt e in
    let strict : missing_mixins provided required false ≡ ok [] = all_found missing found rest in
    rw (missing_mixins-relaxed provided required strict) refl
  where
    all_found :
        (missing : List String)
        → missing_mixins provided required false ≡ ok missing
        → no_missing missing ≡ ok tt
        → missing_mixins provided required false ≡ ok []
    all_found [] found rest = found
    all_found (m ∷ ms) found rest = cc

module _ (S : Semver) (any_stack_minimum : S.Version) where
  supports_stack-relaxed :
      (api id : String) (mixins : List String) (ss : List BuildpackStack)
      → supports_stack S any_stack_minimum api id mixins false ss ≡ ok tt
      → supports_stack S any_stack_minimum api id mixins true ss ≡ ok tt
  unfolding supports_stack
  supports_stack-relaxed api id mixins [] e = cc
  supports_stack-relaxed api id mixins (s ∷ ss) e = elim (Option-cases (S.new_version api)) [
    | inl invalid ↦ let bad = rw (invalid, supports_stack) at e in cc
    | inr (v, valid) ↦ elim (Bool-cases (s.id == id || is_anystack S any_stack_minimum s.id v)) [
      | inl fits ↦
          rw (valid, fits, supports_stack)
            (validate_required_mixins-relaxed mixins s.mixins
              (rw (valid, fits, supports_stack) at e))
      | inr other ↦
          rw (valid, other, supports_stack)
            (supports_stack-relaxed api id mixins ss (rw (valid, other, supports_stack) at e))
    ]
  ]

  -- A buildpack that the strict contract accepts, the relaxed contract accepts.
  pub supports-relaxed :
      (info : BuildpackLayerInfo) (apis : List String) (id : String) (mixins : List String)
      → supports S any_stack_minimum info apis id mixins false ≡ ok tt
      → supports S any_stack_minimum info apis id mixins true ≡ ok tt
  unfolding supports
  supports-relaxed info apis id mixins = of_order info.order
    where
      of_stacks :
          (ss : List BuildpackStack)
          → supports_stacks S any_stack_minimum info.api id mixins false ss ≡ ok tt
          → supports_stacks S any_stack_minimum info.api id mixins true ss ≡ ok tt
      of_stacks [] e = refl
      of_stacks (s ∷ ss) e = supports_stack-relaxed info.api id mixins (s ∷ ss) e

      of_order :
          (es : List OrderEntry)
          → unless_meta es (
              if not (present apis info.api)
              then err (unsupported_api apis info.api)
              else supports_stacks S any_stack_minimum info.api id mixins false info.stacks)
            ≡ ok tt
          → unless_meta es (
              if not (present apis info.api)
              then err (unsupported_api apis info.api)
              else supports_stacks S any_stack_minimum info.api id mixins true info.stacks)
            ≡ ok tt
      of_order (x ∷ xs) e = refl
      of_order [] e = elim (Bool-cases (present apis info.api)) [
        | inl known ↦ rw known (of_stacks info.stacks (rw known at e))
        | inr unknown ↦ let bad = rw unknown at e in cc
      ]
