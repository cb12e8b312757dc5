-- ===== src/Cnb/Support.antt =====
-- buildpack_validation.go, and the validation in builder_builder.go: whether a lifecycle and a stack
-- support the buildpacks of a builder.
pub mod Relaxed
pub mod Supported
use Prim.Native.String.{len, slice}
use text.Mathlib.Text.{find?}
use kpack.Prelude.{
  ◌>>=◌, ◌+◌, String, Bool, true, false, ◌&&◌, ◌||◌, not, List, [], ◌∷◌, ◌++◌, none, some,
  if◌then◌else◌, ◌==◌, ◌<>◌, any, join, starts_with, Result, ok, err, Error, plain, panicked,
  message,
}
use kpack.Cnb.Resources.{OrderEntry, BuildpackStack}
use kpack.Cnb.Resolver.{Semver}
use kpack.Cnb.Fetcher.{DescriptiveBuildpackInfo, BuildpackLayerInfo}

-- A function that returns an error and nothing else.
abbrev pub Check : Type 0
Check = Result Unit

unfoldable pub present : List String → String → Bool
unfolding any
present haystack needle = any (λ s. s == needle) haystack

-- `strings.SplitN(needle, ":", 2)[1]`: the index panics without a colon.
unfoldable pub stage_removed : String → Result String
stage_removed needle = elim (find? needle ":") [
  | none ↦ err (panicked "index out of range")
  | some i ↦ ok (slice needle (i + 1) (len needle))
]

unfoldable pub mixin_present : List String → String → Bool → Result Bool
unfolding present stage_removed
mixin_present mixins mixin relaxed =
    if not relaxed
    then ok (present mixins mixin)
    else if starts_with mixin "build:" || starts_with mixin "run:"
    then (if present mixins mixin
        then ok true
        else do rest ← stage_removed mixin; ok (present mixins rest))
    else ok (
        present mixins mixin
        || (present mixins ("build:" <> mixin) && present mixins ("run:" <> mixin)))

unfoldable pub missing_mixins : List String → List String → Bool → Result (List String)
unfolding mixin_present
missing_mixins provided [] relaxed = ok []
missing_mixins provided (m ∷ ms) relaxed = do
  found ← mixin_present provided m relaxed
  rest ← missing_mixins provided ms relaxed
  ok (if found then rest else m ∷ rest)

abbrev pub no_missing : List String → Check
no_missing [] = ok tt
no_missing (m ∷ ms) = err (plain ("stack missing mixin(s): " <> join ", " (m ∷ ms)))

unfoldable pub validate_required_mixins : List String → List String → Bool → Check
unfolding missing_mixins join
validate_required_mixins provided required relaxed = do
  missing ← missing_mixins provided required relaxed
  no_missing missing

-- `fmt.Sprintf("%s@%s", b.Id, b.Version)`.
unfoldable pub info_string : DescriptiveBuildpackInfo → String
info_string info = info.id <> "@" <> info.version

abbrev pub supported_platform_apis : List String
supported_platform_apis = "0.3" ∷ "0.4" ∷ "0.5" ∷ "0.6" ∷ "0.7" ∷ "0.8" ∷ []

unfoldable pub validate_platform_apis : List String → Check
unfolding any present join
validate_platform_apis apis =
    if any (present apis) supported_platform_apis
    then ok tt
    else err (
        plain (
          "unsupported platform apis in kpack lifecycle: "
          <> join ", " apis
          <> ", expecting one of: "
          <> join ", " supported_platform_apis))

-- `errors.Wrapf`: the text of the cause comes after the message. A panic is no error to wrap.
abbrev pub wrap : String → Check → Check
wrap text (ok done) = ok done
wrap text (err (panicked m)) = err (panicked m)
wrap text (err e) = err (plain (text <> ": " <> message e))

abbrev pub unless_meta : List OrderEntry → Check → Check
unless_meta [] checked = checked
unless_meta (e ∷ es) checked = ok tt

abbrev pub unsupported_api : List String → String → Error
unfolding join
unsupported_api apis api =
    plain ("unsupported buildpack api: " <> api <> ", expecting: " <> join ", " apis)

module _ (S : Semver) (any_stack_minimum : S.Version) where
  open S use {Version, new_version, at_least}

  unfoldable pub is_anystack : String → Version → Bool
  is_anystack stack_id version = stack_id == "*" && at_least version any_stack_minimum

  -- The loop over the stacks of a buildpack: the first that fits decides.
  unfoldable pub supports_stack : String → String → List String → Bool → List BuildpackStack → Check
  unfolding is_anystack validate_required_mixins
  supports_stack api id mixins relaxed [] = err (plain ("stack " <> id <> " is not supported"))
  supports_stack api id mixins relaxed (s ∷ ss) =
      let rest = supports_stack api id mixins relaxed ss in
      elim (new_version api) [
        | none ↦ err (S.invalid api)
        | some version ↦
            if s.id == id || is_anystack s.id version
            then validate_required_mixins mixins s.mixins relaxed
            else rest
      ]

  abbrev pub supports_stacks : String → String → List String → Bool → List BuildpackStack → Check
  supports_stacks api id mixins relaxed [] = ok tt
  supports_stacks api id mixins relaxed (s ∷ ss) = supports_stack api id mixins relaxed (s ∷ ss)

  unfoldable pub supports : BuildpackLayerInfo → List String → String → List String → Bool → Check
  unfolding present join supports_stack
  supports info buildpack_apis id mixins relaxed = unless_meta info.order (
      if not (present buildpack_apis info.api)
      then err (unsupported_api buildpack_apis info.api)
      else supports_stacks info.api id mixins relaxed info.stacks)

  -- `semver.MustParse` panics. `minimum` is the parsed "0.7".
  unfoldable pub relaxed_mixin_contract : Version → List String → Result Bool
  relaxed_mixin_contract minimum [] = ok false
  relaxed_mixin_contract minimum (api ∷ apis) =
      let rest = relaxed_mixin_contract minimum apis in
      elim (new_version api) [
        | none ↦ err (panicked "Invalid Semantic Version")
        | some version ↦ if at_least version minimum then ok true else rest
      ]

  -- The loop of `validateBuilder`. The contract is computed for each buildpack.
  unfoldable pub validate_buildpacks :
      Version
      → List String
      → List String
      → String
      → List String
      → List (DescriptiveBuildpackInfo × BuildpackLayerInfo)
      → Check
  unfolding relaxed_mixin_contract supports info_string
  validate_buildpacks minimum platform_apis buildpack_apis id mixins [] = ok tt
  validate_buildpacks minimum platform_apis buildpack_apis id mixins (b ∷ bs) = do
    relaxed ← relaxed_mixin_contract minimum platform_apis
    done ←
        wrap ("validating buildpack " <> info_string b.0)
          (supports b.1 buildpack_apis id mixins relaxed)
    validate_buildpacks minimum platform_apis buildpack_apis id mixins bs
