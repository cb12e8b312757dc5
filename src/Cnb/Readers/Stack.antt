-- ===== src/Cnb/Readers/Stack.antt =====
-- remote_stack_reader.go: what the images of a stack say of it.
pub mod Mixins
use kpack.Prelude.Decimal.{parse_int}
use kpack.Prelude.{
  ◌>>=◌, ℤ, String, ◌||◌, not, List, [], ◌∷◌, ◌++◌, none, some, if◌then◌else◌, ◌==◌, ◌<>◌, select,
  starts_with, join, Result, ok, err, plain,
}
use kpack.Api.BuilderTypes.{ClusterStackSpec, ResolvedClusterStack}
use kpack.Cnb.BuilderParts.{labelled}
use kpack.Cnb.Support.{Check, present}
use kpack.Cnb.Readers.{ImageReads, get_env, has_label, get_string_label, get_label}

abbrev pub mixins_label : String
mixins_label = "io.buildpacks.stack.mixins"

abbrev pub stack_label : String
stack_label = "io.buildpacks.stack.id"

-- The three lists that the loop fills: the mixins of the stage, of the other stage and of both.
pub record Classified : Type 0 where
  pub valid : List String
  pub invalid : List String
  pub common : List String

unfoldable pub classify_mixins : List String → String → String → Classified
classify_mixins [] valid_prefix invalid_prefix = record { valid = []; invalid = []; common = [] }
classify_mixins (m ∷ ms) valid_prefix invalid_prefix =
    let rest = classify_mixins ms valid_prefix invalid_prefix in
    if starts_with m valid_prefix
    then record rest { valid = m ∷ rest.valid }
    else if starts_with m invalid_prefix
    then record rest { invalid = m ∷ rest.invalid }
    else record rest { common = m ∷ rest.common }

unfoldable pub missing_common_run_mixins : List String → List String → List String
unfolding select present
missing_common_run_mixins build run = select (λ m. not (present run m)) build

-- An error with the list of what is wrong, unless it is empty.
abbrev pub none_wrong : String → List String → Check
none_wrong text [] = ok tt
none_wrong text (m ∷ ms) = err (plain (text <> join ", " (m ∷ ms)))

unfoldable pub mixins_of : List String → List String → Result (List String)
unfolding classify_mixins missing_common_run_mixins join
mixins_of build run = do
  let of_build = classify_mixins build "build:" "run:"
  build_valid ← none_wrong "build image contains run-only mixin(s): " of_build.invalid
  let of_run = classify_mixins run "run:" "build:"
  run_valid ← none_wrong "run image contains build-only mixin(s): " of_run.invalid
  covered ←
      none_wrong "runImage missing required mixin(s): "
        (missing_common_run_mixins of_build.common of_run.common)
  ok (of_build.common ++ (of_build.valid ++ of_run.valid))

module _ (R : ImageReads) where
  open R use {Image}

  unfoldable pub validate_stack_id : String → Image → Image → Check
  unfolding get_string_label
  validate_stack_id id build_image run_image = do
    build_stack ← get_string_label R build_image stack_label
    run_stack ← get_string_label R run_image stack_label
    if not (build_stack == id) || not (run_stack == id)
        then err (
            plain (
              "invalid stack images. expected stack: " <> id <> ", build image stack: "
              <> build_stack <> ", run image stack: " <> run_stack))
        else ok tt

  unfoldable pub read_mixins : Image → Result (List String)
  unfolding has_label get_label
  read_mixins image = do
    labelled ← has_label R image mixins_label
    if labelled then get_label R R.decode_mixins image mixins_label else ok []

  unfoldable pub parse_cnb_id : Image → String → Result ℤ
  unfolding get_env parse_int
  parse_cnb_id image env = get_env R image env >>= λ v. elim (parse_int v) [
    | none ↦ labelled ("env " <> env) (err (R.invalid_number v))
    | some id ↦ ok id
  ]

  -- `RemoteStackReader.Read`.
  unfoldable pub read_stack : R.Keychain → ClusterStackSpec → Result ResolvedClusterStack
  unfolding validate_stack_id parse_cnb_id read_mixins mixins_of
  read_stack keychain spec = do
    build_image ← R.fetch keychain spec.build_image
    run_image ← R.fetch keychain spec.run_image
    valid ← validate_stack_id spec.id build_image.0 run_image.0
    user_id ← labelled "validating build image" (parse_cnb_id build_image.0 "CNB_USER_ID")
    group_id ← labelled "validating build image" (parse_cnb_id build_image.0 "CNB_GROUP_ID")
    build_mixins ← read_mixins build_image.0
    run_mixins ← read_mixins run_image.0
    mixins ← mixins_of build_mixins run_mixins
    ok (record {
      id = spec.id;
      build_image = record { latest_image = build_image.1; image = spec.build_image };
      run_image = record { latest_image = run_image.1; image = spec.run_image };
      mixins = mixins;
      user_id = user_id;
      group_id = group_id;
    })
