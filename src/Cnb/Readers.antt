-- ===== src/Cnb/Readers.antt =====
-- pkg/registry/imagehelpers/helpers.go: what is read of the configuration of an image. The child
-- modules are the readers of pkg/cnb: remote_lifecycle_reader.go, remote_stack_reader.go and
-- remote_store_reader.go.
pub mod Lifecycle
pub mod Stack
pub mod Store
use Prim.Native.String.{len, slice}
use text.Mathlib.Text.{find?}
use kpack.Prelude.{
  ◌>>=◌, ◌+◌, ℕ, ℤ, String, Bool, List, [], ◌∷◌, Option, none, some, if◌then◌else◌, ◌==◌, ◌<>◌,
  is_some, Result, ok, err, Error, plain, panicked,
}
use kpack.Api.Meta.{StringMap, get}
use kpack.Cnb.Imaging.{ApiVersions, LifecycleMetadata}
use kpack.Cnb.BuilderParts.{labelled}
use kpack.Cnb.Fetcher.{BuildpackLayerInfo}
use kpack.Cnb.Resources.{BuildpackageInfo}

-- The `Config` of an image's configuration, as far as it is read here.
pub record ImageConfig : Type 0 where
  pub env : List String
  pub labels : StringMap

pub record LifecycleDescriptor : Type 0 where
  pub version : String
  pub buildpack_version : String
  pub platform_version : String

pub record LifecycleApis : Type 0 where
  pub buildpack : ApiVersions
  pub platform : ApiVersions

-- The versions of an id and the ids of the label, in the order of the iterations over the maps.
abbrev pub LayerVersions : Type 0
LayerVersions = List (String × BuildpackLayerInfo)

abbrev pub LayerMetadata : Type 0
LayerMetadata = List (String × LayerVersions)

-- The registry client and the image library. The `decode` functions are `json.Unmarshal` at the
-- types of the labels; `new_hash` is the parsing of a hash; `invalid_number` is the error of
-- `strconv.Atoi`.
pub record ImageReads : Type 1 where
  pub Keychain : Type 0
  pub Image : Type 0
  pub Layer : Type 0
  pub fetch : Keychain → String → Result (Image × String)
  pub config_file : Image → Result (Option ImageConfig)
  pub decode_lifecycle : String → Result LifecycleDescriptor
  pub decode_apis : String → Result LifecycleApis
  pub decode_mixins : String → Result (List String)
  pub decode_buildpackage : String → Result BuildpackageInfo
  pub decode_layers : String → Result LayerMetadata
  pub new_hash : String → Result String
  pub layer_by_diff_id : Image → String → Result Layer
  pub size : Layer → Result ℤ
  pub digest : Layer → Result String
  pub invalid_number : String → Error

-- `strings.Split(s, "=")`: its first part, and its second one if there is one.
abbrev pub from_equals : String → ℕ → String
from_equals s i = slice s (i + 1) (len s)

abbrev pub up_to_equals : String → String
up_to_equals s = elim (find? s "=") [ none ↦ s | some i ↦ slice s 0 i ]

abbrev pub second_part : String → Result String
second_part s = elim (find? s "=") [
  | none ↦ err (panicked "index out of range")
  | some i ↦ ok (up_to_equals (from_equals s i))
]

unfoldable pub env_value : String → List String → Result String
env_value key [] = err (plain ("ENV " <> key <> " not found"))
env_value key (v ∷ vs) =
    let rest = env_value key vs in if up_to_equals v == key then second_part v else rest

module _ (R : ImageReads) where
  open R use {Image}

  unfoldable pub config_of : Image → Result ImageConfig
  config_of image = do
    config ← labelled "failed to get image config" (R.config_file image)
    elim config [ none ↦ err (plain "got nil image config") | some c ↦ ok c ]

  unfoldable pub get_env : Image → String → Result String
  unfolding config_of env_value
  get_env image key = config_of image >>= λ c. env_value key c.env

  unfoldable pub has_label : Image → String → Result Bool
  unfolding config_of get
  has_label image key = config_of image >>= λ c. ok (is_some (get key c.labels))

  unfoldable pub get_string_label : Image → String → Result String
  unfolding config_of get
  get_string_label image key = config_of image >>= λ c. elim (get key c.labels) [
    | none ↦ err (plain ("could not find label " <> key))
    | some value ↦ ok value
  ]

  -- `GetLabel`, which decodes the label into a value of its type.
  unfoldable pub get_label : {A : Type 0} → (String → Result A) → Image → String → Result A
  unfolding get_string_label
  get_label decode image key = get_string_label image key >>= decode
