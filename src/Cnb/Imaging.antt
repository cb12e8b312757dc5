-- ===== src/Cnb/Imaging.antt =====
-- What the assembly of a builder image takes from the libraries of images, and the labels it writes.
use kpack.Prelude.{ℤ, String, Bool, ◌&&◌, List, [], Option, ◌==◌, Result}
use kpack.Api.Meta.{StringMap}
use kpack.Cnb.Resources.{BuildpackRef, OrderEntry}
use kpack.Cnb.Fetcher.{BuildpackLayer, BuildpackLayerInfo, DescriptiveBuildpackInfo}

pub record ApiVersions : Type 0 where
  pub deprecated : List String
  pub supported : List String

pub record LifecycleMetadata : Type 0 where
  pub version : String
  pub buildpack_version : String
  pub platform_version : String
  pub buildpack : ApiVersions
  pub platform : ApiVersions

pub record RemoteBuildpackRef (Layer : Type 0) : Type 0 where
  pub descriptive_buildpack_info : DescriptiveBuildpackInfo
  pub optional : Bool
  pub layers : List (BuildpackLayer Layer)

-- What the code reads of an image's configuration.
pub record ConfigFile : Type 0 where
  pub os : String
  pub architecture : String
  pub variant : String

-- A directory of the first layer: its path and its owner.
pub record Dir : Type 0 where
  pub path : String
  pub uid : ℤ
  pub gid : ℤ

-- The map from an id and a version to what the label says of the layer.
abbrev pub BuildpackLayerMetadata : Type 0
BuildpackLayerMetadata = String → String → Option BuildpackLayerInfo

pub record BuilderLabels : Type 0 where
  pub order : List OrderEntry
  pub layers : BuildpackLayerMetadata
  pub lifecycle : LifecycleMetadata
  pub run_image : String
  pub kpack_version : String
  pub buildpacks : List DescriptiveBuildpackInfo

-- The image libraries: layers and images of a registry, tar archives and TOML. `size` is the number
-- that comes back whether or not there is an error beside it. A configuration or a manifest that
-- comes without an error is not nil; of a manifest the code reads the digests of the layers.
pub record Imaging : Type 1 where
  pub Image : Type 0
  pub Layer : Type 0
  pub nil_image : Image
  pub nil_layer : Layer
  pub config_file : Image → Result ConfigFile
  pub manifest_layers : Image → Result (List String)
  pub layer_by_digest : Image → String → Result Layer
  pub size : Layer → ℤ
  pub diff_id : Layer → Result String
  pub dirs_layer : List Dir → Result Layer
  pub file_layer : String → String → Result Layer
  pub run_image_toml : String → Result String
  pub order_toml : List (List BuildpackRef) → Result String
  pub append_layers : Image → List Layer → Result Image
  pub set_working_dir : Image → String → Result Image
  pub set_string_label : Image → String → String → Result Image
  pub set_string_labels : Image → StringMap → Result Image
  pub set_labels : Image → BuilderLabels → Result Image

-- Equality of the keys of the map, field by field.
abbrev pub same_info : DescriptiveBuildpackInfo → DescriptiveBuildpackInfo → Bool
same_info a b = a.id == b.id && (a.version == b.version && a.homepage == b.homepage)

abbrev pub no_layer_info : BuildpackLayerInfo
no_layer_info = record { api = ""; layer_diff_id = ""; order = []; stacks = []; homepage = "" }
