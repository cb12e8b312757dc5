-- ===== src/Tests/BuilderImages.antt =====
-- The assembly of a builder image at a concrete builder.
use kpack.Prelude.{
  pos, ◌≡◌, refl, String, Bool, false, List, [], ◌∷◌, ◌++◌, Result, ok, err, In, In-append_right,
  subst, ok_injective,
}
use kpack.Cnb.Fetcher.{BuildpackLayer, DescriptiveBuildpackInfo}
use kpack.Cnb.Support.{relaxed_mixin_contract}
use kpack.Cnb.Support.Supported.{IsSupported}
use kpack.Cnb.Imaging.{Imaging, RemoteBuildpackRef}
use kpack.Cnb.BuilderImage.{BuilderBlder, add_group, writeable_image}
use kpack.Cnb.BuilderImage.Valid.{KeepsLayers, platform_apis, buildpack_apis, writeable_image_sound}
use kpack.Tests.Buildpacks.{semver, layer_info}

-- A layer is its hash, an image the list of its layers.
abbrev pub imaging : Imaging
imaging = record {
  Image = List String;
  Layer = String;
  nil_image = [];
  nil_layer = "";
  config_file = λ i. ok (record { os = "linux"; architecture = "amd64"; variant = "" });
  manifest_layers = λ i. ok i;
  layer_by_digest = λ i digest. ok digest;
  size = λ l. pos 10;
  diff_id = λ l. ok l;
  dirs_layer = λ dirs. ok "dirs";
  file_layer = λ path contents. ok path;
  run_image_toml = λ s. ok s;
  order_toml = λ o. ok "order";
  append_layers = λ i ls. ok (i ++ ls);
  set_working_dir = λ i dir. ok i;
  set_string_label = λ i key value. ok i;
  set_string_labels = λ i labels. ok i;
  set_labels = λ i labels. ok i;
}

abbrev pub jdk_info : DescriptiveBuildpackInfo
jdk_info = record { id = "jdk"; version = "2"; homepage = "" }

abbrev pub jdk_layer : BuildpackLayer String
jdk_layer = record {
  v1_layer = "sha256:1";
  buildpack_info = jdk_info;
  buildpack_layer_info = layer_info;
}

abbrev jdk_ref : RemoteBuildpackRef String
jdk_ref = record {
  descriptive_buildpack_info = jdk_info;
  optional = false;
  layers = jdk_layer ∷ [];
}

abbrev empty : BuilderBlder imaging
empty = record {
  base_image = "base" ∷ [];
  lifecycle_layer = "lifecycle";
  lifecycle_metadata = record {
    version = "0.17";
    buildpack_version = "";
    platform_version = "";
    buildpack = record { deprecated = []; supported = "0.9" ∷ [] };
    platform = record { deprecated = []; supported = "0.7" ∷ [] };
  };
  stack_id = "bionic";
  order = [];
  buildpack_layers = [];
  cnb_user_id = pos 1000;
  cnb_group_id = pos 1000;
  kpack_version = "1";
  run_image = "run";
  mixins = "curl" ∷ "git" ∷ [];
  os = "linux";
  arch = "amd64";
  arch_variant = "";
  additional_labels = [];
}

abbrev builder : BuilderBlder imaging
unfolding add_group
builder = add_group imaging empty (jdk_ref ∷ [])

abbrev image_of : Result (List String) → List String
image_of (ok i) = i
image_of (err e) = []

keeps_layers : KeepsLayers imaging (λ i l. In l i)
keeps_layers = record {
  append_holds = λ i j ls l e m. subst (In l) (ok_injective e) (In-append_right l i ls m);
  working_dir_holds = λ i j dir l e m. subst (In l) (ok_injective e) m;
  string_label_holds = λ i j key value l e m. subst (In l) (ok_injective e) m;
  string_labels_holds = λ i j labels l e m. subst (In l) (ok_injective e) m;
  labels_holds = λ i j labels l e m. subst (In l) (ok_injective e) m;
}

writeable_image_sound_example :
    ((relaxed : Bool) × (relaxed_mixin_contract semver 5 7 (platform_apis imaging builder)
        ≡ ok relaxed)
      × IsSupported semver 5 layer_info
          (buildpack_apis imaging builder)
          "bionic"
          ("curl" ∷ "git" ∷ [])
          relaxed)
    × ((k : String) × In k (image_of (writeable_image imaging semver 5 7 builder))
        × (◌≡◌ {A = Result String} (ok k) (ok "sha256:1")))
unfolding writeable_image builder
writeable_image_sound_example =
    writeable_image_sound imaging semver 5 7 builder
      (image_of (writeable_image imaging semver 5 7 builder)) jdk_info jdk_layer "sha256:1"
      (λ i l. In l i) keeps_layers refl refl refl
