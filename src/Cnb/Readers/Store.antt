-- ===== src/Cnb/Readers/Store.antt =====
-- remote_store_reader.go: the buildpacks of the images of a store. One goroutine reads each image
-- and sends what it finds; the caller receives the statuses in some order and sorts them.
pub mod Arrivals
use Prim.Native.String.{compare}
use text.Mathlib.Text.{is_lt}
use kpack.Prelude.Sorting.{sort}
use kpack.Prelude.{
  ◌>>=◌, String, Bool, List, [], ◌∷◌, ◌++◌, map, Option, none, some, if◌then◌else◌, ◌==◌, ◌<>◌,
  Result, ok, err, Error,
}
use kpack.Cnb.BuilderParts.{labelled}
use kpack.Cnb.Fetcher.{BuildpackLayerInfo}
use kpack.Cnb.Resources.{BuildpackStatus, BuildpackageInfo}
use kpack.Cnb.Readers.{ImageReads, LayerVersions, LayerMetadata, has_label, get_label}

abbrev pub buildpackage_metadata_label : String
buildpackage_metadata_label = "io.buildpacks.buildpackage.metadata"

abbrev pub buildpack_layers_label : String
buildpack_layers_label = "io.buildpacks.buildpack.layers"

-- `BuildpackInfo.String`.
unfoldable pub status_string : BuildpackStatus → String
status_string b = b.id <> "@" <> b.version

unfoldable pub less_status : BuildpackStatus → BuildpackStatus → Bool
unfolding status_string
less_status a b =
    if status_string a == status_string b
    then is_lt (compare a.store_image b.store_image)
    else is_lt (compare (status_string a) (status_string b))

-- What a goroutine sends before it ends, and the error that it ends with.
abbrev pub Sent : Type 0
Sent = List BuildpackStatus × Option Error

module _ (R : ImageReads) where
  open R use {Image, Keychain}

  unfoldable pub status_of :
      Image
      → String
      → BuildpackageInfo
      → String
      → String
      → BuildpackLayerInfo
      → Result BuildpackStatus
  status_of image store_image package_info id version metadata =
      let name = id <> "@" <> version in
      do
        diff_id ←
            labelled ("unable to parse layer diffId for " <> name)
              (R.new_hash metadata.layer_diff_id)
        layer ← labelled ("unable to get layer " <> name) (R.layer_by_diff_id image diff_id)
        size ← labelled ("unable to get layer " <> name <> " size") (R.size layer)
        digest ← labelled ("unable to get layer " <> name <> " digest") (R.digest layer)
        ok (record {
          id = id;
          version = version;
          buildpackage = package_info;
          store_image = store_image;
          diff_id = metadata.layer_diff_id;
          digest = digest;
          size = size;
          api = metadata.api;
          homepage = metadata.homepage;
          order = metadata.order;
          stacks = metadata.stacks;
        })

  -- The two nested loops over the label, which stop at the first error.
  unfoldable pub send_versions : Image → String → BuildpackageInfo → String → LayerVersions → Sent
  unfolding status_of
  send_versions image store_image package_info id [] = ([], none)
  send_versions image store_image package_info id (v ∷ vs) =
      let rest = send_versions image store_image package_info id vs in
      elim (status_of image store_image package_info id v.0 v.1) [
        | err e ↦ ([], some e)
        | ok status ↦ (status ∷ rest.0, rest.1)
      ]

  unfoldable pub send_layers : Image → String → BuildpackageInfo → LayerMetadata → Sent
  unfolding send_versions
  send_layers image store_image package_info [] = ([], none)
  send_layers image store_image package_info (b ∷ bs) =
      let first = send_versions image store_image package_info b.0 b.1 in
      let rest = send_layers image store_image package_info bs in
      elim first.1 [ some e ↦ first | none ↦ (first.0 ++ rest.0, rest.1) ]

  abbrev no_package : BuildpackageInfo
  no_package = record { id = ""; version = ""; homepage = "" }

  unfoldable pub package_of : Image → Result BuildpackageInfo
  unfolding has_label get_label
  package_of image = do
    present ← has_label R image buildpackage_metadata_label
    if present
        then get_label R R.decode_buildpackage image buildpackage_metadata_label
        else ok no_package

  -- A goroutine, for one image of the store.
  unfoldable pub read_image : Keychain → String → Sent
  unfolding package_of get_label send_layers
  read_image keychain store_image = elim (R.fetch keychain store_image) [
    | err e ↦ ([], some e)
    | ok fetched ↦ elim (package_of fetched.0) [
      | err e ↦ ([], some e)
      | ok package_info ↦ elim (get_label R R.decode_layers fetched.0 buildpack_layers_label) [
        | err e ↦ ([], some e)
        | ok layers ↦ send_layers fetched.0 store_image package_info layers
      ]
    ]
  ]

  unfoldable pub sent_by : Keychain → List String → List Sent
  unfolding read_image
  sent_by keychain [] = []
  sent_by keychain (i ∷ is) = read_image keychain i ∷ sent_by keychain is

-- Go's scheduler: the order in which the channel is filled, and the error that comes first.
pub record Scheduler : Type 0 where
  pub received : List (List BuildpackStatus) → List BuildpackStatus
  pub first_failure : Error → List Error → Error

unfoldable pub failures : List Sent → List Error
failures [] = []
failures (s ∷ ss) = let rest = failures ss in elim s.1 [ none ↦ rest | some e ↦ e ∷ rest ]

module _ (R : ImageReads) (G : Scheduler) where
  -- `RemoteBuildpackReader.Read`. With an error, the code's callers do not look at the statuses.
  unfoldable pub read_store : R.Keychain → List String → Result (List BuildpackStatus)
  unfolding sent_by failures less_status sort
  read_store keychain images =
      let sent = sent_by R keychain images in
      elim (failures sent) [
        | [] ↦ ok (sort less_status (G.received (map (λ s. s.0) sent)))
        | e ∷ es ↦ err (G.first_failure e es)
      ]
