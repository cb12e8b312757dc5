-- ===== src/Tests/Buildpacks.antt =====
-- pkg/cnb at concrete stores.
use kpack.Prelude.Outcome.{Outcome, returns}
use kpack.Prelude.{
  ℕ, pos, ◌≡◌, ◌≢◌, ◌<◌, ◌⊎◌, inl, inr, refl, subst, sym, String, Bool, true, false, List, [], ◌∷◌,
  Option, none, some, ok, plain, if◌then◌else◌, ◌==◌, ltb, leb, In, All, map, arith, ne_of_eq_false,
}
use kpack.Cnb.Resources.{
  BuildpackRef, OrderEntry, BuildpackStatus, ClusterStore, K8sRemoteBuildpack, BuilderBuildpackRef,
  order_refs,
}
use kpack.Cnb.DependencyTree.{Node, new_tree, lookup, unused_buildpacks, children_of}
use kpack.Cnb.DependencyTree.Acyclic.{
  AreTrees, IsCyclic, lookup-IsRanked, new_tree_complete, new_tree-cyclic,
}
use kpack.Cnb.Resolver.{Semver, BuildpackResolver, from_cluster_store, resolve}
use kpack.Cnb.Resolver.Found.{by_cluster_store}
use kpack.Cnb.Resolver.Highest.{IsPrecedence}
use kpack.Cnb.Resolver.Meaning.{IsMeant}
use kpack.Cnb.Resolver.Resolves.{resolve-IsMeant, resolve-total, resolve-IsHighest}
use kpack.Cnb.Fetcher.{
  Registry, RemoteBuildpackInfo, BuildpackLayerInfo, DescriptiveBuildpackInfo, own_layer, fetch,
  reference_to, layer_for_buildpack,
}
use kpack.Cnb.Fetcher.Closed.{
  itself, onward, Requires, by_reference, IsServed, IsOrdered, fetch-Reaches, fetch-total,
}
use kpack.Cnb.Support.{relaxed_mixin_contract, validate_buildpacks}
use kpack.Cnb.Support.Supported.{IsSupported, validate_buildpacks_sound}

abbrev pub version_of : String → Option ℕ
version_of s =
    if s == "1"
    then some 10
    else if s == "2"
    then some 20
    else if s == "0.7"
    then some 7
    else if s == "0.9"
    then some 9
    else none

abbrev pub semver : Semver
semver = record {
  Version = ℕ;
  new_version = version_of;
  invalid = λ s. plain s;
  less_than = ltb;
  at_least = λ a b. leb b a;
}

ltb-false_of_ltb : (a b : ℕ) → ltb a b ≡ true → ltb b a ≡ false
ltb-false_of_ltb a b h = ground arith

ltb-false_trans : (a b c : ℕ) → ltb b a ≡ false → ltb c b ≡ false → ltb c a ≡ false
ltb-false_trans a b c h k = ground arith

semver-IsPrecedence : IsPrecedence semver
semver-IsPrecedence = record { asymmetric = ltb-false_of_ltb; not-less_trans = ltb-false_trans }

abbrev entry_of : List BuildpackRef → List OrderEntry
entry_of [] = []
entry_of (r ∷ rs) = record { group = r ∷ rs } ∷ []

abbrev ref_to : String → String → BuildpackRef
ref_to id version = record { id = id; version = version; optional = false }

abbrev status_of : String → String → List BuildpackRef → BuildpackStatus
status_of id version refs = record {
  id = id;
  version = version;
  buildpackage = record { id = id; version = version; homepage = "" };
  store_image = "registry/store";
  diff_id = "sha256:1";
  digest = "sha256:2";
  size = pos 10;
  api = "0.9";
  homepage = "";
  order = entry_of refs;
  stacks = record { id = "bionic"; mixins = "curl" ∷ [] } ∷ [];
}

abbrev jdk_old : BuildpackStatus
jdk_old = status_of "jdk" "1" []

abbrev jdk : BuildpackStatus
jdk = status_of "jdk" "2" []

abbrev java : BuildpackStatus
java = status_of "java" "1" (ref_to "jdk" "2" ∷ [])

abbrev loop : BuildpackStatus
loop = status_of "loop" "1" (ref_to "loop" "1" ∷ [])

abbrev entrance : BuildpackStatus
entrance = status_of "entrance" "1" (ref_to "loop" "1" ∷ [])

abbrev store_with : List BuildpackStatus → ClusterStore
store_with bs = record {
  kind = "ClusterStore";
  meta = record {
    name = "default";
    namespace = "";
    uid = "";
    controller = none;
    labels = [];
    annotations = [];
    generation = 1;
    creation_timestamp = none;
  };
  sources = "store-image" ∷ [];
  service_account_ref = none;
  status = record { observed_generation = 1; conditions = [] };
  buildpacks = bs;
}

abbrev pub store : ClusterStore
store = store_with (jdk_old ∷ jdk ∷ java ∷ loop ∷ [])

abbrev pub resolver : BuildpackResolver
resolver = record { cluster_store = some store; buildpacks = []; cluster_buildpacks = [] }

abbrev by_id_and_version : String → String → BuilderBuildpackRef
by_id_and_version id version = reference_to (ref_to id version)

abbrev offered : BuildpackStatus → K8sRemoteBuildpack
offered = from_cluster_store store

resolve-IsMeant_example :
    IsMeant resolver (by_id_and_version "jdk" "1") (offered jdk_old)
    × ((jdk_old.version ≡ "") ⊎ (jdk_old.version ≡ jdk_old.version))
unfolding resolve
resolve-IsMeant_example =
    resolve-IsMeant semver 0 resolver (by_id_and_version "jdk" "1") (offered jdk_old)
      (ne_of_eq_false "jdk" "" refl) refl

resolve-total_example :
    (b : K8sRemoteBuildpack) × (resolve semver 0 resolver (by_id_and_version "jdk" "1") ≡ returns b)
resolve-total_example =
    resolve-total semver 0 resolver (by_id_and_version "jdk" "1") (offered jdk_old)
      (ne_of_eq_false "jdk" "" refl) (ne_of_eq_false "1" "" refl) refl
      (by_cluster_store store jdk_old refl (inl refl) refl) refl refl

resolve-IsHighest_example : (v : ℕ) × (version_of "2" ≡ some v) × (ltb v 10 ≡ false)
unfolding resolve
resolve-IsHighest_example =
    resolve-IsHighest semver 0 resolver (by_id_and_version "jdk" "") (offered jdk) (offered jdk_old)
      10 semver-IsPrecedence (ne_of_eq_false "jdk" "" refl) refl refl refl
      (by_cluster_store store jdk_old refl (inl refl) refl) refl refl

abbrev registry : Registry
registry = record {
  Keychain = String;
  Layer = String;
  keychain_for_secret_ref = λ s. ok s.service_account;
  new_lazy_mountable_layer = λ args. ok args.digest;
}

abbrev info_of : Outcome (RemoteBuildpackInfo String) → RemoteBuildpackInfo String
info_of (returns info) = info
info_of other = record {
  buildpack_info = record { id = ""; version = ""; homepage = "" };
  layers = [];
}

jdk-Requires : Requires registry semver resolver (offered java) (offered jdk)
unfolding resolve order_refs
jdk-Requires = by_reference (ref_to "jdk" "2") (inl refl) refl

fetch-Reaches_example :
    (layer : String) × In
      (own_layer layer jdk)
      (info_of (fetch registry semver resolver 2 (offered java))).layers
unfolding fetch resolve order_refs
fetch-Reaches_example =
    fetch-Reaches registry semver resolver 2 (offered java) (offered jdk)
      (info_of (fetch registry semver resolver 2 (offered java))) refl
      (onward (offered jdk) jdk-Requires (itself refl))

loop-Requires : Requires registry semver resolver (offered loop) (offered loop)
unfolding resolve order_refs
loop-Requires = by_reference (ref_to "loop" "1") (inl refl) refl

abbrev rank : String → ℕ
rank id = if id == "java" then 1 else 0

rank-lt : (id : String) → rank id < 2
rank-lt id = ground arith

abbrev InWorld : K8sRemoteBuildpack → Type 0
InWorld b = (b ≡ offered java) ⊎ (b ≡ offered jdk)

InWorld-closed :
    (c : K8sRemoteBuildpack)
    → InWorld c
    → IsServed registry semver resolver c
      × IsOrdered registry semver resolver InWorld (λ b. rank b.buildpack.id) c
unfolding layer_for_buildpack resolve order_refs
InWorld-closed c (inl same) =
    subst
      (λ x.
        IsServed registry semver resolver x
        × IsOrdered registry semver resolver InWorld (λ b. rank b.buildpack.id) x)
      (sym same)
      (
        ("", "sha256:2", refl, refl),
        λ ref i. elim i [
          | inl at_head ↦ (offered jdk, rw at_head refl, inr refl, omega arith)
          | inr none_left ↦ elim none_left [ ]
        ],
      )
InWorld-closed c (inr same) =
    subst
      (λ x.
        IsServed registry semver resolver x
        × IsOrdered registry semver resolver InWorld (λ b. rank b.buildpack.id) x)
      (sym same) (("", "sha256:2", refl, refl), λ ref i. elim i [ ])

fetch-total_example :
    (info : RemoteBuildpackInfo String) × (fetch registry semver resolver 2 (offered java)
      ≡ returns info)
fetch-total_example =
    fetch-total registry semver resolver InWorld (λ b. rank b.buildpack.id) 2 (offered java)
      InWorld-closed (inl refl) (omega arith)

listed-ranked :
    (b : BuildpackStatus)
    → In b (jdk ∷ java ∷ [])
    → All
        (λ d.
          (rank d < rank b.id) × ((c : BuildpackStatus) × (lookup (jdk ∷ java ∷ []) d ≡ some c)))
        (map (λ r. r.id) (order_refs b.order))
unfolding lookup order_refs
listed-ranked b (inl same) = rw same tt
listed-ranked b (inr (inl same)) = rw same ((omega arith, (jdk, refl)), tt)
listed-ranked b (inr (inr none_left)) = elim none_left [ ]

new_tree_complete_example :
    (ts : List Node) × (new_tree 2 (jdk ∷ java ∷ []) ≡ returns ts)
    × AreTrees (lookup (jdk ∷ java ∷ [])) (unused_buildpacks (jdk ∷ java ∷ [])) (children_of ts)
new_tree_complete_example =
    new_tree_complete 2 (jdk ∷ java ∷ []) rank (λ b i. rank-lt b.id)
      (lookup-IsRanked rank (jdk ∷ java ∷ []) listed-ranked)

abbrev InLoop : String → Type 0
InLoop id = (id ≡ "entrance") ⊎ (id ≡ "loop")

InLoop-IsCyclic : IsCyclic (lookup (entrance ∷ loop ∷ [])) InLoop
unfolding lookup order_refs
InLoop-IsCyclic id (inl same) = (entrance, "loop", rw same refl, inl refl, inr refl)
InLoop-IsCyclic id (inr same) = (loop, "loop", rw same refl, inl refl, inr refl)

new_tree-cyclic_example : new_tree 100 (entrance ∷ loop ∷ []) ≢ returns []
unfolding unused_buildpacks order_refs
new_tree-cyclic_example =
    new_tree-cyclic 100 (entrance ∷ loop ∷ []) [] InLoop "entrance" InLoop-IsCyclic (inl refl)
      (inl refl)

abbrev pub layer_info : BuildpackLayerInfo
layer_info = record {
  api = "0.9";
  layer_diff_id = "sha256:1";
  order = [];
  stacks = record { id = "bionic"; mixins = "curl" ∷ "build:git" ∷ [] } ∷ [];
  homepage = "";
}

abbrev described : DescriptiveBuildpackInfo × BuildpackLayerInfo
described = (record { id = "jdk"; version = "2"; homepage = "" }, layer_info)

validate_buildpacks_sound_example :
    (relaxed : Bool) × (relaxed_mixin_contract semver 5 7 ("0.7" ∷ []) ≡ ok relaxed)
    × IsSupported semver 5 layer_info ("0.9" ∷ []) "bionic" ("curl" ∷ "git" ∷ []) relaxed
unfolding validate_buildpacks
validate_buildpacks_sound_example =
    validate_buildpacks_sound semver 5 7 ("0.7" ∷ []) ("0.9" ∷ []) "bionic" ("curl" ∷ "git" ∷ [])
      (described ∷ []) described refl (inl refl)
