-- ===== src/Cnb/Resolver.antt =====
-- buildpack_resolver.go: from a reference in a builder's order to a buildpack of the store, of a
-- Buildpack or of a ClusterBuildpack. `n` is the fuel of the dependency trees.
pub mod Found
pub mod Highest
pub mod Meaning
pub mod Resolves
use kpack.Prelude.Sorting.{sort}
use kpack.Prelude.Outcome.{Outcome, returns, fails, ◌>>=◌, of_result}
use kpack.Prelude.{
  ℕ, String, Bool, true, false, ◌&&◌, not, List, [], ◌∷◌, ◌++◌, map, Option, none, some,
  if◌then◌else◌, ◌==◌, ◌<>◌, length, select, find, last?, Result, ok, err, Error, plain, panicked,
  pos,
}
use kpack.Prelude.Decimal.{itoa}
use kpack.Api.Meta.{ObjectMeta, ObjectReference}
use kpack.Cnb.Resources.{
  BuildpackStatus, Buildpack, ClusterBuildpack, ClusterStore, SecretRef, K8sRemoteBuildpack,
  BuilderBuildpackRef,
}
use kpack.Cnb.DependencyTree.{Node, root, new_tree}

abbrev pub buildpack_kind : String
buildpack_kind = "Buildpack"

abbrev pub cluster_buildpack_kind : String
cluster_buildpack_kind = "ClusterBuildpack"

-- The library Masterminds/semver: parsing, the error of a text that does not parse, `LessThan`, and
-- `Compare` answering at least 0.
pub record Semver : Type 1 where
  pub Version : Type 0
  pub new_version : String → Option Version
  pub invalid : String → Error
  pub less_than : Version → Version → Bool
  pub at_least : Version → Version → Bool

pub record BuildpackResolver : Type 0 where
  pub cluster_store : Option ClusterStore
  pub buildpacks : List Buildpack
  pub cluster_buildpacks : List ClusterBuildpack

unfoldable pub cluster_store_observed_generation : BuildpackResolver → ℕ
cluster_store_observed_generation r = elim r.cluster_store [
  | none ↦ 0
  | some s ↦ s.status.observed_generation
]

abbrev pub object_of : String → ObjectMeta → ObjectReference
object_of kind meta = record { kind = kind; name = meta.name; namespace = meta.namespace }

-- The secrets of a namespaced buildpack are those of its service account.
abbrev pub secret_of_buildpack : Buildpack → SecretRef
secret_of_buildpack bp = record {
  service_account = bp.service_account_name;
  namespace = bp.meta.namespace;
  image_pull_secrets = [];
}

abbrev pub secret_of_account : Option ObjectReference → SecretRef
secret_of_account none = record { service_account = ""; namespace = ""; image_pull_secrets = [] }
secret_of_account (some account) = record {
  service_account = account.name;
  namespace = account.namespace;
  image_pull_secrets = [];
}

-- What one offer of a resource resolves to.
abbrev pub from_buildpack : Buildpack → BuildpackStatus → K8sRemoteBuildpack
from_buildpack bp status = record {
  buildpack = status;
  secret_ref = secret_of_buildpack bp;
  source = object_of bp.kind bp.meta;
}

abbrev pub from_cluster_buildpack : ClusterBuildpack → BuildpackStatus → K8sRemoteBuildpack
from_cluster_buildpack cbp status = record {
  buildpack = status;
  secret_ref = secret_of_account cbp.service_account_ref;
  source = object_of cbp.kind cbp.meta;
}

abbrev pub from_cluster_store : ClusterStore → BuildpackStatus → K8sRemoteBuildpack
from_cluster_store store status = record {
  buildpack = status;
  secret_ref = secret_of_account store.service_account_ref;
  source = object_of store.kind store.meta;
}

abbrev pub has_id : String → BuildpackStatus → Bool
has_id id status = status.id == id

unfoldable pub resolve_from_buildpack : String → List Buildpack → List K8sRemoteBuildpack
unfolding select
resolve_from_buildpack id [] = []
resolve_from_buildpack id (bp ∷ bps) =
    map (from_buildpack bp) (select (has_id id) bp.buildpacks) ++ resolve_from_buildpack id bps

unfoldable pub resolve_from_cluster_buildpack :
    String → List ClusterBuildpack → List K8sRemoteBuildpack
unfolding select
resolve_from_cluster_buildpack id [] = []
resolve_from_cluster_buildpack id (cbp ∷ cbps) =
    map (from_cluster_buildpack cbp) (select (has_id id) cbp.buildpacks)
    ++ resolve_from_cluster_buildpack id cbps

unfoldable pub resolve_from_cluster_store : String → Option ClusterStore → List K8sRemoteBuildpack
unfolding select
resolve_from_cluster_store id none = []
resolve_from_cluster_store id (some store) =
    map (from_cluster_store store) (select (has_id id) store.buildpacks)

unfoldable pub find_buildpack : String → List Buildpack → Option Buildpack
unfolding find
find_buildpack name = find (λ bp. bp.meta.name == name)

unfoldable pub find_cluster_buildpack : String → List ClusterBuildpack → Option ClusterBuildpack
unfolding find
find_cluster_buildpack name = find (λ cbp. cbp.meta.name == name)

-- All that the three kinds of resource offer under an id, in the order of the appends.
unfoldable pub resolve_everywhere : BuildpackResolver → String → List K8sRemoteBuildpack
unfolding resolve_from_buildpack resolve_from_cluster_buildpack resolve_from_cluster_store
resolve_everywhere r id =
    resolve_from_buildpack id r.buildpacks
    ++ (resolve_from_cluster_buildpack id r.cluster_buildpacks
        ++ resolve_from_cluster_store id r.cluster_store)

-- The one root of the trees, or the error with their number.
unfoldable pub only_root : List Node → Result BuildpackStatus
unfolding root
only_root [] = err (plain "unexpected number of root buildpacks: 0")
only_root (t ∷ []) = ok (root t)
only_root (t ∷ u ∷ ts) =
    err (plain ("unexpected number of root buildpacks: " <> itoa (pos (length (t ∷ u ∷ ts)))))

unfoldable pub root_of :
    ℕ → (BuildpackStatus → K8sRemoteBuildpack) → List BuildpackStatus → Outcome K8sRemoteBuildpack
unfolding new_tree only_root
root_of n offer statuses = do
  trees ← new_tree n statuses
  status ← of_result (only_root trees)
  returns (offer status)

unfoldable pub resolve_from_object_reference :
    ℕ → BuildpackResolver → ObjectReference → Outcome K8sRemoteBuildpack
unfolding find_buildpack find_cluster_buildpack root_of
resolve_from_object_reference n r ref =
    if ref.kind == buildpack_kind
    then elim (find_buildpack ref.name r.buildpacks) [
      | none ↦ fails (plain ("no buildpack with name '" <> ref.name <> "'"))
      | some bp ↦ root_of n (from_buildpack bp) bp.buildpacks
    ]
    else if ref.kind == cluster_buildpack_kind
    then elim (find_cluster_buildpack ref.name r.cluster_buildpacks) [
      | none ↦ fails (plain ("no cluster buildpack with name '" <> ref.name <> "'"))
      | some cbp ↦ root_of n (from_cluster_buildpack cbp) cbp.buildpacks
    ]
    else fails (plain "kind must be either Buildpack or ClusterBuildpack")

abbrev one : Outcome K8sRemoteBuildpack → Outcome (List K8sRemoteBuildpack)
one m = m >>= λ b. returns (b ∷ [])

-- The switch of `resolve`: the buildpacks that the reference may mean.
unfoldable pub matching_buildpacks :
    ℕ → BuildpackResolver → BuilderBuildpackRef → Outcome (List K8sRemoteBuildpack)
unfolding find_buildpack find_cluster_buildpack resolve_from_buildpack
    resolve_from_cluster_buildpack resolve_from_object_reference resolve_everywhere
matching_buildpacks n r ref =
    if ref.object.kind == buildpack_kind && not (ref.id == "")
    then elim (find_buildpack ref.object.name r.buildpacks) [
      | none ↦ fails (plain ("buildpack not found: " <> ref.object.name))
      | some bp ↦ returns (resolve_from_buildpack ref.id (bp ∷ []))
    ]
    else if ref.object.kind == cluster_buildpack_kind && not (ref.id == "")
    then elim (find_cluster_buildpack ref.object.name r.cluster_buildpacks) [
      | none ↦ fails (plain ("cluster buildpack not found: " <> ref.object.name))
      | some cbp ↦ returns (resolve_from_cluster_buildpack ref.id (cbp ∷ []))
    ]
    else if not (ref.object.kind == "")
    then one (resolve_from_object_reference n r ref.object)
    else if not (ref.id == "")
    then returns (resolve_everywhere r ref.id)
    else if not (ref.image == "")
    then fails (plain "using images in builders not currently supported")
    else fails (plain "invalid buildpack reference")

module _ (S : Semver) where
  open S use {Version, new_version, less_than}

  -- The check of all versions: each buildpack with its version, or the first that is none.
  unfoldable pub parsed : List K8sRemoteBuildpack → Result (List (Version × K8sRemoteBuildpack))
  parsed [] = ok []
  parsed (b ∷ bs) =
      let rest = parsed bs in
      elim (new_version b.buildpack.version) [
        | none ↦ err (
            plain (
              "cannot find buildpack '" <> b.buildpack.id
              <> "' with latest version due to invalid semver '" <> b.buildpack.version <> "'"))
        | some v ↦ elim rest [ ok vs ↦ ok ((v, b) ∷ vs) | err e ↦ err e ]
      ]

  abbrev pub less_version : Version × K8sRemoteBuildpack → Version × K8sRemoteBuildpack → Bool
  less_version a b = less_than a.0 b.0

  -- The last of the sorted slice; on an empty slice the index panics.
  unfoldable pub greatest : List (Version × K8sRemoteBuildpack) → Result K8sRemoteBuildpack
  unfolding sort last?
  greatest vs = elim (last? (sort less_version vs)) [
    | none ↦ err (panicked "index out of range")
    | some v ↦ ok v.1
  ]

  unfoldable pub highest_version : List K8sRemoteBuildpack → Result K8sRemoteBuildpack
  unfolding parsed greatest
  highest_version bs = elim (parsed bs) [ ok vs ↦ greatest vs | err e ↦ err e ]

  -- The choice among the matching buildpacks.
  unfoldable pub choose : String → String → List K8sRemoteBuildpack → Result K8sRemoteBuildpack
  unfolding highest_version find
  choose id version [] = err (plain ("could not find buildpack with id '" <> id <> "'"))
  choose id version (b ∷ bs) =
      if version == ""
      then highest_version (b ∷ bs)
      else elim (find (λ c. c.buildpack.version == version) (b ∷ bs)) [
        | some c ↦ ok c
        | none ↦ err (
            plain
              ("could not find buildpack with id '" <> id <> "' and version '" <> version <> "'"))
      ]

  unfoldable pub resolve : ℕ → BuildpackResolver → BuilderBuildpackRef → Outcome K8sRemoteBuildpack
  unfolding matching_buildpacks choose
  resolve n r ref = do
    matching ← matching_buildpacks n r ref
    of_result (choose ref.id ref.version matching)
