-- ===== src/Cnb/Resources.antt =====
-- What offers buildpacks: pkg/apis/core/v1alpha1/buildpack_types.go and the resources Buildpack,
-- ClusterBuildpack and ClusterStore of pkg/apis/build/v1alpha2.
use kpack.Prelude.{String, Bool, ℤ, List, [], ◌∷◌, ◌++◌, Option}
use kpack.Api.Meta.{ObjectMeta, ObjectReference}
use kpack.Api.Condition.{Status}

pub record BuildpackRef : Type 0 where
  pub id : String
  pub version : String
  pub optional : Bool

pub record OrderEntry : Type 0 where
  pub group : List BuildpackRef

pub record BuildpackStack : Type 0 where
  pub id : String
  pub mixins : List String

pub record BuildpackageInfo : Type 0 where
  pub id : String
  pub version : String
  pub homepage : String

pub record BuildpackStatus : Type 0 where
  pub id : String
  pub version : String
  pub buildpackage : BuildpackageInfo
  pub store_image : String
  pub diff_id : String
  pub digest : String
  pub size : ℤ
  pub api : String
  pub homepage : String
  pub order : List OrderEntry
  pub stacks : List BuildpackStack

-- The references of an order, entry by entry: the two nested loops over `Order` and `Group`.
unfoldable pub order_refs : List OrderEntry → List BuildpackRef
order_refs [] = []
order_refs (e ∷ es) = e.group ++ order_refs es

-- A namespaced Buildpack. `source` is the image of its spec, `buildpacks` the list in its status.
pub record Buildpack : Type 0 where
  pub kind : String
  pub meta : ObjectMeta
  pub source : String
  pub service_account_name : String
  pub status : Status
  pub buildpacks : List BuildpackStatus

pub record ClusterBuildpack : Type 0 where
  pub kind : String
  pub meta : ObjectMeta
  pub source : String
  pub service_account_ref : Option ObjectReference
  pub status : Status
  pub buildpacks : List BuildpackStatus

pub record ClusterStore : Type 0 where
  pub kind : String
  pub meta : ObjectMeta
  pub sources : List String
  pub service_account_ref : Option ObjectReference
  pub status : Status
  pub buildpacks : List BuildpackStatus

-- pkg/registry/keychain_factory.go; the resolver leaves the pull secrets nil.
pub record SecretRef : Type 0 where
  pub service_account : String
  pub namespace : String
  pub image_pull_secrets : List String

pub record K8sRemoteBuildpack : Type 0 where
  pub buildpack : BuildpackStatus
  pub secret_ref : SecretRef
  pub source : ObjectReference

-- A builder's reference: the identity of a buildpack, or an object, or both, or an image.
pub record BuilderBuildpackRef : Type 0 where
  pub id : String
  pub version : String
  pub optional : Bool
  pub object : ObjectReference
  pub image : String
