-- ===== src/ImageReconciler/Server.antt =====
-- The Kubernetes API as the image reconciler meets it: every read and write is a question to a
-- server of which nothing is assumed. A run (Prelude/Run.antt) keeps the history of the writes
-- that it asked for, and an answer may depend on that history.
unfoldable pub use kpack.Prelude.Run.{
  M, ◌>>=◌, ◌>>◌, pure, throw, lift, ask, request, done, wrap, wrap_by, optional,
}
use kpack.Prelude.{String, List, Result, Error, Bool, Option}
use kpack.Api.Meta.{Foreign, ObjectMeta, ObjectReference, StringMap}
use kpack.Api.Source.{SourceResolver, SourceResolverSpec}
use kpack.Api.Builder.{DuckBuilder}
use kpack.Api.Build.{Build}
use kpack.Api.Image.{Image, ImageStatus}
use kpack.Api.Wanted.{VolumeClaim}

-- pkg/reconciler/tracker.go.
pub record Key : Type 0 where
  pub group : String
  pub kind : String
  pub namespace : String
  pub name : String

pub data Request (K : Foreign) : Type 0 where
  track : Key → String → String → Request K
  create_build : Build K → Request K
  delete_build : String → Request K
  create_resolver : ObjectMeta → SourceResolverSpec → Request K
  update_resolver : SourceResolver → Request K
  create_claim : VolumeClaim K → Request K
  update_claim : VolumeClaim K → Request K
  delete_claim : String → String → Request K
  update_image_status : Image K → Request K

-- Newest first.
abbrev pub History : Foreign → Type 0
History K = List (Request K)

-- The listers and clients of the reconciler (`beside_error` is the metadata of the object that a
-- failed `Create` returns beside its error), and `Semantic.DeepEqual` at the types it compares.
pub record Server (K : Foreign) : Type 0 where
  pub get_image : History K → String → String → Result (Image K)
  pub get_builder : History K → String → ObjectReference → Result DuckBuilder
  pub list_builds : History K → String → String → Result (List (Build K))
  pub get_resolver : History K → String → String → Result SourceResolver
  pub get_claim : History K → String → String → Result (VolumeClaim K)
  pub answer_build : History K → Build K → Result (Build K)
  pub beside_error : Error → ObjectMeta
  pub answer_resolver : History K → ObjectMeta → SourceResolverSpec → Result SourceResolver
  pub answer_resolver_update : History K → SourceResolver → Result SourceResolver
  pub answer_claim : History K → VolumeClaim K → Result (VolumeClaim K)
  pub answer_other : History K → Request K → Option Error
  pub spec_equal : SourceResolverSpec → SourceResolverSpec → Bool
  pub labels_equal : StringMap → StringMap → Bool
  pub size_equal : Option K.Quantity → Option K.Quantity → Bool
  pub status_equal : ImageStatus → ImageStatus → Bool
