-- ===== src/ImageReconciler/Reconcile.antt =====
-- image.go: one pass of the image reconciler.
pub mod Safety
pub mod Deletes
pub mod Admitted
pub mod Counts
pub mod Creates
use kpack.Prelude.{
  ℕ, ℤ, pos, exceeds, String, Bool, true, false, ◌&&◌, not, List, Option, none, some, if◌then◌else◌,
  ◌==◌, ◌<>◌, Result, ok, err, Error, plain, panicked, message, is_not_found,
}
use kpack.Api.Meta.{Foreign, ObjectMeta}
use kpack.Api.Condition.{Condition}
use kpack.Api.Builder.{DuckBuilder}
use kpack.Api.Defaults.{set_defaults}
use kpack.Api.Source.{SourceResolver, SourceResolverSpec}
use kpack.Api.Build.{Build, is_running}
use kpack.Api.Image.{
  Image, ImageSpec, ImageStatus, ImageCacheConfig, ImagePersistentVolumeCache, need_volume_cache,
  builder_not_found,
}
use kpack.Api.Wanted.{
  Naming, VolumeClaim, cache_name, source_resolver_name, desired_build_cache,
  desired_source_resolver,
}
use kpack.ImageReconciler.BuildList.{
  BuildList, new_build_list, number_failed_builds, number_successful_builds, oldest_failure,
  oldest_success,
}
use kpack.ImageReconciler.Conditions.{build_running_condition}
use kpack.ImageReconciler.Server.{
  Server, Key, Request, track, delete_build, create_resolver, update_resolver, create_claim,
  update_claim, delete_claim, update_image_status, M, ◌>>=◌, ◌>>◌, pure, throw, lift, ask, request,
  done, wrap, optional,
}
use kpack.ImageReconciler.Schedule.{Setting, reconcile_build}

-- Where neither kind matches, the key is empty.
unfoldable pub reconciler_key_for_builder_kind : {K : Foreign} → Image K → Key
reconciler_key_for_builder_kind img =
    if img.spec.builder.kind == "ClusterBuilder"
    then record {
      group = "kpack.io";
      kind = "ClusterBuilder";
      namespace = "";
      name = img.spec.builder.name;
    }
    else if img.spec.builder.kind == "Builder"
    then record {
      group = "kpack.io";
      kind = "Builder";
      namespace = img.meta.namespace;
      name = img.spec.builder.name;
    }
    else record { group = ""; kind = ""; namespace = ""; name = "" }

unfoldable or_panic : {K : Foreign} {A : Type 0} → Option A → M (Request K) A
or_panic none = throw (panicked "nil")
or_panic (some a) = pure a

module _ {K : Foreign} (S : Server K) where
  unfoldable pub fetch_all_builds : Image K → M (Request K) (BuildList K)
  unfolding new_build_list
  fetch_all_builds img = do
    builds ← wrap "list builds" (ask (λ h. S.list_builds h img.meta.namespace img.meta.name))
    pure (new_build_list builds)

  unfoldable pub fetch_last_build : Image K → M (Request K) (Option (Build K))
  unfolding fetch_all_builds
  fetch_last_build img = do builds ← fetch_all_builds img; pure builds.last_build

  unfoldable delete_oldest : String → Option (Build K) → M (Request K) (Unit {0})
  delete_oldest text oldest = do
    b ← or_panic oldest
    wrap text (
        request (delete_build b.meta.name)
          (λ h. done (S.answer_other h (delete_build b.meta.name))))

  -- `int64(len) > *limit`; a nil limit would panic.
  unfoldable delete_over : String → Option ℤ → ℕ → Option (Build K) → M (Request K) (Unit {0})
  unfolding delete_oldest
  delete_over text none count oldest = throw (panicked "nil limit")
  delete_over text (some limit) count oldest =
      if exceeds count limit then delete_oldest text oldest else pure tt

  -- At most one failed and one successful build go in a pass.
  unfoldable pub delete_old_builds : Image K → M (Request K) (Unit {0})
  unfolding fetch_all_builds delete_over or_panic
  delete_old_builds img = do
    builds ← wrap "failed fetching all builds for image" (fetch_all_builds img)
    delete_over "failed deleting failed build" img.spec.failed_build_history_limit
        (number_failed_builds builds) (oldest_failure builds)
    delete_over "failed deleting successful build" img.spec.success_build_history_limit
        (number_successful_builds builds) (oldest_success builds)

module _ {K : Foreign} (S : Server K) (set : Setting K) where
  unfoldable pub source_resolvers_equal : ObjectMeta × SourceResolverSpec → SourceResolver → Bool
  source_resolvers_equal (meta, spec) sr =
      S.spec_equal spec sr.spec && S.labels_equal meta.labels sr.meta.labels

  unfoldable pub build_cache_equal : VolumeClaim K → VolumeClaim K → Bool
  build_cache_equal desired claim =
      S.size_equal desired.size claim.size && S.labels_equal desired.meta.labels claim.meta.labels

  unfoldable existing_or_created :
      ObjectMeta × SourceResolverSpec → Option SourceResolver → M (Request K) SourceResolver
  existing_or_created (meta, spec) none =
      wrap "cannot create source resolver"
        (request (create_resolver meta spec) (λ h. S.answer_resolver h meta spec))
  existing_or_created desired (some sr) = pure sr

  unfoldable update_unless_equal :
      ObjectMeta × SourceResolverSpec → SourceResolver → M (Request K) SourceResolver
  unfolding source_resolvers_equal
  update_unless_equal (meta, spec) sr =
      let wanted : SourceResolver = record sr {
        spec = spec;
        meta = record (sr.meta) { labels = meta.labels };
      } in
      if source_resolvers_equal (meta, spec) sr
      then pure sr
      else request (update_resolver wanted) (λ h. S.answer_resolver_update h wanted)

  unfoldable pub reconcile_source_resolver : Image K → M (Request K) SourceResolver
  unfolding existing_or_created update_unless_equal desired_source_resolver source_resolver_name
  reconcile_source_resolver img = do
    found ← wrap "cannot retrieve source resolver" (
        optional
          (ask (λ h. S.get_resolver h img.meta.namespace (source_resolver_name set.naming img))))
    sr ← existing_or_created (desired_source_resolver set.naming img) found
    update_unless_equal (desired_source_resolver set.naming img) sr

  unfoldable delete_claim_if : Image K → Option (VolumeClaim K) → M (Request K) String
  delete_claim_if img none = pure ""
  delete_claim_if img (some claim) = do
    let call = delete_claim (cache_name set.naming img) claim.meta.uid
    request call (λ h. done (S.answer_other h call))
    pure ""

  unfoldable claim_or_created :
      VolumeClaim K → Option (VolumeClaim K) → M (Request K) (VolumeClaim K)
  claim_or_created desired none =
      wrap "failed creating image cache for build"
        (request (create_claim desired) (λ h. S.answer_claim h desired))
  claim_or_created desired (some claim) = pure claim

  unfoldable update_claim_unless_equal : VolumeClaim K → VolumeClaim K → M (Request K) String
  unfolding build_cache_equal
  update_claim_unless_equal desired claim =
      let existing : VolumeClaim K = record claim {
        size = desired.size;
        meta = record (claim.meta) { labels = desired.meta.labels };
      } in
      if build_cache_equal desired claim
      then pure claim.meta.name
      else wrap "cannot update persistent volume claim" (do
        request (update_claim existing) (λ h. done (S.answer_other h (update_claim existing)))
        pure existing.meta.name)

  unfoldable pub reconcile_build_cache : Image K → M (Request K) String
  unfolding delete_claim_if claim_or_created update_claim_unless_equal desired_build_cache
      cache_name
  reconcile_build_cache img =
      let found = λ (text : String).
        wrap text
          (optional (ask (λ h. S.get_claim h img.meta.namespace (cache_name set.naming img)))) in
      if not (need_volume_cache img.spec)
      then (do claim ← found "cannot retrieve persistent volume claim"; delete_claim_if img claim)
      else (do
        claim ← found "failed to get image cache"
        existing ← claim_or_created (desired_build_cache set.naming img) claim
        update_claim_unless_equal (desired_build_cache set.naming img) existing)

abbrev pub with_conditions : {K : Foreign} → Image K → List Condition → Image K
with_conditions img cs = record img {
  status = record (img.status) { status = record (img.status.status) { conditions = cs } };
}

module _ {K : Foreign} (S : Server K) (set : Setting K) where
  unfoldable running : Option (Build K) → Option (Build K)
  running none = none
  running (some b) = if is_running b then some b else none

  -- The part of `reconcileImage` after the test for a running build.
  unfoldable pub reconcile_idle : Image K → DuckBuilder → Option (Build K) → M (Request K) (Image K)
  unfolding reconcile_build_cache reconcile_source_resolver reconcile_build delete_old_builds
  reconcile_idle img builder latest = do
    cache ← reconcile_build_cache S set img
    sr ← reconcile_source_resolver S set img
    status ← reconcile_build S set img latest sr builder cache
    delete_old_builds S (record img { status = status })
    pure (record img { status = status })

  unfoldable pub reconcile_last : Image K → DuckBuilder → Option (Build K) → M (Request K) (Image K)
  unfolding reconcile_idle running
  reconcile_last img builder latest = elim (running latest) [
    | some b ↦ pure (with_conditions img (build_running_condition set.now b builder))
    | none ↦ reconcile_idle img builder latest
  ]

  unfoldable with_found : Image K → Option DuckBuilder → M (Request K) (Image K)
  unfolding reconcile_last builder_not_found
  with_found img none = pure (with_conditions img (builder_not_found set.now img))
  with_found img (some builder) = do
    latest ← fetch_last_build S img
    reconcile_last img builder latest

  unfoldable pub reconcile_image : Image K → M (Request K) (Image K)
  unfolding with_found fetch_last_build reconciler_key_for_builder_kind
  reconcile_image img = do
    request (track (reconciler_key_for_builder_kind img) img.meta.namespace img.meta.name)
        (λ h. ok tt)
    builder ← optional (ask (λ h. S.get_builder h img.meta.namespace img.spec.builder))
    with_found img builder

  unfoldable pub update_status : Image K → M (Request K) (Unit {0})
  update_status img =
      let desired : Image K = record img {
        status = record (img.status) {
          status = record (img.status.status) { observed_generation = img.meta.generation };
        };
      } in
      do
        original ← ask (λ h. S.get_image h img.meta.namespace img.meta.name)
        elim (S.status_equal original.status desired.status) [
          | true ↦ pure tt
          | false ↦
              request (update_image_status desired)
                (λ h. done (S.answer_other h (update_image_status desired)))
        ]

  unfoldable found_image : Option K.Quantity → Option (Image K) → M (Request K) (Unit {0})
  unfolding reconcile_image update_status set_defaults
  found_image size none = pure tt
  found_image size (some img) = do
    reconciled ← reconcile_image (set_defaults size img)
    update_status reconciled

  -- `Reconcile`, given the two parts of the key.
  unfoldable pub reconcile : Option K.Quantity → String → String → M (Request K) (Unit {0})
  unfolding found_image
  reconcile default_size namespace name = do
    img ← optional (ask (λ h. S.get_image h namespace name))
    found_image default_size img
