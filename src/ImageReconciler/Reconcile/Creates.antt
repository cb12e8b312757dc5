-- ===== src/ImageReconciler/Reconcile/Creates.antt =====
-- How many builds a pass of the image reconciler asks for.
use kpack.Prelude.{
  not, ℕ, ◌+◌, ◌≤◌, String, Option, none, some, arith, inl, inr, Option-cases, ℤ, exceeds,
}
use kpack.Api.Meta.{Foreign, ObjectMeta}
use kpack.Api.Condition.{
  ConditionStatus, condition_true, condition_false, condition_unknown, condition_other,
}
use kpack.Api.Source.{SourceConfig, SourceResolver, SourceResolverSpec, resolver_source_config}
use kpack.Api.Builder.{DuckBuilder}
use kpack.Api.Build.{Build}
use kpack.Api.Image.{Image, need_volume_cache}
use kpack.Api.Defaults.{set_defaults}
use kpack.Api.Wanted.{VolumeClaim, desired_source_resolver, desired_build_cache}
use kpack.ImageReconciler.BuildRequired.{BuildRequiredResult}
use kpack.ImageReconciler.BuildList.{
  number_failed_builds, number_successful_builds, oldest_failure, oldest_success,
}
use kpack.ImageReconciler.Server.{Server, History, update_image_status}
use kpack.ImageReconciler.Schedule.{Setting, reconcile_build, act_on, schedule, schedule_with, keep}
use kpack.ImageReconciler.Reconcile.{
  reconcile, reconcile_image, reconcile_last, reconcile_idle, delete_old_builds,
  reconcile_build_cache, reconcile_source_resolver, fetch_last_build, update_status,
  source_resolvers_equal, build_cache_equal, found_image, with_found, running, or_panic,
  delete_over, delete_oldest, fetch_all_builds, existing_or_created, update_unless_equal,
  delete_claim_if, claim_or_created, update_claim_unless_equal,
}
use kpack.ImageReconciler.Reconcile.Counts.{
  creates, weight, AtMost, AtMost-pure, AtMost-throw, AtMost-lift, AtMost-ask, AtMost-wrap,
  AtMost-wrap_by, AtMost-request, AtMost-optional, AtMost-bind, AtMost-then, AtMost-last, AtMost-if,
  AtMost-choice,
}

module _ {K : Foreign} (S : Server K) where
  fetch_all_builds-AtMost : (img : Image K) → AtMost 0 (fetch_all_builds S img)
  unfolding fetch_all_builds
  fetch_all_builds-AtMost img = AtMost-bind (AtMost-wrap _ (AtMost-ask _)) (λ b. AtMost-pure _)

  fetch_last_build-AtMost : (img : Image K) → AtMost 0 (fetch_last_build S img)
  unfolding fetch_last_build
  fetch_last_build-AtMost img = AtMost-bind (fetch_all_builds-AtMost img) (λ b. AtMost-pure _)

  delete_oldest-AtMost : (t : String) (b : Option (Build K)) → AtMost 0 (delete_oldest S t b)
  unfolding delete_oldest or_panic weight
  delete_oldest-AtMost t none =
      AtMost-bind (AtMost-throw _) (λ b. AtMost-wrap _ (AtMost-request _ _ (omega arith)))
  delete_oldest-AtMost t (some b) =
      AtMost-bind (AtMost-pure _) (λ b. AtMost-wrap _ (AtMost-request _ _ (omega arith)))

  delete_over-AtMost :
      (t : String) (l : Option ℤ) (n : ℕ) (b : Option (Build K)) → AtMost 0 (delete_over S t l n b)
  unfolding delete_over
  delete_over-AtMost t none n b = AtMost-throw _
  delete_over-AtMost t (some l) n b =
      AtMost-if (exceeds n l) (delete_oldest-AtMost t b) (AtMost-pure tt)

  delete_old_builds-AtMost : (img : Image K) → AtMost 0 (delete_old_builds S img)
  unfolding delete_old_builds
  delete_old_builds-AtMost img = AtMost-bind (AtMost-wrap _ (fetch_all_builds-AtMost img)) (λ b.
      AtMost-then
        (delete_over-AtMost "failed deleting failed build" img.spec.failed_build_history_limit
          (number_failed_builds b) (oldest_failure b))
        (delete_over-AtMost "failed deleting successful build" img.spec.success_build_history_limit
          (number_successful_builds b) (oldest_success b)))

module _ {K : Foreign} (S : Server K) (set : Setting K) where
  existing_or_created-AtMost :
      (desired : ObjectMeta × SourceResolverSpec) (found : Option SourceResolver)
      → AtMost 0 (existing_or_created S set desired found)
  unfolding existing_or_created weight
  existing_or_created-AtMost (meta, spec) none = AtMost-wrap _ (AtMost-request _ _ (omega arith))
  existing_or_created-AtMost (meta, spec) (some sr) = AtMost-pure sr

  update_unless_equal-AtMost :
      (desired : ObjectMeta × SourceResolverSpec) (sr : SourceResolver)
      → AtMost 0 (update_unless_equal S set desired sr)
  unfolding update_unless_equal weight
  update_unless_equal-AtMost (meta, spec) sr =
      AtMost-if (source_resolvers_equal S set (meta, spec) sr) (AtMost-pure sr)
        (AtMost-request _ _ (omega arith))

  reconcile_source_resolver-AtMost :
      (img : Image K) → AtMost 0 (reconcile_source_resolver S set img)
  unfolding reconcile_source_resolver
  reconcile_source_resolver-AtMost img =
      AtMost-bind (AtMost-wrap _ (AtMost-optional (AtMost-ask _))) (λ found.
        AtMost-bind (existing_or_created-AtMost (desired_source_resolver set.naming img) found)
          (λ sr. update_unless_equal-AtMost (desired_source_resolver set.naming img) sr))

  delete_claim_if-AtMost :
      (img : Image K) (claim : Option (VolumeClaim K)) → AtMost 0 (delete_claim_if S set img claim)
  unfolding delete_claim_if weight
  delete_claim_if-AtMost img none = AtMost-pure ""
  delete_claim_if-AtMost img (some claim) =
      AtMost-then (AtMost-request _ _ (omega arith)) (AtMost-pure "")

  claim_or_created-AtMost :
      (desired : VolumeClaim K) (found : Option (VolumeClaim K))
      → AtMost 0 (claim_or_created S set desired found)
  unfolding claim_or_created weight
  claim_or_created-AtMost desired none = AtMost-wrap _ (AtMost-request _ _ (omega arith))
  claim_or_created-AtMost desired (some claim) = AtMost-pure claim

  update_claim_unless_equal-AtMost :
      (desired claim : VolumeClaim K) → AtMost 0 (update_claim_unless_equal S set desired claim)
  unfolding update_claim_unless_equal weight
  update_claim_unless_equal-AtMost desired claim =
      AtMost-if (build_cache_equal S set desired claim) (AtMost-pure _)
        (AtMost-wrap _ (AtMost-then (AtMost-request _ _ (omega arith)) (AtMost-pure _)))

  reconcile_build_cache-AtMost : (img : Image K) → AtMost 0 (reconcile_build_cache S set img)
  unfolding reconcile_build_cache
  reconcile_build_cache-AtMost img =
      AtMost-if (not (need_volume_cache img.spec))
        (AtMost-bind (AtMost-wrap _ (AtMost-optional (AtMost-ask _)))
          (λ claim. delete_claim_if-AtMost img claim))
        (AtMost-bind (AtMost-wrap _ (AtMost-optional (AtMost-ask _))) (λ claim.
          AtMost-bind (claim_or_created-AtMost (desired_build_cache set.naming img) claim)
            (λ existing.
              update_claim_unless_equal-AtMost (desired_build_cache set.naming img) existing)))

  schedule_with-AtMost :
      (img : Image K) (latest : Option (Build K)) (source : Option SourceConfig)
      (builder : DuckBuilder) (cache : String) (n : ℤ) (r : BuildRequiredResult)
      → AtMost 1 (schedule_with S set img latest source builder cache n r)
  unfolding schedule_with schedule weight
  schedule_with-AtMost img latest none builder cache n r = AtMost-throw _
  schedule_with-AtMost img latest (some source) builder cache n r =
      AtMost-last (AtMost-wrap_by _ (AtMost-request _ _ (omega arith))) (λ b. AtMost-pure _)

  keep-AtMost :
      (img : Image K) (latest : Option (Build K)) (sr : SourceResolver) (builder : DuckBuilder)
      (cache : String) (n : ℤ) (r : BuildRequiredResult)
      → AtMost 1 (keep S set img latest sr builder cache n r)
  unfolding keep
  keep-AtMost img latest sr builder cache n r = AtMost-bind (AtMost-lift _) (λ cs. AtMost-pure _)

  act_on-AtMost :
      (verdict : ConditionStatus) (img : Image K) (latest : Option (Build K)) (sr : SourceResolver)
      (builder : DuckBuilder) (cache : String) (n : ℤ) (r : BuildRequiredResult)
      → AtMost 1 (act_on S set verdict img latest sr builder cache n r)
  unfolding act_on
  act_on-AtMost condition_true img latest sr builder cache n r =
      schedule_with-AtMost img latest (resolver_source_config sr) builder cache n r
  act_on-AtMost condition_unknown img latest sr builder cache n r =
      keep-AtMost img latest sr builder cache n r
  act_on-AtMost condition_false img latest sr builder cache n r =
      keep-AtMost img latest sr builder cache n r
  act_on-AtMost (condition_other s) img latest sr builder cache n r = AtMost-throw _

  reconcile_build-AtMost :
      (img : Image K) (latest : Option (Build K)) (sr : SourceResolver) (builder : DuckBuilder)
      (cache : String)
      → AtMost 1 (reconcile_build S set img latest sr builder cache)
  unfolding reconcile_build
  reconcile_build-AtMost img latest sr builder cache =
      AtMost-bind (AtMost-wrap _ (AtMost-lift _)) (λ n.
        AtMost-bind (AtMost-wrap _ (AtMost-lift _))
          (λ r. act_on-AtMost r.condition_status img latest sr builder cache n r))

  reconcile_idle-AtMost :
      (img : Image K) (builder : DuckBuilder) (latest : Option (Build K))
      → AtMost 1 (reconcile_idle S set img builder latest)
  unfolding reconcile_idle
  reconcile_idle-AtMost img builder latest =
      AtMost-bind (reconcile_build_cache-AtMost img) (λ cache.
        AtMost-bind (reconcile_source_resolver-AtMost img) (λ sr.
          AtMost-last (reconcile_build-AtMost img latest sr builder cache) (λ status.
            AtMost-then (delete_old_builds-AtMost S (record img { status = status }))
              (AtMost-pure _))))

  reconcile_last-AtMost :
      (img : Image K) (builder : DuckBuilder) (latest : Option (Build K))
      → AtMost 1 (reconcile_last S set img builder latest)
  unfolding reconcile_last
  reconcile_last-AtMost img builder latest = elim (Option-cases (running S set latest)) [
    | inl e ↦ rw (e, reconcile_last) (reconcile_idle-AtMost img builder latest)
    | inr (b, e) ↦ rw (e, reconcile_last) (AtMost-pure _)
  ]

  with_found-AtMost :
      (img : Image K) (builder : Option DuckBuilder) → AtMost 1 (with_found S set img builder)
  unfolding with_found
  with_found-AtMost img none = AtMost-pure _
  with_found-AtMost img (some builder) =
      AtMost-bind (fetch_last_build-AtMost S img)
        (λ latest. reconcile_last-AtMost img builder latest)

  reconcile_image-AtMost : (img : Image K) → AtMost 1 (reconcile_image S set img)
  unfolding reconcile_image weight
  reconcile_image-AtMost img =
      AtMost-then (AtMost-request _ _ (omega arith))
        (AtMost-bind (AtMost-optional (AtMost-ask _)) (λ builder. with_found-AtMost img builder))

  update_status-AtMost : (img : Image K) → AtMost 0 (update_status S set img)
  unfolding update_status weight
  update_status-AtMost img =
      let desired : Image K = record img {
        status = record (img.status) {
          status = record (img.status.status) { observed_generation = img.meta.generation };
        };
      } in
      AtMost-bind (AtMost-ask _) (λ original.
        AtMost-choice (S.status_equal original.status desired.status) (AtMost-pure tt)
          (AtMost-request (update_image_status desired) _ (omega arith)))

  found_image-AtMost :
      (size : Option K.Quantity) (img : Option (Image K)) → AtMost 1 (found_image S set size img)
  unfolding found_image
  found_image-AtMost size none = AtMost-pure tt
  found_image-AtMost size (some img) =
      AtMost-last (reconcile_image-AtMost (set_defaults size img))
        (λ reconciled. update_status-AtMost reconciled)

  reconcile-AtMost :
      (size : Option K.Quantity) (namespace name : String)
      → AtMost 1 (reconcile S set size namespace name)
  unfolding reconcile
  reconcile-AtMost size namespace name =
      AtMost-bind (AtMost-optional (AtMost-ask _)) (λ img. found_image-AtMost size img)

  -- A pass of the reconciler over any image, from any history and whatever the API server answers,
  -- asks for at most one build.
  pub reconcile-creates_at_most_one :
      (size : Option K.Quantity) (namespace name : String) (h : History K)
      → creates (reconcile S set size namespace name h).1 ≤ creates h + 1
  reconcile-creates_at_most_one size namespace name h =
      (reconcile-AtMost size namespace name).bound h
