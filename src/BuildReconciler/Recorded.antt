-- ===== src/BuildReconciler/Recorded.antt =====
-- pkg/reconciler/build/build.go: a build that succeeds has its metadata.
use kpack.Prelude.Answers.{bind-inv, pure-inv, lift-inv}
use kpack.Prelude.{
  ◌≡◌, refl, sym, ap, ◌∙◌, subst, String, true, false, List, Result, ok, err, arith, find, plain,
  not_found, invalid, network, panicked, permanent,
}
use kpack.Api.Meta.{Foreign}
use kpack.Api.Condition.{is_true, get_condition}
use kpack.Api.Build.{Build, succeeded, is_success, finished}
use kpack.BuildReconciler.PodStatus.{
  Pod, described, phase_ready, metadata_ready, condition_for_pod, steps_completed,
}
use kpack.BuildReconciler.Verdict.{NoInitCompletion, verdict_true, verdict-type}
use kpack.BuildReconciler.{
  BuildMetadata, PodRequest, Cluster, BuildSetting, prefixed, finish_pod, after_metadata,
  record_metadata, with_pod, with_metadata, build_metadata_from_build_pod,
}

module _ {K : Foreign} where
  not_success : (b : Build K) → finished b ≡ false → is_true (succeeded b) ≡ false
  unfolding finished
  not_success b h = ground arith

  metadata_ready-phase :
      (b : Build K) (pod : Pod) → finished b ≡ false → metadata_ready b pod ≡ phase_ready pod
  unfolding metadata_ready
  metadata_ready-phase b pod h = rw (not_success b h) refl

-- What a pass leaves of the metadata that it reads.
pub record HasMetadata {K : Foreign} (m : BuildMetadata) (b : Build K) : Type 0 where
  pub has_buildpacks : b.status.build_metadata ≡ m.buildpack_metadata
  pub has_image : b.status.latest_image ≡ m.latest_image
  pub has_cache_image : b.status.latest_cache_image ≡ m.latest_cache_image
  pub has_run_image : b.status.stack.run_image ≡ m.stack_run_image
  pub has_stack_id : b.status.stack.id ≡ m.stack_id
  pub has_lifecycle : b.status.lifecycle_version ≡ m.lifecycle_version

module _ {K : Foreign} (S : Cluster K) (set : BuildSetting) where
  with_pod-is_success :
      (b : Build K) (pod : Pod)
      → NoInitCompletion pod
      → is_success (with_pod S set b pod) ≡ phase_ready pod
  unfolding with_pod is_success succeeded get_condition condition_for_pod find
  with_pod-is_success b pod h =
      rw (verdict-type set.now S.get_termination_message (described pod) (steps_completed pod))
        (verdict_true set.now S.get_termination_message pod h)

  after_metadata-ready :
      (b : Build K) (pod : Pod) (h : List (PodRequest K))
      → metadata_ready b pod ≡ true
      → after_metadata S set b pod h ≡ record_metadata S set b pod h
  unfolding after_metadata record_metadata
  after_metadata-ready b pod h e = rw (after_metadata, e) refl

  with_metadata-HasMetadata :
      (b : Build K) (m : BuildMetadata) (d : String) (pod : Pod)
      → HasMetadata m (with_pod S set (with_metadata S set b m d) pod)
  unfolding with_pod with_metadata
  with_metadata-HasMetadata b m d pod = record {
    has_buildpacks = refl;
    has_image = refl;
    has_cache_image = refl;
    has_run_image = refl;
    has_stack_id = refl;
    has_lifecycle = refl;
  }

  prefixed-inv : {A : Type 0} (t : String) (r : Result A) (a : A) → prefixed t r ≡ ok a → r ≡ ok a
  prefixed-inv t (ok a) b e = e
  prefixed-inv t (err (plain m)) b e = cc
  prefixed-inv t (err (not_found m)) b e = cc
  prefixed-inv t (err (invalid m)) b e = cc
  prefixed-inv t (err (network m)) b e = cc
  prefixed-inv t (err (panicked m)) b e = cc
  prefixed-inv t (err (permanent x)) b e = cc

  record_metadata-inv :
      (b c : Build K) (pod : Pod) (h g : List (PodRequest K))
      → record_metadata S set b pod h ≡ (ok c, g)
      → (m : BuildMetadata) × (d : String) × (build_metadata_from_build_pod S set pod ≡ ok m)
        × (with_metadata S set b m d ≡ c)
  unfolding record_metadata
  record_metadata-inv b c pod h g e =
      let (m, k, read, rest) = bind-inv _ _ h g c e in
      let (d, k2, att, last) = bind-inv _ _ k g c rest in
      (
        m,
        d,
        prefixed-inv "failed to get build metadata from build pod: " _ m (lift-inv _ m h k read),
        pure-inv _ c k2 g last,
      )

  -- A build that was not finished, and that a pass over its pod turns successful, carries all the
  -- metadata that the pod reports, if no init container bears the name of the completion container.
  pub finish_pod-HasMetadata :
      (b c : Build K) (pod : Pod) (h g : List (PodRequest K))
      → finished b ≡ false
      → NoInitCompletion pod
      → finish_pod S set b pod h ≡ (ok c, g)
      → is_success c ≡ true
      → (m : BuildMetadata) × (build_metadata_from_build_pod S set pod ≡ ok m) × HasMetadata m c
  unfolding finish_pod
  finish_pod-HasMetadata b c pod h g unfinished n e t =
      let (r, k, recorded, last) = bind-inv _ _ h g c e in
      let same : with_pod S set r pod ≡ c = pure-inv _ c k g last in
      let ready : phase_ready pod ≡ true =
        sym (with_pod-is_success r pod n) ∙ ap is_success same ∙ t in
      let (m, d, read, is) = record_metadata-inv b r pod h k (
        sym (after_metadata-ready b pod h (metadata_ready-phase b pod unfinished ∙ ready))
        ∙ recorded) in
      (
        m,
        read,
        subst (λ x. HasMetadata m x) (ap (λ x. with_pod S set x pod) is ∙ same)
            (with_metadata-HasMetadata b m d pod),
      )
