-- ===== src/BuildReconciler.antt =====
-- pkg/reconciler/build/build.go: run the pod of a build and report on it.
pub mod PodStatus
pub mod Verdict
pub mod Recorded
use kpack.Prelude.Run.{M, ◌>>=◌, ◌>>◌, pure, throw, lift, ask, request, done, optional}
use kpack.Prelude.{
  ℕ, String, Bool, true, false, ◌&&◌, List, [], ◌∷◌, Option, none, some, if◌then◌else◌, ◌<>◌,
  Result, ok, err, Error, plain, panicked, permanent, message, is_invalid, is_permanent, is_some,
  find, ◌==◌, not,
}
use kpack.Api.Meta.{Foreign, get}
use kpack.Api.Builder.{BuildpackMetadata}
use kpack.Api.Build.{
  Build, BuildStatus, ContainerState, waiting, running, terminated, finished, status_error,
  completion_container_name,
}
use kpack.Api.Defaults.{set_build_defaults}
use kpack.BuildReconciler.PodStatus.{
  Pod, ContainerStatus, pod_running, is_running_phase, metadata_ready, described, step_states,
  steps_completed, condition_for_pod, all_containers_ready, completion_container_exited,
}

abbrev pub build_ready_annotation : String
build_ready_annotation = "build.kpack.io/ready"

-- pkg/cnb/build_metadata.go.
pub record BuildMetadata : Type 0 where
  pub buildpack_metadata : List BuildpackMetadata
  pub latest_cache_image : String
  pub latest_image : String
  pub stack_id : String
  pub stack_run_image : String
  pub lifecycle_version : String

pub data PodRequest (K : Foreign) : Type 0 where
  create_pod : Pod → PodRequest K
  patch_ready : String → String → PodRequest K
  patch_deadline : String → String → PodRequest K
  update_build_status : Build K → PodRequest K

-- The listers and clients of the reconciler, the parts of kpack that it calls (the pod generator,
-- the decoder of the metadata, the reader of termination messages), its own method `attestBuild`,
-- which makes and uploads an attestation, and the semantic equality of two statuses.
pub record Cluster (K : Foreign) : Type 0 where
  pub get_build : List (PodRequest K) → String → String → Result (Build K)
  pub get_pod : List (PodRequest K) → String → String → Result Pod
  pub generate : List (PodRequest K) → Build K → Result Pod
  pub answer_pod : List (PodRequest K) → PodRequest K → Result Pod
  pub answer_update : List (PodRequest K) → Build K → Option Error
  pub decompress_build_metadata : String → Result BuildMetadata
  pub attest_build : List (PodRequest K) → Build K → BuildMetadata → Pod → Result String
  pub get_termination_message : Pod → ContainerStatus → String
  pub status_equal : BuildStatus → BuildStatus → Bool
  pub child_name : String → String → String

-- The flags, and the time of the conditions.
pub record BuildSetting : Type 0 where
  pub injected_sidecar_support : Bool
  pub generate_slsa_attestation : Bool
  pub now : ℕ

-- A panic is no error to prefix: it goes through.
abbrev pub prefixed : {A : Type 0} → String → Result A → Result A
prefixed text (ok a) = ok a
prefixed text (err (panicked m)) = err (panicked m)
prefixed text (err e) = err (plain (text <> message e))

abbrev permanently : {A : Type 0} → Result A → Result A
permanently (ok a) = ok a
permanently (err (panicked m)) = err (panicked m)
permanently (err e) = err (permanent e)

-- An error that the API server calls invalid does not go away by trying again.
abbrev permanent_if_invalid : {A : Type 0} → Result A → Result A
permanent_if_invalid (ok a) = ok a
permanent_if_invalid (err e) = if is_invalid e then err (permanent e) else err e

module _ {K : Foreign} (S : Cluster K) (set : BuildSetting) where
  unfoldable pod_or_created : Build K → Option Pod → M (PodRequest K) Pod
  pod_or_created b (some pod) = pure pod
  pod_or_created b none = do
    config ← ask (λ h. permanently (S.generate h b))
    request (create_pod config) (λ h. S.answer_pod h (create_pod config))

  unfoldable pub reconcile_build_pod : Build K → M (PodRequest K) Pod
  unfolding pod_or_created
  reconcile_build_pod b = do
    found ←
        optional (ask (λ h. S.get_pod h b.meta.namespace (S.child_name b.meta.name "-build-pod")))
    pod_or_created b found

  unfoldable pub set_build_ready : Pod → M (PodRequest K) Pod
  set_build_ready pod =
      let call : PodRequest K = patch_ready pod.namespace pod.name in
      if is_some (get build_ready_annotation pod.annotations)
      then pure pod
      else if not (all_containers_ready pod)
      then pure pod
      else request call (λ h. S.answer_pod h call)

  unfoldable pub cleanup_if_needed : Pod → M (PodRequest K) Pod
  cleanup_if_needed pod =
      let call : PodRequest K = patch_deadline pod.namespace pod.name in
      if is_running_phase pod.phase && completion_container_exited pod
      then request call (λ h. S.answer_pod h call)
      else pure pod

  unfoldable pub with_sidecars : Pod → M (PodRequest K) Pod
  unfolding set_build_ready cleanup_if_needed
  with_sidecars pod =
      if set.injected_sidecar_support then set_build_ready pod >>= cleanup_if_needed else pure pod

  -- `status.State.Terminated.Message`, which panics where the container has not terminated.
  unfoldable pub metadata_of_state : ContainerState → Result BuildMetadata
  metadata_of_state (terminated code reason text) = S.decompress_build_metadata text
  metadata_of_state (waiting reason text) = err (panicked "nil Terminated")
  metadata_of_state running = err (panicked "nil Terminated")

  unfoldable pub metadata_of_container : Option ContainerStatus → Result BuildMetadata
  unfolding metadata_of_state
  metadata_of_container (some s) = metadata_of_state s.state
  metadata_of_container none = err (plain (completion_container_name <> " container not found"))

  unfoldable pub build_metadata_from_build_pod : Pod → Result BuildMetadata
  unfolding metadata_of_container
  build_metadata_from_build_pod pod =
      metadata_of_container (find (λ s. s.name == completion_container_name) pod.container_statuses)

  unfoldable pub with_metadata : Build K → BuildMetadata → String → Build K
  with_metadata b data_of digest = record b {
    status = record (b.status) {
      build_metadata = data_of.buildpack_metadata;
      latest_image = data_of.latest_image;
      latest_cache_image = data_of.latest_cache_image;
      latest_attestation_image = digest;
      stack = record { run_image = data_of.stack_run_image; id = data_of.stack_id };
      lifecycle_version = data_of.lifecycle_version;
    };
  }

  unfoldable pub attested : Build K → BuildMetadata → Pod → M (PodRequest K) String
  attested b data_of pod =
      if set.generate_slsa_attestation
      then ask (λ h. prefixed "failed to attest build: " (S.attest_build h b data_of pod))
      else pure ""

  unfoldable pub record_metadata : Build K → Pod → M (PodRequest K) (Build K)
  unfolding build_metadata_from_build_pod with_metadata attested
  record_metadata b pod = do
    data_of ← lift (
        prefixed "failed to get build metadata from build pod: "
          (build_metadata_from_build_pod pod))
    digest ← attested b data_of pod
    pure (with_metadata b data_of digest)

  -- The state texts are filled in before the condition is made, on the pod itself.
  unfoldable pub with_pod : Build K → Pod → Build K
  unfolding described step_states steps_completed condition_for_pod
  with_pod b pod = record b {
    status = record (b.status) {
      pod_name = pod.name;
      step_states = step_states pod;
      steps_completed = steps_completed pod;
      status = record {
        observed_generation = b.status.status.observed_generation;
        conditions =
            condition_for_pod set.now S.get_termination_message (described pod)
              (steps_completed pod);
      };
    };
  }

  unfoldable pub after_metadata : Build K → Pod → M (PodRequest K) (Build K)
  unfolding metadata_ready record_metadata
  after_metadata b pod = if metadata_ready b pod then record_metadata b pod else pure b

  -- What follows once the pod is known.
  unfoldable pub finish_pod : Build K → Pod → M (PodRequest K) (Build K)
  unfolding after_metadata with_pod
  finish_pod b pod = do recorded ← after_metadata b pod; pure (with_pod recorded pod)

  -- `reconcile`: the build with its new status.
  unfoldable pub reconcile_pod : Build K → M (PodRequest K) (Build K)
  unfolding reconcile_build_pod with_sidecars finish_pod
  reconcile_pod b = do
    first ← (λ h. let r = reconcile_build_pod b h in (permanent_if_invalid r.0, r.1))
    pod ← with_sidecars first
    finish_pod b pod

  unfoldable pub reconcile_build : Build K → M (PodRequest K) (Build K)
  unfolding reconcile_pod finished
  reconcile_build b = if finished b then pure b else reconcile_pod b

  unfoldable pub update_build : Build K → M (PodRequest K) (Unit {0})
  update_build b =
      let desired : Build K = record b {
        status = record (b.status) {
          status = record (b.status.status) { observed_generation = b.meta.generation };
        };
      } in
      do
        original ← ask (λ h. S.get_build h b.meta.namespace b.meta.name)
        elim (S.status_equal original.status desired.status) [
          | true ↦ pure tt
          | false ↦ request (update_build_status desired) (λ h. done (S.answer_update h desired))
        ]

  -- A permanent error ends in the status, any other goes back to the queue.
  unfoldable settled : Build K → M (PodRequest K) (Build K) → M (PodRequest K) (Build K)
  settled b m h =
      let r = m h in
      elim r.0 [
        | ok a ↦ (ok a, r.1)
        | err e ↦
            if is_permanent e
            then (ok (record b { status = status_error set.now e b.status }), r.1)
            else (err e, r.1)
      ]

  unfoldable reconcile_found : Option (Build K) → M (PodRequest K) (Unit {0})
  unfolding reconcile_build update_build settled set_build_defaults status_error
  reconcile_found none = pure tt
  reconcile_found (some b) = do
    let wanted = set_build_defaults b
    reconciled ← settled wanted (reconcile_build wanted)
    update_build reconciled

  -- `Reconcile`, given the two parts of the key.
  unfoldable pub reconcile : String → String → M (PodRequest K) (Unit {0})
  unfolding reconcile_found
  reconcile namespace name = do
    found ← optional (ask (λ h. S.get_build h namespace name))
    reconcile_found found
