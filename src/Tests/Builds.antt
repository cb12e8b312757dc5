-- ===== src/Tests/Builds.antt =====
-- pkg/reconciler/build at concrete pods.
use kpack.Prelude.Run.{◌>>=◌, lift, ask, pure}
use kpack.Prelude.{pos, ◌≡◌, refl, String, true, false, [], ◌∷◌, none, ok}
use kpack.Api.Condition.{is_condition_true, condition_unknown}
use kpack.Api.Build.{Build, terminated, finished, is_success}
use kpack.BuildReconciler.PodStatus.{
  Pod, ContainerStatus, pod_failed, described, phase_ready, verdict, steps_completed,
}
use kpack.BuildReconciler.Verdict.{verdict_true}
use kpack.BuildReconciler.Recorded.{HasMetadata, finish_pod-HasMetadata}
use kpack.BuildReconciler.{
  BuildMetadata, Cluster, BuildSetting, finish_pod, build_metadata_from_build_pod, with_pod,
  with_metadata,
}
use kpack.Tests.Samples.{foreign, java, build_of}

abbrev finished_step : String → ContainerStatus
finished_step n = record { name = n; ready = false; state = terminated (pos 0) "Completed" "" }

-- A pod that was cut off by its deadline after the completion container had ended.
abbrev pod : Pod
pod = record {
  name = "app-build-1-build-pod";
  namespace = "apps";
  annotations = [];
  containers = 1;
  phase = pod_failed;
  reason = "DeadlineExceeded";
  message = "";
  init_container_statuses = finished_step "prepare" ∷ finished_step "build" ∷ [];
  container_statuses = finished_step "completion" ∷ [];
}

abbrev metadata : BuildMetadata
metadata = record {
  buildpack_metadata = java ∷ [];
  latest_cache_image = "";
  latest_image = "reg/app@sha256:9";
  stack_id = "stack";
  stack_run_image = "reg/run@sha256:1";
  lifecycle_version = "0.17";
}

abbrev cluster : Cluster foreign
cluster = record {
  get_build = λ h ns n. ok (build_of "app-build-1" 1 condition_unknown);
  get_pod = λ h ns n. ok pod;
  generate = λ h b. ok pod;
  answer_pod = λ h r. ok pod;
  answer_update = λ h b. none;
  decompress_build_metadata = λ s. ok metadata;
  attest_build = λ h b m p. ok "sha256:att";
  get_termination_message = λ p s. "";
  status_equal = λ a b. false;
  child_name = λ parent suffix. parent;
}

abbrev build_setting : BuildSetting
build_setting = record {
  injected_sidecar_support = false;
  generate_slsa_attestation = true;
  now = 7;
}

verdict_true_example :
    is_condition_true (verdict 7 (λ p s. "") (described pod) (steps_completed pod)).status
    ≡ phase_ready pod
verdict_true_example = verdict_true 7 (λ p s. "") pod (refl, (refl, tt))

abbrev started : Build foreign
started = build_of "app-build-1" 1 condition_unknown

abbrev ended : Build foreign
ended =
    with_pod cluster build_setting
      (with_metadata cluster build_setting started metadata "sha256:att") pod

finish_pod-HasMetadata_example :
    (m : BuildMetadata) × (build_metadata_from_build_pod cluster build_setting pod ≡ ok m)
    × HasMetadata m ended
unfolding finish_pod is_success build_metadata_from_build_pod finished ◌>>=◌ lift ask pure
finish_pod-HasMetadata_example =
    finish_pod-HasMetadata cluster build_setting started ended pod [] [] refl (refl, (refl, tt))
      refl refl
