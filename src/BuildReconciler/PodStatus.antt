-- ===== src/BuildReconciler/PodStatus.antt =====
-- What the build reconciler reads off a pod: pkg/reconciler/build/build.go, and the methods of
-- pkg/apis/build/v1alpha2/build.go that take a pod.
use kpack.Prelude.{
  ℕ, zero, ℤ, pos, String, Bool, true, false, ◌&&◌, not, List, [], ◌∷◌, ◌++◌, map, Option, none,
  some, if◌then◌else◌, ◌==◌, ◌<>◌, eqb, any, find, select, length,
}
use kpack.Api.Meta.{Foreign, StringMap}
use kpack.Api.Condition.{
  Condition, condition_at, condition_succeeded, condition_true, condition_false, condition_unknown,
  is_true,
}
use kpack.Api.Build.{
  Build, ContainerState, waiting, running, terminated, succeeded, is_build_step,
  completion_container_name,
}

-- The phases of `corev1.PodPhase` that the code names, and any other.
pub data PodPhase : Type 0 where
  pod_pending pod_running pod_succeeded pod_failed : PodPhase
  pod_other : String → PodPhase

-- `running` stands for every state that neither waits nor has ended: the code tests only these two.
pub record ContainerStatus : Type 0 where
  pub name : String
  pub ready : Bool
  pub state : ContainerState

-- The fields of `corev1.Pod` that the reconciler reads; `containers` counts `spec.containers`.
pub record Pod : Type 0 where
  pub name : String
  pub namespace : String
  pub annotations : StringMap
  pub containers : ℕ
  pub phase : PodPhase
  pub reason : String
  pub message : String
  pub init_container_statuses : List ContainerStatus
  pub container_statuses : List ContainerStatus

abbrev pub is_running_phase : PodPhase → Bool
is_running_phase pod_running = true
is_running_phase _ = false

abbrev pub exited_cleanly : ContainerState → Bool
exited_cleanly (terminated (pos zero) reason text) = true
exited_cleanly _ = false

abbrev has_terminated : ContainerState → Bool
has_terminated (terminated code reason text) = true
has_terminated _ = false

unfoldable pub completed_cleanly : ContainerStatus → Bool
completed_cleanly s = s.name == completion_container_name && exited_cleanly s.state

-- `podCompletedWithActiveDeadline` asks the ordinary containers, not the init containers.
unfoldable pub pod_completed_with_active_deadline : Pod → Bool
unfolding completed_cleanly any
pod_completed_with_active_deadline pod = elim pod.phase [
  | pod_failed ↦ pod.reason == "DeadlineExceeded" && any completed_cleanly pod.container_statuses
  | pod_pending ↦ false
  | pod_running ↦ false
  | pod_succeeded ↦ false
  | pod_other s ↦ false
]

unfoldable pub phase_ready : Pod → Bool
unfolding pod_completed_with_active_deadline
phase_ready pod = elim pod.phase [
  | pod_succeeded ↦ true
  | pod_failed ↦ pod_completed_with_active_deadline pod
  | pod_pending ↦ pod_completed_with_active_deadline pod
  | pod_running ↦ pod_completed_with_active_deadline pod
  | pod_other s ↦ pod_completed_with_active_deadline pod
]

unfoldable pub metadata_ready : {K : Foreign} → Build K → Pod → Bool
unfolding succeeded phase_ready
metadata_ready b pod = not (is_true (succeeded b)) && phase_ready pod

abbrev pub statuses : Pod → List ContainerStatus
statuses pod = pod.init_container_statuses ++ pod.container_statuses

abbrev ended : ℤ → String
ended (pos zero) = "successfully"
ended _ = "with error"

-- `createContainerStateForBuild`: an empty text is filled in.
unfoldable pub create_container_state_for_build : ContainerStatus → ContainerState
create_container_state_for_build s = elim s.state [
  | terminated code reason text ↦
      terminated code reason
        (if text == "" then "Container " <> s.name <> " terminated " <> ended code else text)
  | waiting reason text ↦
      waiting reason (if text == "" then "Container " <> s.name <> " waiting" else text)
  | running ↦ running
]

-- The states are shared by pointer, so that the texts are filled in on the pod as well.
unfoldable pub described_status : ContainerStatus → ContainerStatus
unfolding create_container_state_for_build is_build_step
described_status s =
    if is_build_step s.name then record s { state = create_container_state_for_build s } else s

unfoldable pub described : Pod → Pod
unfolding described_status
described pod = record pod {
  init_container_statuses = map described_status pod.init_container_statuses;
  container_statuses = map described_status pod.container_statuses;
}

unfoldable pub step_states : Pod → List ContainerState
unfolding create_container_state_for_build select is_build_step
step_states pod =
    map create_container_state_for_build (select (λ s. is_build_step s.name) (statuses pod))

unfoldable pub build_step_completed : ContainerStatus → Bool
unfolding is_build_step
build_step_completed s = exited_cleanly s.state && is_build_step s.name

unfoldable pub steps_completed : Pod → List String
unfolding build_step_completed select
steps_completed pod = map (λ s. s.name) (select build_step_completed (statuses pod))

unfoldable pub completion_container_exited : Pod → Bool
unfolding find
completion_container_exited pod =
    elim (find (λ s. s.name == completion_container_name) pod.container_statuses) [
      | none ↦ false
      | some s ↦ has_terminated s.state
    ]

unfoldable pub all_containers_ready : Pod → Bool
unfolding select
all_containers_ready pod =
    eqb (length (select (λ s. s.ready) pod.container_statuses)) pod.containers

-- An init container that ended with an error and a text.
unfoldable pub failed_with_message : ContainerStatus → Bool
failed_with_message s = elim s.state [
  | terminated code reason text ↦
      not (exited_cleanly (terminated code reason text)) && not (text == "")
  | waiting reason text ↦ false
  | running ↦ false
]

-- The first init container that waits.
unfoldable pub first_waiting : List ContainerStatus → Option (String × String)
first_waiting [] = none
first_waiting (s ∷ rest) =
    let later = first_waiting rest in
    elim s.state [
      | waiting reason text ↦ some (reason, text)
      | terminated code reason text ↦ later
      | running ↦ later
    ]

abbrev pub reason_completed : String
reason_completed = "Completed"

-- The switch on the phase, with the reader of termination messages as an argument.
module _ (now : ℕ) (get_termination_message : Pod → ContainerStatus → String) where
  unfoldable pub success_condition : Condition
  success_condition = condition_at now condition_succeeded condition_true reason_completed ""

  unfoldable pub failure_condition : Pod → Condition
  unfolding failed_with_message find
  failure_condition pod = elim (find failed_with_message pod.init_container_statuses) [
    | some s ↦
        condition_at now condition_succeeded condition_false "Failed"
          ("Error: " <> pod.message <> get_termination_message pod s)
    | none ↦ condition_at now condition_succeeded condition_false "Failed" pod.message
  ]

  unfoldable pub pending_condition : Pod → Condition
  unfolding first_waiting
  pending_condition pod = elim (first_waiting pod.init_container_statuses) [
    | some w ↦ condition_at now condition_succeeded condition_unknown w.0 w.1
    | none ↦ condition_at now condition_succeeded condition_unknown "" ""
  ]

  unfoldable pub verdict : Pod → List String → Condition
  unfolding success_condition failure_condition pending_condition any
  verdict pod steps = elim pod.phase [
    | pod_succeeded ↦ success_condition
    | pod_failed ↦
        if pod.reason == "DeadlineExceeded" && any (λ s. s == "completion") steps
        then success_condition
        else failure_condition pod
    | pod_pending ↦ pending_condition pod
    | pod_running ↦ condition_at now condition_succeeded condition_unknown "" ""
    | pod_other s ↦ condition_at now condition_succeeded condition_unknown "" ""
  ]

  unfoldable pub condition_for_pod : Pod → List String → List Condition
  unfolding verdict
  condition_for_pod pod steps = verdict pod steps ∷ []
