-- ===== src/BuildReconciler/Verdict.antt =====
-- pkg/reconciler/build/build.go: the condition of a build agrees with the metadata it records.
use kpack.Prelude.{
  ℕ, ◌≡◌, refl, sym, ap, ◌∙◌, String, Bool, true, false, ◌&&◌, ◌||◌, List, [], ◌∷◌, ◌++◌, map,
  Option, none, some, if◌then◌else◌, ◌==◌, ◌<>◌, any, find, select, Bool-cases, Option-cases, inl,
  inr, arith, eq_iff, All,
}
use kpack.Api.Condition.{
  Condition, is_condition_true, condition_false, condition_at, condition_succeeded,
}
use kpack.Api.Build.{is_build_step, completion_container_name}
use kpack.BuildReconciler.PodStatus.{
  Pod, PodPhase, ContainerStatus, pod_pending, pod_running, pod_succeeded, pod_failed, pod_other,
  statuses, exited_cleanly, completed_cleanly, build_step_completed, steps_completed, described,
  phase_ready, pod_completed_with_active_deadline, failure_condition, pending_condition,
  success_condition, verdict, failed_with_message, first_waiting,
}

-- No init container of the pod bears the name of the completion container.
abbrev pub NoInitCompletion : Pod → Type 0
NoInitCompletion pod =
    All (λ s. (s.name == completion_container_name) ≡ false) pod.init_container_statuses

failure-not_true :
    (now : ℕ) (m : Pod → ContainerStatus → String) (pod : Pod)
    → is_condition_true (failure_condition now m pod).status ≡ false
unfolding failure_condition
failure-not_true now m pod =
    elim (Option-cases (find failed_with_message pod.init_container_statuses)) [
      | inl e ↦ rw (failure_condition, e) refl
      | inr (s, e) ↦ rw (failure_condition, e) refl
    ]

pending-not_true :
    (now : ℕ) (m : Pod → ContainerStatus → String) (pod : Pod)
    → is_condition_true (pending_condition now m pod).status ≡ false
unfolding pending_condition
pending-not_true now m pod = elim (Option-cases (first_waiting pod.init_container_statuses)) [
  | inl e ↦ rw (pending_condition, e) refl
  | inr (s, e) ↦ rw (pending_condition, e) refl
]

completion-is_build_step : (n : String) → (n == "completion") ≡ true → is_build_step n ≡ true
unfolding is_build_step any
completion-is_build_step n e = rw ((eq_iff n "completion").0 e) refl

any-map-select :
    {A B : Type 0} (q : B → Bool) (f : A → B) (p : A → Bool) (xs : List A)
    → any q (map f (select p xs)) ≡ any (λ x. p x && q (f x)) xs
unfolding any select
any-map-select q f p [] = refl
any-map-select q f p (x ∷ xs) = elim (Bool-cases (p x)) [
  | inl e ↦ rw e (ap (λ b. q (f x) || b) (any-map-select q f p xs))
  | inr e ↦ rw e (any-map-select q f p xs)
]

any-same : {A : Type 0} (p q : A → Bool) (xs : List A) → ((x : A) → p x ≡ q x) → any p xs ≡ any q xs
unfolding any
any-same p q [] h = refl
any-same p q (x ∷ xs) h = rw (h x) (ap (λ b. q x || b) (any-same p q xs h))

-- A container called completion is a build step.
completion-completed :
    (s : ContainerStatus)
    → (build_step_completed s && (s.name == "completion")) ≡ completed_cleanly s
unfolding build_step_completed completed_cleanly
completion-completed s = elim (Bool-cases (s.name == "completion")) [
  | inl e ↦ rw (e, completion-is_build_step s.name e) (both (exited_cleanly s.state))
  | inr e ↦ rw e (neither (exited_cleanly s.state && is_build_step s.name))
]
  where
    both : (b : Bool) → ((b && true) && true) ≡ b
    both true = refl
    both false = refl

    neither : (b : Bool) → (b && false) ≡ false
    neither true = refl
    neither false = refl

completed-names :
    (xs : List ContainerStatus)
    → any (λ n. n == "completion") (map (λ s. s.name) (select build_step_completed xs))
      ≡ any completed_cleanly xs
completed-names xs =
    any-map-select (λ n. n == "completion") (λ s. s.name) build_step_completed xs
    ∙ any-same (λ s. build_step_completed s && (s.name == "completion")) completed_cleanly xs
        completion-completed

any-append :
    (xs ys : List ContainerStatus)
    → All (λ s. (s.name == completion_container_name) ≡ false) xs
    → any completed_cleanly (xs ++ ys) ≡ any completed_cleanly ys
unfolding any completed_cleanly
any-append [] ys h = refl
any-append (x ∷ xs) ys (e, h) = ground (arith, e, any-append xs ys h)

deadline-completed :
    (pod : Pod)
    → NoInitCompletion pod
    → any (λ n. n == "completion") (steps_completed pod)
      ≡ any completed_cleanly pod.container_statuses
unfolding steps_completed
deadline-completed pod h =
    completed-names (statuses pod) ∙ any-append pod.init_container_statuses pod.container_statuses h

module _ (now : ℕ) (m : Pod → ContainerStatus → String) where
  chosen :
      (pod : Pod) (b : Bool)
      → is_condition_true
          (if b then success_condition now m else failure_condition now m pod).status
        ≡ b
  unfolding success_condition
  chosen pod true = refl
  chosen pod false = failure-not_true now m pod

  verdict-failed :
      (pod : Pod) (steps : List String)
      → pod.phase ≡ pod_failed
      → is_condition_true (verdict now m pod steps).status
        ≡ ((pod.reason == "DeadlineExceeded") && any (λ n. n == "completion") steps)
  unfolding verdict
  verdict-failed pod steps e = rw e (
      chosen (record pod { phase = pod_failed })
        ((pod.reason == "DeadlineExceeded") && any (λ n. n == "completion") steps))

phase_ready-failed :
    (pod : Pod)
    → pod.phase ≡ pod_failed
    → phase_ready pod
      ≡ ((pod.reason == "DeadlineExceeded") && any completed_cleanly pod.container_statuses)
unfolding phase_ready pod_completed_with_active_deadline
phase_ready-failed pod e = rw e refl

module _ (now : ℕ) (m : Pod → ContainerStatus → String) where
  failure-type : (pod : Pod) → (failure_condition now m pod).type ≡ condition_succeeded
  unfolding failure_condition
  failure-type pod = after (find failed_with_message pod.init_container_statuses)
    where
      after :
          (o : Option ContainerStatus)
          → (elim o as (λ o. Condition) [
            | some s ↦
                condition_at now condition_succeeded condition_false "Failed"
                  ("Error: " <> pod.message <> m pod s)
            | none ↦ condition_at now condition_succeeded condition_false "Failed" pod.message
          ]).type
            ≡ condition_succeeded
      after none = refl
      after (some s) = refl

  pending-type : (pod : Pod) → (pending_condition now m pod).type ≡ condition_succeeded
  unfolding pending_condition
  pending-type pod = elim (Option-cases (first_waiting pod.init_container_statuses)) [
    | inl e ↦ rw (pending_condition, e) refl
    | inr (w, e) ↦ rw (pending_condition, e) refl
  ]

  chosen-type :
      (pod : Pod) (b : Bool)
      → (if b then success_condition now m else failure_condition now m pod).type
        ≡ condition_succeeded
  unfolding success_condition
  chosen-type pod true = refl
  chosen-type pod false = failure-type pod

  pub verdict-type :
      (pod : Pod) (steps : List String) → (verdict now m pod steps).type ≡ condition_succeeded
  unfolding verdict success_condition
  verdict-type pod steps = go pod.phase refl
    where
      go : (p : PodPhase) → pod.phase ≡ p → (verdict now m pod steps).type ≡ condition_succeeded
      go pod_succeeded e = rw e refl
      go pod_running e = rw e refl
      go (pod_other s) e = rw e refl
      go pod_pending e = rw e (pending-type (record pod { phase = pod_pending }))
      go pod_failed e = rw e (
          chosen-type (record pod { phase = pod_failed })
            ((pod.reason == "DeadlineExceeded") && any (λ n. n == "completion") steps))

-- The pod's condition is true exactly where the metadata is ready as far as the pod is concerned,
-- although the one asks the names of the completed steps, of init containers too, and the other the
-- statuses of the ordinary containers. No init container may be called completion.
pub verdict_true :
    (now : ℕ) (m : Pod → ContainerStatus → String) (pod : Pod)
    → NoInitCompletion pod
    → is_condition_true (verdict now m (described pod) (steps_completed pod)).status
      ≡ phase_ready pod
unfolding verdict phase_ready pod_completed_with_active_deadline described success_condition
verdict_true now m pod h = go pod.phase refl
  where
    go :
        (p : PodPhase)
        → pod.phase ≡ p
        → is_condition_true (verdict now m (described pod) (steps_completed pod)).status
          ≡ phase_ready pod
    go pod_succeeded e = rw e refl
    go pod_running e = rw e refl
    go (pod_other s) e = rw e refl
    go pod_pending e = rw e (pending-not_true now m (described pod))
    go pod_failed e =
        verdict-failed now m (described pod) (steps_completed pod) e
        ∙ ap (λ b. (pod.reason == "DeadlineExceeded") && b) (deadline-completed pod h)
        ∙ sym (phase_ready-failed pod e)
