-- ===== src/ResourceReconcilers/Answered.antt =====
-- The reconcilers of stores, stacks and lifecycles: what a pass writes and answers, whatever came of
-- the reading.
use kpack.Prelude.{◌≡◌, refl, String, List, [], Result, ok, err, error_of}
use kpack.Api.Condition.{get_condition, create_status_with_ready_condition}
use kpack.Api.BuilderTypes.{
  ClusterLifecycle, ClusterStack, ClusterStackSpec, ResolvedClusterLifecycle, ResolvedClusterStack,
}
use kpack.Cnb.Resources.{BuildpackStatus, ClusterStore}
use kpack.ResourceReconcilers.Reading.{Kind, Reading, of_cluster, secret_ref_of}
use kpack.ResourceReconcilers.Known.{
  IsAnswer, read_with, IsReturned, IsHeld, or_zero, reading_status-returned, reconcile_with-IsHeld,
}
use kpack.Prelude.Answers.{ending}
use kpack.ResourceReconcilers.Stores.{
  observed_store, store_with, reconcile_store_status, reconcile_store,
}
use kpack.ResourceReconcilers.Stacks.{
  no_stack, observed_stack, stack_with, reconcile_stack_status, reconcile_stack,
}
use kpack.ResourceReconcilers.Lifecycles.{
  no_lifecycle, observed_lifecycle, lifecycle_with, reconcile_lifecycle_status, reconcile_lifecycle,
}

abbrev pub store_key : ClusterStore → String × String
store_key t = of_cluster t.meta

module _ (K : Kind ClusterStore) (C : Reading (List String) (List BuildpackStatus)) where
  store_with_key :
      (t : ClusterStore) (o : Result (List BuildpackStatus))
      → store_key (store_with K C t o) ≡ store_key t
  unfolding store_with
  store_with_key t (ok a) = refl
  store_with_key t (err e) = refl

  store_with-IsAnswer :
      (t : ClusterStore) (o : Result (List BuildpackStatus))
      → IsAnswer (observed_store (store_with K C t o)).status t.meta.generation o
  unfolding store_with observed_store create_status_with_ready_condition get_condition
  store_with-IsAnswer t (ok a) = (refl, refl, refl)
  store_with-IsAnswer t (err e) = (refl, refl, refl)

  -- Beside its status a pass changes what was read of the store, and nothing else.
  store_answered :
      (t : ClusterStore) (o : Result (List BuildpackStatus))
      → observed_store (store_with K C t o) ≡ record t {
        status = (observed_store (store_with K C t o)).status;
        buildpacks = or_zero [] o;
      }
  unfolding store_with observed_store
  store_answered t (ok a) = refl
  store_answered t (err e) = refl

  -- When the cache holds a store throughout the pass and no part of the reading panics, the pass
  -- writes the store with what was read, or with none of it after an error, unless the cache has
  -- that status already, and changes nothing else of it. It answers with the error of the write, or
  -- else with that of the reading. The status is ready just if there was no error, has its text,
  -- and speaks of the present generation of the store.
  pub reconcile_store_known :
      (t : ClusterStore) (o : Result (List BuildpackStatus)) (h : List ClusterStore)
      → IsHeld K store_key observed_store t
      → read_with C (secret_ref_of t.service_account_ref) t.sources ≡ o
      → IsReturned C o
      → (new : ClusterStore) × IsAnswer new.status t.meta.generation o
        × (new ≡ record t { status = new.status; buildpacks = or_zero [] o })
        × (reconcile_store K C t.meta.name h
            ≡ ending (K.status_equal new t) (K.answer_update h new) (error_of o) new h)
  unfolding reconcile_store reconcile_store_status
  reconcile_store_known t o h held read safe = (
    observed_store (store_with K C t o),
    store_with-IsAnswer t o,
    store_answered t o,
    reconcile_with-IsHeld K store_key observed_store (reconcile_store_status K C) t
        (store_with K C t o) (error_of o) h held
        (reading_status-returned C (store_with K C t) (secret_ref_of t.service_account_ref)
          t.sources o read safe)
        (store_with_key t o),
  )

abbrev pub stack_key : ClusterStack → String × String
stack_key t = of_cluster t.meta

module _ (K : Kind ClusterStack) (C : Reading ClusterStackSpec ResolvedClusterStack) where
  stack_with_key :
      (t : ClusterStack) (o : Result ResolvedClusterStack)
      → stack_key (stack_with K C t o) ≡ stack_key t
  unfolding stack_with
  stack_with_key t (ok a) = refl
  stack_with_key t (err e) = refl

  stack_with-IsAnswer :
      (t : ClusterStack) (o : Result ResolvedClusterStack)
      → IsAnswer (observed_stack (stack_with K C t o)).status t.meta.generation o
  unfolding stack_with observed_stack create_status_with_ready_condition get_condition
  stack_with-IsAnswer t (ok a) = (refl, refl, refl)
  stack_with-IsAnswer t (err e) = (refl, refl, refl)

  -- Beside its status a pass changes what was read of the stack, and nothing else.
  stack_answered :
      (t : ClusterStack) (o : Result ResolvedClusterStack)
      → observed_stack (stack_with K C t o) ≡ record t {
        status = (observed_stack (stack_with K C t o)).status;
        resolved = or_zero no_stack o;
      }
  unfolding stack_with observed_stack
  stack_answered t (ok a) = refl
  stack_answered t (err e) = refl

  -- When the cache holds a stack throughout the pass and no part of the reading panics, the pass
  -- writes the stack with what was read, or with none of it after an error, unless the cache has
  -- that status already, and changes nothing else of it. It answers with the error of the write, or
  -- else with that of the reading. The status is ready just if there was no error, has its text,
  -- and speaks of the present generation of the stack.
  pub reconcile_stack_known :
      (t : ClusterStack) (o : Result ResolvedClusterStack) (h : List ClusterStack)
      → IsHeld K stack_key observed_stack t
      → read_with C (secret_ref_of t.spec.service_account_ref) t.spec ≡ o
      → IsReturned C o
      → (new : ClusterStack) × IsAnswer new.status t.meta.generation o
        × (new ≡ record t { status = new.status; resolved = or_zero no_stack o })
        × (reconcile_stack K C t.meta.name h
            ≡ ending (K.status_equal new t) (K.answer_update h new) (error_of o) new h)
  unfolding reconcile_stack reconcile_stack_status
  reconcile_stack_known t o h held read safe = (
    observed_stack (stack_with K C t o),
    stack_with-IsAnswer t o,
    stack_answered t o,
    reconcile_with-IsHeld K stack_key observed_stack (reconcile_stack_status K C) t
        (stack_with K C t o) (error_of o) h held
        (reading_status-returned C (stack_with K C t) (secret_ref_of t.spec.service_account_ref)
          t.spec o read safe)
        (stack_with_key t o),
  )

abbrev pub lifecycle_key : ClusterLifecycle → String × String
lifecycle_key t = of_cluster t.meta

module _ (K : Kind ClusterLifecycle) (C : Reading String ResolvedClusterLifecycle) where
  lifecycle_with_key :
      (t : ClusterLifecycle) (o : Result ResolvedClusterLifecycle)
      → lifecycle_key (lifecycle_with K C t o) ≡ lifecycle_key t
  unfolding lifecycle_with
  lifecycle_with_key t (ok a) = refl
  lifecycle_with_key t (err e) = refl

  lifecycle_with-IsAnswer :
      (t : ClusterLifecycle) (o : Result ResolvedClusterLifecycle)
      → IsAnswer (observed_lifecycle (lifecycle_with K C t o)).status t.meta.generation o
  unfolding lifecycle_with observed_lifecycle create_status_with_ready_condition get_condition
  lifecycle_with-IsAnswer t (ok a) = (refl, refl, refl)
  lifecycle_with-IsAnswer t (err e) = (refl, refl, refl)

  -- Beside its status a pass changes what was read of the lifecycle, and nothing else.
  lifecycle_answered :
      (t : ClusterLifecycle) (o : Result ResolvedClusterLifecycle)
      → observed_lifecycle (lifecycle_with K C t o) ≡ record t {
        status = (observed_lifecycle (lifecycle_with K C t o)).status;
        resolved = or_zero no_lifecycle o;
      }
  unfolding lifecycle_with observed_lifecycle
  lifecycle_answered t (ok a) = refl
  lifecycle_answered t (err e) = refl

  -- When the cache holds a lifecycle throughout the pass and no part of the reading panics, the
  -- pass writes the lifecycle with what was read, or with none of it after an error, unless the
  -- cache has that status already, and changes nothing else of it. It answers with the error of the
  -- write, or else with that of the reading. The status is ready just if there was no error, has
  -- its text, and speaks of the present generation of the lifecycle.
  pub reconcile_lifecycle_known :
      (t : ClusterLifecycle) (o : Result ResolvedClusterLifecycle) (h : List ClusterLifecycle)
      → IsHeld K lifecycle_key observed_lifecycle t
      → read_with C (secret_ref_of t.service_account_ref) t.spec_image ≡ o
      → IsReturned C o
      → (new : ClusterLifecycle) × IsAnswer new.status t.meta.generation o
        × (new ≡ record t { status = new.status; resolved = or_zero no_lifecycle o })
        × (reconcile_lifecycle K C t.meta.name h
            ≡ ending (K.status_equal new t) (K.answer_update h new) (error_of o) new h)
  unfolding reconcile_lifecycle reconcile_lifecycle_status
  reconcile_lifecycle_known t o h held read safe = (
    observed_lifecycle (lifecycle_with K C t o),
    lifecycle_with-IsAnswer t o,
    lifecycle_answered t o,
    reconcile_with-IsHeld K lifecycle_key observed_lifecycle (reconcile_lifecycle_status K C) t
        (lifecycle_with K C t o) (error_of o) h held
        (reading_status-returned C (lifecycle_with K C t) (secret_ref_of t.service_account_ref)
          t.spec_image o read safe)
        (lifecycle_with_key t o),
  )
