-- ===== src/ResourceReconcilers/AnsweredBuildpacks.antt =====
-- The reconcilers of buildpacks: what a pass writes and answers, whatever came of the reading.
use kpack.Prelude.{◌≡◌, refl, String, List, [], ◌∷◌, Result, ok, err, error_of}
use kpack.Api.Condition.{get_condition, create_status_with_ready_condition}
use kpack.Cnb.Resources.{Buildpack, BuildpackStatus, ClusterBuildpack}
use kpack.ResourceReconcilers.Reading.{Kind, Reading, of_cluster, namespaced, secret_ref_of}
use kpack.ResourceReconcilers.Known.{
  IsAnswer, read_with, IsReturned, IsHeld, or_zero, reading_status-returned, reconcile_with-IsHeld,
}
use kpack.Prelude.Answers.{ending}
use kpack.ResourceReconcilers.Buildpacks.{
  secret_ref_of_buildpack, observed_buildpack, buildpack_with, reconcile_buildpack_status,
  reconcile_buildpack, observed_cluster_buildpack, cluster_buildpack_with,
  reconcile_cluster_buildpack_status, reconcile_cluster_buildpack,
}

abbrev pub buildpack_key : Buildpack → String × String
buildpack_key t = namespaced t.meta

module _ (K : Kind Buildpack) (C : Reading (List String) (List BuildpackStatus)) where
  buildpack_with_key :
      (t : Buildpack) (o : Result (List BuildpackStatus))
      → buildpack_key (buildpack_with K C t o) ≡ buildpack_key t
  unfolding buildpack_with
  buildpack_with_key t (ok a) = refl
  buildpack_with_key t (err e) = refl

  buildpack_with-IsAnswer :
      (t : Buildpack) (o : Result (List BuildpackStatus))
      → IsAnswer (observed_buildpack (buildpack_with K C t o)).status t.meta.generation o
  unfolding buildpack_with observed_buildpack create_status_with_ready_condition get_condition
  buildpack_with-IsAnswer t (ok a) = (refl, refl, refl)
  buildpack_with-IsAnswer t (err e) = (refl, refl, refl)

  -- Beside its status a pass changes what was read of the buildpack, and nothing else.
  buildpack_answered :
      (t : Buildpack) (o : Result (List BuildpackStatus))
      → observed_buildpack (buildpack_with K C t o) ≡ record t {
        status = (observed_buildpack (buildpack_with K C t o)).status;
        buildpacks = or_zero [] o;
      }
  unfolding buildpack_with observed_buildpack
  buildpack_answered t (ok a) = refl
  buildpack_answered t (err e) = refl

  -- When the cache holds a buildpack throughout the pass and no part of the reading panics, the
  -- pass writes the buildpack with what was read, or with none of it after an error, unless the
  -- cache has that status already, and changes nothing else of it. It answers with the error of the
  -- write, or else with that of the reading. The status is ready just if there was no error, has
  -- its text, and speaks of the present generation of the buildpack.
  pub reconcile_buildpack_known :
      (t : Buildpack) (o : Result (List BuildpackStatus)) (h : List Buildpack)
      → IsHeld K buildpack_key observed_buildpack t
      → read_with C (secret_ref_of_buildpack t) (t.source ∷ []) ≡ o
      → IsReturned C o
      → (new : Buildpack) × IsAnswer new.status t.meta.generation o
        × (new ≡ record t { status = new.status; buildpacks = or_zero [] o })
        × (reconcile_buildpack K C t.meta.namespace t.meta.name h
            ≡ ending (K.status_equal new t) (K.answer_update h new) (error_of o) new h)
  unfolding reconcile_buildpack reconcile_buildpack_status
  reconcile_buildpack_known t o h held read safe = (
    observed_buildpack (buildpack_with K C t o),
    buildpack_with-IsAnswer t o,
    buildpack_answered t o,
    reconcile_with-IsHeld K buildpack_key observed_buildpack (reconcile_buildpack_status K C) t
        (buildpack_with K C t o) (error_of o) h held
        (reading_status-returned C (buildpack_with K C t) (secret_ref_of_buildpack t)
          (t.source ∷ []) o read safe)
        (buildpack_with_key t o),
  )

abbrev pub cluster_buildpack_key : ClusterBuildpack → String × String
cluster_buildpack_key t = of_cluster t.meta

module _ (K : Kind ClusterBuildpack) (C : Reading (List String) (List BuildpackStatus)) where
  cluster_buildpack_with_key :
      (t : ClusterBuildpack) (o : Result (List BuildpackStatus))
      → cluster_buildpack_key (cluster_buildpack_with K C t o) ≡ cluster_buildpack_key t
  unfolding cluster_buildpack_with
  cluster_buildpack_with_key t (ok a) = refl
  cluster_buildpack_with_key t (err e) = refl

  cluster_buildpack_with-IsAnswer :
      (t : ClusterBuildpack) (o : Result (List BuildpackStatus))
      → IsAnswer
          (observed_cluster_buildpack (cluster_buildpack_with K C t o)).status
          t.meta.generation
          o
  unfolding cluster_buildpack_with observed_cluster_buildpack create_status_with_ready_condition
      get_condition
  cluster_buildpack_with-IsAnswer t (ok a) = (refl, refl, refl)
  cluster_buildpack_with-IsAnswer t (err e) = (refl, refl, refl)

  -- Beside its status a pass changes what was read of the cluster buildpack, and nothing else.
  cluster_buildpack_answered :
      (t : ClusterBuildpack) (o : Result (List BuildpackStatus))
      → observed_cluster_buildpack (cluster_buildpack_with K C t o) ≡ record t {
        status = (observed_cluster_buildpack (cluster_buildpack_with K C t o)).status;
        buildpacks = or_zero [] o;
      }
  unfolding cluster_buildpack_with observed_cluster_buildpack
  cluster_buildpack_answered t (ok a) = refl
  cluster_buildpack_answered t (err e) = refl

  -- When the cache holds a cluster buildpack throughout the pass and no part of the reading panics,
  -- the pass writes the cluster buildpack with what was read, or with none of it after an error,
  -- unless the cache has that status already, and changes nothing else of it. It answers with the
  -- error of the write, or else with that of the reading. The status is ready just if there was no
  -- error, has its text, and speaks of the present generation of the cluster buildpack.
  pub reconcile_cluster_buildpack_known :
      (t : ClusterBuildpack) (o : Result (List BuildpackStatus)) (h : List ClusterBuildpack)
      → IsHeld K cluster_buildpack_key observed_cluster_buildpack t
      → read_with C (secret_ref_of t.service_account_ref) (t.source ∷ []) ≡ o
      → IsReturned C o
      → (new : ClusterBuildpack) × IsAnswer new.status t.meta.generation o
        × (new ≡ record t { status = new.status; buildpacks = or_zero [] o })
        × (reconcile_cluster_buildpack K C t.meta.name h
            ≡ ending (K.status_equal new t) (K.answer_update h new) (error_of o) new h)
  unfolding reconcile_cluster_buildpack reconcile_cluster_buildpack_status
  reconcile_cluster_buildpack_known t o h held read safe = (
    observed_cluster_buildpack (cluster_buildpack_with K C t o),
    cluster_buildpack_with-IsAnswer t o,
    cluster_buildpack_answered t o,
    reconcile_with-IsHeld K cluster_buildpack_key observed_cluster_buildpack
        (reconcile_cluster_buildpack_status K C) t (cluster_buildpack_with K C t o) (error_of o) h
        held
        (reading_status-returned C (cluster_buildpack_with K C t)
          (secret_ref_of t.service_account_ref) (t.source ∷ []) o read safe)
        (cluster_buildpack_with_key t o),
  )
