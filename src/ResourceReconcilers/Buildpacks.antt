-- ===== src/ResourceReconcilers/Buildpacks.antt =====
-- buildpack.go and clusterbuildpack.go: the buildpacks of one image.
use kpack.Prelude.Run.{M}
use kpack.Prelude.{
  String, List, [], ◌∷◌, Option, none, some, Result, ok, err, Error, if◌then◌else◌, ◌==◌,
}
use kpack.Api.Condition.{create_status_with_ready_condition}
use kpack.Cnb.Resources.{Buildpack, BuildpackStatus, ClusterBuildpack, SecretRef}
use kpack.ResourceReconcilers.Reading.{
  Kind, Reading, namespaced, of_cluster, secret_ref_of, reading_status,
}
use kpack.ResourceReconcilers.Pass.{update_status, reconcile_with}

-- The secrets of a Buildpack are those of its service account, if it names one.
abbrev pub secret_ref_of_buildpack : Buildpack → SecretRef
secret_ref_of_buildpack r = if r.service_account_name == "" then secret_ref_of none else record {
  service_account = r.service_account_name;
  namespace = r.meta.namespace;
  image_pull_secrets = [];
}

unfoldable pub observed_buildpack : Buildpack → Buildpack
observed_buildpack r = record r {
  status = record (r.status) { observed_generation = r.meta.generation };
}

module _ (K : Kind Buildpack) (C : Reading (List String) (List BuildpackStatus)) where
  -- The new status, by what was read or the error.
  unfoldable pub buildpack_with : Buildpack → Result (List BuildpackStatus) → Buildpack
  unfolding create_status_with_ready_condition
  buildpack_with r (err e) = record r {
    status = create_status_with_ready_condition C.now r.meta.generation (some e);
    buildpacks = [];
  }
  buildpack_with r (ok found) = record r {
    status = create_status_with_ready_condition C.now r.meta.generation none;
    buildpacks = found;
  }

  unfoldable pub reconcile_buildpack_status : Buildpack → Result (Buildpack × Option Error)
  unfolding buildpack_with reading_status
  reconcile_buildpack_status r =
      reading_status C (buildpack_with r) (secret_ref_of_buildpack r) (r.source ∷ [])

  unfoldable pub update_buildpack_status : Buildpack → M Buildpack (Unit {0})
  unfolding update_status observed_buildpack
  update_buildpack_status desired =
      update_status K (λ r. namespaced r.meta) observed_buildpack desired

  unfoldable pub reconcile_buildpack : String → String → M Buildpack (Unit {0})
  unfolding reconcile_with observed_buildpack reconcile_buildpack_status
  reconcile_buildpack namespace name =
      reconcile_with K (λ r. namespaced r.meta) observed_buildpack reconcile_buildpack_status
        namespace name

unfoldable pub observed_cluster_buildpack : ClusterBuildpack → ClusterBuildpack
observed_cluster_buildpack r = record r {
  status = record (r.status) { observed_generation = r.meta.generation };
}

module _ (K : Kind ClusterBuildpack) (C : Reading (List String) (List BuildpackStatus)) where
  -- The new status, by what was read or the error.
  unfoldable pub cluster_buildpack_with :
      ClusterBuildpack → Result (List BuildpackStatus) → ClusterBuildpack
  unfolding create_status_with_ready_condition
  cluster_buildpack_with r (err e) = record r {
    status = create_status_with_ready_condition C.now r.meta.generation (some e);
    buildpacks = [];
  }
  cluster_buildpack_with r (ok found) = record r {
    status = create_status_with_ready_condition C.now r.meta.generation none;
    buildpacks = found;
  }

  unfoldable pub reconcile_cluster_buildpack_status :
      ClusterBuildpack → Result (ClusterBuildpack × Option Error)
  unfolding cluster_buildpack_with reading_status
  reconcile_cluster_buildpack_status r =
      reading_status C (cluster_buildpack_with r) (secret_ref_of r.service_account_ref)
        (r.source ∷ [])

  unfoldable pub update_cluster_buildpack_status : ClusterBuildpack → M ClusterBuildpack (Unit {0})
  unfolding update_status observed_cluster_buildpack
  update_cluster_buildpack_status desired =
      update_status K (λ r. of_cluster r.meta) observed_cluster_buildpack desired

  unfoldable pub reconcile_cluster_buildpack : String → M ClusterBuildpack (Unit {0})
  unfolding reconcile_with observed_cluster_buildpack reconcile_cluster_buildpack_status
  reconcile_cluster_buildpack name =
      reconcile_with K (λ r. of_cluster r.meta) observed_cluster_buildpack
        reconcile_cluster_buildpack_status "" name
