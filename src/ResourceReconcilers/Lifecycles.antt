-- ===== src/ResourceReconcilers/Lifecycles.antt =====
-- clusterlifecycle.go: what the image of a lifecycle says of it.
use kpack.Prelude.Run.{M}
use kpack.Prelude.{String, [], Option, none, some, Result, ok, err, Error}
use kpack.Api.Condition.{create_status_with_ready_condition}
use kpack.Api.BuilderTypes.{ApiVersions, ClusterLifecycle, ResolvedClusterLifecycle}
use kpack.ResourceReconcilers.Reading.{Kind, Reading, of_cluster, secret_ref_of, reading_status}
use kpack.ResourceReconcilers.Pass.{update_status, reconcile_with}

abbrev no_versions : ApiVersions
no_versions = record { deprecated = []; supported = [] }

-- The zero value that an error leaves in the status.
abbrev pub no_lifecycle : ResolvedClusterLifecycle
no_lifecycle = record {
  image = record { latest_image = ""; image = "" };
  version = "";
  api = record { buildpack_version = ""; platform_version = "" };
  apis = record { buildpack = no_versions; platform = no_versions };
}

unfoldable pub observed_lifecycle : ClusterLifecycle → ClusterLifecycle
observed_lifecycle r = record r {
  status = record (r.status) { observed_generation = r.meta.generation };
}

module _ (K : Kind ClusterLifecycle) (C : Reading String ResolvedClusterLifecycle) where
  -- The new status, by what was read or the error.
  unfoldable pub lifecycle_with :
      ClusterLifecycle → Result ResolvedClusterLifecycle → ClusterLifecycle
  unfolding create_status_with_ready_condition
  lifecycle_with r (err e) = record r {
    status = create_status_with_ready_condition C.now r.meta.generation (some e);
    resolved = no_lifecycle;
  }
  lifecycle_with r (ok found) = record r {
    status = create_status_with_ready_condition C.now r.meta.generation none;
    resolved = found;
  }

  unfoldable pub reconcile_lifecycle_status :
      ClusterLifecycle → Result (ClusterLifecycle × Option Error)
  unfolding lifecycle_with reading_status
  reconcile_lifecycle_status r =
      reading_status C (lifecycle_with r) (secret_ref_of r.service_account_ref) r.spec_image

  unfoldable pub update_lifecycle_status : ClusterLifecycle → M ClusterLifecycle (Unit {0})
  unfolding update_status observed_lifecycle
  update_lifecycle_status desired =
      update_status K (λ r. of_cluster r.meta) observed_lifecycle desired

  unfoldable pub reconcile_lifecycle : String → M ClusterLifecycle (Unit {0})
  unfolding reconcile_with observed_lifecycle reconcile_lifecycle_status
  reconcile_lifecycle name =
      reconcile_with K (λ r. of_cluster r.meta) observed_lifecycle reconcile_lifecycle_status ""
        name
