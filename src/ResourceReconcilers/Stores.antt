-- ===== src/ResourceReconcilers/Stores.antt =====
-- clusterstore.go: the buildpacks of the images of a store.
use kpack.Prelude.Run.{M}
use kpack.Prelude.{String, List, [], Option, none, some, Result, ok, err, Error}
use kpack.Api.Condition.{create_status_with_ready_condition}
use kpack.Cnb.Resources.{BuildpackStatus, ClusterStore}
use kpack.ResourceReconcilers.Reading.{Kind, Reading, of_cluster, secret_ref_of, reading_status}
use kpack.ResourceReconcilers.Pass.{update_status, reconcile_with}

unfoldable pub observed_store : ClusterStore → ClusterStore
observed_store r = record r {
  status = record (r.status) { observed_generation = r.meta.generation };
}

module _ (K : Kind ClusterStore) (C : Reading (List String) (List BuildpackStatus)) where
  -- The new status, by what was read or the error.
  unfoldable pub store_with : ClusterStore → Result (List BuildpackStatus) → ClusterStore
  unfolding create_status_with_ready_condition
  store_with r (err e) = record r {
    status = create_status_with_ready_condition C.now r.meta.generation (some e);
    buildpacks = [];
  }
  store_with r (ok found) = record r {
    status = create_status_with_ready_condition C.now r.meta.generation none;
    buildpacks = found;
  }

  unfoldable pub reconcile_store_status : ClusterStore → Result (ClusterStore × Option Error)
  unfolding store_with reading_status
  reconcile_store_status r =
      reading_status C (store_with r) (secret_ref_of r.service_account_ref) r.sources

  unfoldable pub update_store_status : ClusterStore → M ClusterStore (Unit {0})
  unfolding update_status observed_store
  update_store_status desired = update_status K (λ r. of_cluster r.meta) observed_store desired

  unfoldable pub reconcile_store : String → M ClusterStore (Unit {0})
  unfolding reconcile_with observed_store reconcile_store_status
  reconcile_store name =
      reconcile_with K (λ r. of_cluster r.meta) observed_store reconcile_store_status "" name
