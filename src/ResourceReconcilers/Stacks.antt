-- ===== src/ResourceReconcilers/Stacks.antt =====
-- clusterstack.go: what the two images of a stack say of it.
use kpack.Prelude.Run.{M}
use kpack.Prelude.{String, [], Option, none, some, Result, ok, err, Error, pos}
use kpack.Api.Condition.{create_status_with_ready_condition}
use kpack.Api.BuilderTypes.{ClusterStack, ClusterStackSpec, ResolvedClusterStack}
use kpack.ResourceReconcilers.Reading.{Kind, Reading, of_cluster, secret_ref_of, reading_status}
use kpack.ResourceReconcilers.Pass.{update_status, reconcile_with}

-- The zero value that an error leaves in the status.
abbrev pub no_stack : ResolvedClusterStack
no_stack = record {
  id = "";
  build_image = record { latest_image = ""; image = "" };
  run_image = record { latest_image = ""; image = "" };
  mixins = [];
  user_id = pos 0;
  group_id = pos 0;
}

unfoldable pub observed_stack : ClusterStack → ClusterStack
observed_stack r = record r {
  status = record (r.status) { observed_generation = r.meta.generation };
}

module _ (K : Kind ClusterStack) (C : Reading ClusterStackSpec ResolvedClusterStack) where
  -- The new status, by what was read or the error.
  unfoldable pub stack_with : ClusterStack → Result ResolvedClusterStack → ClusterStack
  unfolding create_status_with_ready_condition
  stack_with r (err e) = record r {
    status = create_status_with_ready_condition C.now r.meta.generation (some e);
    resolved = no_stack;
  }
  stack_with r (ok found) = record r {
    status = create_status_with_ready_condition C.now r.meta.generation none;
    resolved = found;
  }

  unfoldable pub reconcile_stack_status : ClusterStack → Result (ClusterStack × Option Error)
  unfolding stack_with reading_status
  reconcile_stack_status r =
      reading_status C (stack_with r) (secret_ref_of r.spec.service_account_ref) r.spec

  unfoldable pub update_stack_status : ClusterStack → M ClusterStack (Unit {0})
  unfolding update_status observed_stack
  update_stack_status desired = update_status K (λ r. of_cluster r.meta) observed_stack desired

  unfoldable pub reconcile_stack : String → M ClusterStack (Unit {0})
  unfolding reconcile_with observed_stack reconcile_stack_status
  reconcile_stack name =
      reconcile_with K (λ r. of_cluster r.meta) observed_stack reconcile_stack_status "" name
