-- ===== src/BuilderReconciler/Cluster.antt =====
-- pkg/reconciler/clusterbuilder/clusterbuilder.go: the pass of a ClusterBuilder.
use kpack.Prelude.Run.{◌>>=◌, ◌>>◌, lift, ask}
use kpack.Prelude.{String, [], ◌<>◌, Result}
use kpack.Api.BuilderTypes.{ClusterBuilder, BuilderRecord}
use kpack.BuilderReconciler.{
  Builders, NamespacedName, Run, lifecycle_name, account_secrets, track_object, track_kind_of,
  find_store, find_stack, find_lifecycle, keychain_or, create_image, tagged_reference,
}
use kpack.BuilderReconciler.Recording.{Resource, update_status, reconcile_with}

unfoldable pub observed_cluster_builder : ClusterBuilder → ClusterBuilder
observed_cluster_builder b = record b {
  status = record (b.status) {
    status = record (b.status.status) { observed_generation = b.meta.generation };
  };
}

abbrev pub cluster_builder_resource : Resource ClusterBuilder
cluster_builder_resource = record {
  key = λ b. ("", b.meta.name);
  status = λ b. b.status;
  with_status = λ b status. record b { status = status };
  observed = observed_cluster_builder;
}

abbrev pub cluster_builder_stack_not_ready : String → String
cluster_builder_stack_not_ready name = "stack " <> name <> " is not ready"

module _ (S : Builders ClusterBuilder) where
  unfoldable pub resolve_cluster_builder_ref : ClusterBuilder → Result String
  unfolding tagged_reference
  resolve_cluster_builder_ref b = tagged_reference S b.spec.tag ("clusterbuilder-" <> b.meta.name)

  unfoldable pub create_for_cluster_builder : ClusterBuilder → Run S BuilderRecord
  unfolding track_object lifecycle_name find_store track_kind_of find_stack find_lifecycle
      keychain_or resolve_cluster_builder_ref create_image
  create_for_cluster_builder b =
      let who : NamespacedName = (b.meta.namespace, b.meta.name) in
      let account = b.service_account_ref in
      do
        track_object S "ClusterStack" b.spec.stack who
        track_object S "ClusterLifecycle" (lifecycle_name b.spec) who
        store ← find_store S b.spec who
        track_kind_of S "ClusterBuildpack" who
        cluster_buildpacks ← ask S.list_cluster_buildpacks
        stack ← find_stack S cluster_builder_stack_not_ready b.spec
        lifecycle ← find_lifecycle S b.spec
        keychain ←
            ask (λ h. S.keychain_for_secret_ref h (account_secrets account.name account.namespace))
        stack_keychain ← keychain_or S keychain stack.spec.service_account_ref
        lifecycle_keychain ← keychain_or S keychain lifecycle.service_account_ref
        secrets ← ask (λ h. S.secrets_for_service_account h account.name account.namespace)
        ref ← lift (resolve_cluster_builder_ref b)
        create_image S
            (record {
              cluster_store = store;
              buildpacks = [];
              cluster_buildpacks = cluster_buildpacks;
            })
            (record {
              builder_keychain = keychain;
              stack_keychain = stack_keychain;
              lifecycle_keychain = lifecycle_keychain;
              cluster_stack = stack;
              cluster_lifecycle = lifecycle;
              spec = b.spec;
              service_account_secrets = secrets;
              resolved_builder_ref = ref;
            })

  unfoldable pub update_cluster_builder_status : ClusterBuilder → Run S (Unit {0})
  unfolding update_status
  update_cluster_builder_status desired = update_status S cluster_builder_resource desired

  unfoldable pub reconcile_cluster_builder : String → Run S (Unit {0})
  unfolding reconcile_with create_for_cluster_builder
  reconcile_cluster_builder name =
      reconcile_with S cluster_builder_resource create_for_cluster_builder "" name
