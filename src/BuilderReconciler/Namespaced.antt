-- ===== src/BuilderReconciler/Namespaced.antt =====
-- pkg/reconciler/builder/builder.go: the pass of a Builder.
use kpack.Prelude.Run.{◌>>=◌, ◌>>◌, lift, ask}
use kpack.Prelude.{String, ◌<>◌, Result}
use kpack.Api.BuilderTypes.{Builder, BuilderRecord, service_account}
use kpack.BuilderReconciler.{
  Builders, NamespacedName, Run, lifecycle_name, account_secrets, track_object, track_kind_of,
  find_store, find_stack, find_lifecycle, keychain_or, create_image, tagged_reference,
}
use kpack.BuilderReconciler.Recording.{Resource, update_status, reconcile_with}

unfoldable pub observed_builder : Builder → Builder
observed_builder b = record b {
  status = record (b.status) {
    status = record (b.status.status) { observed_generation = b.meta.generation };
  };
}

abbrev pub builder_resource : Resource Builder
builder_resource = record {
  key = λ b. (b.meta.namespace, b.meta.name);
  status = λ b. b.status;
  with_status = λ b status. record b { status = status };
  observed = observed_builder;
}

abbrev pub builder_stack_not_ready : String → String
builder_stack_not_ready name = "Error: clusterstack '" <> name <> "' is not ready"

module _ (S : Builders Builder) where
  unfoldable pub resolve_builder_ref : Builder → Result String
  unfolding tagged_reference
  resolve_builder_ref b =
      tagged_reference S b.spec.tag ("builder-" <> b.meta.namespace <> "-" <> b.meta.name)

  unfoldable pub create_for_builder : Builder → Run S BuilderRecord
  unfolding track_object lifecycle_name find_store track_kind_of find_stack find_lifecycle
      service_account keychain_or resolve_builder_ref create_image
  create_for_builder b =
      let who : NamespacedName = (b.meta.namespace, b.meta.name) in
      do
        track_object S "ClusterStack" b.spec.stack who
        track_object S "ClusterLifecycle" (lifecycle_name b.spec) who
        store ← find_store S b.spec who
        track_kind_of S "Buildpack" who
        track_kind_of S "ClusterBuildpack" who
        buildpacks ← ask (λ h. S.list_buildpacks h b.meta.namespace)
        cluster_buildpacks ← ask S.list_cluster_buildpacks
        stack ← find_stack S builder_stack_not_ready b.spec
        lifecycle ← find_lifecycle S b.spec
        keychain ← ask (λ h.
            S.keychain_for_secret_ref h (account_secrets (service_account b) b.meta.namespace))
        stack_keychain ← keychain_or S keychain stack.spec.service_account_ref
        lifecycle_keychain ← keychain_or S keychain lifecycle.service_account_ref
        secrets ← ask (λ h. S.secrets_for_service_account h (service_account b) b.meta.namespace)
        ref ← lift (resolve_builder_ref b)
        create_image S
            (record {
              cluster_store = store;
              buildpacks = buildpacks;
              cluster_buildpacks = cluster_buildpacks;
            })
            (record {
              builder_keychain = keychain;
              stack_keychain = stack_keychain;
              lifecycle_keychain = lifecycle_keychain;
              cluster_stack = stack;
              cluster_lifecycle = lifecycle;
              spec = b.spec;
              service_account_secrets = secrets;
              resolved_builder_ref = ref;
            })

  unfoldable pub update_builder_status : Builder → Run S (Unit {0})
  unfolding update_status
  update_builder_status desired = update_status S builder_resource desired

  unfoldable pub reconcile_builder : String → String → Run S (Unit {0})
  unfolding reconcile_with create_for_builder
  reconcile_builder namespace name =
      reconcile_with S builder_resource create_for_builder namespace name
