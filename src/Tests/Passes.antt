-- ===== src/Tests/Passes.antt =====
-- Passes of the builder reconcilers at concrete builders.
use kpack.Prelude.Run.{◌>>=◌, ◌>>◌, pure, lift, ask, request}
use kpack.Prelude.{◌≡◌, refl, String, false, List, [], ◌∷◌, none, some, ok, err, Error, plain, All}
use kpack.Api.Condition.{ConditionStatus, condition_true, condition_false}
use kpack.Api.BuilderTypes.{Builder, BuilderSpec, BuilderStatus, ClusterBuilder, ClusterStack}
use kpack.BuilderReconciler.{Builders, Request, update_builder}
use kpack.BuilderReconciler.Namespaced.{create_for_builder, reconcile_builder}
use kpack.BuilderReconciler.Cluster.{create_for_cluster_builder, reconcile_cluster_builder}
use kpack.BuilderReconciler.Recorded.{IsRecorded, reconcile_builder_records}
use kpack.Prelude.Answers.{ending}
use kpack.BuilderReconciler.Created.{
  IsAllowed, IsObserved, IsClusterObserved, reconcile_builder-IsAllowed,
  reconcile_cluster_builder-IsAllowed,
}
use kpack.Tests.Samples.{meta_of, status_of}
use kpack.Tests.Buildpacks.{store}
use kpack.Tests.Creation.{stack, lifecycle, resolved_lifecycle, entry, record_made}

abbrev spec : BuilderSpec
spec = record {
  tag = "registry/builder";
  stack = "base";
  lifecycle = "";
  store = "default";
  order = entry ∷ [];
  additional_labels = [];
}

abbrev no_status : BuilderStatus
no_status = record {
  status = record { observed_generation = 0; conditions = [] };
  builder_metadata = [];
  order = [];
  stack = record { run_image = ""; id = "" };
  lifecycle = resolved_lifecycle;
  latest_image = "";
  observed_stack_generation = 0;
  observed_store_generation = 0;
  os = "";
  signature_paths = [];
}

abbrev builder : Builder
builder = record {
  meta = meta_of "builder" 0;
  spec = spec;
  service_account_name = "default";
  backwards_compatible_service_account = "";
  status = no_status;
}

abbrev cluster_builder : ClusterBuilder
cluster_builder = record {
  meta = meta_of "builder" 0;
  spec = spec;
  service_account_ref = record { kind = ""; name = "default"; namespace = "kpack" };
  status = no_status;
}

abbrev stack_that_is : ConditionStatus → ClusterStack
stack_that_is s = record stack { status = status_of "Ready" s }

abbrev server_of : {B : Type 0} → ConditionStatus → B → Builders B
server_of s b = record {
  Keychain = String;
  Secret = String;
  get_builder = λ h namespace name. ok b;
  get_store = λ h name. ok store;
  get_stack = λ h name. ok (stack_that_is s);
  get_lifecycle = λ h name. ok lifecycle;
  list_buildpacks = λ h namespace. ok [];
  list_cluster_buildpacks = λ h. ok [];
  keychain_for_secret_ref = λ h secret_ref. ok "keychain";
  secrets_for_service_account = λ h account namespace. ok [];
  answer_create = λ h resolver args. ok record_made;
  answer_update = λ h x. none;
  parse_reference = λ tag. ok (record { identifier = "latest"; name = tag; tagged = λ t. t });
  status_equal = λ a b. false;
  now = 7;
}

abbrev not_ready_server : Builders Builder
not_ready_server = server_of condition_false builder

abbrev asked : List (Request String String Builder)
unfolding create_for_builder ◌>>=◌ ◌>>◌ ask request lift pure
asked = (create_for_builder not_ready_server builder []).1

not_ready :
    create_for_builder not_ready_server builder []
    ≡ (err (plain "Error: clusterstack 'base' is not ready"), asked)
unfolding create_for_builder ◌>>=◌ ◌>>◌ ask request lift pure
not_ready = refl

abbrev not_ready_error : Error
not_ready_error = plain "Error: clusterstack 'base' is not ready"

reconcile_builder_records_example :
    (new : Builder) × IsRecorded 1 no_status new.status (err not_ready_error)
    × (new ≡ record builder { status = new.status })
    × (reconcile_builder not_ready_server builder.meta.namespace "builder" []
        ≡ ending false none (some not_ready_error) (update_builder new) asked)
reconcile_builder_records_example =
    reconcile_builder_records not_ready_server builder (err not_ready_error) [] asked (λ h. refl)
      not_ready refl

abbrev ready_server : Builders ClusterBuilder
ready_server = server_of condition_true cluster_builder

abbrev created : List (Request String String ClusterBuilder)
unfolding create_for_cluster_builder ◌>>=◌ ◌>>◌ ask request lift pure
created = (create_for_cluster_builder ready_server cluster_builder []).1

ready : create_for_cluster_builder ready_server cluster_builder [] ≡ (ok record_made, created)
unfolding create_for_cluster_builder ◌>>=◌ ◌>>◌ ask request lift pure
ready = refl

reconcile_builder-IsAllowed_example :
    All
      (IsAllowed (IsObserved not_ready_server))
      (reconcile_builder not_ready_server "apps" "builder" []).1
reconcile_builder-IsAllowed_example = reconcile_builder-IsAllowed not_ready_server "apps" "builder"

reconcile_cluster_builder-IsAllowed_example :
    All
      (IsAllowed (IsClusterObserved ready_server))
      (reconcile_cluster_builder ready_server "builder" []).1
reconcile_cluster_builder-IsAllowed_example =
    reconcile_cluster_builder-IsAllowed ready_server "builder"
