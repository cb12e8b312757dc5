-- ===== src/BuilderReconciler.antt =====
-- pkg/reconciler/builder and pkg/reconciler/clusterbuilder: a pass that creates the image of a
-- builder and records the outcome in its status. What the two share is here; the child modules have
-- what they do not.
pub mod Recording
pub mod Namespaced
pub mod Cluster
pub mod Recorded
pub mod Created
unfoldable use kpack.Prelude.Run.{M, ◌>>=◌, ◌>>◌, pure, lift, ask, request, done}
use kpack.Prelude.{
  ℕ, String, Bool, true, false, List, [], Option, none, some, if◌then◌else◌, ◌==◌, ◌<>◌, Result, ok,
  err, Error, plain,
}
use kpack.Api.Meta.{ObjectReference}
use kpack.Api.Condition.{Status, condition_ready, get_condition, is_true}
use kpack.Api.BuilderTypes.{
  BuilderRecord, BuilderSpec, BuilderStatus, ClusterLifecycle, ClusterStack, default_lifecycle_name,
}
use kpack.Cnb.Resources.{Buildpack, ClusterBuildpack, ClusterStore, SecretRef}
use kpack.Cnb.Resolver.{BuildpackResolver}
use kpack.Cnb.CreateBuilder.{CreateArgs}

-- A namespace and a name.
abbrev pub NamespacedName : Type 0
NamespacedName = String × String

-- What a pass asks for: to be told of changes of an object or of a kind, to create the image of a
-- builder, to write the status of a builder of the type `B`.
pub data Request (Keychain Secret B : Type 0) : Type 0 where
  track : String → String → NamespacedName → Request Keychain Secret B
  track_kind : String → NamespacedName → Request Keychain Secret B
  create : BuildpackResolver → CreateArgs Keychain Secret → Request Keychain Secret B
  update_builder : B → Request Keychain Secret B

-- The reference that `name.ParseReference` reads: its identifier, its full name, and the full name
-- of a tag in its repository.
pub record Reference : Type 0 where
  pub identifier : String
  pub name : String
  pub tagged : String → String

-- The listers, the clients, the creator of builders, the secrets, the library of image names and
-- `Semantic.DeepEqual` on statuses. `now` is the time of the pass.
pub record Builders (B : Type 0) : Type 1 where
  pub Keychain : Type 0
  pub Secret : Type 0
  pub get_builder : List (Request Keychain Secret B) → String → String → Result B
  pub get_store : List (Request Keychain Secret B) → String → Result ClusterStore
  pub get_stack : List (Request Keychain Secret B) → String → Result ClusterStack
  pub get_lifecycle : List (Request Keychain Secret B) → String → Result ClusterLifecycle
  pub list_buildpacks : List (Request Keychain Secret B) → String → Result (List Buildpack)
  pub list_cluster_buildpacks : List (Request Keychain Secret B) → Result (List ClusterBuildpack)
  pub keychain_for_secret_ref : List (Request Keychain Secret B) → SecretRef → Result Keychain
  pub secrets_for_service_account :
      List (Request Keychain Secret B) → String → String → Result (List Secret)
  pub answer_create :
      List (Request Keychain Secret B)
      → BuildpackResolver
      → CreateArgs Keychain Secret
      → Result BuilderRecord
  pub answer_update : List (Request Keychain Secret B) → B → Option Error
  pub parse_reference : String → Result Reference
  pub status_equal : BuilderStatus → BuilderStatus → Bool
  pub now : ℕ

unfoldable pub lifecycle_name : BuilderSpec → String
lifecycle_name spec = if spec.lifecycle == "" then default_lifecycle_name else spec.lifecycle

-- The secrets of a service account; the reconcilers leave the pull secrets nil.
abbrev pub account_secrets : String → String → SecretRef
account_secrets account namespace = record {
  service_account = account;
  namespace = namespace;
  image_pull_secrets = [];
}

unfoldable pub is_ready : Status → Bool
unfolding get_condition
is_ready status = is_true (get_condition status.conditions condition_ready)

-- An object that is found but is not ready is an error.
unfoldable pub check_ready : Status → String → Result (Unit {0})
unfolding is_ready
check_ready status text = if is_ready status then ok tt else err (plain text)

module _ {B : Type 0} (S : Builders B) where
  open S use {Keychain, Secret}

  abbrev pub Run : Type 0 → Type 0
  Run = M (Request Keychain Secret B)

  unfoldable pub track_object : String → String → NamespacedName → Run (Unit {0})
  track_object kind name who = request (track kind name who) (λ h. ok tt)

  unfoldable pub track_kind_of : String → NamespacedName → Run (Unit {0})
  track_kind_of kind who = request (track_kind kind who) (λ h. ok tt)

  -- A store that is named is tracked, and has to be there.
  unfoldable pub find_store : BuilderSpec → NamespacedName → Run (Option ClusterStore)
  unfolding track_object
  find_store spec who = if spec.store == "" then pure none else (do
    track_object "ClusterStore" spec.store who
    store ← ask (λ h. S.get_store h spec.store)
    pure (some store))

  unfoldable pub find_stack : (String → String) → BuilderSpec → Run ClusterStack
  unfolding check_ready
  find_stack not_ready spec = do
    stack ← ask (λ h. S.get_stack h spec.stack)
    lift (check_ready stack.status (not_ready stack.meta.name))
    pure stack

  unfoldable pub find_lifecycle : BuilderSpec → Run ClusterLifecycle
  unfolding check_ready lifecycle_name
  find_lifecycle spec = do
    lifecycle ← ask (λ h. S.get_lifecycle h (lifecycle_name spec))
    lift (
        check_ready lifecycle.status
          ("Error: clusterlifecycle '" <> lifecycle.meta.name <> "' is not ready"))
    pure lifecycle

  -- The keychain of an account that a stack or a lifecycle names, or the builder's.
  unfoldable pub keychain_or : Keychain → Option ObjectReference → Run Keychain
  keychain_or keychain none = pure keychain
  keychain_or keychain (some account) =
      ask (λ h. S.keychain_for_secret_ref h (account_secrets account.name account.namespace))

  unfoldable pub create_image : BuildpackResolver → CreateArgs Keychain Secret → Run BuilderRecord
  create_image resolver args = request (create resolver args) (λ h. S.answer_create h resolver args)

  -- The name under which the image is saved: a reference without a tag gets one of its own.
  unfoldable pub tagged_reference : String → String → Result String
  tagged_reference tag own = elim (S.parse_reference tag) [
    | err e ↦ err e
    | ok ref ↦ if ref.identifier == "latest" then ok (ref.tagged own) else ok ref.name
  ]
