-- ===== src/BuilderReconciler/Created.antt =====
-- builder.go and clusterbuilder.go: what a pass asks for.
use kpack.Prelude.Asked.{
  Asks, Any, Asks-pure, Asks-throw, Asks-lift, Asks-ask, Asks-request, Asks-bind, Asks-optional,
  Asks-attempt, Asks-then, Asks-checked,
}
use kpack.Prelude.{
  ◌≡◌, refl, String, true, [], Option, none, some, All, Bool-cases, inl, inr, Result, ok, err, ◌==◌,
}
use kpack.Api.Condition.{Status}
use kpack.Api.Meta.{ObjectReference}
use kpack.Api.BuilderTypes.{
  Builder, ClusterBuilder, BuilderRecord, BuilderSpec, ClusterLifecycle, ClusterStack,
}
use kpack.BuilderReconciler.{
  Builders, NamespacedName, Request, track, track_kind, create, update_builder, Run, is_ready,
  check_ready, track_object, track_kind_of, find_store, find_stack, find_lifecycle, keychain_or,
  create_image,
}
use kpack.BuilderReconciler.Recording.{
  Resource, write_unless_equal, update_status, record_outcome, found_builder, reconcile_with,
}
use kpack.BuilderReconciler.Namespaced.{
  builder_resource, observed_builder, create_for_builder, reconcile_builder,
}
use kpack.BuilderReconciler.Cluster.{
  cluster_builder_resource, observed_cluster_builder, create_for_cluster_builder,
  reconcile_cluster_builder,
}

check_ready-is_ready :
    (s : Status) (text : String) (u : Unit {0}) → check_ready s text ≡ ok u → is_ready s ≡ true
unfolding check_ready
check_ready-is_ready s text u e = elim (Bool-cases (is_ready s)) [
  | inl t ↦ t
  | inr f ↦ let bad = rw (f, check_ready) at e in cc
]

-- A creation is of a stack and a lifecycle that are ready, and what is written satisfies `W`.
abbrev pub IsAllowed :
    {Keychain Secret B : Type 0} → (B → Type 0) → Request Keychain Secret B → Type 0
IsAllowed W (track kind name who) = Unit
IsAllowed W (track_kind kind who) = Unit
IsAllowed W (create resolver args) =
    (is_ready args.cluster_stack.status ≡ true) × (is_ready args.cluster_lifecycle.status ≡ true)
IsAllowed W (update_builder b) = W b

abbrev pub IsReadyStack : ClusterStack → Type 0
IsReadyStack stack = is_ready stack.status ≡ true

abbrev pub IsReadyLifecycle : ClusterLifecycle → Type 0
IsReadyLifecycle lifecycle = is_ready lifecycle.status ≡ true

module _ {B : Type 0} (S : Builders B) (W : B → Type 0) where
  abbrev P : Request S.Keychain S.Secret B → Type 0
  P = IsAllowed W

  pub track_object-Asks :
      (kind name : String) (who : NamespacedName) → Asks P Any (track_object S kind name who)
  unfolding track_object
  track_object-Asks kind name who = Asks-request P _ _ tt

  pub track_kind_of-Asks :
      (kind : String) (who : NamespacedName) → Asks P Any (track_kind_of S kind who)
  unfolding track_kind_of
  track_kind_of-Asks kind who = Asks-request P _ _ tt

  pub find_store-Asks :
      (spec : BuilderSpec) (who : NamespacedName) → Asks P Any (find_store S spec who)
  unfolding find_store
  find_store-Asks spec who = elim (Bool-cases (spec.store == "")) [
    | inl t ↦ rw t (Asks-pure P Any none tt)
    | inr f ↦ rw f (
        Asks-then P Any _ _ (track_object-Asks "ClusterStore" spec.store who)
          (Asks-bind P Any Any _ _ (Asks-ask P _) (λ store any. Asks-pure P Any (some store) tt)))
  ]

  pub find_stack-Asks :
      (not_ready : String → String) (spec : BuilderSpec)
      → Asks P IsReadyStack (find_stack S not_ready spec)
  unfolding find_stack
  find_stack-Asks not_ready spec = Asks-bind P Any IsReadyStack _ _ (Asks-ask P _) (λ stack any.
      Asks-checked P (IsReadyStack stack) IsReadyStack _ _
        (Asks-lift P _ _ (λ u e. check_ready-is_ready stack.status _ u e))
        (λ ready. Asks-pure P IsReadyStack stack ready))

  pub find_lifecycle-Asks : (spec : BuilderSpec) → Asks P IsReadyLifecycle (find_lifecycle S spec)
  unfolding find_lifecycle
  find_lifecycle-Asks spec = Asks-bind P Any IsReadyLifecycle _ _ (Asks-ask P _) (λ lifecycle any.
      Asks-checked P (IsReadyLifecycle lifecycle) IsReadyLifecycle _ _
        (Asks-lift P _ _ (λ u e. check_ready-is_ready lifecycle.status _ u e))
        (λ ready. Asks-pure P IsReadyLifecycle lifecycle ready))

  pub keychain_or-Asks :
      (keychain : S.Keychain) (account : Option ObjectReference)
      → Asks P Any (keychain_or S keychain account)
  unfolding keychain_or
  keychain_or-Asks keychain none = Asks-pure P Any keychain tt
  keychain_or-Asks keychain (some account) = Asks-ask P _

  module _ (X : Resource B) (observes : (b : B) → W (X.observed b)) where
    write_unless_equal-Asks :
        (b desired : B) → Asks P Any (write_unless_equal S X b (X.observed desired))
    unfolding write_unless_equal
    write_unless_equal-Asks b desired =
        elim (Bool-cases (S.status_equal (X.status (X.observed desired)) (X.status b))) [
          | inl t ↦ rw t (Asks-pure P Any tt tt)
          | inr f ↦ rw f (Asks-request P _ _ (observes desired))
        ]

    update_status-Asks : (desired : B) → Asks P Any (update_status S X desired)
    unfolding update_status
    update_status-Asks desired =
        Asks-bind P Any Any _ _ (Asks-ask P _) (λ b any. write_unless_equal-Asks b desired)

    record_outcome-Asks : (b : B) (o : Result BuilderRecord) → Asks P Any (record_outcome S X b o)
    unfolding record_outcome
    record_outcome-Asks b (ok r) = update_status-Asks _
    record_outcome-Asks b (err e) = Asks-then P Any _ _ (update_status-Asks _) (Asks-throw P Any e)

    found_builder-Asks :
        (creation : B → Run S BuilderRecord) (b : Option B)
        → ((x : B) → Asks P Any (creation x))
        → Asks P Any (found_builder S X creation b)
    unfolding found_builder
    found_builder-Asks creation none each = Asks-pure P Any tt tt
    found_builder-Asks creation (some b) each =
        Asks-bind P Any Any _ _ (Asks-attempt P _ (each b)) (λ o any. record_outcome-Asks b o)

    reconcile_with-Asks :
        (creation : B → Run S BuilderRecord) (namespace name : String)
        → ((x : B) → Asks P Any (creation x))
        → Asks P Any (reconcile_with S X creation namespace name)
    unfolding reconcile_with
    reconcile_with-Asks creation namespace name each =
        Asks-bind P Any Any _ _ (Asks-optional P _ (Asks-ask P _))
          (λ b any. found_builder-Asks creation b each)

module _ (S : Builders Builder) where
  -- A builder whose status speaks of its present generation.
  abbrev pub IsObserved : Builder → Type 0
  IsObserved b = b.status.status.observed_generation ≡ b.meta.generation

  create_for_builder-Asks : (b : Builder) → Asks (IsAllowed IsObserved) Any (create_for_builder S b)
  unfolding create_for_builder create_image
  create_for_builder-Asks b =
      let P = IsAllowed IsObserved in
      Asks-then P Any _ _ (track_object-Asks S IsObserved _ _ _) (
        Asks-then P Any _ _ (track_object-Asks S IsObserved _ _ _) (
          Asks-bind P Any Any _ _ (find_store-Asks S IsObserved b.spec _) (λ store any.
            Asks-then P Any _ _ (track_kind_of-Asks S IsObserved _ _) (
              Asks-then P Any _ _ (track_kind_of-Asks S IsObserved _ _) (
                Asks-bind P Any Any _ _ (Asks-ask P _) (λ buildpacks any.
                  Asks-bind P Any Any _ _ (Asks-ask P _) (λ cluster_buildpacks any.
                    Asks-bind P IsReadyStack Any _ _ (find_stack-Asks S IsObserved _ b.spec)
                      (λ stack ready.
                        Asks-bind P IsReadyLifecycle Any _ _
                          (find_lifecycle-Asks S IsObserved b.spec)
                          (λ lifecycle ready'.
                            Asks-bind P Any Any _ _ (Asks-ask P _) (λ keychain any.
                              Asks-bind P Any Any _ _ (keychain_or-Asks S IsObserved _ _)
                                (λ stack_keychain any.
                                  Asks-bind P Any Any _ _ (keychain_or-Asks S IsObserved _ _)
                                    (λ lifecycle_keychain any.
                                      Asks-bind P Any Any _ _ (Asks-ask P _) (λ secrets any.
                                        Asks-bind P Any Any _ _ (Asks-lift P Any _ (λ ref e. tt))
                                          (λ ref any.
                                            Asks-request P _ _ (ready, ready')))))))))))))))

  -- Every creation that a pass of a Builder asks for is of a stack and a lifecycle that are ready, and
  -- every status that it writes speaks of the builder's present generation.
  pub reconcile_builder-IsAllowed :
      (namespace name : String)
      → All (IsAllowed IsObserved) (reconcile_builder S namespace name []).1
  unfolding reconcile_builder observed_builder
  reconcile_builder-IsAllowed namespace name =
      (reconcile_with-Asks S IsObserved builder_resource (λ b. refl) (create_for_builder S)
        namespace name create_for_builder-Asks [] tt).0

module _ (S : Builders ClusterBuilder) where
  -- A cluster builder whose status speaks of its present generation.
  abbrev pub IsClusterObserved : ClusterBuilder → Type 0
  IsClusterObserved b = b.status.status.observed_generation ≡ b.meta.generation

  create_for_cluster_builder-Asks :
      (b : ClusterBuilder) → Asks (IsAllowed IsClusterObserved) Any (create_for_cluster_builder S b)
  unfolding create_for_cluster_builder create_image
  create_for_cluster_builder-Asks b =
      let P = IsAllowed IsClusterObserved in
      Asks-then P Any _ _ (track_object-Asks S IsClusterObserved _ _ _) (
        Asks-then P Any _ _ (track_object-Asks S IsClusterObserved _ _ _) (
          Asks-bind P Any Any _ _ (find_store-Asks S IsClusterObserved b.spec _) (λ store any.
            Asks-then P Any _ _ (track_kind_of-Asks S IsClusterObserved _ _) (
              Asks-bind P Any Any _ _ (Asks-ask P _) (λ cluster_buildpacks any.
                Asks-bind P IsReadyStack Any _ _ (find_stack-Asks S IsClusterObserved _ b.spec)
                  (λ stack ready.
                    Asks-bind P IsReadyLifecycle Any _ _
                      (find_lifecycle-Asks S IsClusterObserved b.spec)
                      (λ lifecycle ready'. Asks-bind P Any Any _ _ (Asks-ask P _) (λ keychain any.
                        Asks-bind P Any Any _ _ (keychain_or-Asks S IsClusterObserved _ _)
                          (λ stack_keychain any.
                            Asks-bind P Any Any _ _ (keychain_or-Asks S IsClusterObserved _ _)
                              (λ lifecycle_keychain any.
                                Asks-bind P Any Any _ _ (Asks-ask P _) (λ secrets any.
                                  Asks-bind P Any Any _ _ (Asks-lift P Any _ (λ ref e. tt))
                                    (λ ref any. Asks-request P _ _ (ready, ready')))))))))))))

  -- Every creation that a pass of a ClusterBuilder asks for is of a stack and a lifecycle that are ready, and
  -- every status that it writes speaks of the builder's present generation.
  pub reconcile_cluster_builder-IsAllowed :
      (name : String) → All (IsAllowed IsClusterObserved) (reconcile_cluster_builder S name []).1
  unfolding reconcile_cluster_builder observed_cluster_builder
  reconcile_cluster_builder-IsAllowed name =
      (reconcile_with-Asks S IsClusterObserved cluster_builder_resource (λ b. refl)
        (create_for_cluster_builder S) "" name create_for_cluster_builder-Asks [] tt).0
