-- ===== src/BuilderReconciler/Recorded.antt =====
-- builder.go, clusterbuilder.go and builder_lifecycle.go: what a pass records of the creation.
use kpack.Prelude.Run.{◌>>◌, ask, attempt, throw, optional}
use kpack.Prelude.Answers.{
  bind-ok, then_same, ask-is, optional-ok, ending, write-ending, write_throw-ending,
}
use kpack.Prelude.{
  ◌≡◌, refl, ◌∙◌, String, Bool, true, false, not, List, none, some, message, ◌==◌, Bool-cases, inl,
  inr, Result, ok, err, Error, returned, error_of, ℕ,
}
use kpack.Api.Builder.{condition_up_to_date}
use kpack.Api.Condition.{condition_ready, get_condition, is_true}
use kpack.Api.BuilderTypes.{
  Builder, ClusterBuilder, BuilderRecord, BuilderStatus, builder_condition, builder_record,
  error_create,
}
use kpack.BuilderReconciler.{Builders, Request, Run, update_builder}
use kpack.BuilderReconciler.Recording.{
  Resource, write_unless_equal, update_status, record_outcome, found_builder, reconcile_with,
}
use kpack.BuilderReconciler.Namespaced.{
  builder_resource, observed_builder, create_for_builder, reconcile_builder,
}
use kpack.BuilderReconciler.Cluster.{
  cluster_builder_resource, observed_cluster_builder, create_for_cluster_builder,
  reconcile_cluster_builder,
}

-- What a condition of a status says, if the status has it.
abbrev pub says_true : BuilderStatus → String → Bool
unfolding get_condition
says_true s type = is_true (get_condition s.status.conditions type)

abbrev pub message_on : BuilderStatus → String → String
unfolding get_condition
message_on s type = elim (get_condition s.status.conditions type) [ none ↦ "" | some c ↦ c.message ]

-- What the status of a builder says after a creation, by what came of it. It speaks of the
-- generation that the pass saw.
pub data IsRecorded (generation : ℕ) (old new : BuilderStatus) : Result BuilderRecord → Type 0 where
  created :
      {r : BuilderRecord}
      → new.status.observed_generation ≡ generation
      → new.latest_image ≡ r.image
      → new.builder_metadata ≡ r.buildpacks
      → new.order ≡ r.order
      → new.stack ≡ r.stack
      → new.lifecycle ≡ r.lifecycle
      → new.os ≡ r.os
      → new.signature_paths ≡ r.signature_paths
      → new.observed_stack_generation ≡ r.observed_stack_generation
      → new.observed_store_generation ≡ r.observed_store_generation
      → says_true new condition_ready ≡ true
      → says_true new condition_up_to_date ≡ true
      → IsRecorded generation old new (ok r)
  failed :
      {e : Error}
      → new.status.observed_generation ≡ generation
      → record new { status = old.status } ≡ old
      → says_true new condition_ready ≡ not (old.latest_image == "")
      → says_true new condition_up_to_date ≡ false
      → message_on new condition_up_to_date ≡ message e
      → IsRecorded generation old new (err e)

module _ {B : Type 0} (S : Builders B) (X : Resource B) where
  abbrev Requests : Type 0
  Requests = List (Request S.Keychain S.Secret B)

  -- The status that a pass makes of the old one.
  unfoldable pub recorded : Result BuilderRecord → BuilderStatus → BuilderStatus
  unfolding builder_record error_create
  recorded (ok r) s = builder_record S.now r s
  recorded (err e) s = error_create S.now e s

  abbrev pub at_generation : ℕ → BuilderStatus → BuilderStatus
  at_generation n s = record s { status = record (s.status) { observed_generation = n } }

  pub recorded-IsRecorded :
      (n : ℕ) (o : Result BuilderRecord) (s : BuilderStatus)
      → IsRecorded n s (at_generation n (recorded o s)) o
  unfolding recorded builder_condition get_condition
  recorded-IsRecorded n (ok r) s =
      created refl refl refl refl refl refl refl refl refl refl refl refl
  recorded-IsRecorded n (err e) s = elim (Bool-cases (s.latest_image == "")) [
    | inl t ↦ failed refl refl (rw t refl) (rw t refl) (rw t refl)
    | inr f ↦ failed refl refl (rw f refl) (rw f refl) (rw f refl)
  ]

  -- The cache of the reconciler holds a builder throughout a pass.
  abbrev pub IsHeld : B → Type 0
  IsHeld b = (h : Requests) → S.get_builder h (X.key b).0 (X.key b).1 ≡ ok b

  -- The write of a pass, and the error of the creation that it answers with.
  abbrev pub written : B → Result BuilderRecord → Run S (Unit {0})
  written b (ok r) =
      write_unless_equal S X b (X.observed (X.with_status b (recorded (ok r) (X.status b))))
  written b (err e) =
      write_unless_equal S X b (X.observed (X.with_status b (recorded (err e) (X.status b))))
      >> throw e

  update_status-IsHeld :
      (b : B) (s : BuilderStatus) (h : Requests)
      → IsHeld b
      → X.key (X.with_status b s) ≡ X.key b
      → update_status S X (X.with_status b s) h
        ≡ write_unless_equal S X b (X.observed (X.with_status b s)) h
  unfolding update_status
  update_status-IsHeld b s h held same =
      bind-ok
        (ask (λ k. S.get_builder k (X.key (X.with_status b s)).0 (X.key (X.with_status b s)).1)) _ h
        h b (ask-is _ h (ok b) (rw same (held h)))

  record_outcome-IsHeld :
      (b : B) (o : Result BuilderRecord) (h : Requests)
      → IsHeld b
      → ((s : BuilderStatus) → X.key (X.with_status b s) ≡ X.key b)
      → record_outcome S X b o h ≡ written b o h
  unfolding record_outcome recorded
  record_outcome-IsHeld b (ok r) h held same =
      update_status-IsHeld b (recorded (ok r) (X.status b)) h held (same _)
  record_outcome-IsHeld b (err e) h held same =
      then_same _ _ (throw e) h
        (update_status-IsHeld b (recorded (err e) (X.status b)) h held (same _))

  -- The resource that a pass makes of what came of the creation.
  abbrev pub outcome_of : B → Result BuilderRecord → B
  outcome_of b o = X.observed (X.with_status b (recorded o (X.status b)))

  written-ending :
      (b : B) (o : Result BuilderRecord) (g : Requests)
      → written b o g
        ≡ ending
            (S.status_equal (X.status (outcome_of b o)) (X.status b))
            (S.answer_update g (outcome_of b o))
            (error_of o)
            (update_builder (outcome_of b o))
            g
  unfolding write_unless_equal
  written-ending b (ok r) g =
      write-ending (S.status_equal (X.status (outcome_of b (ok r))) (X.status b)) _
        (λ h. S.answer_update h (outcome_of b (ok r))) g
  written-ending b (err e) g =
      write_throw-ending (S.status_equal (X.status (outcome_of b (err e))) (X.status b)) _
        (λ h. S.answer_update h (outcome_of b (err e))) e g

  pub reconcile_with-IsHeld :
      (creation : B → Run S BuilderRecord) (b : B) (o : Result BuilderRecord) (h g : Requests)
      → IsHeld b
      → ((s : BuilderStatus) → X.key (X.with_status b s) ≡ X.key b)
      → creation b h ≡ (o, g)
      → returned o ≡ ok o
      → reconcile_with S X creation (X.key b).0 (X.key b).1 h
        ≡ ending
            (S.status_equal (X.status (outcome_of b o)) (X.status b))
            (S.answer_update g (outcome_of b o))
            (error_of o)
            (update_builder (outcome_of b o))
            g
  unfolding reconcile_with found_builder attempt
  reconcile_with-IsHeld creation b o h g held same made safe =
      let first : attempt (creation b) h ≡ (ok o, g) = rw (made, safe) refl in
      bind-ok (optional (ask (λ k. S.get_builder k (X.key b).0 (X.key b).1))) _ h h (some b)
        (optional-ok _ h h b (ask-is _ h (ok b) (held h)))
      ∙ bind-ok (attempt (creation b)) _ h g o first
      ∙ record_outcome-IsHeld b o g held same
      ∙ written-ending b o g

module _ (S : Builders Builder) where
  -- When the cache holds a Builder throughout the pass and the creation ends with a record or an
  -- error, and not with a panic, the pass writes the builder with a status that records it, unless
  -- the cache has that status already, and changes nothing else of it. It answers with the error of
  -- the write, or else with that of the creation. A record makes the builder ready and up to date
  -- with all that the record has; an error keeps all but the conditions, which say that the builder
  -- is not up to date, with the text of the error, and that it is ready just if it has an image.
  -- Either way the status speaks of the present generation.
  pub reconcile_builder_records :
      (b : Builder) (o : Result BuilderRecord) (h g : List (Request S.Keychain S.Secret Builder))
      → IsHeld S builder_resource b
      → create_for_builder S b h ≡ (o, g)
      → returned o ≡ ok o
      → (new : Builder) × IsRecorded b.meta.generation b.status new.status o
        × (new ≡ record b { status = new.status })
        × (reconcile_builder S b.meta.namespace b.meta.name h
            ≡ ending
                (S.status_equal new.status b.status)
                (S.answer_update g new)
                (error_of o)
                (update_builder new)
                g)
  unfolding reconcile_builder observed_builder
  reconcile_builder_records b o h g held made safe = (
    outcome_of S builder_resource b o,
    recorded-IsRecorded S builder_resource b.meta.generation o b.status,
    refl,
    reconcile_with-IsHeld S builder_resource (create_for_builder S) b o h g held (λ s. refl) made
        safe,
  )

module _ (S : Builders ClusterBuilder) where
  -- When the cache holds a ClusterBuilder throughout the pass and the creation ends with a record
  -- or an error, and not with a panic, the pass writes the builder with a status that records it,
  -- unless the cache has that status already, and changes nothing else of it. It answers with the
  -- error of the write, or else with that of the creation. A record makes the builder ready and up
  -- to date with all that the record has; an error keeps all but the conditions, which say that the
  -- builder is not up to date, with the text of the error, and that it is ready just if it has an
  -- image. Either way the status speaks of the present generation.
  pub reconcile_cluster_builder_records :
      (b : ClusterBuilder) (o : Result BuilderRecord)
      (h g : List (Request S.Keychain S.Secret ClusterBuilder))
      → IsHeld S cluster_builder_resource b
      → create_for_cluster_builder S b h ≡ (o, g)
      → returned o ≡ ok o
      → (new : ClusterBuilder) × IsRecorded b.meta.generation b.status new.status o
        × (new ≡ record b { status = new.status })
        × (reconcile_cluster_builder S b.meta.name h
            ≡ ending
                (S.status_equal new.status b.status)
                (S.answer_update g new)
                (error_of o)
                (update_builder new)
                g)
  unfolding reconcile_cluster_builder observed_cluster_builder
  reconcile_cluster_builder_records b o h g held made safe = (
    outcome_of S cluster_builder_resource b o,
    recorded-IsRecorded S cluster_builder_resource b.meta.generation o b.status,
    refl,
    reconcile_with-IsHeld S cluster_builder_resource (create_for_cluster_builder S) b o h g held
        (λ s. refl) made safe,
  )
