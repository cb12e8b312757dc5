-- ===== src/BuilderReconciler/Recording.antt =====
-- pkg/reconciler/builder and pkg/reconciler/clusterbuilder: how a pass records what came of the
-- creation of an image.
use kpack.Prelude.Run.{◌>>=◌, ◌>>◌, pure, throw, ask, request, done, optional, attempt}
use kpack.Prelude.{String, Option, none, some, if◌then◌else◌, Result, ok, err}
use kpack.Api.BuilderTypes.{BuilderRecord, BuilderStatus, builder_record, error_create}
use kpack.BuilderReconciler.{Builders, NamespacedName, Run, update_builder}

-- What the recording reads and sets of a builder: its key, its status, and the observed generation.
pub record Resource (B : Type 0) : Type 0 where
  pub key : B → NamespacedName
  pub status : B → BuilderStatus
  pub with_status : B → BuilderStatus → B
  pub observed : B → B

module _ {B : Type 0} (S : Builders B) (X : Resource B) where
  unfoldable pub write_unless_equal : B → B → Run S (Unit {0})
  write_unless_equal original desired =
      if S.status_equal (X.status desired) (X.status original)
      then pure tt
      else request (update_builder desired) (λ h. done (S.answer_update h desired))

  unfoldable pub update_status : B → Run S (Unit {0})
  unfolding write_unless_equal
  update_status desired = do
    original ← ask (λ h. S.get_builder h (X.key desired).0 (X.key desired).1)
    write_unless_equal original (X.observed desired)

  unfoldable pub record_outcome : B → Result BuilderRecord → Run S (Unit {0})
  unfolding builder_record error_create update_status
  record_outcome b (ok r) = update_status (X.with_status b (builder_record S.now r (X.status b)))
  record_outcome b (err e) =
      update_status (X.with_status b (error_create S.now e (X.status b))) >> throw e

  unfoldable pub found_builder : (B → Run S BuilderRecord) → Option B → Run S (Unit {0})
  unfolding record_outcome
  found_builder creation none = pure tt
  found_builder creation (some b) = do outcome ← attempt (creation b); record_outcome b outcome

  -- `Reconcile`, given the two parts of the key.
  unfoldable pub reconcile_with : (B → Run S BuilderRecord) → String → String → Run S (Unit {0})
  unfolding found_builder
  reconcile_with creation namespace name = do
    b ← optional (ask (λ h. S.get_builder h namespace name))
    found_builder creation b
