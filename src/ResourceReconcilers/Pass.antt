-- ===== src/ResourceReconcilers/Pass.antt =====
-- The pass that the five reconcilers share: find the resource, read, write the status.
use kpack.Prelude.Run.{M, ◌>>=◌, ◌>>◌, pure, lift, ask, request, done, optional}
use kpack.Prelude.{String, Option, none, some, if◌then◌else◌, Result, Error}
use kpack.ResourceReconcilers.Reading.{Kind}

-- `observed` is the assignment of the observed generation.
module _ {T : Type 0} (K : Kind T) (key : T → String × String) (observed : T → T) where
  unfoldable pub write_unless_equal : T → T → M T (Unit {0})
  write_unless_equal original desired =
      if K.status_equal desired original
      then pure tt
      else request desired (λ h. done (K.answer_update h desired))

  unfoldable pub update_status : T → M T (Unit {0})
  unfolding write_unless_equal
  update_status desired = do
    original ← ask (λ h. K.get h (key desired).0 (key desired).1)
    write_unless_equal original (observed desired)

  -- The resource goes with the error of the reading, if there was one.
  unfoldable pub found_resource : (T → Result (T × Option Error)) → Option T → M T (Unit {0})
  unfolding update_status
  found_resource status none = pure tt
  found_resource status (some t) = do
    outcome ← lift (status t)
    update_status outcome.0
    lift (done outcome.1)

  -- `Reconcile`, given the two parts of the key.
  unfoldable pub reconcile_with : (T → Result (T × Option Error)) → String → String → M T (Unit {0})
  unfolding found_resource
  reconcile_with status namespace name = do
    t ← optional (ask (λ h. K.get h namespace name))
    found_resource status t
