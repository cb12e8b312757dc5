-- ===== src/ImageReconciler/Reconcile/Admitted.antt =====
-- image.go and image_validation.go: what pruning spares of an image that was admitted.
use kpack.Prelude.{◌≡◌, ◌⊎◌, List, Option, none, ok, In, Distinct}
use kpack.Api.Meta.{Foreign}
use kpack.Api.Build.{Build}
use kpack.Api.Image.{Image}
use kpack.Api.Defaults.{set_defaults}
use kpack.Api.Validation.{validate_build_history_limit, validate_build_history_limit-positive}
use kpack.ImageReconciler.BuildList.Oldest.{name_of}
use kpack.ImageReconciler.Server.{Server, Request, History, delete_build}
use kpack.ImageReconciler.Reconcile.{delete_old_builds}
use kpack.ImageReconciler.Reconcile.Deletes.{Spent, delete_old_builds-spares}

module _ {K : Foreign} (S : Server K) where
  -- With history limits that pass validation after the defaults, and builds of different names,
  -- pruning asks for no more than the deletion of finished builds that are not the newest.
  pub delete_old_builds_admitted :
      (size : Option K.Quantity) (img : Image K) (h : History K) (builds : List (Build K))
      (q : Request K)
      → validate_build_history_limit (set_defaults size img).spec ≡ ok none
      → Distinct name_of builds
      → S.list_builds h (set_defaults size img).meta.namespace (set_defaults size img).meta.name
        ≡ ok builds
      → In q (delete_old_builds S (set_defaults size img) h).1
      → In q h ⊎ ((b : Build K) × Spent builds b × (q ≡ delete_build b.meta.name))
  delete_old_builds_admitted size img h builds q valid distinct listed i =
      let ((f, failed), (s, success)) =
        validate_build_history_limit-positive (set_defaults size img).spec valid in
      delete_old_builds-spares S (set_defaults size img) h builds f s q failed success distinct
        listed i
