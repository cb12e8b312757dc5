-- ===== src/ImageReconciler.antt =====
-- pkg/reconciler/image: the controller that keeps an Image's builds, source resolver and cache
-- claim as the image asks. `BuildRequired` is build_required.go, `BuildList` build_list.go,
-- `Conditions` and `Schedule` reconcile_build.go, `Cluster` and `Reconcile` image.go.
pub mod BuildRequired
pub mod BuildList
pub mod Conditions
pub mod Server
pub mod Schedule
pub mod Reconcile
