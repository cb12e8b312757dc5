-- ===== src/SourceResolverReconciler.antt =====
-- pkg/reconciler/sourceresolver: a pass that resolves the source of an image, asks to be polled
-- again and writes the status.
pub mod Retained
pub mod Known
unfoldable use kpack.Prelude.Run.{M, ◌>>=◌, ◌>>◌, pure, throw, lift, ask, request, done, optional}
use kpack.Prelude.{
  ℕ, String, Bool, true, false, ◌&&◌, ◌||◌, not, List, [], ◌∷◌, Option, none, some, if◌then◌else◌,
  ◌==◌, Result, ok, err, Error, plain, panicked,
}
use kpack.Api.Source.{
  ResolvedGitSource, ResolvedSourceConfig, SourceResolver, polling_ready, set_resolved_source,
}
use kpack.Api.Condition.{Status}

pub data Request : Type 0 where
  enqueue_after : SourceResolver → ℕ → Request
  update_resolver_status : SourceResolver → Request

-- The status of a source resolver, with the resolved source.
abbrev pub SourceStatus : Type 0
SourceStatus = Status × ResolvedSourceConfig

-- The interface `Resolver`: a source client.
pub record Resolver : Type 0 where
  pub can_resolve : SourceResolver → Bool
  pub resolve : List Request → SourceResolver → Result ResolvedSourceConfig

-- The lister, the clients, `Semantic.DeepEqual` on statuses and the feature flag.
pub record Sources : Type 0 where
  pub get_resolver : List Request → String → String → Result SourceResolver
  pub answer_update : List Request → SourceResolver → Option Error
  pub git_resolver : Resolver
  pub blob_resolver : Resolver
  pub registry_resolver : Resolver
  pub status_equal : SourceStatus → SourceStatus → Bool
  pub use_shallow_clone : Bool

-- `1*time.Minute`, in seconds: the enqueuer's own delay is not read.
abbrev pub poll_delay : ℕ
poll_delay = 60

unfoldable pub enqueue : SourceResolver → M Request (Unit {0})
enqueue sr = request (enqueue_after sr poll_delay) (λ h. ok tt)

unfoldable pub source_reconciler : Sources → SourceResolver → Result Resolver
source_reconciler S sr =
    if S.git_resolver.can_resolve sr
    then ok S.git_resolver
    else if S.blob_resolver.can_resolve sr
    then ok S.blob_resolver
    else if S.registry_resolver.can_resolve sr
    then ok S.registry_resolver
    else err (plain "invalid source type")

-- The revision that is kept: the original one where both trees are known and equal.
unfoldable pub retained_git : ResolvedGitSource → ResolvedGitSource → ResolvedGitSource
retained_git original desired =
    if original.tree == "" || desired.tree == ""
    then desired
    else if not (original.revision == desired.revision) && original.tree == desired.tree
    then record desired { revision = original.revision }
    else desired

unfoldable pub retain_commit_if_tree_unchanged :
    ResolvedSourceConfig → ResolvedSourceConfig → ResolvedSourceConfig
unfolding retained_git
retain_commit_if_tree_unchanged original desired = elim original.git [
  | none ↦ desired
  | some o ↦ elim desired.git [
    | none ↦ desired
    | some d ↦ record desired { git = some (retained_git o d) }
  ]
]

unfoldable pub with_retained : Sources → SourceResolver → SourceResolver → SourceResolver
unfolding retain_commit_if_tree_unchanged
with_retained S original desired =
    if S.use_shallow_clone
    then record desired { source = retain_commit_if_tree_unchanged original.source desired.source }
    else desired

unfoldable pub write_unless_equal : Sources → SourceResolver → SourceResolver → M Request (Unit {0})
write_unless_equal S original desired =
    if S.status_equal (original.status, original.source) (desired.status, desired.source)
    then pure tt
    else request (update_resolver_status desired) (λ h. done (S.answer_update h desired))

unfoldable pub update_status : Sources → SourceResolver → M Request (Unit {0})
unfolding with_retained write_unless_equal
update_status S desired = do
  original ← ask (λ h. S.get_resolver h desired.meta.namespace desired.meta.name)
  write_unless_equal S original (with_retained S original desired)

unfoldable pub observed : SourceResolver → SourceResolver
observed sr = record sr { status = record (sr.status) { observed_generation = sr.meta.generation } }

abbrev pub or_panic : Option SourceResolver → Result SourceResolver
or_panic none = err (panicked "nil source")
or_panic (some sr) = ok sr

unfoldable pub poll_if : Bool → SourceResolver → M Request (Unit {0})
unfolding enqueue
poll_if true sr = enqueue sr
poll_if false sr = pure tt

unfoldable pub reconcile_resolver : Sources → SourceResolver → M Request (Unit {0})
unfolding source_reconciler poll_if polling_ready set_resolved_source update_status observed
reconcile_resolver S sr = do
  reader ← lift (source_reconciler S sr)
  config ← ask (λ h. reader.resolve h sr)
  resolved ← lift (or_panic (set_resolved_source config sr))
  poll_if (polling_ready resolved) resolved
  update_status S (observed resolved)

unfoldable pub found_resolver : Sources → Option SourceResolver → M Request (Unit {0})
unfolding reconcile_resolver
found_resolver S none = pure tt
found_resolver S (some sr) = reconcile_resolver S sr

-- `Reconcile`, given the two parts of the key.
unfoldable pub reconcile : Sources → String → String → M Request (Unit {0})
unfolding found_resolver
reconcile S namespace name = do
  sr ← optional (ask (λ h. S.get_resolver h namespace name))
  found_resolver S sr
