-- ===== src/Tests/Sources.antt =====
-- pkg/reconciler/sourceresolver at a concrete resolver.
use kpack.Prelude.Answers.{ending}
use kpack.Prelude.{
  ℕ, ◌≡◌, refl, String, true, false, [], ◌∷◌, none, some, ok, eqb, if◌then◌else◌, arith,
}
use kpack.Api.Source.{
  GitSourceKind, unknown, branch, ResolvedGitSource, ResolvedSourceConfig, git_source,
  SourceResolver, polling_ready, resolver_ready, source_is_pollable, resolved_source,
  source_is_unknown,
}
use kpack.Tests.Samples.{meta_of, git_config}
use kpack.SourceResolverReconciler.{
  enqueue_after, update_resolver_status, poll_delay, Resolver, Sources, with_retained,
  source_reconciler, retain_commit_if_tree_unchanged, reconcile,
}
use kpack.SourceResolverReconciler.Retained.{IsRetained, retain_commit_if_tree_unchanged-IsRetained}
use kpack.SourceResolverReconciler.Known.{
  answered, polled, reconcile_known, reconcile_settled, reconcile_unknown,
}

abbrev git_at : GitSourceKind → String → ResolvedGitSource
git_at kind revision = record {
  url = "https://git";
  revision = revision;
  sub_path = "";
  tree = "tree1";
  kind = kind;
  initialize_submodules = false;
}

abbrev config_of : ResolvedGitSource → ResolvedSourceConfig
config_of g = record { git = some g; blob = none; registry = none }

abbrev sample : SourceResolver
sample = record {
  meta = meta_of "app-source" 0;
  spec = record { service_account_name = "default"; source = git_config };
  status = record { observed_generation = 1; conditions = [] };
  source = config_of (git_at branch "abc");
}

abbrev reader_of : ResolvedGitSource → Resolver
reader_of g = record { can_resolve = λ sr. true; resolve = λ h sr. ok (config_of g) }

abbrev sources_of : ResolvedGitSource → SourceResolver → Sources
sources_of g held = record {
  get_resolver = λ h namespace name. ok held;
  answer_update = λ h sr. none;
  git_resolver = reader_of g;
  blob_resolver = reader_of g;
  registry_resolver = reader_of g;
  status_equal = λ a b. eqb a.0.observed_generation b.0.observed_generation;
  use_shallow_clone = true;
}

abbrev later : ResolvedGitSource
later = git_at branch "abd"

retain_commit_if_tree_unchanged-IsRetained_example :
    (g : ResolvedGitSource) × ((retain_commit_if_tree_unchanged sample.source (config_of later)).git
      ≡ some g)
    × IsRetained (git_at branch "abc") later g
retain_commit_if_tree_unchanged-IsRetained_example =
    retain_commit_if_tree_unchanged-IsRetained sample.source (config_of later) (git_at branch "abc")
      later refl refl

reconcile_known_example :
    let S = sources_of later sample in
    (new : SourceResolver) × (resolver_ready new ≡ true)
    × (polling_ready new ≡ source_is_pollable (git_source later))
    × (new.status.observed_generation ≡ sample.meta.generation)
    × (new ≡ record sample {
      status = new.status;
      source =
          if S.use_shallow_clone
          then retain_commit_if_tree_unchanged sample.source (config_of later)
          else config_of later;
    })
    × (reconcile S "apps" "app-source" []
        ≡ ending
            (S.status_equal (sample.status, sample.source) (new.status, new.source))
            (S.answer_update (polled S (config_of later) (git_source later) sample []) new)
            none
            (update_resolver_status new)
            (polled S (config_of later) (git_source later) sample []))
unfolding source_reconciler resolved_source source_is_unknown
reconcile_known_example =
    reconcile_known (sources_of later sample) sample (reader_of later) (config_of later)
      (git_source later) [] (λ h. refl) refl refl refl refl

abbrev settled : SourceResolver
unfolding answered
settled = answered (sources_of later sample) (config_of later) (git_source later) sample

eqb_same : (n : ℕ) → eqb n n ≡ true
eqb_same n = ground arith

reconcile_settled_example :
    reconcile (sources_of later settled) settled.meta.namespace settled.meta.name []
    ≡ (ok tt, polled (sources_of later settled) (config_of later) (git_source later) settled [])
unfolding source_reconciler resolved_source source_is_unknown settled with_retained
reconcile_settled_example =
    reconcile_settled (sources_of later settled) sample (reader_of later) (config_of later)
      (git_source later) [] (λ x. eqb_same x.0.observed_generation) (λ h. refl) refl refl refl refl

abbrev lost : ResolvedGitSource
lost = git_at unknown ""

reconcile_unknown_example :
    reconcile (sources_of lost sample) "apps" "app-source" []
    ≡ (ok tt, if polling_ready sample then enqueue_after sample poll_delay ∷ [] else [])
unfolding source_reconciler resolved_source source_is_unknown
reconcile_unknown_example =
    reconcile_unknown (sources_of lost sample) sample (reader_of lost) (config_of lost)
      (git_source lost) [] (λ x. eqb_same x.0.observed_generation) (λ h. refl) refl refl refl refl
      refl
