-- ===== src/Tests/Changes.antt =====
-- pkg/buildchange at concrete changes.
use kpack.Prelude.{
  ℕ, ◌≡◌, refl, ◌⊎◌, ◌≤◌, false, List, [], ◌∷◌, Option, none, some, ok, All, In, arith,
}
use kpack.Tests.Samples.{foreign, externals, documented, git_config}
use kpack.BuildChange.Changes.{
  Change, GenericChange, stack_change, lifecycle_change, commit_change, config_change,
  is_build_required, new_generic_change,
}
use kpack.BuildChange.Processor.{
  process, process_all, new_change_processor, summarize, priority_of, changes_str,
}
use kpack.BuildChange.Revision.{
  Store, ConfigRef, load, config_is_build_required, config_is_build_required-restores,
  config_is_build_required_shared,
}
use kpack.BuildChange.Summary.{
  required, failures, complaint, kept, summary_of, priority_of-greatest, summarize-process_all,
  summarize_reports_failures,
}

abbrev changes : List (Option (Change foreign))
changes =
    some (commit_change "abc" "abd")
    ∷ none
    ∷ some (stack_change "run1" "run2" none)
    ∷ some (lifecycle_change "0.17" "0.17")
    ∷ []

summarize-process_all_example :
    summarize externals (process_all externals new_change_processor changes)
    ≡ (summary_of externals (required externals changes) "[changes]", none)
unfolding failures is_build_required required changes_str complaint kept
summarize-process_all_example =
    summarize-process_all externals documented changes "[changes]" refl refl

summarize_reports_failures_example : failures externals changes ≡ []
unfolding summarize process_all process is_build_required new_change_processor new_generic_change
summarize_reports_failures_example = summarize_reports_failures externals changes refl

priority_of-greatest_example :
    All (λ c. c.priority ≤ priority_of (required externals changes)) (required externals changes)
    × ((priority_of (required externals changes) ≡ 0)
        ⊎ ((c : GenericChange foreign) × In c (required externals changes)
            × (priority_of (required externals changes) ≡ c.priority)))
priority_of-greatest_example = priority_of-greatest (required externals changes)

abbrev store : Store
store r = record { url = "https://git"; revision = "abc"; initialize_submodules = false }

abbrev config_ref : Option ℕ → ConfigRef foreign
config_ref p = record {
  rest = record { env = []; resources = ""; services = []; cnb_bindings = []; source = git_config };
  git = p;
}

config_is_build_required-restores_example :
    (ok (config_is_build_required externals store (config_ref (some 0)) (config_ref (some 1))).0
      ≡ is_build_required externals
          (config_change (load store (config_ref (some 0))) (load store (config_ref (some 1)))))
    × ((r : ℕ)
        → (config_is_build_required externals store (config_ref (some 0)) (config_ref (some 1))).1 r
          ≡ store r)
config_is_build_required-restores_example =
    config_is_build_required-restores externals store (config_ref (some 0)) (config_ref (some 1))
      (ground arith)

config_is_build_required_shared_example :
    ((config_is_build_required externals store (config_ref (some 0)) (config_ref (some 0))).1
      0).revision
    ≡ ""
config_is_build_required_shared_example =
    config_is_build_required_shared externals store (config_ref (some 0)) (config_ref (some 0)) 0
      refl refl
