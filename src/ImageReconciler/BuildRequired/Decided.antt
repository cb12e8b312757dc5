-- ===== src/ImageReconciler/BuildRequired/Decided.antt =====
-- isBuildRequired answers yes or no once the source and the builder are ready.
use kpack.Prelude.{◌≡◌, true, String, Option, none, some, ok, Error, inl, inr, ◌⊎◌, Bool-cases}
use kpack.Api.Meta.{Foreign}
use kpack.Api.Condition.{condition_true, condition_false}
use kpack.Api.Source.{SourceConfig, SourceResolver, resolver_ready, resolver_source_config}
use kpack.Api.Builder.{DuckBuilder, builder_ready}
use kpack.Api.Build.{Build}
use kpack.Api.Image.{Image}
use kpack.BuildChange.Changes.{Externals}
use kpack.BuildChange.Processor.{ChangeSummary, new_change_processor, process_all, summarize}
use kpack.ImageReconciler.BuildRequired.{
  BuildRequiredResult, build_required, result_of, changes_of, new_build_required_result,
}

module _ {K : Foreign} (E : Externals K) where
  result_of_decided :
      (summary : ChangeSummary) (e : Option Error) (r : BuildRequiredResult)
      → result_of E summary e ≡ ok r
      → (r.condition_status ≡ condition_true) ⊎ (r.condition_status ≡ condition_false)
  unfolding result_of new_build_required_result
  result_of_decided summary (some x) r e = cc
  result_of_decided summary none r e = elim (Bool-cases summary.has_changes) [
    | inl t ↦ let status = rw t at e in inl cc
    | inr f ↦ let status = rw f at e in inr cc
  ]

  pub build_required_decided :
      (now : String) (img : Image K) (last : Option (Build K)) (sr : SourceResolver)
      (builder : DuckBuilder) (source : SourceConfig) (r : BuildRequiredResult)
      → resolver_ready sr ≡ true
      → builder_ready builder ≡ true
      → resolver_source_config sr ≡ some source
      → build_required E now img last sr builder ≡ ok r
      → (r.condition_status ≡ condition_true) ⊎ (r.condition_status ≡ condition_false)
  unfolding build_required
  build_required_decided now img last sr builder source r ready builder_is source_is e =
      let summed =
        summarize E
          (process_all E new_change_processor (changes_of E now img last sr builder source)) in
      result_of_decided summed.0 summed.1 r (rw (ready, builder_is, source_is, build_required) at e)
