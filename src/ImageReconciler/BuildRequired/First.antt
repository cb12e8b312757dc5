-- ===== src/ImageReconciler/BuildRequired/First.antt =====
-- build_required.go: the first build of an image.
use kpack.Prelude.{◌≡◌, refl, true, is_some, String, none, some, ok, inl, inr, Option-cases}
use kpack.Api.Meta.{Foreign}
use kpack.Api.Condition.{condition_true}
use kpack.Api.Source.{
  ResolvedSource, git_source, blob_source, registry_source, SourceResolver, resolver_ready,
  resolver_source_config, resolved_source, source_config,
}
use kpack.Api.Builder.{DuckBuilder, builder_ready}
use kpack.Api.Image.{Image}
use kpack.BuildChange.Changes.{Config, Externals, blank_revision}
use kpack.ImageReconciler.BuildRequired.{
  BuildRequiredResult, build_required, old_config, new_config,
}
use kpack.ImageReconciler.BuildRequired.Verdict.{build_required_of_config}
use kpack.ImageReconciler.BuildRequired.Decided.{build_required_decided}

-- `DeepEqual` follows pointers: of two equal configurations, one has a source of a kind where the
-- other has.
pub record TellsSources {K : Foreign} (E : Externals K) : Type 0 where
  pub same_git :
      (c d : Config K) → E.deep_equal c d ≡ true → is_some c.source.git ≡ is_some d.source.git
  pub same_blob :
      (c d : Config K) → E.deep_equal c d ≡ true → is_some c.source.blob ≡ is_some d.source.blob
  pub same_registry :
      (c d : Config K)
      → E.deep_equal c d ≡ true
      → is_some c.source.registry ≡ is_some d.source.registry

module _ {K : Foreign} (E : Externals K) (T : TellsSources E) (img : Image K) where
  -- The configuration of no build has no source.
  config_differs :
      {A : Type 0} (s : ResolvedSource)
      → E.deep_equal
          (blank_revision (old_config none))
          (blank_revision (new_config img (source_config s)))
        ≡ true
      → A
  unfolding source_config blank_revision old_config new_config
  config_differs (git_source g) e = let bad = T.same_git _ _ e in cc
  config_differs (blob_source b) e = let bad = T.same_blob _ _ e in cc
  config_differs (registry_source r) e = let bad = T.same_registry _ _ e in cc

  -- With a ready resolver and a ready builder the first build of an image is needed: no answer
  -- without error says anything else. Of the comparison of configurations it is relied on that it
  -- tells a source of a kind from none.
  pub build_required_first :
      (now : String) (sr : SourceResolver) (builder : DuckBuilder) (r : BuildRequiredResult)
      → resolver_ready sr ≡ true
      → builder_ready builder ≡ true
      → build_required E now img none sr builder ≡ ok r
      → r.condition_status ≡ condition_true
  unfolding build_required resolver_source_config
  build_required_first now sr builder r ready builder_is e =
      elim (Option-cases (resolved_source sr.source)) [
        | inl nothing ↦ let bad = rw (ready, builder_is, nothing, build_required) at e in cc
        | inr (s, found) ↦
            let source : resolver_source_config sr ≡ some (source_config s) =
              rw (found, resolver_source_config) refl in
            elim (build_required_decided E now img none sr builder (source_config s) r ready
              builder_is source e) [
                | inl needed ↦ needed
                | inr not_needed ↦ config_differs s (
                    (build_required_of_config E now img sr builder (source_config s) r ready
                        builder_is source e).0
                      not_needed)
              ]
      ]
