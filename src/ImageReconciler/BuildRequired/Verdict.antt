-- ===== src/ImageReconciler/BuildRequired/Verdict.antt =====
-- When isBuildRequired asks for a build.
use mathlib.Core.List.{append-eq-nil_iff}
use kpack.Prelude.Sorting.{sort}
use kpack.Prelude.Sorting
use kpack.Prelude.{
  ◌≡◌, refl, ap, ◌↔◌, inl, inr, String, Bool, true, false, List, [], ◌∷◌, Option, none, some, ◌<>◌,
  eq_iff, Result, ok, err, Error, arith, All, Bool-cases, In, append-ne_empty, subst,
}
use kpack.Api.Meta.{Foreign, get}
use kpack.Api.Condition.{condition_false}
use kpack.Api.Source.{
  SourceConfig, Git, ResolvedGitSource, SourceResolver, resolver_ready, resolver_source_config,
}
use kpack.Api.Builder.{BuildpackMetadata, DuckBuilder, builder_ready, include}
use kpack.Api.Build.{Build, is_success, build_needed_annotation}
use kpack.Api.Image.{Image}
use kpack.BuildChange.Changes.{
  Change, GenericChange, Externals, Documented, BuildpackInfo, is_build_required, blank_revision,
  new_trigger_change, less_info, new_stack_change, buildpack_change,
}
use kpack.BuildChange.Processor.{new_change_processor, process_all, summarize, has_changes}
use kpack.BuildChange.Summary.{
  required, failures, kept, complaint, process_all-eq, summarize_reports_failures,
}
use kpack.ImageReconciler.BuildRequired.{
  BuildRequiredResult, result_of, new_build_required_result, build_required, changes_of, old_config,
  new_config, missing_buildpacks, trigger_change, trigger_of, commit_change_of, buildpack_change_of,
  stack_change_of, lifecycle_change_of,
}

module _ {K : Foreign} (E : Externals K) where
  -- A change that is absent, or whose test says that no build is required.
  abbrev Quiet : Option (Change K) → Type 0
  Quiet none = Unit
  Quiet (some c) = is_build_required E c ≡ ok false

  quiet_result :
      (c : Change K) (r : Result Bool) → complaint c r ≡ [] → kept c r ≡ [] → r ≡ ok false
  unfolding kept complaint
  quiet_result c (ok true) f k = cc
  quiet_result c (ok false) f k = refl
  quiet_result c (err e) f k = cc

  quiet_of_required :
      (cs : List (Option (Change K))) → failures E cs ≡ [] → required E cs ≡ [] → All Quiet cs
  unfolding required failures
  quiet_of_required [] f r = tt
  quiet_of_required (none ∷ cs) f r = (tt, quiet_of_required cs f r)
  quiet_of_required (some c ∷ cs) f r =
      let (f', fs) = (append-eq-nil_iff {p = complaint c (is_build_required E c)}).0 f in
      let (k, ks) = (append-eq-nil_iff {p = kept c (is_build_required E c)}).0 r in
      (quiet_result c (is_build_required E c) f' k, quiet_of_required cs fs ks)

  required_of_quiet :
      (cs : List (Option (Change K))) → All Quiet cs → (required E cs ≡ []) × (failures E cs ≡ [])
  unfolding required failures kept complaint
  required_of_quiet [] q = (refl, refl)
  required_of_quiet (none ∷ cs) q = required_of_quiet cs q.1
  required_of_quiet (some c ∷ cs) q = rw q.0 (required_of_quiet cs q.1)

  trigger_quiet : (now : String) (v : Option String) → Quiet (trigger_of now v) ↔ (v ≡ none)
  unfolding trigger_of is_build_required new_trigger_change
  trigger_quiet now none = ((λ q. refl), (λ q. tt))
  trigger_quiet now (some v) =
      let prefix : String = "A new build was manually triggered on " in
      (
        (λ q. absurd (
            append-ne_empty prefix now (λ e. ground (arith, eq_iff prefix "", e))
              (ground (arith, eq_iff (prefix <> now) "", q)))),
        (λ q. cc),
      )

-- The revisions agree where both the last build and the resolver have a Git source.
abbrev pub SameRevision : Option Git → Option ResolvedGitSource → Type 0
SameRevision (some g) (some h) = g.revision ≡ h.revision
SameRevision _ _ = Unit

module _ {K : Foreign} (E : Externals K) where
  commit_quiet :
      (b : Build K) (sr : SourceResolver) (g : Option Git) (h : Option ResolvedGitSource)
      → b.spec.source.git ≡ g
      → sr.source.git ≡ h
      → Quiet E (commit_change_of (some b) sr) ↔ SameRevision g h
  unfolding commit_change_of is_build_required
  commit_quiet b sr none h eg eh = rw eg ((λ q. tt), (λ q. tt))
  commit_quiet b sr (some g) none eg eh = rw (eg, eh) ((λ q. tt), (λ q. tt))
  commit_quiet b sr (some g) (some h) eg eh =
      rw (eg, eh) (ground (arith, eq_iff g.revision h.revision))

  missing_none :
      (available ms : List BuildpackMetadata)
      → (missing_buildpacks available ms ≡ []) ↔ All (λ m. include m available ≡ true) ms
  unfolding missing_buildpacks
  missing_none available [] = ((λ q. tt), (λ q. refl))
  missing_none available (m ∷ ms) = elim (Bool-cases (include m available)) [
    | inl e ↦
        rw e
          ((λ q. (refl, (missing_none available ms).0 q)), (λ q. (missing_none available ms).1 q.1))
    | inr e ↦ rw e ((λ q. cc), (λ q. cc (q.0)))
  ]

  sort_empty : (xs : List BuildpackInfo) → sort less_info xs ≡ [] → xs ≡ []
  sort_empty [] e = refl
  sort_empty (x ∷ xs) e =
      absurd (subst (In x) e (Sorting.In-sort_of less_info x (x ∷ xs) (inl refl)))

  missing_quiet :
      {P : Type 0} (D : Documented E) (xs : List BuildpackInfo)
      → (xs ≡ []) ↔ P
      → Quiet E (some (buildpack_change xs [])) ↔ P
  unfolding is_build_required sort
  missing_quiet D xs h = (
    (λ q. h.0 (sort_empty xs ((D.cmp_equal_iff (sort less_info xs) []).0 (ground (arith, q))))),
    (λ p. rw (h.1 p, (D.cmp_equal_iff [] []).1 refl) refl),
  )

  buildpack_quiet :
      (D : Documented E) (b : Build K) (builder : DuckBuilder)
      → is_success b ≡ true
      → Quiet E (buildpack_change_of (some b) builder)
        ↔ All (λ m. include m builder.builder_metadata ≡ true) b.status.build_metadata
  unfolding buildpack_change_of is_build_required
  buildpack_quiet D b builder s = rw s (
      missing_quiet D (missing_buildpacks builder.builder_metadata b.status.build_metadata)
        (missing_none builder.builder_metadata b.status.build_metadata))

  -- Both references parse, to one identifier.
  abbrev pub SameIdentifier : String → String → Type 0
  SameIdentifier a b = (d : String) × (E.identifier a ≡ ok d) × (E.identifier b ≡ ok d)

  identifiers_quiet :
      (x y : String) (a b : Result String)
      → E.identifier x ≡ a
      → E.identifier y ≡ b
      → Quiet E (some (new_stack_change E x y)) ↔ ((d : String) × (a ≡ ok d) × (b ≡ ok d))
  unfolding new_stack_change is_build_required
  identifiers_quiet x y (ok c) (ok d) ea eb =
      rw (ea, eb)
        ((λ q. (d, ground (arith, eq_iff c d), refl)), (λ (f, p, q). ground (arith, eq_iff c d)))
  identifiers_quiet x y (ok c) (err e) ea eb = rw (ea, eb) ((λ q. cc), (λ (f, p, q). cc))
  identifiers_quiet x y (err e) (ok d) ea eb = rw (ea, eb) ((λ q. cc), (λ (f, p, q). cc))
  identifiers_quiet x y (err e) (err f) ea eb = rw (ea, eb) ((λ q. cc), (λ (f, p, q). cc))

  stack_quiet :
      (b : Build K) (builder : DuckBuilder)
      → is_success b ≡ true
      → Quiet E (stack_change_of E (some b) builder)
        ↔ SameIdentifier b.status.stack.run_image builder.stack.run_image
  unfolding stack_change_of
  stack_quiet b builder s = rw s (identifiers_quiet _ _ _ _ refl refl)

  lifecycle_quiet :
      (b : Build K) (builder : DuckBuilder)
      → is_success b ≡ true
      → Quiet E (lifecycle_change_of (some b) builder)
        ↔ (b.status.lifecycle_version ≡ builder.lifecycle_version)
  unfolding lifecycle_change_of is_build_required
  lifecycle_quiet b builder s =
      rw s (ground (arith, eq_iff b.status.lifecycle_version builder.lifecycle_version))

  summarize-has_changes :
      (cs : List (Option (Change K)))
      → (summarize E (process_all E new_change_processor cs)).0.has_changes
        ≡ has_changes (required E cs)
  unfolding summarize new_change_processor
  summarize-has_changes cs = rw (process_all-eq E (record { changes = []; err_strs = [] }) cs) refl

  no_changes : (gs : List (GenericChange K)) → has_changes gs ≡ false → gs ≡ []
  unfolding has_changes
  no_changes [] e = refl
  no_changes (g ∷ gs) e = cc

  -- The verdict of a chain of `Process` calls that ends without error.
  verdict :
      (cs : List (Option (Change K))) (e : Option Error) (r : BuildRequiredResult)
      → (summarize E (process_all E new_change_processor cs)).1 ≡ e
      → result_of E (summarize E (process_all E new_change_processor cs)).0 e ≡ ok r
      → (r.condition_status ≡ condition_false) ↔ All (Quiet E) cs
  unfolding result_of new_build_required_result has_changes
  verdict cs (some x) r es er = cc
  verdict cs none r es er =
      let f = summarize_reports_failures E cs es in
      let h = summarize-has_changes cs in
      (
        (λ q. quiet_of_required E cs f (no_changes (required E cs) (ground (arith, h)))),
        (λ q. ground (arith, h, ap has_changes (required_of_quiet E cs q).0)),
      )

  -- The last build is what the image would get now: nothing asked for another, and its revision,
  -- its configuration, the builder's buildpacks, the run image and the lifecycle are the present
  -- ones.
  pub record IsCurrent (img : Image K) (b : Build K) (sr : SourceResolver) (builder : DuckBuilder)
      (source : SourceConfig) : Type 0 where
    pub not_triggered : get build_needed_annotation b.meta.annotations ≡ none
    pub same_revision : SameRevision b.spec.source.git sr.source.git
    pub same_config :
        E.deep_equal (blank_revision (old_config (some b))) (blank_revision (new_config img source))
        ≡ true
    pub has_buildpacks :
        All (λ m. include m builder.builder_metadata ≡ true) b.status.build_metadata
    pub same_run_image : SameIdentifier b.status.stack.run_image builder.stack.run_image
    pub same_lifecycle : b.status.lifecycle_version ≡ builder.lifecycle_version

module _ {K : Foreign} (E : Externals K) (D : Documented E) (now : String) (img : Image K)
    (b : Build K) (sr : SourceResolver) (builder : DuckBuilder) (source : SourceConfig) where
  changes_quiet :
      is_success b ≡ true
      → All (Quiet E) (changes_of E now img (some b) sr builder source)
        ↔ IsCurrent E img b sr builder source
  unfolding changes_of is_build_required trigger_of trigger_change
  changes_quiet s =
      let t = trigger_quiet E now (get build_needed_annotation b.meta.annotations) in
      let c = commit_quiet E b sr b.spec.source.git sr.source.git refl refl in
      let m = buildpack_quiet E D b builder s in
      let i = stack_quiet E b builder s in
      let l = lifecycle_quiet E b builder s in
      (
        (λ q. record {
          not_triggered = t.0 q.0;
          same_revision = c.0 q.1.0;
          same_config = ground (arith, q.1.1.0);
          has_buildpacks = m.0 q.1.1.1.0;
          same_run_image = i.0 q.1.1.1.1.0;
          same_lifecycle = l.0 q.1.1.1.1.1.0;
        }),
        (λ u. (
          t.1 u.not_triggered,
          (
            c.1 u.same_revision,
            (
              rw u.same_config refl,
              (m.1 u.has_buildpacks, (i.1 u.same_run_image, (l.1 u.same_lifecycle, tt))),
            ),
          ),
        )),
      )

  -- With a ready resolver and builder and a last build that succeeded, an answer is "no build"
  -- exactly when the last build is current.
  pub build_required-false_iff :
      (r : BuildRequiredResult)
      → resolver_ready sr ≡ true
      → builder_ready builder ≡ true
      → resolver_source_config sr ≡ some source
      → is_success b ≡ true
      → build_required E now img (some b) sr builder ≡ ok r
      → (r.condition_status ≡ condition_false) ↔ IsCurrent E img b sr builder source
  unfolding build_required
  build_required-false_iff r ready builder_is source_is success e =
      let v =
        verdict E (changes_of E now img (some b) sr builder source) _ r refl
          (rw (ready, builder_is, source_is, build_required) at e) in
      let q = changes_quiet success in ((λ h. q.0 (v.0 h)), (λ u. v.1 (q.1 u)))

module _ {K : Foreign} (E : Externals K) (now : String) (img : Image K) (sr : SourceResolver)
    (builder : DuckBuilder) (source : SourceConfig) where
  -- The change of the configuration is the only one of a first build.
  pub build_required_of_config :
      (r : BuildRequiredResult)
      → resolver_ready sr ≡ true
      → builder_ready builder ≡ true
      → resolver_source_config sr ≡ some source
      → build_required E now img none sr builder ≡ ok r
      → (r.condition_status ≡ condition_false) ↔ (
          E.deep_equal (blank_revision (old_config none)) (blank_revision (new_config img source))
          ≡ true)
  unfolding build_required changes_of is_build_required trigger_change commit_change_of
      buildpack_change_of stack_change_of lifecycle_change_of
  build_required_of_config r ready builder_is source_is e =
      let v =
        verdict E (changes_of E now img none sr builder source) _ r refl
          (rw (ready, builder_is, source_is, build_required) at e) in
      (
        (λ h. let q = v.0 h in ground (arith, q.1.1.0)),
        (λ c. v.1 (tt, (tt, (rw c refl, (tt, (tt, (tt, tt))))))),
      )
