-- ===== src/SourceResolverReconciler/Known.antt =====
-- sourceresolver.go: what a pass writes and asks for.
use kpack.Prelude.Run.{ask, lift, optional, pure, request}
use kpack.Prelude.Answers.{bind-ok, then-ok, ask-is, optional-ok, ending, write-ending}
use kpack.Prelude.{
  ℕ, ◌≡◌, refl, ap, sym, ◌∙◌, Bool, true, false, List, [], ◌∷◌, none, some, if◌then◌else◌, eqb,
  Bool-cases, inl, inr, ok, arith,
}
use kpack.Api.Condition.{
  condition_ready, condition_true, condition_false, condition_at, get_condition, is_condition_true,
}
use kpack.Api.Source.{
  ResolvedSourceConfig, ResolvedSource, SourceResolver, resolved_source, source_is_unknown,
  source_is_pollable, set_resolved_source, polling_ready, resolver_ready, active_polling,
}
use kpack.SourceResolverReconciler.{
  Request, enqueue_after, update_resolver_status, retain_commit_if_tree_unchanged, Resolver,
  Sources, SourceStatus, poll_delay, enqueue, poll_if, source_reconciler, with_retained,
  write_unless_equal, update_status, observed, or_panic, reconcile_resolver, found_resolver,
  reconcile,
}
use kpack.SourceResolverReconciler.Retained.{
  retain_commit_if_tree_unchanged_twice, retain_commit_if_tree_unchanged_same,
}

-- The status that a resolution of a known source gives.
abbrev pub resolved_with : ResolvedSourceConfig → ResolvedSource → SourceResolver → SourceResolver
resolved_with config s sr = record sr {
  source = config;
  status = record {
    observed_generation = sr.status.observed_generation;
    conditions =
        condition_at 0 condition_ready condition_true "" ""
        ∷ condition_at 0 active_polling
            (if source_is_pollable s then condition_true else condition_false) "" ""
        ∷ [];
  };
}

set_resolved_source-known :
    (config : ResolvedSourceConfig) (s : ResolvedSource) (sr : SourceResolver)
    → resolved_source config ≡ some s
    → source_is_unknown s ≡ false
    → set_resolved_source config sr ≡ some (resolved_with config s sr)
unfolding set_resolved_source
set_resolved_source-known config s sr known_source known =
    rw (known_source, set_resolved_source, known) refl

polling_ready-resolved_with :
    (config : ResolvedSourceConfig) (s : ResolvedSource) (sr : SourceResolver)
    → polling_ready (resolved_with config s sr) ≡ source_is_pollable s
unfolding polling_ready get_condition
polling_ready-resolved_with config s sr = elim (Bool-cases (source_is_pollable s)) [
  | inl e ↦ rw e refl
  | inr e ↦ rw e refl
]

eqb_refl : (n : ℕ) → eqb n n ≡ true
eqb_refl n = ground arith

poll_status : (b : Bool) → is_condition_true (if b then condition_true else condition_false) ≡ b
poll_status true = refl
poll_status false = refl

module _ (S : Sources) where
  -- The cache of the reconciler holds a resolver throughout a pass.
  abbrev pub IsHeld : SourceResolver → Type 0
  IsHeld sr = (h : List Request) → S.get_resolver h sr.meta.namespace sr.meta.name ≡ ok sr

  -- What a pass makes of a resolver whose source resolves to a known one.
  abbrev pub answered : ResolvedSourceConfig → ResolvedSource → SourceResolver → SourceResolver
  answered config s sr = with_retained S sr (observed (resolved_with config s sr))

  -- The poll that a pass asks for.
  abbrev pub polled :
      ResolvedSourceConfig → ResolvedSource → SourceResolver → List Request → List Request
  polled config s sr h =
      if source_is_pollable s then enqueue_after (resolved_with config s sr) poll_delay ∷ h else h

  update_status-IsHeld :
      (sr desired : SourceResolver) (h : List Request)
      → S.get_resolver h desired.meta.namespace desired.meta.name ≡ ok sr
      → update_status S desired h ≡ write_unless_equal S sr (with_retained S sr desired) h
  unfolding update_status
  update_status-IsHeld sr desired h held =
      bind-ok (ask (λ k. S.get_resolver k desired.meta.namespace desired.meta.name)) _ h h sr
        (ask-is _ h (ok sr) held)

  poll_if-polled :
      (config : ResolvedSourceConfig) (s : ResolvedSource) (sr : SourceResolver) (h : List Request)
      → poll_if (polling_ready (resolved_with config s sr)) (resolved_with config s sr) h
        ≡ (ok tt, polled config s sr h)
  unfolding poll_if enqueue pure request
  poll_if-polled config s sr h = elim (Bool-cases (source_is_pollable s)) [
    | inl e ↦ rw (polling_ready-resolved_with config s sr, e) refl
    | inr e ↦ rw (polling_ready-resolved_with config s sr, e) refl
  ]

  reconcile_known_writes :
      (sr : SourceResolver) (reader : Resolver) (config : ResolvedSourceConfig) (s : ResolvedSource)
      (h : List Request)
      → IsHeld sr
      → source_reconciler S sr ≡ ok reader
      → reader.resolve h sr ≡ ok config
      → resolved_source config ≡ some s
      → source_is_unknown s ≡ false
      → reconcile S sr.meta.namespace sr.meta.name h
        ≡ write_unless_equal S sr (answered config s sr) (polled config s sr h)
  unfolding reconcile found_resolver reconcile_resolver observed with_retained lift
  reconcile_known_writes sr reader config s h held chosen resolves known_source known =
      let resolved = set_resolved_source-known config s sr known_source known in
      let first : lift (source_reconciler S sr) h ≡ (ok reader, h) = rw chosen refl in
      let third : lift (or_panic (set_resolved_source config sr)) h
          ≡ (ok (resolved_with config s sr), h) =
        rw resolved refl in
      bind-ok (optional (ask (λ k. S.get_resolver k sr.meta.namespace sr.meta.name))) _ h h
        (some sr) (optional-ok _ h h sr (ask-is _ h (ok sr) (held h)))
      ∙ bind-ok (lift (source_reconciler S sr)) _ h h reader first
      ∙ bind-ok (ask (λ k. reader.resolve k sr)) _ h h config (ask-is _ h (ok config) resolves)
      ∙ bind-ok (lift (or_panic (set_resolved_source config sr))) _ h h (resolved_with config s sr)
          third
      ∙ then-ok _ _ h (polled config s sr h) (poll_if-polled config s sr h)
      ∙ update_status-IsHeld sr (observed (resolved_with config s sr)) (polled config s sr h)
          (held (polled config s sr h))

  -- What the pass makes of the resolver is ready, and polls just for a source that can move.
  pub answered_ready :
      (config : ResolvedSourceConfig) (s : ResolvedSource) (sr : SourceResolver)
      → (resolver_ready (answered config s sr) ≡ true)
        × (polling_ready (answered config s sr) ≡ source_is_pollable s)
  unfolding with_retained observed resolver_ready polling_ready get_condition
  answered_ready config s sr = elim (Bool-cases S.use_shallow_clone) [
    | inl e ↦ rw e (eqb_refl sr.meta.generation, poll_status (source_is_pollable s))
    | inr e ↦ rw e (eqb_refl sr.meta.generation, poll_status (source_is_pollable s))
  ]

  -- Beside its status a pass changes the resolved source, and nothing else.
  answered_source :
      (config : ResolvedSourceConfig) (s : ResolvedSource) (sr : SourceResolver)
      → answered config s sr ≡ record sr {
        status = (answered config s sr).status;
        source =
            if S.use_shallow_clone
            then retain_commit_if_tree_unchanged sr.source config
            else config;
      }
  unfolding with_retained observed
  answered_source config s sr = elim (Bool-cases S.use_shallow_clone) [
    | inl e ↦ rw e refl
    | inr e ↦ rw e refl
  ]

  answered_observed :
      (config : ResolvedSourceConfig) (s : ResolvedSource) (sr : SourceResolver)
      → (answered config s sr).status.observed_generation ≡ sr.meta.generation
  unfolding with_retained observed
  answered_observed config s sr = elim (Bool-cases S.use_shallow_clone) [
    | inl e ↦ rw e refl
    | inr e ↦ rw e refl
  ]

  -- When the cache holds a resolver throughout the pass and its source resolves to a known one, the
  -- pass asks to be polled just for a source that can move. It then writes the resolver with what
  -- was resolved, where with shallow clones a commit of the same tree is retained, unless the cache
  -- has that status and source already; it changes nothing else of it, and answers with the error of
  -- the write. The status is ready, polls just for a source that can move, and speaks of the present
  -- generation.
  pub reconcile_known :
      (sr : SourceResolver) (reader : Resolver) (config : ResolvedSourceConfig) (s : ResolvedSource)
      (h : List Request)
      → IsHeld sr
      → source_reconciler S sr ≡ ok reader
      → reader.resolve h sr ≡ ok config
      → resolved_source config ≡ some s
      → source_is_unknown s ≡ false
      → (new : SourceResolver) × (resolver_ready new ≡ true)
        × (polling_ready new ≡ source_is_pollable s)
        × (new.status.observed_generation ≡ sr.meta.generation)
        × (new ≡ record sr {
          status = new.status;
          source =
              if S.use_shallow_clone
              then retain_commit_if_tree_unchanged sr.source config
              else config;
        })
        × (reconcile S sr.meta.namespace sr.meta.name h
            ≡ ending
                (S.status_equal (sr.status, sr.source) (new.status, new.source))
                (S.answer_update (polled config s sr h) new)
                none
                (update_resolver_status new)
                (polled config s sr h))
  unfolding write_unless_equal
  reconcile_known sr reader config s h held chosen resolves known_source known =
      let new = answered config s sr in
      let (ready, polls) = answered_ready config s sr in
      (
        new,
        ready,
        polls,
        answered_observed config s sr,
        answered_source config s sr,
        reconcile_known_writes sr reader config s h held chosen resolves known_source known
            ∙ write-ending (S.status_equal (sr.status, sr.source) (new.status, new.source))
                (update_resolver_status new) (λ g. S.answer_update g new) (polled config s sr h),
      )

  answered_twice :
      (config : ResolvedSourceConfig) (s : ResolvedSource) (sr : SourceResolver)
      → answered config s (answered config s sr) ≡ answered config s sr
  unfolding with_retained observed
  answered_twice config s sr = elim (Bool-cases S.use_shallow_clone) [
    | inl e ↦ rw e (
        ap (λ c. record (observed (resolved_with config s sr)) { source = c })
          (retain_commit_if_tree_unchanged_twice sr.source config))
    | inr e ↦ rw e refl
  ]

  written_already :
      (sr : SourceResolver) (h : List Request)
      → ((x : SourceStatus) → S.status_equal x x ≡ true)
      → write_unless_equal S sr sr h ≡ (ok tt, h)
  unfolding write_unless_equal pure
  written_already sr h reflexive = rw (reflexive (sr.status, sr.source)) refl

  -- With a reflexive comparison of statuses: once the cache has what a pass made of a resolver, a
  -- pass in which the source still resolves to the same known one writes nothing, also where an
  -- earlier commit was kept. It only polls.
  pub reconcile_settled :
      (before : SourceResolver) (reader : Resolver) (config : ResolvedSourceConfig)
      (s : ResolvedSource) (h : List Request)
      → ((x : SourceStatus) → S.status_equal x x ≡ true)
      → IsHeld (answered config s before)
      → source_reconciler S (answered config s before) ≡ ok reader
      → reader.resolve h (answered config s before) ≡ ok config
      → resolved_source config ≡ some s
      → source_is_unknown s ≡ false
      → reconcile S (answered config s before).meta.namespace (answered config s before).meta.name h
        ≡ (ok tt, polled config s (answered config s before) h)
  reconcile_settled before reader config s h reflexive held chosen resolves known_source known =
      reconcile_known_writes (answered config s before) reader config s h held chosen resolves
        known_source known
      ∙ ap
          (λ x.
            write_unless_equal S (answered config s before) x
              (polled config s (answered config s before) h))
          (answered_twice config s before)
      ∙ written_already (answered config s before) (polled config s (answered config s before) h)
          reflexive

  with_retained_same : (sr : SourceResolver) → with_retained S sr sr ≡ sr
  unfolding with_retained
  with_retained_same sr = elim (Bool-cases S.use_shallow_clone) [
    | inl e ↦
        rw e (ap (λ c. record sr { source = c }) (retain_commit_if_tree_unchanged_same sr.source))
    | inr e ↦ rw e refl
  ]

  observed_same :
      (sr : SourceResolver) → sr.status.observed_generation ≡ sr.meta.generation → observed sr ≡ sr
  unfolding observed
  observed_same sr current =
      ap (λ n. record sr { status = record (sr.status) { observed_generation = n } }) (sym current)

  -- With a reflexive comparison of statuses: while the source resolves to an unknown one, a held
  -- resolver that was observed at its generation keeps what was resolved last. The pass writes
  -- nothing, and polls if it did before.
  pub reconcile_unknown :
      (sr : SourceResolver) (reader : Resolver) (config : ResolvedSourceConfig) (s : ResolvedSource)
      (h : List Request)
      → ((x : SourceStatus) → S.status_equal x x ≡ true)
      → IsHeld sr
      → source_reconciler S sr ≡ ok reader
      → reader.resolve h sr ≡ ok config
      → resolved_source config ≡ some s
      → source_is_unknown s ≡ true
      → sr.status.observed_generation ≡ sr.meta.generation
      → reconcile S sr.meta.namespace sr.meta.name h
        ≡ (ok tt, if polling_ready sr then enqueue_after sr poll_delay ∷ h else h)
  unfolding reconcile found_resolver reconcile_resolver lift poll_if enqueue pure request
  reconcile_unknown sr reader config s h reflexive held chosen resolves known_source unknown
        current =
      let k : List Request = if polling_ready sr then enqueue_after sr poll_delay ∷ h else h in
      let first : lift (source_reconciler S sr) h ≡ (ok reader, h) = rw chosen refl in
      let kept : set_resolved_source config sr ≡ some sr =
        rw (known_source, set_resolved_source, unknown, current, eqb_refl sr.meta.generation)
          refl in
      let third : lift (or_panic (set_resolved_source config sr)) h ≡ (ok sr, h) = rw kept refl in
      let polls : poll_if (polling_ready sr) sr h ≡ (ok tt, k) =
        elim (Bool-cases (polling_ready sr)) [ inl e ↦ rw e refl | inr e ↦ rw e refl ] in
      bind-ok (optional (ask (λ k. S.get_resolver k sr.meta.namespace sr.meta.name))) _ h h
        (some sr) (optional-ok _ h h sr (ask-is _ h (ok sr) (held h)))
      ∙ bind-ok (lift (source_reconciler S sr)) _ h h reader first
      ∙ bind-ok (ask (λ k. reader.resolve k sr)) _ h h config (ask-is _ h (ok config) resolves)
      ∙ bind-ok (lift (or_panic (set_resolved_source config sr))) _ h h sr third
      ∙ then-ok _ _ h k polls
      ∙ ap (λ x. update_status S x k) (observed_same sr current)
      ∙ update_status-IsHeld sr sr k (held k)
      ∙ ap (λ x. write_unless_equal S sr x k) (with_retained_same sr)
      ∙ written_already sr k reflexive
