-- ===== src/ImageReconciler/Schedule/Requests.antt =====
-- reconcile_build.go: what reconcileBuild asks for after a successful last build.
use kpack.Prelude.Answers.{bind-ok, wrap-ok}
use kpack.Prelude.{
  ◌≡◌, refl, ap, ◌∙◌, String, true, List, ◌∷◌, some, ℤ, increment, Result, ok, err, Error, inl, inr,
}
use kpack.Api.Meta.{Foreign}
use kpack.Api.Condition.{condition_false}
use kpack.Api.Source.{SourceConfig, SourceResolver, resolver_ready, resolver_source_config}
use kpack.Api.Builder.{DuckBuilder, builder_ready}
use kpack.Api.Build.{Build, is_success, build_ref}
use kpack.Api.Image.{Image, ImageStatus}
use kpack.Api.Wanted.{image_build}
use kpack.BuildChange.Changes.{Documented}
use kpack.ImageReconciler.BuildRequired.{BuildRequiredResult, build_required}
use kpack.ImageReconciler.BuildRequired.Decided.{build_required_decided}
use kpack.ImageReconciler.BuildRequired.Verdict.{IsCurrent, build_required-false_iff}
use kpack.ImageReconciler.Server.{
  Server, History, create_build, M, ◌>>=◌, lift, request, wrap_by, pure,
}
use kpack.ImageReconciler.Schedule.{
  Setting, build_counter, priority_class_name, schedule, schedule_with, keep, act_on,
  reconcile_build,
}

module _ {R : Type 0} {A B : Type 0} where
  lift-pure_silent :
      (x : Result A) (f : A → B) (h : List R) → ((lift x >>= λ a. pure (f a)) h).1 ≡ h
  unfolding lift pure ◌>>=◌
  lift-pure_silent (ok a) f h = refl
  lift-pure_silent (err e) f h = refl

module _ {R : Type 0} {A : Type 0} where
  wrap_by-ok :
      (text : Error → String) (m : M R A) (h g : List R) (a : A)
      → m h ≡ (ok a, g)
      → wrap_by text m h ≡ (ok a, g)
  unfolding wrap_by
  wrap_by-ok text m h g a e = rw e refl

  request-is :
      (r : R) (q : List R → Result A) (h : List R) (x : Result A)
      → q h ≡ x
      → request r q h ≡ (x, r ∷ h)
  unfolding request
  request-is r q h x e = rw e refl

module _ {K : Foreign} (S : Server K) (set : Setting K) (img : Image K) (b : Build K)
    (sr : SourceResolver) (builder : DuckBuilder) (source : SourceConfig) where
  -- The build that is asked for, with the number after `number`.
  abbrev pub wanted : ℤ → BuildRequiredResult → Build K
  wanted number r =
      image_build set.naming img source builder (some b) r.reasons_str r.changes_str
        (increment number) (priority_class_name S set r) set.stamp

  up_to_switch :
      (cache_name : String) (h : History K) (number : ℤ) (r : BuildRequiredResult)
      → build_counter (some b) ≡ ok number
      → build_required set.externals set.formatted_now img (some b) sr builder ≡ ok r
      → reconcile_build S set img (some b) sr builder cache_name h
        ≡ act_on S set r.condition_status img (some b) sr builder cache_name number r h
  unfolding reconcile_build lift
  up_to_switch cache_name h number r counted required =
      let first : lift (build_counter (some b)) h ≡ (ok number, h) = rw counted refl in
      let second : lift (build_required set.externals set.formatted_now img (some b) sr builder) h
          ≡ (ok r, h) =
        rw required refl in
      bind-ok _ _ h h number (wrap-ok _ _ h h number first)
      ∙ bind-ok _ _ h h r (wrap-ok _ _ h h r second)

  -- With a ready source and builder, and a numbered last build that was successful but is not
  -- current: if the verdict is reached without error and the server accepts the build, the one
  -- request is the next build, and the status has its number and names what the server made of it.
  pub reconcile_build_stale :
      (cache_name : String) (h : History K) (number : ℤ) (r : BuildRequiredResult) (build : Build K)
      → Documented set.externals
      → resolver_ready sr ≡ true
      → builder_ready builder ≡ true
      → resolver_source_config sr ≡ some source
      → is_success b ≡ true
      → (IsCurrent set.externals img b sr builder source → ⊥)
      → build_counter (some b) ≡ ok number
      → build_required set.externals set.formatted_now img (some b) sr builder ≡ ok r
      → S.answer_build h (wanted number r) ≡ ok build
      → (status : ImageStatus) × (reconcile_build S set img (some b) sr builder cache_name h
          ≡ (ok status, create_build (wanted number r) ∷ h))
        × (status.build_counter ≡ increment number)
        × (status.latest_build_ref ≡ build_ref (some build))
  unfolding act_on schedule_with schedule pure
  reconcile_build_stale cache_name h number r build D ready builder_is source_is success stale
        counted required answers =
      let iff =
        build_required-false_iff set.externals D set.formatted_now img b sr builder source r ready
          builder_is source_is success required in
      elim (build_required_decided set.externals set.formatted_now img (some b) sr builder source r
        ready builder_is source_is required) [
          | inr no_build ↦ absurd (stale (iff.0 no_build))
          | inl build_it ↦
              let switched : act_on S set r.condition_status img (some b) sr builder cache_name
                    number r h
                  ≡ schedule S set img (some b) source builder cache_name number r h =
                rw (build_it, source_is) refl in
              (
                _,
                up_to_switch cache_name h number r counted required
                    ∙ switched
                    ∙ bind-ok _ _ h (create_build (wanted number r) ∷ h) build (
                        wrap_by-ok _ _ h (create_build (wanted number r) ∷ h) build (
                          request-is (create_build (wanted number r))
                            (λ k. S.answer_build k (wanted number r)) h (ok build) answers)),
                refl,
                refl,
              )
        ]

  -- With a ready source and builder, and a numbered last build that was successful and is current:
  -- if the verdict is reached without error, nothing is asked for.
  pub reconcile_build_current :
      (cache_name : String) (h : History K) (number : ℤ) (r : BuildRequiredResult)
      → Documented set.externals
      → resolver_ready sr ≡ true
      → builder_ready builder ≡ true
      → resolver_source_config sr ≡ some source
      → is_success b ≡ true
      → IsCurrent set.externals img b sr builder source
      → build_counter (some b) ≡ ok number
      → build_required set.externals set.formatted_now img (some b) sr builder ≡ ok r
      → (reconcile_build S set img (some b) sr builder cache_name h).1 ≡ h
  unfolding act_on keep
  reconcile_build_current cache_name h number r D ready builder_is source_is success current counted
        required =
      let iff =
        build_required-false_iff set.externals D set.formatted_now img b sr builder source r ready
          builder_is source_is success required in
      let no_build : r.condition_status ≡ condition_false = iff.1 current in
      ap (λ x. x.1) (up_to_switch cache_name h number r counted required)
      ∙ ap (λ c. (act_on S set c img (some b) sr builder cache_name number r h).1) no_build
      ∙ lift-pure_silent _ _ h
