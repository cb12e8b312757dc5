-- ===== src/ImageReconciler/Schedule/Counter.antt =====
-- reconcile_build.go: the build number that a pass leaves in the status of an image.
use kpack.Prelude.Decimal.{itoa, parse_int, parse_int-IsInt64}
use kpack.Prelude.Answers.{bind-inv, bind_pure-inv}
use kpack.Prelude.{
  ℤ, pos, increment, increment-IsInt64, IsInt64, String, Option, none, some, Result, ok, err, plain,
  not_found, invalid, network, panicked, permanent, ◌∷◌, ◌≡◌, refl, sym, ap, ◌∙◌, subst, ◌⊎◌, inl,
  inr, arith,
}
use kpack.Api.Meta.{Foreign, get, text_or_empty}
use kpack.Api.Condition.{
  ConditionStatus, condition_true, condition_false, condition_unknown, condition_other,
}
use kpack.Api.Source.{SourceConfig, SourceResolver, resolver_source_config}
use kpack.Api.Builder.{DuckBuilder}
use kpack.Api.Build.{Build, build_number_label, image_label, image_generation_label}
use kpack.Api.Image.{Image, ImageStatus}
use kpack.Api.Wanted.{Naming, image_build, build_labels}
use kpack.ImageReconciler.BuildRequired.{BuildRequiredResult}
use kpack.ImageReconciler.Server.{
  Server, History, create_build, throw, lift, request, wrap, wrap_by,
}
use kpack.ImageReconciler.Schedule.{
  Setting, build_counter, counter_of, reconcile_build, act_on, schedule, schedule_with, keep,
}
use kpack.ImageReconciler.Schedule.Number.{combine-first}

module _ {K : Foreign} where
  -- From the history `h` to `g`, either nothing was asked for and the number stays, or a build with
  -- the next number in its label was, and that number counts.
  abbrev pub IsCounted : ℤ → History K → ℤ → History K → Type 0
  IsCounted number h counter g =
      ((counter ≡ number) × (g ≡ h))
      ⊎ ((counter ≡ increment number)
          × (b : Build K) × (g ≡ create_build b ∷ h)
          × (get build_number_label b.meta.labels ≡ some (itoa (increment number))))

  build_counter-IsInt64 :
      (latest : Option (Build K)) (z : ℤ) → build_counter latest ≡ ok z → IsInt64 z
  unfolding build_counter
  build_counter-IsInt64 none z e = let equal : pos 0 ≡ z = cc in subst IsInt64 equal (omega arith)
  build_counter-IsInt64 (some b) z e =
      read (parse_int (text_or_empty (get build_number_label b.meta.labels))) refl e
    where
      read :
          (o : Option ℤ)
          → parse_int (text_or_empty (get build_number_label b.meta.labels)) ≡ o
          → counter_of o ≡ ok z
          → IsInt64 z
      read none found e = cc
      read (some n) found e =
          parse_int-IsInt64 (text_or_empty (get build_number_label b.meta.labels)) z cc

  IsCounted-IsInt64 :
      (number : ℤ) (h : History K) (counter : ℤ) (g : History K)
      → IsInt64 number
      → IsCounted number h counter g
      → IsInt64 counter
  IsCounted-IsInt64 number h counter g fits (inl kept) = subst IsInt64 (sym kept.0) fits
  IsCounted-IsInt64 number h counter g fits (inr counted) =
      subst IsInt64 (sym counted.0) (increment-IsInt64 number fits)

  wrapped_lift-inv :
      {A : Type 0} (text : String) (r : Result A) (a : A) (h g : History K)
      → wrap text (lift r) h ≡ (ok a, g)
      → (r ≡ ok a) × (g ≡ h)
  unfolding wrap lift
  wrapped_lift-inv text (ok b) a h g e = (ap (λ x. x.0) e, ap (λ x. x.1) (sym e))
  wrapped_lift-inv text (err (plain m)) a h g e = let bad : err _ ≡ ok a = ap (λ x. x.0) e in cc
  wrapped_lift-inv text (err (not_found m)) a h g e = let bad : err _ ≡ ok a = ap (λ x. x.0) e in cc
  wrapped_lift-inv text (err (invalid m)) a h g e = let bad : err _ ≡ ok a = ap (λ x. x.0) e in cc
  wrapped_lift-inv text (err (network m)) a h g e = let bad : err _ ≡ ok a = ap (λ x. x.0) e in cc
  wrapped_lift-inv text (err (panicked m)) a h g e = let bad : err _ ≡ ok a = ap (λ x. x.0) e in cc
  wrapped_lift-inv text (err (permanent x)) a h g e = let bad : err _ ≡ ok a = ap (λ x. x.0) e in cc

  number_label :
      (naming : Naming) (img : Image K) (source : SourceConfig) (builder : DuckBuilder)
      (latest : Option (Build K)) (reasons changes priority stamp : String) (n : ℤ)
      → get build_number_label
          (image_build naming img source builder latest reasons changes n priority
            stamp).meta.labels
        ≡ some (itoa n)
  unfolding image_build build_labels
  number_label naming img source builder latest reasons changes priority stamp n =
      combine-first img.meta.labels build_number_label (itoa n) image_label img.meta.name
        image_generation_label (itoa (pos img.meta.generation)) refl refl

  module _ (S : Server K) (set : Setting K) where
    keep-IsCounted :
        (img : Image K) (latest : Option (Build K)) (sr : SourceResolver) (builder : DuckBuilder)
        (cache : String) (n : ℤ) (r : BuildRequiredResult) (h g : History K) (status : ImageStatus)
        → keep S set img latest sr builder cache n r h ≡ (ok status, g)
        → IsCounted n h status.build_counter g
    unfolding keep lift
    keep-IsCounted img latest sr builder cache n r h g status e =
        let (conditions, first, last) = bind_pure-inv _ _ h g status e in
        inl (ap (λ s. s.build_counter) (sym last), ap (λ x. x.1) (sym first))

    schedule-IsCounted :
        (img : Image K) (latest : Option (Build K)) (source : SourceConfig) (builder : DuckBuilder)
        (cache : String) (n : ℤ) (r : BuildRequiredResult) (h g : History K) (status : ImageStatus)
        → schedule S set img latest source builder cache n r h ≡ (ok status, g)
        → IsCounted n h status.build_counter g
    unfolding schedule wrap_by request
    schedule-IsCounted img latest source builder cache n r h g status e =
        let (build, first, last) = bind_pure-inv _ _ h g status e in
        inr (
          ap (λ s. s.build_counter) (sym last),
          _,
          ap (λ x. x.1) (sym first),
          number_label set.naming img source builder latest r.reasons_str r.changes_str _ set.stamp
              (increment n),
        )

    act_on-IsCounted :
        (verdict : ConditionStatus) (img : Image K) (latest : Option (Build K))
        (sr : SourceResolver) (builder : DuckBuilder) (cache : String) (n : ℤ)
        (r : BuildRequiredResult) (h g : History K) (status : ImageStatus)
        → act_on S set verdict img latest sr builder cache n r h ≡ (ok status, g)
        → IsCounted n h status.build_counter g
    unfolding act_on schedule_with throw
    act_on-IsCounted condition_true img latest sr builder cache n r h g status e =
        with_source (resolver_source_config sr) e
      where
        with_source :
            (source : Option SourceConfig)
            → schedule_with S set img latest source builder cache n r h ≡ (ok status, g)
            → IsCounted n h status.build_counter g
        with_source none e = let bad : err _ ≡ ok status = ap (λ x. x.0) e in cc
        with_source (some source) e =
            schedule-IsCounted img latest source builder cache n r h g status e
    act_on-IsCounted condition_unknown img latest sr builder cache n r h g status e =
        keep-IsCounted img latest sr builder cache n r h g status e
    act_on-IsCounted condition_false img latest sr builder cache n r h g status e =
        keep-IsCounted img latest sr builder cache n r h g status e
    act_on-IsCounted (condition_other s) img latest sr builder cache n r h g status e =
        let bad : err _ ≡ ok status = ap (λ x. x.0) e in cc

    -- Whatever the number label of the last build says, and whatever the API server answers: a
    -- call of reconcileBuild that ends without error has read a number from that label, or 0 where
    -- there is no build. It either asks for nothing and keeps this number, or asks for one build,
    -- labelled with the successor (in an int64), and reports the successor. The number that the
    -- status then has is in the range of an int64.
    pub reconcile_build-IsCounted :
        (img : Image K) (latest : Option (Build K)) (sr : SourceResolver) (builder : DuckBuilder)
        (cache : String) (h g : History K) (status : ImageStatus)
        → reconcile_build S set img latest sr builder cache h ≡ (ok status, g)
        → (number : ℤ) × (build_counter latest ≡ ok number)
          × IsCounted number h status.build_counter g
          × IsInt64 status.build_counter
    unfolding reconcile_build
    reconcile_build-IsCounted img latest sr builder cache h g status e =
        let (number, k, first, rest) = bind-inv _ _ h g status e in
        let (read, same) = wrapped_lift-inv _ (build_counter latest) number h k first in
        let (r, l, second, last) = bind-inv _ _ k g status rest in
        let (verdict, equal) = wrapped_lift-inv _ _ r k l second in
        let counted =
          subst (λ x. IsCounted number x status.build_counter g) (equal ∙ same)
            (act_on-IsCounted r.condition_status img latest sr builder cache number r l g status
              last) in
        (
          number,
          read,
          counted,
          IsCounted-IsInt64 number h status.build_counter g
              (build_counter-IsInt64 latest number read) counted,
        )
