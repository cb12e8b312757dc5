-- ===== src/ImageReconciler/Reconcile/Safety.antt =====
-- image.go: what a pass of the image reconciler leaves alone.
use kpack.Prelude.{
  ◌≡◌, refl, ◌∙◌, String, Bool, true, false, List, [], ◌∷◌, Option, none, some, ok, err, Error,
  is_not_found, find, Bool-cases, inl, inr,
}
use kpack.Api.Condition.{
  Condition, ConditionStatus, condition_false, condition_unknown, get_condition, is_true,
}
use kpack.Api.Defaults.{set_defaults}
use kpack.Api.Meta.{Foreign}
use kpack.Api.Builder.{DuckBuilder, builder_ready, up_to_date}
use kpack.Api.Build.{Build, is_running}
use kpack.Api.Image.{Image, builder_not_found}
use kpack.ImageReconciler.BuildList.{new_build_list}
use kpack.ImageReconciler.Conditions.{
  build_running_condition, builder_ready_condition, builder_up_to_date_condition,
}
use kpack.ImageReconciler.Server.{
  Server, M, Request, History, track, update_image_status, pure, request, ask, optional, done,
}
use kpack.ImageReconciler.Schedule.{Setting}
use kpack.Prelude.Answers.{
  bind-ok, then-ok, wrap-ok, ask-is, optional-ok, optional-missing, ending, write-ending,
}
use kpack.ImageReconciler.Reconcile.{
  reconciler_key_for_builder_kind, with_conditions, reconcile_image, reconcile_last, with_found,
  running, fetch_last_build, fetch_all_builds, update_status, found_image, reconcile,
}

module _ {K : Foreign} (S : Server K) where
  pub fetch_all_builds-of :
      (img : Image K) (h : History K) (builds : List (Build K))
      → S.list_builds h img.meta.namespace img.meta.name ≡ ok builds
      → fetch_all_builds S img h ≡ (ok (new_build_list builds), h)
  unfolding fetch_all_builds pure
  fetch_all_builds-of img h builds l =
      bind-ok _ _ h h builds (wrap-ok _ _ h h builds (ask-is _ h (ok builds) l))

module _ {K : Foreign} (S : Server K) (set : Setting K) where
  abbrev pub tracked : Image K → Request K
  tracked img = track (reconciler_key_for_builder_kind img) img.meta.namespace img.meta.name

  tracks :
      (img : Image K) (h : History K)
      → request (tracked img) (λ g. ok tt) h ≡ (ok tt, tracked img ∷ h)
  unfolding request
  tracks img h = refl

  fetch_last_build-of :
      (img : Image K) (h : History K) (builds : List (Build K))
      → S.list_builds h img.meta.namespace img.meta.name ≡ ok builds
      → fetch_last_build S img h ≡ (ok (new_build_list builds).last_build, h)
  unfolding fetch_last_build pure
  fetch_last_build-of img h builds l =
      bind-ok _ _ h h (new_build_list builds) (fetch_all_builds-of S img h builds l)

  reconcile_last-of_running :
      (img : Image K) (builder : DuckBuilder) (b : Build K)
      → is_running b ≡ true
      → reconcile_last S set img builder (some b)
        ≡ pure (with_conditions img (build_running_condition set.now b builder))
  unfolding reconcile_last pure
  reconcile_last-of_running img builder b r = rw (reconcile_last, running, r) refl

  reconcile_image-running :
      (img : Image K) (h : History K) (builder : DuckBuilder) (builds : List (Build K))
      (b : Build K)
      → S.get_builder (tracked img ∷ h) img.meta.namespace img.spec.builder ≡ ok builder
      → S.list_builds (tracked img ∷ h) img.meta.namespace img.meta.name ≡ ok builds
      → (new_build_list builds).last_build ≡ some b
      → is_running b ≡ true
      → reconcile_image S set img h
        ≡ (ok (with_conditions img (build_running_condition set.now b builder)), tracked img ∷ h)
  unfolding reconcile_image with_found pure
  reconcile_image-running img h builder builds b g l last r =
      let now = tracked img ∷ h in
      let found = fetch_last_build-of img now builds l in
      let kept : reconcile_last S set img builder (new_build_list builds).last_build now
          ≡ (ok (with_conditions img (build_running_condition set.now b builder)), now) =
        rw (last, reconcile_last-of_running img builder b r) refl in
      then-ok _ _ h now (tracks img h)
      ∙ bind-ok _ _ now now (some builder)
          (optional-ok _ now now builder (ask-is _ now (ok builder) g))
      ∙ bind-ok _ _ now now (new_build_list builds).last_build found
      ∙ kept

  reconcile_image-no_builder :
      (img : Image K) (h : History K) (e : Error)
      → S.get_builder (tracked img ∷ h) img.meta.namespace img.spec.builder ≡ err e
      → is_not_found e ≡ true
      → reconcile_image S set img h
        ≡ (ok (with_conditions img (builder_not_found set.now img)), tracked img ∷ h)
  unfolding reconcile_image with_found pure
  reconcile_image-no_builder img h e g t =
      let now = tracked img ∷ h in
      then-ok _ _ h now (tracks img h)
      ∙ bind-ok _ _ now now none (optional-missing _ now now e (ask-is _ now (err e) g) t)

  abbrev observed : Image K → Image K
  observed img = record img {
    status = record (img.status) {
      status = record (img.status.status) { observed_generation = img.meta.generation };
    };
  }

  -- A pass ends with the writing of a status, unless the cache has it.
  update_status-ending :
      (img original : Image K) (h : History K)
      → S.get_image h img.meta.namespace img.meta.name ≡ ok original
      → update_status S set img h
        ≡ ending
            (S.status_equal original.status (observed img).status)
            (S.answer_other h (update_image_status (observed img)))
            none
            (update_image_status (observed img))
            h
  unfolding update_status pure request
  update_status-ending img original h found =
      bind-ok (ask (λ g. S.get_image g img.meta.namespace img.meta.name)) _ h h original
        (ask-is _ h (ok original) found)
      ∙ written (S.status_equal original.status (observed img).status)
    where
      write_of : Bool → M (Request K) Unit
      write_of true = pure tt
      write_of false =
          request (update_image_status (observed img))
            (λ g. done (S.answer_other g (update_image_status (observed img))))

      written :
          (cached : Bool)
          → write_of cached h
            ≡ ending cached
                (S.answer_other h (update_image_status (observed img)))
                none
                (update_image_status (observed img))
                h
      written true = refl
      written false =
          write-ending false (update_image_status (observed img))
            (λ g. S.answer_other g (update_image_status (observed img))) h

  -- What a pass makes of an image whose status alone it changes: the defaults are filled in, of the
  -- status nothing but the conditions changes, and it speaks of the present generation.
  pub record KeepsRest (size : Option K.Quantity) (img new : Image K) : Type 0 where
    pub rest : new ≡ record (set_defaults size img) { status = new.status }
    pub rest_of_status : new.status ≡ record (img.status) { status = new.status.status }
    pub generation : new.status.status.observed_generation ≡ img.meta.generation

  -- The cache holds an image throughout a pass.
  abbrev pub IsHeld : Image K → Type 0
  IsHeld img = (h : History K) → S.get_image h img.meta.namespace img.meta.name ≡ ok img

  -- A pass that gets by with one request, to track the builder, and new conditions.
  abbrev pub OnlyReports : Option K.Quantity → Image K → Image K → History K → Type 0
  OnlyReports size img new h =
      KeepsRest size img new
      × (reconcile S set size img.meta.namespace img.meta.name h
          ≡ ending (S.status_equal img.status new.status)
              (S.answer_other (tracked img ∷ h) (update_image_status new)) none
              (update_image_status new) (tracked img ∷ h))

  reconcile-OnlyReports :
      (size : Option K.Quantity) (img : Image K) (cs : List Condition) (h : History K)
      → IsHeld img
      → reconcile_image S set (set_defaults size img) h
        ≡ (ok (with_conditions (set_defaults size img) cs), tracked img ∷ h)
      → OnlyReports size img (observed (with_conditions (set_defaults size img) cs)) h
  unfolding reconcile found_image set_defaults
  reconcile-OnlyReports size img cs h held made = (
    record { rest = refl; rest_of_status = refl; generation = refl },
    bind-ok (optional (ask (λ g. S.get_image g img.meta.namespace img.meta.name))) _ h h (some img)
          (optional-ok _ h h img (ask-is _ h (ok img) (held h)))
        ∙ bind-ok (reconcile_image S set (set_defaults size img)) _ h (tracked img ∷ h)
            (with_conditions (set_defaults size img) cs) made
        ∙ update_status-ending (with_conditions (set_defaults size img) cs) img (tracked img ∷ h)
            (held (tracked img ∷ h)),
  )

  -- The conditions have one of a type, with this status and reason.
  abbrev pub Says : List Condition → String → ConditionStatus → String → Type 0
  Says cs type status reason =
      (c : Condition) × (get_condition cs type ≡ some c) × (c.status ≡ status) × (c.reason ≡ reason)

  running_conditions :
      (b : Build K) (builder : DuckBuilder)
      → Says (build_running_condition set.now b builder) "Ready" condition_unknown "BuildRunning"
        × (is_true (get_condition (build_running_condition set.now b builder) "BuilderReady")
            ≡ builder_ready builder)
        × (is_true (get_condition (build_running_condition set.now b builder) "BuilderUpToDate")
            ≡ up_to_date builder)
  unfolding build_running_condition get_condition builder_ready_condition
      builder_up_to_date_condition find
  running_conditions b builder = (
    (_, refl, refl, refl),
    elim (Bool-cases (builder_ready builder)) [ inl t ↦ rw t refl | inr f ↦ rw f refl ],
    elim (Bool-cases (builder_ready builder)) [
      | inl t ↦ elim (Bool-cases (up_to_date builder)) [
        | inl u ↦ rw (t, u) refl
        | inr u ↦ rw (t, u) refl
      ]
      | inr f ↦ elim (Bool-cases (up_to_date builder)) [
        | inl u ↦ rw (f, u) refl
        | inr u ↦ rw (f, u) refl
      ]
    ],
  )

  -- While the newest of the builds that the server lists for an image runs, where the cache holds
  -- the image throughout and its builder is found: a whole pass asks for nothing but to track the
  -- builder and, unless the cache has it already, to write the status, and answers with the error
  -- of that write. No build, claim or resolver is made, changed or deleted. Beside the defaults
  -- that are filled in, only the conditions and the observed generation change: Ready is Unknown
  -- with the reason BuildRunning, and BuilderReady and BuilderUpToDate say what the builder says.
  pub reconcile-running :
      (size : Option K.Quantity) (img : Image K) (h : History K) (builder : DuckBuilder)
      (builds : List (Build K)) (b : Build K)
      → IsHeld img
      → S.get_builder (tracked img ∷ h) img.meta.namespace img.spec.builder ≡ ok builder
      → S.list_builds (tracked img ∷ h) img.meta.namespace img.meta.name ≡ ok builds
      → (new_build_list builds).last_build ≡ some b
      → is_running b ≡ true
      → (new : Image K) × OnlyReports size img new h
        × Says new.status.status.conditions "Ready" condition_unknown "BuildRunning"
        × (is_true (get_condition new.status.status.conditions "BuilderReady")
            ≡ builder_ready builder)
        × (is_true (get_condition new.status.status.conditions "BuilderUpToDate")
            ≡ up_to_date builder)
  unfolding set_defaults reconciler_key_for_builder_kind
  reconcile-running size img h builder builds b held g l last r =
      let cs = build_running_condition set.now b builder in
      let (ready, builder_says, up_to_date_says) = running_conditions b builder in
      (
        observed (with_conditions (set_defaults size img) cs),
        reconcile-OnlyReports size img cs h held
            (reconcile_image-running (set_defaults size img) h builder builds b g l last r),
        ready,
        builder_says,
        up_to_date_says,
      )

  -- Where the server does not find the builder of an image that the cache holds throughout, a
  -- whole pass asks for nothing but to track the builder and, unless the cache has it already, to
  -- write the status, and answers with the error of that write. Beside the defaults that are
  -- filled in, only the conditions and the observed generation change: there is one condition, and
  -- it says that Ready is False with the reason BuilderNotFound.
  pub reconcile-no_builder :
      (size : Option K.Quantity) (img : Image K) (h : History K) (e : Error)
      → IsHeld img
      → S.get_builder (tracked img ∷ h) img.meta.namespace img.spec.builder ≡ err e
      → is_not_found e ≡ true
      → (new : Image K) × OnlyReports size img new h
        × (c : Condition) × (new.status.status.conditions ≡ c ∷ [])
        × (c.type ≡ "Ready")
        × (c.status ≡ condition_false)
        × (c.reason ≡ "BuilderNotFound")
  unfolding set_defaults reconciler_key_for_builder_kind builder_not_found
  reconcile-no_builder size img h e held g t = (
    observed (with_conditions (set_defaults size img) (builder_not_found set.now img)),
    reconcile-OnlyReports size img (builder_not_found set.now img) h held
        (reconcile_image-no_builder (set_defaults size img) h e g t),
    _,
    refl,
    refl,
    refl,
    refl,
  )
