-- ===== src/ImageReconciler/Reconcile/Deletes.antt =====
-- image.go: which builds the pruning of an image's history may delete.
use kpack.Prelude.{
  ℕ, suc, ◌<◌, ◌≡◌, ◌≢◌, refl, subst, String, true, List, Option, none, some, inl, inr, ◌⊎◌, Result,
  ok, err, arith, Bool-cases, pos, ltb, ltb→lt, In, Distinct,
}
use kpack.Api.Meta.{Foreign}
use kpack.Api.Build.{Build, is_success, is_failure, finished}
use kpack.Api.Image.{Image}
use kpack.ImageReconciler.BuildList.{
  new_build_list, number_failed_builds, number_successful_builds, oldest_failure, oldest_success,
  failed_only,
}
use kpack.ImageReconciler.BuildList.Oldest.{
  name_of, oldest_failure-member, oldest_success-member, oldest_failure-ne_last,
  oldest_success-ne_last,
}
use kpack.ImageReconciler.Server.{
  Server, Request, History, delete_build, M, ◌>>=◌, ◌>>◌, pure, throw, request, wrap,
}
use kpack.ImageReconciler.Reconcile.{
  fetch_all_builds, delete_over, delete_oldest, or_panic, delete_old_builds,
}
use kpack.Prelude.Answers.{bind-ok, wrap-ok}
use kpack.ImageReconciler.Reconcile.Safety.{fetch_all_builds-of}

module _ {K : Foreign} where
  -- A run stops with its first part or goes on with the second.
  then-history :
      {A : Type 0} (m : M (Request K) Unit) (k : M (Request K) A) (h : History K)
      → (((m >> k) h).1 ≡ (m h).1) ⊎ (((m >> k) h).1 ≡ (k (m h).1).1)
  unfolding ◌>>◌ ◌>>=◌
  then-history m k h = after (m h)
    where
      after :
          (r : Result Unit × History K)
          → ((((λ g. r) >> k) h).1 ≡ r.1) ⊎ ((((λ g. r) >> k) h).1 ≡ (k r.1).1)
      after (ok tt, g) = inr refl
      after (err x, g) = inl refl

module _ {K : Foreign} where
  abbrev pub NotLast : Option (Build K) → Build K → Type 0
  NotLast none b = Unit
  NotLast (some m) b = b.meta.name ≢ m.meta.name

  not_last :
      (last : Option (Build K)) (b : Build K)
      → ((m : Build K) → last ≡ some m → b.meta.name ≢ m.meta.name)
      → NotLast last b
  not_last none b h = tt
  not_last (some m) b h = h m refl

  -- A finished build of the list that is not its newest.
  abbrev pub Spent : List (Build K) → Build K → Type 0
  Spent builds b = In b builds × (finished b ≡ true) × NotLast (new_build_list builds).last_build b

module _ {K : Foreign} (S : Server K) where
  delete_oldest-history :
      (t : String) (o : Option (Build K)) (h : History K) (q : Request K)
      → In q (delete_oldest S t o h).1
      → In q h ⊎ ((b : Build K) × (o ≡ some b) × (q ≡ delete_build b.meta.name))
  unfolding delete_oldest or_panic ◌>>=◌ pure throw request wrap
  delete_oldest-history t none h q i = inl i
  delete_oldest-history t (some b) h q (inl e) = inr (b, refl, e)
  delete_oldest-history t (some b) h q (inr i) = inl i

  delete_over-history :
      (t : String) (l n : ℕ) (o : Option (Build K)) (h : History K) (q : Request K)
      → In q (delete_over S t (some (pos l)) n o h).1
      → In q h ⊎ ((l < n) × ((b : Build K) × (o ≡ some b) × (q ≡ delete_build b.meta.name)))
  unfolding delete_over pure
  delete_over-history t l n o h q = elim (Bool-cases (ltb l n)) [
    | inl e ↦ rw e (λ i. over e (delete_oldest-history t o h q i))
    | inr e ↦ rw e (λ i. inl i)
  ]
    where
      over :
          ltb l n ≡ true
          → In q h ⊎ ((b : Build K) × (o ≡ some b) × (q ≡ delete_build b.meta.name))
          → In q h ⊎ ((l < n) × ((b : Build K) × (o ≡ some b) × (q ≡ delete_build b.meta.name)))
      over e (inl i) = inl i
      over e (inr d) = inr (ltb→lt l n e, d)

  finished-success : (b : Build K) → is_success b ≡ true → finished b ≡ true
  unfolding is_success finished
  finished-success b t = ground arith

  finished-failure : (b : Build K) → failed_only b ≡ true → finished b ≡ true
  unfolding is_failure failed_only finished
  finished-failure b t = ground arith

  Spent-failure :
      (builds : List (Build K)) (b : Build K) (l : ℕ)
      → Distinct name_of builds
      → suc l < number_failed_builds (new_build_list builds)
      → oldest_failure (new_build_list builds) ≡ some b
      → Spent builds b
  Spent-failure builds b l d n o =
      let (i, t) = oldest_failure-member builds b o in
      (
        i,
        finished-failure b t,
        not_last _ b (λ m. oldest_failure-ne_last builds b m d (omega (arith, n)) o),
      )

  Spent-success :
      (builds : List (Build K)) (b : Build K) (l : ℕ)
      → Distinct name_of builds
      → suc l < number_successful_builds (new_build_list builds)
      → oldest_success (new_build_list builds) ≡ some b
      → Spent builds b
  Spent-success builds b l d n o =
      let (i, t) = oldest_success-member builds b o in
      (
        i,
        finished-success b t,
        not_last _ b (λ m. oldest_success-ne_last builds b m d (omega (arith, n)) o),
      )

  -- The two deletions of a pass, given the limits and the builds.
  abbrev prune : List (Build K) → ℕ → ℕ → M (Request K) Unit
  prune builds f s =
      delete_over S "failed deleting failed build" (some (pos (suc f)))
        (number_failed_builds (new_build_list builds)) (oldest_failure (new_build_list builds))
      >> delete_over S "failed deleting successful build" (some (pos (suc s)))
          (number_successful_builds (new_build_list builds))
          (oldest_success (new_build_list builds))

  delete_old_builds-prune :
      (img : Image K) (h : History K) (builds : List (Build K)) (f s : ℕ)
      → img.spec.failed_build_history_limit ≡ some (pos (suc f))
      → img.spec.success_build_history_limit ≡ some (pos (suc s))
      → S.list_builds h img.meta.namespace img.meta.name ≡ ok builds
      → delete_old_builds S img h ≡ prune builds f s h
  unfolding delete_old_builds
  delete_old_builds-prune img h builds f s fl sl l =
      let read : wrap "failed fetching all builds for image" (fetch_all_builds S img) h
          ≡ (ok (new_build_list builds), h) =
        wrap-ok _ _ h h _ (fetch_all_builds-of S img h builds l) in
      rw (fl, sl) (bind-ok _ _ h h (new_build_list builds) read)

  abbrev Spared : List (Build K) → History K → Request K → Type 0
  Spared builds h q = In q h ⊎ ((b : Build K) × Spent builds b × (q ≡ delete_build b.meta.name))

  failed-Spared :
      (builds : List (Build K)) (h : History K) (f : ℕ) (q : Request K)
      → Distinct name_of builds
      → In q
          (delete_over S "failed deleting failed build"
            (some (pos (suc f)))
            (number_failed_builds (new_build_list builds))
            (oldest_failure (new_build_list builds))
            h).1
      → Spared builds h q
  failed-Spared builds h f q d i = elim (delete_over-history _ _ _ _ h q i) [
    | inl j ↦ inl j
    | inr (n, (b, o, e)) ↦ inr (b, Spent-failure builds b f d n o, e)
  ]

  prune-Spared :
      (builds : List (Build K)) (h : History K) (f s : ℕ) (q : Request K)
      → Distinct name_of builds
      → In q (prune builds f s h).1
      → Spared builds h q
  prune-Spared builds h f s q d i = elim (then-history _ _ h) [
    | inl e ↦ failed-Spared builds h f q d (subst (λ g. In q g) e i)
    | inr e ↦ elim (delete_over-history _ _ _ _ _ q (subst (λ g. In q g) e i)) [
      | inl j ↦ failed-Spared builds h f q d j
      | inr (n, (b, o, r)) ↦ inr (b, Spent-success builds b s d n o, r)
    ]
  ]

  -- With both limits at least 1 and builds of different names, whatever the pruning asks for beyond
  -- the history is the deletion of a finished build of the image that is not its newest.
  pub delete_old_builds-spares :
      (img : Image K) (h : History K) (builds : List (Build K)) (f s : ℕ) (q : Request K)
      → img.spec.failed_build_history_limit ≡ some (pos (suc f))
      → img.spec.success_build_history_limit ≡ some (pos (suc s))
      → Distinct name_of builds
      → S.list_builds h img.meta.namespace img.meta.name ≡ ok builds
      → In q (delete_old_builds S img h).1
      → In q h ⊎ ((b : Build K) × Spent builds b × (q ≡ delete_build b.meta.name))
  delete_old_builds-spares img h builds f s q fl sl d l i =
      prune-Spared builds h f s q d
        (subst (λ r. In q r.1) (delete_old_builds-prune img h builds f s fl sl l) i)
