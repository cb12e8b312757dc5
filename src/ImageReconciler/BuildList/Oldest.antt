-- ===== src/ImageReconciler/BuildList/Oldest.antt =====
-- What the build list knows: which build is the last, and which are the oldest of each kind.
use mathlib.Core.Option.{some-injective}
use kpack.Prelude.Sorting.{
  sort, sort-Distinct, IsLess, IsSorted, In-sort, In-sort_of, sort-IsSorted, last?-greatest,
  head-least, select-IsSorted,
}
use kpack.Prelude.{
  ℕ, ◌≤◌, ◌≡◌, ◌≢◌, Bool, true, false, List, [], ◌∷◌, Option, none, some, select, head?, last?-In,
  In-select, In-select_of, In, arith, String, subst, Distinct, head?-select-ne_last?,
}
use kpack.Api.Meta.{Foreign}
use kpack.Api.Build.{Build, is_success}
use kpack.ImageReconciler.BuildList.{
  less_time, by_creation_timestamp, new_build_list, failed_only, oldest_failure, oldest_success,
  number_failed_builds, number_successful_builds,
}

-- The order of the timestamps, the zero time being the latest.
abbrev pub NotAfter : Option ℕ → Option ℕ → Type 0
NotAfter a none = Unit
NotAfter none (some b) = ⊥
NotAfter (some a) (some b) = a ≤ b

less_le : (a b : Option ℕ) → less_time a b ≡ true → NotAfter a b
unfolding less_time
less_le a none h = tt
less_le none (some b) h = cc
less_le (some a) (some b) h = ground arith

not-less_le : (a b : Option ℕ) → less_time a b ≡ false → NotAfter b a
unfolding less_time
not-less_le none none h = tt
not-less_le none (some b) h = tt
not-less_le (some a) none h = cc
not-less_le (some a) (some b) h = ground arith

NotAfter-trans : (a b c : Option ℕ) → NotAfter a b → NotAfter b c → NotAfter a c
NotAfter-trans a b none h k = tt
NotAfter-trans none none (some c) h k = k
NotAfter-trans none (some b) (some c) h k = h
NotAfter-trans (some a) none (some c) h k = elim k [ ]
NotAfter-trans (some a) (some b) (some c) h k = omega arith

module _ {K : Foreign} where
  abbrev pub Older : Build K → Build K → Type 0
  Older a b = NotAfter a.meta.creation_timestamp b.meta.creation_timestamp

  timestamps : IsLess (by_creation_timestamp {K = K}) Older
  unfolding by_creation_timestamp
  timestamps = record {
    le_of_less = λ a b h. less_le a.meta.creation_timestamp b.meta.creation_timestamp h;
    le_of_not-less = λ a b h. not-less_le a.meta.creation_timestamp b.meta.creation_timestamp h;
    le_trans = λ a b c h k.
        NotAfter-trans a.meta.creation_timestamp b.meta.creation_timestamp c.meta.creation_timestamp
          h k;
  }

  -- The last build is one of the builds, and none of them was created after it.
  pub last_build-latest :
      (builds : List (Build K)) (m b : Build K)
      → (new_build_list builds).last_build ≡ some m
      → In b builds
      → In m builds × Older b m
  unfolding new_build_list
  last_build-latest builds m b e i = (
    In-sort by_creation_timestamp m builds (last?-In m _ e),
    last?-greatest by_creation_timestamp Older timestamps (sort by_creation_timestamp builds) m b
        (sort-IsSorted by_creation_timestamp Older timestamps builds) e
        (In-sort_of by_creation_timestamp b builds i),
  )

  head-In : (b : Build K) (xs : List (Build K)) → head? xs ≡ some b → In b xs
  head-In b [] e = cc
  head-In b (x ∷ xs) e = ground arith

  head?-least :
      (xs : List (Build K)) (o b : Build K)
      → IsSorted Older xs
      → head? xs ≡ some o
      → In b xs
      → Older o b
  head?-least [] o b s e i = elim i [ ]
  head?-least (x ∷ xs) o b s e i =
      subst (λ z. Older z b) (some-injective x o e)
        (head-least by_creation_timestamp Older timestamps x b xs s i)

  -- The first of the builds that pass a test, by age, is one of them, and none of them is older.
  oldest_least :
      (p : Build K → Bool) (builds : List (Build K)) (o : Build K)
      → head? (select p (sort by_creation_timestamp builds)) ≡ some o
      → In o builds × (p o ≡ true) × ((b : Build K) → In b builds → p b ≡ true → Older o b)
  oldest_least p builds o e =
      let sorted = sort by_creation_timestamp builds in
      let (i, t) = In-select p o sorted (head-In o _ e) in
      (
        In-sort by_creation_timestamp o builds i,
        t,
        λ b j q.
            head?-least (select p sorted) o b
              (select-IsSorted by_creation_timestamp Older timestamps p sorted
                (sort-IsSorted by_creation_timestamp Older timestamps builds))
              e (In-select_of p b sorted (In-sort_of by_creation_timestamp b builds j) q),
      )

  -- The oldest failure is a build of the list that failed, and no failed build of the list is older.
  pub oldest_failure-least :
      (builds : List (Build K)) (o b : Build K)
      → oldest_failure (new_build_list builds) ≡ some o
      → In b builds
      → failed_only b ≡ true
      → In o builds × (failed_only o ≡ true) × Older o b
  unfolding new_build_list oldest_failure
  oldest_failure-least builds o b e i t =
      let (at_o, is_o, least) = oldest_least failed_only builds o e in (at_o, is_o, least b i t)

  -- The oldest success is a build of the list that succeeded, and no successful build of the list is
  -- older.
  pub oldest_success-least :
      (builds : List (Build K)) (o b : Build K)
      → oldest_success (new_build_list builds) ≡ some o
      → In b builds
      → is_success b ≡ true
      → In o builds × (is_success o ≡ true) × Older o b
  unfolding new_build_list oldest_success
  oldest_success-least builds o b e i t =
      let (at_o, is_o, least) = oldest_least is_success builds o e in (at_o, is_o, least b i t)

  abbrev pub name_of : Build K → String
  name_of b = b.meta.name

  pub oldest_failure-member :
      (builds : List (Build K)) (o : Build K)
      → oldest_failure (new_build_list builds) ≡ some o
      → In o builds × (failed_only o ≡ true)
  unfolding new_build_list oldest_failure
  oldest_failure-member builds o e =
      let (at_o, is_o, least) = oldest_least failed_only builds o e in (at_o, is_o)

  -- With two failed builds or more, the oldest of them is not the last build, whatever the
  -- timestamps are.
  pub oldest_failure-ne_last :
      (builds : List (Build K)) (o m : Build K)
      → Distinct name_of builds
      → 2 ≤ number_failed_builds (new_build_list builds)
      → oldest_failure (new_build_list builds) ≡ some o
      → (new_build_list builds).last_build ≡ some m
      → o.meta.name ≢ m.meta.name
  unfolding new_build_list oldest_failure number_failed_builds
  oldest_failure-ne_last builds o m d two h l =
      head?-select-ne_last? name_of failed_only (sort by_creation_timestamp builds) o m
        (sort-Distinct by_creation_timestamp name_of builds d) two h l

  pub oldest_success-member :
      (builds : List (Build K)) (o : Build K)
      → oldest_success (new_build_list builds) ≡ some o
      → In o builds × (is_success o ≡ true)
  unfolding new_build_list oldest_success
  oldest_success-member builds o e =
      let (at_o, is_o, least) = oldest_least is_success builds o e in (at_o, is_o)

  -- With two successful builds or more, the oldest of them is not the last build, whatever the
  -- timestamps are.
  pub oldest_success-ne_last :
      (builds : List (Build K)) (o m : Build K)
      → Distinct name_of builds
      → 2 ≤ number_successful_builds (new_build_list builds)
      → oldest_success (new_build_list builds) ≡ some o
      → (new_build_list builds).last_build ≡ some m
      → o.meta.name ≢ m.meta.name
  unfolding new_build_list oldest_success number_successful_builds
  oldest_success-ne_last builds o m d two h l =
      head?-select-ne_last? name_of is_success (sort by_creation_timestamp builds) o m
        (sort-Distinct by_creation_timestamp name_of builds d) two h l
