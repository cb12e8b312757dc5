-- ===== src/ImageReconciler/BuildList.antt =====
-- build_list.go, and the order of pkg/reconciler/build/sort.go: the builds of an image by age.
pub mod Oldest
use kpack.Prelude.Sorting.{sort}
use kpack.Prelude.{
  ℕ, Bool, true, false, List, [], ◌∷◌, Option, none, some, if◌then◌else◌, leb, length, select,
  head?, last?, not, ◌&&◌,
}
use kpack.Api.Meta.{Foreign}
use kpack.Api.Build.{Build, is_success, is_failure}

-- `Less` on two creation timestamps: the zero time comes last, and equal times answer true.
unfoldable pub less_time : Option ℕ → Option ℕ → Bool
less_time none none = true
less_time none (some b) = false
less_time (some a) none = true
less_time (some a) (some b) = leb a b

module _ {K : Foreign} where
  unfoldable pub by_creation_timestamp : Build K → Build K → Bool
  unfolding less_time
  by_creation_timestamp a b = less_time a.meta.creation_timestamp b.meta.creation_timestamp

  -- A build that ended with neither a true nor a false condition is in neither list.
  unfoldable pub failed_only : Build K → Bool
  failed_only b = not (is_success b) && is_failure b

pub record BuildList (K : Foreign) : Type 0 where
  pub successful_builds : List (Build K)
  pub failed_builds : List (Build K)
  pub last_build : Option (Build K)

module _ {K : Foreign} where
  unfoldable pub new_build_list : List (Build K) → BuildList K
  unfolding failed_only by_creation_timestamp select last?
  new_build_list builds =
      let sorted = sort by_creation_timestamp builds in
      record {
        successful_builds = select is_success sorted;
        failed_builds = select failed_only sorted;
        last_build = last? sorted;
      }

  unfoldable pub number_failed_builds : BuildList K → ℕ
  number_failed_builds l = length l.failed_builds

  unfoldable pub number_successful_builds : BuildList K → ℕ
  number_successful_builds l = length l.successful_builds

  -- `l.failedBuilds[0]`, which panics on an empty list.
  unfoldable pub oldest_failure : BuildList K → Option (Build K)
  oldest_failure l = head? l.failed_builds

  unfoldable pub oldest_success : BuildList K → Option (Build K)
  oldest_success l = head? l.successful_builds
