-- ===== src/BuildChange/Summary.antt =====
-- What the change processor reports: the changes that require a build, in the order of the calls,
-- their reasons, the greatest of their priorities, and every error on the way.
use kpack.Prelude.{
  ℕ, ◌≤◌, ◌≡◌, refl, ◌∙◌, ◌⊎◌, inl, inr, ◌≢◌, String, Bool, true, false, List, [], ◌∷◌, ◌++◌, map,
  Option, none, some, if◌then◌else◌, ◌==◌, ◌<>◌, eq_iff, join, join-ne_empty, ltb, Result, ok, err,
  message, arith, In, All, Bool-cases,
}
use mathlib.Core.List.{append-nil, append_assoc}
use kpack.Api.Meta.{Foreign}
use kpack.BuildChange.Changes.{
  Change, trigger_change, commit_change, config_change, buildpack_change, stack_change,
  lifecycle_change, GenericChange, Externals, Documented, is_build_required, reason,
  new_generic_change,
}
use kpack.BuildChange.Processor.{
  ChangeProcessor, ChangeSummary, new_change_processor, process, process_all, summarize,
  has_changes, reasons_of, priority_of, changes_str, max_priority, record_result, joined_error,
}

module _ {K : Foreign} where
  -- What one change adds to the list of changes, given what its test says.
  unfoldable pub kept : Change K → Result Bool → List (GenericChange K)
  kept c (ok true) = new_generic_change c ∷ []
  kept c (ok false) = []
  kept c (err e) = []

  -- What it adds to the list of error texts.
  unfoldable pub complaint : Change K → Result Bool → List String
  complaint c (ok b) = []
  complaint c (err e) =
      ("error determining if build is required for reason '" <> reason c <> "': " <> message e) ∷ []

module _ {K : Foreign} (E : Externals K) where
  -- The changes whose test says that a build is required, in the order of the calls.
  unfoldable pub required : List (Option (Change K)) → List (GenericChange K)
  required [] = []
  required (none ∷ cs) = required cs
  required (some c ∷ cs) = kept c (is_build_required E c) ++ required cs

  -- The texts of the tests that failed.
  unfoldable pub failures : List (Option (Change K)) → List String
  failures [] = []
  failures (none ∷ cs) = failures cs
  failures (some c ∷ cs) = complaint c (is_build_required E c) ++ failures cs

  process_some :
      (p : ChangeProcessor K) (c : Change K) (r : Result Bool)
      → record_result E p c r
        ≡ record { changes = p.changes ++ kept c r; err_strs = p.err_strs ++ complaint c r }
  unfolding record_result kept complaint
  process_some p c (ok true) = simp append-nil
  process_some p c (ok false) = simp append-nil
  process_some p c (err e) = simp append-nil

  pub process_all-eq :
      (p : ChangeProcessor K) (cs : List (Option (Change K)))
      → process_all E p cs
        ≡ record { changes = p.changes ++ required cs; err_strs = p.err_strs ++ failures cs }
  unfolding process_all process required failures
  process_all-eq p [] = simp append-nil
  process_all-eq p (none ∷ cs) = process_all-eq p cs
  process_all-eq p (some c ∷ cs) =
      process_all-eq (record_result E p c (is_build_required E c)) cs
      ∙ rw (process_some p c (is_build_required E c)) (simp append_assoc)

-- Every reason is a non-empty text, so the joined reasons are empty only where nothing changed.
generic_reason : {K : Foreign} (c : Change K) → (new_generic_change c).reason ≢ ""
unfolding new_generic_change reason
generic_reason (trigger_change m) e = ground (arith, eq_iff "TRIGGER" "", e)
generic_reason (commit_change o n) e = ground (arith, eq_iff "COMMIT" "", e)
generic_reason (config_change o n) e = ground (arith, eq_iff "CONFIG" "", e)
generic_reason (buildpack_change o n) e = ground (arith, eq_iff "BUILDPACK" "", e)
generic_reason (stack_change o n x) e = ground (arith, eq_iff "STACK" "", e)
generic_reason (lifecycle_change o n) e = ground (arith, eq_iff "LIFECYCLE" "", e)

kept-reasons : {K : Foreign} (c : Change K) (r : Result Bool) → All (λ g. g.reason ≢ "") (kept c r)
unfolding kept
kept-reasons c (ok true) = (generic_reason c, tt)
kept-reasons c (ok false) = tt
kept-reasons c (err e) = tt

All-append : {A : Type 0} (P : A → Type 0) (xs ys : List A) → All P xs → All P ys → All P (xs ++ ys)
All-append P [] ys hx hy = hy
All-append P (x ∷ xs) ys hx hy = (hx.0, All-append P xs ys hx.1 hy)

reasons_of-ne_empty :
    {K : Foreign} (g : GenericChange K) (gs : List (GenericChange K))
    → g.reason ≢ ""
    → (reasons_of (g ∷ gs) == "") ≡ false
unfolding reasons_of
reasons_of-ne_empty g gs h = elim (Bool-cases (join "," (map (λ c. c.reason) (g ∷ gs)) == "")) [
  | inl e ↦ absurd (join-ne_empty "," g.reason (map (λ c. c.reason) gs) h ((eq_iff _ "").0 e))
  | inr e ↦ e
]

-- The running maximum of the priorities is at least each, and is the start or one of them.
max_priority-bound :
    {K : Foreign} (p : ℕ) (cs : List (GenericChange K))
    → (p ≤ max_priority p cs) × All (λ c. c.priority ≤ max_priority p cs) cs
unfolding max_priority
max_priority-bound p [] = (omega arith, tt)
max_priority-bound p (c ∷ cs) =
    let (h, all) = max_priority-bound (if ltb p c.priority then c.priority else p) cs in
    (ground (arith, h), (ground (arith, h), all))

max_priority-attained :
    {K : Foreign} (p : ℕ) (cs : List (GenericChange K))
    → (max_priority p cs ≡ p) ⊎ ((c : GenericChange K) × In c cs × (max_priority p cs ≡ c.priority))
unfolding max_priority
max_priority-attained p [] = inl refl
max_priority-attained p (c ∷ cs) =
    elim (max_priority-attained (if ltb p c.priority then c.priority else p) cs) [
      | inr (d, i, e) ↦ inr (d, inr i, e)
      | inl e ↦ elim (Bool-cases (ltb p c.priority)) [
        | inl t ↦ inr (c, inl refl, e ∙ rw t)
        | inr t ↦ inl (e ∙ rw t)
      ]
    ]

-- The priority of a summary is at least that of each change, and is the priority of one of them,
-- or none where there is no change.
pub priority_of-greatest :
    {K : Foreign} (cs : List (GenericChange K))
    → All (λ c. c.priority ≤ priority_of cs) cs
      × ((priority_of cs ≡ 0) ⊎ ((c : GenericChange K) × In c cs × (priority_of cs ≡ c.priority)))
unfolding priority_of
priority_of-greatest cs = ((max_priority-bound 0 cs).1, max_priority-attained 0 cs)

joined_error-none : (fs gs : List String) → joined_error (fs ++ gs) ≡ none → fs ≡ []
joined_error-none [] gs e = refl
joined_error-none (f ∷ fs) gs e = cc

module _ {K : Foreign} (E : Externals K) where
  required-reasons : (cs : List (Option (Change K))) → All (λ g. g.reason ≢ "") (required E cs)
  unfolding required
  required-reasons [] = tt
  required-reasons (none ∷ cs) = required-reasons cs
  required-reasons (some c ∷ cs) =
      All-append (λ g. g.reason ≢ "") (kept c (is_build_required E c)) (required E cs)
        (kept-reasons c (is_build_required E c)) (required-reasons cs)

  -- The summary of a list of changes with their reasons.
  abbrev pub summary_of : List (GenericChange K) → String → ChangeSummary
  summary_of gs s = record {
    has_changes = has_changes gs;
    reasons_str = reasons_of gs;
    changes_str = s;
    priority = priority_of gs;
  }

  summarize_valid :
      (D : Documented E) (gs : List (GenericChange K)) (s : String)
      → All (λ g. g.reason ≢ "") gs
      → changes_str E gs ≡ ok s
      → summarize E (record { changes = gs; err_strs = [] }) ≡ (summary_of gs s, none)
  unfolding summarize reasons_of changes_str
  summarize_valid D [] s all e = ground arith
  summarize_valid D (g ∷ gs) s all e =
      let reasons = reasons_of-ne_empty g gs all.0 in
      let marshalled = D.marshal_nonempty (g ∷ gs) s e in ground arith

  -- Where no test fails and the changes marshal, the summary has no error: it lists exactly the
  -- required changes, in order, with their reasons, their text and the greatest priority.
  pub summarize-process_all :
      (D : Documented E) (cs : List (Option (Change K))) (s : String)
      → failures E cs ≡ []
      → changes_str E (required E cs) ≡ ok s
      → summarize E (process_all E new_change_processor cs) ≡ (summary_of (required E cs) s, none)
  unfolding new_change_processor
  summarize-process_all D cs s f e =
      rw (process_all-eq E (record { changes = []; err_strs = [] }) cs, f)
        (summarize_valid D (required E cs) s (required-reasons cs) e)

  -- A test that fails is never lost: the summary then carries an error.
  pub summarize_reports_failures :
      (cs : List (Option (Change K)))
      → (summarize E (process_all E new_change_processor cs)).1 ≡ none
      → failures E cs ≡ []
  unfolding new_change_processor summarize
  summarize_reports_failures cs =
      rw (process_all-eq E (record { changes = []; err_strs = [] }) cs)
        (joined_error-none (failures E cs) _)
