-- ===== src/BuildChange/Processor.antt =====
-- change_processor.go and change_summary.go: collecting the changes and summing them up.
use kpack.Prelude.{
  ℕ, String, Bool, true, false, ◌&&◌, not, List, [], ◌∷◌, ◌++◌, map, Option, none, some,
  if◌then◌else◌, ◌==◌, ◌<>◌, join, ltb, Result, ok, err, Error, message, plain,
}
use kpack.Api.Meta.{Foreign}
use kpack.Api.Build.{priority_none}
use kpack.BuildChange.Changes.{
  Change, GenericChange, Externals, is_build_required, reason, new_generic_change,
}

pub record ChangeProcessor (K : Foreign) : Type 0 where
  pub changes : List (GenericChange K)
  pub err_strs : List String

pub record ChangeSummary : Type 0 where
  pub has_changes : Bool
  pub reasons_str : String
  pub changes_str : String
  pub priority : ℕ

unfoldable pub new_change_processor : {K : Foreign} → ChangeProcessor K
new_change_processor = record { changes = []; err_strs = [] }

unfoldable pub is_valid : ChangeSummary → Bool
is_valid c =
    if c.has_changes
    then not (c.reasons_str == "") && not (c.changes_str == "")
    else c.reasons_str == "" && c.changes_str == ""

-- The summary is returned beside the error.
unfoldable pub new_change_summary : Bool → String → String → ℕ → ChangeSummary × Option Error
unfolding is_valid
new_change_summary has reasons changes p =
    let cs : ChangeSummary = record {
      has_changes = has;
      reasons_str = reasons;
      changes_str = changes;
      priority = p;
    } in
    (cs, if is_valid cs then none else some (plain "invalid change summary"))

module _ {K : Foreign} where
  unfoldable pub has_changes : List (GenericChange K) → Bool
  has_changes [] = false
  has_changes (c ∷ cs) = true

  -- The reasons of the changes, comma-separated; the empty text where there are none.
  unfoldable pub reasons_of : List (GenericChange K) → String
  unfolding join
  reasons_of cs = join "," (map (λ c. c.reason) cs)

  unfoldable pub max_priority : ℕ → List (GenericChange K) → ℕ
  max_priority p [] = p
  max_priority p (c ∷ cs) = max_priority (if ltb p c.priority then c.priority else p) cs

  unfoldable pub priority_of : List (GenericChange K) → ℕ
  unfolding max_priority
  priority_of cs = max_priority priority_none cs

abbrev pub text_of : Result String → String
text_of (ok s) = s
text_of (err e) = ""

abbrev pub marshal_errors : Result String → List String
marshal_errors (ok s) = []
marshal_errors (err e) = ("error generating changes string: " <> message e) ∷ []

abbrev pub summary_errors : Option Error → List String
summary_errors none = []
summary_errors (some e) = ("error summarizing changes: " <> message e) ∷ []

abbrev pub joined_error : List String → Option Error
joined_error [] = none
joined_error (s ∷ ss) = some (plain (join "\n" (s ∷ ss)))

module _ {K : Foreign} (E : Externals K) where
  unfoldable pub record_result : ChangeProcessor K → Change K → Result Bool → ChangeProcessor K
  record_result p c (err e) = record p {
    err_strs =
        p.err_strs
        ++ ("error determining if build is required for reason '" <> reason c <> "': " <> message e)
          ∷ [];
  }
  record_result p c (ok true) = record p { changes = p.changes ++ new_generic_change c ∷ [] }
  record_result p c (ok false) = p

  unfoldable pub process : ChangeProcessor K → Option (Change K) → ChangeProcessor K
  unfolding record_result
  process p none = p
  process p (some c) = record_result p c (is_build_required E c)

  -- The chain of `Process` calls.
  unfoldable pub process_all : ChangeProcessor K → List (Option (Change K)) → ChangeProcessor K
  process_all p [] = p
  process_all p (c ∷ cs) = process_all (process p c) cs

  unfoldable pub changes_str : List (GenericChange K) → Result String
  changes_str [] = ok ""
  changes_str (c ∷ cs) = E.marshal (c ∷ cs)

  unfoldable pub summarize : ChangeProcessor K → ChangeSummary × Option Error
  unfolding new_change_summary has_changes reasons_of priority_of changes_str
  summarize p =
      let marshalled = changes_str p.changes in
      let (summary, invalid) =
        new_change_summary (has_changes p.changes) (reasons_of p.changes) (text_of marshalled)
          (priority_of p.changes) in
      (summary, joined_error (p.err_strs ++ (marshal_errors marshalled ++ summary_errors invalid)))
