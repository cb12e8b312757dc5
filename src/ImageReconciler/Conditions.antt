-- ===== src/ImageReconciler/Conditions.antt =====
-- reconcile_build.go: the conditions of an image's status. `now` is the time of the call.
use kpack.Prelude.{
  ℕ, String, ◌&&◌, not, List, [], ◌∷◌, Option, none, some, if◌then◌else◌, ◌==◌, ◌<>◌, Result, ok,
  err, panicked,
}
use kpack.Api.Meta.{Foreign}
use kpack.Api.Condition.{
  Condition, ConditionStatus, condition_ready, condition_true, condition_false, condition_unknown,
  condition_at, is_true, is_condition_unknown,
}
use kpack.Api.Source.{SourceResolver, resolver_ready}
use kpack.Api.Builder.{DuckBuilder, builder_ready, up_to_date, condition_ready_message}
use kpack.Api.Build.{Build, succeeded}

abbrev pub condition_builder_ready : String
condition_builder_ready = "BuilderReady"

abbrev pub condition_builder_up_to_date : String
condition_builder_up_to_date = "BuilderUpToDate"

unfoldable pub unknown_status_if_nil : Option Condition → ConditionStatus
unknown_status_if_nil none = condition_unknown
unknown_status_if_nil (some c) = c.status

unfoldable pub default_message_if_nil : Option Condition → String → String
default_message_if_nil none d = d
default_message_if_nil (some c) d = c.message

unfoldable pub builder_error : DuckBuilder → String
unfolding condition_ready_message
builder_error b =
    let text =
      "Error: Builder '" <> b.meta.name <> "' is not ready in namespace '" <> b.meta.namespace
      <> "'" in
    let detail = condition_ready_message b in
    if detail == "" then text else text <> "; Message: " <> detail

unfoldable pub builder_ready_condition : ℕ → DuckBuilder → Condition
unfolding builder_ready builder_error
builder_ready_condition now b =
    if not (builder_ready b)
    then condition_at now condition_builder_ready condition_false "BuilderNotReady"
        (builder_error b)
    else condition_at now condition_builder_ready condition_true "BuilderReady" ""

unfoldable pub builder_up_to_date_condition : ℕ → DuckBuilder → Condition
unfolding up_to_date
builder_up_to_date_condition now b =
    if not (up_to_date b)
    then condition_at now condition_builder_up_to_date condition_false "BuilderNotUpToDate"
        "Builder is not up to date. The latest stack and buildpacks may not be in use."
    else condition_at now condition_builder_up_to_date condition_true "BuilderUpToDate" ""

unfoldable pub with_builder : ℕ → DuckBuilder → Result Condition → Result (List Condition)
with_builder now builder (err e) = err e
with_builder now builder (ok ready) =
    ok (ready ∷ builder_ready_condition now builder ∷ builder_up_to_date_condition now builder ∷ [])

module _ {K : Foreign} where
  unfoldable pub scheduled_build_condition : ℕ → Build K → DuckBuilder → List Condition
  unfolding builder_up_to_date_condition
  scheduled_build_condition now build builder =
      condition_at now condition_ready condition_unknown "BuildRunning"
        ("Build '" <> build.meta.name <> "' is executing")
      ∷ condition_at now condition_builder_ready condition_true "BuilderReady" ""
      ∷ builder_up_to_date_condition now builder
      ∷ []

  unfoldable pub build_running_condition : ℕ → Build K → DuckBuilder → List Condition
  unfolding builder_ready_condition builder_up_to_date_condition default_message_if_nil succeeded
  build_running_condition now build builder =
      condition_at now condition_ready condition_unknown "BuildRunning" (
        default_message_if_nil (succeeded build) ("Build '" <> build.meta.name <> "' is executing"))
      ∷ builder_ready_condition now builder
      ∷ builder_up_to_date_condition now builder
      ∷ []

  -- The condition that the last build gives. Without a build Go dereferences nil.
  unfoldable pub finished_condition : ℕ → Option (Build K) → Result Condition
  unfolding succeeded unknown_status_if_nil default_message_if_nil
  finished_condition now none = err (panicked "nil build")
  finished_condition now (some b) =
      if is_true (succeeded b)
      then ok (
          condition_at now condition_ready condition_true "UpToDate"
            (default_message_if_nil (succeeded b) "Last build succeeded"))
      else ok (
          condition_at now condition_ready (unknown_status_if_nil (succeeded b)) "BuildFailed" (
            "Error: Build '"
            <> b.meta.name
            <> "' in namespace '"
            <> b.meta.namespace
            <> "' failed: "
            <> default_message_if_nil (succeeded b) "unknown error"))

  -- The switch of `noScheduledBuild`.
  unfoldable pub ready_condition :
      ℕ → ConditionStatus → DuckBuilder → Option (Build K) → SourceResolver → Result Condition
  unfolding builder_ready builder_error resolver_ready finished_condition
  ready_condition now needed builder build sr =
      if not (builder_ready builder)
      then ok (
          condition_at now condition_ready condition_false "BuilderNotReady"
            (builder_error builder))
      else if is_condition_unknown needed && not (resolver_ready sr)
      then ok (
          condition_at now condition_ready condition_unknown "ResolverNotReady"
            ("Error: SourceResolver '" <> sr.meta.name <> "' is not ready"))
      else if is_condition_unknown needed && resolver_ready sr
      then ok (
          condition_at now condition_ready condition_unknown "UnknownState"
            "Error: Build status unknown")
      else finished_condition now build

  unfoldable pub no_scheduled_build :
      ℕ
      → ConditionStatus
      → DuckBuilder
      → Option (Build K)
      → SourceResolver
      → Result (List Condition)
  unfolding ready_condition with_builder builder_ready_condition builder_up_to_date_condition
  no_scheduled_build now needed builder build sr =
      with_builder now builder (ready_condition now needed builder build sr)
