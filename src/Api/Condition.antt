-- ===== src/Api/Condition.antt =====
-- pkg/apis/core/v1alpha1/condition_types.go and status.go: conditions and the status that holds
-- them.
use kpack.Prelude.{
  ℕ, String, Bool, true, false, List, [], ◌∷◌, Option, none, some, ◌==◌, Error, message, find,
}

-- `corev1.ConditionStatus` is a string type with three intended values.
pub data ConditionStatus : Type 0 where
  condition_true condition_false condition_unknown : ConditionStatus
  condition_other : String → ConditionStatus

pub record Condition : Type 0 where
  pub type : String
  pub status : ConditionStatus
  pub severity : String
  pub last_transition_time : ℕ
  pub reason : String
  pub message : String

abbrev pub condition_ready : String
condition_ready = "Ready"

abbrev pub condition_succeeded : String
condition_succeeded = "Succeeded"

abbrev pub is_condition_true : ConditionStatus → Bool
is_condition_true condition_true = true
is_condition_true _ = false

abbrev pub is_condition_false : ConditionStatus → Bool
is_condition_false condition_false = true
is_condition_false _ = false

abbrev pub is_condition_unknown : ConditionStatus → Bool
is_condition_unknown condition_unknown = true
is_condition_unknown _ = false

-- A nil condition is neither true nor false, and counts as unknown.
abbrev pub is_true : Option Condition → Bool
is_true none = false
is_true (some c) = is_condition_true c.status

abbrev pub is_false : Option Condition → Bool
is_false none = false
is_false (some c) = is_condition_false c.status

abbrev pub is_unknown : Option Condition → Bool
is_unknown none = true
is_unknown (some c) = is_condition_unknown c.status

pub record Status : Type 0 where
  pub observed_generation : ℕ
  pub conditions : List Condition

unfoldable pub get_condition : List Condition → String → Option Condition
unfolding find
get_condition cs t = find (λ c. c.type == t) cs

-- A condition of the given type, status, reason and message, stamped with the time of the call.
abbrev pub condition_at : ℕ → String → ConditionStatus → String → String → Condition
condition_at now t s r m = record {
  type = t;
  status = s;
  severity = "";
  last_transition_time = now;
  reason = r;
  message = m;
}

unfoldable pub create_status_with_ready_condition : ℕ → ℕ → Option Error → Status
create_status_with_ready_condition now generation none = record {
  observed_generation = generation;
  conditions = condition_at now condition_ready condition_true "" "" ∷ [];
}
create_status_with_ready_condition now generation (some e) = record {
  observed_generation = generation;
  conditions = condition_at now condition_ready condition_false "" (message e) ∷ [];
}
