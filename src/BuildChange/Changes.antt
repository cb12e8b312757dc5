-- ===== src/BuildChange/Changes.antt =====
-- The implementations of `Change`: trigger_change.go, commit_change.go, config_change.go,
-- buildpack_change.go, stack_change.go and lifecycle_change.go of pkg/buildchange.
use Prim.Native.String.{compare as compare_text}
use text.Mathlib.Text.{is_lt}
use kpack.Prelude.Sorting.{sort}
use kpack.Prelude.{
  ℕ, ◌≡◌, ◌↔◌, String, Bool, true, false, not, List, [], ◌∷◌, Option, none, some, ◌==◌, ◌<>◌, join,
  Result, ok, err, Error, message, plain,
}
use kpack.Api.Meta.{Foreign, ObjectReference}
use kpack.Api.Source.{SourceConfig, Git}
use kpack.Api.Build.{CnbBinding, priority_low, priority_high}

pub record BuildpackInfo : Type 0 where
  pub id : String
  pub version : String

pub record Config (K : Foreign) : Type 0 where
  pub env : List K.EnvVar
  pub resources : K.Resources
  pub services : List ObjectReference
  pub cnb_bindings : List CnbBinding
  pub source : SourceConfig

-- One constructor for each struct that implements the interface. A stack change carries the error
-- of its constructor; the `err` of a lifecycle change is never set.
pub data Change (K : Foreign) : Type 0 where
  trigger_change : String → Change K
  commit_change : String → String → Change K
  config_change : Config K → Config K → Change K
  buildpack_change : List BuildpackInfo → List BuildpackInfo → Change K
  stack_change : String → String → Option Error → Change K
  lifecycle_change : String → String → Change K

-- A value behind `interface{}`: what `Old` and `New` return.
pub data Payload (K : Foreign) : Type 0 where
  plain_text : String → Payload K
  config : Config K → Payload K
  infos : List BuildpackInfo → Payload K

pub record GenericChange (K : Foreign) : Type 0 where
  pub reason : String
  pub old : Payload K
  pub new : Payload K
  pub priority : ℕ

-- What the package calls of other projects: `cmp.Equal` on lists of infos, `Semantic.DeepEqual` on
-- configurations, `name.ParseReference(…).Identifier()`, and `json.Marshal` on the changes.
pub record Externals (K : Foreign) : Type 0 where
  pub cmp_equal : List BuildpackInfo → List BuildpackInfo → Bool
  pub deep_equal : Config K → Config K → Bool
  pub identifier : String → Result String
  pub marshal : List (GenericChange K) → Result String

-- `cmp.Equal` decides equality of plain data, `DeepEqual` is reflexive, and JSON is never empty.
pub record Documented {K : Foreign} (E : Externals K) : Type 0 where
  pub cmp_equal_iff : (a b : List BuildpackInfo) → (E.cmp_equal a b ≡ true) ↔ (a ≡ b)
  pub deep_equal_refl : (c : Config K) → E.deep_equal c c ≡ true
  pub marshal_nonempty :
      (cs : List (GenericChange K)) (s : String) → E.marshal cs ≡ ok s → (s == "") ≡ false

abbrev pub less_info : BuildpackInfo → BuildpackInfo → Bool
less_info a b = is_lt (compare_text a.id b.id)

unfoldable pub blank_git : Option Git → Option Git
blank_git none = none
blank_git (some g) = some (record g { revision = "" })

-- A configuration with its Git revision taken out.
unfoldable pub blank_revision : {K : Foreign} → Config K → Config K
unfolding blank_git
blank_revision c = record c { source = record (c.source) { git = blank_git c.source.git } }

abbrev result_of : Bool → Option Error → Result Bool
result_of b none = ok b
result_of b (some e) = err e

module _ {K : Foreign} where
  unfoldable pub new_trigger_change : String → Change K
  new_trigger_change date = trigger_change ("A new build was manually triggered on " <> date)

  unfoldable pub reason : Change K → String
  reason (trigger_change m) = "TRIGGER"
  reason (commit_change o n) = "COMMIT"
  reason (config_change o n) = "CONFIG"
  reason (buildpack_change o n) = "BUILDPACK"
  reason (stack_change o n e) = "STACK"
  reason (lifecycle_change o n) = "LIFECYCLE"

  unfoldable pub priority : Change K → ℕ
  priority (trigger_change m) = priority_high
  priority (commit_change o n) = priority_high
  priority (config_change o n) = priority_high
  priority (buildpack_change o n) = priority_low
  priority (stack_change o n e) = priority_low
  priority (lifecycle_change o n) = priority_low

  -- The sorts of `IsBuildRequired` are in place, but `Old` and `New` are read after it.
  unfoldable pub old : Change K → Payload K
  old (trigger_change m) = plain_text ""
  old (commit_change o n) = plain_text o
  old (config_change o n) = config o
  old (buildpack_change o n) = infos (sort less_info o)
  old (stack_change o n e) = plain_text o
  old (lifecycle_change o n) = plain_text o

  unfoldable pub new : Change K → Payload K
  new (trigger_change m) = plain_text m
  new (commit_change o n) = plain_text n
  new (config_change o n) = config n
  new (buildpack_change o n) = infos (sort less_info n)
  new (stack_change o n e) = plain_text n
  new (lifecycle_change o n) = plain_text n

  unfoldable pub new_generic_change : Change K → GenericChange K
  unfolding reason old new priority
  new_generic_change c = record {
    reason = reason c;
    old = old c;
    new = new c;
    priority = priority c;
  }

module _ {K : Foreign} (E : Externals K) where
  identifier_or_empty : Result String → String
  identifier_or_empty (ok s) = s
  identifier_or_empty (err e) = ""

  stack_error : Result String → Result String → Option Error
  unfolding join
  stack_error (ok o) (ok n) = none
  stack_error (err e) (ok n) = some (plain (message e))
  stack_error (ok o) (err e) = some (plain (message e))
  stack_error (err d) (err e) = some (plain (join "; " (message d ∷ message e ∷ [])))

  -- A reference that does not parse leaves its digest empty and an error for later.
  unfoldable pub new_stack_change : String → String → Change K
  unfolding identifier_or_empty stack_error
  new_stack_change old_ref new_ref =
      stack_change (identifier_or_empty (E.identifier old_ref))
        (identifier_or_empty (E.identifier new_ref))
        (stack_error (E.identifier old_ref) (E.identifier new_ref))

  unfoldable pub is_build_required : Change K → Result Bool
  unfolding blank_revision
  is_build_required (trigger_change m) = ok (not (m == ""))
  is_build_required (commit_change o n) = ok (not (o == n))
  is_build_required (config_change o n) =
      ok (not (E.deep_equal (blank_revision o) (blank_revision n)))
  is_build_required (buildpack_change o n) =
      ok (not (E.cmp_equal (sort less_info o) (sort less_info n)))
  is_build_required (stack_change o n e) = result_of (not (o == n)) e
  is_build_required (lifecycle_change o n) = ok (not (o == n))
