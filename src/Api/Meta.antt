-- ===== src/Api/Meta.antt =====
-- Kubernetes object metadata as far as kpack reads it, string maps, and the Kubernetes types that
-- kpack only carries along.
use kpack.Prelude.{
  ℕ, ◌≡◌, refl, String, Bool, List, [], ◌∷◌, Option, none, some, arith, if◌then◌else◌, ◌==◌, eq_iff,
}

-- A `map[string]string`. A nil map reads as the empty one; the code tells them apart nowhere else.
abbrev pub StringMap : Type 0
StringMap = List (String × String)

unfoldable pub get : String → StringMap → Option String
get k [] = none
get k ((j, v) ∷ m) = if j == k then some v else get k m

unfoldable pub put : String → String → StringMap → StringMap
put k v [] = (k, v) ∷ []
put k v ((j, w) ∷ m) = if j == k then (k, v) ∷ m else (j, w) ∷ put k v m

unfoldable pub delete : String → StringMap → StringMap
delete k [] = []
delete k ((j, w) ∷ m) = let rest = delete k m in if j == k then rest else (j, w) ∷ rest

pub get-put :
    (k j v : String) (m : StringMap) → get j (put k v m) ≡ (if k == j then some v else get j m)
unfolding get put
get-put k j v [] = refl
get-put k j v ((i, w) ∷ m) = ground (arith, eq_iff k j, eq_iff i k, eq_iff i j, get-put k j v m)

pub get-delete :
    (k j : String) (m : StringMap) → get j (delete k m) ≡ (if k == j then none else get j m)
unfolding get delete
get-delete k j [] = ground arith
get-delete k j ((i, w) ∷ m) = ground (arith, eq_iff k j, eq_iff i k, eq_iff i j, get-delete k j m)

-- `m[k]`, which is the empty text where the key is missing.
abbrev pub text_or_empty : Option String → String
text_or_empty none = ""
text_or_empty (some v) = v

-- A time is a number of seconds; the zero time is `none`. `controller` is the UID of the owner that
-- `kmeta.NewControllerRef` names.
pub record ObjectMeta : Type 0 where
  pub name : String
  pub namespace : String
  pub uid : String
  pub controller : Option String
  pub labels : StringMap
  pub annotations : StringMap
  pub generation : ℕ
  pub creation_timestamp : Option ℕ

pub record ObjectReference : Type 0 where
  pub kind : String
  pub name : String
  pub namespace : String

-- Types of the Kubernetes API that kpack copies from one resource to another and never looks into.
-- `Quantity` is `resource.Quantity`; `env_is_secret` tells whether `valueFrom.secretKeyRef` is set.
pub record Foreign : Type 1 where
  pub EnvVar : Type 0
  pub env_is_secret : EnvVar → Bool
  pub Resources : Type 0
  pub no_resources : Resources
  pub Toleration : Type 0
  pub Affinity : Type 0
  pub Quantity : Type 0
