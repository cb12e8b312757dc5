-- ===== src/Cnb/Support/Supported.antt =====
-- buildpack_validation.go and `validateBuilder`: what it means that a builder is valid.
use kpack.Prelude.{
  ◌≡◌, ◌≢◌, ◌⊎◌, refl, String, Bool, true, false, ◌||◌, ◌&&◌, not, List, [], ◌∷◌, ◌<>◌, starts_with,
  Bool-cases, inl, inr, if◌then◌else◌, ok, err, plain, not_found, invalid, network, panicked,
  permanent, bind-ok_inv, ◌==◌, Option-cases, In, All, any-In, eq_iff, and_left, and_right, some,
  subst, sym,
}
use kpack.Cnb.Resources.{OrderEntry, BuildpackStack}
use kpack.Cnb.Resolver.{Semver}
use kpack.Cnb.Fetcher.{DescriptiveBuildpackInfo, BuildpackLayerInfo}
use kpack.Cnb.Support.{
  Check, present, stage_removed, mixin_present, missing_mixins, no_missing,
  validate_required_mixins, is_anystack, supports_stack, supports_stacks, unless_meta,
  unsupported_api, supports, relaxed_mixin_contract, validate_buildpacks, wrap, info_string,
}

-- A mixin is for one stage if it has the prefix of a stage.
abbrev pub is_staged : String → Bool
is_staged m = starts_with m "build:" || starts_with m "run:"

-- What makes a mixin provided, by the contract in force: the scenarios of `mixinPresent`.
pub data IsProvided (mixins : List String) (m : String) : Bool → Type 0 where
  exactly : {relaxed : Bool} → In m mixins → IsProvided mixins m relaxed
  for_every_stage :
      (rest : String)
      → is_staged m ≡ true
      → stage_removed m ≡ ok rest
      → In rest mixins
      → IsProvided mixins m true
  stage_by_stage :
      is_staged m ≡ false
      → In ("build:" <> m) mixins
      → In ("run:" <> m) mixins
      → IsProvided mixins m true

pub present-In : (xs : List String) (x : String) → present xs x ≡ true → In x xs
unfolding present
present-In xs x e =
    let (y, i, t) = any-In (λ s. s == x) xs e in subst (λ z. In z xs) ((eq_iff y x).0 t) i

found : {a b : Bool} → ok a ≡ ok b → a ≡ b
found e = cc

mixin_present-IsProvided :
    (mixins : List String) (m : String) (relaxed : Bool)
    → mixin_present mixins m relaxed ≡ ok true
    → IsProvided mixins m relaxed
unfolding mixin_present
mixin_present-IsProvided mixins m false e = exactly (present-In mixins m (found e))
mixin_present-IsProvided mixins m true e = elim (Bool-cases (present mixins m)) [
  | inl here ↦ exactly (present-In mixins m here)
  | inr gone ↦ elim (Bool-cases (starts_with m "build:" || starts_with m "run:")) [
    | inl staged ↦
        let (rest, removed, last) =
          bind-ok_inv (stage_removed m) _ true (rw (staged, gone, mixin_present) at e) in
        for_every_stage rest staged removed (present-In mixins rest (found last))
    | inr unstaged ↦
        let both : (present mixins ("build:" <> m) && present mixins ("run:" <> m)) ≡ true =
          found (rw (unstaged, gone, mixin_present) at e) in
        stage_by_stage unstaged (present-In mixins ("build:" <> m) (and_left _ _ both))
          (present-In mixins ("run:" <> m) (and_right _ _ both))
  ]
]

missing_mixins-All :
    (provided required : List String) (relaxed : Bool)
    → missing_mixins provided required relaxed ≡ ok []
    → All (λ m. IsProvided provided m relaxed) required
unfolding missing_mixins
missing_mixins-All provided [] relaxed e = tt
missing_mixins-All provided (m ∷ ms) relaxed e =
    let (here, present_here, rest) = bind-ok_inv (mixin_present provided m relaxed) _ [] e in
    let (missing, below, last) = bind-ok_inv (missing_mixins provided ms relaxed) _ [] rest in
    elim (Bool-cases here) [
      | inl h ↦
          let none_left : missing ≡ [] = let r = rw h at last in cc in
          (
            mixin_present-IsProvided provided m relaxed (rw h at present_here),
            missing_mixins-All provided ms relaxed (rw none_left at below),
          )
      | inr h ↦ let bad = rw h at last in cc
    ]

validate_required_mixins-All :
    (provided required : List String) (relaxed : Bool)
    → validate_required_mixins provided required relaxed ≡ ok tt
    → All (λ m. IsProvided provided m relaxed) required
unfolding validate_required_mixins
validate_required_mixins-All provided required relaxed e =
    let (missing, done, last) = bind-ok_inv (missing_mixins provided required relaxed) _ tt e in
    missing_mixins-All provided required relaxed (none_missing missing done last)
  where
    none_missing :
        (missing : List String)
        → missing_mixins provided required relaxed ≡ ok missing
        → no_missing missing ≡ ok tt
        → missing_mixins provided required relaxed ≡ ok []
    none_missing [] done last = done
    none_missing (x ∷ xs) done last = cc

wrapped : (text : String) (c : Check) → wrap text c ≡ ok tt → c ≡ ok tt
wrapped text (ok x) e = refl
wrapped text (err (plain m)) e = cc
wrapped text (err (not_found m)) e = cc
wrapped text (err (invalid m)) e = cc
wrapped text (err (network m)) e = cc
wrapped text (err (panicked m)) e = cc
wrapped text (err (permanent x)) e = cc

module _ (S : Semver) (any_stack_minimum : S.Version) where
  -- A stack fits the builder's if it is the same, or any under a buildpack API that is not below the
  -- minimum of such a stack.
  abbrev pub MatchesStack : String → String → String → Type 0
  MatchesStack api id stack_id =
      (stack_id ≡ id)
      ⊎ ((stack_id ≡ "*")
          × (v : S.Version) × (S.new_version api ≡ some v)
          × (S.at_least v any_stack_minimum ≡ true))

  -- A stack of the buildpack fits, and the builder provides its mixins.
  pub record FitsStack (api id : String) (mixins : List String) (relaxed : Bool)
      (ss : List BuildpackStack) : Type 0 where
    pub stack : BuildpackStack
    pub member : In stack ss
    pub matches : MatchesStack api id stack.id
    pub provided : All (λ m. IsProvided mixins m relaxed) stack.mixins

  -- A buildpack that a builder may have: a meta-buildpack, or one whose API the lifecycle knows and
  -- that names no stack or a stack that fits.
  abbrev pub IsSupported : BuildpackLayerInfo → List String → String → List String → Bool → Type 0
  IsSupported info apis id mixins relaxed =
      (info.order ≢ [])
      ⊎ (In info.api apis × ((info.stacks ≡ []) ⊎ FitsStack info.api id mixins relaxed info.stacks))

  fits_by :
      (api s_id id : String) (v : S.Version)
      → S.new_version api ≡ some v
      → (s_id == id || is_anystack S any_stack_minimum s_id v) ≡ true
      → MatchesStack api id s_id
  unfolding is_anystack
  fits_by api s_id id v valid e = elim (Bool-cases (s_id == id)) [
    | inl t ↦ inl ((eq_iff s_id id).0 t)
    | inr f ↦
        let any_stack : (s_id == "*" && S.at_least v any_stack_minimum) ≡ true = rw f at e in
        inr ((eq_iff s_id "*").0 (and_left _ _ any_stack), v, valid, and_right _ _ any_stack)
  ]

  supports_stack-FitsStack :
      (api id : String) (mixins : List String) (relaxed : Bool) (ss : List BuildpackStack)
      → supports_stack S any_stack_minimum api id mixins relaxed ss ≡ ok tt
      → FitsStack api id mixins relaxed ss
  unfolding supports_stack
  supports_stack-FitsStack api id mixins relaxed [] e = cc
  supports_stack-FitsStack api id mixins relaxed (s ∷ ss) e =
      elim (Option-cases (S.new_version api)) [
        | inl malformed ↦ let bad = rw (malformed, supports_stack) at e in cc
        | inr (v, valid) ↦
            elim (Bool-cases (s.id == id || is_anystack S any_stack_minimum s.id v)) [
              | inl fits ↦ record {
                stack = s;
                member = inl refl;
                matches = fits_by api s.id id v valid fits;
                provided =
                    validate_required_mixins-All mixins s.mixins relaxed
                      (rw (valid, fits, supports_stack) at e);
              }
              | inr other ↦
                  let F =
                    supports_stack-FitsStack api id mixins relaxed ss
                      (rw (valid, other, supports_stack) at e) in
                  record {
                    stack = F.stack;
                    member = inr F.member;
                    matches = F.matches;
                    provided = F.provided;
                  }
            ]
      ]

  supports-IsSupported :
      (info : BuildpackLayerInfo) (apis : List String) (id : String) (mixins : List String)
      (relaxed : Bool)
      → supports S any_stack_minimum info apis id mixins relaxed ≡ ok tt
      → IsSupported info apis id mixins relaxed
  unfolding supports
  supports-IsSupported info apis id mixins relaxed e = of_order info.order refl e
    where
      of_stacks :
          (ss : List BuildpackStack)
          → supports_stacks S any_stack_minimum info.api id mixins relaxed ss ≡ ok tt
          → (ss ≡ []) ⊎ FitsStack info.api id mixins relaxed ss
      of_stacks [] t = inl refl
      of_stacks (s ∷ ss) t = inr (supports_stack-FitsStack info.api id mixins relaxed (s ∷ ss) t)

      of_order :
          (es : List OrderEntry)
          → info.order ≡ es
          → unless_meta es (
              if not (present apis info.api)
              then err (unsupported_api apis info.api)
              else supports_stacks S any_stack_minimum info.api id mixins relaxed info.stacks)
            ≡ ok tt
          → IsSupported info apis id mixins relaxed
      of_order (x ∷ xs) same t = inl (λ empty. let bad : x ∷ xs ≡ [] = cc in cc)
      of_order [] same t = elim (Bool-cases (present apis info.api)) [
        | inl known ↦ inr (present-In apis info.api known, of_stacks info.stacks (rw known at t))
        | inr unknown ↦ let bad = rw unknown at t in cc
      ]

  -- In a builder that validates, every buildpack is supported, under the contract that the platform
  -- APIs of the lifecycle decide.
  pub validate_buildpacks_sound :
      (minimum : S.Version) (platform_apis apis : List String) (id : String) (mixins : List String)
      (bs : List (DescriptiveBuildpackInfo × BuildpackLayerInfo))
      (b : DescriptiveBuildpackInfo × BuildpackLayerInfo)
      → validate_buildpacks S any_stack_minimum minimum platform_apis apis id mixins bs ≡ ok tt
      → In b bs
      → (relaxed : Bool) × (relaxed_mixin_contract S any_stack_minimum minimum platform_apis
          ≡ ok relaxed)
        × IsSupported b.1 apis id mixins relaxed
  unfolding validate_buildpacks
  validate_buildpacks_sound minimum platform_apis apis id mixins [] b e i = elim i [ ]
  validate_buildpacks_sound minimum platform_apis apis id mixins (x ∷ xs) b e i =
      let (relaxed, contract, rest) =
        bind-ok_inv (relaxed_mixin_contract S any_stack_minimum minimum platform_apis) _ tt e in
      let (done, supported, others) =
        bind-ok_inv
          (wrap ("validating buildpack " <> info_string x.0)
            (supports S any_stack_minimum x.1 apis id mixins relaxed))
          _ tt rest in
      elim i [
        | inl same ↦ (
          relaxed,
          contract,
          subst (λ y. IsSupported y.1 apis id mixins relaxed) (sym same)
              (supports-IsSupported x.1 apis id mixins relaxed (wrapped _ _ supported)),
        )
        | inr j ↦ validate_buildpacks_sound minimum platform_apis apis id mixins xs b others j
      ]
