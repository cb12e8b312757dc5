-- ===== src/Cnb/Readers/Stack/Mixins.antt =====
-- remote_stack_reader.go, `mixins`: the mixins that a stack provides.
use kpack.Prelude.{
  ◌≡◌, ◌⊎◌, refl, sym, ◌∙◌, String, true, false, ◌&&◌, not, List, [], ◌∷◌, ◌++◌, In, In-append_left,
  In-append_right, In-append_cases, In-select, In-select_of, select, inl, inr, Bool-cases,
  starts_with, ok, ok_injective, bind-ok_inv, subst,
}
use kpack.Cnb.Support.{present}
use kpack.Cnb.Support.Supported.{present-In}
use kpack.Cnb.Readers.Stack.{
  Classified, classify_mixins, missing_common_run_mixins, none_wrong, mixins_of,
}

none_wrong-empty : (text : String) (ms : List String) → none_wrong text ms ≡ ok tt → ms ≡ []
none_wrong-empty text [] e = refl
none_wrong-empty text (m ∷ ms) e = cc

-- The loop splits a list by two tests of its elements.
abbrev split : List String → String → String → Classified
unfolding select
split ms v i = record {
  valid = select (λ m. starts_with m v) ms;
  invalid = select (λ m. not (starts_with m v) && starts_with m i) ms;
  common = select (λ m. not (starts_with m v) && not (starts_with m i)) ms;
}

classify_mixins-split : (ms : List String) (v i : String) → classify_mixins ms v i ≡ split ms v i
unfolding classify_mixins select
classify_mixins-split [] v i = refl
classify_mixins-split (x ∷ xs) v i = elim (Bool-cases (starts_with x v)) [
  | inl t ↦ rw (t, classify_mixins-split xs v i) refl
  | inr f ↦ elim (Bool-cases (starts_with x i)) [
    | inl t ↦ rw (f, t, classify_mixins-split xs v i) refl
    | inr g ↦ rw (f, g, classify_mixins-split xs v i) refl
  ]
]

not_In : (m : String) (ms : List String) → ms ≡ [] → In m ms → ⊥
not_In m ms e i = subst (In m) e i

-- An element that is in none of what the other stage has is of the stage, or of both.
placed :
    (ms : List String) (v i m : String)
    → (split ms v i).invalid ≡ []
    → In m ms
    → ((starts_with m v ≡ true) × In m (split ms v i).valid)
      ⊎ ((starts_with m v ≡ false) × In m (split ms v i).common)
unfolding select
placed ms v i m none j = elim (Bool-cases (starts_with m v)) [
  | inl t ↦ inl (t, In-select_of (λ x. starts_with x v) m ms j t)
  | inr f ↦ elim (Bool-cases (starts_with m i)) [
    | inl t ↦ absurd (
        not_In m _ none
          (In-select_of (λ x. not (starts_with x v) && starts_with x i) m ms j (rw (f, t) refl)))
    | inr g ↦ inr (
      f,
      In-select_of (λ x. not (starts_with x v) && not (starts_with x i)) m ms j (rw (f, g) refl),
    )
  ]
]

-- What the three checks of `mixins` establish.
mixins_of-inv :
    (build run ms : List String)
    → mixins_of build run ≡ ok ms
    → ((split build "build:" "run:").invalid ≡ [])
      × ((split run "run:" "build:").invalid ≡ [])
      × (missing_common_run_mixins
            (split build "build:" "run:").common
            (split run "run:" "build:").common
          ≡ [])
      × ((split build "build:" "run:").common
            ++ ((split build "build:" "run:").valid ++ (split run "run:" "build:").valid)
          ≡ ms)
unfolding mixins_of
mixins_of-inv build run ms e =
    let split_e =
      rw (classify_mixins-split build "build:" "run:", classify_mixins-split run "run:" "build:") at
        e in
    let (u, first, rest) = bind-ok_inv _ _ ms split_e in
    let (u', second, rest') = bind-ok_inv _ _ ms rest in
    let (u'', third, last) = bind-ok_inv _ _ ms rest' in
    (
      none_wrong-empty _ _ first,
      none_wrong-empty _ _ second,
      none_wrong-empty _ _ third,
      ok_injective last,
    )

-- The mixins of a stack are those of its build image, and of its run image those of the run stage
-- alone. A mixin of the build image that is for no stage is one of the run image.
pub mixins_of_sound :
    (build run ms : List String)
    → mixins_of build run ≡ ok ms
    → ((m : String) → In m ms → In m build ⊎ (In m run × (starts_with m "run:" ≡ true)))
      × ((m : String) → In m build → In m ms)
      × ((m : String) → In m run → starts_with m "run:" ≡ true → In m ms)
      × ((m : String) → In m build → starts_with m "build:" ≡ false → In m run)
unfolding select missing_common_run_mixins
mixins_of_sound build run ms e =
    let (of_build, of_run, covered, joined) = mixins_of-inv build run ms e in
    let b = split build "build:" "run:" in
    let r = split run "run:" "build:" in
    (
      λ m i. elim (In-append_cases m b.common (b.valid ++ r.valid) (subst (In m) (sym joined) i)) [
        | inl j ↦ inl (In-select _ m build j).0
        | inr j ↦ elim (In-append_cases m b.valid r.valid j) [
          | inl k ↦ inl (In-select _ m build k).0
          | inr k ↦ inr (In-select _ m run k)
        ]
      ],
      λ m i. subst (In m) joined (elim (placed build "build:" "run:" m of_build i) [
        | inl (t, j) ↦ In-append_right m b.common _ (In-append_left m b.valid r.valid j)
        | inr (f, j) ↦ In-append_left m b.common _ j
      ]),
      λ m i t. subst (In m) joined (
          In-append_right m b.common _
            (In-append_right m b.valid r.valid (In-select_of _ m run i t))),
      λ m i f. elim (placed build "build:" "run:" m of_build i) [
        | inl (t, j) ↦ let bad : true ≡ false = sym t ∙ f in cc
        | inr (g, j) ↦ elim (Bool-cases (present r.common m)) [
          | inl t ↦ (In-select _ m run (present-In r.common m t)).0
          | inr h ↦ absurd (
              not_In m _ covered
                (In-select_of (λ x. not (present r.common x)) m b.common j (rw h refl)))
        ]
      ],
    )
