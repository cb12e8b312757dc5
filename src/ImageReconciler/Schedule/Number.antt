-- ===== src/ImageReconciler/Schedule/Number.antt =====
-- reconcile_build.go and image_builds.go: the number that a build carries in its labels.
use kpack.Prelude.Decimal.{itoa, parse_int-itoa}
use kpack.Prelude.{
  ℕ, suc, ◌<◌, ◌≤◌, ◌≡◌, refl, pos, increment, max_int64, ltb, Bool-cases, inl, inr, String, false,
  [], ◌∷◌, Option, some, ok, arith, ◌==◌, eq_refl,
}
use kpack.Api.Meta.{Foreign, StringMap, get, put, get-put}
use kpack.Api.Source.{SourceConfig}
use kpack.Api.Builder.{DuckBuilder}
use kpack.Api.Build.{Build, build_number_label, image_label, image_generation_label}
use kpack.Api.Image.{Image}
use kpack.Api.Wanted.{Naming, combine, build_labels, image_build}
use kpack.ImageReconciler.Schedule.{build_counter, image_generation}

-- The first and the last of three combined entries, where the keys differ from what is put later.
pub combine-first :
    (m : StringMap) (a u b v c w : String)
    → b == a ≡ false
    → c == a ≡ false
    → get a (combine m ((a, u) ∷ (b, v) ∷ (c, w) ∷ [])) ≡ some u
unfolding combine
combine-first m a u b v c w n k = ground (
  arith,
  get-put c a w (put b v (put a u m)),
  get-put b a v (put a u m),
  get-put a a u m,
  eq_refl a,
)

combine-last :
    (m : StringMap) (a u b v c w : String)
    → get c (combine m ((a, u) ∷ (b, v) ∷ (c, w) ∷ [])) ≡ some w
unfolding combine
combine-last m a u b v c w = ground (arith, get-put c c w (put b v (put a u m)), eq_refl c)

increment-pos : (n : ℕ) → n < max_int64 → increment (pos n) ≡ pos (suc n)
increment-pos n h = elim (Bool-cases (ltb n max_int64)) [
  | inl e ↦ rw (e, increment) refl
  | inr e ↦ ground arith
]

module _ {K : Foreign} (naming : Naming) where
  -- A build that is made with the number after `n` is read back as that number, and with the
  -- generation of its image, as long as both fit in an int64.
  pub build_counter-image_build :
      (img : Image K) (source : SourceConfig) (builder : DuckBuilder) (latest : Option (Build K))
      (reasons changes priority stamp : String) (n : ℕ)
      → n < max_int64
      → img.meta.generation ≤ max_int64
      → let b =
          image_build naming img source builder latest reasons changes
            (increment (pos n))
            priority
            stamp in
        (build_counter (some b) ≡ ok (pos (suc n)))
        × (image_generation (some b) ≡ pos img.meta.generation)
  unfolding build_counter image_generation image_build build_labels
  build_counter-image_build img source builder latest reasons changes priority stamp n h g =
      let first =
        combine-first img.meta.labels build_number_label (itoa (increment (pos n))) image_label
          img.meta.name image_generation_label (itoa (pos img.meta.generation)) refl refl in
      let last =
        combine-last img.meta.labels build_number_label (itoa (increment (pos n))) image_label
          img.meta.name image_generation_label (itoa (pos img.meta.generation)) in
      (
        rw (first, increment-pos n h, parse_int-itoa (suc n) (omega (arith, h))) refl,
        rw (last, parse_int-itoa img.meta.generation g) refl,
      )
