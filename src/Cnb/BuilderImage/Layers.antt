-- ===== src/Cnb/BuilderImage/Layers.antt =====
-- builder_builder.go, `deduplicateLayers` and `AddGroup`: the layers of a builder.
use kpack.Prelude.{
  ◌≡◌, ◌≢◌, ◌⊎◌, refl, sym, subst, String, true, false, ◌&&◌, List, [], ◌∷◌, ◌==◌, eq_iff, eq_refl,
  and_true, any, any-In, In, inl, inr, Bool-cases, Result, ok, err, arith,
}
use kpack.Cnb.Fetcher.{DescriptiveBuildpackInfo}
use kpack.Cnb.Imaging.{Imaging, same_info}
use kpack.Cnb.BuilderImage.{dedupe, deduplicate_layers}

pub same_info_refl : (a : DescriptiveBuildpackInfo) → same_info a a ≡ true
same_info_refl a = rw (eq_refl a.id, eq_refl a.version, eq_refl a.homepage) refl

pub same_info_eq : (a b : DescriptiveBuildpackInfo) → same_info a b ≡ true → a ≡ b
same_info_eq a b e =
    let (i, rest) =
      and_true (a.id == b.id) (a.version == b.version && a.homepage == b.homepage) e in
    let (v, h) = and_true (a.version == b.version) (a.homepage == b.homepage) rest in
    let id : a.id ≡ b.id = (eq_iff a.id b.id).0 i in
    let version : a.version ≡ b.version = (eq_iff a.version b.version).0 v in
    let homepage : a.homepage ≡ b.homepage = (eq_iff a.homepage b.homepage).0 h in cc

module _ (I : Imaging) where
  open I use {Layer}

  Result-cases : (r : Result String) → ((d : String) × (r ≡ ok d)) ⊎ ((e : _) × (r ≡ err e))
  Result-cases (ok d) = inl (d, refl)
  Result-cases (err e) = inr (e, refl)

  seen-In : (seen : List String) (d : String) → any (λ s. s == d) seen ≡ true → In d seen
  seen-In seen d t =
      let (s, i, same) = any-In (λ x. x == d) seen t in
      subst (λ x. In x seen) ((eq_iff s d).0 same) i

  dedupe_covers :
      (seen : List String) (ls : List Layer) (l : Layer) (d : String)
      → In l ls
      → I.diff_id l ≡ ok d
      → In d seen ⊎ ((k : Layer) × In k (dedupe I seen ls) × (I.diff_id k ≡ ok d))
  unfolding dedupe
  dedupe_covers seen [] l d i e = elim i [ ]
  dedupe_covers seen (x ∷ xs) l d i e = elim (Result-cases (I.diff_id x)) [
    | inr (bad, f) ↦ elim i [
      | inl same ↦ let clash = rw same at e in cc
      | inr j ↦ elim (dedupe_covers seen xs l d j e) [
        | inl known ↦ inl known
        | inr (k, there, own) ↦ inr (k, rw (f, dedupe) (inr there), own)
      ]
    ]
    | inl (c, f) ↦ elim (Bool-cases (any (λ s. s == c) seen)) [
      | inl old ↦ elim i [
        | inl same ↦
            let equal : c ≡ d = let at_x = rw same at e in cc in
            inl (subst (λ x. In x seen) equal (seen-In seen c old))
        | inr j ↦ elim (dedupe_covers seen xs l d j e) [
          | inl known ↦ inl known
          | inr (k, there, own) ↦ inr (k, rw (f, dedupe, old) there, own)
        ]
      ]
      | inr new ↦ elim i [
        | inl same ↦ inr (x, rw (f, dedupe, new) (inl refl), rw same at e)
        | inr j ↦ elim (dedupe_covers (c ∷ seen) xs l d j e) [
          | inl (inl first) ↦ inr (x, rw (f, dedupe, new) (inl refl), rw first f)
          | inl (inr known) ↦ inl known
          | inr (k, there, own) ↦ inr (k, rw (f, dedupe, new) (inr there), own)
        ]
      ]
    ]
  ]

  -- No layer is lost: each hash among the layers is the hash of one that stays.
  pub deduplicate_layers_covers :
      (ls : List Layer) (l : Layer) (d : String)
      → In l ls
      → I.diff_id l ≡ ok d
      → (k : Layer) × In k (deduplicate_layers I ls) × (I.diff_id k ≡ ok d)
  unfolding deduplicate_layers
  deduplicate_layers_covers ls l d i e = elim (dedupe_covers [] ls l d i e) [
    | inl known ↦ elim known [ ]
    | inr found ↦ found
  ]

  any_here : (seen : List String) (d : String) → any (λ s. s == d) (d ∷ seen) ≡ true
  unfolding any
  any_here seen d = rw (eq_refl d) refl

  any_later :
      (seen : List String) (c d : String)
      → any (λ s. s == d) (c ∷ seen) ≡ false
      → any (λ s. s == d) seen ≡ false
  unfolding any
  any_later seen c d e = ground arith

  -- A layer that stays has a hash that was not seen.
  dedupe_fresh :
      (seen : List String) (ls : List Layer) (k : Layer) (d : String)
      → In k (dedupe I seen ls)
      → I.diff_id k ≡ ok d
      → any (λ s. s == d) seen ≡ false
  unfolding dedupe
  dedupe_fresh seen [] k d i e = elim i [ ]
  dedupe_fresh seen (x ∷ xs) k d i e = elim (Result-cases (I.diff_id x)) [
    | inr (bad, f) ↦ elim (rw (f, dedupe) at i) [
      | inl same ↦ let clash = rw same at e in cc
      | inr j ↦ dedupe_fresh seen xs k d j e
    ]
    | inl (c, f) ↦ elim (Bool-cases (any (λ s. s == c) seen)) [
      | inl old ↦ dedupe_fresh seen xs k d (rw (f, dedupe, old) at i) e
      | inr new ↦ elim (rw (f, dedupe, new) at i) [
        | inl same ↦
            let equal : c ≡ d = let at_x = rw same at e in cc in
            subst (λ y. any (λ s. s == y) seen ≡ false) equal new
        | inr j ↦ any_later seen c d (dedupe_fresh (c ∷ seen) xs k d j e)
      ]
    ]
  ]

  -- No two layers have one hash.
  abbrev pub IsUnique : List Layer → Type 0
  IsUnique [] = Unit
  IsUnique (l ∷ ls) =
      ((k : Layer) (d : String) → In k ls → I.diff_id k ≡ ok d → I.diff_id l ≢ ok d) × IsUnique ls

  dedupe-IsUnique : (seen : List String) (ls : List Layer) → IsUnique (dedupe I seen ls)
  unfolding dedupe
  dedupe-IsUnique seen [] = tt
  dedupe-IsUnique seen (x ∷ xs) = elim (Result-cases (I.diff_id x)) [
    | inr (bad, f) ↦
        rw (f, dedupe) ((λ k d i e h. let clash = rw f at h in cc), dedupe-IsUnique seen xs)
    | inl (c, f) ↦ elim (Bool-cases (any (λ s. s == c) seen)) [
      | inl old ↦ rw (f, dedupe, old) (dedupe-IsUnique seen xs)
      | inr new ↦
          rw (f, dedupe, new)
            (
              (λ k d i e h.
                  let equal : c ≡ d = let at_x = rw f at h in cc in
                  let fresh : any (λ s. s == c) (c ∷ seen) ≡ false =
                    subst (λ y. any (λ s. s == y) (c ∷ seen) ≡ false) (sym equal)
                      (dedupe_fresh (c ∷ seen) xs k d i e) in
                  let here = any_here seen c in cc),
              dedupe-IsUnique (c ∷ seen) xs,
            )
    ]
  ]

  -- Of the layers that stay, no two have one hash.
  pub deduplicate_layers-IsUnique : (ls : List Layer) → IsUnique (deduplicate_layers I ls)
  unfolding deduplicate_layers
  deduplicate_layers-IsUnique ls = dedupe-IsUnique [] ls
