-- ===== src/Cnb/Resolver/Highest.antt =====
-- buildpack_resolver.go: the buildpack of the highest version.
use kpack.Prelude.Sorting.{sort, IsLess, In-sort, In-sort_of, sort-IsSorted, last?-greatest}
use kpack.Prelude.{
  ◌≡◌, refl, subst, true, false, List, [], ◌∷◌, Option, none, some, In, inl, inr, last?, last?-In,
  Option-cases, Result, ok, err,
}
use kpack.Cnb.Resources.{K8sRemoteBuildpack}
use kpack.Cnb.Resolver.{Semver, parsed, less_version, greatest, highest_version}

-- What is relied on of the order of semantic versions: `LessThan` is asymmetric, and a version that
-- is not below a second, which is not below a third, is not below the third.
pub record IsPrecedence (S : Semver) : Type 0 where
  pub asymmetric : (a b : S.Version) → S.less_than a b ≡ true → S.less_than b a ≡ false
  pub not-less_trans :
      (a b c : S.Version)
      → S.less_than b a ≡ false
      → S.less_than c b ≡ false
      → S.less_than c a ≡ false

module _ (S : Semver) where
  abbrev pub Versioned : Type 0
  Versioned = S.Version × K8sRemoteBuildpack

  abbrev NotAbove : Versioned → Versioned → Type 0
  NotAbove a b = S.less_than b.0 a.0 ≡ false

  by_version : IsPrecedence S → IsLess (less_version S) NotAbove
  by_version P = record {
    le_of_less = λ a b h. P.asymmetric a.0 b.0 h;
    le_of_not-less = λ a b h. h;
    le_trans = λ a b c h k. P.not-less_trans a.0 b.0 c.0 h k;
  }

  parsed-head :
      (b : K8sRemoteBuildpack) (bs : List K8sRemoteBuildpack) (vs : List Versioned)
      → parsed S (b ∷ bs) ≡ ok vs
      → (v : S.Version) × (ws : List Versioned) × (S.new_version b.buildpack.version ≡ some v)
        × (parsed S bs ≡ ok ws)
        × (vs ≡ (v, b) ∷ ws)
  unfolding parsed
  parsed-head b bs vs e = after (S.new_version b.buildpack.version) (parsed S bs) refl refl
    where
      after :
          (o : Option S.Version) (p : Result (List Versioned))
          → S.new_version b.buildpack.version ≡ o
          → parsed S bs ≡ p
          → (v : S.Version) × (ws : List Versioned) × (S.new_version b.buildpack.version ≡ some v)
            × (parsed S bs ≡ ok ws)
            × (vs ≡ (v, b) ∷ ws)
      after none p eo ep = let bad = rw (eo, parsed) at e in cc
      after (some v) (err x) eo ep = let bad = rw (eo, ep, parsed) at e in cc
      after (some v) (ok ws) eo ep = (v, ws, eo, ep, let good = rw (eo, ep, parsed) at e in cc)

  parsed-In :
      (bs : List K8sRemoteBuildpack) (vs : List Versioned) (a : Versioned)
      → parsed S bs ≡ ok vs
      → In a vs
      → In a.1 bs × (S.new_version a.1.buildpack.version ≡ some a.0)
  unfolding parsed
  parsed-In [] vs a e i = let same : vs ≡ [] = cc in elim (rw same at i) [ ]
  parsed-In (b ∷ bs) vs a e i =
      let (v, ws, version, rest, same) = parsed-head b bs vs e in
      elim (subst (In a) same i) [
        | inl at_head ↦ rw at_head (inl refl, version)
        | inr j ↦ let (k, own) = parsed-In bs ws a rest j in (inr k, own)
      ]

  In-parsed :
      (bs : List K8sRemoteBuildpack) (vs : List Versioned) (c : K8sRemoteBuildpack)
      → parsed S bs ≡ ok vs
      → In c bs
      → (v : S.Version) × In (v, c) vs × (S.new_version c.buildpack.version ≡ some v)
  In-parsed [] vs c e i = elim i [ ]
  In-parsed (b ∷ bs) vs c e i =
      let (v, ws, version, rest, same) = parsed-head b bs vs e in
      elim i [
        | inl at_head ↦ (v, rw (same, at_head) (inl refl), rw at_head version)
        | inr j ↦ let (w, k, own) = In-parsed bs ws c rest j in (w, rw same (inr k), own)
      ]

  -- What is chosen is one of the buildpacks, its version parses, and no version of the others is
  -- above it.
  pub record IsHighest (bs : List K8sRemoteBuildpack) (b : K8sRemoteBuildpack) : Type 0 where
    pub version : S.Version
    pub member : In b bs
    pub own : S.new_version b.buildpack.version ≡ some version
    pub above_all :
        (c : K8sRemoteBuildpack) (v : S.Version)
        → In c bs
        → S.new_version c.buildpack.version ≡ some v
        → S.less_than version v ≡ false

  greatest-inv :
      (vs : List Versioned) (b : K8sRemoteBuildpack)
      → greatest S vs ≡ ok b
      → (a : Versioned) × (last? (sort (less_version S) vs) ≡ some a) × (a.1 ≡ b)
  unfolding greatest
  greatest-inv vs b e = elim (Option-cases (last? (sort (less_version S) vs))) [
    | inl empty ↦ let bad = rw (empty, greatest) at e in cc
    | inr (a, found) ↦ (a, found, let good = rw (found, greatest) at e in cc)
  ]

  pub highest_version-IsHighest :
      (bs : List K8sRemoteBuildpack) (b : K8sRemoteBuildpack)
      → IsPrecedence S
      → highest_version S bs ≡ ok b
      → IsHighest bs b
  unfolding highest_version
  highest_version-IsHighest bs b P e = after (parsed S bs) refl
    where
      of_list : (vs : List Versioned) → parsed S bs ≡ ok vs → IsHighest bs b
      of_list vs p =
          let (a, last, same) = greatest-inv vs b (rw (p, highest_version) at e) in
          let (member, own) =
            parsed-In bs vs a p
              (In-sort (less_version S) a vs (last?-In a (sort (less_version S) vs) last)) in
          subst (IsHighest bs) same (record {
            version = a.0;
            member = member;
            own = own;
            above_all = λ c v i eq.
                let (w, j, k) = In-parsed bs vs c p i in
                let same_version : w ≡ v = cc in
                subst (λ u. S.less_than a.0 u ≡ false) same_version
                  (last?-greatest (less_version S) NotAbove (by_version P)
                    (sort (less_version S) vs) a (w, c)
                    (sort-IsSorted (less_version S) NotAbove (by_version P) vs) last
                    (In-sort_of (less_version S) (w, c) vs j));
          })

      after : (p : Result (List Versioned)) → parsed S bs ≡ p → IsHighest bs b
      after (ok vs) p = of_list vs p
      after (err x) p = let bad = rw (p, highest_version) at e in cc

  pub highest_version-In :
      (bs : List K8sRemoteBuildpack) (b : K8sRemoteBuildpack)
      → highest_version S bs ≡ ok b
      → In b bs
  unfolding highest_version
  highest_version-In bs b e = after (parsed S bs) refl
    where
      after : (p : Result (List Versioned)) → parsed S bs ≡ p → In b bs
      after (ok vs) p =
          let (a, last, same) = greatest-inv vs b (rw (p, highest_version) at e) in
          let (member, own) =
            parsed-In bs vs a p
              (In-sort (less_version S) a vs (last?-In a (sort (less_version S) vs) last)) in
          subst (λ c. In c bs) same member
      after (err x) p = let bad = rw (p, highest_version) at e in cc
