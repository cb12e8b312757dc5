-- ===== src/BuildChange/Revision.antt =====
-- config_change.go over a store of Git sources. `IsBuildRequired` blanks the revisions of the two
-- configurations through their pointers, compares, and writes them back; the old configuration's
-- pointer is shared with the last build, so what it leaves behind matters.
use kpack.Prelude.{
  ℕ, ◌≡◌, refl, ◌≢◌, String, Bool, not, Option, none, some, if◌then◌else◌, arith, eqb, ap, ok,
}
use kpack.Api.Meta.{Foreign}
use kpack.Api.Source.{Git}
use kpack.BuildChange.Changes.{
  Config, Externals, config_change, is_build_required, blank_revision, blank_git,
}

-- A pointer is a number, and the store has a Git source at each.
abbrev pub Store : Type 0
Store = ℕ → Git

pub record ConfigRef (K : Foreign) : Type 0 where
  pub rest : Config K
  pub git : Option ℕ

deref : Store → Option ℕ → Option Git
deref h none = none
deref h (some p) = some (h p)

-- The configuration that a reference denotes in a store.
unfoldable pub load : {K : Foreign} → Store → ConfigRef K → Config K
unfolding deref
load h c = record (c.rest) { source = record (c.rest.source) { git = deref h c.git } }

unfoldable pub write_revision : ℕ → String → Store → Store
write_revision p r h q = if eqb p q then record (h q) { revision = r } else h q

revision_at : Store → Option ℕ → String
revision_at h none = ""
revision_at h (some p) = (h p).revision

write_at : Option ℕ → String → Store → Store
unfolding write_revision
write_at none r h = h
write_at (some p) r h = write_revision p r h

module _ {K : Foreign} (E : Externals K) where
  -- The body of `IsBuildRequired`, in the order of its statements: the answer and the final store.
  unfoldable pub config_is_build_required : Store → ConfigRef K → ConfigRef K → Bool × Store
  unfolding revision_at write_at load
  config_is_build_required h old new =
      let old_revision = revision_at h old.git in
      let blanked_old = write_at old.git "" h in
      let new_revision = revision_at blanked_old new.git in
      let blanked = write_at new.git "" blanked_old in
      let valid = not (E.deep_equal (load blanked old) (load blanked new)) in
      let restored_old = write_at old.git old_revision blanked in
      (valid, write_at new.git new_revision restored_old)

-- The two pointers are not one.
abbrev pub Apart : Option ℕ → Option ℕ → Type 0
Apart (some p) (some q) = p ≢ q
Apart _ _ = Unit

restored_at :
    (h : Store) (a b : Option ℕ) (r : ℕ)
    → Apart a b
    → write_at b
        (revision_at (write_at a "" h) b)
        (write_at a (revision_at h a) (write_at b "" (write_at a "" h)))
        r
      ≡ h r
unfolding write_at revision_at
restored_at h none none r d = refl
restored_at h (some p) none r d = ground arith
restored_at h none (some q) r d = ground arith
restored_at h (some p) (some q) r d = ground arith

blanked_old :
    (h : Store) (a b : Option ℕ) → deref (write_at b "" (write_at a "" h)) a ≡ blank_git (deref h a)
unfolding write_at deref blank_git
blanked_old h none b = refl
blanked_old h (some p) none = ground arith
blanked_old h (some p) (some q) = ground arith

blanked_new :
    (h : Store) (a b : Option ℕ) → deref (write_at b "" (write_at a "" h)) b ≡ blank_git (deref h b)
unfolding write_at deref blank_git
blanked_new h a none = refl
blanked_new h none (some q) = ground arith
blanked_new h (some p) (some q) = ground arith

module _ {K : Foreign} (E : Externals K) where
  load-blank :
      (h k : Store) (c : ConfigRef K)
      → deref k c.git ≡ blank_git (deref h c.git)
      → load k c ≡ blank_revision (load h c)
  unfolding load blank_revision
  load-blank h k c e =
      ap (λ (g : Option Git). record (c.rest) { source = record (c.rest.source) { git = g } }) e

  -- Over two configurations whose Git pointers are distinct, the test of a configuration change
  -- through those pointers answers what the test on the values answers, and leaves every Git source
  -- of the store as it was.
  pub config_is_build_required-restores :
      (h : Store) (old new : ConfigRef K)
      → Apart old.git new.git
      → (ok (config_is_build_required E h old new).0
          ≡ is_build_required E (config_change (load h old) (load h new)))
        × ((r : ℕ) → (config_is_build_required E h old new).1 r ≡ h r)
  unfolding config_is_build_required is_build_required
  config_is_build_required-restores h old new d = (
    rw (
      load-blank h _ old (blanked_old h old.git new.git),
      load-blank h _ new (blanked_new h old.git new.git),
    ),
    λ r. restored_at h old.git new.git r d,
  )

  -- With one pointer for both, the revision is lost: the store is left with the empty text there.
  pub config_is_build_required_shared :
      (h : Store) (old new : ConfigRef K) (p : ℕ)
      → old.git ≡ some p
      → new.git ≡ some p
      → ((config_is_build_required E h old new).1 p).revision ≡ ""
  unfolding config_is_build_required write_at revision_at
  config_is_build_required_shared h old new p a b = rw (a, b) (ground arith)
