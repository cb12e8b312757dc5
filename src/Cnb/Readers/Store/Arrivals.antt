-- ===== src/Cnb/Readers/Store/Arrivals.antt =====
-- remote_store_reader.go: the order in which the goroutines' statuses arrive does not matter.
use kpack.Prelude.TextOrder.{before, before_asym, before_cotrans, before_connected}
use kpack.Prelude.Shuffled.{IsStrict, Interleaves, in_turn, sort-Interleaves}
use kpack.Prelude.Sorting.{sort}
use kpack.Prelude.{
  ◌≡◌, ◌⊎◌, refl, sym, ap, subst, ◌∙◌, String, true, false, List, [], map, In, inl, inr, Bool-cases,
  ◌==◌, eq_iff, ok,
}
use kpack.Cnb.Resources.{BuildpackStatus}
use kpack.Cnb.Readers.{ImageReads}
use kpack.Cnb.Readers.Store.{Scheduler, status_string, less_status, sent_by, failures, read_store}

eq_sym : (s t : String) → (s == t) ≡ false → (t == s) ≡ false
eq_sym s t f = elim (Bool-cases (t == s)) [
  | inl e ↦
      let same = (eq_iff s t).1 (sym ((eq_iff t s).0 e)) in
      let bad : true ≡ false = sym same ∙ f in cc
  | inr e ↦ e
]

-- `less_status` reads the texts of two statuses, and their images where the texts are equal.
less_status_same :
    (a b : BuildpackStatus)
    → status_string a ≡ status_string b
    → less_status a b ≡ before a.store_image b.store_image
unfolding less_status
less_status_same a b e = let t = (eq_iff (status_string a) (status_string b)).1 e in rw t refl

less_status_other :
    (a b : BuildpackStatus)
    → (status_string a == status_string b) ≡ false
    → less_status a b ≡ before (status_string a) (status_string b)
unfolding less_status
less_status_other a b f = rw f refl

before_ne : (s t : String) → before s t ≡ true → (s == t) ≡ false
before_ne s t e = elim (Bool-cases (s == t)) [
  | inl same ↦
      let twice = subst (λ x. before x t ≡ true) ((eq_iff s t).0 same) e in
      let bad : true ≡ false = sym twice ∙ before_asym t t twice in cc
  | inr f ↦ f
]

before_one : (s t : String) → (s == t) ≡ false → (before s t ≡ true) ⊎ (before t s ≡ true)
before_one s t f = elim (Bool-cases (before s t)) [
  | inl e ↦ inl e
  | inr e ↦ elim (Bool-cases (before t s)) [
    | inl g ↦ inr g
    | inr g ↦ let bad : true ≡ false = sym ((eq_iff s t).1 (before_connected s t e g)) ∙ f in cc
  ]
]

less_of_text :
    (a b : BuildpackStatus)
    → before (status_string a) (status_string b) ≡ true
    → less_status a b ≡ true
less_of_text a b e = less_status_other a b (before_ne (status_string a) (status_string b) e) ∙ e

less_status_asym : (a b : BuildpackStatus) → less_status a b ≡ true → less_status b a ≡ false
less_status_asym a b e = elim (Bool-cases (status_string a == status_string b)) [
  | inl t ↦
      let same = (eq_iff (status_string a) (status_string b)).0 t in
      less_status_same b a (sym same)
      ∙ before_asym a.store_image b.store_image (sym (less_status_same a b same) ∙ e)
  | inr f ↦
      less_status_other b a (eq_sym (status_string a) (status_string b) f)
      ∙ before_asym (status_string a) (status_string b) (sym (less_status_other a b f) ∙ e)
]

-- Where two statuses have one text, and a third has it or not.
less_status_cotrans_same :
    (a b c : BuildpackStatus)
    → status_string a ≡ status_string b
    → less_status a b ≡ true
    → (less_status a c ≡ true) ⊎ (less_status c b ≡ true)
less_status_cotrans_same a b c same e = elim (Bool-cases (status_string a == status_string c)) [
  | inl t ↦
      let also = (eq_iff (status_string a) (status_string c)).0 t in
      elim (before_cotrans a.store_image b.store_image c.store_image
        (sym (less_status_same a b same) ∙ e)) [
          | inl left ↦ inl (less_status_same a c also ∙ left)
          | inr right ↦ inr (less_status_same c b (sym also ∙ same) ∙ right)
        ]
  | inr f ↦ elim (before_one (status_string a) (status_string c) f) [
    | inl left ↦ inl (less_of_text a c left)
    | inr right ↦ inr (less_of_text c b (subst (λ x. before (status_string c) x ≡ true) same right))
  ]
]

less_status_cotrans :
    (a b c : BuildpackStatus)
    → less_status a b ≡ true
    → (less_status a c ≡ true) ⊎ (less_status c b ≡ true)
less_status_cotrans a b c e = elim (Bool-cases (status_string a == status_string b)) [
  | inl t ↦ less_status_cotrans_same a b c ((eq_iff (status_string a) (status_string b)).0 t) e
  | inr f ↦
      elim (before_cotrans (status_string a) (status_string b) (status_string c)
        (sym (less_status_other a b f) ∙ e)) [
          | inl left ↦ inl (less_of_text a c left)
          | inr right ↦ inr (less_of_text c b right)
        ]
]

less_status-IsStrict : IsStrict less_status
less_status-IsStrict = record { asym = less_status_asym; cotrans = less_status_cotrans }

-- Two statuses that neither is less than have one text and one image.
less_status_tie :
    (a b : BuildpackStatus)
    → less_status a b ≡ false
    → less_status b a ≡ false
    → (status_string a ≡ status_string b) × (a.store_image ≡ b.store_image)
less_status_tie a b e f = elim (Bool-cases (status_string a == status_string b)) [
  | inl t ↦
      let same = (eq_iff (status_string a) (status_string b)).0 t in
      (
        same,
        before_connected a.store_image b.store_image (sym (less_status_same a b same) ∙ e)
            (sym (less_status_same b a (sym same)) ∙ f),
      )
  | inr g ↦
      let same =
        before_connected (status_string a) (status_string b) (sym (less_status_other a b g) ∙ e)
          (sym (less_status_other b a (eq_sym (status_string a) (status_string b) g)) ∙ f) in
      let bad : true ≡ false = sym ((eq_iff (status_string a) (status_string b)).1 same) ∙ g in cc
]

module _ (R : ImageReads) (keychain : R.Keychain) (images : List String) where
  -- What the goroutines send, one after the other.
  abbrev pub sent_statuses : List (List BuildpackStatus)
  sent_statuses = map (λ s. s.0) (sent_by R keychain images)

  -- If no image of a store fails to be read, and of the statuses that are sent no two differ that have
  -- one text and one image, then the store reads alike however the goroutines take turns.
  pub read_store_any_order :
      (G : Scheduler)
      → failures (sent_by R keychain images) ≡ []
      → Interleaves sent_statuses (G.received sent_statuses)
      → ((a b : BuildpackStatus)
          → In a (G.received sent_statuses)
          → In b (G.received sent_statuses)
          → status_string a ≡ status_string b
          → a.store_image ≡ b.store_image
          → a ≡ b)
      → read_store R G keychain images ≡ ok (sort less_status (in_turn sent_statuses))
  unfolding read_store
  read_store_any_order G fine turns one =
      rw (read_store, fine)
        (ap ok (
          sort-Interleaves less_status less_status-IsStrict turns
            (λ a b i j e f. let (text, image) = less_status_tie a b e f in one a b i j text image)))
