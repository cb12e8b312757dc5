-- ===== src/Cnb/Fetcher/Closed.antt =====
-- remote_buildpack_fetcher.go: what is fetched with a buildpack, and where fetching ends.
use kpack.Prelude.Outcome.{
  Outcome, returns, ◌>>=◌, of_result, for_each, >>=-returns, for_each-In, for_each-total,
}
use kpack.Prelude.{
  ℕ, zero, suc, ◌<◌, ◌≡◌, ◌≢◌, refl, subst, List, [], ◌∷◌, ◌++◌, In, In-append_left,
  In-append_right, All, inl, inr, arith, Result, ok, err,
}
use kpack.Cnb.Resources.{BuildpackRef, K8sRemoteBuildpack, order_refs}
use kpack.Cnb.Resolver.{Semver, BuildpackResolver}
use kpack.Cnb.Fetcher.{
  Registry, BuildpackLayer, RemoteBuildpackInfo, own_layer, descriptive_info, all_layers,
  layer_for_buildpack, resolve_reference, layers_for_order, fetch,
}

In-all_layers :
    {Layer : Type 0} (l : BuildpackLayer Layer) (info : RemoteBuildpackInfo Layer)
    (infos : List (RemoteBuildpackInfo Layer))
    → In info infos
    → In l info.layers
    → In l (all_layers infos)
unfolding all_layers
In-all_layers l info [] i j = elim i [ ]
In-all_layers l info (x ∷ xs) (inl same) j =
    In-append_left l x.layers (all_layers xs) (subst (λ y. In l y.layers) same j)
In-all_layers l info (x ∷ xs) (inr i) j =
    In-append_right l x.layers (all_layers xs) (In-all_layers l info xs i j)

-- What the loop returned for an element is among the results.
for_each-result :
    {A B : Type 0} (f : A → Outcome B) (xs : List A) (bs : List B) (x : A) (b : B)
    → for_each f xs ≡ returns bs
    → In x xs
    → f x ≡ returns b
    → In b bs
unfolding for_each
for_each-result f [] bs x b e i h = elim i [ ]
for_each-result f (y ∷ ys) bs x b e i h =
    let (c, first, rest) = >>=-returns (f y) _ e in
    let (cs, others, last) = >>=-returns (for_each f ys) _ rest in
    let list : bs ≡ c ∷ cs = cc in
    elim i [
      | inl same ↦
          let first_b : f y ≡ returns b = subst (λ z. f z ≡ returns b) same h in
          let equal : b ≡ c = cc in rw list (inl equal)
      | inr j ↦ rw list (inr (for_each-result f ys cs x b others j h))
    ]

of_result-returns : {A : Type 0} {a : A} (m : Result A) → of_result m ≡ returns a → m ≡ ok a
of_result-returns (ok a) e = cc
of_result-returns (err x) e = cc

module _ (R : Registry) (S : Semver) (r : BuildpackResolver) where
  open R use {Layer}

  -- `c` is what a reference in the order of `b` resolves to.
  pub data Requires (b c : K8sRemoteBuildpack) : Type 0 where
    by_reference :
        (ref : BuildpackRef)
        → In ref (order_refs b.buildpack.order)
        → resolve_reference R S r ref ≡ returns c
        → Requires b c

  -- `c` is `b`, or what `b` requires, or what that requires, and so on.
  pub data Reaches (c : K8sRemoteBuildpack) : K8sRemoteBuildpack → Type 0 where
    itself : {b : K8sRemoteBuildpack} → b ≡ c → Reaches c b
    onward :
        {b : K8sRemoteBuildpack} (d : K8sRemoteBuildpack) → Requires b d → Reaches c d → Reaches c b

  -- The steps of a fetch that returned.
  fetched :
      (n : ℕ) (b : K8sRemoteBuildpack) (info : RemoteBuildpackInfo Layer)
      → fetch R S r (suc n) b ≡ returns info
      → (layer : Layer) × (infos : List (RemoteBuildpackInfo Layer)) × (for_each
            (λ ref. resolve_reference R S r ref >>= fetch R S r n)
            (order_refs b.buildpack.order)
          ≡ returns infos)
        × (info.layers ≡ all_layers infos ++ (own_layer layer b.buildpack ∷ []))
  unfolding fetch layers_for_order
  fetched n b info e =
      let (keychain, first, rest) =
        >>=-returns (of_result (R.keychain_for_secret_ref b.secret_ref)) _ e in
      let (layer, second, rest₂) =
        >>=-returns (of_result (layer_for_buildpack R keychain b.buildpack)) _ rest in
      let (layers, third, last) =
        >>=-returns (layers_for_order R S r (fetch R S r n) b.buildpack.order) _ rest₂ in
      let (infos, each, joined) =
        >>=-returns
          (for_each (λ ref. resolve_reference R S r ref >>= fetch R S r n)
            (order_refs b.buildpack.order))
          _ third in
      (layer, infos, each, cc)

  -- A buildpack that is fetched comes with a layer of its own and of all that it reaches.
  pub fetch-Reaches :
      (n : ℕ) (b c : K8sRemoteBuildpack) (info : RemoteBuildpackInfo Layer)
      → fetch R S r n b ≡ returns info
      → Reaches c b
      → (layer : Layer) × In (own_layer layer c.buildpack) info.layers
  unfolding fetch
  fetch-Reaches zero b c info e reach = cc
  fetch-Reaches (suc n) b c info e (itself same) =
      let (layer, infos, each, layers) = fetched n b info e in
      (
        layer,
        subst (λ x. In (own_layer layer x.buildpack) info.layers) same
            (rw layers (In-append_right _ (all_layers infos) _ (inl refl))),
      )
  fetch-Reaches (suc n) b c info e (onward d (by_reference ref i resolves) reach) =
      let (layer, infos, each, layers) = fetched n b info e in
      let (below, got) = for_each-In _ (order_refs b.buildpack.order) infos ref each i in
      let deeper : fetch R S r n d ≡ returns below = rw resolves at got in
      let (own, j) = fetch-Reaches n d c below deeper reach in
      let k = for_each-result _ (order_refs b.buildpack.order) infos ref below each i got in
      (own, rw layers (In-append_left _ (all_layers infos) _ (In-all_layers _ below infos k j)))

  -- On buildpacks each of which requires another of them, fetching never returns, however long it
  -- runs.
  pub fetch-cyclic :
      (P : K8sRemoteBuildpack → Type 0) (n : ℕ) (b : K8sRemoteBuildpack)
      (info : RemoteBuildpackInfo Layer)
      → ((c : K8sRemoteBuildpack) → P c → (d : K8sRemoteBuildpack) × Requires c d × P d)
      → P b
      → fetch R S r n b ≢ returns info
  unfolding fetch
  fetch-cyclic P zero b info cyclic p e = cc
  fetch-cyclic P (suc n) b info cyclic p e =
      let (d, requires, q) = cyclic b p in
      elim requires [
        | by_reference ref i resolves ↦
            let (layer, infos, each, layers) = fetched n b info e in
            let (below, got) = for_each-In _ (order_refs b.buildpack.order) infos ref each i in
            let deeper : fetch R S r n d ≡ returns below = rw resolves at got in
            fetch-cyclic P n d below cyclic q deeper
      ]

  -- The registry answers for a buildpack: its keychain and its layer.
  abbrev pub IsServed : K8sRemoteBuildpack → Type 0
  IsServed b =
      (keychain : R.Keychain) × (layer : Layer) × (R.keychain_for_secret_ref b.secret_ref
        ≡ ok keychain)
      × (layer_for_buildpack R keychain b.buildpack ≡ ok layer)

  -- Each reference of a buildpack resolves to one of a set, of a lower rank.
  abbrev pub IsOrdered :
      (K8sRemoteBuildpack → Type 0) → (K8sRemoteBuildpack → ℕ) → K8sRemoteBuildpack → Type 0
  IsOrdered P rank b =
      (ref : BuildpackRef)
      → In ref (order_refs b.buildpack.order)
      → (c : K8sRemoteBuildpack) × (resolve_reference R S r ref ≡ returns c)
        × P c
        × (rank c < rank b)

  All_of : {A : Type 0} {Q : A → Type 0} (xs : List A) → ((x : A) → In x xs → Q x) → All Q xs
  All_of [] h = tt
  All_of (x ∷ xs) h = (h x (inl refl), All_of xs (λ y i. h y (inr i)))

  -- On buildpacks that the registry serves and whose references lead to lower ranks among them, as
  -- many rounds as the rank, and one, are enough.
  pub fetch-total :
      (P : K8sRemoteBuildpack → Type 0) (rank : K8sRemoteBuildpack → ℕ) (n : ℕ)
      (b : K8sRemoteBuildpack)
      → ((c : K8sRemoteBuildpack) → P c → IsServed c × IsOrdered P rank c)
      → P b
      → rank b < n
      → (info : RemoteBuildpackInfo Layer) × (fetch R S r n b ≡ returns info)
  unfolding fetch layers_for_order
  fetch-total P rank zero b closed p h = absurd (omega arith)
  fetch-total P rank (suc n) b closed p h =
      let (served, ordered) = closed b p in
      let (keychain, layer, serves, layered) = served in
      let (infos, each) =
        for_each-total (λ ref. resolve_reference R S r ref >>= fetch R S r n)
          (order_refs b.buildpack.order)
          (All_of (order_refs b.buildpack.order) (λ ref i.
            let (c, resolves, q, lower) = ordered ref i in
            let (info, done) = fetch-total P rank n c closed q (omega (arith, lower, h)) in
            (info, rw (resolves, done) refl))) in
      let info : RemoteBuildpackInfo Layer = record {
        buildpack_info = descriptive_info b.buildpack;
        layers = all_layers infos ++ (own_layer layer b.buildpack ∷ []);
      } in
      let done : fetch R S r (suc n) b ≡ returns info = rw (serves, layered, each) refl in
      (info, done)
