-- ===== src/Cnb/BuilderImage/Grouped.antt =====
-- builder_builder.go, `AddGroup`: the map of layers after a group is added.
use kpack.Prelude.{
  ◌≡◌, ◌⊎◌, refl, subst, List, [], ◌∷◌, some, In, In-append_left, In-append_right, inl, inr,
  Bool-cases,
}
use kpack.Cnb.Fetcher.{BuildpackLayer, DescriptiveBuildpackInfo}
use kpack.Cnb.Imaging.{Imaging, RemoteBuildpackRef, same_info}
use kpack.Cnb.BuilderImage.{
  LayerMap, BuilderBlder, layer_of, put_layer, put_layers, layers_of, add_group,
}
use kpack.Cnb.BuilderImage.Layers.{same_info_refl}

module _ (I : Imaging) where
  open I use {Layer}

  put_layer_here :
      (m : LayerMap I) (l : BuildpackLayer Layer)
      → layer_of I (put_layer I m l) l.buildpack_info ≡ some l
  unfolding put_layer layer_of
  put_layer_here [] l = rw (same_info_refl l.buildpack_info) refl
  put_layer_here (e ∷ es) l = elim (Bool-cases (same_info e.0 l.buildpack_info)) [
    | inl same ↦ rw (same, layer_of) (rw same refl)
    | inr other ↦ rw (other, layer_of) (rw other (put_layer_here es l))
  ]

  -- A layer that is put in replaces at most the layer of its own info.
  put_layer_there :
      (m : LayerMap I) (l k : BuildpackLayer Layer) (key : DescriptiveBuildpackInfo)
      → layer_of I m key ≡ some k
      → (layer_of I (put_layer I m l) key ≡ some l) ⊎ (layer_of I (put_layer I m l) key ≡ some k)
  unfolding put_layer layer_of
  put_layer_there [] l k key e = cc
  put_layer_there (x ∷ xs) l k key e = elim (Bool-cases (same_info x.0 l.buildpack_info)) [
    | inl same ↦ elim (Bool-cases (same_info x.0 key)) [
      | inl t ↦ inl (rw (same, layer_of, t) refl)
      | inr f ↦ inr (rw (same, layer_of, f) (rw (layer_of, f) at e))
    ]
    | inr other ↦ elim (Bool-cases (same_info x.0 key)) [
      | inl t ↦ inr (rw (other, layer_of, t) (rw (layer_of, t) at e))
      | inr f ↦ elim (put_layer_there xs l k key (rw (layer_of, f) at e)) [
        | inl h ↦ inl (rw (other, layer_of, f) h)
        | inr h ↦ inr (rw (other, layer_of, f) h)
      ]
    ]
  ]

  pub put_layers_there :
      (m : LayerMap I) (ls : List (BuildpackLayer Layer)) (k : BuildpackLayer Layer)
      (key : DescriptiveBuildpackInfo)
      → layer_of I m key ≡ some k
      → (j : BuildpackLayer Layer) × (layer_of I (put_layers I m ls) key ≡ some j)
        × ((j ≡ k) ⊎ In j ls)
  unfolding put_layers
  put_layers_there m [] k key e = (k, e, inl refl)
  put_layers_there m (l ∷ ls) k key e = elim (put_layer_there m l k key e) [
    | inl h ↦
        let (j, found, from) = put_layers_there (put_layer I m l) ls l key h in
        elim from [ inl same ↦ (j, found, inr (inl same)) | inr i ↦ (j, found, inr (inr i)) ]
    | inr h ↦
        let (j, found, from) = put_layers_there (put_layer I m l) ls k key h in
        elim from [ inl same ↦ (j, found, inl same) | inr i ↦ (j, found, inr (inr i)) ]
  ]

  put_layers-In :
      (m : LayerMap I) (ls : List (BuildpackLayer Layer)) (l : BuildpackLayer Layer)
      → In l ls
      → (j : BuildpackLayer Layer) × (layer_of I (put_layers I m ls) l.buildpack_info ≡ some j)
        × In j ls
  unfolding put_layers
  put_layers-In m [] l i = elim i [ ]
  put_layers-In m (x ∷ xs) l (inl same) =
      let (j, found, from) =
        put_layers_there (put_layer I m x) xs x x.buildpack_info (put_layer_here m x) in
      let found_l : layer_of I (put_layers I (put_layer I m x) xs) l.buildpack_info ≡ some j =
        rw same found in
      elim from [ inl own ↦ (j, found_l, inl own) | inr i ↦ (j, found_l, inr i) ]
  put_layers-In m (x ∷ xs) l (inr i) =
      let (j, found, from) = put_layers-In (put_layer I m x) xs l i in (j, found, inr from)

  In-layers_of :
      (rs : List (RemoteBuildpackRef Layer)) (r : RemoteBuildpackRef Layer)
      (l : BuildpackLayer Layer)
      → In r rs
      → In l r.layers
      → In l (layers_of I rs)
  unfolding layers_of
  In-layers_of [] r l i j = elim i [ ]
  In-layers_of (x ∷ xs) r l (inl same) j =
      In-append_left l x.layers (layers_of I xs) (subst (λ y. In l y.layers) same j)
  In-layers_of (x ∷ xs) r l (inr i) j =
      In-append_right l x.layers (layers_of I xs) (In-layers_of xs r l i j)

  -- After a group is added, the builder has a layer of the group under the info of each layer of each
  -- buildpack of the group.
  pub add_group_layers :
      (bb : BuilderBlder I) (rs : List (RemoteBuildpackRef Layer)) (r : RemoteBuildpackRef Layer)
      (l : BuildpackLayer Layer)
      → In r rs
      → In l r.layers
      → (j : BuildpackLayer Layer) × (layer_of I
            (add_group I bb rs).buildpack_layers
            l.buildpack_info
          ≡ some j)
        × In j (layers_of I rs)
  unfolding add_group
  add_group_layers bb rs r l i j =
      put_layers-In bb.buildpack_layers (layers_of I rs) l (In-layers_of rs r l i j)
