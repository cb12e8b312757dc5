-- ===== src/Cnb/Fetcher.antt =====
-- remote_buildpack_fetcher.go: a buildpack with the layers of all that its order refers to. `fetch`
-- and `layersForOrder` call each other with no bound, so they run on fuel here.
pub mod Closed
use kpack.Prelude.Outcome.{Outcome, returns, unfinished, ◌>>=◌, of_result, for_each}
use kpack.Prelude.{ℕ, zero, suc, String, ℤ, false, List, [], ◌∷◌, ◌++◌, Result}
use kpack.Api.Meta.{ObjectReference}
use kpack.Cnb.Resources.{
  BuildpackRef, OrderEntry, BuildpackStack, BuildpackStatus, SecretRef, K8sRemoteBuildpack,
  BuilderBuildpackRef, order_refs,
}
use kpack.Cnb.Resolver.{Semver, BuildpackResolver, resolve}

pub record LazyMountableLayerArgs (Keychain : Type 0) : Type 0 where
  pub digest : String
  pub diff_id : String
  pub image : String
  pub size : ℤ
  pub keychain : Keychain

-- The keychain factory and `imagehelpers.NewLazyMountableLayer`.
pub record Registry : Type 1 where
  pub Keychain : Type 0
  pub Layer : Type 0
  pub keychain_for_secret_ref : SecretRef → Result Keychain
  pub new_lazy_mountable_layer : LazyMountableLayerArgs Keychain → Result Layer

pub record DescriptiveBuildpackInfo : Type 0 where
  pub id : String
  pub version : String
  pub homepage : String

pub record BuildpackLayerInfo : Type 0 where
  pub api : String
  pub layer_diff_id : String
  pub order : List OrderEntry
  pub stacks : List BuildpackStack
  pub homepage : String

pub record BuildpackLayer (Layer : Type 0) : Type 0 where
  pub v1_layer : Layer
  pub buildpack_info : DescriptiveBuildpackInfo
  pub buildpack_layer_info : BuildpackLayerInfo

pub record RemoteBuildpackInfo (Layer : Type 0) : Type 0 where
  pub buildpack_info : DescriptiveBuildpackInfo
  pub layers : List (BuildpackLayer Layer)

-- The reference that `layersForOrder` resolves: an id and a version, no object and no image.
abbrev pub reference_to : BuildpackRef → BuilderBuildpackRef
reference_to ref = record {
  id = ref.id;
  version = ref.version;
  optional = false;
  object = record { kind = ""; name = ""; namespace = "" };
  image = "";
}

unfoldable pub descriptive_info : BuildpackStatus → DescriptiveBuildpackInfo
descriptive_info b = record { id = b.id; version = b.version; homepage = b.homepage }

-- The layer of the buildpack itself.
unfoldable pub own_layer : {Layer : Type 0} → Layer → BuildpackStatus → BuildpackLayer Layer
unfolding descriptive_info
own_layer layer b = record {
  v1_layer = layer;
  buildpack_info = descriptive_info b;
  buildpack_layer_info = record {
    api = b.api;
    layer_diff_id = b.diff_id;
    order = b.order;
    stacks = b.stacks;
    homepage = b.homepage;
  };
}

unfoldable pub all_layers :
    {Layer : Type 0} → List (RemoteBuildpackInfo Layer) → List (BuildpackLayer Layer)
all_layers [] = []
all_layers (info ∷ infos) = info.layers ++ all_layers infos

module _ (R : Registry) where
  open R use {Keychain, Layer, keychain_for_secret_ref, new_lazy_mountable_layer}

  unfoldable pub layer_for_buildpack : Keychain → BuildpackStatus → Result Layer
  layer_for_buildpack keychain b = new_lazy_mountable_layer (record {
    digest = b.digest;
    diff_id = b.diff_id;
    image = b.store_image;
    size = b.size;
    keychain = keychain;
  })

  module _ (S : Semver) (r : BuildpackResolver) where
    -- One reference of the order. It has no object, so `resolve` builds no tree and needs no fuel.
    abbrev pub resolve_reference : BuildpackRef → Outcome K8sRemoteBuildpack
    resolve_reference ref = resolve S 0 r (reference_to ref)

    unfoldable pub layers_for_order :
        (K8sRemoteBuildpack → Outcome (RemoteBuildpackInfo Layer))
        → List OrderEntry
        → Outcome (List (BuildpackLayer Layer))
    unfolding for_each all_layers
    layers_for_order fetch order = do
      infos ← for_each (λ ref. resolve_reference ref >>= fetch) (order_refs order)
      returns (all_layers infos)

    unfoldable pub fetch : ℕ → K8sRemoteBuildpack → Outcome (RemoteBuildpackInfo Layer)
    unfolding layer_for_buildpack layers_for_order own_layer descriptive_info
    fetch zero remote = unfinished
    fetch (suc n) remote = do
      keychain ← of_result (keychain_for_secret_ref remote.secret_ref)
      layer ← of_result (layer_for_buildpack keychain remote.buildpack)
      layers ← layers_for_order (fetch n) remote.buildpack.order
      returns (record {
        buildpack_info = descriptive_info remote.buildpack;
        layers = layers ++ (own_layer layer remote.buildpack ∷ []);
      })

    unfoldable pub resolve_and_fetch :
        ℕ → ℕ → BuilderBuildpackRef → Outcome (RemoteBuildpackInfo Layer)
    unfolding resolve fetch
    resolve_and_fetch m n ref = do remote ← resolve S m r ref; fetch n remote
