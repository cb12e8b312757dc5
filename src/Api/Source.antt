-- ===== src/Api/Source.antt =====
-- pkg/apis/core/v1alpha1/source_types.go and pkg/apis/build/v1alpha2/source_resolver.go: where an
-- image's source comes from, and what it resolves to.
use kpack.Prelude.{
  String, Bool, true, false, ◌&&◌, not, List, [], ◌∷◌, Option, none, some, if◌then◌else◌, eqb, ℤ,
}
use kpack.Api.Meta.{ObjectMeta}
use kpack.Api.Condition.{
  Status, condition_ready, condition_true, condition_false, condition_at, get_condition, is_true,
}

pub record Git : Type 0 where
  pub url : String
  pub revision : String
  pub initialize_submodules : Bool

pub record Blob : Type 0 where
  pub url : String
  pub auth : String
  pub strip_components : ℤ

pub record Registry : Type 0 where
  pub image : String
  pub image_pull_secrets : List String

pub record SourceConfig : Type 0 where
  pub git : Option Git
  pub blob : Option Blob
  pub registry : Option Registry
  pub sub_path : String

pub data GitSourceKind : Type 0 where
  unknown branch tag commit : GitSourceKind

pub record ResolvedGitSource : Type 0 where
  pub url : String
  pub revision : String
  pub sub_path : String
  pub tree : String
  pub kind : GitSourceKind
  pub initialize_submodules : Bool

pub record ResolvedBlobSource : Type 0 where
  pub url : String
  pub auth : String
  pub sub_path : String
  pub strip_components : ℤ

pub record ResolvedRegistrySource : Type 0 where
  pub image : String
  pub sub_path : String
  pub image_pull_secrets : List String

pub record ResolvedSourceConfig : Type 0 where
  pub git : Option ResolvedGitSource
  pub blob : Option ResolvedBlobSource
  pub registry : Option ResolvedRegistrySource

-- The interface `ResolvedSource` and its three implementations; `nil` where none is set.
pub data ResolvedSource : Type 0 where
  git_source : ResolvedGitSource → ResolvedSource
  blob_source : ResolvedBlobSource → ResolvedSource
  registry_source : ResolvedRegistrySource → ResolvedSource

choose_source :
    Option ResolvedGitSource
    → Option ResolvedBlobSource
    → Option ResolvedRegistrySource
    → Option ResolvedSource
choose_source (some g) _ _ = some (git_source g)
choose_source none (some b) _ = some (blob_source b)
choose_source none none (some r) = some (registry_source r)
choose_source none none none = none

unfoldable pub resolved_source : ResolvedSourceConfig → Option ResolvedSource
unfolding choose_source
resolved_source c = choose_source c.git c.blob c.registry

abbrev pub is_unknown_kind : GitSourceKind → Bool
is_unknown_kind unknown = true
is_unknown_kind _ = false

abbrev pub is_commit_kind : GitSourceKind → Bool
is_commit_kind commit = true
is_commit_kind _ = false

unfoldable pub source_is_unknown : ResolvedSource → Bool
source_is_unknown (git_source g) = is_unknown_kind g.kind
source_is_unknown (blob_source b) = false
source_is_unknown (registry_source r) = false

unfoldable pub source_is_pollable : ResolvedSource → Bool
source_is_pollable (git_source g) = not (is_commit_kind g.kind) && not (is_unknown_kind g.kind)
source_is_pollable (blob_source b) = false
source_is_pollable (registry_source r) = false

unfoldable pub source_config : ResolvedSource → SourceConfig
source_config (git_source g) = record {
  git = some (record {
    url = g.url;
    revision = g.revision;
    initialize_submodules = g.initialize_submodules;
  });
  blob = none;
  registry = none;
  sub_path = g.sub_path;
}
source_config (blob_source b) = record {
  git = none;
  blob = some (record { url = b.url; auth = b.auth; strip_components = b.strip_components });
  registry = none;
  sub_path = b.sub_path;
}
source_config (registry_source r) = record {
  git = none;
  blob = none;
  registry = some (record { image = r.image; image_pull_secrets = r.image_pull_secrets });
  sub_path = r.sub_path;
}

pub record SourceResolverSpec : Type 0 where
  pub service_account_name : String
  pub source : SourceConfig

pub record SourceResolver : Type 0 where
  pub meta : ObjectMeta
  pub spec : SourceResolverSpec
  pub status : Status
  pub source : ResolvedSourceConfig

abbrev pub active_polling : String
active_polling = "ActivePolling"

unfoldable pub polling_ready : SourceResolver → Bool
unfolding get_condition
polling_ready sr = is_true (get_condition sr.status.conditions active_polling)

unfoldable pub resolver_ready : SourceResolver → Bool
unfolding get_condition
resolver_ready sr =
    is_true (get_condition sr.status.conditions condition_ready)
    && eqb sr.meta.generation sr.status.observed_generation

-- `ResolvedSource(config)`, the setter. A source that resolved to nothing would be a nil
-- dereference in Go; here it is `none`.
unfoldable pub set_resolved_source : ResolvedSourceConfig → SourceResolver → Option SourceResolver
unfolding resolved_source source_is_unknown source_is_pollable
set_resolved_source config sr = elim (resolved_source config) [
  | none ↦ none
  | some s ↦
      if source_is_unknown s && eqb sr.status.observed_generation sr.meta.generation
      then some sr
      else some (record sr {
        source = config;
        status = record {
          observed_generation = sr.status.observed_generation;
          conditions =
              condition_at 0 condition_ready condition_true "" ""
              ∷ condition_at 0 active_polling
                  (if source_is_pollable s then condition_true else condition_false) "" ""
              ∷ [];
        };
      })
]

-- The configuration that a build of this source gets; `none` is again the nil dereference.
unfoldable pub resolver_source_config : SourceResolver → Option SourceConfig
unfolding resolved_source source_config
resolver_source_config sr = elim (resolved_source sr.source) [
  | none ↦ none
  | some s ↦ some (source_config s)
]
