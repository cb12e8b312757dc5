-- ===== src/Tests/Samples.antt =====
-- Resources, externals and servers to run the code on.
use kpack.Prelude.{
  ℕ, pos, ◌≡◌, refl, ap, String, Bool, true, false, ◌&&◌, List, [], ◌∷◌, Option, none, some, ◌==◌,
  ◌<>◌, Result, ok, err, not_found, eq_iff, eq_refl, arith,
}
use kpack.Api.Meta.{Foreign, ObjectMeta}
use kpack.Api.Condition.{
  Status, ConditionStatus, condition_true, condition_at, condition_ready, condition_succeeded,
}
use kpack.Api.Source.{SourceConfig, Git, SourceResolver, branch}
use kpack.Api.Builder.{DuckBuilder, BuildpackMetadata}
use kpack.Api.Build.{Build}
use kpack.Api.Image.{Image}
use kpack.Api.Wanted.{Naming}
use kpack.BuildChange.Changes.{Externals, Documented, BuildpackInfo}
use kpack.ImageReconciler.Server.{Server}
use kpack.ImageReconciler.Schedule.{Setting}

abbrev pub foreign : Foreign
foreign = record {
  EnvVar = String;
  env_is_secret = λ e. false;
  Resources = String;
  no_resources = "";
  Toleration = String;
  Affinity = String;
  Quantity = ℕ;
}

abbrev pub same_infos : List BuildpackInfo → List BuildpackInfo → Bool
same_infos [] [] = true
same_infos [] (b ∷ bs) = false
same_infos (a ∷ rest) [] = false
same_infos (a ∷ rest) (b ∷ bs) = (a.id == b.id) && (a.version == b.version) && same_infos rest bs

abbrev pub url_of : Option Git → String
url_of none = ""
url_of (some g) = g.url

abbrev pub externals : Externals foreign
externals = record {
  cmp_equal = same_infos;
  deep_equal = λ a b. url_of a.source.git == url_of b.source.git;
  identifier = λ s. ok s;
  marshal = λ cs. ok "[changes]";
}

same_infos_refl : (a : List BuildpackInfo) → same_infos a a ≡ true
same_infos_refl [] = refl
same_infos_refl (a ∷ rest) = rw (eq_refl a.id, eq_refl a.version, same_infos_refl rest) refl

same_infos_eq : (a b : List BuildpackInfo) → same_infos a b ≡ true → a ≡ b
same_infos_eq [] [] e = refl
same_infos_eq [] (b ∷ bs) e = cc
same_infos_eq (a ∷ rest) [] e = cc
same_infos_eq (a ∷ rest) (b ∷ bs) e =
    ground (arith, e, eq_iff a.id b.id, eq_iff a.version b.version, same_infos_eq rest bs)

abbrev text_of : Result String → String
text_of (ok s) = s
text_of (err e) = ""

pub documented : Documented externals
documented = record {
  cmp_equal_iff = λ a b. (same_infos_eq a b, λ e. rw e (same_infos_refl b));
  deep_equal_refl = λ c. eq_refl (url_of c.source.git);
  marshal_nonempty = λ cs s e. marshal e;
}
  where
    marshal : {s : String} → ok "[changes]" ≡ ok s → (s == "") ≡ false
    marshal e = let same = ap text_of e in rw (← same) refl

abbrev pub meta_of : String → ℕ → ObjectMeta
meta_of name time = record {
  name = name;
  namespace = "apps";
  uid = name <> "-uid";
  controller = none;
  labels = [];
  annotations = [];
  generation = 1;
  creation_timestamp = some time;
}

abbrev pub status_of : String → ConditionStatus → Status
status_of t s = record { observed_generation = 1; conditions = condition_at 0 t s "" "" ∷ [] }

abbrev pub git_config : SourceConfig
git_config = record {
  git = some (record { url = "https://git"; revision = "abc"; initialize_submodules = false });
  blob = none;
  registry = none;
  sub_path = "";
}

abbrev pub java : BuildpackMetadata
java = record { id = "java"; version = "1"; homepage = "" }

abbrev pub build_of : String → ℕ → ConditionStatus → Build foreign
build_of name time s = record {
  meta = meta_of name time;
  spec = record {
    tags = "reg/app" ∷ [];
    builder = record { image = "reg/builder"; image_pull_secrets = []; ref = none };
    service_account_name = "default";
    source = git_config;
    cache = none;
    run_image = "reg/run@sha256:1";
    active_deadline_seconds = none;
    services = [];
    cnb_bindings = [];
    env = [];
    project_descriptor_path = "";
    resources = "";
    last_build = none;
    notary = none;
    cosign = none;
    default_process = "";
    tolerations = [];
    node_selector = [];
    affinity = none;
    runtime_class_name = none;
    scheduler_name = "";
    priority_class_name = "";
    creation_time = "";
  };
  status = record {
    status = status_of condition_succeeded s;
    build_metadata = java ∷ [];
    stack = record { run_image = "reg/run@sha256:1"; id = "stack" };
    lifecycle_version = "0.17";
    latest_image = "reg/app@sha256:2";
    latest_cache_image = "";
    latest_attestation_image = "";
    pod_name = "";
    step_states = [];
    steps_completed = [];
  };
}

abbrev pub builder : DuckBuilder
builder = record {
  kind = "ClusterBuilder";
  meta = meta_of "builder" 0;
  image_pull_secrets = [];
  status = status_of condition_ready condition_true;
  builder_metadata = java ∷ [];
  stack = record { run_image = "reg/run@sha256:1"; id = "stack" };
  lifecycle_version = "0.17";
  latest_image = "reg/builder@sha256:3";
}

abbrev pub resolver : SourceResolver
resolver = record {
  meta = meta_of "app-source" 0;
  spec = record { service_account_name = "default"; source = git_config };
  status = status_of condition_ready condition_true;
  source = record {
    git = some (record {
      url = "https://git";
      revision = "abc";
      sub_path = "";
      tree = "";
      kind = branch;
      initialize_submodules = false;
    });
    blob = none;
    registry = none;
  };
}

abbrev pub image : Image foreign
image = record {
  meta = meta_of "app" 0;
  spec = record {
    tag = "reg/app";
    builder = record { kind = "ClusterBuilder"; name = "builder"; namespace = "" };
    service_account_name = "default";
    source = git_config;
    cache = none;
    failed_build_history_limit = some (pos 1);
    success_build_history_limit = some (pos 1);
    image_tagging_strategy = "None";
    project_descriptor_path = "";
    build = none;
    notary = none;
    cosign = none;
    default_process = "";
    additional_tags = [];
  };
  status = record {
    status = record { observed_generation = 0; conditions = [] };
    latest_build_ref = "";
    latest_build_image_generation = pos 0;
    latest_image = "";
    latest_stack = "";
    build_counter = pos 0;
    build_cache_name = "";
    latest_build_reason = "";
  };
}

abbrev pub naming : Naming
naming = record {
  child_name = λ parent suffix. parent <> suffix;
  new_tag = λ s. ok (record { registry_str = "reg"; repository_str = "app"; tag_str = "latest" });
}

abbrev pub setting : Setting foreign
setting = record {
  externals = externals;
  naming = naming;
  now = 7;
  formatted_now = "now";
  stamp = "20240101.000000";
  enable_priority_classes = true;
}

-- A server that holds the image, its resolver and the given builds, and agrees to all it is asked.
abbrev pub server_with : Result DuckBuilder → List (Build foreign) → Server foreign
server_with b builds = record {
  get_image = λ h ns n. ok image;
  get_builder = λ h ns r. b;
  list_builds = λ h ns n. ok builds;
  get_resolver = λ h ns n. ok resolver;
  get_claim = λ h ns n. err (not_found "claim");
  answer_build = λ h b. ok b;
  beside_error = λ e. meta_of "" 0;
  answer_resolver = λ h m s. ok resolver;
  answer_resolver_update = λ h r. ok r;
  answer_claim = λ h c. ok c;
  answer_other = λ h r. none;
  spec_equal = λ a b. a.service_account_name == b.service_account_name;
  labels_equal = λ a b. true;
  size_equal = λ a b. true;
  status_equal = λ a b. false;
}
