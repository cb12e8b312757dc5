-- ===== src/Tests/Readings.antt =====
-- The readers of images, and the passes that use them, at concrete resources.
use kpack.Prelude.{
  pos, ◌≡◌, ◌⊎◌, refl, String, true, false, List, [], ◌∷◌, none, some, Result, ok, err, plain, In,
  inl, inr, starts_with, ne_of_eq_false, sym, ap, ◌∙◌,
}
use kpack.Prelude.Shuffled.{none_sent, with_one, nothing, left, right, in_turn}
use kpack.Prelude.Sorting.{sort}
use kpack.Api.BuilderTypes.{ClusterStack, ClusterStackSpec, ResolvedClusterStack}
use kpack.Cnb.Resources.{BuildpackStatus}
use kpack.Cnb.Readers.{ImageReads}
use kpack.Cnb.Readers.Stack.{mixins_of}
use kpack.Cnb.Readers.Stack.Mixins.{mixins_of_sound}
use kpack.Cnb.Readers.Store.{
  Scheduler, buildpack_layers_label, less_status, sent_by, failures, read_store,
}
use kpack.Cnb.Readers.Store.Arrivals.{sent_statuses, read_store_any_order}
use kpack.ResourceReconcilers.Reading.{Kind, Reading}
use kpack.ResourceReconcilers.Known.{IsAnswer}
use kpack.Prelude.Answers.{ending}
use kpack.ResourceReconcilers.Stacks.{no_stack, reconcile_stack}
use kpack.ResourceReconcilers.Answered.{reconcile_stack_known}
use kpack.Tests.Buildpacks.{layer_info}
use kpack.Tests.Creation.{stack}

mixins_of_sound_example :
    ((m : String)
      → In m ("curl" ∷ "build:git" ∷ "run:tool" ∷ [])
      → In m ("curl" ∷ "build:git" ∷ [])
        ⊎ (In m ("curl" ∷ "run:tool" ∷ "extra" ∷ []) × (starts_with m "run:" ≡ true)))
    × ((m : String)
        → In m ("curl" ∷ "build:git" ∷ [])
        → In m ("curl" ∷ "build:git" ∷ "run:tool" ∷ []))
    × ((m : String)
        → In m ("curl" ∷ "run:tool" ∷ "extra" ∷ [])
        → starts_with m "run:" ≡ true
        → In m ("curl" ∷ "build:git" ∷ "run:tool" ∷ []))
    × ((m : String)
        → In m ("curl" ∷ "build:git" ∷ [])
        → starts_with m "build:" ≡ false
        → In m ("curl" ∷ "run:tool" ∷ "extra" ∷ []))
unfolding mixins_of
mixins_of_sound_example =
    mixins_of_sound ("curl" ∷ "build:git" ∷ []) ("curl" ∷ "run:tool" ∷ "extra" ∷ [])
      ("curl" ∷ "build:git" ∷ "run:tool" ∷ []) refl

-- An image is its name; each has one buildpack, of that name.
abbrev reads : ImageReads
reads = record {
  Keychain = String;
  Image = String;
  Layer = String;
  fetch = λ keychain name. ok (name, name);
  config_file =
      λ name. ok (some (record { env = []; labels = (buildpack_layers_label, name) ∷ [] }));
  decode_lifecycle = λ s. err (plain "not JSON");
  decode_apis = λ s. err (plain "not JSON");
  decode_mixins = λ s. err (plain "not JSON");
  decode_buildpackage = λ s. err (plain "not JSON");
  decode_layers = λ s. ok ((s, ("1", layer_info) ∷ []) ∷ []);
  new_hash = λ s. ok s;
  layer_by_diff_id = λ name hash. ok hash;
  size = λ l. ok (pos 10);
  digest = λ l. ok l;
  invalid_number = λ s. plain s;
}

abbrev second_first : List (List BuildpackStatus) → List BuildpackStatus
second_first ((a ∷ []) ∷ (b ∷ []) ∷ []) = b ∷ a ∷ []
second_first _ = []

-- The second goroutine is faster.
abbrev scheduler : Scheduler
scheduler = record { received = second_first; first_failure = λ e es. e }

abbrev status_from : String → BuildpackStatus
status_from name = record {
  id = name;
  version = "1";
  buildpackage = record { id = ""; version = ""; homepage = "" };
  store_image = name;
  diff_id = "sha256:1";
  digest = "sha256:1";
  size = pos 10;
  api = "0.9";
  homepage = "";
  order = [];
  stacks = layer_info.stacks;
}

both :
    sent_statuses reads "keychain" ("java" ∷ "go" ∷ [])
    ≡ (status_from "java" ∷ []) ∷ (status_from "go" ∷ []) ∷ []
unfolding sent_by
both = refl

go_is_not_java : {A : Type 0} → ◌≡◌ {A = String} "go" "java" → A
go_is_not_java e = absurd (ne_of_eq_false "go" "java" refl e)

one_status :
    (a b : BuildpackStatus)
    → In a (status_from "go" ∷ status_from "java" ∷ [])
    → In b (status_from "go" ∷ status_from "java" ∷ [])
    → a.store_image ≡ b.store_image
    → a ≡ b
one_status a b (inl p) (inl q) e = p ∙ sym q
one_status a b (inl p) (inr (inl q)) e =
    go_is_not_java (sym (ap (λ s. s.store_image) p) ∙ e ∙ ap (λ s. s.store_image) q)
one_status a b (inr (inl p)) (inl q) e =
    go_is_not_java (sym (ap (λ s. s.store_image) q) ∙ sym e ∙ ap (λ s. s.store_image) p)
one_status a b (inr (inl p)) (inr (inl q)) e = p ∙ sym q
one_status a b (inl p) (inr (inr j)) e = elim j [ ]
one_status a b (inr (inl p)) (inr (inr j)) e = elim j [ ]
one_status a b (inr (inr i)) j e = elim i [ ]

read_store_any_order_example :
    read_store reads scheduler "keychain" ("java" ∷ "go" ∷ [])
    ≡ ok (sort less_status (in_turn (sent_statuses reads "keychain" ("java" ∷ "go" ∷ []))))
unfolding sent_by failures
read_store_any_order_example =
    read_store_any_order reads "keychain" ("java" ∷ "go" ∷ []) scheduler refl
      (with_one (with_one none_sent (left nothing)) (right (left nothing)))
      (λ a b i j text image. one_status a b i j image)

abbrev stacks : Kind ClusterStack
stacks = record {
  get = λ h namespace name. ok stack;
  answer_update = λ h t. none;
  status_equal = λ a b. false;
}

abbrev stack_reading : Result ResolvedClusterStack → Reading ClusterStackSpec ResolvedClusterStack
stack_reading o = record {
  Keychain = String;
  keychain_for_secret_ref = λ secret_ref. ok "keychain";
  read = λ keychain spec. o;
  now = 7;
}

abbrev broken : Result ResolvedClusterStack
broken = err (plain "invalid stack images")

reconcile_stack_known_example :
    (new : ClusterStack) × IsAnswer new.status 1 broken
    × (new ≡ record stack { status = new.status; resolved = no_stack })
    × (reconcile_stack stacks (stack_reading broken) "base" []
        ≡ ending false none (some (plain "invalid stack images")) new [])
reconcile_stack_known_example =
    reconcile_stack_known stacks (stack_reading broken) stack broken [] (λ h. refl) refl refl
