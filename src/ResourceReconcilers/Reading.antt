-- ===== src/ResourceReconcilers/Reading.antt =====
-- pkg/reconciler/clusterstore, clusterstack, clusterlifecycle, buildpack and clusterbuildpack: what
-- the reading of images, and its errors, make of a status.
use kpack.Prelude.{
  ◌>>=◌, ℕ, String, Bool, List, [], Option, none, some, Result, ok, err, Error, returned,
}
use kpack.Api.Meta.{ObjectMeta, ObjectReference}
use kpack.Cnb.Resources.{SecretRef}

-- The lister and the client of one kind of resource, and `Semantic.DeepEqual` on its status. What a
-- pass writes is the resource with its new status.
pub record Kind (T : Type 0) : Type 0 where
  pub get : List T → String → String → Result T
  pub answer_update : List T → T → Option Error
  pub status_equal : T → T → Bool

-- The keychain factory, a reader of images and the time of the pass.
pub record Reading (Spec Found : Type 0) : Type 1 where
  pub Keychain : Type 0
  pub keychain_for_secret_ref : SecretRef → Result Keychain
  pub read : Keychain → Spec → Result Found
  pub now : ℕ

-- The keys of the two scopes of resources: the listers of a cluster's resources take a name alone.
abbrev pub namespaced : ObjectMeta → String × String
namespaced meta = (meta.namespace, meta.name)

abbrev pub of_cluster : ObjectMeta → String × String
of_cluster meta = ("", meta.name)

abbrev pub secret_ref_of : Option ObjectReference → SecretRef
secret_ref_of none = record { service_account = ""; namespace = ""; image_pull_secrets = [] }
secret_ref_of (some account) = record {
  service_account = account.name;
  namespace = account.namespace;
  image_pull_secrets = [];
}

-- What was read goes into the status, and so does an error, which is returned as well.
module _ {Spec Found T : Type 0} (C : Reading Spec Found) (answered : Result Found → T) where
  abbrev with_error : Result Found → T × Option Error
  with_error (ok found) = (answered (ok found), none)
  with_error (err e) = (answered (err e), some e)

  abbrev pub recorded : Result Found → Result (T × Option Error)
  recorded r = returned r >>= λ x. ok (with_error x)

  unfoldable pub read_images : Spec → Result C.Keychain → Result (T × Option Error)
  read_images spec (ok keychain) = recorded (C.read keychain spec)
  read_images spec (err e) = recorded (err e)

  unfoldable pub reading_status : SecretRef → Spec → Result (T × Option Error)
  unfolding read_images
  reading_status secret_ref spec = read_images spec (C.keychain_for_secret_ref secret_ref)
