-- ===== src/Tests/Taken.antt =====
-- A Site whose Secret's name is taken by an object of another Site.
use site_operator.Common.{String, Option, true, none, some, [], ◌∷◌, ◌≡◌, refl, arith}
use site_operator.Common.Outcome.{err, message}
use site_operator.Kube.Objects.{Kind, Obj, Secret, Ingress}
use site_operator.Kube.Meta.{object_key}
use site_operator.Controller.{SiteReconciler, reconcile_objects, reconcile}
use site_operator.Controller.Spares.{reconcile-Spares}
use site_operator.Controller.Refused.{reconcile_objects-refused}
use site_operator.Tests.Fixtures.{full_site, plain_site, named_meta, zero_entropy}
use site_operator.Tests.Owners.{small_library, small_owners}
use site_operator.Tests.Memory.{Cluster, memory, memory_server}
use site_operator.Tests.Answers.{memory_laws}

-- The Secret `full-site-secret`, which the Site `plain` controls.
abbrev taken_secret : Secret
taken_secret = record {
  meta = record (named_meta "full-site-secret") {
    owner_references =
        record { kind = "Site"; name = "plain"; uid = "plain"; controller = true } ∷ [];
  };
  contents = none;
}

abbrev taken_at : (k : Kind) → Option (Obj k)
taken_at Kind.secret = some taken_secret
taken_at _ = none

abbrev taken_cluster : Cluster
taken_cluster = record { at = λ k n. taken_at k }

abbrev lone_operator : SiteReconciler
lone_operator = record { default_maria_db_ref = none; default_storage_class_name = "" }

reconcile_objects-refused_example :
    (t : String) × (reconcile_objects small_library memory lone_operator
        (λ s. s)
        zero_entropy
        full_site
        taken_cluster
      ≡ (err (message t), taken_cluster))
reconcile_objects-refused_example =
    reconcile_objects-refused small_library small_owners full_site memory_server memory_laws
      lone_operator (λ s. s) zero_entropy taken_cluster taken_secret plain_site.meta tt refl refl
      refl

-- The Ingress `full-site-ingress` of the Site `plain`, beside the Site `full-site`.
abbrev taken_ingress : Ingress
taken_ingress = record {
  meta = record (named_meta "full-site-ingress") {
    owner_references =
        record { kind = "Site"; name = "plain"; uid = "plain"; controller = true } ∷ [];
  };
  ingress_class_name = none;
  rules = [];
  tls = [];
}

abbrev beside : (k : Kind) → Option (Obj k)
beside Kind.site = some full_site
beside Kind.ingress = some taken_ingress
beside _ = none

abbrev shared_cluster : Cluster
shared_cluster = record { at = λ k n. beside k }

reconcile-Spares_example :
    memory_server.stored Kind.ingress
      (object_key taken_ingress.meta)
      (reconcile small_library memory lone_operator
        (λ s. s)
        zero_entropy
        (object_key full_site.meta)
        shared_cluster).1
    ≡ some taken_ingress
reconcile-Spares_example =
    reconcile-Spares small_library small_owners memory_server memory_laws lone_operator (λ s. s)
      zero_entropy (object_key full_site.meta) full_site Kind.ingress
      (object_key taken_ingress.meta) taken_ingress plain_site.meta shared_cluster tt refl
      (ground arith) refl refl refl
