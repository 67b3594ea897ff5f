-- ===== src/Tests/Clusterless.antt =====
-- A Site that wants a database, and an operator that knows no cluster.
use site_operator.Common.{String, true, none, some, ◌≡◌, refl, ◌<>◌}
use site_operator.Common.Outcome.{err}
use site_operator.Api.Site.{Site}
use site_operator.Kube.Objects.{Kind}
use site_operator.Kube.Server.{Frame}
use site_operator.Helpers.{provision_enabled, site_secret}
use site_operator.Provision.{no_cluster}
use site_operator.Controller.{SiteReconciler, reconcile_objects}
use site_operator.Controller.Converge.Ensure.{Is}
use site_operator.Controller.Converge.Shapes.{key, IsSecretOf}
use site_operator.Controller.NoCluster.{reconcile_objects-no_cluster}
use site_operator.Tests.Fixtures.{full_site, full_spec, zero_entropy}
use site_operator.Tests.Owners.{small_library, small_owners}
use site_operator.Tests.Memory.{Cluster, memory, memory_server}
use site_operator.Tests.Answers.{memory_laws}
use site_operator.Tests.SiteOnly.{site_only, site_only-Ours}

abbrev pub unnamed_site : Site
unnamed_site = record full_site {
  spec = record full_spec {
    provision = some (record { database = some (record { enabled = true; maria_db_ref = none }) });
  };
}

abbrev bare_operator : SiteReconciler
bare_operator = record { default_maria_db_ref = none; default_storage_class_name = "" }

abbrev digest : String → String
digest s = "digest-" <> s

wants_database : provision_enabled unnamed_site ≡ true
unfolding provision_enabled
wants_database = refl

reconcile_objects-no_cluster_example :
    (w' : Cluster) × (reconcile_objects small_library memory bare_operator digest zero_entropy
        unnamed_site
        (site_only unnamed_site)
      ≡ (err no_cluster, w'))
    × Is (IsSecretOf small_library unnamed_site) (
        memory_server.stored Kind.secret
          (key small_library unnamed_site (site_secret unnamed_site))
          w')
    × Frame memory_server Kind.secret
        (key small_library unnamed_site (site_secret unnamed_site))
        (site_only unnamed_site)
        w'
reconcile_objects-no_cluster_example =
    reconcile_objects-no_cluster small_library small_owners unnamed_site memory_server memory_laws
      bare_operator digest zero_entropy (site_only unnamed_site) wants_database refl tt
      (site_only-Ours unnamed_site small_library Kind.secret
        (key small_library unnamed_site (site_secret unnamed_site)) (λ e. cc))
