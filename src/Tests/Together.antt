-- ===== src/Tests/Together.antt =====
-- Tests: where the parts meet, at concrete Sites.
use site_operator.Common.{true, false, none, some, ◌≡◌, refl}
use site_operator.Api.Defaults.{WrittenSpec, default_spec, read_spec}
use site_operator.Kube.Meta.{object_key}
use site_operator.Kube.Objects.{Kind, Service, Deployment}
use site_operator.WpCron.{site_cron_url}
use site_operator.Controller.{reconcile_objects}
use site_operator.Wiring.Cron.{Reaches, Granted-Reaches}
use site_operator.Wiring.Defaults.{reconcile_objects-default_spec}
use site_operator.Tests.Fixtures.{full_site, plain_site, plain_spec, own_cluster, zero_entropy}
use site_operator.Tests.Owners.{small_library}
use site_operator.Tests.Memory.{memory, memory_server}
use site_operator.Tests.Passes.{operator, hash, objects_done}

-- A spec that leaves out the size, the image, the update strategy and whether a database is wanted.
abbrev short_spec : WrittenSpec
short_spec = record {
  rest = record plain_spec {
    persistence =
        some (record { enabled = true; existing_claim = ""; size = ""; storage_class_name = none });
    provision = some (record { database = some (record { enabled = false; maria_db_ref = none }) });
  };
  file_browser = some (record { enabled = some true; image = "" });
  database_enabled = none;
}

reconcile_objects-default_spec_example :
    reconcile_objects small_library memory operator hash zero_entropy
      (record plain_site { spec = read_spec (default_spec short_spec) })
    ≡ reconcile_objects small_library memory operator hash zero_entropy
        (record plain_site { spec = read_spec short_spec })
reconcile_objects-default_spec_example =
    reconcile_objects-default_spec small_library memory operator hash zero_entropy plain_site
      short_spec refl refl (λ e. cc)

Granted-Reaches_example :
    (x : Service) × (d : Deployment) × (site_cron_url full_site
      ≡ "http://full.blogs.svc.cluster.local/wp-cron.php?doing_wp_cron")
    × (memory_server.stored Kind.service (object_key full_site.meta) objects_done.after ≡ some x)
    × (memory_server.stored Kind.deployment (object_key full_site.meta) objects_done.after ≡ some d)
    × Reaches x d
Granted-Reaches_example =
    Granted-Reaches small_library memory_server full_site hash own_cluster objects_done.after
      objects_done.granted
