-- ===== src/Tests/Processes.antt =====
-- The whole process, on a manager that records nothing and a web that is down but for one Site.
use site_operator.Common.{
  String, true, false, Option, none, some, [], ◌∷◌, ◌≡◌, ◌⊎◌, ◌↔◌, refl, All, lookup,
}
use site_operator.Common.Outcome.{Outcome, Error, ok, err, api, not_found}
use site_operator.Api.Group.{group_version}
use site_operator.Kube.Objects.{Kind, Obj}
use site_operator.Kube.Meta.{object_key}
use site_operator.Kube.Client.{Client}
use site_operator.Helpers.{provision_enabled}
use site_operator.Provision.{resolve_maria_db_ref}
use site_operator.WpCron.{HttpGet, site_cron_url, run_wp_cron_once}
use site_operator.WpCron.Runs.{answers, any_true}
use site_operator.Controller.{reconcile, SiteReconciler}
use site_operator.Controller.Converge.Stages.{Wish}
use site_operator.Controller.Converge.Shapes.{wishes}
use site_operator.Controller.Independent.{Answers, with_answers, reconcile-Independent}
use site_operator.Controller.Permissions.{Resource, Documented, permitted, rules-suffice}
use site_operator.Secret.{Entropy}
use site_operator.Manager.{Platform, main, exited, site_reconciler}
use site_operator.Manager.CommandLine.{
  Flags, default_flags, parse, refused_status, set_flag, assign, variables, parse_bool,
}
use site_operator.Manager.CommandLine.Laws.{command_line, parse-command_line}
use site_operator.Manager.Servers.{
  TlsConfig, configured, metrics_options, webhook_options, servers_negotiate,
}
use site_operator.Manager.Exits.{main-cron_iff}
use site_operator.Manager.Follows.{IsFollowed, wishes-IsFollowed}
use site_operator.Manager.Defaults.{resolve_maria_db_ref-flags}
use site_operator.Tests.Fixtures.{full_site, plain_site, own_cluster, zero_entropy}
use site_operator.Tests.Owners.{small_library}
use site_operator.Tests.Runs.{Log, recorder, web, web-NeverPanics}
use site_operator.Tests.Clusterless.{unnamed_site}

abbrev small_platform : Platform
small_platform = record {
  client = recorder;
  get_config = λ w. (ok tt, w);
  new_manager = λ o w. (ok tt, w);
  complete = λ b r w. (ok tt, w);
  add_healthz_check = λ s w. (ok tt, w);
  add_readyz_check = λ s w. (ok tt, w);
  start = λ w. (ok tt, true ∷ w);
  http_get = web;
  built = none;
}

abbrev http2_flags : Flags
http2_flags = record default_flags {
  enable_http2 = true;
  default_maria_db_name = "maria";
  probe_addr = ":9000";
}

abbrev cron_flags : Flags
cron_flags = record default_flags { run_wp_cron = true }

parse-command_line_example : parse (command_line http2_flags) default_flags ≡ some http2_flags
parse-command_line_example = parse-command_line http2_flags default_flags

main-cron_iff_example : ((main small_platform (command_line cron_flags) []).0 ≡ exited 0) ↔ (
    (full_site ∷ plain_site ∷ [] ≡ [])
    ⊎ (any_true (answers web site_cron_url (full_site ∷ plain_site ∷ []) []) ≡ true))
main-cron_iff_example =
    main-cron_iff small_platform (command_line cron_flags) cron_flags [] [] []
      (full_site ∷ plain_site ∷ []) (parse-command_line cron_flags default_flags) refl refl refl
      web-NeverPanics refl

-- A server that offers HTTP/2.
abbrev h2_config : TlsConfig
h2_config = record { next_protos = "h2" ∷ "http/1.1" ∷ [] }

servers_negotiate_example :
    ((configured (metrics_options default_flags).tls_opts h2_config).next_protos ≡ "http/1.1" ∷ [])
    × ((configured (webhook_options default_flags).tls_opts h2_config).next_protos
        ≡ "http/1.1" ∷ [])
servers_negotiate_example = servers_negotiate default_flags h2_config

wishes-IsFollowed_example :
    All (λ (v : Wish). IsFollowed v.kind) (wishes small_library full_site (λ s. s) own_cluster)
wishes-IsFollowed_example = wishes-IsFollowed small_library full_site (λ s. s) own_cluster

abbrev plain_get : (k : Kind) → Outcome (Obj k)
plain_get Kind.site = ok plain_site
plain_get _ = err (api not_found "not found")

abbrev plain_operator : SiteReconciler
plain_operator = record { default_maria_db_ref = none; default_storage_class_name = "" }

-- The client that records, with another Site.
abbrev site_client : Client
site_client = record recorder { get = λ k n w. (plain_get k, w) }

-- A cluster without the kinds of mariadb-operator.
abbrev no_maria_db : Answers site_client
no_maria_db = record {
  get = λ k n w. (err (api not_found "no matches for kind"), w);
  create_or_update = λ k o f w. (err (api not_found "no matches for kind"), w);
  delete = λ k o w. (err (api not_found "no matches for kind"), w);
}

plain-off : provision_enabled plain_site ≡ false
unfolding provision_enabled
plain-off = refl

reconcile-Independent_example :
    reconcile small_library
      (with_answers site_client no_maria_db)
      plain_operator
      (λ s. s)
      zero_entropy
      (object_key plain_site.meta)
      []
    ≡ reconcile small_library site_client plain_operator
        (λ s. s)
        zero_entropy
        (object_key plain_site.meta)
        []
reconcile-Independent_example =
    reconcile-Independent small_library site_client no_maria_db plain_operator (λ s. s) zero_entropy
      (object_key plain_site.meta) plain_site [] [] refl plain-off

abbrev api_names : Kind → Resource
api_names Kind.site = record { group = "site.operator"; plural = "sites" }
api_names Kind.secret = record { group = ""; plural = "secrets" }
api_names Kind.config_map = record { group = ""; plural = "configmaps" }
api_names Kind.deployment = record { group = "apps"; plural = "deployments" }
api_names Kind.service = record { group = ""; plural = "services" }
api_names Kind.ingress = record { group = "networking.k8s.io"; plural = "ingresses" }
api_names Kind.pvc = record { group = ""; plural = "persistentvolumeclaims" }
api_names Kind.database = record { group = "k8s.mariadb.com"; plural = "databases" }
api_names Kind.user = record { group = "k8s.mariadb.com"; plural = "users" }
api_names Kind.grant = record { group = "k8s.mariadb.com"; plural = "grants" }

api_names-Documented : Documented api_names
unfolding group_version
api_names-Documented = record {
  site = refl;
  secret = refl;
  config_map = refl;
  deployment = refl;
  service = refl;
  ingress = refl;
  pvc = refl;
  database = refl;
  user = refl;
  grant = refl;
}

rules-suffice_example :
    ((r : SiteReconciler) (hash : String → String) (e : Entropy)
      → reconcile small_library (permitted api_names recorder) r hash e
        ≡ reconcile small_library recorder r hash e)
    × ((get : HttpGet Log) (built : Option Error)
        → run_wp_cron_once (permitted api_names recorder) get built
          ≡ run_wp_cron_once recorder get built)
rules-suffice_example = rules-suffice api_names api_names-Documented small_library recorder

unnamed-on : provision_enabled unnamed_site ≡ true
unfolding provision_enabled
unnamed-on = refl

-- The Site that names no cluster, and an operator that is given a default.
resolve_maria_db_ref-flags_example :
    resolve_maria_db_ref unnamed_site (site_reconciler http2_flags).default_maria_db_ref
    ≡ ok (record { name = "maria"; namespace = "" })
resolve_maria_db_ref-flags_example =
    resolve_maria_db_ref-flags http2_flags unnamed_site unnamed-on refl

-- Asking for help is no misuse, an unknown flag is one.
help_exits : refused_status (("leader-elect", "true") ∷ ("help", "true") ∷ []) default_flags ≡ 0
unfolding refused_status set_flag assign variables parse_bool lookup
help_exits = refl

unknown_exits : refused_status (("colour", "red") ∷ []) default_flags ≡ 2
unfolding refused_status set_flag variables lookup
unknown_exits = refl
