-- ===== src/Manager.antt =====
-- The manager's start-up, cmd/main.go. What `main` calls of controller-runtime is a parameter. Log
-- lines and the flags of the logger are left out.
pub mod CommandLine
pub mod Servers
pub mod Watches
pub mod Exits
pub mod Follows
pub mod Defaults
pub mod Types
use site_operator.Common.{
  ℕ, String, Bool, true, false, Option, none, some, List, [], ◌∷◌, ◌==◌, if◌then◌else◌,
}
use site_operator.Common.Outcome.{Outcome, ok, err, panic, Error}
use site_operator.Api.Site.{MariaDbClusterRef}
use site_operator.Kube.Objects.{Kind}
use site_operator.Kube.Action.{Action, ◌>>=◌, ◌>>◌}
use site_operator.Kube.Client.{Client, M}
use site_operator.Controller.{SiteReconciler}
use site_operator.WpCron.{HttpGet, run_wp_cron_once}
use site_operator.Manager.CommandLine.{Flags, default_flags, parse, refused_status}
use site_operator.Manager.Servers.{WebhookOptions, MetricsOptions, webhook_options, metrics_options}
use site_operator.Manager.Watches.{Builder, site_builder, disable_for}

-- `ctrl.Options`, in the fields that `main` sets.
pub record ManagerOptions : Type 0 where
  pub disable_for : List Kind
  pub metrics : MetricsOptions
  pub webhook_server : WebhookOptions
  pub health_probe_bind_address : String
  pub leader_election : Bool
  pub leader_election_id : String

unfoldable pub manager_options : Flags → ManagerOptions
manager_options f = record {
  disable_for = disable_for;
  metrics = metrics_options f;
  webhook_server = webhook_options f;
  health_probe_bind_address = f.probe_addr;
  leader_election = f.enable_leader_election;
  leader_election_id = "f82ecd3f.propastinv";
}

unfoldable pub default_maria_db_ref : Flags → Option MariaDbClusterRef
default_maria_db_ref f =
    if f.default_maria_db_name == ""
    then none
    else some (record { name = f.default_maria_db_name; namespace = f.default_maria_db_namespace })

unfoldable pub site_reconciler : Flags → SiteReconciler
site_reconciler f = record {
  default_maria_db_ref = default_maria_db_ref f;
  default_storage_class_name = f.default_storage_class_name;
}

-- What `main` calls: `get_config` is `ctrl.GetConfigOrDie`, an error of which ends the process with
-- status 1, `new_manager` is `ctrl.NewManager`, `complete` the builder's `Complete`, `start` is
-- `mgr.Start`, and `built` the error of `client.New`.
pub record Platform : Type 1 where
  pub client : Client
  pub get_config : M client (Unit {0})
  pub new_manager : ManagerOptions → M client (Unit {0})
  pub complete : Builder → SiteReconciler → M client (Unit {0})
  pub add_healthz_check : String → M client (Unit {0})
  pub add_readyz_check : String → M client (Unit {0})
  pub start : M client (Unit {0})
  pub http_get : HttpGet client.World
  pub built : Option Error

-- How the process ends: with a status, or by a panic.
pub data Exit : Type 0 where
  exited : ℕ → Exit
  crashed : String → Exit

abbrev pub exit_of : Outcome (Unit {0}) → Exit
exit_of (ok u) = exited 0
exit_of (err e) = exited 1
exit_of (panic s) = crashed s

abbrev pub exit_with : {W : Type 0} → Action W (Unit {0}) → W → Exit × W
exit_with m w = let (o, w') = m w in (exit_of o, w')

module _ (p : Platform) where
  unfoldable pub setup_with_manager : SiteReconciler → M p.client (Unit {0})
  setup_with_manager r = p.complete site_builder r

  unfoldable pub start_manager : Flags → M p.client (Unit {0})
  start_manager f =
      p.get_config
      >> p.new_manager (manager_options f)
      >> setup_with_manager (site_reconciler f)
      >> p.add_healthz_check "healthz"
      >> p.add_readyz_check "readyz"
      >> p.start

  unfoldable pub run_wp_cron_job : M p.client (Unit {0})
  run_wp_cron_job = p.get_config >> run_wp_cron_once p.client p.http_get p.built

  unfoldable pub run : Flags → p.client.World → Exit × p.client.World
  unfolding run_wp_cron_job
  run f = exit_with (if f.run_wp_cron then run_wp_cron_job else start_manager f)

  -- A command line that is refused ends the process in `flag.Parse`.
  unfoldable pub main : List (String × String) → p.client.World → Exit × p.client.World
  main args w = elim (parse args default_flags) [
    | none ↦ (exited (refused_status args default_flags), w)
    | some f ↦ run f w
  ]
