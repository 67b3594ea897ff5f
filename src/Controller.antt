-- ===== src/Controller.antt =====
-- internal/controller/site_controller.go
pub mod Safety
pub mod Converge
pub mod Report
pub mod EndToEnd
pub mod Malformed
pub mod Spares
pub mod Permissions
pub mod Independent
pub mod Twice
pub mod NoCluster
pub mod Refused
pub mod Histories
use site_operator.Common.{String, Option, none, some, List, [], ◌∷◌, ◌++◌, Dict}
use site_operator.Common.Outcome.{Outcome, ok, err, panic, Error, from_error}
use site_operator.Api.Site.{Site, MariaDbClusterRef}
use site_operator.Kube.Meta.{Key, object_key}
use site_operator.Kube.Pod.{EnvVar}
use site_operator.Kube.Objects.{Kind, Deployment}
use site_operator.Kube.Library.{Library}
use site_operator.Kube.Action.{◌>>◌}
use site_operator.Kube.Client.{Client, M}
use site_operator.Helpers.{build_wp_envs, build_database_envs}
use site_operator.Secret.{Entropy, reconcile_secret}
use site_operator.Provision.{reconcile_database_provision}
use site_operator.Deployment.{reconcile_deployment, zero_deployment}
use site_operator.Service.{reconcile_service}
use site_operator.Ingress.{reconcile_ingress}
use site_operator.Pvc.{reconcile_pvc}
use site_operator.Status.{set_site_conditions}

-- The fields of a SiteReconciler beside its client.
pub record SiteReconciler : Type 0 where
  pub default_maria_db_ref : Option MariaDbClusterRef
  pub default_storage_class_name : String

abbrev pub site_labels : Site → Dict String
site_labels site = ("app", site.meta.name) ∷ []

unfoldable pub site_envs : Site → List EnvVar
site_envs site = build_wp_envs site ++ build_database_envs site

-- The error that the deferred call is shown: nil when the body panicked.
abbrev pub error_of : Outcome (Unit {0}) → Option Error
error_of (ok u) = none
error_of (err e) = some e
error_of (panic s) = none

-- The deferred call's own error takes the place of none but a success.
abbrev pub after_deferred : Outcome (Unit {0}) → Outcome (Unit {0}) → Outcome (Unit {0})
after_deferred (ok u) deferred = deferred
after_deferred (err e) (panic s) = panic s
after_deferred (err e) _ = err e
after_deferred (panic s) (panic t) = panic t
after_deferred (panic s) _ = panic s

module _ (lib : Library) (c : Client) where
  -- `hash` is SHA-256 in hexadecimal.
  unfoldable pub reconcile_objects :
      SiteReconciler → (hash : String → String) → Entropy → Site → M c (Unit {0})
  reconcile_objects r hash e site =
      reconcile_secret lib c e site
      >> reconcile_database_provision lib c site r.default_maria_db_ref
      >> reconcile_deployment lib c site hash (site_labels site) (site_envs site)
      >> reconcile_service lib c site (site_labels site)
      >> reconcile_ingress lib c site (site_labels site)
      >> reconcile_pvc lib c site r.default_storage_class_name

  -- The conditions written back, once the Site and its Deployment were read.
  unfoldable pub write_status : Site → Deployment → Option Error → Option Error → M c (Unit {0})
  write_status current deploy deploy_err reconcile_err w =
      let conditions =
        set_site_conditions lib (c.now w) current.status.conditions current.meta.generation deploy
          deploy_err reconcile_err in
      c.update_status (record current { status = record { conditions = conditions } }) w

  unfoldable pub with_deployment : Site → Option Error → Outcome Deployment → M c (Unit {0})
  unfolding write_status
  with_deployment current reconcile_err (ok deploy) w =
      write_status current deploy none reconcile_err w
  with_deployment current reconcile_err (err e) w =
      write_status current zero_deployment (some e) reconcile_err w
  with_deployment current reconcile_err (panic s) w = (panic s, w)

  unfoldable pub with_current : Option Error → Outcome Site → M c (Unit {0})
  unfolding with_deployment
  with_current reconcile_err (ok current) w =
      let (d, w') = c.get Kind.deployment (object_key current.meta) w in
      with_deployment current reconcile_err d w'
  with_current reconcile_err (err e) w = (from_error (lib.ignore_not_found (some e)), w)
  with_current reconcile_err (panic s) w = (panic s, w)

  -- One attempt of updateSiteStatus.
  unfoldable pub try_status : Site → Option Error → M c (Unit {0})
  unfolding with_current
  try_status site reconcile_err w =
      let (o, w') = c.get Kind.site (object_key site.meta) w in with_current reconcile_err o w'

  unfoldable pub update_site_status : Site → Option Error → M c (Unit {0})
  update_site_status site reconcile_err = c.retry_on_conflict (try_status site reconcile_err)

  -- `body` with the deferred status update behind it, which runs on every way out.
  unfoldable pub deferring_status : Site → M c (Unit {0}) → M c (Unit {0})
  deferring_status site body w =
      let (o, w') = body w in
      let (d, w'') = update_site_status site (error_of o) w' in (after_deferred o d, w'')

  module _ (r : SiteReconciler) (hash : String → String) (e : Entropy) where
    unfoldable pub reconcile_found : Outcome Site → M c (Unit {0})
    reconcile_found (ok site) w = deferring_status site (reconcile_objects r hash e site) w
    reconcile_found (err x) w = (from_error (lib.ignore_not_found (some x)), w)
    reconcile_found (panic s) w = (panic s, w)

    unfoldable pub reconcile : Key → M c (Unit {0})
    unfolding reconcile_found
    reconcile key w = let (o, w') = c.get Kind.site key w in reconcile_found o w'
