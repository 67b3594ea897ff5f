-- ===== src/Controller/Independent.antt =====
-- A Site that wants no database provisioned does not depend on mariadb-operator.
use site_operator.Common.{String, Bool, true, false, ◌≡◌, refl, ap, ◌∙◌, if◌then◌else◌}
use site_operator.Common.Outcome.{Outcome, ok}
use site_operator.Api.Site.{Site}
use site_operator.Kube.Meta.{Key}
use site_operator.Kube.Objects.{Kind, Obj}
use site_operator.Kube.Library.{Library}
use site_operator.Kube.Action.{◌>>◌}
use site_operator.Kube.Client.{Client, M}
use site_operator.Kube.Owned.{delete_owned, delete_found, delete_if_controlled}
use site_operator.Helpers.{provision_enabled}
use site_operator.Secret.{Entropy, reconcile_secret}
use site_operator.Provision.{reconcile_database_provision}
use site_operator.Deployment.{
  reconcile_deployment, reconcile_config_map, reconcile_deployment_object,
}
use site_operator.Service.{reconcile_service}
use site_operator.Ingress.{reconcile_ingress}
use site_operator.Pvc.{reconcile_pvc}
use site_operator.Controller.{
  SiteReconciler, reconcile_objects, site_labels, site_envs, reconcile, reconcile_found,
  deferring_status, update_site_status, try_status, with_current, with_deployment, write_status,
}

-- The kinds of mariadb-operator.
abbrev pub maria_db : Kind → Bool
maria_db Kind.database = true
maria_db Kind.user = true
maria_db Kind.grant = true
maria_db _ = false

-- Other answers to the calls on these kinds, such as those of a cluster that has no such kinds.
pub record Answers (c : Client) : Type 0 where
  pub get : (k : Kind) → Key → M c (Obj k)
  pub create_or_update : (k : Kind) → Obj k → (Obj k → Outcome (Obj k)) → M c (Unit {0})
  pub delete : (k : Kind) → Obj k → M c (Unit {0})

abbrev pub with_answers : (c : Client) → Answers c → Client
with_answers c a = record c {
  get = λ k. if maria_db k then a.get k else c.get k;
  create_or_update = λ k. if maria_db k then a.create_or_update k else c.create_or_update k;
  delete = λ k. if maria_db k then a.delete k else c.delete k;
}

module _ (lib : Library) (c : Client) (a : Answers c) where
  provision-Independent :
      (site : Site) (r : SiteReconciler)
      → provision_enabled site ≡ false
      → reconcile_database_provision lib (with_answers c a) site r.default_maria_db_ref
        ≡ reconcile_database_provision lib c site r.default_maria_db_ref
  unfolding reconcile_database_provision
  provision-Independent site r off = rw (off, reconcile_database_provision) refl

  objects-Independent :
      (r : SiteReconciler) (hash : String → String) (e : Entropy) (site : Site)
      → provision_enabled site ≡ false
      → reconcile_objects lib (with_answers c a) r hash e site
        ≡ reconcile_objects lib c r hash e site
  unfolding reconcile_objects reconcile_secret reconcile_deployment reconcile_config_map
      reconcile_deployment_object reconcile_service reconcile_ingress reconcile_pvc delete_owned
      delete_found delete_if_controlled
  objects-Independent r hash e site off =
      ap
        (λ (m : M c (Unit {0})).
          reconcile_secret lib c e site
          >> m
          >> reconcile_deployment lib c site hash (site_labels site) (site_envs site)
          >> reconcile_service lib c site (site_labels site)
          >> reconcile_ingress lib c site (site_labels site)
          >> reconcile_pvc lib c site r.default_storage_class_name)
        (provision-Independent site r off)

  status-Independent :
      (site : Site) (m : M c (Unit {0}))
      → deferring_status lib (with_answers c a) site m ≡ deferring_status lib c site m
  unfolding deferring_status update_site_status try_status with_current with_deployment write_status
  status-Independent site m = refl

  -- For a Site that wants no database provisioned, Reconcile does the same, whatever the API server
  -- answers to calls about the kinds of mariadb-operator: these may be missing from the cluster.
  pub reconcile-Independent :
      (r : SiteReconciler) (hash : String → String) (e : Entropy) (n : Key) (site : Site)
      (w w1 : c.World)
      → c.get Kind.site n w ≡ (ok site, w1)
      → provision_enabled site ≡ false
      → reconcile lib (with_answers c a) r hash e n w ≡ reconcile lib c r hash e n w
  unfolding reconcile reconcile_found
  reconcile-Independent r hash e n site w w1 got off =
      rw (got, reconcile, reconcile_found)
        (ap (λ (m : M c (Unit {0})). m w1)
          (status-Independent site (reconcile_objects lib (with_answers c a) r hash e site)
            ∙ ap (λ (m : M c (Unit {0})). deferring_status lib c site m)
                (objects-Independent r hash e site off)))
