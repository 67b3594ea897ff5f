-- ===== src/Controller/Safety/Writes.antt =====
-- The calls that write the objects of one Site keep what the API server lets them keep.
use site_operator.Common.{String, Option, none, some, List, Dict, ◌≡◌, refl}
use site_operator.Common.{Bool-cases, inl, inr}
use site_operator.Common.Outcome.{Outcome, ok}
use site_operator.Api.Site.{Site, IngressSpec, PersistenceSpec, MariaDbClusterRef}
use site_operator.Kube.Pod.{EnvVar}
use site_operator.Kube.Objects.{Kind, Obj, meta_of, key_of, MariaDbRef, Quantity}
use site_operator.Kube.Library.{Library, OwnerLaws}
use site_operator.Kube.Client.{Client}
use site_operator.Kube.Keeps.{
  Keeps, Permits, bind-Keeps, wrap_err-Keeps, map_ok-Claims, Claims, delete_owned-Keeps,
}
use site_operator.Helpers.{provision_enabled}
use site_operator.Helpers.Own.{IsOwnName, own_key}
use site_operator.Secret.{Entropy, reconcile_secret, mutate_secret}
use site_operator.Provision.{
  reconcile_database_provision, reconcile_maria_db, reconcile_database, reconcile_user,
  reconcile_grant, mutate_database, mutate_user, mutate_grant, to_maria_db_ref,
}
use site_operator.Deployment.{
  reconcile_deployment, reconcile_config_map, reconcile_deployment_object, mutate_config_map,
  mutate_deployment,
}
use site_operator.Service.{reconcile_service, mutate_service}
use site_operator.Ingress.{reconcile_ingress, mutate_ingress, wanted_of}
use site_operator.Pvc.{reconcile_pvc, mutate_pvc, managed_persistence}

module _ (lib : Library) (laws : OwnerLaws lib) (c : Client) (site : Site) {P : c.World → Type 0}
    (h : Permits lib c site P) where
  -- Writing an object under a name of the Site's, with a callback that sets the owner.
  ensure-Keeps :
      (k : Kind) (o : Obj k) (f : Obj k → Outcome (Obj k))
      → IsOwnName site k (key_of k o)
      → ((x y : Obj k) → f x ≡ ok y → Claims lib site.meta (meta_of k x) (meta_of k y))
      → Keeps P (c.retry_on_conflict (c.create_or_update k o f))
  ensure-Keeps k o f ns controlled = h.retry_keeps _ (h.write_keeps k o f ns controlled)

  pub secret-Keeps : (e : Entropy) → Keeps P (reconcile_secret lib c e site)
  unfolding reconcile_secret mutate_secret
  secret-Keeps e =
      h.write_keeps Kind.secret _ _ refl (λ x y done.
        map_ok-Claims lib laws Kind.secret _ (λ m. refl) site.meta _ _ refl refl y done)

  database-Keeps : (ref : MariaDbRef) → Keeps P (reconcile_database lib c site ref)
  unfolding reconcile_database mutate_database
  database-Keeps ref = ensure-Keeps Kind.database _ _ refl (λ x y done.
      map_ok-Claims lib laws Kind.database _ (λ m. refl) site.meta _ _ refl refl y done)

  user-Keeps : (ref : MariaDbRef) → Keeps P (reconcile_user lib c site ref)
  unfolding reconcile_user mutate_user
  user-Keeps ref =
      ensure-Keeps Kind.user _ _ refl
        (λ x y done. map_ok-Claims lib laws Kind.user _ (λ m. refl) site.meta _ _ refl refl y done)

  grant-Keeps : (ref : MariaDbRef) → Keeps P (reconcile_grant lib c site ref)
  unfolding reconcile_grant mutate_grant
  grant-Keeps ref =
      ensure-Keeps Kind.grant _ _ refl
        (λ x y done. map_ok-Claims lib laws Kind.grant _ (λ m. refl) site.meta _ _ refl refl y done)

  maria_db-Keeps : (ref : MariaDbRef) → Keeps P (reconcile_maria_db lib c site ref)
  unfolding reconcile_maria_db
  maria_db-Keeps ref =
      bind-Keeps _ _
        (bind-Keeps _ _ (wrap_err-Keeps _ _ (database-Keeps ref))
          (λ _. wrap_err-Keeps _ _ (user-Keeps ref)))
        (λ _. wrap_err-Keeps _ _ (grant-Keeps ref))

  pub provision-Keeps :
      (default : Option MariaDbClusterRef)
      → Keeps P (reconcile_database_provision lib c site default)
  unfolding reconcile_database_provision
  provision-Keeps default = elim (Bool-cases (provision_enabled site)) [
    | inl on ↦ rw on (bind-Keeps _ _ (λ w p. p) (λ ref. maria_db-Keeps (to_maria_db_ref ref)))
    | inr off ↦ rw off (λ w p. p)
  ]

  config_map-Keeps :
      (name : String) (contents : Dict String)
      → IsOwnName site Kind.config_map (own_key site name)
      → Keeps P (reconcile_config_map lib c site name contents)
  unfolding reconcile_config_map mutate_config_map
  config_map-Keeps name contents own = ensure-Keeps Kind.config_map _ _ own (λ x y done.
      map_ok-Claims lib laws Kind.config_map _ (λ m. refl) site.meta _ _ refl refl y done)

  pub deployment-Keeps :
      (hash : String → String) (labels : Dict String) (envs : List EnvVar)
      → Keeps P (reconcile_deployment lib c site hash labels envs)
  unfolding reconcile_deployment reconcile_deployment_object mutate_deployment
  deployment-Keeps hash labels envs =
      bind-Keeps _ _
        (bind-Keeps _ _ (config_map-Keeps _ _ (inl refl)) (λ _. config_map-Keeps _ _ (inr refl)))
        (λ _. ensure-Keeps Kind.deployment _ _ refl (λ x y done.
          map_ok-Claims lib laws Kind.deployment _ (λ m. refl) site.meta _ _ refl refl y done))

  pub service-Keeps : (labels : Dict String) → Keeps P (reconcile_service lib c site labels)
  unfolding reconcile_service mutate_service
  service-Keeps labels =
      ensure-Keeps Kind.service _ _ refl (λ x y done.
        map_ok-Claims lib laws Kind.service _ (λ m. refl) site.meta _ _ refl refl y done)

  pub ingress-Keeps : (labels : Dict String) → Keeps P (reconcile_ingress lib c site labels)
  unfolding reconcile_ingress mutate_ingress
  ingress-Keeps labels = go (wanted_of site.spec.ingress) refl
    where
      go :
          (o : Option IngressSpec)
          → wanted_of site.spec.ingress ≡ o
          → Keeps P (reconcile_ingress lib c site labels)
      go none e = rw (e, reconcile_ingress) (delete_owned-Keeps lib c site h Kind.ingress _ refl)
      go (some i) e =
          rw (e, reconcile_ingress)
            (ensure-Keeps Kind.ingress _ _ refl (λ x y done.
              map_ok-Claims lib laws Kind.ingress _ (λ m. refl) site.meta _ _ refl refl y done))

  mutate_pvc-Claims :
      (size : String) (class : Option String) (x y : Obj Kind.pvc)
      → mutate_pvc lib site size class x ≡ ok y
      → Claims lib site.meta (meta_of Kind.pvc x) (meta_of Kind.pvc y)
  unfolding mutate_pvc
  mutate_pvc-Claims size class x y = go (lib.parse_quantity size) refl
    where
      go :
          (q : Option Quantity)
          → lib.parse_quantity size ≡ q
          → mutate_pvc lib site size class x ≡ ok y
          → Claims lib site.meta (meta_of Kind.pvc x) (meta_of Kind.pvc y)
      go none e = rw (e, mutate_pvc) (λ done. cc)
      go (some q) e =
          rw (e, mutate_pvc)
            (λ done. map_ok-Claims lib laws Kind.pvc _ (λ m. refl) site.meta _ _ refl refl y done)

  pub pvc-Keeps : (default_class : String) → Keeps P (reconcile_pvc lib c site default_class)
  unfolding reconcile_pvc
  pvc-Keeps default_class = go (managed_persistence site.spec.persistence) refl
    where
      go :
          (o : Option PersistenceSpec)
          → managed_persistence site.spec.persistence ≡ o
          → Keeps P (reconcile_pvc lib c site default_class)
      go none e = rw (e, reconcile_pvc) (delete_owned-Keeps lib c site h Kind.pvc _ refl)
      go (some p) e = rw (e, reconcile_pvc) (ensure-Keeps Kind.pvc _ _ refl (mutate_pvc-Claims _ _))
