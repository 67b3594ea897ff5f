-- ===== src/Controller/Safety.antt =====
-- What the operator can do to a cluster, whatever the API server answers.
mod Writes
use site_operator.Common.{
  String, Option, none, some, List, Dict, ◌≡◌, refl, subst, true, false, ◌<>◌,
}
use site_operator.Common.{Bool, Bool-cases, inl, inr}
use site_operator.Common.Outcome.{Outcome, ok, err, panic, Error, wrapped}
use site_operator.Api.Site.{Site, IngressSpec, PersistenceSpec, MariaDbClusterRef}
use site_operator.Kube.Meta.{Key, ObjectMeta, object_key}
use site_operator.Kube.Pod.{EnvVar}
use site_operator.Kube.Objects.{Kind, Obj, Deployment, meta_of, MariaDbRef, Quantity}
use site_operator.Kube.Library.{Library, OwnerLaws}
use site_operator.Kube.Action.{Action, ◌>>=◌, ◌>>◌, wrap_err, lift, pure}
use site_operator.Kube.Client.{Client, M}
use site_operator.Kube.Keeps.{Keeps, Permits, bind-Keeps, wrap_err-Keeps, delete_owned-Keeps}
use site_operator.Helpers.{provision_enabled, new_meta}
use site_operator.Secret.{Entropy, reconcile_secret, mutate_secret}
use site_operator.Provision.{
  reconcile_database_provision, reconcile_maria_db, reconcile_database, reconcile_user,
  reconcile_grant, mutate_database, mutate_user, mutate_grant, resolve_maria_db_ref,
  to_maria_db_ref,
}
use site_operator.Deployment.{
  reconcile_deployment, reconcile_config_map, reconcile_deployment_object, mutate_config_map,
  mutate_deployment,
}
use site_operator.Service.{reconcile_service, mutate_service}
use site_operator.Ingress.{reconcile_ingress, mutate_ingress, wanted_of, new_ingress}
use site_operator.Pvc.{reconcile_pvc, mutate_pvc, managed_persistence, new_pvc}
use site_operator.Controller.{
  SiteReconciler, reconcile_objects, reconcile, reconcile_found, update_site_status, try_status,
  deferring_status, error_of, with_current, with_deployment, write_status,
}
use Writes.{
  secret-Keeps, provision-Keeps, deployment-Keeps, service-Keeps, ingress-Keeps, pvc-Keeps,
}

module _ (lib : Library) (laws : OwnerLaws lib) (c : Client) (site : Site) {P : c.World → Type 0}
    (h : Permits lib c site P) where
  objects-Keeps :
      (r : SiteReconciler) (hash : String → String) (e : Entropy)
      → Keeps P (reconcile_objects lib c r hash e site)
  unfolding reconcile_objects
  objects-Keeps r hash e =
      bind-Keeps _ _
        (bind-Keeps _ _
          (bind-Keeps _ _
            (bind-Keeps _ _
              (bind-Keeps _ _ (secret-Keeps lib laws c site h e)
                (λ _. provision-Keeps lib laws c site h r.default_maria_db_ref))
              (λ _. deployment-Keeps lib laws c site h hash _ _))
            (λ _. service-Keeps lib laws c site h _))
          (λ _. ingress-Keeps lib laws c site h _))
        (λ _. pvc-Keeps lib laws c site h r.default_storage_class_name)

  with_deployment-Keeps :
      (current : Site) (w w' : c.World)
      → c.get Kind.site (object_key site.meta) w ≡ (ok current, w')
      → P w
      → (x : Option Error) (o : Outcome Deployment) → Keeps P (with_deployment lib c current x o)
  unfolding with_deployment write_status
  with_deployment-Keeps current w w' got p x (ok d) w'' p'' =
      h.status_keeps current _ w w' w'' got p p''
  with_deployment-Keeps current w w' got p x (err e) w'' p'' =
      h.status_keeps current _ w w' w'' got p p''
  with_deployment-Keeps current w w' got p x (panic s) w'' p'' = p''

  with_current-Keeps :
      (x : Option Error) (o : Outcome Site) (w w' : c.World)
      → c.get Kind.site (object_key site.meta) w ≡ (o, w')
      → P w
      → P w'
      → P (with_current lib c x o w').1
  unfolding with_current
  with_current-Keeps x (ok s) w w' got p p' =
      let n = object_key s.meta in
      let (d, w'') = c.get Kind.deployment n w' in
      with_deployment-Keeps s w w' got p x d w'' (h.get_keeps Kind.deployment n w' p')
  with_current-Keeps x (err e) w w' got p p' = p'
  with_current-Keeps x (panic s) w w' got p p' = p'

  status-Keeps : (x : Option Error) → Keeps P (update_site_status lib c site x)
  unfolding update_site_status try_status
  status-Keeps x = h.retry_keeps _ λ w p.
      let n = object_key site.meta in
      let (o, w') = c.get Kind.site n w in
      with_current-Keeps x o w w' refl p (h.get_keeps Kind.site n w p)

  deferring-Keeps :
      (body : M c (Unit {0})) → Keeps P body → Keeps P (deferring_status lib c site body)
  unfolding deferring_status
  deferring-Keeps body hb w p = let (o, w') = body w in status-Keeps (error_of o) w' (hb w p)

-- Whatever the API server answers, in whatever order calls fail or panic, handling a request for a
-- Site keeps every property of the cluster that withstands reads, waiting, updates of the status of
-- the Site as it was read, writes under the Site's own names by which the Site claims an object that
-- nobody else controlled, and deletions under such names of objects just read that the Site
-- controls.
pub reconcile-Keeps :
    (lib : Library)
    → OwnerLaws lib
    → (c : Client) (r : SiteReconciler) (hash : String → String) (e : Entropy) (key : Key)
      (w w1 : c.World) (site : Site) {P : c.World → Type 0}
    → c.get Kind.site key w ≡ (ok site, w1)
    → Permits lib c site P
    → P w
    → P (reconcile lib c r hash e key w).1
unfolding reconcile reconcile_found
reconcile-Keeps lib laws c r hash e key w w1 site {P} found h p =
    rw (found, reconcile)
      (deferring-Keeps lib laws c site h _ (objects-Keeps lib laws c site h r hash e) w1
        (subst (λ (x : Outcome Site × c.World). P x.1) found (h.get_keeps Kind.site key w p)))
