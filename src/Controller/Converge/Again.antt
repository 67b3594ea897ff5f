-- ===== src/Controller/Converge/Again.antt =====
-- A pass over objects that are as the Site wants them.
use site_operator.Common.{
  String, Option, none, some, [], ◌∷◌, ◌≡◌, refl, Bool-cases, inl, inr, subst, if◌then◌else◌,
}
use site_operator.Common.Outcome.{Outcome, ok}
use site_operator.Api.Site.{Site, MariaDbClusterRef, IngressSpec, PersistenceSpec}
use site_operator.Kube.Objects.{Kind, Obj, key_of}
use site_operator.Kube.Action.{◌>>=◌}
use site_operator.Kube.Library.{Library, ErrorLaws}
use site_operator.Kube.Client.{Client}
use site_operator.Kube.Server.{Server, ServerLaws, Rests}
use site_operator.Helpers.{provision_enabled}
use site_operator.Secret.{Entropy, reconcile_secret}
use site_operator.Provision.{
  resolve_maria_db_ref, to_maria_db_ref, reconcile_database, reconcile_user, reconcile_grant,
  reconcile_maria_db, reconcile_database_provision,
}
use site_operator.Deployment.{
  reconcile_deployment, reconcile_config_map, reconcile_deployment_object,
}
use site_operator.Service.{reconcile_service}
use site_operator.Ingress.{new_ingress, reconcile_ingress, wanted_of}
use site_operator.Pvc.{new_pvc, reconcile_pvc, managed_persistence}
use site_operator.Controller.{SiteReconciler, reconcile_objects, site_labels, site_envs}
use site_operator.Kube.Meta.{Key}
use site_operator.Controller.Converge.Ensure.{Is}
use site_operator.Controller.Converge.Stages.{Granted}
use site_operator.Controller.Converge.Shapes.{
  secret_wish, database_wishes, nginx_wish, php_wish, deployment_wish, service_wish, ingress_wish,
  pvc_wish, wishes, IsSecretOf, IsConfigMapOf, IsDeploymentOf, IsServiceOf, IsIngressOf, IsPvcOf,
  IsDatabaseOf, IsUserOf, IsGrantOf,
}
use site_operator.Controller.Converge.Pass.{Resolves}
use site_operator.Controller.Converge.Rest.{
  Resting, seq-Resting, wrap-Resting, nothing-Rests, unchanged-Resting, retry-Resting,
  delete-Resting,
}

module _ (lib : Library) (errors : ErrorLaws lib) (site : Site) {c : Client} (s : Server c)
    (sl : ServerLaws s) where
  -- One object, under RetryOnConflict.
  write-Resting :
      (k : Kind) (o : Obj k) (n : Key) (f : Obj k → Outcome (Obj k)) (P : Obj k → Type 0)
      → key_of k o ≡ n
      → ((x : Obj k) → P x → f x ≡ ok x)
      → Resting s
          (c.retry_on_conflict (c.create_or_update k o f))
          (record { kind = k; name = n; Holds = Is P } ∷ [])
  write-Resting k o n f P named settled =
      retry-Resting s sl _ _ (unchanged-Resting s sl k o n f P named settled)

  secret-Resting :
      (e : Entropy) → Resting s (reconcile_secret lib c e site) (secret_wish lib site ∷ [])
  unfolding reconcile_secret
  secret-Resting e =
      unchanged-Resting s sl Kind.secret _ _ _ (IsSecretOf lib site) refl
        (λ x (_, _, settled). settled e)

  database-Resting :
      (r : MariaDbClusterRef)
      → Resting s (reconcile_maria_db lib c site (to_maria_db_ref r)) (database_wishes lib site r)
  unfolding reconcile_maria_db reconcile_database reconcile_user reconcile_grant
  database-Resting r =
      seq-Resting s _ _ (_ ∷ _ ∷ []) (_ ∷ [])
        (seq-Resting s _ _ (_ ∷ []) (_ ∷ [])
          (wrap-Resting s _ _ _ (
            write-Resting Kind.database _ _ _ (IsDatabaseOf lib site r) refl
              (λ x (_, _, _, settled). settled)))
          (wrap-Resting s _ _ _ (
            write-Resting Kind.user _ _ _ (IsUserOf lib site r) refl
              (λ x (_, _, _, _, settled). settled))))
        (wrap-Resting s _ _ _ (
          write-Resting Kind.grant _ _ _ (IsGrantOf lib site r) refl
            (λ x (_, _, _, _, _, _, settled). settled)))

  provision-Resting :
      (default : Option MariaDbClusterRef) (r : MariaDbClusterRef)
      → Resolves site default r
      → Resting s
          (reconcile_database_provision lib c site default)
          (if provision_enabled site then database_wishes lib site r else [])
  unfolding reconcile_database_provision ◌>>=◌
  provision-Resting default r resolves = elim (Bool-cases (provision_enabled site)) [
    | inl on ↦
        let resolved : resolve_maria_db_ref site default ≡ ok r =
          subst (λ b. if b then resolve_maria_db_ref site default ≡ ok r else Unit {0}) on
            resolves in
        rw (on, reconcile_database_provision) (rw (resolved, ◌>>=◌) (database-Resting r))
    | inr off ↦
        rw (off, reconcile_database_provision) (record { rest = λ w up _. nothing-Rests s w up })
  ]

  workload-Resting :
      (hash : String → String)
      → Resting s
          (reconcile_deployment lib c site hash (site_labels site) (site_envs site))
          (nginx_wish lib site ∷ php_wish lib site ∷ deployment_wish lib site hash ∷ [])
  unfolding reconcile_deployment reconcile_config_map reconcile_deployment_object
  workload-Resting hash =
      seq-Resting s _ _ (nginx_wish lib site ∷ php_wish lib site ∷ []) (_ ∷ [])
        (seq-Resting s _ _ (nginx_wish lib site ∷ []) (php_wish lib site ∷ [])
          (write-Resting Kind.config_map _ _ _ (IsConfigMapOf lib site _) refl
            (λ x (_, _, settled). settled))
          (write-Resting Kind.config_map _ _ _ (IsConfigMapOf lib site _) refl
            (λ x (_, _, settled). settled)))
        (write-Resting Kind.deployment _ _ _ (IsDeploymentOf lib site _ _ _) refl
          (λ x (_, _, _, settled). settled))

  service-Resting :
      Resting s (reconcile_service lib c site (site_labels site)) (service_wish lib site ∷ [])
  unfolding reconcile_service
  service-Resting =
      write-Resting Kind.service _ _ _ (IsServiceOf lib site (site_labels site)) refl
        (λ x (_, _, _, _, settled). settled)

  ingress-Resting :
      Resting s (reconcile_ingress lib c site (site_labels site)) (ingress_wish lib site ∷ [])
  unfolding reconcile_ingress
  ingress-Resting = go (wanted_of site.spec.ingress) refl
    where
      go :
          (x : Option IngressSpec)
          → wanted_of site.spec.ingress ≡ x
          → Resting s (reconcile_ingress lib c site (site_labels site)) (ingress_wish lib site ∷ [])
      go none e =
          rw (e, reconcile_ingress)
            (delete-Resting s sl lib errors Kind.ingress (new_ingress site) _ site refl)
      go (some i) e =
          rw (e, reconcile_ingress)
            (write-Resting Kind.ingress (new_ingress site) _ _
              (IsIngressOf lib site (site_labels site) i) refl
              (λ x (_, _, _, _, _, _, settled). settled))

  pvc-Resting :
      (class : String) → Resting s (reconcile_pvc lib c site class) (pvc_wish lib site ∷ [])
  unfolding reconcile_pvc
  pvc-Resting class = go (managed_persistence site.spec.persistence) refl
    where
      go :
          (x : Option PersistenceSpec)
          → managed_persistence site.spec.persistence ≡ x
          → Resting s (reconcile_pvc lib c site class) (pvc_wish lib site ∷ [])
      go none e =
          rw (e, reconcile_pvc) (delete-Resting s sl lib errors Kind.pvc (new_pvc site) _ site refl)
      go (some p) e =
          rw (e, reconcile_pvc)
            (write-Resting Kind.pvc (new_pvc site) _ _ (IsPvcOf lib site p) refl
              (λ x (_, _, _, settled). settled _))

  -- At an API server that answers, where every object is as the Site wants it, the work on the
  -- objects succeeds and changes none of them.
  pub reconcile_objects-Rests :
      (r : SiteReconciler) (hash : String → String) (e : Entropy) (ref : MariaDbClusterRef)
      → Resolves site r.default_maria_db_ref ref
      → (w : c.World) → s.Serves w
      → Granted s (wishes lib site hash ref) w
      → Rests s w (reconcile_objects lib c r hash e site w)
  unfolding reconcile_objects
  reconcile_objects-Rests r hash e ref resolves =
      (seq-Resting s _ _ _ _
        (seq-Resting s _ _ _ _
          (seq-Resting s _ _ _ _
            (seq-Resting s _ _ _ _
              (seq-Resting s _ _ _ _ (secret-Resting e)
                (provision-Resting r.default_maria_db_ref ref resolves))
              (workload-Resting hash))
            service-Resting)
          ingress-Resting)
        (pvc-Resting r.default_storage_class_name)).rest
