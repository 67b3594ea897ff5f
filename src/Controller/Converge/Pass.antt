-- ===== src/Controller/Converge/Pass.antt =====
-- One pass over the objects of a Site but its claim.
use site_operator.Common.{
  String, false, Option, none, some, [], ◌∷◌, ◌≡◌, ◌≢◌, inl, inr, refl, ap, ◌<>◌, subst, arith,
  Bool-cases, eq_iff, ◌==◌, if◌then◌else◌,
}
use text.Mathlib.TextLemmas.{append_cancel_left}
use site_operator.Common.Outcome.{ok}
use site_operator.Api.Site.{Site, IngressSpec, MariaDbClusterRef}
use site_operator.Kube.Meta.{Key}
use site_operator.Kube.Objects.{Kind}
use site_operator.Kube.Action.{◌>>=◌, ◌>>◌}
use site_operator.Kube.Library.{Library, OwnerLaws, ErrorLaws}
use site_operator.Kube.Client.{Client, M}
use site_operator.Kube.Server.{Server, ServerLaws}
use site_operator.Helpers.{provision_enabled}
use site_operator.Secret.{Entropy, reconcile_secret}
use site_operator.Provision.{
  resolve_maria_db_ref, to_maria_db_ref, reconcile_maria_db, reconcile_database_provision,
}
use site_operator.Deployment.{reconcile_deployment}
use site_operator.Service.{reconcile_service}
use site_operator.Ingress.{new_ingress, reconcile_ingress, wanted_of}
use site_operator.Controller.{SiteReconciler, site_labels, site_envs}
use site_operator.Controller.Converge.Ensure.{Done, retry-Done}
use site_operator.Controller.Converge.Stages.{
  Stage, done-Grants, nothing-Stage, wrap-Stage, seq-Stage,
}
use site_operator.Controller.Converge.Shapes.{
  key, secret_wish, database_wishes, nginx_wish, php_wish, deployment_wish, service_wish,
  ingress_wish, front_wishes,
}
use site_operator.Controller.Converge.Objects.{
  secret-Done, config_map-Done, deployment-Done, service-Done, database-Done, user-Done, grant-Done,
}
use site_operator.Controller.Converge.Optional.{delete-Done, ingress-write}

-- With provisioning enabled, the cluster for the Site's database is `r`.
abbrev pub Resolves : Site → Option MariaDbClusterRef → MariaDbClusterRef → Type 0
Resolves site default r =
    if provision_enabled site then resolve_maria_db_ref site default ≡ ok r else Unit {0}

module _ (lib : Library) (laws : OwnerLaws lib) (errors : ErrorLaws lib) (site : Site) {c : Client}
    (s : Server c) (sl : ServerLaws s) where
  suffix :
      (a b : String)
      → (a == b) ≡ false
      → key lib site (site.meta.name <> a) ≢ key lib site (site.meta.name <> b)
  suffix a b h e =
      let same = append_cancel_left site.meta.name a b (ap (λ (n : Key). n.name) e) in
      ground (arith, eq_iff a b)

  secret-Stage :
      (e : Entropy) → Stage lib site s (reconcile_secret lib c e site) (secret_wish lib site ∷ [])
  secret-Stage e w up ours =
      done-Grants s (secret_wish lib site) (secret-Done lib laws site s sl w up e ours.0)

  database-Stage :
      (r : MariaDbClusterRef)
      → Stage lib site s
          (reconcile_maria_db lib c site (to_maria_db_ref r))
          (database_wishes lib site r)
  unfolding reconcile_maria_db
  database-Stage r =
      seq-Stage lib site s _ _ _ _
        (seq-Stage lib site s _ _ _ _
          (wrap-Stage lib site s _ _ _
            λ w up ours. done-Grants s _ (database-Done lib laws site s sl w up r ours.0))
          (wrap-Stage lib site s _ _ _
            λ w up ours. done-Grants s _ (user-Done lib laws site s sl w up r ours.0))
          (ground arith) (ground arith))
        (wrap-Stage lib site s _ _ _
          λ w up ours. done-Grants s _ (grant-Done lib laws site s sl w up r ours.0))
        (ground arith) (ground arith)

  provision-Stage :
      (default : Option MariaDbClusterRef) (r : MariaDbClusterRef)
      → Resolves site default r
      → Stage lib site s
          (reconcile_database_provision lib c site default)
          (if provision_enabled site then database_wishes lib site r else [])
  unfolding reconcile_database_provision ◌>>=◌
  provision-Stage default r resolves = elim (Bool-cases (provision_enabled site)) [
    | inl on ↦
        let resolved : resolve_maria_db_ref site default ≡ ok r =
          subst (λ b. if b then resolve_maria_db_ref site default ≡ ok r else Unit {0}) on
            resolves in
        rw (on, reconcile_database_provision) (rw (resolved, ◌>>=◌) (database-Stage r))
    | inr off ↦ rw (off, reconcile_database_provision) (nothing-Stage lib site s)
  ]

  workload-Stage :
      (hash : String → String)
      → Stage lib site s
          (reconcile_deployment lib c site hash (site_labels site) (site_envs site))
          (nginx_wish lib site ∷ php_wish lib site ∷ deployment_wish lib site hash ∷ [])
  unfolding reconcile_deployment
  workload-Stage hash =
      seq-Stage lib site s _ _ (nginx_wish lib site ∷ php_wish lib site ∷ []) _
        (seq-Stage lib site s _ _ _ _
          (λ w up ours.
            done-Grants s (nginx_wish lib site)
              (config_map-Done lib laws site s sl w up _ _ ours.0))
          (λ w up ours.
            done-Grants s (php_wish lib site) (config_map-Done lib laws site s sl w up _ _ ours.0))
          ((inr (suffix "-nginx" "-php" refl), tt), tt)
          ((inr (suffix "-php" "-nginx" refl), tt), tt))
        (λ w up ours.
          done-Grants s (deployment_wish lib site hash)
            (deployment-Done lib laws site s sl w up _ _ _ ours.0))
        (ground arith) (ground arith)

  service-Stage :
      Stage lib site s
        (reconcile_service lib c site (site_labels site))
        (service_wish lib site ∷ [])
  service-Stage w up ours =
      done-Grants s (service_wish lib site) (service-Done lib laws site s sl w up _ ours.0)

  ingress-Stage :
      Stage lib site s
        (reconcile_ingress lib c site (site_labels site))
        (ingress_wish lib site ∷ [])
  unfolding reconcile_ingress
  ingress-Stage w up ours =
      done-Grants s (ingress_wish lib site) (go (wanted_of site.spec.ingress) refl)
    where
      go :
          (x : Option IngressSpec)
          → wanted_of site.spec.ingress ≡ x
          → Done s Kind.ingress
              (key lib site (site.meta.name <> "-ingress"))
              w
              (reconcile_ingress lib c site (site_labels site) w)
              (ingress_wish lib site).Holds
      go none e =
          rw (e, reconcile_ingress)
            (delete-Done lib laws errors site s sl Kind.ingress (new_ingress site) w up ours.0)
      go (some i) e =
          rw (e, reconcile_ingress)
            (retry-Done lib laws site s sl _
              (ingress-write lib laws errors site s sl w up _ i ours.0))

  module _ (r : SiteReconciler) (hash : String → String) (e : Entropy) where
    -- The work on all objects but the claim.
    abbrev pub front : M c (Unit {0})
    front =
        reconcile_secret lib c e site
        >> reconcile_database_provision lib c site r.default_maria_db_ref
        >> reconcile_deployment lib c site hash (site_labels site) (site_envs site)
        >> reconcile_service lib c site (site_labels site)
        >> reconcile_ingress lib c site (site_labels site)

    pub front-Stage :
        (ref : MariaDbClusterRef)
        → Resolves site r.default_maria_db_ref ref
        → Stage lib site s front (front_wishes lib site hash ref)
    front-Stage ref resolves =
        seq-Stage lib site s _ _ _ _
          (seq-Stage lib site s _ _ _ _
            (seq-Stage lib site s _ _ _ _
              (seq-Stage lib site s _ _ _ _ (secret-Stage e)
                (provision-Stage r.default_maria_db_ref ref resolves) (ground arith) (ground arith))
              (workload-Stage hash) (ground arith) (ground arith))
            service-Stage (ground arith) (ground arith))
          ingress-Stage (ground arith) (ground arith)
