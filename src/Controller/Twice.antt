-- ===== src/Controller/Twice.antt =====
-- More runs of Reconcile for the same Site.
use site_operator.Common.{
  String, Option, none, some, List, [], ◌∷◌, arith, ◌≡◌, refl, sym, ◌∙◌, subst,
}
use site_operator.Common.Outcome.{ok}
use site_operator.Api.Site.{Site, SiteStatus, MariaDbClusterRef}
use site_operator.Kube.Meta.{Key, object_key}
use site_operator.Kube.Objects.{Kind}
use site_operator.Kube.Library.{Library, OwnerLaws, ErrorLaws, ConditionLaws}
use site_operator.Kube.Action.{◌>>◌, ◌>>=◌, lift}
use site_operator.Kube.Client.{Client, M}
use site_operator.Kube.Server.{Server, ServerLaws, Frame}
use site_operator.Helpers.{
  provision_enabled, provisioned_username, build_wp_envs, build_database_envs,
}
use site_operator.Secret.{Entropy, mutate_secret, populate}
use site_operator.Secret.Keys.{generated_keys}
use site_operator.Provision.{mutate_database, mutate_user, mutate_grant, resolve_maria_db_ref}
use site_operator.Deployment.{
  mutate_config_map, mutate_deployment, build_deployment_spec, deployment_strategy_type,
  build_volumes, build_containers,
}
use site_operator.Deployment.Config.{
  build_nginx_config_content, build_php_ini_content, php_image, nginx_image, file_browser_image,
  wp_version,
}
use site_operator.Deployment.Containers.{
  build_wp_init_container, build_site_data_volume, build_php_fpm_container, build_nginx_container,
  build_file_browser_container,
}
use site_operator.Service.{service_ports, mutate_service}
use site_operator.Ingress.{ingress_paths, ingress_tls, mutate_ingress}
use site_operator.Pvc.{managed_persistence, mutate_pvc}
use site_operator.Controller.{SiteReconciler, reconcile, site_envs}
use site_operator.Controller.Converge.Stages.{Granted, AllOurs, Granted-others}
use site_operator.Controller.Converge.Shapes.{wishes}
use site_operator.Controller.Converge.Pass.{Resolves}
use site_operator.Controller.Converge.Claim.{SizeParses}
use site_operator.Controller.Converge.Again.{reconcile_objects-Rests}
use site_operator.Controller.Report.{Reports, verdict_on, reconcile-Reports}
use site_operator.Status.Verdict.{Shows}
use site_operator.Controller.EndToEnd.{site_wish, reconcile-Converges}

-- What is wanted does not depend on the status.
wishes-status :
    (lib : Library) (site : Site) (status : SiteStatus) (hash : String → String)
    (r : MariaDbClusterRef)
    → wishes lib (record site { status = status }) hash r ≡ wishes lib site hash r
unfolding generated_keys mutate_secret provision_enabled mutate_database provisioned_username
    mutate_user mutate_grant build_nginx_config_content build_php_ini_content site_envs
    service_ports mutate_service ingress_paths ingress_tls mutate_ingress mutate_pvc populate
    mutate_config_map build_wp_envs build_database_envs build_deployment_spec mutate_deployment
    deployment_strategy_type build_volumes build_wp_init_container build_containers
    build_site_data_volume php_image wp_version build_php_fpm_container build_nginx_container
    build_file_browser_container nginx_image file_browser_image
wishes-status lib site status hash r = refl

Resolves-status :
    (site : Site) (status : SiteStatus) (default : Option MariaDbClusterRef) (r : MariaDbClusterRef)
    → Resolves (record site { status = status }) default r ≡ Resolves site default r
unfolding provision_enabled resolve_maria_db_ref
Resolves-status site status default r = refl

module _ (lib : Library) (c : Client) (r : SiteReconciler) (hash : String → String) (n : Key) where
  -- One request after another for the same Site, each with random numbers of its own, until one
  -- fails.
  abbrev pub requests : List Entropy → M c (Unit {0})
  requests [] = lift (ok tt)
  requests (e ∷ es) = reconcile lib c r hash e n >> requests es

module _ (lib : Library) (laws : OwnerLaws lib) (errors : ErrorLaws lib)
    (conditions : ConditionLaws lib) {c : Client} (s : Server c) (sl : ServerLaws s) where
  -- At an API server that answers and that nobody else writes to, a request for a stored Site whose
  -- objects are all as it wants them succeeds and changes nothing but the status of the Site, which
  -- then says of the Deployment found what the verdict says when there is no error.
  pub reconcile-Rests :
      (r : SiteReconciler) (hash : String → String) (e : Entropy) (ref : MariaDbClusterRef)
      (n : Key) (site : Site) (w : c.World)
      → s.Serves w
      → s.stored Kind.site n w ≡ some site
      → Resolves site r.default_maria_db_ref ref
      → Granted s (wishes lib site hash ref) w
      → (w' : c.World) × (reconcile lib c r hash e n w ≡ (ok tt, w')) × Reports s site w none w'
  reconcile-Rests r hash e ref n site w up there resolves granted =
      let g = reconcile_objects-Rests lib errors site s sl r hash e ref resolves w up granted in
      let same : object_key site.meta ≡ n = sl.stored_key Kind.site n w site there in
      let still : s.stored Kind.site (object_key site.meta) g.after ≡ some site =
        g.same Kind.site (object_key site.meta)
        ∙ subst (λ m. s.stored Kind.site m w ≡ some site) (sym same) there in
      let (w', ran, reports) =
        reconcile-Reports lib conditions s sl r hash e n w w g.after site site (ok tt)
          (sl.get_found Kind.site n w site up there) g.succeeds g.serves still in
      (
        w',
        ran,
        record {
          conditions = reports.conditions;
          stored_site = reports.stored_site;
          shows =
              subst (λ o. Shows (verdict_on o none) site.meta.generation reports.conditions)
                (g.same Kind.deployment (object_key site.meta)) reports.shows;
          serves = reports.serves;
          frame = λ k m apart. reports.frame k m apart ∙ g.same k m;
        },
      )

  module _ (r : SiteReconciler) (hash : String → String) (ref : MariaDbClusterRef) (n : Key)
      (site : Site) (resolves : Resolves site r.default_maria_db_ref ref) where
    -- The Site is stored, with some status.
    abbrev pub IsStored : c.World → Type 0
    IsStored w =
        (status : SiteStatus) × (s.stored Kind.site n w ≡ some (record site { status = status }))

    pub Granted-Rests :
        (e : Entropy) (w : c.World)
        → s.Serves w
        → IsStored w
        → Granted s (wishes lib site hash ref) w
        → (w' : c.World) × (reconcile lib c r hash e n w ≡ (ok tt, w'))
          × s.Serves w'
          × IsStored w'
          × Frame s Kind.site n w w'
    Granted-Rests e w up (status, there) granted =
        let same : object_key site.meta ≡ n =
          sl.stored_key Kind.site n w (record site { status = status }) there in
        let (w', ran, reports) =
          reconcile-Rests r hash e ref n (record site { status = status }) w up there
            (subst (λ (A : Type 0). A)
              (sym (Resolves-status site status r.default_maria_db_ref ref)) resolves)
            (subst (λ ws. Granted s ws w) (sym (wishes-status lib site status hash ref)) granted) in
        (
          w',
          ran,
          reports.serves,
          (
            record { conditions = reports.conditions },
            subst
                (λ m.
                  s.stored Kind.site m w'
                  ≡ some (record site { status = record { conditions = reports.conditions } }))
                same reports.stored_site,
          ),
          subst (λ m. Frame s Kind.site m w w') same reports.frame,
        )

    requests-Rest :
        (es : List Entropy) (w : c.World)
        → s.Serves w
        → IsStored w
        → Granted s (wishes lib site hash ref) w
        → (w' : c.World) × (requests lib c r hash n es w ≡ (ok tt, w'))
          × IsStored w'
          × Frame s Kind.site n w w'
    unfolding ◌>>=◌
    requests-Rest [] w up there granted = (w, refl, there, λ k m apart. refl)
    requests-Rest (e ∷ es) w up there granted =
        let (w1, ran, up1, there1, frame1) = Granted-Rests e w up there granted in
        let (w2, rest, there2, frame2) = requests-Rest es w1 up1 there1 (
          Granted-others s w w1 (wishes lib site hash ref) (site_wish n ∷ [])
            (λ k m apart. frame1 k m apart.0) (ground arith) granted) in
        (w2, rw (ran, ◌>>=◌) rest, there2, λ k m apart. frame2 k m apart ∙ frame1 k m apart)

    -- Where Reconcile has done what a Site wants, any number of further requests for it, with
    -- whatever random numbers, succeed and change no object but the status of the Site: every other
    -- object stays what the first run made it.
    pub reconcile-Repeats :
        (e : Entropy) (es : List Entropy) (w : c.World)
        → s.Serves w
        → s.stored Kind.site n w ≡ some site
        → SizeParses lib (managed_persistence site.spec.persistence)
        → AllOurs lib site s (wishes lib site hash ref) w
        → (w' w'' : c.World) × (reconcile lib c r hash e n w ≡ (ok tt, w'))
          × (requests lib c r hash n es w' ≡ (ok tt, w''))
          × Granted s (wishes lib site hash ref) w'
          × IsStored w''
          × Frame s Kind.site n w' w''
    reconcile-Repeats e es w up there sized ours =
        let (worked, w', ran, granted, claimed, reports) =
          reconcile-Converges lib laws errors conditions s sl r hash e ref n site w up there
            resolves sized ours in
        let (w'', again, there', frame) =
          requests-Rest es w' reports.serves
            (
              record { conditions = reports.conditions },
              subst
                  (λ m.
                    s.stored Kind.site m w'
                    ≡ some (record site { status = record { conditions = reports.conditions } }))
                  (sl.stored_key Kind.site n w site there) reports.stored_site,
            )
            granted in
        (w', w'', ran, again, granted, there', frame)
