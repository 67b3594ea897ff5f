-- ===== src/Wiring/Fallbacks.antt =====
-- Texts that a Site leaves out: the code falls back to the markers' defaults by itself.
use site_operator.Common.{
  String, false, Bool-cases, inl, inr, Option, none, some, ◌≡◌, refl, sym, ap, ◌∙◌, subst, ◌==◌,
  eq_iff, ◌&&◌,
}
use site_operator.Api.Site.{Site, SiteSpec, PersistenceSpec, FileBrowserSpec}
use site_operator.Api.Defaults.{or_default, default_persistence, default_wordpress}
use site_operator.Kube.Owned.{delete_owned}
use site_operator.Kube.Library.{Library}
use site_operator.Kube.Action.{◌>>◌}
use site_operator.Kube.Client.{Client, M}
use site_operator.Secret.{Entropy, reconcile_secret, mutate_secret, populate, file_browser_enabled}
use site_operator.Controller.{SiteReconciler, reconcile_objects, site_envs, site_labels}
use site_operator.Helpers.{
  provision_enabled, provisioned_username, build_wp_envs, build_database_envs,
}
use site_operator.Provision.{
  reconcile_database_provision, reconcile_maria_db, reconcile_database, reconcile_user,
  reconcile_grant, mutate_database, mutate_user, mutate_grant, resolve_maria_db_ref,
}
use site_operator.Deployment.{
  reconcile_deployment, reconcile_config_map, reconcile_deployment_object, mutate_config_map,
  mutate_deployment, build_deployment_spec, deployment_strategy_type, build_volumes,
  build_containers,
}
use site_operator.Deployment.Config.{
  build_nginx_config_content, build_php_ini_content, php_image, nginx_image, file_browser_image,
  file_browser_image_of, wp_version,
}
use site_operator.Deployment.Containers.{
  build_wp_init_container, build_site_data_volume, build_php_fpm_container, build_nginx_container,
  build_file_browser_container, claim_name, claim_of,
}
use site_operator.Service.{reconcile_service, service_ports, mutate_service}
use site_operator.Ingress.{reconcile_ingress, ingress_paths, ingress_tls, mutate_ingress}
use site_operator.Pvc.{reconcile_pvc, managed_persistence, mutate_pvc, storage_class}

unfoldable pub default_image : Option FileBrowserSpec → Option FileBrowserSpec
default_image none = none
default_image (some f) =
    some (record f { image = or_default "filebrowser/filebrowser:latest" f.image })

-- The defaults of the texts.
unfoldable pub default_texts : SiteSpec → SiteSpec
default_texts s = record s {
  domain = or_default "localhost" s.domain;
  wordpress = default_wordpress s.wordpress;
  persistence = default_persistence s.persistence;
  file_browser = default_image s.file_browser;
  update_strategy = or_default "RollingUpdate" s.update_strategy;
}

-- A text that is left out, or not.
default-same :
    {A : Type 0} (default : String) (g : String → A)
    → g default ≡ g ""
    → (x : String) → g (or_default default x) ≡ g x
default-same default g same x = elim (Bool-cases (x == "")) [
  | inl empty ↦ subst (λ y. g (or_default default y) ≡ g y) (sym ((eq_iff x "").0 empty)) same
  | inr given ↦ rw given refl
]

module _ (lib : Library) (c : Client) (r : SiteReconciler) (hash : String → String) (e : Entropy)
    (site : Site) where
  abbrev work : SiteSpec → M c (Unit {0})
  work s = reconcile_objects lib c r hash e (record site { spec = s })

  -- All but the claim.
  abbrev work_before : SiteSpec → M c (Unit {0})
  work_before s =
      let site' : Site = record site { spec = s } in
      reconcile_secret lib c e site'
      >> reconcile_database_provision lib c site' r.default_maria_db_ref
      >> reconcile_deployment lib c site' hash (site_labels site') (site_envs site')
      >> reconcile_service lib c site' (site_labels site')
      >> reconcile_ingress lib c site' (site_labels site')

  -- An update strategy and an image that are left out count as these.
  fallbacks_same :
      (s : SiteSpec)
      → (work (record s { update_strategy = "RollingUpdate" })
          ≡ work (record s { update_strategy = "" }))
        × ((f : FileBrowserSpec)
            → work (record s {
              file_browser = some (record f { image = "filebrowser/filebrowser:latest" });
            })
              ≡ work (record s { file_browser = some (record f { image = "" }) }))
  unfolding reconcile_objects reconcile_secret mutate_secret populate reconcile_database_provision
      provision_enabled resolve_maria_db_ref reconcile_maria_db reconcile_database reconcile_user
      reconcile_grant mutate_database mutate_user mutate_grant provisioned_username
      reconcile_deployment reconcile_config_map reconcile_deployment_object mutate_config_map
      mutate_deployment build_deployment_spec deployment_strategy_type build_volumes
      build_containers build_nginx_config_content build_php_ini_content site_envs build_wp_envs
      build_database_envs build_wp_init_container build_site_data_volume build_php_fpm_container
      build_nginx_container build_file_browser_container php_image nginx_image file_browser_image
      wp_version reconcile_service service_ports mutate_service reconcile_ingress ingress_paths
      ingress_tls mutate_ingress reconcile_pvc managed_persistence mutate_pvc delete_owned
      file_browser_enabled file_browser_image_of claim_name claim_of
  fallbacks_same s = (refl, λ f. refl)

  -- So does a size.
  claim_size_same :
      (s : SiteSpec) (p : PersistenceSpec) (class : String)
      → reconcile_pvc lib c
          (record site { spec = record s { persistence = some (record p { size = "1Gi" }) } })
          class
        ≡ reconcile_pvc lib c
            (record site { spec = record s { persistence = some (record p { size = "" }) } })
            class
  unfolding reconcile_pvc managed_persistence mutate_pvc delete_owned storage_class
  claim_size_same s p class = elim (Bool-cases (p.enabled && p.existing_claim == "")) [
    | inl kept ↦ rw (kept, reconcile_pvc, managed_persistence) refl
    | inr not_kept ↦ rw (not_kept, reconcile_pvc, managed_persistence) refl
  ]

  size_fallback :
      (s : SiteSpec) (p : PersistenceSpec)
      → work (record s { persistence = some (record p { size = "1Gi" }) })
        ≡ work (record s { persistence = some (record p { size = "" }) })
  unfolding reconcile_objects reconcile_secret mutate_secret populate reconcile_database_provision
      provision_enabled resolve_maria_db_ref reconcile_maria_db reconcile_database reconcile_user
      reconcile_grant mutate_database mutate_user mutate_grant provisioned_username
      reconcile_deployment reconcile_config_map reconcile_deployment_object mutate_config_map
      mutate_deployment build_deployment_spec deployment_strategy_type build_volumes
      build_containers build_nginx_config_content build_php_ini_content site_envs build_wp_envs
      build_database_envs build_wp_init_container build_site_data_volume build_php_fpm_container
      build_nginx_container build_file_browser_container php_image nginx_image file_browser_image
      wp_version reconcile_service service_ports mutate_service reconcile_ingress ingress_paths
      ingress_tls mutate_ingress delete_owned file_browser_enabled file_browser_image_of claim_name
      claim_of
  size_fallback s p i =
      (work_before (record s { persistence = some (record p { size = "" }) }))
      >> claim_size_same s p r.default_storage_class_name i

  strategy_same :
      (s : SiteSpec)
      → work (record s { update_strategy = or_default "RollingUpdate" s.update_strategy }) ≡ work s
  strategy_same s =
      default-same "RollingUpdate" (λ x. work (record s { update_strategy = x }))
        (fallbacks_same s).0 s.update_strategy

  size_same :
      (s : SiteSpec) → work (record s { persistence = default_persistence s.persistence }) ≡ work s
  size_same s = go s.persistence
    where
      go :
          (o : Option PersistenceSpec)
          → work (record s { persistence = default_persistence o })
            ≡ work (record s { persistence = o })
      go none = refl
      go (some p) =
          default-same "1Gi" (λ x. work (record s { persistence = some (record p { size = x }) }))
            (size_fallback s p) p.size

  image_same :
      (s : SiteSpec) → work (record s { file_browser = default_image s.file_browser }) ≡ work s
  unfolding default_image
  image_same s = go s.file_browser
    where
      go :
          (o : Option FileBrowserSpec)
          → work (record s { file_browser = default_image o })
            ≡ work (record s { file_browser = o })
      go none = refl
      go (some f) =
          default-same "filebrowser/filebrowser:latest"
            (λ x. work (record s { file_browser = some (record f { image = x }) }))
            ((fallbacks_same s).1 f) f.image

pub texts_same :
    (lib : Library) (c : Client) (r : SiteReconciler) (hash : String → String) (e : Entropy)
    (site : Site) (s : SiteSpec)
    → (s.domain == "") ≡ false
    → default_wordpress s.wordpress ≡ s.wordpress
    → reconcile_objects lib c r hash e (record site { spec = default_texts s })
      ≡ reconcile_objects lib c r hash e (record site { spec = s })
unfolding default_texts
texts_same lib c r hash e site s domain install =
    let s1 : SiteSpec = record s {
      domain = or_default "localhost" s.domain;
      wordpress = default_wordpress s.wordpress;
    } in
    let s2 : SiteSpec = record s1 { persistence = default_persistence s.persistence } in
    let s3 : SiteSpec = record s2 { file_browser = default_image s.file_browser } in
    let given : s1 ≡ s = λ i. record s { domain = named i; wordpress = install i } in
    strategy_same lib c r hash e site s3
    ∙ image_same lib c r hash e site s2
    ∙ size_same lib c r hash e site s1
    ∙ ap (work lib c r hash e site) given
  where
    named : or_default "localhost" s.domain ≡ s.domain
    named = rw domain refl
