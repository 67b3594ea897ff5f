-- ===== src/Deployment.antt =====
-- internal/controller/deployment.go: the pod template, and the three objects that
-- reconcileDeployment writes.
pub mod Checksum
pub mod Config
pub mod Scripts
pub mod Containers
use site_operator.Common.{
  String, Bool, false, Option, none, some, List, [], ◌∷◌, ◌++◌, ◌==◌, ◌<>◌, Dict, if◌then◌else◌,
}
use site_operator.Common.Int.{pos}
use site_operator.Common.Outcome.{Outcome, map_ok}
use site_operator.Api.Site.{Site}
use site_operator.Kube.Pod.{EnvVar, Container, Volume, PodTemplateSpec, config_map, empty_dir}
use site_operator.Kube.Objects.{
  ConfigMap, Deployment, DeploymentSpec, DeploymentStatus, DeploymentStrategyType, unset, recreate,
  rolling_update, Kind,
}
use site_operator.Kube.Library.{Library}
use site_operator.Kube.Action.{◌>>=◌, ◌>>◌}
use site_operator.Kube.Client.{Client, M}
use site_operator.Helpers.{zero_meta, new_meta}
use site_operator.Secret.{file_browser_enabled}
use Config.{build_nginx_config_content, build_php_ini_content, config_checksum, php_ini_file_name}
use Containers.{
  build_wp_init_container, build_php_fpm_container, build_nginx_container,
  build_file_browser_container, build_site_data_volume,
}

unfoldable pub deployment_strategy_type : Site → DeploymentStrategyType
deployment_strategy_type site =
    if site.spec.update_strategy == "Recreate" then recreate else rolling_update

unfoldable pub build_volumes : Site → List Volume
build_volumes site =
    build_site_data_volume site
    ∷ record { name = "nginx-config"; source = config_map (site.meta.name <> "-nginx") }
    ∷ record { name = "php-config"; source = config_map (site.meta.name <> "-php") }
    ∷ record { name = "fb-config"; source = empty_dir }
    ∷ []

unfoldable pub build_containers : Site → List EnvVar → List Container
build_containers site envs =
    (build_php_fpm_container site envs ∷ build_nginx_container site ∷ [])
    ++ (if file_browser_enabled site.spec.file_browser
        then build_file_browser_container site ∷ []
        else [])

unfoldable pub build_deployment_spec : Site → Dict String → List EnvVar → String → DeploymentSpec
build_deployment_spec site labels envs config_hash = record {
  replicas = some (pos 1);
  strategy = deployment_strategy_type site;
  selector = labels;
  template = record {
    labels = labels;
    annotations = ("site-operator.propastinv/config-hash", config_hash) ∷ [];
    spec = record {
      node_selector = site.spec.node_selector;
      volumes = build_volumes site;
      init_containers = build_wp_init_container site ∷ [];
      containers = build_containers site envs;
    };
  };
}

-- `appsv1.Deployment{}`
abbrev pub zero_deployment : Deployment
zero_deployment = record {
  meta = zero_meta;
  spec = record {
    replicas = none;
    strategy = unset;
    selector = [];
    template = record {
      labels = [];
      annotations = [];
      spec = record { node_selector = []; volumes = []; init_containers = []; containers = [] };
    };
  };
  status = record {
    observed_generation = pos 0;
    replicas = pos 0;
    updated_replicas = pos 0;
    available_replicas = pos 0;
    conditions = [];
  };
}

-- A Deployment with nothing but its name.
abbrev pub new_deployment : Site → Deployment
new_deployment site = record zero_deployment { meta = new_meta site.meta.name site }

module _ (lib : Library) where
  -- The callbacks for the two ConfigMaps differ in the data alone.
  unfoldable pub mutate_config_map : Site → Dict String → ConfigMap → Outcome ConfigMap
  mutate_config_map site contents cm =
      map_ok (λ m. record { meta = m; contents = contents })
        (lib.set_controller_reference site.meta cm.meta)

  unfoldable pub mutate_deployment :
      Site → Dict String → List EnvVar → String → Deployment → Outcome Deployment
  mutate_deployment site labels envs config_hash deploy =
      map_ok
        (λ m. record deploy { meta = m; spec = build_deployment_spec site labels envs config_hash })
        (lib.set_controller_reference site.meta (record (deploy.meta) { labels = labels }))

  module _ (c : Client) (site : Site) where
    unfoldable pub reconcile_config_map : String → Dict String → M c (Unit {0})
    reconcile_config_map name contents = c.retry_on_conflict (
        c.create_or_update Kind.config_map (record { meta = new_meta name site; contents = [] })
          (mutate_config_map site contents))

    unfoldable pub reconcile_deployment_object : Dict String → List EnvVar → String → M c (Unit {0})
    reconcile_deployment_object labels envs config_hash = c.retry_on_conflict (
        c.create_or_update Kind.deployment (new_deployment site)
          (mutate_deployment site labels envs config_hash))

    unfoldable pub reconcile_deployment :
        (hash : String → String) → Dict String → List EnvVar → M c (Unit {0})
    reconcile_deployment hash labels envs =
        let nginx_content = build_nginx_config_content site in
        let php_ini_content = build_php_ini_content site in
        reconcile_config_map (site.meta.name <> "-nginx") (("default.conf", nginx_content) ∷ [])
        >> reconcile_config_map (site.meta.name <> "-php")
            ((php_ini_file_name, php_ini_content) ∷ [])
        >> reconcile_deployment_object labels envs
            (config_checksum hash (nginx_content ∷ php_ini_content ∷ []))
