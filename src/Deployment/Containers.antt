-- ===== src/Deployment/Containers.antt =====
-- The containers and volumes of internal/controller/deployment.go.
use site_operator.Common.{String, Option, none, some, List, [], ◌∷◌, ◌==◌, ◌<>◌, if◌then◌else◌}
use site_operator.Common.Int.{pos}
use site_operator.Api.Site.{Site, PersistenceSpec}
use site_operator.Kube.Pod.{
  EnvVar, VolumeMount, SecurityContext, Container, Volume, VolumeSource, empty_dir,
  persistent_volume_claim,
}
use site_operator.Helpers.{secret_env, env_value}
use site_operator.Deployment.Config.{
  php_image, nginx_image, file_browser_image, wp_version, php_ini_file_name,
}
use site_operator.Deployment.Scripts.{wp_init_script, php_fpm_script, file_browser_script}

abbrev pub site_data_volume : String
site_data_volume = "site-data"

abbrev pub site_root : String
site_root = "/var/www/html"

abbrev mount : String → String → VolumeMount
mount name path = record { name = name; mount_path = path; sub_path = "" }

abbrev mount_file : String → String → String → VolumeMount
mount_file name path file = record { name = name; mount_path = path; sub_path = file }

-- User and group 33.
abbrev as_www_data : Option SecurityContext
as_www_data = some (record { run_as_user = some (pos 33); run_as_group = some (pos 33) })

unfoldable pub build_wp_init_container : Site → Container
build_wp_init_container site = record {
  name = "wp-init";
  image = php_image site;
  command = "sh" ∷ "-c" ∷ [];
  args = wp_init_script ∷ [];
  ports = [];
  env = env_value "WP_VERSION" (wp_version site) ∷ [];
  security_context = none;
  readiness_probe = none;
  volume_mounts = mount site_data_volume site_root ∷ [];
}

unfoldable pub build_php_fpm_container : Site → List EnvVar → Container
build_php_fpm_container site envs = record {
  name = "php-fpm";
  image = php_image site;
  command = "sh" ∷ "-c" ∷ [];
  args = php_fpm_script ∷ [];
  ports = pos 9000 ∷ [];
  env = envs;
  security_context = as_www_data;
  readiness_probe = some (record {
    tcp_socket_port = pos 9000;
    initial_delay_seconds = pos 5;
    period_seconds = pos 10;
  });
  volume_mounts =
      mount site_data_volume site_root
      ∷ mount_file "php-config" ("/usr/local/etc/php/conf.d/" <> php_ini_file_name)
          php_ini_file_name
      ∷ [];
}

unfoldable pub build_nginx_container : Site → Container
build_nginx_container site = record {
  name = "nginx";
  image = nginx_image site;
  command = [];
  args = [];
  ports = pos 80 ∷ [];
  env = [];
  security_context = none;
  readiness_probe = none;
  volume_mounts =
      mount site_data_volume site_root
      ∷ mount_file "nginx-config" "/etc/nginx/conf.d/default.conf" "default.conf"
      ∷ [];
}

unfoldable pub build_file_browser_container : Site → Container
unfolding secret_env
build_file_browser_container site = record {
  name = "filebrowser";
  image = file_browser_image site;
  command = "sh" ∷ "-c" ∷ [];
  args = file_browser_script ∷ [];
  ports = pos 8080 ∷ [];
  env =
      env_value "FB_PORT" "8080"
      ∷ env_value "FB_ROOT" site_root
      ∷ env_value "FB_DATABASE" "/tmp/filebrowser.db"
      ∷ env_value "FB_BASE_URL" "/filebrowser"
      ∷ env_value "FB_ADDRESS" "0.0.0.0"
      ∷ env_value "FB_USERNAME" "admin"
      ∷ secret_env site "FB_PASSWORD"
      ∷ [];
  security_context = as_www_data;
  readiness_probe = none;
  volume_mounts = mount site_data_volume site_root ∷ mount "fb-config" "/config" ∷ [];
}

-- The claim that the site's files live on, or `none` for a volume that goes with the pod.
unfoldable pub claim_of : String → Option PersistenceSpec → Option String
claim_of name none = none
claim_of name (some p) =
    if p.enabled
    then some (if p.existing_claim == "" then name <> "-data" else p.existing_claim)
    else none

unfoldable pub claim_name : Site → Option String
unfolding claim_of
claim_name site = claim_of site.meta.name site.spec.persistence

data_source : Option String → VolumeSource
data_source none = empty_dir
data_source (some claim) = persistent_volume_claim claim

unfoldable pub build_site_data_volume : Site → Volume
unfolding claim_name data_source
build_site_data_volume site = record {
  name = site_data_volume;
  source = data_source (claim_name site);
}
