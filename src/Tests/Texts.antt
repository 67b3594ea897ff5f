-- ===== src/Tests/Texts.antt =====
-- The checksum of the configuration on concrete texts, and the times of conditions.
use site_operator.Common.{String, contains, none, some, List, [], ◌∷◌, ◌≡◌, refl, All}
use site_operator.Common.Int.{pos}
use site_operator.Common.Outcome.{message}
use site_operator.Api.Site.{Site}
use site_operator.Kube.Meta.{Condition, condition_true}
use site_operator.Kube.Library.{find_condition, Aged}
use site_operator.Helpers.{
  build_wp_envs, build_database_envs, provision_enabled, provisioned_username,
}
use site_operator.Deployment.{
  zero_deployment, build_deployment_spec, build_containers, build_volumes,
}
use site_operator.Deployment.Config.{
  build_nginx_config_content, build_php_ini_content, php_image, wp_version, nginx_image,
  file_browser_image,
}
use site_operator.Deployment.Containers.{
  build_wp_init_container, build_site_data_volume, build_php_fpm_container, build_nginx_container,
  build_file_browser_container,
}
use site_operator.Controller.{site_envs}
use site_operator.Deployment.Checksum.{NoNul, mounted, spec_of, template_tells_config}
use site_operator.Status.{set_site_conditions}
use site_operator.Status.Times.{set_site_conditions-Aged}
use site_operator.Tests.Fixtures.{plain_site}
use site_operator.Tests.Owners.{small_library}
use site_operator.Tests.Conditions.{small_conditions}

abbrev two_texts : List String
two_texts = "server {}" ∷ "" ∷ []

-- The Site once its status was written.
abbrev old_condition : Condition
old_condition = record {
  kind = "Available";
  status = condition_true;
  observed_generation = pos 1;
  last_transition_time = pos 3;
  reason = "DeploymentReady";
  message = "";
}

abbrev later_site : Site
later_site = record plain_site { status = record { conditions = old_condition ∷ [] } }

plain_texts : All NoNul (mounted plain_site)
unfolding build_nginx_config_content build_php_ini_content contains
plain_texts = (refl, (refl, tt))

later_texts : All NoNul (mounted later_site)
unfolding build_nginx_config_content build_php_ini_content contains
later_texts = (refl, (refl, tt))

same_template : (spec_of (λ s. s) plain_site).template ≡ (spec_of (λ s. s) later_site).template
unfolding build_deployment_spec build_nginx_config_content build_php_ini_content build_volumes
    build_wp_init_container site_envs build_site_data_volume php_image wp_version build_wp_envs
    build_database_envs provision_enabled provisioned_username build_containers
    build_php_fpm_container build_nginx_container build_file_browser_container nginx_image
    file_browser_image
same_template = refl

template_tells_config_example : mounted plain_site ≡ mounted later_site
template_tells_config_example =
    template_tells_config (λ s. s) plain_site later_site plain_texts later_texts (λ e. e)
      same_template

found : find_condition "Available" (old_condition ∷ []) ≡ some old_condition
unfolding find_condition
found = refl

set_site_conditions-Aged_example :
    (new : Condition) × (find_condition "Available" (
        set_site_conditions small_library
          (pos 9)
          (old_condition ∷ [])
          (pos 2)
          zero_deployment
          none
          (some (message "no cluster")))
      ≡ some new)
    × Aged (pos 9) old_condition new
set_site_conditions-Aged_example =
    set_site_conditions-Aged small_library small_conditions (pos 9) (old_condition ∷ []) (pos 2)
      zero_deployment none (some (message "no cluster")) "Available" old_condition found
