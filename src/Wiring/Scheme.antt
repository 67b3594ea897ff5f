-- ===== src/Wiring/Scheme.antt =====
-- TLS: what WordPress, nginx and the Ingress are told of the scheme.
use site_operator.Common.{
  String, Bool, false, List, [], ◌∷◌, ◌++◌, ◌≡◌, ◌<>◌, ◌==◌, ◌||◌, elem, if◌then◌else◌,
}
use site_operator.Api.Site.{Site, MariaDbClusterRef}
use site_operator.Kube.Pod.{EnvVar, Container}
use site_operator.Kube.Objects.{Ingress, IngressTls, Deployment, ConfigMap}
use site_operator.Kube.Library.{Library}
use site_operator.Kube.Client.{Client}
use site_operator.Kube.Server.{Server}
use site_operator.Helpers.{provision_enabled}
use site_operator.Deployment.Config.{render_nginx, absolute_redirect, extra_config}
use site_operator.Controller.Converge.Stages.{Wish}
use site_operator.Controller.Converge.Shapes.{
  secret_wish, database_wishes, nginx_wish, php_wish, deployment_wish,
}

-- The value of the first variable of a name.
abbrev pub env_of : String → List EnvVar → String
env_of n [] = ""
env_of n (e ∷ es) = if e.name == n then e.value else env_of n es

-- The value that a variable has in the container of a name.
abbrev pub value_in : String → String → List Container → String
value_in container n [] = ""
value_in container n (c ∷ cs) =
    if c.name == container then env_of n c.env else value_in container n cs

abbrev pub url_of : Bool → Site → String
url_of tls site = (if tls then "https" else "http") <> ("://" <> site.spec.domain)

-- An Ingress ends TLS for a host.
abbrev pub ends_tls : String → List IngressTls → Bool
ends_tls host [] = false
ends_tls host (t ∷ ts) = elem host t.hosts || ends_tls host ts

-- What WordPress and nginx are told is what the Ingress does for the Site's host.
pub record Agrees (site : Site) (x : Ingress) (d : Deployment) (f : ConfigMap) : Type 0 where
  pub home :
      value_in "php-fpm" "WP_HOME" d.spec.template.spec.containers
      ≡ url_of (ends_tls site.spec.domain x.tls) site
  pub site_url :
      value_in "php-fpm" "WP_SITEURL" d.spec.template.spec.containers
      ≡ url_of (ends_tls site.spec.domain x.tls) site
  pub config :
      f.contents
      ≡ (
        "default.conf",
        render_nginx
            (absolute_redirect (extra_config site))
            (extra_config site)
            (if ends_tls site.spec.domain x.tls then "fastcgi_param HTTPS on;" else "")
            (if ends_tls site.spec.domain x.tls
              then "fastcgi_param HTTP_X_FORWARDED_PROTO https;"
              else ""),
      )
        ∷ []

module _ (lib : Library) {c : Client} (s : Server c) (site : Site) (hash : String → String)
    (ref : MariaDbClusterRef) (w : c.World) where
  abbrev before_pods : List Wish
  before_pods =
      (secret_wish lib site ∷ [])
      ++ (if provision_enabled site then database_wishes lib site ref else [])

  abbrev pods : List Wish
  pods = nginx_wish lib site ∷ php_wish lib site ∷ deployment_wish lib site hash ∷ []
