-- ===== src/Wiring/Cron.antt =====
-- The URL that the wp-cron run asks, and the Service and pods behind it.
use site_operator.Common.{
  String, true, List, [], ◌∷◌, ◌++◌, ◌<>◌, some, ◌≡◌, refl, All, All-split, if◌then◌else◌,
}
use site_operator.Common.Int.{pos}
use site_operator.Api.Site.{Site, MariaDbClusterRef}
use site_operator.Kube.Meta.{Key, object_key}
use site_operator.Kube.Objects.{Kind, Service, Deployment, ServicePort}
use site_operator.Kube.Library.{Library}
use site_operator.Kube.Client.{Client}
use site_operator.Kube.Server.{Server}
use site_operator.Helpers.{provision_enabled}
use site_operator.Service.{service_ports}
use site_operator.WpCron.{site_cron_url}
use site_operator.Deployment.{build_deployment_spec}
use site_operator.Controller.{site_envs}
use site_operator.Controller.Converge.Stages.{Wish, Granted}
use site_operator.Controller.Converge.Shapes.{
  wishes, secret_wish, database_wishes, nginx_wish, php_wish, deployment_wish, service_wish,
  ingress_wish, pvc_wish,
}
use site_operator.Wiring.Ports.{serves, listens, service_ports-listen}

-- The address of wp-cron.php at a Service, by the names that the cluster gives to Services and at
-- the port of HTTP.
abbrev pub cron_url_at : Key → String
cron_url_at n =
    "http://"
    <> (n.name <> ("." <> (n.namespace <> ".svc.cluster.local/wp-cron.php?doing_wp_cron")))

-- What stands behind the name: a Service with a port 80, whose selector is met by the pods of the
-- Deployment, in which a container opens the port that each port of the Service leads to.
pub record Reaches (x : Service) (d : Deployment) : Type 0 where
  pub serves_http : serves (pos 80) x.ports ≡ true
  pub selects : x.selector ≡ d.spec.template.labels
  pub opens :
      All
        (λ (p : ServicePort). listens p.target_port d.spec.template.spec.containers ≡ true)
        x.ports

serves_http : (site : Site) → serves (pos 80) (service_ports site) ≡ true
unfolding service_ports
serves_http site = refl

module _ (lib : Library) {c : Client} (s : Server c) (site : Site) (hash : String → String)
    (ref : MariaDbClusterRef) (w : c.World) where
  abbrev to_pods : List Wish
  to_pods =
      ((secret_wish lib site ∷ [])
        ++ (if provision_enabled site then database_wishes lib site ref else []))
      ++ (nginx_wish lib site ∷ php_wish lib site ∷ deployment_wish lib site hash ∷ [])

  abbrev to_service : List Wish
  to_service = to_pods ++ (service_wish lib site ∷ [])

  -- Where the objects of a Site are as it wants them, the URL that the wp-cron run asks for it leads
  -- to a stored Service with a port 80, which selects the pods of the Site's stored Deployment, and
  -- a container of these opens every port that the Service leads to.
  pub Granted-Reaches :
      Granted s (wishes lib site hash ref) w
      → (x : Service) × (d : Deployment) × (site_cron_url site ≡ cron_url_at (object_key site.meta))
        × (s.stored Kind.service (object_key site.meta) w ≡ some x)
        × (s.stored Kind.deployment (object_key site.meta) w ≡ some d)
        × Reaches x d
  unfolding site_cron_url build_deployment_spec
  Granted-Reaches granted =
      let P = λ (v : Wish). v.Holds (s.stored v.kind v.name w) in
      let (most, _) =
        All-split P (to_service ++ (ingress_wish lib site ∷ [])) (pvc_wish lib site ∷ []) granted in
      let (some_of, _) = All-split P to_service (ingress_wish lib site ∷ []) most in
      let (pods, (service, _)) = All-split P to_pods (service_wish lib site ∷ []) some_of in
      let (_, (_, (_, (deployment, _)))) =
        All-split P
          ((secret_wish lib site ∷ [])
            ++ (if provision_enabled site then database_wishes lib site ref else []))
          (nginx_wish lib site ∷ php_wish lib site ∷ deployment_wish lib site hash ∷ []) pods in
      let (x, there, is_service) = service in
      let (d, there', is_deployment) = deployment in
      (
        x,
        d,
        refl,
        there,
        there',
        record {
          serves_http = rw is_service.3 (serves_http site);
          selects = rw (is_service.2, is_deployment.2) refl;
          opens = rw (is_service.3, is_deployment.2) (service_ports-listen site (site_envs site));
        },
      )
