-- ===== src/Wiring/Ports.antt =====
-- Traffic: the Ingress names ports of the Service, and the Service ports of the pod.
use site_operator.Common.{
  Bool, true, false, List, [], ◌∷◌, ◌≡◌, refl, All, Bool-cases, inl, inr, ◌||◌, arith,
}
use site_operator.Common.Int.{ℤ, eq_ℤ}
use site_operator.Api.Site.{Site, IngressSpec}
use site_operator.Kube.Pod.{EnvVar, Container}
use site_operator.Kube.Objects.{ServicePort, HttpIngressPath}
use site_operator.Secret.{file_browser_enabled}
use site_operator.Deployment.{build_containers}
use site_operator.Deployment.Containers.{
  build_php_fpm_container, build_nginx_container, build_file_browser_container,
}
use site_operator.Service.{service_ports}
use site_operator.Ingress.{ingress_paths}

abbrev pub has_port : ℤ → List ℤ → Bool
has_port n [] = false
has_port n (p ∷ ps) = eq_ℤ p n || has_port n ps

-- Some container listens on a port.
abbrev pub listens : ℤ → List Container → Bool
listens n [] = false
listens n (c ∷ cs) = has_port n c.ports || listens n cs

-- Some port of the Service has a number.
abbrev pub serves : ℤ → List ServicePort → Bool
serves n [] = false
serves n (p ∷ ps) = eq_ℤ p.port n || serves n ps

-- Every port of the Service ends at a port that a container of the pod opens, with the file browser
-- and without it.
pub service_ports-listen :
    (site : Site) (envs : List EnvVar)
    → All
        (λ (p : ServicePort). listens p.target_port (build_containers site envs) ≡ true)
        (service_ports site)
unfolding service_ports build_containers build_php_fpm_container build_nginx_container
    build_file_browser_container
service_ports-listen site envs = elim (Bool-cases (file_browser_enabled site.spec.file_browser)) [
  | inl on ↦ rw on (refl, (ground arith, tt))
  | inr off ↦ rw off (refl, tt)
]

-- Every path of the Ingress leads to the Site's Service, at a port that the Service has.
pub ingress_paths-serve :
    (site : Site) (ingress : IngressSpec)
    → All
        (λ (p : HttpIngressPath).
          (p.service ≡ site.meta.name) × (serves p.port (service_ports site) ≡ true))
        (ingress_paths site ingress)
unfolding service_ports ingress_paths
ingress_paths-serve site ingress = elim (Bool-cases (file_browser_enabled site.spec.file_browser)) [
  | inl on ↦ rw on ((refl, refl), ((refl, ground arith), tt))
  | inr off ↦ rw off ((refl, refl), tt)
]
