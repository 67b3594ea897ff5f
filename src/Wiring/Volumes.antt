-- ===== src/Wiring/Volumes.antt =====
-- Storage: every mount has its volume, and the claim is the one that the operator keeps.
use site_operator.Common.{
  String, true, Option, none, some, List, ◌∷◌, map, ◌≡◌, refl, All, elem, Bool-cases, inl, inr,
  arith, if◌then◌else◌,
}
use site_operator.Api.Site.{Site, PersistenceSpec}
use site_operator.Kube.Pod.{EnvVar, Container, Volume, VolumeMount}
use site_operator.Secret.{file_browser_enabled}
use site_operator.Deployment.{build_containers, build_volumes}
use site_operator.Deployment.Containers.{
  build_wp_init_container, build_php_fpm_container, build_nginx_container,
  build_file_browser_container, build_site_data_volume, claim_name,
}
use site_operator.Pvc.{managed_persistence, new_pvc}

abbrev pub volume_names : Site → List String
volume_names site = map (λ (v : Volume). v.name) (build_volumes site)

-- Every mount of every container, the init container included, names a volume of the pod.
pub mounts-have-volumes :
    (site : Site) (envs : List EnvVar)
    → All
        (λ (c : Container).
          All (λ (m : VolumeMount). elem m.name (volume_names site) ≡ true) c.volume_mounts)
        (build_wp_init_container site ∷ build_containers site envs)
unfolding build_containers build_volumes build_wp_init_container build_php_fpm_container
    build_nginx_container build_file_browser_container build_site_data_volume
mounts-have-volumes site envs = elim (Bool-cases (file_browser_enabled site.spec.file_browser)) [
  | inl on ↦
      rw on ((refl, tt), ((refl, (refl, tt)), ((refl, (refl, tt)), ((refl, (refl, tt)), tt))))
  | inr off ↦ rw off ((refl, tt), ((refl, (refl, tt)), ((refl, (refl, tt)), tt)))
]

-- The claim to mount: the operator's own for persistence that it manages, else the one given.
abbrev pub mounted_claim : Site → Option PersistenceSpec → Option PersistenceSpec → Option String
mounted_claim site (some p) given = some (new_pvc site).meta.name
mounted_claim site none none = none
mounted_claim site none (some p) = if p.enabled then some p.existing_claim else none

-- The pod mounts the operator's own claim exactly for the persistence for which reconcilePVC keeps
-- that claim; with an existing claim it mounts that one, and else none.
pub claim_name-managed :
    (site : Site)
    → claim_name site
      ≡ mounted_claim site (managed_persistence site.spec.persistence) site.spec.persistence
unfolding claim_name managed_persistence
claim_name-managed site = ground arith
