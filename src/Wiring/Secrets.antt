-- ===== src/Wiring/Secrets.antt =====
-- Every reference of a container to the operator's own Secret finds its key there.
use site_operator.Common.{
  true, Option, none, some, ◌≡◌, ◌≢◌, ◌⊎◌, inl, inr, refl, ◌∙◌, Bool-cases, All, All-append,
  All-map, elem, arith,
}
use site_operator.Api.Site.{Site, InstallSpec, SecretKeyRef}
use site_operator.Kube.Pod.{EnvVar, Container, SecretKeySelector}
use site_operator.Helpers.{
  site_secret, install_of, build_wp_envs, build_database_envs, base_envs, secret_env,
  optional_install_envs,
}
use site_operator.Controller.{site_envs}
use site_operator.Deployment.{build_containers}
use site_operator.Deployment.Containers.{
  build_php_fpm_container, build_nginx_container, build_file_browser_container,
}
use site_operator.Secret.{
  Entropy, Filling, populate, file_browser_enabled, generates_admin_password,
}
use site_operator.Secret.Keys.{has, generated_keys, has-populate}

-- A reference that the user wrote into the Site.
abbrev IsRef : Option SecretKeyRef → SecretKeySelector → Type 0
IsRef none s = ⊥
IsRef (some r) s = (r.name ≡ s.name) × (r.key ≡ s.key)

abbrev pub IsUserRef : Site → SecretKeySelector → Type 0
IsUserRef site s =
    IsRef site.spec.database.user_secret s
    ⊎ IsRef site.spec.database.password_secret s
    ⊎ elim (install_of site) [ none ↦ ⊥ | some i ↦ IsRef i.admin_password_secret s ]

-- Nothing, or a reference to a key that the Site needs in the operator's Secret, or the user's.
abbrev NeededRef : Site → Option SecretKeySelector → Type 0
NeededRef site none = Unit
NeededRef site (some s) =
    (s.name ≡ site_secret site) × (elem s.key (generated_keys site) ≡ true) ⊎ IsUserRef site s

-- Nothing, or a reference to the operator's Secret at a key that it has, or to another Secret and
-- written by the user.
abbrev CoveredRef : Site → Filling → Option SecretKeySelector → Type 0
CoveredRef site f none = Unit
CoveredRef site f (some s) =
    (s.name ≡ site_secret site) × (has s.key f ≡ true)
    ⊎ (s.name ≢ site_secret site) × IsUserRef site s

abbrev NeedsOrUsers : Site → EnvVar → Type 0
NeedsOrUsers site e = NeededRef site e.value_from

-- What a variable refers to, if to anything, is there or is another Secret that the user named.
abbrev pub IsCovered : Site → Filling → EnvVar → Type 0
IsCovered site f e = CoveredRef site f e.value_from

needed-CoveredRef :
    (e : Entropy) (site : Site)
    → ((s : SecretKeySelector) → IsUserRef site s → s.name ≢ site_secret site)
    → (f : Filling) (o : Option SecretKeySelector) → NeededRef site o
    → CoveredRef site (populate e site f) o
needed-CoveredRef e site apart f none h = h
needed-CoveredRef e site apart f (some s) (inl (own, needed)) =
    inl (own, has-populate e site s.key f ∙ rw needed)
needed-CoveredRef e site apart f (some s) (inr user) = inr (apart s user, user)

install_needs :
    (site : Site) (o : Option InstallSpec)
    → install_of site ≡ o
    → All (NeedsOrUsers site) (optional_install_envs site o)
unfolding optional_install_envs generated_keys generates_admin_password
install_needs site none h = tt
install_needs site (some i) h = ground arith

base_needs : (site : Site) → All (NeedsOrUsers site) (base_envs site)
unfolding base_envs generated_keys secret_env
base_needs site = ground arith

database_needs : (site : Site) → All (NeedsOrUsers site) (build_database_envs site)
unfolding build_database_envs generated_keys
database_needs site = ground arith

containers_need :
    (site : Site)
    → All
        (λ (c : Container). All (NeedsOrUsers site) c.env)
        (build_containers site (site_envs site))
unfolding build_containers build_php_fpm_container build_nginx_container
    build_file_browser_container site_envs build_wp_envs generated_keys
containers_need site = elim (Bool-cases (file_browser_enabled site.spec.file_browser)) [
  | inl on ↦ rw on (php, (tt, (ground arith, tt)))
  | inr off ↦ rw off (php, (tt, tt))
]
  where
    php : All (NeedsOrUsers site) (site_envs site)
    php =
        All-append (NeedsOrUsers site) (build_wp_envs site) (build_database_envs site)
          (All-append (NeedsOrUsers site) (base_envs site)
            (optional_install_envs site (install_of site)) (base_needs site)
            (install_needs site (install_of site) refl))
          (database_needs site)

-- For a Site none of whose own references is to the operator's Secret: after reconcileSecret has
-- filled the data, whatever it held and whether or not entropy was to be had, every variable of every
-- container is a value, or refers to the operator's Secret and to a key that it has, or refers to
-- another Secret by a reference that the user gave.
pub containers-IsCovered :
    (e : Entropy) (site : Site)
    → ((s : SecretKeySelector) → IsUserRef site s → s.name ≢ site_secret site)
    → (f : Filling)
    → All
        (λ (c : Container). All (IsCovered site (populate e site f)) c.env)
        (build_containers site (site_envs site))
containers-IsCovered e site apart f =
    All-map (build_containers site (site_envs site))
      (λ c h. All-map c.env (λ v. needed-CoveredRef e site apart f v.value_from) h)
      (containers_need site)
