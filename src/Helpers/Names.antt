-- ===== src/Helpers/Names.antt =====
-- The names of the environment variables.
use mathlib.Core.List.{map-append}
use site_operator.Common.{
  String, Bool, true, false, not, ◌&&◌, ◌||◌, ◌≡◌, refl, List, map, ◌++◌, [], ◌∷◌, Option, none,
  some, distinct, is_some, elem, ◌∙◌, arith, if◌then◌else◌,
}
use site_operator.Api.Site.{Site, InstallSpec}
use site_operator.Kube.Pod.{EnvVar}
use site_operator.Helpers.{install_of, build_wp_envs, build_database_envs, provision_enabled}

abbrev pub env_names : List EnvVar → List String
env_names = map (λ (e : EnvVar). e.name)

-- The names that build_wp_envs may give: with or without an installation, and with or without the
-- operator's own administrator password.
abbrev wp_names : Bool → Bool → List String
wp_names installs own =
    "WP_HOME"
    ∷ "WP_SITEURL"
    ∷ "WP_DEBUG"
    ∷ "WP_DEBUG_LOG"
    ∷ "WP_DEBUG_DISPLAY"
    ∷ "AUTH_KEY"
    ∷ "SECURE_AUTH_KEY"
    ∷ "LOGGED_IN_KEY"
    ∷ "NONCE_KEY"
    ∷ "AUTH_SALT"
    ∷ "SECURE_AUTH_SALT"
    ∷ "LOGGED_IN_SALT"
    ∷ "NONCE_SALT"
    ∷ (if installs
        then "WP_INSTALL"
          ∷ "WP_ADMIN_USER"
          ∷ "WP_ADMIN_EMAIL"
          ∷ "WP_TITLE"
          ∷ (if own then "ADMIN_PASSWORD" else "WP_ADMIN_PASSWORD")
          ∷ []
        else [])

abbrev database_names : Bool → Bool → List String
database_names user password =
    "DB_HOST"
    ∷ "DB_NAME"
    ∷ ((if user then "DB_USER" ∷ [] else []) ++ (if password then "DB_PASSWORD" ∷ [] else []))

env_names-wp :
    (site : Site) → (i : Bool) × (own : Bool) × (env_names (build_wp_envs site) ≡ wp_names i own)
unfolding build_wp_envs
env_names-wp site = go (install_of site) refl
  where
    go :
        (o : Option InstallSpec)
        → install_of site ≡ o
        → (i : Bool) × (own : Bool) × (env_names (build_wp_envs site) ≡ wp_names i own)
    go none e = (false, false, ground arith)
    go (some install) e = (
      true,
      not (is_some install.admin_password_secret) && not (is_some install.admin_password),
      ground arith,
    )

env_names-database :
    (site : Site)
    → (u : Bool) × (p : Bool) × (env_names (build_database_envs site) ≡ database_names u p)
unfolding build_database_envs
env_names-database site = (
  provision_enabled site || is_some user_secret || is_some user,
  provision_enabled site || is_some password_secret || is_some password,
  ground arith,
)
  where
    open site.spec.database use {user_secret, user, password_secret, password}

distinct_table : (i own u p : Bool) → distinct (wp_names i own ++ database_names u p) ≡ true
distinct_table true true true true = refl
distinct_table true true true false = refl
distinct_table true true false true = refl
distinct_table true true false false = refl
distinct_table true false true true = refl
distinct_table true false true false = refl
distinct_table true false false true = refl
distinct_table true false false false = refl
distinct_table false own true true = refl
distinct_table false own true false = refl
distinct_table false own false true = refl
distinct_table false own false false = refl

-- The list of `Reconcile` never names a variable twice, whatever the Site says.
pub distinct-env_names :
    (site : Site) → distinct (env_names (build_wp_envs site ++ build_database_envs site)) ≡ true
distinct-env_names site =
    let (i, own, wp) = env_names-wp site in
    let (u, p, db) = env_names-database site in rw (map-append, wp, db) (distinct_table i own u p)

installed_names :
    (site : Site) (i : InstallSpec)
    → install_of site ≡ some i
    → env_names (build_wp_envs site)
      ≡ wp_names true (not (is_some i.admin_password_secret) && not (is_some i.admin_password))
unfolding build_wp_envs
installed_names site i e = ground arith

admin_table :
    (own u p : Bool) → elem "WP_ADMIN_PASSWORD" (wp_names true own ++ database_names u p) ≡ not own
admin_table true true true = refl
admin_table true true false = refl
admin_table true false true = refl
admin_table true false false = refl
admin_table false true true = refl
admin_table false true false = refl
admin_table false false true = refl
admin_table false false false = refl

-- The variable WP_ADMIN_PASSWORD, from which the installation script takes the administrator's
-- password, is set for an installation exactly if the Site gives a password itself; it is not set
-- when the password is left to the operator to generate.
pub elem-wp_admin_password :
    (site : Site) (i : InstallSpec)
    → install_of site ≡ some i
    → elem "WP_ADMIN_PASSWORD" (env_names (build_wp_envs site ++ build_database_envs site))
      ≡ (is_some i.admin_password_secret || is_some i.admin_password)
elem-wp_admin_password site i e =
    let (u, p, db) = env_names-database site in
    rw (map-append, installed_names site i e, db)
      (admin_table (not (is_some i.admin_password_secret) && not (is_some i.admin_password)) u p
        ∙ ground arith)
