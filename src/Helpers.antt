-- ===== src/Helpers.antt =====
-- internal/controller/helpers.go, and `provisionEnabled` and `provisionedUsername` of
-- internal/controller/provision.go, which it calls.
pub mod Names
pub mod Own
use site_operator.Common.{
  String, Bool, false, true, Option, none, some, List, [], ◌∷◌, ◌++◌, ◌==◌, ◌<>◌, ltb, format_bool,
  if◌then◌else◌,
}
use Prim.Native.String.{len, slice}
use site_operator.Common.Int.{pos}
use site_operator.Api.Site.{Site, IngressSpec, WordpressSpec, InstallSpec, DatabaseSpec, DebugSpec}
use site_operator.Api.Site.{ProvisionSpec, SecretKeyRef}
use site_operator.Kube.Meta.{ObjectMeta}
use site_operator.Kube.Pod.{EnvVar, SecretKeySelector}

abbrev pub db_user_env : String
db_user_env = "DB_USER"

abbrev pub db_password_key : String
db_password_key = "DB_PASSWORD"

unfoldable pub bool_ptr_val : Option Bool → Bool
bool_ptr_val none = false
bool_ptr_val (some b) = b

-- The name of the Secret that the operator owns.
abbrev pub site_secret : Site → String
site_secret site = site.meta.name <> "-site-secret"

-- `metav1.ObjectMeta{}`
abbrev pub zero_meta : ObjectMeta
zero_meta = record {
  name = "";
  namespace = "";
  labels = [];
  annotations = [];
  owner_references = [];
  uid = "";
  created = false;
  generation = pos 0;
}

-- The metadata with which the operator names an object of a Site before it is stored.
abbrev pub new_meta : String → Site → ObjectMeta
new_meta name site = record zero_meta { name = name; namespace = site.meta.namespace }

-- An environment variable with a value written out.
abbrev pub env_value : String → String → EnvVar
env_value n v = record { name = n; value = v; value_from = none }

-- An environment variable read from a key of a Secret.
abbrev pub env_from : String → String → String → EnvVar
env_from n secret k = record {
  name = n;
  value = "";
  value_from = some (record { name = secret; key = k });
}

unfoldable pub secret_env : Site → String → EnvVar
secret_env site name = env_from name (site_secret site) name

-- The `scheme` that buildWPEnvs computes.
scheme_of : Option IngressSpec → String
scheme_of none = "http"
scheme_of (some i) = elim i.tls [ none ↦ "http" | some t ↦ if t then "https" else "http" ]

-- `wpDebug`, `wpDebugLog` and `wpDebugDisplay`.
debug_flags : Option WordpressSpec → DebugSpec
debug_flags w = elim w [ none ↦ off | some p ↦ elim p.debug [ none ↦ off | some d ↦ d ] ]
  where
    off : DebugSpec
    off = record { enabled = false; log = false; display = false }

-- The choice of WP_ADMIN_PASSWORD, or of ADMIN_PASSWORD in the operator's own Secret.
admin_password_env : Site → Option SecretKeyRef → Option String → EnvVar
unfolding secret_env
admin_password_env site (some r) p = env_from "WP_ADMIN_PASSWORD" r.name r.key
admin_password_env site none (some p) = env_value "WP_ADMIN_PASSWORD" p
admin_password_env site none none = secret_env site "ADMIN_PASSWORD"

install_envs : Site → InstallSpec → List EnvVar
unfolding admin_password_env
install_envs site install =
    env_value "WP_INSTALL" "true"
    ∷ env_value "WP_ADMIN_USER" install.admin_user
    ∷ env_value "WP_ADMIN_EMAIL" install.admin_email
    ∷ env_value "WP_TITLE" (if install.title == "" then site.meta.name else install.title)
    ∷ admin_password_env site install.admin_password_secret install.admin_password
    ∷ []

-- `site.Spec.Wordpress != nil && site.Spec.Wordpress.Install != nil`
abbrev pub install_of : Site → Option InstallSpec
install_of site = elim site.spec.wordpress [ none ↦ none | some w ↦ w.install ]

unfoldable pub optional_install_envs : Site → Option InstallSpec → List EnvVar
unfolding install_envs
optional_install_envs site none = []
optional_install_envs site (some i) = install_envs site i

-- The first value of `envs` in buildWPEnvs.
unfoldable pub base_envs : Site → List EnvVar
unfolding scheme_of debug_flags format_bool
base_envs site =
    env_value "WP_HOME" home
    ∷ env_value "WP_SITEURL" home
    ∷ env_value "WP_DEBUG" (format_bool debug.enabled)
    ∷ env_value "WP_DEBUG_LOG" (format_bool debug.log)
    ∷ env_value "WP_DEBUG_DISPLAY" (format_bool debug.display)
    ∷ secret_env site "AUTH_KEY"
    ∷ secret_env site "SECURE_AUTH_KEY"
    ∷ secret_env site "LOGGED_IN_KEY"
    ∷ secret_env site "NONCE_KEY"
    ∷ secret_env site "AUTH_SALT"
    ∷ secret_env site "SECURE_AUTH_SALT"
    ∷ secret_env site "LOGGED_IN_SALT"
    ∷ secret_env site "NONCE_SALT"
    ∷ []
  where
    home : String
    home = scheme_of site.spec.ingress <> ("://" <> site.spec.domain)

    debug : DebugSpec
    debug = debug_flags site.spec.wordpress

unfoldable pub build_wp_envs : Site → List EnvVar
unfolding base_envs optional_install_envs
build_wp_envs site = base_envs site ++ optional_install_envs site (install_of site)

provision_spec_enabled : Option ProvisionSpec → Bool
provision_spec_enabled p = elim p [
  | none ↦ false
  | some q ↦ elim q.database [ none ↦ false | some d ↦ d.enabled ]
]

unfoldable pub provision_enabled : Site → Bool
unfolding provision_spec_enabled
provision_enabled site = provision_spec_enabled site.spec.provision

unfoldable pub provisioned_username : Site → String
provisioned_username site =
    "site_" <> (if ltb 27 (len site.meta.name) then slice site.meta.name 0 27 else site.meta.name)

-- A secret reference wins over a plain value; with neither there is no variable.
unfoldable pub credential_env : String → Option SecretKeyRef → Option String → List EnvVar
credential_env n (some r) plain = env_from n r.name r.key ∷ []
credential_env n none (some v) = env_value n v ∷ []
credential_env n none none = []

unfoldable pub build_database_envs : Site → List EnvVar
unfolding credential_env secret_env
build_database_envs site =
    let envs : List EnvVar = env_value "DB_HOST" db.host ∷ env_value "DB_NAME" db.name ∷ [] in
    if provision_enabled site
    then envs
      ++ (env_value db_user_env (provisioned_username site) ∷ secret_env site db_password_key ∷ [])
    else (envs ++ credential_env db_user_env db.user_secret db.user)
      ++ credential_env db_password_key db.password_secret db.password
  where
    open site.spec use {database as db}
