-- ===== src/Controller/Permissions.antt =====
-- The RBAC markers of internal/controller/site_controller.go. Which group and plural name the API
-- has for a kind is a parameter.
use site_operator.Common.{
  String, Option, Bool, true, false, List, [], ◌∷◌, ◌==◌, ◌≡◌, refl, sym, subst, ◌<>◌, elem, ◌&&◌,
  ◌||◌, if◌then◌else◌,
}
use site_operator.Common.Outcome.{Outcome, Error, err, api, forbidden}
use site_operator.Api.Group.{group_version}
use site_operator.Kube.Objects.{Kind}
use site_operator.Kube.Library.{Library}
use site_operator.Kube.Client.{Client}
use site_operator.Secret.{Entropy}
use site_operator.WpCron.{HttpGet, run_wp_cron_once}
use site_operator.Controller.{SiteReconciler, reconcile}

pub record Rule : Type 0 where
  pub group : String
  pub resources : List String
  pub verbs : List String

abbrev all_verbs : List String
all_verbs = "get" ∷ "list" ∷ "watch" ∷ "create" ∷ "update" ∷ "patch" ∷ "delete" ∷ []

-- The seven `+kubebuilder:rbac` markers.
unfoldable pub rules : List Rule
rules =
    record { group = "site.operator"; resources = "sites" ∷ []; verbs = all_verbs }
    ∷ record {
      group = "site.operator";
      resources = "sites/status" ∷ [];
      verbs = "get" ∷ "update" ∷ "patch" ∷ [];
    }
    ∷ record { group = "site.operator"; resources = "sites/finalizers" ∷ []; verbs = "update" ∷ [] }
    ∷ record { group = "apps"; resources = "deployments" ∷ []; verbs = all_verbs }
    ∷ record {
      group = "";
      resources = "services" ∷ "configmaps" ∷ "persistentvolumeclaims" ∷ "secrets" ∷ [];
      verbs = all_verbs;
    }
    ∷ record { group = "networking.k8s.io"; resources = "ingresses" ∷ []; verbs = all_verbs }
    ∷ record {
      group = "k8s.mariadb.com";
      resources = "databases" ∷ "users" ∷ "grants" ∷ [];
      verbs = all_verbs;
    }
    ∷ []

-- Whether some rule allows a verb.
unfoldable pub allows : List Rule → String → String → String → Bool
allows [] group resource verb = false
allows (r ∷ rs) group resource verb =
    r.group == group && elem resource r.resources && elem verb r.verbs
    || allows rs group resource verb

-- What the API calls a kind.
pub record Resource : Type 0 where
  pub group : String
  pub plural : String

abbrev resource : String → String → Resource
resource group plural = record { group = group; plural = plural }

-- The documented names; that of a Site has the group that the operator registers it under.
pub record Documented (names : Kind → Resource) : Type 0 where
  pub site : names Kind.site ≡ resource group_version.group "sites"
  pub secret : names Kind.secret ≡ resource "" "secrets"
  pub config_map : names Kind.config_map ≡ resource "" "configmaps"
  pub deployment : names Kind.deployment ≡ resource "apps" "deployments"
  pub service : names Kind.service ≡ resource "" "services"
  pub ingress : names Kind.ingress ≡ resource "networking.k8s.io" "ingresses"
  pub pvc : names Kind.pvc ≡ resource "" "persistentvolumeclaims"
  pub database : names Kind.database ≡ resource "k8s.mariadb.com" "databases"
  pub user : names Kind.user ≡ resource "k8s.mariadb.com" "users"
  pub grant : names Kind.grant ≡ resource "k8s.mariadb.com" "grants"

abbrev pub may : Resource → String → Bool
may r verb = allows rules r.group r.plural verb

-- The verbs of a read, which the manager's cache may answer from a list and a watch, and of a
-- `CreateOrUpdate`.
abbrev pub may_read : Resource → Bool
may_read r = may r "get" && may r "list" && may r "watch"

abbrev pub may_write : Resource → Bool
may_write r = may_read r && may r "create" && may r "update"

abbrev pub refused : {A W : Type 0} → W → Outcome A × W
refused w = (err (api forbidden "forbidden"), w)

-- The API server that refuses what no rule allows.
abbrev pub permitted : (Kind → Resource) → Client → Client
permitted names c = record c {
  get = λ k. if may_read (names k) then c.get k else λ n. refused;
  list_sites = if may (names Kind.site) "list" then c.list_sites else refused;
  create_or_update = λ k. if may_write (names k) then c.create_or_update k else λ o f. refused;
  delete = λ k. if may (names k) "delete" then c.delete k else λ o. refused;
  update_status =
      if may (resource (names Kind.site).group ((names Kind.site).plural <> "/status")) "update"
      then c.update_status
      else λ s. refused;
}

module _ (names : Kind → Resource) (documented : Documented names) where
  every : (k : Kind) (verb : String) → elem verb all_verbs ≡ true → may (names k) verb ≡ true
  unfolding rules allows group_version
  every Kind.site verb h = subst (λ r. may r verb ≡ true) (sym documented.site) (rw h refl)
  every Kind.secret verb h = subst (λ r. may r verb ≡ true) (sym documented.secret) (rw h refl)
  every Kind.config_map verb h =
      subst (λ r. may r verb ≡ true) (sym documented.config_map) (rw h refl)
  every Kind.deployment verb h =
      subst (λ r. may r verb ≡ true) (sym documented.deployment) (rw h refl)
  every Kind.service verb h = subst (λ r. may r verb ≡ true) (sym documented.service) (rw h refl)
  every Kind.ingress verb h = subst (λ r. may r verb ≡ true) (sym documented.ingress) (rw h refl)
  every Kind.pvc verb h = subst (λ r. may r verb ≡ true) (sym documented.pvc) (rw h refl)
  every Kind.database verb h = subst (λ r. may r verb ≡ true) (sym documented.database) (rw h refl)
  every Kind.user verb h = subst (λ r. may r verb ≡ true) (sym documented.user) (rw h refl)
  every Kind.grant verb h = subst (λ r. may r verb ≡ true) (sym documented.grant) (rw h refl)

  reads : (k : Kind) → may_read (names k) ≡ true
  reads k = rw (every k "get" refl) (rw (every k "list" refl) (every k "watch" refl))

  writes : (k : Kind) → may_write (names k) ≡ true
  writes k = rw (reads k) (rw (every k "create" refl) (every k "update" refl))

  status :
      may (resource (names Kind.site).group ((names Kind.site).plural <> "/status")) "update" ≡ true
  unfolding rules allows group_version
  status =
      subst (λ (r : Resource). may (resource r.group (r.plural <> "/status")) "update" ≡ true)
        (sym documented.site) refl

  unfoldable permitted_all : (c : Client) → permitted names c ≡ c
  permitted_all c = λ i. record c {
    get = λ k. if reads k i then c.get k else λ n. refused;
    list_sites = if every Kind.site "list" refl i then c.list_sites else refused;
    create_or_update = λ k. if writes k i then c.create_or_update k else λ o f. refused;
    delete = λ k. if every k "delete" refl i then c.delete k else λ o. refused;
    update_status = if status i then c.update_status else λ s. refused;
  }

  -- At an API server that refuses every call that the operator's RBAC rules do not allow, both
  -- Reconcile and the wp-cron run do what they would do if nothing were refused.
  pub rules-suffice :
      (lib : Library) (c : Client)
      → ((r : SiteReconciler) (hash : String → String) (e : Entropy)
          → reconcile lib (permitted names c) r hash e ≡ reconcile lib c r hash e)
        × ((get : HttpGet c.World) (built : Option Error)
            → run_wp_cron_once (permitted names c) get built ≡ run_wp_cron_once c get built)
  unfolding permitted_all
  rules-suffice lib c = (
    λ r hash e. λ i. reconcile lib (permitted_all c i) r hash e,
    λ get built. λ i. run_wp_cron_once (permitted_all c i) get built,
  )
