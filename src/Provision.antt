-- ===== src/Provision.antt =====
-- internal/controller/provision.go: the objects of mariadb-operator. `provisionEnabled` and
-- `provisionedUsername` are in Helpers.
pub mod Username
pub mod Cluster
use site_operator.Common.{
  String, Bool, true, false, Option, none, some, List, [], ◌∷◌, ◌==◌, ◌<>◌, not, if◌then◌else◌,
}
use site_operator.Common.Outcome.{Outcome, ok, err, panic, Error, message, wrapped, map_ok}
use site_operator.Api.Site.{Site, ProvisionSpec, MariaDbClusterRef}
use site_operator.Kube.Objects.{Database, User, Grant, MariaDbRef, Kind}
use site_operator.Kube.Library.{Library}
use site_operator.Kube.Action.{◌>>=◌, ◌>>◌, pure, lift, wrap_err}
use site_operator.Kube.Client.{Client, M}
use site_operator.Helpers.{
  provision_enabled, provisioned_username, new_meta, site_secret, db_password_key,
}

-- `site.Spec.Provision.Database.MariaDBRef`, which panics on a nil pointer.
own_maria_db_ref : Option ProvisionSpec → Outcome (Option MariaDbClusterRef)
own_maria_db_ref none = panic "nil pointer dereference"
own_maria_db_ref (some p) = elim p.database [
  | none ↦ panic "nil pointer dereference"
  | some d ↦ ok d.maria_db_ref
]

unfoldable pub no_cluster : Error
no_cluster =
    message
      "provision.database.enabled is true but no mariadbRef is set on the Site and no default MariaDB cluster is configured on the operator"

default_or_error : Option MariaDbClusterRef → Outcome MariaDbClusterRef
unfolding no_cluster
default_or_error none = err no_cluster
default_or_error (some d) = if d.name == "" then err no_cluster else ok d

own_or_default : Option MariaDbClusterRef → Option MariaDbClusterRef → Outcome MariaDbClusterRef
unfolding default_or_error
own_or_default none default = default_or_error default
own_or_default (some r) default = if r.name == "" then default_or_error default else ok r

unfoldable pub resolve_maria_db_ref : Site → Option MariaDbClusterRef → Outcome MariaDbClusterRef
unfolding own_maria_db_ref own_or_default
resolve_maria_db_ref site default = elim (own_maria_db_ref site.spec.provision) [
  | ok own ↦ own_or_default own default
  | err e ↦ err e
  | panic s ↦ panic s
]

abbrev pub to_maria_db_ref : MariaDbClusterRef → MariaDbRef
to_maria_db_ref r = record { name = r.name; namespace = r.namespace; wait_for_it = true }

abbrev no_ref : MariaDbRef
no_ref = record { name = ""; namespace = ""; wait_for_it = false }

module _ (lib : Library) where
  unfoldable pub mutate_database : Site → MariaDbRef → Database → Outcome Database
  mutate_database site ref db =
      map_ok (λ m. record { meta = m; maria_db_ref = ref; name = site.spec.database.name })
        (lib.set_controller_reference site.meta db.meta)

  unfoldable pub mutate_user : Site → MariaDbRef → User → Outcome User
  mutate_user site ref user =
      map_ok
        (λ m. record {
          meta = m;
          maria_db_ref = ref;
          name = provisioned_username site;
          password_secret_key_ref =
              some (record { name = site_secret site; key = db_password_key });
        })
        (lib.set_controller_reference site.meta user.meta)

  unfoldable pub mutate_grant : Site → MariaDbRef → Grant → Outcome Grant
  mutate_grant site ref grant =
      map_ok
        (λ m. record {
          meta = m;
          maria_db_ref = ref;
          privileges = "ALL PRIVILEGES" ∷ [];
          database = site.spec.database.name;
          table = "*";
          username = provisioned_username site;
        })
        (lib.set_controller_reference site.meta grant.meta)

  module _ (c : Client) (site : Site) (ref : MariaDbRef) where
    unfoldable pub reconcile_database : M c (Unit {0})
    reconcile_database = c.retry_on_conflict (
        c.create_or_update Kind.database
          (record { meta = new_meta site.meta.name site; maria_db_ref = no_ref; name = "" })
          (mutate_database site ref))

    unfoldable pub reconcile_user : M c (Unit {0})
    reconcile_user = c.retry_on_conflict (
        c.create_or_update Kind.user
          (record {
            meta = new_meta (site.meta.name <> "-db-user") site;
            maria_db_ref = no_ref;
            name = "";
            password_secret_key_ref = none;
          })
          (mutate_user site ref))

    unfoldable pub reconcile_grant : M c (Unit {0})
    reconcile_grant = c.retry_on_conflict (
        c.create_or_update Kind.grant
          (record {
            meta = new_meta (site.meta.name <> "-db-grant") site;
            maria_db_ref = no_ref;
            privileges = [];
            database = "";
            table = "";
            username = "";
          })
          (mutate_grant site ref))

    unfoldable pub reconcile_maria_db : M c (Unit {0})
    reconcile_maria_db =
        wrap_err (wrapped "reconciling mariadb Database") reconcile_database
        >> wrap_err (wrapped "reconciling mariadb User") reconcile_user
        >> wrap_err (wrapped "reconciling mariadb Grant") reconcile_grant

  unfoldable pub reconcile_database_provision :
      (c : Client) → Site → Option MariaDbClusterRef → M c (Unit {0})
  reconcile_database_provision c site default =
      if provision_enabled site
      then lift (resolve_maria_db_ref site default)
        >>= (λ ref. reconcile_maria_db c site (to_maria_db_ref ref))
      else pure tt
