-- ===== src/Manager/Defaults.antt =====
-- The default MariaDB cluster of the flags.
use site_operator.Common.{true, none, ◌≡◌, ◌==◌, ◌∙◌, if◌then◌else◌, arith}
use site_operator.Common.Outcome.{ok, err}
use site_operator.Api.Site.{Site}
use site_operator.Helpers.{provision_enabled}
use site_operator.Provision.{resolve_maria_db_ref, no_cluster}
use site_operator.Provision.Cluster.{own_ref, named, resolve_maria_db_ref_cases}
use site_operator.Manager.{default_maria_db_ref, site_reconciler}
use site_operator.Manager.CommandLine.{Flags}

-- For a Site that wants a database provisioned and names no cluster of its own, the operator takes
-- the cluster of --default-mariadb-name and --default-mariadb-namespace, and without such a name
-- there is an error.
pub resolve_maria_db_ref-flags :
    (f : Flags) (site : Site)
    → provision_enabled site ≡ true
    → named (own_ref site) ≡ none
    → resolve_maria_db_ref site (site_reconciler f).default_maria_db_ref ≡ (
        if f.default_maria_db_name == ""
        then err no_cluster
        else ok
            (record { name = f.default_maria_db_name; namespace = f.default_maria_db_namespace }))
unfolding site_reconciler default_maria_db_ref
resolve_maria_db_ref-flags f site on unnamed =
    resolve_maria_db_ref_cases site (default_maria_db_ref f) on ∙ rw unnamed (ground arith)
