-- ===== src/Provision/Cluster.antt =====
-- Which MariaDB cluster a Site is sent to.
use site_operator.Common.{true, Option, none, some, ◌≡◌, ◌==◌, arith, if◌then◌else◌}
use site_operator.Common.Outcome.{ok, err}
use site_operator.Api.Site.{Site, MariaDbClusterRef}
use site_operator.Helpers.{provision_enabled}
use site_operator.Provision.{resolve_maria_db_ref, no_cluster}

-- The first of two references that names a cluster.
abbrev pub named : Option MariaDbClusterRef → Option MariaDbClusterRef
named none = none
named (some r) = if r.name == "" then none else some r

abbrev pub first_named :
    Option MariaDbClusterRef → Option MariaDbClusterRef → Option MariaDbClusterRef
first_named none b = b
first_named (some r) b = some r

abbrev pub own_ref : Site → Option MariaDbClusterRef
own_ref site = elim site.spec.provision [
  | none ↦ none
  | some p ↦ elim p.database [ none ↦ none | some d ↦ d.maria_db_ref ]
]

-- With provisioning enabled the Site's own cluster is taken if it is named, else the operator's
-- default if that is named, and else there is an error; it never panics.
pub resolve_maria_db_ref_cases :
    (site : Site) (default : Option MariaDbClusterRef)
    → provision_enabled site ≡ true
    → resolve_maria_db_ref site default
      ≡ elim (first_named (named (own_ref site)) (named default)) [
        | some r ↦ ok r
        | none ↦ err no_cluster
      ]
unfolding resolve_maria_db_ref provision_enabled
resolve_maria_db_ref_cases site default h = ground arith
