-- ===== src/Api/Validation.antt =====
-- The XValidation rule on SiteSpec in api/v1alpha1/site_types.go, which the API server evaluates
-- when a Site is written.
use site_operator.Common.{Bool, false, ◌&&◌, ◌||◌, not, Option, none, some}
use site_operator.Common.{is_some, if◌then◌else◌}
use site_operator.Api.Site.{SiteSpec, ProvisionSpec}

provision_database_enabled : Option ProvisionSpec → Bool
provision_database_enabled p = elim p [
  | none ↦ false
  | some q ↦ elim q.database [ none ↦ false | some d ↦ d.enabled ]
]

-- Exactly one of two optional fields is set.
abbrev exactly_one : Bool → Bool → Bool
exactly_one a b = (a && not b) || (not a && b)

unfoldable pub credentials_valid : SiteSpec → Bool
unfolding provision_database_enabled
credentials_valid s =
    if provision_database_enabled s.provision
    then not (is_some user_secret)
      && not (is_some user)
      && not (is_some password_secret)
      && not (is_some password)
    else exactly_one (is_some user_secret) (is_some user)
      && exactly_one (is_some password_secret) (is_some password)
  where
    open s.database use {user_secret, password_secret, user, password}
