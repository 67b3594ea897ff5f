-- ===== src/Api/Group.antt =====
-- api/v1alpha1/groupversion_info.go
use site_operator.Common.{String}

-- `schema.GroupVersion`
pub record GroupVersion : Type 0 where
  pub group : String
  pub version : String

unfoldable pub group_version : GroupVersion
group_version = record { group = "site.operator"; version = "v1alpha1" }
