-- ===== src/Api/Defaults.antt =====
-- The defaults that the markers of api/v1alpha1/site_types.go give for what a Site leaves out. A text
-- that is left out is empty; a Boolean with a default is an Option as long as it is not read.
use site_operator.Common.{String, Bool, true, false, Option, none, some, ◌==◌, if◌then◌else◌}
use site_operator.Api.Site.{
  SiteSpec, WordpressSpec, InstallSpec, PersistenceSpec, FileBrowserSpec, ProvisionSpec,
}

pub record WrittenFileBrowser : Type 0 where
  pub enabled : Option Bool
  pub image : String

-- A spec as it is written. Its file browser and whether it wants a database are not in `rest`, whose
-- own say on them is not read.
pub record WrittenSpec : Type 0 where
  pub rest : SiteSpec
  pub file_browser : Option WrittenFileBrowser
  pub database_enabled : Option Bool

-- A Boolean that is left out is read as false.
abbrev pub or_false : Option Bool → Bool
or_false none = false
or_false (some b) = b

abbrev pub or_bool : Bool → Option Bool → Option Bool
or_bool default none = some default
or_bool default (some b) = some b

abbrev pub or_default : String → String → String
or_default default x = if x == "" then default else x

abbrev pub default_install : Option InstallSpec → Option InstallSpec
default_install none = none
default_install (some i) = some (record i {
  admin_user = or_default "admin" i.admin_user;
  admin_email = or_default "admin@example.com" i.admin_email;
})

abbrev pub default_wordpress : Option WordpressSpec → Option WordpressSpec
default_wordpress none = none
default_wordpress (some w) = some (record w { install = default_install w.install })

abbrev pub default_persistence : Option PersistenceSpec → Option PersistenceSpec
default_persistence none = none
default_persistence (some p) = some (record p { size = or_default "1Gi" p.size })

abbrev pub default_file_browser : Option WrittenFileBrowser → Option WrittenFileBrowser
default_file_browser none = none
default_file_browser (some f) = some (record {
  enabled = or_bool true f.enabled;
  image = or_default "filebrowser/filebrowser:latest" f.image;
})

-- What the API server makes of a spec.
unfoldable pub default_spec : WrittenSpec → WrittenSpec
default_spec w = record {
  rest = record w.rest {
    domain = or_default "localhost" w.rest.domain;
    wordpress = default_wordpress w.rest.wordpress;
    persistence = default_persistence w.rest.persistence;
    update_strategy = or_default "RollingUpdate" w.rest.update_strategy;
  };
  file_browser = default_file_browser w.file_browser;
  database_enabled = or_bool false w.database_enabled;
}

abbrev pub read_file_browser : Option WrittenFileBrowser → Option FileBrowserSpec
read_file_browser none = none
read_file_browser (some f) = some (record { enabled = or_false f.enabled; image = f.image })

abbrev pub read_provision : Option Bool → Option ProvisionSpec → Option ProvisionSpec
read_provision enabled none = none
read_provision enabled (some p) = some (record p {
  database = elim p.database [
    | none ↦ none
    | some d ↦ some (record d { enabled = or_false enabled })
  ];
})

-- What the operator reads.
unfoldable pub read_spec : WrittenSpec → SiteSpec
read_spec w = record w.rest {
  file_browser = read_file_browser w.file_browser;
  provision = read_provision w.database_enabled w.rest.provision;
}
