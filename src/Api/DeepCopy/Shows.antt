-- ===== src/Api/DeepCopy/Shows.antt =====
-- What the structs of a heap show: a pointer shows what it points at, a map or a slice its entries.
use site_operator.Common.{Option, none, some, List, []}
use site_operator.Api.Site.{
  DatabaseProvisionSpec, ProvisionSpec, InstallSpec, WordpressSpec, DatabaseSpec, IngressSpec,
  PersistenceSpec, SiteSpec, SiteStatus, Site,
}
use site_operator.Api.DeepCopy.Heap.{
  string_cell, bool_cell, key_ref_cell, cluster_ref_cell, database_provision_cell, provision_cell,
  file_browser_cell, install_cell, debug_cell, wordpress_cell, ingress_cell, persistence_cell,
  nginx_cell, php_cell, map_cell, conditions_cell, sites_cell, object_meta_cell, list_meta_cell,
  Heap, TypeMeta, ListMeta, GoDatabaseProvisionSpec, GoProvisionSpec, GoInstallSpec,
  GoWordpressSpec, GoDatabaseSpec, GoIngressSpec, GoPersistenceSpec, GoSiteSpec, GoSiteStatus,
  GoSite, GoSiteList,
}
use site_operator.Api.DeepCopy.Copies.{pointed, shown}
use site_operator.Api.DeepCopy.Slices.{each}

-- A nil map or slice shows no entries.
abbrev pub entries : {A : Type 0} → Option (List A) → List A
entries none = []
entries (some xs) = xs

abbrev pub database_provision_spec : Heap → GoDatabaseProvisionSpec → DatabaseProvisionSpec
database_provision_spec h x = record {
  enabled = x.enabled;
  maria_db_ref = pointed cluster_ref_cell shown h x.maria_db_ref;
}

abbrev pub provision_spec : Heap → GoProvisionSpec → ProvisionSpec
provision_spec h x = record {
  database = pointed database_provision_cell database_provision_spec h x.database;
}

abbrev pub install_spec : Heap → GoInstallSpec → InstallSpec
install_spec h x = record {
  admin_user = x.admin_user;
  admin_email = x.admin_email;
  title = x.title;
  admin_password_secret = pointed key_ref_cell shown h x.admin_password_secret;
  admin_password = pointed string_cell shown h x.admin_password;
}

abbrev pub wordpress_spec : Heap → GoWordpressSpec → WordpressSpec
wordpress_spec h x = record {
  debug = pointed debug_cell shown h x.debug;
  install = pointed install_cell install_spec h x.install;
  version = x.version;
}

abbrev pub database_spec : Heap → GoDatabaseSpec → DatabaseSpec
database_spec h x = record {
  host = x.host;
  name = x.name;
  user_secret = pointed key_ref_cell shown h x.user_secret;
  password_secret = pointed key_ref_cell shown h x.password_secret;
  user = pointed string_cell shown h x.user;
  password = pointed string_cell shown h x.password;
}

abbrev pub ingress_spec : Heap → GoIngressSpec → IngressSpec
ingress_spec h x = record {
  enabled = x.enabled;
  path = x.path;
  tls = pointed bool_cell shown h x.tls;
  annotations = entries (pointed map_cell shown h x.annotations);
  ingress_class_name = x.ingress_class_name;
}

abbrev pub persistence_spec : Heap → GoPersistenceSpec → PersistenceSpec
persistence_spec h x = record {
  enabled = x.enabled;
  existing_claim = x.existing_claim;
  size = x.size;
  storage_class_name = pointed string_cell shown h x.storage_class_name;
}

abbrev pub site_spec : Heap → GoSiteSpec → SiteSpec
site_spec h x = record {
  foo = pointed string_cell shown h x.foo;
  domain = x.domain;
  ingress = pointed ingress_cell ingress_spec h x.ingress;
  wordpress = pointed wordpress_cell wordpress_spec h x.wordpress;
  database = database_spec h x.database;
  persistence = pointed persistence_cell persistence_spec h x.persistence;
  node_selector = entries (pointed map_cell shown h x.node_selector);
  file_browser = pointed file_browser_cell shown h x.file_browser;
  provision = pointed provision_cell provision_spec h x.provision;
  update_strategy = x.update_strategy;
  nginx = pointed nginx_cell shown h x.nginx;
  php = pointed php_cell shown h x.php;
}

abbrev pub site_status : Heap → GoSiteStatus → SiteStatus
site_status h x = record { conditions = entries (pointed conditions_cell shown h x.conditions) }

abbrev pub site : Heap → GoSite → TypeMeta × Site
site h x = (
  x.type_meta,
  record {
    meta = h.cells object_meta_cell x.meta;
    spec = site_spec h x.spec;
    status = site_status h x.status;
  },
)

abbrev pub site_list : Heap → GoSiteList → TypeMeta × ListMeta × List (TypeMeta × Site)
site_list h x =
    (x.type_meta, h.cells list_meta_cell x.meta, entries (pointed sites_cell (each site) h x.items))
