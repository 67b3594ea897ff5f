-- ===== src/Api/DeepCopy/Into.antt =====
-- The `DeepCopyInto` methods of api/v1alpha1/zz_generated.deepcopy.go, each as a function from the
-- struct at `in` to the struct that it writes at `out`.
use site_operator.Common.{ℕ, String, [], ◌∷◌, map, Dict}
use site_operator.Kube.Meta.{Condition}
use site_operator.Api.Site.{
  SecretKeyRef, MariaDbClusterRef, FileBrowserSpec, DebugSpec, PhpSpec, NginxSpec,
}
use site_operator.Api.DeepCopy.Heap.{
  string_cell, bool_cell, key_ref_cell, cluster_ref_cell, database_provision_cell, provision_cell,
  file_browser_cell, install_cell, debug_cell, wordpress_cell, ingress_cell, persistence_cell,
  nginx_cell, php_cell, map_cell, conditions_cell, sites_cell, S, pure, ◌>>=◌,
  GoDatabaseProvisionSpec, GoProvisionSpec, GoInstallSpec, GoWordpressSpec, GoDatabaseSpec,
  GoIngressSpec, GoPersistenceSpec, GoSiteSpec, GoSiteStatus, GoSite, GoSiteList,
}
use site_operator.Api.DeepCopy.Copies.{copy_pointer}
use site_operator.Api.DeepCopy.Slices.{copy_elements}

-- The `DeepCopyInto` methods of k8s.io/apimachinery that the generated ones call.
pub record Machinery : Type 0 where
  pub copy_object_meta : ℕ → S ℕ
  pub copy_list_meta : ℕ → S ℕ
  pub copy_condition : Condition → Condition

-- `for key, val := range *in { (*out)[key] = val }`: the keys of a Go map are distinct.
unfoldable pub copy_entries : Dict String → Dict String
copy_entries [] = []
copy_entries ((key, val) ∷ entries) = (key, val) ∷ copy_entries entries

unfoldable pub database_provision_spec : GoDatabaseProvisionSpec → S GoDatabaseProvisionSpec
database_provision_spec x = do
  ref ← copy_pointer cluster_ref_cell pure x.maria_db_ref
  pure (record x { maria_db_ref = ref })

unfoldable pub database_spec : GoDatabaseSpec → S GoDatabaseSpec
database_spec x = do
  user_secret ← copy_pointer key_ref_cell pure x.user_secret
  password_secret ← copy_pointer key_ref_cell pure x.password_secret
  user ← copy_pointer string_cell pure x.user
  password ← copy_pointer string_cell pure x.password
  pure (record x {
    user_secret = user_secret;
    password_secret = password_secret;
    user = user;
    password = password;
  })

unfoldable pub debug_spec : DebugSpec → S DebugSpec
debug_spec x = pure x

unfoldable pub file_browser_spec : FileBrowserSpec → S FileBrowserSpec
file_browser_spec x = pure x

unfoldable pub ingress_spec : GoIngressSpec → S GoIngressSpec
ingress_spec x = do
  tls ← copy_pointer bool_cell pure x.tls
  annotations ← copy_pointer map_cell (λ entries. pure (copy_entries entries)) x.annotations
  pure (record x { tls = tls; annotations = annotations })

unfoldable pub install_spec : GoInstallSpec → S GoInstallSpec
install_spec x = do
  secret ← copy_pointer key_ref_cell pure x.admin_password_secret
  password ← copy_pointer string_cell pure x.admin_password
  pure (record x { admin_password_secret = secret; admin_password = password })

unfoldable pub maria_db_cluster_ref : MariaDbClusterRef → S MariaDbClusterRef
maria_db_cluster_ref x = pure x

unfoldable pub nginx_spec : NginxSpec → S NginxSpec
nginx_spec x = pure x

unfoldable pub persistence_spec : GoPersistenceSpec → S GoPersistenceSpec
persistence_spec x = do
  name ← copy_pointer string_cell pure x.storage_class_name
  pure (record x { storage_class_name = name })

unfoldable pub php_spec : PhpSpec → S PhpSpec
php_spec x = pure x

unfoldable pub provision_spec : GoProvisionSpec → S GoProvisionSpec
provision_spec x = do
  database ← copy_pointer database_provision_cell database_provision_spec x.database
  pure (record x { database = database })

unfoldable pub secret_key_ref : SecretKeyRef → S SecretKeyRef
secret_key_ref x = pure x

unfoldable pub wordpress_spec : GoWordpressSpec → S GoWordpressSpec
wordpress_spec x = do
  debug ← copy_pointer debug_cell pure x.debug
  install ← copy_pointer install_cell install_spec x.install
  pure (record x { debug = debug; install = install })

unfoldable pub site_spec : GoSiteSpec → S GoSiteSpec
site_spec x = do
  foo ← copy_pointer string_cell pure x.foo
  ingress ← copy_pointer ingress_cell ingress_spec x.ingress
  wordpress ← copy_pointer wordpress_cell wordpress_spec x.wordpress
  database ← database_spec x.database
  persistence ← copy_pointer persistence_cell persistence_spec x.persistence
  selector ← copy_pointer map_cell (λ entries. pure (copy_entries entries)) x.node_selector
  file_browser ← copy_pointer file_browser_cell pure x.file_browser
  provision ← copy_pointer provision_cell provision_spec x.provision
  nginx ← copy_pointer nginx_cell pure x.nginx
  php ← copy_pointer php_cell pure x.php
  pure (record x {
    foo = foo;
    ingress = ingress;
    wordpress = wordpress;
    database = database;
    persistence = persistence;
    node_selector = selector;
    file_browser = file_browser;
    provision = provision;
    nginx = nginx;
    php = php;
  })

unfoldable pub site_status : Machinery → GoSiteStatus → S GoSiteStatus
site_status m x = do
  conditions ← copy_pointer conditions_cell (λ cs. pure (map m.copy_condition cs)) x.conditions
  pure (record x { conditions = conditions })

unfoldable pub site : Machinery → GoSite → S GoSite
site m x = do
  meta ← m.copy_object_meta x.meta
  spec ← site_spec x.spec
  status ← site_status m x.status
  pure (record x { meta = meta; spec = spec; status = status })

unfoldable pub site_list : Machinery → GoSiteList → S GoSiteList
site_list m x = do
  meta ← m.copy_list_meta x.meta
  items ← copy_pointer sites_cell (copy_elements (site m)) x.items
  pure (record x { meta = meta; items = items })
