-- ===== src/Api/DeepCopy/New.antt =====
-- The `DeepCopy` and `DeepCopyObject` methods of api/v1alpha1/zz_generated.deepcopy.go: for a
-- pointer, a pointer to a new struct that `DeepCopyInto` has written.
use site_operator.Common.{ℕ, Option, none, some}
use site_operator.Api.DeepCopy.Heap.{
  key_ref_cell, cluster_ref_cell, database_provision_cell, provision_cell, file_browser_cell,
  install_cell, debug_cell, wordpress_cell, ingress_cell, persistence_cell, nginx_cell, php_cell,
  site_cell, site_list_cell, spec_cell, status_cell, database_cell, S, pure, ◌>>=◌,
}
use site_operator.Api.DeepCopy.Copies.{copy_pointer}
use site_operator.Api.DeepCopy.Into
use site_operator.Api.DeepCopy.Into.{Machinery}

unfoldable pub database_provision_spec : Option ℕ → S (Option ℕ)
database_provision_spec = copy_pointer database_provision_cell Into.database_provision_spec

unfoldable pub database_spec : Option ℕ → S (Option ℕ)
database_spec = copy_pointer database_cell Into.database_spec

unfoldable pub debug_spec : Option ℕ → S (Option ℕ)
debug_spec = copy_pointer debug_cell Into.debug_spec

unfoldable pub file_browser_spec : Option ℕ → S (Option ℕ)
file_browser_spec = copy_pointer file_browser_cell Into.file_browser_spec

unfoldable pub ingress_spec : Option ℕ → S (Option ℕ)
ingress_spec = copy_pointer ingress_cell Into.ingress_spec

unfoldable pub install_spec : Option ℕ → S (Option ℕ)
install_spec = copy_pointer install_cell Into.install_spec

unfoldable pub maria_db_cluster_ref : Option ℕ → S (Option ℕ)
maria_db_cluster_ref = copy_pointer cluster_ref_cell Into.maria_db_cluster_ref

unfoldable pub nginx_spec : Option ℕ → S (Option ℕ)
nginx_spec = copy_pointer nginx_cell Into.nginx_spec

unfoldable pub persistence_spec : Option ℕ → S (Option ℕ)
persistence_spec = copy_pointer persistence_cell Into.persistence_spec

unfoldable pub php_spec : Option ℕ → S (Option ℕ)
php_spec = copy_pointer php_cell Into.php_spec

unfoldable pub provision_spec : Option ℕ → S (Option ℕ)
provision_spec = copy_pointer provision_cell Into.provision_spec

unfoldable pub secret_key_ref : Option ℕ → S (Option ℕ)
secret_key_ref = copy_pointer key_ref_cell Into.secret_key_ref

unfoldable pub site : Machinery → Option ℕ → S (Option ℕ)
site m = copy_pointer site_cell (Into.site m)

unfoldable pub site_list : Machinery → Option ℕ → S (Option ℕ)
site_list m = copy_pointer site_list_cell (Into.site_list m)

unfoldable pub site_spec : Option ℕ → S (Option ℕ)
site_spec = copy_pointer spec_cell Into.site_spec

unfoldable pub site_status : Machinery → Option ℕ → S (Option ℕ)
site_status m = copy_pointer status_cell (Into.site_status m)

unfoldable pub wordpress_spec : Option ℕ → S (Option ℕ)
wordpress_spec = copy_pointer wordpress_cell Into.wordpress_spec

-- `runtime.Object`: an interface value holds a pointer with its type.
pub data RuntimeObject : Type 0 where
  a_site a_site_list : ℕ → RuntimeObject

-- A nil pointer becomes a nil interface, not an interface that holds a nil pointer.
unfoldable pub object : (ℕ → RuntimeObject) → Option ℕ → Option RuntimeObject
object type_of none = none
object type_of (some p) = some (type_of p)

unfoldable pub site_object : Machinery → Option ℕ → S (Option RuntimeObject)
site_object m p = do c ← site m p; pure (object a_site c)

unfoldable pub site_list_object : Machinery → Option ℕ → S (Option RuntimeObject)
site_list_object m p = do c ← site_list m p; pure (object a_site_list c)
