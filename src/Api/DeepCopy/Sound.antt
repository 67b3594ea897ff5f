-- ===== src/Api/DeepCopy/Sound.antt =====
-- Where no address that the structs of a heap hold, or lead to, is dangling.
use site_operator.Common.{◌<◌}
use site_operator.Api.DeepCopy.Heap.{
  string_cell, bool_cell, key_ref_cell, cluster_ref_cell, database_provision_cell, provision_cell,
  file_browser_cell, install_cell, debug_cell, wordpress_cell, ingress_cell, persistence_cell,
  nginx_cell, php_cell, map_cell, conditions_cell, sites_cell, Heap, GoDatabaseProvisionSpec,
  GoProvisionSpec, GoInstallSpec, GoWordpressSpec, GoDatabaseSpec, GoIngressSpec, GoPersistenceSpec,
  GoSiteSpec, GoSiteStatus, GoSite, GoSiteList,
}
use site_operator.Api.DeepCopy.Copies.{Points, Flat}
use site_operator.Api.DeepCopy.Slices.{Each}

abbrev pub DatabaseProvisionSpecIsSound : Heap → GoDatabaseProvisionSpec → Type 0
DatabaseProvisionSpecIsSound h x = Points cluster_ref_cell Flat h x.maria_db_ref

abbrev pub ProvisionSpecIsSound : Heap → GoProvisionSpec → Type 0
ProvisionSpecIsSound h x = Points database_provision_cell DatabaseProvisionSpecIsSound h x.database

abbrev pub InstallSpecIsSound : Heap → GoInstallSpec → Type 0
InstallSpecIsSound h x =
    Points key_ref_cell Flat h x.admin_password_secret × Points string_cell Flat h x.admin_password

abbrev pub WordpressSpecIsSound : Heap → GoWordpressSpec → Type 0
WordpressSpecIsSound h x =
    Points debug_cell Flat h x.debug × Points install_cell InstallSpecIsSound h x.install

abbrev pub DatabaseSpecIsSound : Heap → GoDatabaseSpec → Type 0
DatabaseSpecIsSound h x =
    Points key_ref_cell Flat h x.user_secret
    × Points key_ref_cell Flat h x.password_secret
    × Points string_cell Flat h x.user
    × Points string_cell Flat h x.password

abbrev pub IngressSpecIsSound : Heap → GoIngressSpec → Type 0
IngressSpecIsSound h x = Points bool_cell Flat h x.tls × Points map_cell Flat h x.annotations

abbrev pub PersistenceSpecIsSound : Heap → GoPersistenceSpec → Type 0
PersistenceSpecIsSound h x = Points string_cell Flat h x.storage_class_name

pub record SiteSpecIsSound (h : Heap) (x : GoSiteSpec) : Type 0 where
  pub foo : Points string_cell Flat h x.foo
  pub ingress : Points ingress_cell IngressSpecIsSound h x.ingress
  pub wordpress : Points wordpress_cell WordpressSpecIsSound h x.wordpress
  pub database : DatabaseSpecIsSound h x.database
  pub persistence : Points persistence_cell PersistenceSpecIsSound h x.persistence
  pub node_selector : Points map_cell Flat h x.node_selector
  pub file_browser : Points file_browser_cell Flat h x.file_browser
  pub provision : Points provision_cell ProvisionSpecIsSound h x.provision
  pub nginx : Points nginx_cell Flat h x.nginx
  pub php : Points php_cell Flat h x.php

abbrev pub SiteStatusIsSound : Heap → GoSiteStatus → Type 0
SiteStatusIsSound h x = Points conditions_cell Flat h x.conditions

abbrev pub SiteIsSound : Heap → GoSite → Type 0
SiteIsSound h x = (x.meta < h.next) × SiteSpecIsSound h x.spec × SiteStatusIsSound h x.status

abbrev pub SiteListIsSound : Heap → GoSiteList → Type 0
SiteListIsSound h x = (x.meta < h.next) × Points sites_cell (Each SiteIsSound) h x.items
