-- ===== src/Api/DeepCopy/Deep.antt =====
-- That the copy of each struct of a spec is one of its own: of its parts first, then of what holds
-- them.
use site_operator.Common.{[], ◌∷◌, String, ◌≡◌, refl, ap, Dict}
use site_operator.Api.DeepCopy.Heap.{
  Tag, string_cell, bool_cell, key_ref_cell, cluster_ref_cell, database_provision_cell,
  provision_cell, file_browser_cell, install_cell, debug_cell, wordpress_cell, ingress_cell,
  persistence_cell, nginx_cell, php_cell, map_cell, pure,
}
use site_operator.Api.DeepCopy.Copies.{
  Deep, Flat, shown, Points, pointed, pure-Deep, pointer-Deep, bind-Makes, pure-Makes, copy_pointer,
}
use site_operator.Api.DeepCopy.Into
use site_operator.Api.DeepCopy.Shows
use site_operator.Api.DeepCopy.Sound.{
  DatabaseProvisionSpecIsSound, ProvisionSpecIsSound, InstallSpecIsSound, WordpressSpecIsSound,
  DatabaseSpecIsSound, IngressSpecIsSound, PersistenceSpecIsSound, SiteSpecIsSound,
}

copy_entries_same : (entries : Dict String) → Into.copy_entries entries ≡ entries
unfolding Into.copy_entries
copy_entries_same [] = refl
copy_entries_same (entry ∷ entries) = ap (λ rest. entry ∷ rest) (copy_entries_same entries)

-- A pointer to a type without addresses.
leaf-Deep : (t : Tag) → Deep (Points t Flat) (pointed t shown) (copy_pointer t pure)
leaf-Deep t = pointer-Deep t (pure-Deep (λ x. refl))

map-Deep :
    Deep
      (Points map_cell Flat)
      (pointed map_cell shown)
      (copy_pointer map_cell (λ entries. pure (Into.copy_entries entries)))
map-Deep = pointer-Deep map_cell (pure-Deep copy_entries_same)

pub database_provision_spec-Deep :
    Deep DatabaseProvisionSpecIsSound Shows.database_provision_spec Into.database_provision_spec
unfolding Into.database_provision_spec
database_provision_spec-Deep = record {
  copies = λ x w. bind-Makes ((leaf-Deep cluster_ref_cell).copies x.maria_db_ref w) λ m0.
      pure-Makes (λ k e i. record (Shows.database_provision_spec k x) { maria_db_ref = e.1 i });
  settles = λ h k x w same i. record (Shows.database_provision_spec k x) {
    maria_db_ref = (leaf-Deep cluster_ref_cell).settles h k x.maria_db_ref w same i;
  };
}

pub provision_spec-Deep : Deep ProvisionSpecIsSound Shows.provision_spec Into.provision_spec
unfolding Into.provision_spec
provision_spec-Deep = record {
  copies = λ x w.
      bind-Makes
        ((pointer-Deep database_provision_cell database_provision_spec-Deep).copies x.database w)
        λ d0. pure-Makes (λ k e i. record (Shows.provision_spec k x) { database = e.1 i });
  settles = λ h k x w same i. record (Shows.provision_spec k x) {
    database =
        (pointer-Deep database_provision_cell database_provision_spec-Deep).settles h k x.database w
          same i;
  };
}

pub install_spec-Deep : Deep InstallSpecIsSound Shows.install_spec Into.install_spec
unfolding Into.install_spec
install_spec-Deep = record {
  copies = λ x w. bind-Makes ((leaf-Deep key_ref_cell).copies x.admin_password_secret w.0) λ a0.
      bind-Makes ((leaf-Deep string_cell).copies x.admin_password w.1) λ a1. pure-Makes (λ k e i.
        record (Shows.install_spec k x) {
          admin_password_secret = e.0.1 i;
          admin_password = e.1 i;
        });
  settles = λ h k x w same i. record (Shows.install_spec k x) {
    admin_password_secret = (leaf-Deep key_ref_cell).settles h k x.admin_password_secret w.0 same i;
    admin_password = (leaf-Deep string_cell).settles h k x.admin_password w.1 same i;
  };
}

pub wordpress_spec-Deep : Deep WordpressSpecIsSound Shows.wordpress_spec Into.wordpress_spec
unfolding Into.wordpress_spec
wordpress_spec-Deep = record {
  copies = λ x w. bind-Makes ((leaf-Deep debug_cell).copies x.debug w.0) λ d0.
      bind-Makes ((pointer-Deep install_cell install_spec-Deep).copies x.install w.1) λ i1.
        pure-Makes
          (λ k e i. record (Shows.wordpress_spec k x) { debug = e.0.1 i; install = e.1 i });
  settles = λ h k x w same i. record (Shows.wordpress_spec k x) {
    debug = (leaf-Deep debug_cell).settles h k x.debug w.0 same i;
    install = (pointer-Deep install_cell install_spec-Deep).settles h k x.install w.1 same i;
  };
}

pub database_spec-Deep : Deep DatabaseSpecIsSound Shows.database_spec Into.database_spec
unfolding Into.database_spec
database_spec-Deep = record {
  copies = λ x w. bind-Makes ((leaf-Deep key_ref_cell).copies x.user_secret w.0) λ u0.
      bind-Makes ((leaf-Deep key_ref_cell).copies x.password_secret w.1) λ p1.
        bind-Makes ((leaf-Deep string_cell).copies x.user w.2) λ u2.
          bind-Makes ((leaf-Deep string_cell).copies x.password w.3) λ p3. pure-Makes (λ k e i.
            record (Shows.database_spec k x) {
              user_secret = e.0.0.0.1 i;
              password_secret = e.0.0.1 i;
              user = e.0.1 i;
              password = e.1 i;
            });
  settles = λ h k x w same i. record (Shows.database_spec k x) {
    user_secret = (leaf-Deep key_ref_cell).settles h k x.user_secret w.0 same i;
    password_secret = (leaf-Deep key_ref_cell).settles h k x.password_secret w.1 same i;
    user = (leaf-Deep string_cell).settles h k x.user w.2 same i;
    password = (leaf-Deep string_cell).settles h k x.password w.3 same i;
  };
}

pub ingress_spec-Deep : Deep IngressSpecIsSound Shows.ingress_spec Into.ingress_spec
unfolding Into.ingress_spec
ingress_spec-Deep = record {
  copies = λ x w. bind-Makes ((leaf-Deep bool_cell).copies x.tls w.0) λ t0.
      bind-Makes (map-Deep.copies x.annotations w.1) λ a1. pure-Makes (λ k e i.
        record (Shows.ingress_spec k x) { tls = e.0.1 i; annotations = Shows.entries (e.1 i) });
  settles = λ h k x w same i. record (Shows.ingress_spec k x) {
    tls = (leaf-Deep bool_cell).settles h k x.tls w.0 same i;
    annotations = Shows.entries (map-Deep.settles h k x.annotations w.1 same i);
  };
}

pub persistence_spec-Deep : Deep PersistenceSpecIsSound Shows.persistence_spec Into.persistence_spec
unfolding Into.persistence_spec
persistence_spec-Deep = record {
  copies = λ x w. bind-Makes ((leaf-Deep string_cell).copies x.storage_class_name w) λ s0.
      pure-Makes (λ k e i. record (Shows.persistence_spec k x) { storage_class_name = e.1 i });
  settles = λ h k x w same i. record (Shows.persistence_spec k x) {
    storage_class_name = (leaf-Deep string_cell).settles h k x.storage_class_name w same i;
  };
}

pub site_spec-Deep : Deep SiteSpecIsSound Shows.site_spec Into.site_spec
unfolding Into.site_spec
site_spec-Deep = record {
  copies = λ x w. bind-Makes ((leaf-Deep string_cell).copies x.foo w.foo) λ f0.
      bind-Makes ((pointer-Deep ingress_cell ingress_spec-Deep).copies x.ingress w.ingress) λ i1.
        bind-Makes
          ((pointer-Deep wordpress_cell wordpress_spec-Deep).copies x.wordpress w.wordpress)
          λ w2. bind-Makes (database_spec-Deep.copies x.database w.database) λ d3.
            bind-Makes
              ((pointer-Deep persistence_cell persistence_spec-Deep).copies x.persistence
                w.persistence)
              λ p4. bind-Makes (map-Deep.copies x.node_selector w.node_selector) λ n5.
                bind-Makes ((leaf-Deep file_browser_cell).copies x.file_browser w.file_browser)
                  λ f6.
                    bind-Makes
                      ((pointer-Deep provision_cell provision_spec-Deep).copies x.provision
                        w.provision)
                      λ p7. bind-Makes ((leaf-Deep nginx_cell).copies x.nginx w.nginx) λ n8.
                        bind-Makes ((leaf-Deep php_cell).copies x.php w.php) λ p9.
                          pure-Makes (λ k e i. record (Shows.site_spec k x) {
                            foo = e.0.0.0.0.0.0.0.0.0.1 i;
                            ingress = e.0.0.0.0.0.0.0.0.1 i;
                            wordpress = e.0.0.0.0.0.0.0.1 i;
                            database = e.0.0.0.0.0.0.1 i;
                            persistence = e.0.0.0.0.0.1 i;
                            node_selector = Shows.entries (e.0.0.0.0.1 i);
                            file_browser = e.0.0.0.1 i;
                            provision = e.0.0.1 i;
                            nginx = e.0.1 i;
                            php = e.1 i;
                          });
  settles = λ h k x w same i. record (Shows.site_spec k x) {
    foo = (leaf-Deep string_cell).settles h k x.foo w.foo same i;
    ingress = (pointer-Deep ingress_cell ingress_spec-Deep).settles h k x.ingress w.ingress same i;
    wordpress =
        (pointer-Deep wordpress_cell wordpress_spec-Deep).settles h k x.wordpress w.wordpress same
          i;
    database = database_spec-Deep.settles h k x.database w.database same i;
    persistence =
        (pointer-Deep persistence_cell persistence_spec-Deep).settles h k x.persistence
          w.persistence same i;
    node_selector = Shows.entries (map-Deep.settles h k x.node_selector w.node_selector same i);
    file_browser = (leaf-Deep file_browser_cell).settles h k x.file_browser w.file_browser same i;
    provision =
        (pointer-Deep provision_cell provision_spec-Deep).settles h k x.provision w.provision same
          i;
    nginx = (leaf-Deep nginx_cell).settles h k x.nginx w.nginx same i;
    php = (leaf-Deep php_cell).settles h k x.php w.php same i;
  };
}
