-- ===== src/Tests/Copies.antt =====
-- Tests: deep copies of api/v1alpha1/zz_generated.deepcopy.go in a concrete heap.
use site_operator.Common.{
  arith, some-injective, ℕ, ◌≤◌, ◌<◌, true, false, Option, none, some, [], ◌∷◌, ◌≡◌, refl,
}
use site_operator.Common.Int.{pos}
use site_operator.Kube.Meta.{condition_true}
use site_operator.Api.DeepCopy.Heap.{
  string_cell, bool_cell, key_ref_cell, cluster_ref_cell, database_provision_cell, provision_cell,
  file_browser_cell, install_cell, debug_cell, wordpress_cell, ingress_cell, persistence_cell,
  nginx_cell, php_cell, map_cell, conditions_cell, object_meta_cell, list_meta_cell, site_cell,
  sites_cell, site_list_cell, spec_cell, status_cell, database_cell, Tag, El, Heap, S, pure, ◌>>=◌,
  store, store_elsewhere, GoSite, GoSiteSpec, GoSiteStatus, GoDatabaseSpec,
}
use site_operator.Api.DeepCopy.Sound.{SiteIsSound}
use site_operator.Tests.Fixtures.{named_meta}
use site_operator.Api.DeepCopy.Copies.{
  Deep, shown, pointed, pure-Deep, pointer-Deep, bind-Makes, pure-Makes, copy_pointer,
}
use site_operator.Api.DeepCopy.Into.{Machinery}
use site_operator.Api.DeepCopy.New
use site_operator.Api.DeepCopy.Separate.{Documented, seen_list, site_list-Separate}

-- Machinery that copies a cell of flat values.
abbrev address_of : Option ℕ → ℕ
address_of none = 0
address_of (some p) = p

abbrev copy_cell : Tag → ℕ → S ℕ
copy_cell t p = do q ← copy_pointer t pure (some p); pure (address_of q)

cell_shown :
    (t : Tag) (k : Heap) (q : Option ℕ) (v : El t)
    → pointed t shown k q ≡ some v
    → k.cells t (address_of q) ≡ v
cell_shown t k none v e = cc
cell_shown t k (some p) v e = some-injective e

copy_cell-Deep : (t : Tag) → Deep (λ h p. p < h.next) (λ h p. h.cells t p) (copy_cell t)
copy_cell-Deep t = record {
  copies = λ {E} {h0} x w.
      bind-Makes ((pointer-Deep t (pure-Deep (λ y. refl))).copies (some x) (w, tt))
        λ q. pure-Makes (λ k e. cell_shown t k q (h0.cells t x) e.1);
  settles = λ h k x w same. same t x w;
}

abbrev machinery : Machinery
machinery = record {
  copy_object_meta = copy_cell object_meta_cell;
  copy_list_meta = copy_cell list_meta_cell;
  copy_condition = λ c. c;
}

machinery-Documented : Documented machinery
machinery-Documented = record {
  object_meta = copy_cell-Deep object_meta_cell;
  list_meta = copy_cell-Deep list_meta_cell;
  condition = λ c. refl;
}

-- A heap whose cells of one kind are all alike.
abbrev stored_database : GoDatabaseSpec
stored_database = record {
  host = "db";
  name = "blog";
  user_secret = some 2;
  password_secret = none;
  user = none;
  password = some 3;
}

abbrev stored_spec : GoSiteSpec
stored_spec = record {
  foo = none;
  domain = "blog.example.org";
  ingress = some 4;
  wordpress = some 5;
  database = stored_database;
  persistence = some 6;
  node_selector = some 7;
  file_browser = some 8;
  provision = some 9;
  update_strategy = "";
  nginx = some 10;
  php = none;
}

abbrev stored_status : GoSiteStatus
stored_status = record { conditions = some 11 }

abbrev stored_site : GoSite
stored_site = record {
  type_meta = record { kind = "Site"; api_version = "operator.example.org/v1alpha1" };
  meta = 1;
  spec = stored_spec;
  status = stored_status;
}

abbrev stored : (t : Tag) → El t
stored string_cell = "text"
stored bool_cell = true
stored key_ref_cell = record { name = "login"; key = "user" }
stored cluster_ref_cell = record { name = "galera"; namespace = "data" }
stored database_provision_cell = record { enabled = true; maria_db_ref = some 12 }
stored provision_cell = record { database = some 13 }
stored file_browser_cell = record { enabled = true; image = "" }
stored install_cell = record {
  admin_user = "admin";
  admin_email = "";
  title = "";
  admin_password_secret = some 2;
  admin_password = none;
}
stored debug_cell = record { enabled = true; log = false; display = false }
stored wordpress_cell = record { debug = some 14; install = some 15; version = "6" }
stored ingress_cell = record {
  enabled = true;
  path = "/";
  tls = some 16;
  annotations = some 7;
  ingress_class_name = "nginx";
}
stored persistence_cell = record {
  enabled = true;
  existing_claim = "";
  size = "1Gi";
  storage_class_name = some 3;
}
stored nginx_cell = record { image = "nginx"; config = "" }
stored php_cell = record { image = "php"; config = "" }
stored map_cell = ("disk", "ssd") ∷ []
stored conditions_cell =
    record {
      kind = "Ready";
      status = condition_true;
      observed_generation = pos 2;
      last_transition_time = pos 7;
      reason = "Reconciled";
      message = "";
    }
    ∷ []
stored object_meta_cell = named_meta "full"
stored list_meta_cell = record { resource_version = "7"; remaining_item_count = none }
stored site_cell = stored_site
stored sites_cell = stored_site ∷ stored_site ∷ []
stored site_list_cell = record {
  type_meta = record { kind = "SiteList"; api_version = "operator.example.org/v1alpha1" };
  meta = 1;
  items = some 17;
}
stored spec_cell = stored_spec
stored status_cell = stored_status
stored database_cell = stored_database

abbrev memory : Heap
memory = record { next = 30; cells = λ t p. stored t }

-- Writing a text in the copy's part of the heap, and in the original's.
abbrev copy_written : Heap
copy_written = (store string_cell 30 "copy" memory).1

copy_written_same : (t : Tag) (p : ℕ) → p < 30 → copy_written.cells t p ≡ stored t
copy_written_same t p lt = store_elsewhere string_cell t 30 p "copy" memory (λ e. omega (arith, e))

original_written :
    (r : Heap) (t : Tag) (p : ℕ) → 30 ≤ p → (store string_cell 3 "new" r).1.cells t p ≡ r.cells t p
original_written r t p le = store_elsewhere string_cell t 3 p "new" r (λ e. omega (arith, e))

site_sound : SiteIsSound memory stored_site
site_sound = (
  omega arith,
  record {
    foo = tt;
    ingress = (omega arith, ((omega arith, tt), (omega arith, tt)));
    wordpress = (omega arith, ((omega arith, tt), (omega arith, ((omega arith, tt), tt))));
    database = ((omega arith, tt), tt, tt, (omega arith, tt));
    persistence = (omega arith, (omega arith, tt));
    node_selector = (omega arith, tt);
    file_browser = (omega arith, tt);
    provision = (omega arith, (omega arith, (omega arith, tt)));
    nginx = (omega arith, tt);
    php = tt;
  },
  (omega arith, tt),
)

site_list-Separate_example : seen_list copy_written (some 0) ≡ seen_list memory (some 0)
site_list-Separate_example =
    (site_list-Separate machinery machinery-Documented (some 0) memory copy_written
      (store string_cell 3 "new" (New.site_list machinery (some 0) memory).1).1
      (omega arith, (omega arith, (omega arith, (site_sound, (site_sound, tt))))) copy_written_same
      (λ t p lo hi. original_written (New.site_list machinery (some 0) memory).1 t p lo)).2
