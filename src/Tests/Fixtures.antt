-- ===== src/Tests/Fixtures.antt =====
-- A Site with every feature on, and a plain one.
use site_operator.Common.{ℕ, zero, true, none, some, [], ◌∷◌, suc, String}
use site_operator.Common.Int.{pos}
use site_operator.Api.Site.{Site, SiteSpec, IngressSpec, InstallSpec, MariaDbClusterRef}
use site_operator.Kube.Meta.{ObjectMeta}
use site_operator.Kube.Objects.{Bytes}
use site_operator.Secret.{Entropy, Filling}

abbrev pub named_meta : String → ObjectMeta
named_meta name = record {
  name = name;
  namespace = "blogs";
  labels = [];
  annotations = [];
  owner_references = [];
  uid = name;
  created = true;
  generation = pos 2;
}

abbrev pub plain_spec : SiteSpec
plain_spec = record {
  foo = none;
  domain = "blog.example.org";
  ingress = none;
  wordpress = none;
  database = record {
    host = "db";
    name = "blog";
    user_secret = none;
    password_secret = none;
    user = some "wp";
    password = some "secret";
  };
  persistence = none;
  node_selector = [];
  file_browser = none;
  provision = none;
  update_strategy = "";
  nginx = none;
  php = none;
}

abbrev pub plain_site : Site
plain_site = record {
  meta = named_meta "plain";
  spec = plain_spec;
  status = record { conditions = [] };
}

abbrev pub own_cluster : MariaDbClusterRef
own_cluster = record { name = "galera"; namespace = "data" }

abbrev pub full_ingress : IngressSpec
full_ingress = record {
  enabled = true;
  path = "/";
  tls = some true;
  annotations = ("a", "b") ∷ [];
  ingress_class_name = "nginx";
}

abbrev pub full_install : InstallSpec
full_install = record {
  admin_user = "admin";
  admin_email = "admin@example.org";
  title = "Blog";
  admin_password_secret = none;
  admin_password = none;
}

abbrev pub full_spec : SiteSpec
full_spec = record plain_spec {
  ingress = some full_ingress;
  wordpress = some (record { debug = none; install = some full_install; version = "" });
  database = record {
    host = "db";
    name = "blog";
    user_secret = none;
    password_secret = none;
    user = none;
    password = none;
  };
  persistence =
      some
        (record { enabled = true; existing_claim = ""; size = "10Gi"; storage_class_name = none });
  file_browser = some (record { enabled = true; image = "" });
  provision =
      some
        (record { database = some (record { enabled = true; maria_db_ref = some own_cluster }) });
}

abbrev pub full_site : Site
full_site = record {
  meta = named_meta "full";
  spec = full_spec;
  status = record { conditions = [] };
}

abbrev pub zeros : ℕ → Bytes
zeros zero = []
zeros (suc n) = 0 ∷ zeros n

-- `rand.Read` answers with zeros.
abbrev pub zero_entropy : Entropy
zero_entropy i n = some (zeros n)

-- A Secret that holds one salt already.
abbrev pub one_salt : Filling
one_salt = record { contents = ("NONCE_KEY", 104 ∷ 105 ∷ []) ∷ []; calls = 0 }
