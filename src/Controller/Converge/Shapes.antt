-- ===== src/Controller/Converge/Shapes.antt =====
-- What the cluster should hold for a Site: its objects, as a list of wishes.
use site_operator.Common.{
  String, true, Option, none, some, List, [], ◌∷◌, ◌++◌, Dict, ◌≡◌, ◌<>◌, All, is_some, lookup,
  or_empty, ◌==◌, if◌then◌else◌,
}
use site_operator.Common.Outcome.{ok}
use site_operator.Api.Site.{Site, IngressSpec, PersistenceSpec, MariaDbClusterRef}
use site_operator.Kube.Meta.{Key, ObjectMeta}
use site_operator.Kube.Pod.{EnvVar, SecretKeySelector}
use site_operator.Kube.Objects.{
  Kind, Secret, ConfigMap, Deployment, Service, Ingress, PersistentVolumeClaim, Database, User,
  Grant,
}
use site_operator.Kube.Library.{Library}
use site_operator.Kube.Server.{Defaulted}
use site_operator.Helpers.{site_secret, provision_enabled, provisioned_username, db_password_key}
use site_operator.Secret.{Entropy, mutate_secret}
use site_operator.Secret.Keys.{generated_keys}
use site_operator.Provision.{to_maria_db_ref, mutate_database, mutate_user, mutate_grant}
use site_operator.Deployment.{build_deployment_spec, mutate_config_map, mutate_deployment}
use site_operator.Deployment.Config.{
  build_nginx_config_content, build_php_ini_content, config_checksum, php_ini_file_name, text_or,
}
use site_operator.Service.{service_ports, mutate_service}
use site_operator.Ingress.{ingress_paths, ingress_tls, wanted_of, mutate_ingress}
use site_operator.Pvc.{managed_persistence, mutate_pvc}
use site_operator.Controller.{site_labels, site_envs}
use site_operator.Controller.Converge.Ensure.{Is}
use site_operator.Controller.Converge.Stages.{Wish}

-- What is wanted is there, and what is not wanted is not.
abbrev pub AsWanted : {S A : Type 0} → (S → A → Type 0) → Option S → Option A → Type 0
AsWanted P none o = o ≡ none
AsWanted P (some x) o = Is (P x) o

module _ (lib : Library) (site : Site) where
  abbrev pub IsOwned : ObjectMeta → Type 0
  IsOwned m = lib.is_controlled_by m site.meta ≡ true

  abbrev pub key : String → Key
  key name = record { namespace = site.meta.namespace; name = name }

  -- Each of the following ends with the claim that the operator's callback, called again, would
  -- leave the object as it is.
  abbrev pub IsSecretOf : Secret → Type 0
  IsSecretOf x =
      IsOwned x.meta
      × All (λ (j : String). is_some (lookup j (or_empty x.contents)) ≡ true) (generated_keys site)
      × ((e : Entropy) → mutate_secret lib e site x ≡ ok x)

  abbrev pub IsConfigMapOf : Dict String → ConfigMap → Type 0
  IsConfigMapOf contents x =
      IsOwned x.meta × (x.contents ≡ contents) × (mutate_config_map lib site contents x ≡ ok x)

  abbrev pub IsDeploymentOf : Dict String → List EnvVar → String → Deployment → Type 0
  IsDeploymentOf labels envs config_hash x =
      IsOwned x.meta
      × (x.meta.labels ≡ labels)
      × (x.spec ≡ build_deployment_spec site labels envs config_hash)
      × (mutate_deployment lib site labels envs config_hash x ≡ ok x)

  abbrev pub IsServiceOf : Dict String → Service → Type 0
  IsServiceOf labels x =
      IsOwned x.meta
      × (x.meta.labels ≡ labels)
      × (x.selector ≡ labels)
      × (x.ports ≡ service_ports site)
      × (mutate_service lib site labels x ≡ ok x)

  -- The class that the Site names, if it names one.
  abbrev pub named_class : IngressSpec → Option String
  named_class i = if i.ingress_class_name == "" then none else some i.ingress_class_name

  abbrev pub IsIngressOf : Dict String → IngressSpec → Ingress → Type 0
  IsIngressOf labels i x =
      IsOwned x.meta
      × (x.meta.labels ≡ labels)
      × (x.meta.annotations ≡ i.annotations)
      × (x.rules ≡ record { host = site.spec.domain; paths = ingress_paths site i } ∷ [])
      × (x.tls ≡ ingress_tls site i)
      × Defaulted (named_class i) x.ingress_class_name
      × (mutate_ingress lib site i labels x ≡ ok x)

  abbrev pub IsPvcOf : PersistenceSpec → PersistentVolumeClaim → Type 0
  IsPvcOf p x =
      IsOwned x.meta
      × (x.meta.labels ≡ ("app", site.meta.name) ∷ [])
      × (lookup "storage" (or_empty x.requests) ≡ lib.parse_quantity (text_or "1Gi" p.size))
      × ((class : Option String) → mutate_pvc lib site (text_or "1Gi" p.size) class x ≡ ok x)

  abbrev pub IsDatabaseOf : MariaDbClusterRef → Database → Type 0
  IsDatabaseOf r x =
      IsOwned x.meta
      × (x.maria_db_ref ≡ to_maria_db_ref r)
      × (x.name ≡ site.spec.database.name)
      × (mutate_database lib site (to_maria_db_ref r) x ≡ ok x)

  abbrev pub own_password : SecretKeySelector
  own_password = record { name = site_secret site; key = db_password_key }

  abbrev pub IsUserOf : MariaDbClusterRef → User → Type 0
  IsUserOf r x =
      IsOwned x.meta
      × (x.maria_db_ref ≡ to_maria_db_ref r)
      × (x.name ≡ provisioned_username site)
      × (x.password_secret_key_ref ≡ some own_password)
      × (mutate_user lib site (to_maria_db_ref r) x ≡ ok x)

  abbrev pub IsGrantOf : MariaDbClusterRef → Grant → Type 0
  IsGrantOf r x =
      IsOwned x.meta
      × (x.maria_db_ref ≡ to_maria_db_ref r)
      × (x.privileges ≡ "ALL PRIVILEGES" ∷ [])
      × (x.database ≡ site.spec.database.name)
      × (x.table ≡ "*")
      × (x.username ≡ provisioned_username site)
      × (mutate_grant lib site (to_maria_db_ref r) x ≡ ok x)

  abbrev pub secret_wish : Wish
  secret_wish = record { kind = Kind.secret; name = key (site_secret site); Holds = Is IsSecretOf }

  abbrev pub database_wish : MariaDbClusterRef → Wish
  database_wish r = record {
    kind = Kind.database;
    name = key site.meta.name;
    Holds = Is (IsDatabaseOf r);
  }

  abbrev pub user_wish : MariaDbClusterRef → Wish
  user_wish r = record {
    kind = Kind.user;
    name = key (site.meta.name <> "-db-user");
    Holds = Is (IsUserOf r);
  }

  abbrev pub grant_wish : MariaDbClusterRef → Wish
  grant_wish r = record {
    kind = Kind.grant;
    name = key (site.meta.name <> "-db-grant");
    Holds = Is (IsGrantOf r);
  }

  abbrev pub database_wishes : MariaDbClusterRef → List Wish
  database_wishes r = database_wish r ∷ user_wish r ∷ grant_wish r ∷ []

  abbrev pub config_map_wish : String → Dict String → Wish
  config_map_wish suffix contents = record {
    kind = Kind.config_map;
    name = key (site.meta.name <> suffix);
    Holds = Is (IsConfigMapOf contents);
  }

  abbrev pub nginx_wish : Wish
  nginx_wish = config_map_wish "-nginx" (("default.conf", build_nginx_config_content site) ∷ [])

  abbrev pub php_wish : Wish
  php_wish = config_map_wish "-php" ((php_ini_file_name, build_php_ini_content site) ∷ [])

  abbrev pub deployment_wish : (String → String) → Wish
  deployment_wish hash = record {
    kind = Kind.deployment;
    name = key site.meta.name;
    Holds = Is (
        IsDeploymentOf (site_labels site) (site_envs site) (
          config_checksum hash
            (build_nginx_config_content site ∷ build_php_ini_content site ∷ [])));
  }

  abbrev pub service_wish : Wish
  service_wish = record {
    kind = Kind.service;
    name = key site.meta.name;
    Holds = Is (IsServiceOf (site_labels site));
  }

  -- The Ingress is there if the Site wants one, and else it is not.
  abbrev pub ingress_wish : Wish
  ingress_wish = record {
    kind = Kind.ingress;
    name = key (site.meta.name <> "-ingress");
    Holds = AsWanted (IsIngressOf (site_labels site)) (wanted_of site.spec.ingress);
  }

  -- Likewise the claim.
  abbrev pub pvc_wish : Wish
  pvc_wish = record {
    kind = Kind.pvc;
    name = key (site.meta.name <> "-data");
    Holds = AsWanted IsPvcOf (managed_persistence site.spec.persistence);
  }

  -- All but the claim.
  abbrev pub front_wishes : (String → String) → MariaDbClusterRef → List Wish
  front_wishes hash r =
      ((((secret_wish ∷ []) ++ (if provision_enabled site then database_wishes r else []))
          ++ (nginx_wish ∷ php_wish ∷ deployment_wish hash ∷ []))
        ++ (service_wish ∷ []))
      ++ (ingress_wish ∷ [])

  -- Everything that the cluster should hold for the Site, given the cluster for its database.
  abbrev pub wishes : (String → String) → MariaDbClusterRef → List Wish
  wishes hash r = front_wishes hash r ++ (pvc_wish ∷ [])
