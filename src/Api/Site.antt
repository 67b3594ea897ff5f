-- ===== src/Api/Site.antt =====
-- The Site resource of api/v1alpha1/site_types.go. A pointer or an optional struct is an `Option`,
-- a string that may be left out is the empty text, and a map an association list.
use site_operator.Common.{String, Bool, Option, List, Dict}
use site_operator.Kube.Meta.{ObjectMeta, Condition}

pub record SecretKeyRef : Type 0 where
  pub name : String
  pub key : String

pub record MariaDbClusterRef : Type 0 where
  pub name : String
  pub namespace : String

pub record DatabaseProvisionSpec : Type 0 where
  pub enabled : Bool
  pub maria_db_ref : Option MariaDbClusterRef

pub record ProvisionSpec : Type 0 where
  pub database : Option DatabaseProvisionSpec

pub record FileBrowserSpec : Type 0 where
  pub enabled : Bool
  pub image : String

pub record InstallSpec : Type 0 where
  pub admin_user : String
  pub admin_email : String
  pub title : String
  pub admin_password_secret : Option SecretKeyRef
  pub admin_password : Option String

pub record DebugSpec : Type 0 where
  pub enabled : Bool
  pub log : Bool
  pub display : Bool

pub record WordpressSpec : Type 0 where
  pub debug : Option DebugSpec
  pub install : Option InstallSpec
  pub version : String

pub record DatabaseSpec : Type 0 where
  pub host : String
  pub name : String
  pub user_secret : Option SecretKeyRef
  pub password_secret : Option SecretKeyRef
  pub user : Option String
  pub password : Option String

pub record IngressSpec : Type 0 where
  pub enabled : Bool
  pub path : String
  pub tls : Option Bool
  pub annotations : Dict String
  pub ingress_class_name : String

pub record PersistenceSpec : Type 0 where
  pub enabled : Bool
  pub existing_claim : String
  pub size : String
  pub storage_class_name : Option String

pub record PhpSpec : Type 0 where
  pub image : String
  pub config : String

pub record NginxSpec : Type 0 where
  pub image : String
  pub config : String

pub record SiteSpec : Type 0 where
  pub foo : Option String
  pub domain : String
  pub ingress : Option IngressSpec
  pub wordpress : Option WordpressSpec
  pub database : DatabaseSpec
  pub persistence : Option PersistenceSpec
  pub node_selector : Dict String
  pub file_browser : Option FileBrowserSpec
  pub provision : Option ProvisionSpec
  pub update_strategy : String
  pub nginx : Option NginxSpec
  pub php : Option PhpSpec

pub record SiteStatus : Type 0 where
  pub conditions : List Condition

pub record Site : Type 0 where
  pub meta : ObjectMeta
  pub spec : SiteSpec
  pub status : SiteStatus

-- The `Items` of a SiteList.
pub record SiteList : Type 0 where
  pub items : List Site
