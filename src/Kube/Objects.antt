-- ===== src/Kube/Objects.antt =====
-- The objects that the operator writes, in the fields that it reads or sets. A map that the source
-- tests against nil is an `Option`.
use site_operator.Common.{ℕ, String, Bool, List, Option, Dict}
use site_operator.Common.Int.{ℤ}
use site_operator.Kube.Meta.{ObjectMeta, Key, ConditionStatus, object_key}
use site_operator.Kube.Pod.{PodTemplateSpec, SecretKeySelector}
use site_operator.Api.Site.{Site}

-- `[]byte`
abbrev pub Bytes : Type 0
Bytes = List ℕ

pub record Secret : Type 0 where
  pub meta : ObjectMeta
  pub contents : Option (Dict Bytes)

pub record ConfigMap : Type 0 where
  pub meta : ObjectMeta
  pub contents : Dict String

-- `unset` is the empty text.
pub data DeploymentStrategyType : Type 0 where
  unset recreate rolling_update : DeploymentStrategyType

pub record DeploymentSpec : Type 0 where
  pub replicas : Option ℤ
  pub strategy : DeploymentStrategyType
  pub selector : Dict String
  pub template : PodTemplateSpec

pub record DeploymentCondition : Type 0 where
  pub kind : String
  pub status : ConditionStatus
  pub reason : String
  pub message : String

pub record DeploymentStatus : Type 0 where
  pub observed_generation : ℤ
  pub replicas : ℤ
  pub updated_replicas : ℤ
  pub available_replicas : ℤ
  pub conditions : List DeploymentCondition

pub record Deployment : Type 0 where
  pub meta : ObjectMeta
  pub spec : DeploymentSpec
  pub status : DeploymentStatus

pub record ServicePort : Type 0 where
  pub name : String
  pub port : ℤ
  pub target_port : ℤ

pub record Service : Type 0 where
  pub meta : ObjectMeta
  pub selector : Dict String
  pub ports : List ServicePort

pub data PathType : Type 0 where
  exact prefix implementation_specific : PathType

-- The backend is a service's name and one of its port numbers.
pub record HttpIngressPath : Type 0 where
  pub path : String
  pub path_type : PathType
  pub service : String
  pub port : ℤ

pub record IngressRule : Type 0 where
  pub host : String
  pub paths : List HttpIngressPath

pub record IngressTls : Type 0 where
  pub hosts : List String
  pub secret_name : String

pub record Ingress : Type 0 where
  pub meta : ObjectMeta
  pub ingress_class_name : Option String
  pub rules : List IngressRule
  pub tls : List IngressTls

pub data AccessMode : Type 0 where
  read_write_once read_only_many read_write_many : AccessMode

-- `resource.Quantity` is the decimal number unscaled · 10 ^ (- scale).
pub record Quantity : Type 0 where
  pub unscaled : ℤ
  pub scale : ℤ

pub record PersistentVolumeClaim : Type 0 where
  pub meta : ObjectMeta
  pub access_modes : List AccessMode
  pub requests : Option (Dict Quantity)
  pub storage_class_name : Option String

-- The objects of mariadb-operator.
pub record MariaDbRef : Type 0 where
  pub name : String
  pub namespace : String
  pub wait_for_it : Bool

pub record Database : Type 0 where
  pub meta : ObjectMeta
  pub maria_db_ref : MariaDbRef
  pub name : String

pub record User : Type 0 where
  pub meta : ObjectMeta
  pub maria_db_ref : MariaDbRef
  pub name : String
  pub password_secret_key_ref : Option SecretKeySelector

pub record Grant : Type 0 where
  pub meta : ObjectMeta
  pub maria_db_ref : MariaDbRef
  pub privileges : List String
  pub database : String
  pub table : String
  pub username : String

pub data Kind : Type 0 where
  site secret config_map deployment service ingress pvc database user grant : Kind

-- The Go type of the objects of a kind.
abbrev pub Obj : Kind → Type 0
Obj site = Site
Obj secret = Secret
Obj config_map = ConfigMap
Obj deployment = Deployment
Obj service = Service
Obj ingress = Ingress
Obj pvc = PersistentVolumeClaim
Obj database = Database
Obj user = User
Obj grant = Grant

abbrev pub meta_of : (k : Kind) → Obj k → ObjectMeta
meta_of site o = o.meta
meta_of secret o = o.meta
meta_of config_map o = o.meta
meta_of deployment o = o.meta
meta_of service o = o.meta
meta_of ingress o = o.meta
meta_of pvc o = o.meta
meta_of database o = o.meta
meta_of user o = o.meta
meta_of grant o = o.meta

abbrev pub with_meta : (k : Kind) → ObjectMeta → Obj k → Obj k
with_meta site m o = record o { meta = m }
with_meta secret m o = record o { meta = m }
with_meta config_map m o = record o { meta = m }
with_meta deployment m o = record o { meta = m }
with_meta service m o = record o { meta = m }
with_meta ingress m o = record o { meta = m }
with_meta pvc m o = record o { meta = m }
with_meta database m o = record o { meta = m }
with_meta user m o = record o { meta = m }
with_meta grant m o = record o { meta = m }

abbrev pub key_of : (k : Kind) → Obj k → Key
key_of k o = object_key (meta_of k o)
