-- ===== src/Kube/Meta.antt =====
-- Object metadata and status conditions, in the fields that the operator reads or writes.
use site_operator.Common.{String, Bool, List, Dict}
use site_operator.Common.Int.{ℤ}

-- The name of an object of one kind.
pub record Key : Type 0 where
  pub namespace : String
  pub name : String

pub record OwnerReference : Type 0 where
  pub kind : String
  pub name : String
  pub uid : String
  pub controller : Bool

-- `created` is `!CreationTimestamp.IsZero()`: the API server has stored the object.
pub record ObjectMeta : Type 0 where
  pub name : String
  pub namespace : String
  pub labels : Dict String
  pub annotations : Dict String
  pub owner_references : List OwnerReference
  pub uid : String
  pub created : Bool
  pub generation : ℤ

-- `client.ObjectKeyFromObject`
abbrev pub object_key : ObjectMeta → Key
object_key m = record { namespace = m.namespace; name = m.name }

pub data ConditionStatus : Type 0 where
  condition_true condition_false condition_unknown : ConditionStatus

-- `metav1.Condition`
pub record Condition : Type 0 where
  pub kind : String
  pub status : ConditionStatus
  pub observed_generation : ℤ
  pub last_transition_time : ℤ
  pub reason : String
  pub message : String
