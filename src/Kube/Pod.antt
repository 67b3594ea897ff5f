-- ===== src/Kube/Pod.antt =====
-- Containers, volumes and the pod template, in the fields that the operator sets.
use site_operator.Common.{String, List, Option, Dict}
use site_operator.Common.Int.{ℤ}

pub record SecretKeySelector : Type 0 where
  pub name : String
  pub key : String

-- `Value`, and `ValueFrom.SecretKeyRef`.
pub record EnvVar : Type 0 where
  pub name : String
  pub value : String
  pub value_from : Option SecretKeySelector

pub record VolumeMount : Type 0 where
  pub name : String
  pub mount_path : String
  pub sub_path : String

pub record SecurityContext : Type 0 where
  pub run_as_user : Option ℤ
  pub run_as_group : Option ℤ

-- A probe with a TCP socket handler.
pub record Probe : Type 0 where
  pub tcp_socket_port : ℤ
  pub initial_delay_seconds : ℤ
  pub period_seconds : ℤ

pub record Container : Type 0 where
  pub name : String
  pub image : String
  pub command : List String
  pub args : List String
  pub ports : List ℤ
  pub env : List EnvVar
  pub security_context : Option SecurityContext
  pub readiness_probe : Option Probe
  pub volume_mounts : List VolumeMount

pub data VolumeSource : Type 0 where
  empty_dir : VolumeSource
  config_map : String → VolumeSource
  persistent_volume_claim : String → VolumeSource

pub record Volume : Type 0 where
  pub name : String
  pub source : VolumeSource

pub record PodSpec : Type 0 where
  pub node_selector : Dict String
  pub volumes : List Volume
  pub init_containers : List Container
  pub containers : List Container

pub record PodTemplateSpec : Type 0 where
  pub labels : Dict String
  pub annotations : Dict String
  pub spec : PodSpec
