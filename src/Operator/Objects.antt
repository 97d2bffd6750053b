-- ===== src/Operator/Objects.antt =====
-- The objects that the operator reads and writes: the fields of the Kubernetes types that the code
-- sets, and the Ksdns object (apis/dns/v1alpha1/ksdns_types.go).
use ksdns.Prelude.{ℕ, String, Option, List}
use ksdns.Prelude.Int.{ℤ}
use ksdns.Api.Records.{Zone}
use ksdns.Zupd.Coredns.{ZoneSpec}

-- A Go map with text keys, in the order of the source's literal.
abbrev pub Labels : Type 0
Labels = List (String × String)

pub record ServicePort : Type 0 where
  pub name : String
  pub port : ℕ
  pub target_port : ℕ
  pub protocol : String

pub record ServiceSpec : Type 0 where
  pub selector : Labels
  pub type : String
  pub ports : List ServicePort
  pub cluster_ip : String

pub record ContainerPort : Type 0 where
  pub container_port : ℕ
  pub protocol : String

pub record HttpGet : Type 0 where
  pub path : String
  pub port : ℕ

pub record VolumeMount : Type 0 where
  pub name : String
  pub mount_path : String

pub record Container : Type 0 where
  pub name : String
  pub image : String
  pub ports : List ContainerPort
  pub readiness_probe : Option HttpGet
  pub liveness_probe : Option HttpGet
  pub args : List String
  pub volume_mounts : List VolumeMount

pub data VolumeSource : Type 0 where
  config_map_source : String → VolumeSource
  secret_source : String → VolumeSource

pub record Volume : Type 0 where
  pub name : String
  pub source : VolumeSource

pub record DeploymentSpec : Type 0 where
  pub replicas : ℤ
  pub selector : Labels
  pub template_labels : Labels
  pub service_account_name : String
  pub containers : List Container
  pub volumes : List Volume

pub record PolicyRule : Type 0 where
  pub api_groups : List String
  pub resources : List String
  pub verbs : List String

pub record Reference : Type 0 where
  pub kind : String
  pub name : String
  pub scope : String

pub data Body : Type 0 where
  config_map : (entries binary_data : Labels) → Body
  secret : (string_data stored : Labels) → Body
  service_account : Body
  service : ServiceSpec → Body
  deployment : DeploymentSpec → Body
  role : List PolicyRule → Body
  role_binding : (subject role_ref : Reference) → Body
  zone : ZoneSpec → Body

pub data Kind : Type 0 where
  config_map_kind secret_kind service_account_kind service_kind : Kind
  deployment_kind role_kind role_binding_kind zone_kind : Kind

abbrev pub kind_of : Body → Kind
kind_of (config_map _ _) = Kind.config_map_kind
kind_of (secret _ _) = Kind.secret_kind
kind_of service_account = Kind.service_account_kind
kind_of (service _) = Kind.service_kind
kind_of (deployment _) = Kind.deployment_kind
kind_of (role _) = Kind.role_kind
kind_of (role_binding _ _) = Kind.role_binding_kind
kind_of (zone _) = Kind.zone_kind

pub record Object : Type 0 where
  pub name : String
  pub namespace : String
  pub labels : Labels
  pub controller : Option String
  pub body : Body

pub record Pod : Type 0 where
  pub name : String
  pub pod_ip : String

pub record ExposeService : Type 0 where
  pub service_type : String
  pub external_ips : List String
  pub load_balancer_ip : String
  pub provider : String
  pub annotations : Labels

pub record Condition : Type 0 where
  pub type : String
  pub status : String
  pub reason : String
  pub message : String

-- `expose_coredns` is `Spec.Expose.CoreDNS`, a pointer.
pub record Ksdns : Type 0 where
  pub name : String
  pub namespace : String
  pub zones : List Zone
  pub image : String
  pub replicas : ℤ
  pub secret : Option String
  pub expose_coredns : Option ExposeService
  pub conditions : List Condition
