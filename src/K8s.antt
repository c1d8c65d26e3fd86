-- ===== src/K8s.antt =====
-- The parts of the Kubernetes objects that the controller reads and writes, and of the API server's
-- errors. What the program only copies is kept as a number that stands for it.
use edge_q.Prelude.{ℕ, String, Bool, true, false, Option, none, some, List}
use edge_q.Prelude.Int.{ℤ}
use edge_q.Maps.{Map, lookup}
use edge_q.Config.{ServiceGroup}

pub data ApiError : Type 0 where
  not_found already_exists : ApiError
  other : String → ApiError

-- `apierrors.IsNotFound` and `apierrors.IsAlreadyExists`
abbrev pub is_not_found : ApiError → Bool
is_not_found not_found = true
is_not_found _ = false

abbrev pub is_already_exists : ApiError → Bool
is_already_exists already_exists = true
is_already_exists _ = false

pub record NamespacedName : Type 0 where
  pub name : String
  pub namespace : String

pub record OwnerReference : Type 0 where
  pub api_version : String
  pub kind : String
  pub name : String
  pub controller : Option Bool

pub record ContainerPort : Type 0 where
  pub host_port : ℤ
  pub container_port : ℤ

pub record EnvVar : Type 0 where
  pub name : String
  pub value : String

pub record Container : Type 0 where
  pub name : String
  pub command : List String
  pub args : List String
  pub env : List EnvVar
  pub ports : List ContainerPort
  pub rest : ℕ

pub record Volume : Type 0 where
  pub name : String
  pub config_map : Option String
  pub rest : ℕ

-- A nil map of annotations is not an empty one.
pub record Pod : Type 0 where
  pub name : String
  pub namespace : String
  pub generate_name : String
  pub labels : Map String
  pub annotations : Option (Map String)
  pub owner_references : List OwnerReference
  pub init_containers : List Container
  pub containers : List Container
  pub volumes : List Volume

-- The value of a map at a key, empty where there is none.
unfoldable pub value_at : String → Map String → String
value_at k m = elim (lookup k m) [ none ↦ "" | some v ↦ v ]

pub record EdgeQosProxyConfig : Type 0 where
  pub proxy : ℕ
  pub service_group : ServiceGroup
  pub base_options : ℕ

pub record EdgeQosBrokerConfig : Type 0 where
  pub broker : ℕ
  pub schedule : ℕ
  pub queue : ℕ
  pub service_groups : List ServiceGroup
  pub prom_metrics : ℕ
  pub base_options : ℕ

pub record InferModelServiceSpec : Type 0 where
  pub broker_config : EdgeQosBrokerConfig
  pub proxy_config : EdgeQosProxyConfig
  pub host_port : ℤ

pub record ServiceGroupItem : Type 0 where
  pub name : String
  pub client : String
  pub is_used : Bool
