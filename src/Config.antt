-- ===== src/Config.antt =====
-- pkg/config/types.go and pkg/constants/types.go: the part of the configuration that the queues and
-- the scheduler read, and the errors that they return.
use edge_q.Prelude.{String, Bool}
use edge_q.Prelude.Int.{ℤ}

abbrev pub default_service_group : String
default_service_group = "default"

pub record ServiceGroup : Type 0 where
  pub name : String
  pub reclaimable : Bool
  pub weight : ℤ  -- int32

-- The method `ResourceName` of a service group.
unfoldable pub resource_name : ServiceGroup → String
resource_name sg = sg.name

pub record QueueConfig : Type 0 where
  pub size : ℤ  -- int

pub record Schedule : Type 0 where
  pub method : String
  pub enable_flow_control : Bool

pub data Error : Type 0 where
  -- "queue is full" of pkg/queue
  queue_full : Error
  -- `ErrNoSubConnAvailable` of internal/broker/error, and the one of google.golang.org/grpc/balancer
  no_resource no_sub_conn : Error
  -- "service group %s not register"
  not_register : String → Error
  -- "builder is nil" and "picker is nil"
  builder_nil picker_nil : Error
  -- an error of a library that the program calls
  external : String → Error
