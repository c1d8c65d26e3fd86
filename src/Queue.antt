-- ===== src/Queue.antt =====
-- pkg/queue/queue.go, `Queue`: a bounded first-in first-out queue over container/list; and the items
-- of pkg/queue/grpc_item.go and pkg/queue/http_item.go behind the interface `QueueItem`.
pub mod Fifo
pub mod Pool
use edge_q.Prelude.{
  ℕ, String, ◌≡◌, refl, Option, none, some, List, [], ◌∷◌, ◌++◌, length, if◌then◌else◌,
}
use edge_q.Prelude.Int.{ℤ, pos, leb_ℤ}
use edge_q.Outcome.{Outcome, ok, err}
use edge_q.Config.{QueueConfig, Error, queue_full}

-- A name that was set is the name that is read.
pub record QueueItem (A : Type 0) : Type 0 where
  pub resource_name : A → String
  pub set_resource_name : A → String → A
  pub get_create_time : A → ℕ
  pub name-set : (a : A) (name : String) → resource_name (set_resource_name a name) ≡ name

-- The channel a handler waits on is known by a number.
pub record GrpcItem : Type 0 where
  pub service_group : String
  pub create_time : ℕ
  pub wait_chan : ℕ

-- `Req` is the request and its writer, known by a number.
pub record HttpRequestItem : Type 0 where
  pub service_group : String
  pub create_time : ℕ
  pub req : ℕ
  pub wait_chan : ℕ

abbrev pub grpc_item : QueueItem GrpcItem
grpc_item = record {
  resource_name = λ g. g.service_group;
  set_resource_name = λ g name. record g { service_group = name };
  get_create_time = λ g. g.create_time;
  name-set = λ g name. refl;
}

abbrev pub http_item : QueueItem HttpRequestItem
http_item = record {
  resource_name = λ h. h.service_group;
  set_resource_name = λ h name. record h { service_group = name };
  get_create_time = λ h. h.create_time;
  name-set = λ h name. refl;
}

pub record Queue (A : Type 0) : Type 0 where
  pub max_size : ℤ
  pub list : List A

module _ {A : Type 0} where
  unfoldable pub new_queue : QueueConfig → Queue A
  new_queue cfg = record { max_size = cfg.size; list = [] }

  unfoldable pub push : Queue A → A → Outcome Error (Queue A)
  push q value =
      if leb_ℤ q.max_size (pos (length q.list))
      then err queue_full
      else ok (record q { list = q.list ++ value ∷ [] })

  pop_list : ℤ → List A → Option A × Queue A
  pop_list size [] = (none, record { max_size = size; list = [] })
  pop_list size (front ∷ rest) = (some front, record { max_size = size; list = rest })

  unfoldable pub pop : Queue A → Option A × Queue A
  unfolding pop_list
  pop q = pop_list q.max_size q.list

  unfoldable pub peek : Queue A → Option A
  peek q = elim q.list [ [] ↦ none | front ∷ _ ↦ some front ]

  unfoldable pub len : Queue A → ℕ
  len q = length q.list
