-- ===== src/Broker/Lifecycle.antt =====
-- The life of the HTTP and the gRPC broker of internal/broker/endpoint, from its start on.
use edge_q.Prelude.{
  ℕ, ◌+◌, ◌≡◌, refl, String, inl, inr, Bool, Bool-cases, false, List, [], ◌∷◌, arith, ltb,
}
use edge_q.Outcome.{ok}
use edge_q.Maps.{Map, insert}
use edge_q.Config.{QueueConfig, ServiceGroup, default_service_group}
use edge_q.Queue.{Queue, new_queue, GrpcItem, HttpRequestItem}
use edge_q.Queue.Pool.{make_queues, new_queue_pool}
use edge_q.Queue.Pool.Invariant.{new_queue_pool-IsWellFormed}
use edge_q.Picker.{WeightedRand}
use edge_q.Scheduler.{Scheduler}
use edge_q.Broker.{
  Broker, Endpoint, http_enqueue_requests, grpc_enqueue_requests, http_endpoint, grpc_endpoint,
}
use edge_q.Broker.Waiting.{one, waiting}
use edge_q.Broker.Invariant.{times_closed, IsValid, http-Handles, grpc-Handles}
use edge_q.Broker.Service.{Serves, Accounts, Adds, Serves-Accounts, enqueue-IsValid}

-- A server with empty queues, made from its configuration.
unfoldable pub start :
    {A : Type 0} → QueueConfig → List ServiceGroup → Scheduler → String → ℕ → Broker A
start cfg groups scheduler method size = record {
  queue_pool = new_queue_pool cfg groups;
  scheduler = scheduler;
  schedule_method = method;
  work_pool_size = size;
  work_pool = 0;
  made = 0;
  closed = [];
  received = [];
  waited = [];
  handled = [];
  answered = [];
}

module _ {A : Type 0} (chan : A → ℕ) (c : ℕ) where
  waiting-insert_new :
      (k : String) (cfg : QueueConfig) (m : Map (Queue A))
      → waiting chan c m ≡ 0
      → waiting chan c (insert k (new_queue cfg) m) ≡ 0
  unfolding insert new_queue
  waiting-insert_new k cfg [] h = omega arith
  waiting-insert_new k cfg ((j, q) ∷ m) h = ground (arith, waiting-insert_new k cfg m)

  waiting-make_queues :
      (cfg : QueueConfig) (groups : List ServiceGroup) (m : Map (Queue A)) (b : Bool)
      → waiting chan c m ≡ 0
      → waiting chan c (make_queues cfg groups m b).0 ≡ 0
  unfolding make_queues
  waiting-make_queues cfg [] m b h = h
  waiting-make_queues cfg (g ∷ groups) m b h =
      waiting-make_queues cfg groups _ _ (waiting-insert_new g.name cfg m h)

  waiting-new_queue_pool :
      (cfg : QueueConfig) (groups : List ServiceGroup)
      → waiting chan c (new_queue_pool {A = A} cfg groups).queues ≡ 0
  unfolding new_queue_pool
  waiting-new_queue_pool cfg groups =
      let made = waiting-make_queues cfg groups [] false refl in
      elim (Bool-cases (make_queues {A = A} cfg groups [] false).1) [
        | inl e ↦ rw e made
        | inr e ↦ rw e (waiting-insert_new default_service_group cfg _ made)
      ]

module _ {A : Type 0} (server : Endpoint A) (rand : WeightedRand A) where
  pub start-IsValid :
      (cfg : QueueConfig) (groups : List ServiceGroup) (scheduler : Scheduler) (method : String)
      (size : ℕ)
      → IsValid server (start cfg groups scheduler method size)
        × Accounts server rand (start cfg groups scheduler method size)
  unfolding start
  start-IsValid cfg groups scheduler method size =
      let none_waits : (c : ℕ)
          → waiting (server.wait_chan) c (new_queue_pool {A = A} cfg groups).queues ≡ 0 =
        λ c. waiting-new_queue_pool (server.wait_chan) c cfg groups in
      (
        record {
          pool = new_queue_pool-IsWellFormed (server.item) cfg groups;
          once = λ c. omega (arith, none_waits c);
          fresh = λ c le. omega (arith, none_waits c);
          slots = refl;
        },
        λ c. ground (arith, none_waits c),
      )

-- What an HTTP request and a gRPC request do to the server, if they are accepted.
abbrev pub HttpArrives : Broker HttpRequestItem → Broker HttpRequestItem → Type 0
HttpArrives s s' =
    (header : String) × (req : ℕ) × (now : ℕ) × ((http_enqueue_requests header req now s).1 ≡ ok s')

abbrev pub GrpcArrives : Broker GrpcItem → Broker GrpcItem → Type 0
GrpcArrives s s' =
    (service_group : String) × (now : ℕ) × ((grpc_enqueue_requests service_group now s).1 ≡ ok s')

http_Adds :
    (rand : WeightedRand HttpRequestItem) (s s' : Broker HttpRequestItem)
    → HttpArrives s s'
    → Adds http_endpoint rand s s'
unfolding http_enqueue_requests
http_Adds rand s s' (header, req, now, e) v =
    enqueue-IsValid http_endpoint rand _ _ s s' v refl refl e

grpc_Adds :
    (rand : WeightedRand GrpcItem) (s s' : Broker GrpcItem)
    → GrpcArrives s s'
    → Adds grpc_endpoint rand s s'
unfolding grpc_enqueue_requests
grpc_Adds rand s s' (sg, now, e) v = enqueue-IsValid grpc_endpoint rand _ _ s s' v refl refl e

-- The HTTP broker, from its start with any configuration: after any sequence of accepted requests and
-- of rounds that go on, whatever the environment does in them, every request accepted so far either
-- waits in the queues or has been answered, and never both or twice.
pub http_accounts :
    (rand : WeightedRand HttpRequestItem) (cfg : QueueConfig) (groups : List ServiceGroup)
    (scheduler : Scheduler) (method : String) (size : ℕ) (t : Broker HttpRequestItem)
    → Serves http_endpoint rand HttpArrives (start cfg groups scheduler method size) t
    → (c : ℕ)
    → waiting (λ h. h.wait_chan) c t.queue_pool.queues + times_closed c t.closed
      ≡ one (ltb c t.made)
http_accounts rand cfg groups scheduler method size t run =
    (Serves-Accounts http_endpoint rand HttpArrives _ http-Handles (http_Adds rand)
      (start-IsValid http_endpoint rand cfg groups scheduler method size) run).1

-- The gRPC broker, from its start with any configuration: after any sequence of accepted requests and
-- of rounds that go on, every request accepted so far either waits in the queues or has been answered,
-- and never both or twice.
pub grpc_accounts :
    (rand : WeightedRand GrpcItem) (cfg : QueueConfig) (groups : List ServiceGroup)
    (scheduler : Scheduler) (method : String) (size : ℕ) (t : Broker GrpcItem)
    → Serves grpc_endpoint rand GrpcArrives (start cfg groups scheduler method size) t
    → (c : ℕ)
    → waiting (λ g. g.wait_chan) c t.queue_pool.queues + times_closed c t.closed
      ≡ one (ltb c t.made)
grpc_accounts rand cfg groups scheduler method size t run =
    (Serves-Accounts grpc_endpoint rand GrpcArrives _ grpc-Handles (grpc_Adds rand)
      (start-IsValid grpc_endpoint rand cfg groups scheduler method size) run).1
