-- ===== src/Broker.antt =====
-- internal/broker/endpoint/http/endpoint.go and internal/broker/endpoint/grpc/endpoint.go: how a request
-- is queued, scheduled and handled. The two servers share this code; they differ in their items and
-- in what `HandleRequest` records. One call of `process` is one round of `ProcessRequests`.
pub mod Waiting
pub mod Invariant
pub mod Service
pub mod Lifecycle
pub mod Progress
pub mod Drains
pub mod Answers
pub mod Startup
use edge_q.Prelude.{
  ℕ, suc, ◌+◌, ◌-◌, ◌≡◌, refl, String, Bool, ◌||◌, true, false, Option, none, some, List, [], ◌∷◌,
  ◌==◌, ltb, eqb, if◌then◌else◌,
}
use edge_q.Outcome.{Outcome, ok, err, panic, ◌>>=◌}
use edge_q.Maps.{Map, lookup}
use edge_q.Config.{Error, ServiceGroup, default_service_group}
use edge_q.Queue.{QueueItem, GrpcItem, HttpRequestItem, grpc_item, http_item}
use edge_q.Queue.Pool.{QueuePool}
use edge_q.Queue.Pool
use edge_q.Picker.{WeightedRand}
use edge_q.Scheduler.{Scheduler}
use edge_q.Scheduler

-- One sample of a metric: the scheduling method, the service group, and a duration where it has one.
pub record Sample : Type 0 where
  pub method : String
  pub service_group : String
  pub duration : ℕ

-- Channels are known by the numbers in which they were made; `closed` are those closed so far. The
-- metrics are the samples recorded so far, newest first.
pub record Broker (A : Type 0) : Type 0 where
  pub queue_pool : QueuePool A
  pub scheduler : Scheduler
  pub schedule_method : String
  pub work_pool_size : ℕ
  pub work_pool : ℕ
  pub made : ℕ
  pub closed : List ℕ
  pub received : List Sample
  pub waited : List Sample
  pub handled : List Sample
  pub answered : List Sample

-- What a round comes to: the loop goes on, or returns with a request that it had taken and does not
-- handle, or waits for a slot of the work pool, or panics.
pub data Round (A : Type 0) : Type 0 where
  goes_on : Broker A → Round A
  returns : Option A → Broker A → Round A
  blocks : A → Broker A → Round A
  crashes : Round A

module _ {A : Type 0} where
  -- `make(chan struct{})`
  unfoldable pub make_chan : Broker A → ℕ × Broker A
  make_chan s = (s.made, record s { made = suc s.made })

  unfoldable pub enqueue : QueueItem A → String → A → Broker A → Outcome Error (Broker A)
  enqueue i service_group item s = Pool.push i service_group item s.queue_pool >>= λ qp.
      ok (record s {
        queue_pool = qp;
        received =
            record { method = s.schedule_method; service_group = service_group; duration = 0 }
            ∷ s.received;
      })

-- The header `X-Service-Group`, empty where the request has none.
unfoldable pub http_enqueue_requests :
    String → ℕ → ℕ → Broker HttpRequestItem → ℕ × Outcome Error (Broker HttpRequestItem)
unfolding make_chan enqueue
http_enqueue_requests header req now s =
    let service_group : String = if header == "" then default_service_group else header in
    let (wait_chan, s') = make_chan s in
    let item : HttpRequestItem = record {
      service_group = service_group;
      create_time = now;
      req = req;
      wait_chan = wait_chan;
    } in
    (wait_chan, enqueue http_item service_group item s')

-- The metadata of a gRPC call: the last value under the key, if there is one.
last_or : String → List String → String
last_or d [] = d
last_or d (e ∷ t) = last_or e t

unfoldable pub service_group_from_context : Map (List String) → String
unfolding last_or
service_group_from_context md = elim (lookup "x-service-group" md) [
  | none ↦ "default"
  | some t ↦ last_or "default" t
]

unfoldable pub grpc_enqueue_requests :
    String → ℕ → Broker GrpcItem → ℕ × Outcome Error (Broker GrpcItem)
unfolding make_chan enqueue
grpc_enqueue_requests service_group now s =
    let (wait_chan, s') = make_chan s in
    let item : GrpcItem = record {
      service_group = service_group;
      create_time = now;
      wait_chan = wait_chan;
    } in
    (wait_chan, enqueue grpc_item service_group item s')

unfoldable pub is_closed : ℕ → List ℕ → Bool
is_closed c [] = false
is_closed c (d ∷ closed) = eqb d c || is_closed c closed

module _ {A : Type 0} where
  -- `close(ch)` of a channel that is closed panics.
  unfoldable pub close_chan : ℕ → Broker A → Outcome Error (Broker A)
  close_chan c s = if is_closed c s.closed then panic else ok (record s { closed = c ∷ s.closed })

  -- `s.WorkPool <- struct{}{}`, where there is room, and `<-s.WorkPool`.
  unfoldable pub take_slot : Broker A → Broker A
  take_slot s = record s { work_pool = s.work_pool + 1 }

  unfoldable pub release_slot : Broker A → Broker A
  release_slot s = record s { work_pool = s.work_pool - 1 }

-- A server: its items, their channel, and what `HandleRequest` does in its slot.
pub record Endpoint (A : Type 0) : Type 0 where
  pub item : QueueItem A
  pub wait_chan : A → ℕ
  pub handle_request : ℕ → A → Broker A → Outcome Error (Broker A)
  pub chan-set : (a : A) (name : String) → wait_chan (item.set_resource_name a name) ≡ wait_chan a

-- `HandleRequest` of the HTTP server, which the reverse proxy has served when it returns.
unfoldable pub http_handle_request :
    ℕ → HttpRequestItem → Broker HttpRequestItem → Outcome Error (Broker HttpRequestItem)
unfolding release_slot close_chan
http_handle_request now item s =
    let sample : ℕ → Sample = λ d. record {
      method = s.schedule_method;
      service_group = item.service_group;
      duration = d;
    } in
    let s' = record s {
      handled = sample 0 ∷ s.handled;
      answered = sample (now - item.create_time) ∷ s.answered;
    } in
    close_chan item.wait_chan s' >>= λ s''. ok (release_slot s'')

unfoldable pub grpc_handle_request :
    ℕ → GrpcItem → Broker GrpcItem → Outcome Error (Broker GrpcItem)
unfolding release_slot close_chan
grpc_handle_request now item s = close_chan item.wait_chan s >>= λ s'. ok (release_slot s')

abbrev pub http_endpoint : Endpoint HttpRequestItem
http_endpoint = record {
  item = http_item;
  wait_chan = λ h. h.wait_chan;
  handle_request = http_handle_request;
  chan-set = λ h name. refl;
}

abbrev pub grpc_endpoint : Endpoint GrpcItem
grpc_endpoint = record {
  item = grpc_item;
  wait_chan = λ g. g.wait_chan;
  handle_request = grpc_handle_request;
  chan-set = λ g name. refl;
}

-- What the environment decides in one round: the random number and the order in which the queues are
-- visited, the time, and whether a stop is seen by the first and by the second `select`.
pub record Env : Type 0 where
  pub draw : ℕ
  pub order : List String
  pub now : ℕ
  pub stopped : Bool
  pub stopped_later : Bool

module _ {A : Type 0} (server : Endpoint A) (rand : WeightedRand A) where
  unfoldable pub as_round : Outcome Error (Broker A) → Round A
  as_round (ok s) = goes_on s
  as_round _ = crashes

  -- The second `select`.
  unfoldable pub dispatch : Env → A → Broker A → Round A
  unfolding as_round take_slot
  dispatch env item s =
      if env.stopped_later
      then returns (some item) s
      else if ltb s.work_pool s.work_pool_size
      then as_round (server.handle_request env.now item (take_slot s))
      else blocks item s

  unfoldable pub after_pop :
      Env → Broker A → Outcome Error (Option A × Scheduler × QueuePool A) → Round A
  unfolding dispatch
  after_pop env s (err e) = goes_on s
  after_pop env s panic = crashes
  after_pop env s (ok (none, scheduler, qp)) =
      goes_on (record s { scheduler = scheduler; queue_pool = qp })
  after_pop env s (ok (some item, scheduler, qp)) = dispatch env item (record s {
    scheduler = scheduler;
    queue_pool = qp;
    waited =
        record {
          method = s.schedule_method;
          service_group = (server.item).resource_name item;
          duration = env.now - (server.item).get_create_time item;
        }
        ∷ s.waited;
  })

  unfoldable pub process : Env → Broker A → Round A
  unfolding after_pop
  process env s =
      if env.stopped
      then returns none s
      else after_pop env s (
          Pool.pop server.item (Scheduler.pick ((server.item).resource_name) rand env.draw)
            env.order s.scheduler s.queue_pool)
