-- ===== src/Examples/Answers.antt =====
-- Runs of the brokers with a round-robin scheduler, in which every request is answered.
use edge_q.Prelude.{ℕ, true, ◌≡◌, refl, some, [], ◌∷◌, arith, ltb}
use edge_q.Config.{picker_nil}
use edge_q.Queue.{HttpRequestItem, GrpcItem, new_queue}
use edge_q.Queue
use edge_q.Queue.Pool.{make_queues, new_queue_pool, push_at}
use edge_q.Queue.Pool
use edge_q.Maps.{lookup, insert}
use edge_q.Picker.{RrPicker, rr_picker, rr, err_picker}
use edge_q.Scheduler.{Scheduler}
use edge_q.Broker.{
  Broker, goes_on, http_endpoint, grpc_endpoint, http_enqueue_requests, grpc_enqueue_requests,
  enqueue, make_chan,
}
use edge_q.Broker.Waiting.{one}
use edge_q.Broker.Invariant.{times_closed}
use edge_q.Broker.Service.{starts, arrives}
use edge_q.Broker.Lifecycle.{start}
use edge_q.Broker.Progress.{pending}
use edge_q.Broker.Drains.{serve, IsRoundRobin}
use edge_q.Prelude.Int.{pos}
use edge_q.Broker.Startup.{BrokerConfig, new_server, new_server-IsRoundRobin}
use edge_q.Outcome.{ok}
use edge_q.Broker.Answers.{http_answers, grpc_answers}
use edge_q.Examples.Data.{
  pair_attributes, first_rand, config, gold, only_default, env, http_waiting, grpc_waiting,
}

abbrev one_group : RrPicker
one_group = record { sub_conns = gold ∷ []; next = 0 }

abbrev rr_scheduler : Scheduler
rr_scheduler = record {
  builder = rr;
  picker = some (rr_picker one_group);
  err_picker = err_picker picker_nil;
}

abbrev http_rr : Broker HttpRequestItem
http_rr = record http_waiting {
  scheduler = rr_scheduler;
  schedule_method = "RR";
  received = record { method = "RR"; service_group = "default"; duration = 0 } ∷ [];
}

abbrev grpc_rr : Broker GrpcItem
grpc_rr = record grpc_waiting {
  scheduler = rr_scheduler;
  schedule_method = "RR";
  received = record { method = "RR"; service_group = "default"; duration = 0 } ∷ [];
}

http_answers_example :
    (u : Broker HttpRequestItem) × (serve http_endpoint
        (first_rand HttpRequestItem)
        (env ∷ [])
        http_rr
      ≡ goes_on u)
    × (pending u.queue_pool.queues ≡ 0)
    × (u.made ≡ 1)
    × ((c : ℕ) → times_closed c u.closed ≡ one (ltb c 1))
unfolding start new_queue_pool make_queues new_queue insert lookup http_enqueue_requests make_chan
    enqueue Pool.push push_at Queue.push
http_answers_example =
    http_answers (first_rand HttpRequestItem) config [] rr_scheduler "RR" 1 http_rr (env ∷ [])
      (one_group, refl, omega arith) (omega arith)
      (arrives {t = start config [] rr_scheduler "RR" 1} {u = http_rr} starts ("", 7, 3, refl))
      (refl, refl, only_default [], tt) (omega arith)

grpc_answers_example :
    (u : Broker GrpcItem) × (serve grpc_endpoint (first_rand GrpcItem) (env ∷ []) grpc_rr
      ≡ goes_on u)
    × (pending u.queue_pool.queues ≡ 0)
    × (u.made ≡ 1)
    × ((c : ℕ) → times_closed c u.closed ≡ one (ltb c 1))
unfolding start new_queue_pool make_queues new_queue insert lookup grpc_enqueue_requests make_chan
    enqueue Pool.push push_at Queue.push
grpc_answers_example =
    grpc_answers (first_rand GrpcItem) config [] rr_scheduler "RR" 1 grpc_rr (env ∷ [])
      (one_group, refl, omega arith) (omega arith)
      (arrives {t = start config [] rr_scheduler "RR" 1} {u = grpc_rr} starts ("default", 3, refl))
      (refl, refl, only_default [], tt) (omega arith)

abbrev rr_config : BrokerConfig
rr_config = record {
  queue = config;
  service_groups = gold ∷ [];
  schedule = record { method = "RR"; enable_flow_control = true };
  work_pool_size = pos 1;
}

new_server-IsRoundRobin_example :
    (scheduler : Scheduler) × IsRoundRobin scheduler
    × (new_server pair_attributes (λ n. 0) (λ m. m) {A = GrpcItem} rr_config
        ≡ ok (record {
          broker = start config (gold ∷ []) scheduler "RR" 1;
          enable_flow_control = true;
        }))
new_server-IsRoundRobin_example =
    new_server-IsRoundRobin pair_attributes (λ n. 0) (λ m. m) GrpcItem rr_config (λ m. refl) refl
