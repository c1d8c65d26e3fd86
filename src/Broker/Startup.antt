-- ===== src/Broker/Startup.antt =====
-- internal/broker/endpoint/http/endpoint.go and grpc/endpoint.go: how a server is made from the
-- configuration.
use Prim.Native.String.{◌++◌ as cat}
use edge_q.Prelude.{
  ℕ, ◌<◌, String, ◌≡◌, refl, ap, inl, inr, Bool, Bool-cases, true, false, none, some, List,
  List-cases, [], ◌∷◌, length, arith, map,
}
use edge_q.Prelude.Int.{ℤ, pos, negsuc, int32}
use edge_q.Outcome.{Outcome, ok, panic, ◌>>=◌}
use edge_q.Config.{QueueConfig, ServiceGroup, Schedule, Error, picker_nil}
use edge_q.Queue.{GrpcItem, HttpRequestItem}
use edge_q.Picker.{
  AttributeLibrary, Resources, ResourceInfo, RrPicker, rr_picker, rr, builder, set_resource,
  add_resource, build, err_picker, from_library,
}
use edge_q.Scheduler.{Scheduler, new_scheduler, all_resources, default_sg, regenerate_picker}
use edge_q.Scheduler
use edge_q.Broker.{Broker}
use edge_q.Broker.Lifecycle.{start}
use edge_q.Broker.Drains.{IsRoundRobin}

-- What the servers read of the configuration.
pub record BrokerConfig : Type 0 where
  pub queue : QueueConfig
  pub service_groups : List ServiceGroup
  pub schedule : Schedule
  pub work_pool_size : ℤ

-- A server, and whether it controls the flow of requests or only passes them on.
pub record Server (A : Type 0) : Type 0 where
  pub broker : Broker A
  pub enable_flow_control : Bool

-- `int32(targetPort)`; `atoi` is strconv.Atoi.
unfoldable pub get_target_port_from_env :
    (String → String) → (String → Outcome String ℤ) → Outcome String ℤ
get_target_port_from_env getenv atoi =
    atoi (getenv "TARGET_PORT") >>= λ target_port. ok (int32 target_port)

-- `make(chan struct{}, n)`: a negative size panics.
unfoldable pub make_work_pool : ℤ → Outcome Error ℕ
make_work_pool (pos n) = ok n
make_work_pool (negsuc n) = panic

with_work_pool :
    {B : Type 0} (size : ℤ) (f : ℕ → Outcome Error B)
    → (make_work_pool size >>= f) ≡ elim size [ pos n ↦ f n | negsuc n ↦ panic ]
unfolding make_work_pool
with_work_pool (pos n) f = refl
with_work_pool (negsuc n) f = refl

new_scheduler-rr :
    (schedule : Schedule)
    → schedule.method ≡ "RR"
    → new_scheduler schedule
      ≡ ok (record { builder = rr; picker = none; err_picker = err_picker picker_nil })
unfolding new_scheduler builder
new_scheduler-rr schedule method = rw method refl

module _ (lib : AttributeLibrary) (intn : ℕ → ℕ)
    (visit : Resources (lib.Attributes) → Resources (lib.Attributes)) where
  -- The part that both servers share: the queues and the scheduler.
  unfoldable pub new_server : {A : Type 0} → BrokerConfig → Outcome Error (Server A)
  new_server cfg = new_scheduler cfg.schedule >>= λ new_one.
      regenerate_picker lib intn visit new_one cfg.service_groups >>= λ scheduler.
      make_work_pool cfg.work_pool_size >>= λ room. ok (record {
        broker = start cfg.queue cfg.service_groups scheduler cfg.schedule.method room;
        enable_flow_control = cfg.schedule.enable_flow_control;
      })

  -- `parse` is url.Parse, and `itoa` prints a number.
  unfoldable pub new_http_broker_server :
      (String → String)
      → (String → Outcome String ℤ)
      → (ℤ → String)
      → (String → Outcome String String)
      → BrokerConfig
      → Outcome Error (Server HttpRequestItem)
  new_http_broker_server getenv atoi itoa parse cfg =
      from_library (get_target_port_from_env getenv atoi) >>= λ target_port.
      from_library (parse (cat "http://127.0.0.1:" (itoa target_port))) >>= λ target_url.
      new_server cfg

  -- `pool` is the result of making the pool of connections.
  unfoldable pub new_grpc_broker_server :
      Outcome String (Unit {0}) → BrokerConfig → Outcome Error (Server GrpcItem)
  new_grpc_broker_server pool cfg = from_library pool >>= λ _. new_server cfg

  set_resource-some :
      (g : ServiceGroup) (info : ResourceInfo (lib.Attributes)) (m : Resources (lib.Attributes))
      → 0 < length (set_resource lib g info m)
  unfolding set_resource
  set_resource-some g info [] = omega arith
  set_resource-some g info ((s, old) ∷ m) = ground arith

  add_groups-some :
      (groups : List ServiceGroup) (m : Resources (lib.Attributes)) (b : Bool)
      → (b ≡ true → 0 < length m)
      → (Scheduler.add_groups lib groups m b).1 ≡ true
      → 0 < length (Scheduler.add_groups lib groups m b).0
  unfolding Scheduler.add_groups add_resource
  add_groups-some [] m b known e = known e
  add_groups-some (g ∷ groups) m b known e =
      add_groups-some groups _ _ (λ _. set_resource-some g _ m) e

  all_resources-some : (groups : List ServiceGroup) → 0 < length (all_resources lib groups)
  unfolding all_resources add_resource
  all_resources-some groups = elim (Bool-cases (Scheduler.add_groups lib groups [] false).1) [
    | inl e ↦ rw e (add_groups-some groups [] false (λ h. absurd (ground (arith, h))) e)
    | inr e ↦
        rw e (set_resource-some (default_sg lib) _ (Scheduler.add_groups lib groups [] false).0)
  ]

  -- With the method RR, whatever the groups, where ranging over a map visits all its entries: with a size
  -- of the work pool that is not negative, a server is made, empty and with that many slots, and its
  -- scheduler holds a round-robin picker over some resources; with a negative one, making it panics.
  pub new_server-IsRoundRobin :
      (A : Type 0) (cfg : BrokerConfig)
      → ((m : Resources (lib.Attributes)) → length (visit m) ≡ length m)
      → cfg.schedule.method ≡ "RR"
      → (scheduler : Scheduler) × IsRoundRobin scheduler
        × (new_server {A = A} cfg ≡ elim cfg.work_pool_size [
          | pos n ↦ ok (record {
            broker = start cfg.queue cfg.service_groups scheduler cfg.schedule.method n;
            enable_flow_control = cfg.schedule.enable_flow_control;
          })
          | negsuc n ↦ panic
        ])
  unfolding new_server make_work_pool new_scheduler builder regenerate_picker build
  new_server-IsRoundRobin A cfg visits method =
      elim (List-cases (visit (all_resources lib cfg.service_groups))) [
        | inl e ↦ absurd (
            omega (
              arith,
              ap length e,
              visits (all_resources lib cfg.service_groups),
              all_resources-some cfg.service_groups,
            ))
        | inr (r, rest, e) ↦ (
          record {
            builder = rr;
            picker = some (rr_picker (conns r rest));
            err_picker = err_picker picker_nil;
          },
          (conns r rest, refl, omega arith),
          rw (new_server, new_scheduler-rr cfg.schedule method, regenerate_picker, e)
              (with_work_pool cfg.work_pool_size _),
        )
      ]
    where
      conns : ServiceGroup × ResourceInfo (lib.Attributes) → Resources (lib.Attributes) → RrPicker
      conns r rest = record {
        sub_conns = map (λ x. x.0) (r ∷ rest);
        next =
            intn
              (length (map (λ (x : ServiceGroup × ResourceInfo (lib.Attributes)). x.0) (r ∷ rest)));
      }
