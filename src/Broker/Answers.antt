-- ===== src/Broker/Answers.antt =====
-- The brokers of internal/broker/endpoint from their start to the last answer.
use mathlib.Core.Path.{subst}
use edge_q.Prelude.{
  ℕ, ◌≤◌, ◌<◌, ◌≡◌, refl, sym, ap, ◌∙◌, String, inl, inr, Bool, Bool-cases, true, false, Option,
  none, Option-cases, List, [], ◌∷◌, ltb, length,
}
use edge_q.Outcome.{ok, ok_inj, >>=-eq-ok}
use edge_q.Maps.{Map, lookup, IsRange}
use edge_q.Maps.Distinct.{IsDistinct, insert-IsDistinct, insert-IsRange}
use edge_q.Config.{QueueConfig, ServiceGroup, default_service_group}
use edge_q.Queue.{QueueItem, Queue, HttpRequestItem, GrpcItem, new_queue}
use edge_q.Queue.Pool.{QueuePool, push_at, make_queues, new_queue_pool}
use edge_q.Queue.Pool
use edge_q.Queue.Pool.Invariant.{push_at-ok}
use edge_q.Queue.Pool.Delivery.{Delivers, idle, fails, crashes, delivers, pop-Delivers}
use edge_q.Queue.Pool.Admission.{push_known, push_unknown}
use edge_q.Picker.{WeightedRand}
use edge_q.Scheduler.{Scheduler}
use edge_q.Broker.{
  Broker, Round, goes_on, returns, crashes, Endpoint, Env, process, after_pop, dispatch, enqueue,
  make_chan, http_endpoint, grpc_endpoint, http_enqueue_requests, grpc_enqueue_requests,
}
use edge_q.Broker.Waiting.{one}
use edge_q.Broker.Invariant.{
  times_closed, Handles, popped, picks, scheduler-IsSound, http-Handles, grpc-Handles,
}
use edge_q.Broker.Service.{Serves, starts, arrives, rounds, enqueue-IsValid}
use edge_q.Broker.Lifecycle.{
  start, start-IsValid, HttpArrives, GrpcArrives, http_accounts, grpc_accounts,
}
use edge_q.Broker.Progress.{pending, IsReady, progress, process_on}
use edge_q.Broker.Drains.{IsRoundRobin, IsRoundRobin-picks, serve, AllOn, serve_drains}

module _ {A : Type 0} where
  push_at_keys :
      (qp qp' : QueuePool A) (k : String) (a : A) (order : List String)
      → push_at k qp a ≡ ok qp'
      → IsDistinct qp.queues
      → IsDistinct qp'.queues × (IsRange order qp.queues → IsRange order qp'.queues)
  push_at_keys qp qp' k a order h d =
      let (q, q', there, pushed, e) = push_at-ok qp qp' k a h in
      rw e (insert-IsDistinct k q' qp.queues d, insert-IsRange k q' q qp.queues order there)

  -- A push leaves the names of the queues as they are.
  push_keys :
      (i : QueueItem A) (sg : String) (a : A) (qp qp' : QueuePool A) (order : List String)
      → Pool.push i sg a qp ≡ ok qp'
      → IsDistinct qp.queues
      → IsDistinct qp'.queues × (IsRange order qp.queues → IsRange order qp'.queues)
  push_keys i sg a qp qp' order h = elim (Option-cases (lookup sg qp.queues)) [
    | inl e ↦
        push_at_keys qp qp' default_service_group (i.set_resource_name a default_service_group)
          order (sym (push_unknown i sg a qp e) ∙ h)
    | inr (q, e) ↦ push_at_keys qp qp' sg a order (sym (push_known i sg a qp q e) ∙ h)
  ]

module _ {A : Type 0} (server : Endpoint A) (rand : WeightedRand A) (handles : Handles server)
    (order_of : List String → Type 0) where
  abbrev UnderWay : Broker A → Type 0
  UnderWay s = IsReady server IsRoundRobin order_of s

  enqueue-UnderWay :
      (sg : String) (a : A) (s s' : Broker A)
      → (server.item).resource_name a ≡ sg
      → server.wait_chan a ≡ s.made
      → enqueue (server.item) sg a (make_chan s).1 ≡ ok s'
      → UnderWay s
      → UnderWay s'
  unfolding enqueue make_chan
  enqueue-UnderWay sg a s s' name chan h ready =
      let (qp, pushed, made) = >>=-eq-ok (Pool.push (server.item) sg a s.queue_pool) _ h in
      let e = ok_inj made in
      let keys = λ (order : List String).
        push_keys (server.item) sg a s.queue_pool qp order pushed ready.distinct in
      record {
        valid = (enqueue-IsValid server rand sg a s s' ready.valid name chan h).0;
        live = subst (λ (t : Broker A). IsRoundRobin t.scheduler) e ready.live;
        has_slot = subst (λ (t : Broker A). 0 < t.work_pool_size) e ready.has_slot;
        distinct = subst (λ (t : Broker A). IsDistinct t.queue_pool.queues) e (keys []).0;
        orders = λ order o.
            subst (λ (t : Broker A). IsRange order t.queue_pool.queues) e
              ((keys order).1 (ready.orders order o));
      }

  goes_on_inj : {s t : Broker A} → ◌≡◌ {A = Round A} (goes_on s) (goes_on t) → s ≡ t
  goes_on_inj h = cc

  not_crashes : {t : Broker A} → ¬ (◌≡◌ {A = Round A} crashes (goes_on t))
  not_crashes h = cc

  not_returns :
      {item : Option A} {s t : Broker A} → ¬ (◌≡◌ {A = Round A} (returns item s) (goes_on t))
  not_returns h = cc

  -- A round that goes on although a stop is seen late has found every queue empty.
  late_stop :
      (env : Env) (s u : Broker A)
      → UnderWay s
      → env.stopped ≡ false
      → env.stopped_later ≡ true
      → Delivers
          (server.item)
          (picks server rand env)
          (edge_q.Queue.Pool.candidates env.order s.queue_pool.queues)
          s.scheduler
          s.queue_pool
          (popped server rand env s)
      → process server rand env s ≡ goes_on u
      → s ≡ u
  unfolding after_pop dispatch
  late_stop env s u ready on late (idle _ r) h = goes_on_inj (
      sym (ap (after_pop server rand env s) r)
      ∙ sym (process_on server rand IsRoundRobin (IsRoundRobin-picks _ rand) handles env s on)
      ∙ h)
  late_stop env s u ready on late (fails e p r) h = goes_on_inj (
      sym (ap (after_pop server rand env s) r)
      ∙ sym (process_on server rand IsRoundRobin (IsRoundRobin-picks _ rand) handles env s on)
      ∙ h)
  late_stop env s u ready on late (crashes p r) h = absurd (
      not_crashes (
        sym (ap (after_pop server rand env s) r)
        ∙ sym (process_on server rand IsRoundRobin (IsRoundRobin-picks _ rand) handles env s on)
        ∙ h))
  late_stop env s u ready on late (delivers a s' q rest p there front r) h = absurd (
      not_returns (
        rw (dispatch, late) at
          (sym (ap (after_pop server rand env s) r)
            ∙ sym (process_on server rand IsRoundRobin (IsRoundRobin-picks _ rand) handles env s on)
            ∙ h)))

  process_stopped :
      (env : Env) (s : Broker A) → env.stopped ≡ true → process server rand env s ≡ returns none s
  unfolding process
  process_stopped env s stop = rw (process, stop) refl

  goes_on-UnderWay :
      (env : Env) (s u : Broker A)
      → UnderWay s
      → IsRange env.order s.queue_pool.queues
      → process server rand env s ≡ goes_on u
      → UnderWay u
  goes_on-UnderWay env s u ready range h = elim (Bool-cases env.stopped) [
    | inl stop ↦ absurd (not_returns (sym (process_stopped env s stop) ∙ h))
    | inr on ↦ elim (Bool-cases env.stopped_later) [
      | inl late ↦
          subst UnderWay
            (late_stop env s u ready on late
              (pop-Delivers (server.item) (picks server rand env) env.order s.scheduler s.queue_pool
                ready.valid.pool (scheduler-IsSound server rand env.draw) range)
              h)
            ready
      | inr on_later ↦
          let here : IsReady server IsRoundRobin (λ order. IsRange order s.queue_pool.queues) s =
            record {
              valid = ready.valid;
              live = ready.live;
              has_slot = ready.has_slot;
              distinct = ready.distinct;
              orders = λ order o. o;
            } in
          let (t, e, ready', _) =
            progress server rand IsRoundRobin (IsRoundRobin-picks (server.item.resource_name) rand)
              handles (λ order. IsRange order s.queue_pool.queues) env s here (on, on_later)
              range in
          subst UnderWay (goes_on_inj (sym e ∙ h)) (record {
            valid = ready'.valid;
            live = ready'.live;
            has_slot = ready'.has_slot;
            distinct = ready'.distinct;
            orders = λ order o. ready'.orders order (ready.orders order o);
          })
    ]
  ]

  Serves-UnderWay :
      (Arrives : Broker A → Broker A → Type 0) (s : Broker A) {t : Broker A}
      → ((u w : Broker A) → Arrives u w → UnderWay u → UnderWay w)
      → UnderWay s
      → Serves server rand Arrives s t
      → UnderWay t
  Serves-UnderWay Arrives s keeps ready starts = ready
  Serves-UnderWay Arrives s keeps ready (arrives {t = u} {u = w} run a) =
      keeps u w a (Serves-UnderWay Arrives s keeps ready run)
  Serves-UnderWay Arrives s keeps ready (rounds {t = u} {u = w} env run range e) =
      goes_on-UnderWay env u w (Serves-UnderWay Arrives s keeps ready run) range e

module _ {A : Type 0} where
  make_queues-IsDistinct :
      (cfg : QueueConfig) (groups : List ServiceGroup) (m : Map (Queue A)) (b : Bool)
      → IsDistinct m
      → IsDistinct (make_queues cfg groups m b).0
  unfolding make_queues
  make_queues-IsDistinct cfg [] m b d = d
  make_queues-IsDistinct cfg (g ∷ groups) m b d =
      make_queues-IsDistinct cfg groups _ _ (insert-IsDistinct g.name (new_queue cfg) m d)

new_queue_pool-IsDistinct :
    (A : Type 0) (cfg : QueueConfig) (groups : List ServiceGroup)
    → IsDistinct (new_queue_pool {A = A} cfg groups).queues
unfolding new_queue_pool
new_queue_pool-IsDistinct A cfg groups =
    let made = make_queues-IsDistinct {A = A} cfg groups [] false tt in
    elim (Bool-cases (make_queues {A = A} cfg groups [] false).1) [
      | inl e ↦ rw e made
      | inr e ↦ rw e (insert-IsDistinct default_service_group (new_queue cfg) _ made)
    ]

-- The orders that visit the queues of a pool made from the configured groups.
abbrev pub Visits : Type 0 → QueueConfig → List ServiceGroup → List String → Type 0
Visits A cfg groups order = IsRange order (new_queue_pool {A = A} cfg groups).queues

start-UnderWay :
    {A : Type 0} (server : Endpoint A) (rand : WeightedRand A) (cfg : QueueConfig)
    (groups : List ServiceGroup) (scheduler : Scheduler) (method : String) (size : ℕ)
    → IsRoundRobin scheduler
    → 0 < size
    → IsReady server IsRoundRobin (Visits A cfg groups) (start cfg groups scheduler method size)
unfolding start
start-UnderWay {A} server rand cfg groups scheduler method size live slot = record {
  valid = (start-IsValid server rand cfg groups scheduler method size).0;
  live = live;
  has_slot = slot;
  distinct = new_queue_pool-IsDistinct A cfg groups;
  orders = λ order o. o;
}

-- The HTTP broker with round robin and a work pool of some slots, from its start, after any sequence of
-- accepted requests and of rounds that went on: in rounds that see no stop, as many as requests wait,
-- the loop neither blocks nor crashes, every queue becomes empty, and every request accepted so far has
-- been answered, exactly once.
pub http_answers :
    (rand : WeightedRand HttpRequestItem) (cfg : QueueConfig) (groups : List ServiceGroup)
    (scheduler : Scheduler) (method : String) (size : ℕ) (t : Broker HttpRequestItem)
    (envs : List Env)
    → IsRoundRobin scheduler
    → 0 < size
    → Serves http_endpoint rand HttpArrives (start cfg groups scheduler method size) t
    → AllOn http_endpoint rand (Visits HttpRequestItem cfg groups) envs
    → pending t.queue_pool.queues ≤ length envs
    → (u : Broker HttpRequestItem) × (serve http_endpoint rand envs t ≡ goes_on u)
      × (pending u.queue_pool.queues ≡ 0)
      × (u.made ≡ t.made)
      × ((c : ℕ) → times_closed c u.closed ≡ one (ltb c t.made))
unfolding http_enqueue_requests
http_answers rand cfg groups scheduler method size t envs live slot run on enough =
    serve_drains http_endpoint rand http-Handles (Visits HttpRequestItem cfg groups) envs t
      (Serves-UnderWay http_endpoint rand http-Handles (Visits HttpRequestItem cfg groups)
        HttpArrives _
        (λ u w (header, req, now, e).
          enqueue-UnderWay http_endpoint rand http-Handles _ _ _ u w refl refl e)
        (start-UnderWay http_endpoint rand cfg groups scheduler method size live slot) run)
      on enough (http_accounts rand cfg groups scheduler method size t run)

-- The gRPC broker with round robin and a work pool of some slots, from its start, after any sequence of
-- accepted requests and of rounds that went on: in rounds that see no stop, as many as requests wait,
-- the loop neither blocks nor crashes, every queue becomes empty, and every request accepted so far has
-- been answered, exactly once.
pub grpc_answers :
    (rand : WeightedRand GrpcItem) (cfg : QueueConfig) (groups : List ServiceGroup)
    (scheduler : Scheduler) (method : String) (size : ℕ) (t : Broker GrpcItem) (envs : List Env)
    → IsRoundRobin scheduler
    → 0 < size
    → Serves grpc_endpoint rand GrpcArrives (start cfg groups scheduler method size) t
    → AllOn grpc_endpoint rand (Visits GrpcItem cfg groups) envs
    → pending t.queue_pool.queues ≤ length envs
    → (u : Broker GrpcItem) × (serve grpc_endpoint rand envs t ≡ goes_on u)
      × (pending u.queue_pool.queues ≡ 0)
      × (u.made ≡ t.made)
      × ((c : ℕ) → times_closed c u.closed ≡ one (ltb c t.made))
unfolding grpc_enqueue_requests
grpc_answers rand cfg groups scheduler method size t envs live slot run on enough =
    serve_drains grpc_endpoint rand grpc-Handles (Visits GrpcItem cfg groups) envs t
      (Serves-UnderWay grpc_endpoint rand grpc-Handles (Visits GrpcItem cfg groups) GrpcArrives _
        (λ u w (sg, now, e). enqueue-UnderWay grpc_endpoint rand grpc-Handles _ _ _ u w refl refl e)
        (start-UnderWay grpc_endpoint rand cfg groups scheduler method size live slot) run)
      on enough (grpc_accounts rand cfg groups scheduler method size t run)
