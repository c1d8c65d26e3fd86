-- ===== src/Broker/Progress.antt =====
-- That the processing loop of internal/broker/endpoint gets through its queues.
use mathlib.Core.Path.{subst}
use edge_q.Prelude.{
  ℕ, ◌-◌, ◌≤◌, ◌<◌, ◌≡◌, refl, sym, ap, ◌∙◌, String, ◌⊎◌, inl, inr, Bool-cases, true, false, none,
  some, List-cases, List, [], ◌∷◌, arith, ltb, eqb, eq_refl,
}
use edge_q.Outcome.{ok, ok_inj}
use edge_q.Maps.{Map, lookup, insert, IsRange}
use edge_q.Maps.Distinct.{IsDistinct, insert-IsDistinct, insert-IsRange, lookup_inside}
use edge_q.Queue.{Queue}
use edge_q.Queue.Pool.{QueuePool, candidates}
use edge_q.Queue.Pool
use edge_q.Queue.Pool.Delivery.{Delivers, idle, fails, crashes, delivers, pop-Delivers}
use edge_q.Picker.{WeightedRand}
use edge_q.Scheduler.{Scheduler}
use edge_q.Scheduler
use edge_q.Broker.{
  Broker, goes_on, Endpoint, Env, process, after_pop, dispatch, as_round, take_slot,
}
use edge_q.Broker.Waiting.{count, waiting, waiting-insert}
use edge_q.Broker.Service.{process-IsValid}
use edge_q.Broker.Invariant.{
  times_closed, IsValid, Handles, not_closed, scheduler-IsSound, picks, popped,
}

module _ {A : Type 0} where
  -- The items that wait in any queue.
  abbrev pub pending : Map (Queue A) → ℕ
  pending m = waiting (λ _. 0) 0 m

  empty-pending :
      (m : Map (Queue A))
      → IsDistinct m
      → ((k : String) (q : Queue A) → lookup k m ≡ some q → q.list ≡ [])
      → pending m ≡ 0
  unfolding lookup
  empty-pending [] d h = refl
  empty-pending ((k, q) ∷ m) (fresh, d) h = omega (
    arith,
    ap (λ (xs : List A). count (λ _. 0) 0 xs) (h k q (rw (eq_refl k) refl)),
    empty-pending m d (λ j p e. h j p (lookup_inside k q m j p (fresh, d) e)),
  )

  count-le : (chan : A → ℕ) (c : ℕ) (xs : List A) → count chan c xs ≤ count (λ _. 0) 0 xs
  count-le chan c [] = omega arith
  count-le chan c (x ∷ xs) = ground (arith, count-le chan c xs, Bool-cases (eqb (chan x) c))

  pub waiting-le-pending : (chan : A → ℕ) (c : ℕ) (m : Map (Queue A)) → waiting chan c m ≤ pending m
  waiting-le-pending chan c [] = omega arith
  waiting-le-pending chan c ((k, q) ∷ m) =
      omega (arith, count-le chan c q.list, waiting-le-pending chan c m)

-- Neither `select` of the round sees a stop.
abbrev pub IsOn : Env → Type 0
IsOn env = (env.stopped ≡ false) × (env.stopped_later ≡ false)

-- A server in its loop: `Live` holds of its scheduler, there is a slot, and the orders of `order_of`
-- visit its queues.
pub record IsReady {A : Type 0} (server : Endpoint A) (Live : Scheduler → Type 0)
    (order_of : List String → Type 0) (s : Broker A) : Type 0 where
  pub valid : IsValid server s
  pub live : Live s.scheduler
  pub has_slot : 0 < s.work_pool_size
  pub distinct : IsDistinct s.queue_pool.queues
  pub orders : (order : List String) → order_of order → IsRange order s.queue_pool.queues

-- A server whose scheduler always picks one of some candidates, while `Live` holds of it.
module _ {A : Type 0} (server : Endpoint A) (rand : WeightedRand A) (Live : Scheduler → Type 0)
    (picking : (draw : ℕ) (s : Scheduler) (c : A) (cs : List A)
      → Live s
      → (a : A) × (s' : Scheduler) × (Scheduler.pick
            ((server.item).resource_name)
            rand
            draw
            s
            (c ∷ cs)
          ≡ ok (a, s'))
        × Live s')
    (handles : Handles server) where
  -- What a round comes to: it goes on, and an item that waited has been handled.
  abbrev pub Progress : (List String → Type 0) → Env → Broker A → Type 0
  Progress order_of env s =
      (t : Broker A) × (process server rand env s ≡ goes_on t)
      × IsReady server Live order_of t
      × (pending t.queue_pool.queues ≡ pending s.queue_pool.queues - 1)

  pub process_on :
      (env : Env) (s : Broker A)
      → env.stopped ≡ false
      → process server rand env s ≡ after_pop server rand env s (popped server rand env s)
  unfolding process
  process_on env s on = rw (process, on) refl

  no_candidates :
      (env : Env) (s : Broker A)
      → candidates env.order s.queue_pool.queues ≡ []
      → popped server rand env s ≡ ok (none, s.scheduler, s.queue_pool)
  unfolding Pool.pop
  no_candidates env s e = rw (Pool.pop, e) refl

  -- The pick of a round in which something was popped, or could not be.
  pub picked :
      (env : Env) (s : Broker A)
      → Live s.scheduler
      → (popped server rand env s ≡ ok (none, s.scheduler, s.queue_pool))
        ⊎ ((a : A) × (s' : Scheduler) × (picks server rand env s.scheduler
                (candidates env.order s.queue_pool.queues)
              ≡ ok (a, s'))
            × Live s')
  picked env s live = elim (List-cases (candidates env.order s.queue_pool.queues)) [
    | inl e ↦ inl (no_candidates env s e)
    | inr (c, cs, e) ↦
        let (a, s', p, live') = picking env.draw s.scheduler c cs live in
        inr (a, s', ap (picks server rand env s.scheduler) e ∙ p, live')
  ]

  dispatch_on :
      (env : Env) (item : A) (s : Broker A)
      → env.stopped_later ≡ false
      → 0 < s.work_pool_size
      → s.work_pool ≡ 0
      → times_closed (server.wait_chan item) s.closed ≡ 0
      → (t : Broker A) × (dispatch server rand env item s ≡ goes_on t)
        × (t.queue_pool ≡ s.queue_pool)
        × (t.scheduler ≡ s.scheduler)
        × (t.work_pool_size ≡ s.work_pool_size)
  unfolding dispatch take_slot as_round
  dispatch_on env item s on size slots open_chan =
      let (t, done, _, qp, _, _, scheduler, size') =
        handles.answers env.now item (take_slot s)
          (not_closed (server.wait_chan item) s.closed open_chan) in
      let room : ltb s.work_pool s.work_pool_size ≡ true = ground arith in
      (t, rw (dispatch, on, room, done) refl, qp, scheduler, size')

  front_open :
      (s : Broker A) (k : String) (q : Queue A) (a : A) (rest : List A)
      → IsValid server s
      → lookup k s.queue_pool.queues ≡ some q
      → q.list ≡ a ∷ rest
      → times_closed (server.wait_chan a) s.closed ≡ 0
  front_open s k q a rest v there front =
      let c = server.wait_chan a in
      ground (
        arith,
        v.once c,
        ap (λ (xs : List A). count (server.wait_chan) c xs) front,
        waiting-insert (server.wait_chan) c k q (record q { list = rest }) s.queue_pool.queues
            there,
      )

  -- The broker that has taken an item from the front of its queue.
  abbrev pub taken : Env → A → Scheduler → List A → Queue A → Broker A → Broker A
  taken env a s' rest q s = record s {
    scheduler = s';
    queue_pool = record {
      queues =
          insert ((server.item).resource_name a) (record q { list = rest }) s.queue_pool.queues;
    };
    waited =
        record {
          method = s.schedule_method;
          service_group = (server.item).resource_name a;
          duration = env.now - (server.item).get_create_time a;
        }
        ∷ s.waited;
  }

  handled :
      (order_of : List String → Type 0) (env : Env) (s : Broker A) (a : A) (s' : Scheduler)
      (q : Queue A) (rest : List A)
      → IsReady server Live order_of s
      → IsOn env
      → order_of env.order
      → Live s'
      → lookup ((server.item).resource_name a) s.queue_pool.queues ≡ some q
      → q.list ≡ a ∷ rest
      → process server rand env s ≡ dispatch server rand env a (taken env a s' rest q s)
      → Progress order_of env s
  handled order_of env s a s' q rest ready on at live there front e =
      let k : String = server.item.resource_name a in
      let m = s.queue_pool.queues in
      let (t, done, qp, scheduler, size) =
        dispatch_on env a (taken env a s' rest q s) on.1 ready.has_slot ready.valid.slots
          (front_open s k q a rest ready.valid there front) in
      (
        t,
        e ∙ done,
        record {
          valid =
              (process-IsValid server rand env s t handles ready.valid (ready.orders env.order at)
                (e ∙ done)).0;
          live = rw scheduler live;
          has_slot = rw size ready.has_slot;
          distinct = rw qp (insert-IsDistinct k (record q { list = rest }) m ready.distinct);
          orders = λ order h.
              rw qp (
                insert-IsRange k (record q { list = rest }) q m order there (ready.orders order h));
        },
        rw qp (
            omega (
              arith,
              ap (λ (xs : List A). count (λ _. 0) 0 xs) front,
              waiting-insert (λ _. 0) 0 k q (record q { list = rest }) m there,
            )),
      )

  pub delivered :
      (order_of : List String → Type 0) (env : Env) (s : Broker A)
      → IsReady server Live order_of s
      → IsOn env
      → order_of env.order
      → Delivers
          (server.item)
          (picks server rand env)
          (candidates env.order s.queue_pool.queues)
          s.scheduler
          s.queue_pool
          (popped server rand env s)
      → Progress order_of env s
  unfolding after_pop
  delivered order_of env s ready (on, on_later) at (idle all_empty r) = (
    s,
    process_on env s on ∙ ap (after_pop server rand env s) r,
    ready,
    omega (arith, empty-pending s.queue_pool.queues ready.distinct all_empty),
  )
  delivered order_of env s ready (on, on_later) at (fails e p r) = elim (picked env s ready.live) [
    | inl none_there ↦ absurd (cc)
    | inr (a, s', p', live) ↦ absurd (cc)
  ]
  delivered order_of env s ready (on, on_later) at (crashes p r) = elim (picked env s ready.live) [
    | inl none_there ↦ absurd (cc)
    | inr (a, s', p', live) ↦ absurd (cc)
  ]
  delivered order_of env s ready on at (delivers a s' q rest p there front r) =
      elim (picked env s ready.live) [
        | inl none_there ↦ absurd (cc)
        | inr (b, s'', p', live) ↦
            let same : s'' ≡ s' = ap (λ (x : A × Scheduler). x.1) (ok_inj (sym p' ∙ p)) in
            handled order_of env s a s' q rest ready on at (subst Live same live) there front
              (process_on env s on.0 ∙ ap (after_pop server rand env s) r)
      ]

  pub progress :
      (order_of : List String → Type 0) (env : Env) (s : Broker A)
      → IsReady server Live order_of s
      → IsOn env
      → order_of env.order
      → Progress order_of env s
  progress order_of env s ready on at = delivered order_of env s ready on at (
      pop-Delivers (server.item) (picks server rand env) env.order s.scheduler s.queue_pool
        ready.valid.pool (scheduler-IsSound server rand env.draw) (ready.orders env.order at))
