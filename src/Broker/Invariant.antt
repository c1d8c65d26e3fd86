-- ===== src/Broker/Invariant.antt =====
-- The invariant of the broker servers of internal/broker/endpoint: no channel is waited on twice, or
-- waited on after it was closed, and between two rounds no slot of the work pool is taken.
use mathlib.Core.Path.{subst}
use edge_q.Prelude.{
  ℕ, ◌+◌, ◌-◌, ◌≤◌, ◌≡◌, refl, sym, ap, ◌∙◌, String, inl, inr, Bool-cases, false, Option, none,
  some, Option-cases, List, [], ◌∷◌, arith, Member,
}
use edge_q.Outcome.{Outcome, ok, err, panic, ok_inj, >>=-eq-ok}
use edge_q.Maps.{IsRange}
use edge_q.Config.{Error}
use edge_q.Queue.Pool.{QueuePool}
use edge_q.Queue.Pool
use edge_q.Queue.Pool.Invariant.{IsWellFormed}
use edge_q.Queue.Pool.Delivery.{IsSound, pop-Delivers, pop-IsWellFormed}
use edge_q.Picker.{WeightedRand}
use edge_q.Picker.Sound.{pick-Member}
use edge_q.Picker
use edge_q.Scheduler.{Scheduler}
use edge_q.Scheduler
use edge_q.Broker.{
  Broker, goes_on, Endpoint, Env, is_closed, http_handle_request, grpc_handle_request,
  http_endpoint, grpc_endpoint, process, after_pop, dispatch, as_round, take_slot,
}
use edge_q.Broker.Waiting.{count, waiting, out_count, waiting-pop}

abbrev pub times_closed : ℕ → List ℕ → ℕ
times_closed c closed = count (λ d. d) c closed

module _ {A : Type 0} where
  pub record IsValid (server : Endpoint A) (s : Broker A) : Type 0 where
    pub pool : IsWellFormed (server.item) s.queue_pool
    pub once :
        (c : ℕ) → waiting (server.wait_chan) c s.queue_pool.queues + times_closed c s.closed ≤ 1
    pub fresh :
        (c : ℕ)
        → s.made ≤ c
        → waiting (server.wait_chan) c s.queue_pool.queues + times_closed c s.closed ≡ 0
    pub slots : s.work_pool ≡ 0

  -- What `HandleRequest` of a server does, whose channel is open: it closes the channel and gives the
  -- slot back.
  pub record Handles (server : Endpoint A) : Type 0 where
    pub answers :
        (now : ℕ) (a : A) (s : Broker A)
        → is_closed (server.wait_chan a) s.closed ≡ false
        → (s' : Broker A) × (server.handle_request now a s ≡ ok s')
          × (s'.closed ≡ server.wait_chan a ∷ s.closed)
          × (s'.queue_pool ≡ s.queue_pool)
          × (s'.made ≡ s.made)
          × (s'.work_pool ≡ s.work_pool - 1)
          × (s'.scheduler ≡ s.scheduler)
          × (s'.work_pool_size ≡ s.work_pool_size)

pub http-Handles : Handles http_endpoint
unfolding http_handle_request
http-Handles = record {
  answers = λ now a s open_chan. rw open_chan (_, refl, refl, refl, refl, refl, refl, refl);
}

pub grpc-Handles : Handles grpc_endpoint
unfolding grpc_handle_request
grpc-Handles = record {
  answers = λ now a s open_chan. rw open_chan (_, refl, refl, refl, refl, refl, refl, refl);
}

pub not_closed : (c : ℕ) (closed : List ℕ) → times_closed c closed ≡ 0 → is_closed c closed ≡ false
unfolding is_closed
not_closed c [] h = refl
not_closed c (d ∷ closed) h = ground (arith, not_closed c closed)

module _ {A : Type 0} (server : Endpoint A) (rand : WeightedRand A) where
  -- The scheduler picks among its candidates.
  pub scheduler-IsSound :
      (draw : ℕ) → IsSound (Scheduler.pick ((server.item).resource_name) rand draw)
  unfolding Scheduler.pick
  scheduler-IsSound draw = record {
    chooses = λ s s' cs a h. elim (Option-cases s.picker) [
      | inl e ↦
          let ((b, p), picked, h') =
            >>=-eq-ok (Picker.pick name rand draw s.err_picker cs) _
              (rw (e, Scheduler.pick) at h) in
          subst (λ x. Member x cs) (ap (λ (x : A × Scheduler). x.0) (ok_inj h'))
            (pick-Member name rand draw s.err_picker p cs b picked)
      | inr (q, e) ↦
          let ((b, p), picked, h') =
            >>=-eq-ok (Picker.pick name rand draw q cs) _ (rw (e, Scheduler.pick) at h) in
          subst (λ x. Member x cs) (ap (λ (x : A × Scheduler). x.0) (ok_inj h'))
            (pick-Member name rand draw q p cs b picked)
    ];
  }
    where
      name : A → String
      name = server.item.resource_name

  abbrev pub waits : ℕ → Broker A → ℕ
  waits c s = waiting (server.wait_chan) c s.queue_pool.queues + times_closed c s.closed

  -- A round that had taken `item` from the queues of `s` and goes on.
  record Keeps (item : Option A) (s s' : Broker A) : Type 0 where
    pool : IsWellFormed (server.item) s'.queue_pool
    made : s'.made ≡ s.made
    slots : s'.work_pool ≡ 0
    waits_same : (c : ℕ) → waits c s' ≡ waits c s + out_count (server.wait_chan) c item

  as_round-ok :
      (r : Outcome Error (Broker A)) (s : Broker A) → as_round server rand r ≡ goes_on s → r ≡ ok s
  unfolding as_round
  as_round-ok (ok t) s h = ground arith
  as_round-ok (err e) s h = cc
  as_round-ok panic s h = cc

  dispatch-Keeps :
      (env : Env) (item : A) (s s' : Broker A)
      → Handles server
      → IsWellFormed (server.item) s.queue_pool
      → s.work_pool ≡ 0
      → times_closed (server.wait_chan item) s.closed ≡ 0
      → dispatch server rand env item s ≡ goes_on s'
      → Keeps (some item) s s'
  unfolding dispatch take_slot
  dispatch-Keeps env item s s' handles v slots open_chan h =
      let (t, done, closed, qp, made, slots', _, _) =
        handles.answers env.now item (take_slot s)
          (not_closed (server.wait_chan item) s.closed open_chan) in
      let e : t ≡ s' = ok_inj (
        sym done
        ∙ as_round-ok (server.handle_request env.now item (take_slot s)) s' (ground arith)) in
      subst (Keeps (some item) s) e (record {
        pool = rw qp v;
        made = made;
        slots = omega (arith, slots');
        waits_same = λ c. rw (qp, closed) (omega arith);
      })

  -- The scheduler's pick in one round, and what `Pop` returns there.
  abbrev pub picks : Env → Pool.Pick A Scheduler
  picks env = Scheduler.pick (server.item.resource_name) rand env.draw

  abbrev pub popped : Env → Broker A → Outcome Error (Option A × Scheduler × QueuePool A)
  popped env s = Pool.pop (server.item) (picks env) env.order s.scheduler s.queue_pool

  -- A round that goes on leaves the pool well-formed and the slots free, makes no channel, and keeps
  -- what waits on each channel or has closed it.
  pub record Goes (s s' : Broker A) : Type 0 where
    pub pool : IsWellFormed (server.item) s'.queue_pool
    pub made : s'.made ≡ s.made
    pub slots : s'.work_pool ≡ 0
    pub waits_same : (c : ℕ) → waits c s' ≡ waits c s

  after_pop-Goes :
      (env : Env) (s s' : Broker A) (r : Outcome Error (Option A × Scheduler × QueuePool A))
      → Handles server
      → IsValid server s
      → IsRange env.order s.queue_pool.queues
      → popped env s ≡ r
      → after_pop server rand env s r ≡ goes_on s'
      → Goes s s'
  unfolding after_pop
  after_pop-Goes env s s' (err x) handles v range e h =
      subst (Goes s) {x = s} (ground arith)
        (record { pool = v.pool; made = refl; slots = v.slots; waits_same = λ c. refl })
  after_pop-Goes env s s' panic handles v range e h = absurd (cc)
  after_pop-Goes env s s' (ok (none, sch, qp)) handles v range e h =
      let t : Broker A = record s { scheduler = sch; queue_pool = qp } in
      subst (Goes s) {x = t} (ground arith) (record {
        pool =
            pop-IsWellFormed (server.item) (picks env) env.order s.scheduler sch s.queue_pool qp
              none v.pool (scheduler-IsSound env.draw) range e;
        made = refl;
        slots = v.slots;
        waits_same = λ c. omega (
          arith,
          waiting-pop (server.wait_chan) c (server.item) (picks env) env.order s.scheduler sch
              s.queue_pool qp none
              (pop-Delivers (server.item) (picks env) env.order s.scheduler s.queue_pool v.pool
                (scheduler-IsSound env.draw) range)
              e,
        );
      })
  after_pop-Goes env s s' (ok (some item, sch, qp)) handles v range e h =
      let moved : (c : ℕ)
          → waiting (server.wait_chan) c qp.queues + out_count (server.wait_chan) c (some item)
            ≡ waiting (server.wait_chan) c s.queue_pool.queues =
        λ c.
          waiting-pop (server.wait_chan) c (server.item) (picks env) env.order s.scheduler sch
            s.queue_pool qp (some item)
            (pop-Delivers (server.item) (picks env) env.order s.scheduler s.queue_pool v.pool
              (scheduler-IsSound env.draw) range)
            e in
      let kept =
        dispatch-Keeps env item _ s' handles
          (pop-IsWellFormed (server.item) (picks env) env.order s.scheduler sch s.queue_pool qp
            (some item) v.pool (scheduler-IsSound env.draw) range e)
          v.slots (ground (arith, moved (server.wait_chan item), v.once (server.wait_chan item)))
          h in
      record {
        pool = kept.pool;
        made = kept.made;
        slots = kept.slots;
        waits_same = λ c. omega (arith, kept.waits_same c, moved c);
      }

  pub process-Goes :
      (env : Env) (s s' : Broker A)
      → Handles server
      → IsValid server s
      → IsRange env.order s.queue_pool.queues
      → process server rand env s ≡ goes_on s'
      → Goes s s'
  unfolding process
  process-Goes env s s' handles v range h = elim (Bool-cases env.stopped) [
    | inl stop ↦ absurd (cc (rw (stop, process) at h))
    | inr on ↦ after_pop-Goes env s s' (popped env s) handles v range refl (rw (on, process) at h)
  ]
