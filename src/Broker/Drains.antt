-- ===== src/Broker/Drains.antt =====
-- That the brokers of internal/broker/endpoint answer every request, given rounds enough.
use edge_q.Prelude.{
  ℕ, ◌+◌, ◌-◌, ◌≤◌, ◌<◌, ◌≡◌, refl, ◌∙◌, String, false, some, List, [], ◌∷◌, arith, ltb, length,
  get_elem?-some, ◌%◌,
}
use native.Mathlib.Nat.{mod-lt}
use edge_q.Outcome.{ok}
use edge_q.Picker.{WeightedRand, RrPicker, rr_picker, pick_rr, on_picker}
use edge_q.Picker.RoundRobin.{pick_rr_lem}
use edge_q.Picker
use edge_q.Scheduler.{Scheduler}
use edge_q.Scheduler
use edge_q.Broker.{Broker, Round, goes_on, returns, blocks, crashes, Endpoint, Env, process}
use edge_q.Broker.Waiting.{one}
use edge_q.Broker.Invariant.{times_closed, Handles, waits, process-Goes}
use edge_q.Broker.Progress.{pending, waiting-le-pending, IsReady, progress}

-- A scheduler that holds a round-robin picker over some resources.
abbrev pub IsRoundRobin : Scheduler → Type 0
IsRoundRobin s = (p : RrPicker) × (s.picker ≡ some (rr_picker p)) × (0 < length p.sub_conns)

pub IsRoundRobin-picks :
    {A : Type 0} (name : A → String) (rand : WeightedRand A) (draw : ℕ) (s : Scheduler) (c : A)
    (cs : List A)
    → IsRoundRobin s
    → (a : A) × (s' : Scheduler) × (Scheduler.pick name rand draw s (c ∷ cs) ≡ ok (a, s'))
      × IsRoundRobin s'
unfolding Scheduler.pick Picker.pick on_picker
IsRoundRobin-picks name rand draw s c cs (p, e, some_conns) =
    let p' : RrPicker = record p { next = (p.next + 1) % length p.sub_conns } in
    let (a, found) =
      get_elem?-some (c ∷ cs) (p.next % length (c ∷ cs)) (mod-lt p.next (omega arith)) in
    (
      a,
      record s { picker = some (rr_picker p') },
      rw (Scheduler.pick, e) (rw (pick_rr_lem name p (c ∷ cs) a some_conns found) refl),
      (p', refl, some_conns),
    )

module _ {A : Type 0} (server : Endpoint A) (rand : WeightedRand A) where
  -- The loop in a row of environments, as long as it goes on.
  pub serve : List Env → Broker A → Round A
  serve [] s = goes_on s
  serve (env ∷ envs) s = elim (process server rand env s) [
    | goes_on t ↦ serve envs t
    | returns item t ↦ returns item t
    | blocks item t ↦ blocks item t
    | crashes ↦ crashes
  ]

  -- In none of the environments a stop is seen, and each visits the queues in an order of `order_of`.
  abbrev pub AllOn : (List String → Type 0) → List Env → Type 0
  AllOn order_of [] = Unit {0}
  AllOn order_of (env ∷ envs) =
      (env.stopped ≡ false) × (env.stopped_later ≡ false) × order_of env.order × AllOn order_of envs

  -- A state in which the loop is under way with a round-robin scheduler.
  abbrev pub UnderWay : (List String → Type 0) → Broker A → Type 0
  UnderWay order_of s = IsReady server IsRoundRobin order_of s

module _ {A : Type 0} (server : Endpoint A) (rand : WeightedRand A) (handles : Handles server) where
  -- What rounds come to, as many as there are environments.
  record Served (order_of : List String → Type 0) (n : ℕ) (s t : Broker A) : Type 0 where
    ready : UnderWay server rand order_of t
    fewer : pending t.queue_pool.queues ≡ pending s.queue_pool.queues - n
    made : t.made ≡ s.made
    waits_same : (c : ℕ) → waits server rand c t ≡ waits server rand c s

  serve-Served :
      (order_of : List String → Type 0) (envs : List Env) (s : Broker A)
      → UnderWay server rand order_of s
      → AllOn server rand order_of envs
      → (t : Broker A) × (serve server rand envs s ≡ goes_on t) × Served order_of (length envs) s t
  unfolding serve
  serve-Served order_of [] s ready on =
      (s, refl, record { ready = ready; fewer = omega arith; made = refl; waits_same = λ c. refl })
  serve-Served order_of (env ∷ envs) s ready (on, on_later, at, rest) =
      let (t, e, ready', fewer) =
        progress server rand IsRoundRobin (IsRoundRobin-picks (server.item.resource_name) rand)
          handles order_of env s ready (on, on_later) at in
      let goes =
        process-Goes server rand env s t handles ready.valid (ready.orders env.order at) e in
      let (u, e', served) = serve-Served order_of envs t ready' rest in
      (
        u,
        rw (serve, e) e',
        record {
          ready = served.ready;
          fewer = omega (arith, served.fewer, fewer);
          made = served.made ∙ goes.made;
          waits_same = λ c. served.waits_same c ∙ goes.waits_same c;
        },
      )

  -- With round robin and a slot, and as long as no stop is seen, the loop neither blocks nor crashes,
  -- and after as many rounds as requests wait every queue is empty and every request that was accepted
  -- has been answered, once.
  pub serve_drains :
      (order_of : List String → Type 0) (envs : List Env) (s : Broker A)
      → UnderWay server rand order_of s
      → AllOn server rand order_of envs
      → pending s.queue_pool.queues ≤ length envs
      → ((c : ℕ) → waits server rand c s ≡ one (ltb c s.made))
      → (t : Broker A) × (serve server rand envs s ≡ goes_on t)
        × (pending t.queue_pool.queues ≡ 0)
        × (t.made ≡ s.made)
        × ((c : ℕ) → times_closed c t.closed ≡ one (ltb c s.made))
  serve_drains order_of envs s ready on enough account =
      let (t, e, served) = serve-Served order_of envs s ready on in
      (
        t,
        e,
        omega (arith, served.fewer),
        served.made,
        λ c. omega (
          arith,
          served.fewer,
          served.waits_same c,
          account c,
          waiting-le-pending (server.wait_chan) c t.queue_pool.queues,
        ),
      )
