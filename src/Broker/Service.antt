-- ===== src/Broker/Service.antt =====
-- What the broker servers of internal/broker/endpoint promise their requests, over every sequence of
-- arrivals and rounds.
use mathlib.Core.Path.{subst}
use edge_q.Prelude.{
  ℕ, suc, ◌+◌, ◌≡◌, sym, ap, ◌∙◌, String, inl, inr, Bool-cases, Option, none, some, arith, eqb, ltb,
}
use edge_q.Outcome.{Outcome, ok, err, panic, ok_inj, >>=-eq-ok}
use edge_q.Maps.{IsRange}
use edge_q.Config.{Error}
use edge_q.Queue.Pool.{QueuePool, new_queue_pool}
use edge_q.Queue.Pool
use edge_q.Queue.Pool.Invariant.{IsWellFormed, push-IsWellFormed}
use edge_q.Picker.{WeightedRand}
use edge_q.Scheduler.{Scheduler}
use edge_q.Broker.{Broker, goes_on, Endpoint, Env, enqueue, make_chan, process, after_pop, dispatch}
use edge_q.Broker.Waiting.{one, waiting-push}
use edge_q.Broker.Invariant.{IsValid, Handles, Goes, process-Goes, waits}

module _ {A : Type 0} (server : Endpoint A) (rand : WeightedRand A) where
  pub enqueue-IsValid :
      (sg : String) (a : A) (s s' : Broker A)
      → IsValid server s
      → (server.item).resource_name a ≡ sg
      → server.wait_chan a ≡ s.made
      → enqueue (server.item) sg a (make_chan s).1 ≡ ok s'
      → IsValid server s'
        × (s'.made ≡ suc s.made)
        × ((c : ℕ) → waits server rand c s' ≡ waits server rand c s + one (eqb s.made c))
  unfolding enqueue make_chan
  enqueue-IsValid sg a s s' v name chan h =
      let (qp, pushed, made) = >>=-eq-ok (Pool.push (server.item) sg a s.queue_pool) _ h in
      let e = ok_inj made in
      let more : (c : ℕ) → waits server rand c s' ≡ waits server rand c s + one (eqb s.made c) =
        λ c. omega (
          arith,
          waiting-push (server.wait_chan) c (server.item) sg a s.queue_pool qp (server.chan-set)
              pushed,
          ap (λ (t : Broker A). waits server rand c t) e,
          ap (λ (n : ℕ). one (eqb n c)) chan,
        ) in
      (
        record {
          pool =
              subst (λ (t : Broker A). IsWellFormed (server.item) t.queue_pool) e
                (push-IsWellFormed (server.item) sg a s.queue_pool qp v.pool name pushed);
          once = λ c. ground (arith, more c, v.once c, v.fresh c);
          fresh = λ c le. ground (arith, more c, ap (λ (t : Broker A). t.made) e, v.fresh c);
          slots = ap (λ (t : Broker A). t.work_pool) (sym e) ∙ v.slots;
        },
        ap (λ (t : Broker A). t.made) (sym e),
        more,
      )

  Goes-IsValid : (s s' : Broker A) → IsValid server s → Goes server rand s s' → IsValid server s'
  Goes-IsValid s s' v g = record {
    pool = g.pool;
    once = λ c. omega (arith, g.waits_same c, v.once c);
    fresh = λ c le. omega (arith, g.waits_same c, g.made, v.fresh c (omega (arith, g.made)));
    slots = g.slots;
  }

  -- A round that goes on, of a server that closes the channel of each request it handles, keeps the
  -- invariant: no channel is waited on twice, or waited on after it was closed. Each channel is waited
  -- on, or has been closed, as often after the round as before it.
  pub process-IsValid :
      (env : Env) (s s' : Broker A)
      → Handles server
      → IsValid server s
      → IsRange env.order s.queue_pool.queues
      → process server rand env s ≡ goes_on s'
      → IsValid server s' × ((c : ℕ) → waits server rand c s' ≡ waits server rand c s)
  process-IsValid env s s' handles v range h =
      let g = process-Goes server rand env s s' handles v range h in
      (Goes-IsValid s s' v g, g.waits_same)

  after_pop_no_slots :
      (env : Env) (s s' : Broker A) (r : Outcome Error (Option A × Scheduler × QueuePool A))
      → s.work_pool_size ≡ 0
      → after_pop server rand env s r ≡ goes_on s'
      → s'.closed ≡ s.closed
  unfolding after_pop dispatch
  after_pop_no_slots env s s' (err e) none_there h = ground arith
  after_pop_no_slots env s s' panic none_there h = absurd (cc)
  after_pop_no_slots env s s' (ok (none, sch, qp)) none_there h = ground arith
  after_pop_no_slots env s s' (ok (some item, sch, qp)) none_there h = ground arith

  -- With a work pool of no slots a round that goes on closes no wait channel: it handles no request.
  pub process_no_slots :
      (env : Env) (s s' : Broker A)
      → s.work_pool_size ≡ 0
      → process server rand env s ≡ goes_on s'
      → s'.closed ≡ s.closed
  unfolding process
  process_no_slots env s s' none_there h = elim (Bool-cases env.stopped) [
    | inl stop ↦ absurd (cc (rw (stop, process) at h))
    | inr on ↦ after_pop_no_slots env s s' _ none_there (rw (on, process) at h)
  ]

  -- A service of requests: what arrives, and rounds in every environment.
  pub data Serves (Arrives : Broker A → Broker A → Type 0) (s : Broker A) : Broker A → Type 0 where
    starts : Serves Arrives s s
    arrives : {t u : Broker A} → Serves Arrives s t → Arrives t u → Serves Arrives s u
    rounds :
        {t u : Broker A} (env : Env)
        → Serves Arrives s t
        → IsRange env.order t.queue_pool.queues
        → process server rand env t ≡ goes_on u
        → Serves Arrives s u

  -- Each channel made so far is waited on or closed, once; those to come are neither.
  abbrev pub Accounts : Broker A → Type 0
  Accounts s = (c : ℕ) → waits server rand c s ≡ one (ltb c s.made)

  -- A request that is accepted is named for its group, and has made the channel that it waits on.
  abbrev pub Adds : Broker A → Broker A → Type 0
  Adds s s' =
      IsValid server s
      → IsValid server s'
        × (s'.made ≡ suc s.made)
        × ((c : ℕ) → waits server rand c s' ≡ waits server rand c s + one (eqb s.made c))

  pub Serves-Accounts :
      (Arrives : Broker A → Broker A → Type 0) (s : Broker A) {t : Broker A}
      → Handles server
      → ((u w : Broker A) → Arrives u w → Adds u w)
      → IsValid server s × Accounts s
      → Serves Arrives s t
      → IsValid server t × Accounts t
  Serves-Accounts Arrives s handles adds h starts = h
  Serves-Accounts Arrives s handles adds h (arrives {t = u} {u = w} run a) =
      let (v, acc) = Serves-Accounts Arrives s handles adds h run in
      let (v', made, more) = adds u w a v in (v', λ c. ground (arith, acc c, more c, made))
  Serves-Accounts Arrives s handles adds h (rounds {t = u} {u = w} env run range e) =
      let (v, acc) = Serves-Accounts Arrives s handles adds h run in
      let (v', same) = process-IsValid env u w handles v range e in
      let g = process-Goes server rand env u w handles v range e in
      (v', λ c. ground (arith, acc c, same c, g.made))
