-- ===== src/Examples/Dispatch.antt =====
-- Runs of the queues, the pickers, the scheduler and the brokers.
use edge_q.Prelude.{
  ◌⊎◌, true, none, ℕ, ◌+◌, ◌<◌, String, ◌≡◌, ◌≢◌, refl, some, List, [], ◌∷◌, ◌++◌, Member, arith,
  get_elem?, ltb,
}
use edge_q.Prelude.Int.{pos}
use edge_q.Outcome.{ok, err}
use edge_q.Maps.{has_key, lookup, insert}
use edge_q.Config.{not_register}
use edge_q.Queue.{Queue, HttpRequestItem, GrpcItem, http_item, new_queue}
use edge_q.Queue
use edge_q.Queue.Fifo.{pushes, pops, run, run-fifo}
use edge_q.Queue.Pool.{QueuePool, make_queues, new_queue_pool, push_at, pop_at, candidates}
use edge_q.Queue.Pool
use edge_q.Queue.Pool.Invariant.{IsWellFormed, new_queue_pool-IsWellFormed, push-IsWellFormed}
use edge_q.Queue.Pool.Admission.{Answers, push-Answers}
use edge_q.Queue.Pool.Delivery.{Delivers, pop-Delivers}
use edge_q.Picker.{RrPicker, rr_picker, wrr_picker, wrr, pick_rr, weigh, pick_wrr, on_picker}
use edge_q.Picker
use edge_q.Picker.RoundRobin.{after_picks, nth_pick, round-IsFair}
use edge_q.Scheduler.{Scheduler, regenerate_picker}
use edge_q.Scheduler
use edge_q.Scheduler.Weights.{Registered}
use edge_q.Scheduler.Registered.{Reaches, regenerate_picker-Registers}
use edge_q.Broker.{
  process, http_enqueue_requests, grpc_enqueue_requests, enqueue, make_chan, http_handle_request,
  grpc_handle_request, close_chan, is_closed, after_pop, dispatch, as_round, take_slot,
  release_slot,
}
use edge_q.Broker.Waiting.{one, waiting}
use edge_q.Broker.Invariant.{times_closed}
use edge_q.Broker.Service.{starts, arrives, rounds}
use edge_q.Broker.Lifecycle.{start, http_accounts, grpc_accounts}
use edge_q.Examples.Data.{
  pair_attributes, first_rand, pick_first, pick_first-IsSound, config, gold, request, call, pool_of,
  only_default, scheduler, env, http_waiting, http_answered, grpc_waiting, grpc_answered,
}

abbrev small : Queue ℕ
small = record { max_size = pos 2; list = 5 ∷ [] }

run-fifo_example :
    small.list ++ (run small (pushes 6 ∷ pushes 7 ∷ pops ∷ [])).accepted
    ≡ (run small (pushes 6 ∷ pushes 7 ∷ pops ∷ [])).handed_out
      ++ (run small (pushes 6 ∷ pushes 7 ∷ pops ∷ [])).left.list
run-fifo_example = run-fifo small (pushes 6 ∷ pushes 7 ∷ pops ∷ [])

empty-IsWellFormed : IsWellFormed http_item (pool_of [])
unfolding new_queue_pool make_queues new_queue insert
empty-IsWellFormed = new_queue_pool-IsWellFormed http_item config []

one-IsWellFormed : IsWellFormed http_item (pool_of (request ∷ []))
unfolding Pool.push push_at lookup insert Queue.push
one-IsWellFormed =
    push-IsWellFormed http_item "default" request (pool_of []) (pool_of (request ∷ []))
      empty-IsWellFormed refl refl

pop-Delivers_example :
    Delivers http_item pick_first
      (candidates ("default" ∷ []) (pool_of (request ∷ [])).queues)
      5
      (pool_of (request ∷ []))
      (Pool.pop http_item pick_first ("default" ∷ []) 5 (pool_of (request ∷ [])))
pop-Delivers_example =
    pop-Delivers http_item pick_first ("default" ∷ []) 5 (pool_of (request ∷ [])) one-IsWellFormed
      pick_first-IsSound (only_default (request ∷ []))

abbrev two_groups : RrPicker
two_groups = record { sub_conns = gold ∷ gold ∷ []; next = 1 }

round-IsFair_example :
    ((i : ℕ) (a : String)
      → i < 2
      → get_elem? ("a" ∷ "b" ∷ []) i ≡ some a
      → (k : ℕ) × (k < 2) × (nth_pick (λ x. x) k two_groups ("a" ∷ "b" ∷ []) ≡ ok a))
    × (after_picks (λ x. x) 2 two_groups ("a" ∷ "b" ∷ []) ≡ ok two_groups)
round-IsFair_example = round-IsFair (λ x. x) two_groups ("a" ∷ "b" ∷ []) (omega arith) refl

regenerate_picker-Registers_example :
    (s' : Scheduler) × (regenerate_picker pair_attributes (λ n. 0) (λ m. m) scheduler (gold ∷ [])
      ≡ ok s')
    × ((t : Scheduler)
        → Reaches (λ x. x) (first_rand String) s' t
        → (draw : ℕ) (cs : List String) (k : String)
        → ((c : String) → Member c cs → Registered c (gold ∷ []))
        → Scheduler.pick (λ x. x) (first_rand String) draw t cs ≢ err (not_register k))
regenerate_picker-Registers_example =
    regenerate_picker-Registers pair_attributes (λ x. x) (first_rand String) (λ n. 0) (λ m. m)
      scheduler (gold ∷ []) (record { each = λ m e h. h; only = λ m e h. h }) refl

http_accounts_example :
    waiting (λ h. h.wait_chan) 0 http_answered.queue_pool.queues
      + times_closed 0 http_answered.closed
    ≡ one (ltb 0 1)
unfolding start new_queue_pool make_queues new_queue insert lookup http_enqueue_requests make_chan
    enqueue Pool.push push_at Queue.push process after_pop dispatch as_round take_slot Pool.pop
    pop_at candidates Queue.peek Queue.pop Scheduler.pick Picker.pick on_picker pick_wrr weigh
    http_handle_request close_chan is_closed release_slot
http_accounts_example =
    http_accounts (first_rand HttpRequestItem) config [] scheduler "WRR" 1 http_answered
      (rounds env
        (arrives {t = start config [] scheduler "WRR" 1} {u = http_waiting} starts ("", 7, 3, refl))
        (only_default (request ∷ [])) refl)
      0

grpc_accounts_example :
    waiting (λ g. g.wait_chan) 0 grpc_answered.queue_pool.queues
      + times_closed 0 grpc_answered.closed
    ≡ one (ltb 0 1)
unfolding start new_queue_pool make_queues new_queue insert lookup grpc_enqueue_requests make_chan
    enqueue Pool.push push_at Queue.push process after_pop dispatch as_round take_slot Pool.pop
    pop_at candidates Queue.peek Queue.pop Scheduler.pick Picker.pick on_picker pick_wrr weigh
    grpc_handle_request close_chan is_closed release_slot
grpc_accounts_example =
    grpc_accounts (first_rand GrpcItem) config [] scheduler "WRR" 1 grpc_answered
      (rounds env
        (arrives {t = start config [] scheduler "WRR" 1} {u = grpc_waiting} starts
          ("default", 3, refl))
        (only_default (call ∷ [])) refl)
      0

push-Answers_example :
    ((has_key "gold" (pool_of {A = HttpRequestItem} []).queues ≡ true)
      × Answers (Pool.push http_item "gold" request (pool_of [])) (pool_of []) "gold" request)
    ⊎ ((lookup "gold" (pool_of {A = HttpRequestItem} []).queues ≡ none)
        × Answers (Pool.push http_item "gold" request (pool_of [])) (pool_of []) "default" request)
push-Answers_example = push-Answers http_item "gold" request (pool_of []) empty-IsWellFormed
