-- ===== src/Queue/Pool.antt =====
-- pkg/queue/queue.go, `QueuePool`: a queue for each service group, one of them the default.
pub mod Invariant
pub mod Delivery
pub mod Admission
use edge_q.Prelude.{
  String, Bool, true, false, ◌||◌, Option, none, some, List, [], ◌∷◌, ◌==◌, if◌then◌else◌,
}
use edge_q.Outcome.{Outcome, ok, err, panic, ◌>>=◌, or_panic}
use edge_q.Maps.{Map, lookup, insert}
use edge_q.Config.{QueueConfig, ServiceGroup, Error, default_service_group}
use edge_q.Queue.{QueueItem, Queue, new_queue}
use edge_q.Queue

pub record QueuePool (A : Type 0) : Type 0 where
  pub queues : Map (Queue A)

-- A picker takes its state and the candidates, and returns the pick and its new state. When it
-- returns an error, neither the queues nor its state have changed.
abbrev pub Pick : Type 0 → Type 0 → Type 0
Pick A S = S → List A → Outcome Error (A × S)

module _ {A : Type 0} where
  -- The loop of `NewQueuePool`: the queues made so far, and whether the default was among them.
  unfoldable pub make_queues :
      QueueConfig → List ServiceGroup → Map (Queue A) → Bool → Map (Queue A) × Bool
  make_queues cfg [] queues default_exist = (queues, default_exist)
  make_queues cfg (group ∷ sc) queues default_exist =
      make_queues cfg sc (insert group.name (new_queue cfg) queues)
        (default_exist || group.name == default_service_group)

  unfoldable pub new_queue_pool : QueueConfig → List ServiceGroup → QueuePool A
  unfolding make_queues
  new_queue_pool cfg sc =
      let (queues, default_exist) = make_queues cfg sc [] false in
      record {
        queues =
            if default_exist then queues else insert default_service_group (new_queue cfg) queues;
      }

  unfoldable pub push_at : String → QueuePool A → A → Outcome Error (QueuePool A)
  push_at key qp item = do
    queue ← or_panic (lookup key qp.queues)
    queue' ← Queue.push queue item
    ok (record { queues = insert key queue' qp.queues })

  -- An unknown service group goes to the default queue, and the item is renamed.
  unfoldable pub push : QueueItem A → String → A → QueuePool A → Outcome Error (QueuePool A)
  unfolding push_at
  push i service_group item qp = elim (lookup service_group qp.queues) [
    | some queue ↦ push_at service_group qp item
    | none ↦ push_at default_service_group qp (i.set_resource_name item default_service_group)
  ]

  -- The first loop of `Pop`: the front of each queue that has one.
  unfoldable pub candidates : List String → Map (Queue A) → List A
  candidates [] queues = []
  candidates (k ∷ order) queues =
      let rest = candidates order queues in
      elim (lookup k queues) [
        | none ↦ rest
        | some queue ↦ elim (Queue.peek queue) [ none ↦ rest | some item ↦ item ∷ rest ]
      ]

  -- `resultItem = qp.Queues[name].Pop()`, with a nil queue where there is none of that name.
  unfoldable pub pop_at : String → QueuePool A → Outcome Error (Option A × QueuePool A)
  pop_at name qp = do
    queue ← or_panic (lookup name qp.queues)
    let (item, queue') = Queue.pop queue
    ok (item, record { queues = insert name queue' qp.queues })

  -- `order` is the order in which this call ranges over the map.
  unfoldable pub pop :
      {S : Type 0}
      → QueueItem A
      → Pick A S
      → List String
      → S
      → QueuePool A
      → Outcome Error (Option A × S × QueuePool A)
  unfolding pop_at
  pop i pick order s qp = elim (candidates order qp.queues) [
    | [] ↦ ok (none, s, qp)
    | item ∷ rest ↦ pick s (item ∷ rest) >>= λ picked.
        pop_at (i.resource_name picked.0) qp >>= λ popped. ok (popped.0, picked.1, popped.1)
  ]
