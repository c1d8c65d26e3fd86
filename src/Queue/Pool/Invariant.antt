-- ===== src/Queue/Pool/Invariant.antt =====
-- The invariant of the pool of pkg/queue/queue.go: there is a default queue, each queue is within its
-- size, and each item waits in the queue of its own name.
use mathlib.Core.Path.{subst, subst₂}
use edge_q.Prelude.{
  String, ◌≤◌, ◌≡◌, sym, ap, ◌∙◌, ◌⊎◌, inl, inr, Bool, true, false, Bool-cases, some, Option-cases,
  List, [], ◌∷◌, ◌++◌, arith, length, Member,
}
use edge_q.Prelude.Int.{pos_part}
use edge_q.Outcome.{ok, >>=-eq-ok, or_panic}
use edge_q.Maps.{
  Map, lookup, insert, has_key, has_key-insert, lookup_empty, lookup-insert, lookup-insert_self,
  lookup-insert_cases,
}
use edge_q.Config.{QueueConfig, ServiceGroup, default_service_group}
use edge_q.Queue.{QueueItem, Queue, new_queue}
use edge_q.Queue
use edge_q.Queue.Fifo.{push-ok}
use edge_q.Queue.Pool.{QueuePool, make_queues, new_queue_pool, push_at, push}

module _ {A : Type 0} where
  -- A queue within its size, all of whose items are named `k`.
  pub record IsQueueOf (i : QueueItem A) (k : String) (q : Queue A) : Type 0 where
    pub bounded : length q.list ≤ pos_part q.max_size
    pub named : (a : A) → Member a q.list → i.resource_name a ≡ k

  pub record IsWellFormed (i : QueueItem A) (qp : QueuePool A) : Type 0 where
    pub has_default : has_key default_service_group qp.queues ≡ true
    pub at_key : (k : String) (q : Queue A) → lookup k qp.queues ≡ some q → IsQueueOf i k q

  pub update-IsWellFormed :
      (i : QueueItem A) (qp : QueuePool A) (k : String) (q : Queue A)
      → IsWellFormed i qp
      → IsQueueOf i k q
      → IsWellFormed i (record { queues = insert k q qp.queues })
  update-IsWellFormed i qp k q v w = record {
    has_default = has_key-insert k default_service_group q qp.queues v.has_default;
    at_key = λ j r e. elim (lookup-insert_cases k j q qp.queues e) [
      | inl (key, value) ↦ subst₂ (IsQueueOf i) key value w
      | inr old ↦ v.at_key j r old
    ];
  }

  Member-append_one : (a b : A) (xs : List A) → Member a (xs ++ b ∷ []) → Member a xs ⊎ (b ≡ a)
  Member-append_one a b [] (inl e) = inr e
  Member-append_one a b [] (inr m) = elim m [ ]
  Member-append_one a b (x ∷ xs) (inl e) = inl (inl e)
  Member-append_one a b (x ∷ xs) (inr m) = ground (arith, Member-append_one a b xs m)

  new_queue-IsQueueOf :
      (i : QueueItem A) (k : String) (cfg : QueueConfig) → IsQueueOf i k (new_queue cfg)
  unfolding new_queue
  new_queue-IsQueueOf i k cfg = record { bounded = omega arith; named = λ a m. absurd m }

  make_queues-at_key :
      (i : QueueItem A) (cfg : QueueConfig) (sc : List ServiceGroup) (m : Map (Queue A)) (b : Bool)
      → ((k : String) (q : Queue A) → lookup k m ≡ some q → IsQueueOf i k q)
      → (k : String) (q : Queue A) → lookup k (make_queues cfg sc m b).0 ≡ some q
      → IsQueueOf i k q
  unfolding make_queues
  make_queues-at_key i cfg [] m b h = h
  make_queues-at_key i cfg (group ∷ sc) m b h = make_queues-at_key i cfg sc _ _ λ k q e.
      elim (lookup-insert_cases group.name k (new_queue cfg) m e) [
        | inl (_, value) ↦ subst (IsQueueOf i k) value (new_queue-IsQueueOf i k cfg)
        | inr old ↦ h k q old
      ]

  make_queues-has_key :
      (cfg : QueueConfig) (sc : List ServiceGroup) (m : Map (Queue A)) (b : Bool) (k : String)
      → has_key k m ≡ true
      → has_key k (make_queues cfg sc m b).0 ≡ true
  unfolding make_queues
  make_queues-has_key cfg [] m b k h = h
  make_queues-has_key cfg (group ∷ sc) m b k h =
      make_queues-has_key cfg sc _ _ k (has_key-insert group.name k (new_queue cfg) m h)

  -- The flag of the loop says whether the default queue was made.
  make_queues-default :
      (cfg : QueueConfig) (sc : List ServiceGroup) (m : Map (Queue A)) (b : Bool)
      → (b ≡ true → has_key default_service_group m ≡ true)
      → (make_queues cfg sc m b).1 ≡ true
      → has_key default_service_group (make_queues cfg sc m b).0 ≡ true
  unfolding make_queues
  make_queues-default cfg [] m b h e = h e
  make_queues-default cfg (group ∷ sc) m b h e =
      make_queues-default cfg sc _ _
        (λ f. ground (arith, lookup-insert group.name default_service_group (new_queue cfg) m, h)) e

  -- A new pool is well-formed, whatever groups are configured.
  pub new_queue_pool-IsWellFormed :
      (i : QueueItem A) (cfg : QueueConfig) (sc : List ServiceGroup)
      → IsWellFormed i (new_queue_pool cfg sc)
  unfolding new_queue_pool
  new_queue_pool-IsWellFormed i cfg sc = elim (Bool-cases (make_queues {A = A} cfg sc [] false).1) [
    | inl e ↦ rw e (record {
      has_default = make_queues-default cfg sc [] false (λ f. cc) e;
      at_key = make_queues-at_key i cfg sc [] false none_yet;
    })
    | inr e ↦ rw e (record {
      has_default = rw (lookup-insert_self default_service_group (new_queue cfg) _);
      at_key = λ k q h. elim (lookup-insert_cases default_service_group k _ _ h) [
        | inl (_, value) ↦ subst (IsQueueOf i k) value (new_queue-IsQueueOf i k cfg)
        | inr old ↦ make_queues-at_key i cfg sc [] false none_yet k q old
      ];
    })
  ]
    where
      none_yet : (k : String) (q : Queue A) → lookup k [] ≡ some q → IsQueueOf i k q
      none_yet k q h = cc (lookup_empty {V = Queue A} k)

  pub push_at-ok :
      (qp qp' : QueuePool A) (k : String) (item : A)
      → push_at k qp item ≡ ok qp'
      → (q q' : Queue A) × (lookup k qp.queues ≡ some q)
        × (Queue.push q item ≡ ok q')
        × (qp' ≡ record { queues = insert k q' qp.queues })
  unfolding push_at
  push_at-ok qp qp' k item h =
      let (q, e, h') = >>=-eq-ok (or_panic (lookup k qp.queues)) _ h in
      let (q', e', h'') = >>=-eq-ok (Queue.push q item) _ h' in
      (q, q', ground (arith, e), e', ground (arith, h''))

  push_at-IsWellFormed :
      (i : QueueItem A) (qp qp' : QueuePool A) (k : String) (item : A)
      → IsWellFormed i qp
      → i.resource_name item ≡ k
      → push_at k qp item ≡ ok qp'
      → IsWellFormed i qp'
  push_at-IsWellFormed i qp qp' k item v name h =
      let (q, q', found, pushed, e) = push_at-ok qp qp' k item h in
      let old = v.at_key k q found in
      let (items, size, fits) = push-ok q q' item pushed in
      rw e (
        update-IsWellFormed i qp k q' v (record {
          bounded = rw size fits;
          named = λ a m. elim (Member-append_one a item q.list (subst (Member a) items m)) [
            | inl before ↦ old.named a before
            | inr now ↦ ap i.resource_name (sym now) ∙ name
          ];
        }))

  -- A push keeps the pool well-formed if the item carries the name of the group it is pushed to; one
  -- for an unknown group is renamed to the default group first.
  pub push-IsWellFormed :
      (i : QueueItem A) (service_group : String) (item : A) (qp qp' : QueuePool A)
      → IsWellFormed i qp
      → i.resource_name item ≡ service_group
      → push i service_group item qp ≡ ok qp'
      → IsWellFormed i qp'
  unfolding push
  push-IsWellFormed i sg item qp qp' v name h = elim (Option-cases (lookup sg qp.queues)) [
    | inl e ↦
        push_at-IsWellFormed i qp qp' default_service_group _ v
          (i.name-set item default_service_group) (rw (e, push) at h)
    | inr (q, e) ↦ push_at-IsWellFormed i qp qp' sg item v name (rw (e, push) at h)
  ]
