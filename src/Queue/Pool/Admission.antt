-- ===== src/Queue/Pool/Admission.antt =====
-- What `Push` of the pool of pkg/queue/queue.go answers.
use edge_q.Prelude.{
  ℕ, String, ap, is_some, false, ◌≤◌, ◌<◌, ◌≡◌, refl, ◌⊎◌, inl, inr, Bool-cases, true, none, some,
  Option-cases, [], ◌∷◌, ◌++◌, arith, length,
}
use edge_q.Prelude.Int.{pos, pos_part, leb_ℤ, ℤ, negsuc}
use edge_q.Outcome.{Outcome, ok, err}
use edge_q.Maps.{lookup, insert, has_key, lookup-insert_self}
use edge_q.Config.{Error, queue_full, default_service_group}
use edge_q.Queue.{QueueItem, Queue}
use edge_q.Queue
use edge_q.Queue.Pool.{QueuePool, push_at, push}
use edge_q.Queue.Pool.Invariant.{IsWellFormed}

full_size : (size : ℤ) (n : ℕ) → leb_ℤ size (pos n) ≡ true → pos_part size ≤ n
full_size (pos m) n h = ground arith
full_size (negsuc m) n h = omega arith

room_left : (size : ℤ) (n : ℕ) → leb_ℤ size (pos n) ≡ false → n < pos_part size
room_left (pos m) n h = ground arith
room_left (negsuc m) n h = ground arith

module _ {A : Type 0} where
  -- What a push of `stored` to the queue of the name `key` comes to: the queue is there; it is full and
  -- the push fails, or it has room and the item becomes its last one.
  abbrev pub Answers : Outcome Error (QueuePool A) → QueuePool A → String → A → Type 0
  Answers r qp key stored =
      (q : Queue A) × (lookup key qp.queues ≡ some q)
      × (((pos_part q.max_size ≤ length q.list) × (r ≡ err queue_full))
          ⊎ ((length q.list < pos_part q.max_size)
              × ((qp' : QueuePool A) × (r ≡ ok qp')
                  × (lookup key qp'.queues ≡ some (record q { list = q.list ++ stored ∷ [] })))))

  push_at-Answers :
      (key : String) (stored : A) (qp : QueuePool A) (q : Queue A)
      → lookup key qp.queues ≡ some q
      → Answers (push_at key qp stored) qp key stored
  unfolding push_at Queue.push
  push_at-Answers key stored qp q there =
      elim (Bool-cases (leb_ℤ q.max_size (pos (length q.list)))) [
        | inl full ↦ (
          q,
          there,
          inl (
            full_size q.max_size (length q.list) full,
            rw (push_at, there, Queue.push, full) refl,
          ),
        )
        | inr room ↦
            let more : Queue A = record q { list = q.list ++ stored ∷ [] } in
            (
              q,
              there,
              inr (
                room_left q.max_size (length q.list) room,
                (
                  record { queues = insert key more qp.queues },
                  rw (push_at, there, Queue.push, room) refl,
                  lookup-insert_self key more qp.queues,
                ),
              ),
            )
      ]

  pub push_known :
      (i : QueueItem A) (service_group : String) (item : A) (qp : QueuePool A) (q : Queue A)
      → lookup service_group qp.queues ≡ some q
      → push i service_group item qp ≡ push_at service_group qp item
  unfolding push
  push_known i service_group item qp q there = rw (push, there) (rw (push_at, there) refl)

  pub push_unknown :
      (i : QueueItem A) (service_group : String) (item : A) (qp : QueuePool A)
      → lookup service_group qp.queues ≡ none
      → push i service_group item qp
        ≡ push_at default_service_group qp (i.set_resource_name item default_service_group)
  unfolding push
  push_unknown i service_group item qp missing = rw (push, missing) refl

  -- A push to a well-formed pool never panics. It goes to the queue of its group, or, where there is
  -- none, renamed to the default queue; it fails exactly where that queue is full.
  pub push-Answers :
      (i : QueueItem A) (service_group : String) (item : A) (qp : QueuePool A)
      → IsWellFormed i qp
      → ((has_key service_group qp.queues ≡ true)
          × Answers (push i service_group item qp) qp service_group item)
        ⊎ ((lookup service_group qp.queues ≡ none)
            × Answers
                (push i service_group item qp)
                qp
                default_service_group
                (i.set_resource_name item default_service_group))
  push-Answers i service_group item qp v = elim (Option-cases (lookup service_group qp.queues)) [
    | inr (q, there) ↦ inl (
      ap is_some there,
      rw (push_known i service_group item qp q there)
          (push_at-Answers service_group item qp q there),
    )
    | inl missing ↦ elim (Option-cases (lookup default_service_group qp.queues)) [
      | inr (q, there) ↦
          let renamed : A = i.set_resource_name item default_service_group in
          inr (
            missing,
            rw (push_unknown i service_group item qp missing)
                (push_at-Answers default_service_group renamed qp q there),
          )
      | inl no_default ↦ absurd (ground (arith, v.has_default))
    ]
  ]
