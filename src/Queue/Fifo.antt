-- ===== src/Queue/Fifo.antt =====
-- What a `Queue` of pkg/queue/queue.go promises: first in, first out, within its size.
use mathlib.Core.List.{append_assoc, append-nil}
use edge_q.Prelude.{
  ◌≤◌, ◌≡◌, refl, ap, ◌⊎◌, inl, inr, Option, none, some, List, [], ◌∷◌, ◌++◌, arith, length,
  length-append,
}
use edge_q.Prelude.Int.{pos_part}
use edge_q.Outcome.{ok, Outcome-cases}
use edge_q.Queue.{Queue, push, pop}

-- What callers do to one queue, in the order in which the lock of the pool lets them.
pub data Op (A : Type 0) : Type 0 where
  pushes : A → Op A
  pops : Op A

-- What was accepted and what was handed out, each oldest first, and the queue that is left.
pub record Run (A : Type 0) : Type 0 where
  pub accepted : List A
  pub handed_out : List A
  pub left : Queue A

module _ {A : Type 0} where
  abbrev note_out : Option A → Run A → Run A
  note_out none r = r
  note_out (some a) r = record r { handed_out = a ∷ r.handed_out }

  pub run : Queue A → List (Op A) → Run A
  run q [] = record { accepted = []; handed_out = []; left = q }
  run q (pushes a ∷ ops) = elim (push q a) [
    | ok q' ↦ let r = run q' ops in record r { accepted = a ∷ r.accepted }
    | _ ↦ run q ops
  ]
  run q (pops ∷ ops) = let (out, q') = pop q in note_out out (run q' ops)

  pub push-ok :
      (q q' : Queue A) (a : A)
      → push q a ≡ ok q'
      → (q'.list ≡ q.list ++ a ∷ [])
        × (q'.max_size ≡ q.max_size)
        × (length q'.list ≤ pos_part q.max_size)
  unfolding push
  push-ok q q' a h = ground (arith, length-append q.list (a ∷ []))

  pub pop-cases :
      (q : Queue A)
      → ((q.list ≡ []) × (pop q ≡ (none, q)))
        ⊎ ((a : A) × (rest : List A) × (q.list ≡ a ∷ rest)
            × (pop q ≡ (some a, record q { list = rest })))
  unfolding pop
  pop-cases q =
      elim q.list
        as (λ l.
          ((l ≡ []) × (pop (record q { list = l }) ≡ (none, record q { list = l })))
          ⊎ ((a : A) × (rest : List A) × (l ≡ a ∷ rest)
              × (pop (record q { list = l }) ≡ (some a, record q { list = rest })))) [
                | [] ↦ inl (refl, refl)
                | a ∷ rest ↦ inr (a, rest, refl, refl)
              ]

  -- For every sequence of pushes and pops on a queue: the items that it held followed by those that
  -- it accepted are those that it handed out followed by those that it still holds, in this order.
  pub run-fifo :
      (q : Queue A) (ops : List (Op A))
      → q.list ++ (run q ops).accepted ≡ (run q ops).handed_out ++ (run q ops).left.list
  unfolding run
  run-fifo q [] = append-nil q.list
  run-fifo q (pushes a ∷ ops) = elim (Outcome-cases (push q a)) [
    | inl (q', e) ↦
        rw (e, run)
          (ground (
            arith,
            append_assoc q.list (a ∷ []) (run q' ops).accepted,
            push-ok q q' a e,
            run-fifo q' ops,
          ))
    | inr (inl (x, e)) ↦ rw (e, run) (run-fifo q ops)
    | inr (inr e) ↦ rw (e, run) (run-fifo q ops)
  ]
  run-fifo q (pops ∷ ops) = elim (pop-cases q) [
    | inl (empty, e) ↦ rw (e, run) (run-fifo q ops)
    | inr (a, rest, front, e) ↦
        rw (e, run) (rw front (ap (◌∷◌ a) (run-fifo (record q { list = rest }) ops)))
  ]

  -- In every state of such a run the queue holds at most its size, if it did so at the start.
  pub run-bounded :
      (q : Queue A) (ops : List (Op A))
      → length q.list ≤ pos_part q.max_size
      → (length (run q ops).left.list ≤ pos_part q.max_size)
        × ((run q ops).left.max_size ≡ q.max_size)
  unfolding run
  run-bounded q [] h = (h, refl)
  run-bounded q (pushes a ∷ ops) h = elim (Outcome-cases (push q a)) [
    | inl (q', e) ↦ rw (e, run) (ground (arith, push-ok q q' a e, run-bounded q' ops))
    | inr (inl (x, e)) ↦ rw (e, run) (run-bounded q ops h)
    | inr (inr e) ↦ rw (e, run) (run-bounded q ops h)
  ]
  run-bounded q (pops ∷ ops) h = elim (pop-cases q) [
    | inl (empty, e) ↦ rw (e, run) (run-bounded q ops h)
    | inr (a, rest, front, e) ↦
        rw (e, run) (run-bounded (record q { list = rest }) ops (omega (arith, ap length front)))
  ]
