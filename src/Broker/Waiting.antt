-- ===== src/Broker/Waiting.antt =====
-- How many requests wait on a channel in the queues of pkg/queue.
use edge_q.Prelude.{
  ℕ, ◌+◌, ◌≡◌, sym, ap, ◌∙◌, String, inl, inr, Bool, Bool-cases, true, false, Option, none, some,
  Option-cases, List, [], ◌∷◌, ◌++◌, arith, ◌==◌, eqb,
}
use edge_q.Outcome.{ok, ok_inj}
use edge_q.Maps.{Map, lookup, insert}
use edge_q.Config.{default_service_group}
use edge_q.Queue.{QueueItem, Queue}
use edge_q.Queue.Fifo.{push-ok}
use edge_q.Queue.Pool.{QueuePool, Pick, candidates, push, pop}
use edge_q.Queue.Pool.Invariant.{push_at-ok}
use edge_q.Queue.Pool.Delivery.{Delivers, idle, fails, crashes, delivers}

abbrev pub one : Bool → ℕ
one true = 1
one false = 0

module _ {A : Type 0} (chan : A → ℕ) (c : ℕ) where
  abbrev pub count : List A → ℕ
  count [] = 0
  count (a ∷ xs) = one (eqb (chan a) c) + count xs

  abbrev pub waiting : Map (Queue A) → ℕ
  waiting [] = 0
  waiting ((k, q) ∷ m) = count q.list + waiting m

  count-append_one : (xs : List A) (a : A) → count (xs ++ a ∷ []) ≡ count xs + one (eqb (chan a) c)
  count-append_one [] a = omega arith
  count-append_one (x ∷ xs) a = omega (arith, count-append_one xs a)

  pub waiting-insert :
      (k : String) (q q' : Queue A) (m : Map (Queue A))
      → lookup k m ≡ some q
      → waiting (insert k q' m) + count q.list ≡ waiting m + count q'.list
  unfolding lookup insert
  waiting-insert k q q' [] h = cc
  waiting-insert k q q' ((j, p) ∷ m) h = elim (Bool-cases (j == k)) [
    | inl same ↦
        let here : p ≡ q = ground (arith, same) in
        rw same (omega (arith, ap (λ (r : Queue A). count r.list) here))
    | inr other ↦ rw other (omega (arith, waiting-insert k q q' m (ground (arith, other))))
  ]

  pub waiting-push :
      (i : QueueItem A) (sg : String) (a : A) (qp qp' : QueuePool A)
      → ((b : A) (name : String) → chan (i.set_resource_name b name) ≡ chan b)
      → push i sg a qp ≡ ok qp'
      → waiting qp'.queues ≡ waiting qp.queues + one (eqb (chan a) c)
  unfolding push
  waiting-push i sg a qp qp' same h = elim (Option-cases (lookup sg qp.queues)) [
    | inl e ↦
        at default_service_group (i.set_resource_name a default_service_group) (rw (e, push) at h)
        ∙ ap (λ (n : ℕ). waiting qp.queues + one (eqb n c)) (same a default_service_group)
    | inr (q, e) ↦ at sg a (rw (e, push) at h)
  ]
    where
      at :
          (k : String) (b : A)
          → edge_q.Queue.Pool.push_at k qp b ≡ ok qp'
          → waiting qp'.queues ≡ waiting qp.queues + one (eqb (chan b) c)
      at k b h =
          let (q, q', found, pushed, e) = push_at-ok qp qp' k b h in
          let (items, _, _) = push-ok q q' b pushed in
          omega (
            arith,
            waiting-insert k q q' qp.queues found,
            ap (λ (p : QueuePool A). waiting p.queues) e,
            ap count items,
            count-append_one q.list b,
          )

  -- What a call of `Pop` hands out no longer waits; nothing else changes.
  abbrev pub out_count : Option A → ℕ
  out_count none = 0
  out_count (some a) = one (eqb (chan a) c)

  pub waiting-pop :
      {S : Type 0} (i : QueueItem A) (pick : Pick A S) (order : List String) (s s' : S)
      (qp qp' : QueuePool A) (out : Option A)
      → Delivers i pick (candidates order qp.queues) s qp (pop i pick order s qp)
      → pop i pick order s qp ≡ ok (out, s', qp')
      → waiting qp'.queues + out_count out ≡ waiting qp.queues
  waiting-pop {S} i pick order s s' qp qp' out (idle _ r) h =
      ap (λ (x : Option A × S × QueuePool A). waiting x.2.queues + out_count x.0)
        (ok_inj (sym h ∙ r))
      ∙ omega arith
  waiting-pop i pick order s s' qp qp' out (fails e _ r) h = absurd (cc)
  waiting-pop i pick order s s' qp qp' out (crashes _ r) h = absurd (cc)
  waiting-pop {S} i pick order s s' qp qp' out (delivers a t q rest e at_name shape r) h = omega (
    arith,
    ap (λ (x : Option A × S × QueuePool A). waiting x.2.queues + out_count x.0)
        (ok_inj (sym h ∙ r)),
    waiting-insert (i.resource_name a) q (record q { list = rest }) qp.queues at_name,
    ap count shape,
  )
