-- ===== src/Queue/Pool/Delivery.antt =====
-- What `Pop` of the pool of pkg/queue/queue.go hands out, for every picker and every order in which it
-- ranges over the queues.
use mathlib.Core.Path.{subst}
use edge_q.Prelude.{
  String, ◌≡◌, refl, sym, ap, ◌∙◌, ◌⊎◌, inl, inr, true, Bool-cases, Option, none, some,
  Option-cases, List-cases, List, [], ◌∷◌, arith, ◌==◌, eq_iff, Member, is_some,
}
use edge_q.Outcome.{Outcome, ok, err, panic, Outcome-cases}
use edge_q.Maps.{Map, lookup, insert, contains, IsRange}
use edge_q.Config.{Error}
use edge_q.Queue.{QueueItem, Queue, new_queue}
use edge_q.Queue
use edge_q.Queue.Pool.{QueuePool, Pick, candidates, pop_at, pop}
use edge_q.Queue.Pool.Invariant.{IsWellFormed, update-IsWellFormed}

module _ {A : Type 0} where
  -- The picker of one call chooses among the candidates that it is given.
  pub record IsSound {S : Type 0} (pick : Pick A S) : Type 0 where
    pub chooses : (s s' : S) (cs : List A) (a : A) → pick s cs ≡ ok (a, s') → Member a cs

  -- What one call of `Pop` comes to.
  pub data Delivers {S : Type 0} (i : QueueItem A) (pick : Pick A S) (cs : List A) (s : S)
      (qp : QueuePool A) (r : Outcome Error (Option A × S × QueuePool A)) : Type 0 where
    -- every queue is empty, and nothing is handed out
    idle :
        ((k : String) (q : Queue A) → lookup k qp.queues ≡ some q → q.list ≡ [])
        → r ≡ ok (none, s, qp)
        → Delivers i pick cs s qp r
    -- the picker fails, and its error is returned
    fails : (e : Error) → pick s cs ≡ err e → r ≡ err e → Delivers i pick cs s qp r
    crashes : pick s cs ≡ panic → r ≡ panic → Delivers i pick cs s qp r
    -- the item that was picked is the front of the queue of its name, and leaves it
    delivers :
        (a : A) (s' : S) (q : Queue A) (rest : List A)
        → pick s cs ≡ ok (a, s')
        → lookup (i.resource_name a) qp.queues ≡ some q
        → q.list ≡ a ∷ rest
        → r
          ≡ ok (
            some a,
            s',
            record { queues = insert (i.resource_name a) (record q { list = rest }) qp.queues },
          )
        → Delivers i pick cs s qp r

  abbrev fronts : List A → Option (Queue A) → List A
  fronts rest none = rest
  fronts rest (some q) = elim q.list [ [] ↦ rest | item ∷ _ ↦ item ∷ rest ]

  candidates-cons :
      (k : String) (order : List String) (m : Map (Queue A))
      → candidates (k ∷ order) m ≡ fronts (candidates order m) (lookup k m)
  unfolding candidates Queue.peek
  candidates-cons k order m = ground arith

  -- A candidate is the front of a queue.
  pub candidates-front :
      (order : List String) (m : Map (Queue A)) (a : A)
      → Member a (candidates order m)
      → (k : String) × (q : Queue A) × (rest : List A) × (lookup k m ≡ some q) × (q.list ≡ a ∷ rest)
  unfolding candidates
  candidates-front [] m a h = elim h [ ]
  candidates-front (k ∷ order) m a h = elim (Option-cases (lookup k m)) [
    | inl e ↦ candidates-front order m a (member none e)
    | inr (q, e) ↦ elim (List-cases q.list) [
      | inl empty ↦ candidates-front order m a (rw empty at (member (some q) e))
      | inr (front, rest, shape) ↦
          front_or_later q front rest e shape (rw shape at (member (some q) e))
            (candidates-front order m a)
    ]
  ]
    where
      member : (o : Option (Queue A)) → lookup k m ≡ o → Member a (fronts (candidates order m) o)
      member o e =
          subst (Member a) (candidates-cons k order m ∙ ap (fronts (candidates order m)) e) h

      front_or_later :
          (q : Queue A) (front : A) (rest : List A)
          → lookup k m ≡ some q
          → q.list ≡ front ∷ rest
          → (front ≡ a) ⊎ Member a (candidates order m)
          → (Member a (candidates order m)
              → (k : String) × (q : Queue A) × (rest : List A) × (lookup k m ≡ some q)
                × (q.list ≡ a ∷ rest))
          → (k : String) × (q : Queue A) × (rest : List A) × (lookup k m ≡ some q)
            × (q.list ≡ a ∷ rest)
      front_or_later q front rest e shape (inl here) later = (k, q, rest, e, ground arith)
      front_or_later q front rest e shape (inr there) later = later there

  fronts_empty :
      (rest : List A) (o : Option (Queue A))
      → fronts rest o ≡ []
      → (rest ≡ []) × ((q : Queue A) → o ≡ some q → q.list ≡ [])
  fronts_empty rest none h = (h, λ q e. cc)
  fronts_empty rest (some p) h = elim (List-cases p.list) [
    | inl e ↦ (rw e at h, λ q same. ground arith)
    | inr (a, xs, e) ↦ absurd (cc (rw e at h))
  ]

  candidates-empty :
      (order : List String) (m : Map (Queue A)) (k : String) (q : Queue A)
      → candidates order m ≡ []
      → contains k order ≡ true
      → lookup k m ≡ some q
      → q.list ≡ []
  candidates-empty [] m k q h c e = cc
  candidates-empty (j ∷ order) m k q h c e =
      let (later, front) =
        fronts_empty (candidates order m) (lookup j m) (sym (candidates-cons j order m) ∙ h) in
      elim (Bool-cases (j == k)) [
        | inl same ↦ front q (rw ((eq_iff j k).0 same) e)
        | inr other ↦ candidates-empty order m k q later (rw other at c) e
      ]

  pop_at_lem :
      (qp : QueuePool A) (k : String) (q : Queue A) (a : A) (rest : List A)
      → lookup k qp.queues ≡ some q
      → q.list ≡ a ∷ rest
      → pop_at k qp ≡ ok (some a, record { queues = insert k (record q { list = rest }) qp.queues })
  unfolding pop_at Queue.pop
  pop_at_lem qp k q a rest e shape = rw (e, pop_at) (rw shape)

  delivery :
      {S : Type 0} (i : QueueItem A) (pick : Pick A S) (order : List String) (s : S)
      (qp : QueuePool A) (item : A) (items : List A)
      → IsWellFormed i qp
      → IsSound pick
      → candidates order qp.queues ≡ item ∷ items
      → Delivers i pick (item ∷ items) s qp (pop i pick order s qp)
  unfolding pop
  delivery i pick order s qp item items v sound found =
      elim (Outcome-cases (pick s (item ∷ items))) [
        | inl ((a, s'), e) ↦
            let (k, q, rest, at_k, shape) =
              candidates-front order qp.queues a
                (subst (Member a) (sym found) (sound.chooses s s' (item ∷ items) a e)) in
            let name : i.resource_name a ≡ k =
              (v.at_key k q at_k).named a (subst (Member a) (sym shape) (inl refl)) in
            let at_name : lookup (i.resource_name a) qp.queues ≡ some q = rw name at_k in
            delivers a s' q rest e at_name shape (
              rw (found, pop)
                (rw e (rw (pop_at_lem qp (i.resource_name a) q a rest at_name shape))))
        | inr (inl (x, e)) ↦ fails x e (rw (found, pop) (rw e))
        | inr (inr e) ↦ crashes e (rw (found, pop) (rw e))
      ]

  -- From a well-formed pool, with a picker that chooses among its candidates, and whatever the order in
  -- which the queues are visited: a call of `Pop` finds every queue empty and hands out nothing, or
  -- returns the picker's error, or panics only if the picker does, or hands out the very item that
  -- was picked, which leaves the front of the queue of its name while all else stays.
  pub pop-Delivers :
      {S : Type 0} (i : QueueItem A) (pick : Pick A S) (order : List String) (s : S)
      (qp : QueuePool A)
      → IsWellFormed i qp
      → IsSound pick
      → IsRange order qp.queues
      → Delivers i pick (candidates order qp.queues) s qp (pop i pick order s qp)
  unfolding pop
  pop-Delivers i pick order s qp v sound range = elim (List-cases (candidates order qp.queues)) [
    | inl e ↦
        idle
          (λ k q at_k.
            candidates-empty order qp.queues k q e (range.visits k ∙ ap is_some at_k) at_k)
          (rw (e, pop))
    | inr (item, items, e) ↦
        subst (λ cs. Delivers i pick cs s qp (pop i pick order s qp)) (sym e)
          (delivery i pick order s qp item items v sound e)
  ]

  -- A `Pop` that returns no error keeps a well-formed pool well-formed, with a picker that chooses among
  -- its candidates and whatever the order in which the queues are visited.
  pub pop-IsWellFormed :
      {S : Type 0} (i : QueueItem A) (pick : Pick A S) (order : List String) (s s' : S)
      (qp qp' : QueuePool A) (out : Option A)
      → IsWellFormed i qp
      → IsSound pick
      → IsRange order qp.queues
      → pop i pick order s qp ≡ ok (out, s', qp')
      → IsWellFormed i qp'
  pop-IsWellFormed i pick order s s' qp qp' out v sound range h =
      keeps (pop-Delivers i pick order s qp v sound range)
    where
      keeps :
          Delivers i pick (candidates order qp.queues) s qp (pop i pick order s qp)
          → IsWellFormed i qp'
      keeps (idle _ r) = subst (IsWellFormed i) (ground arith) v
      keeps (fails e _ r) = absurd (cc)
      keeps (crashes _ r) = absurd (cc)
      keeps (delivers a t q rest e at_name shape r) =
          let old = v.at_key (i.resource_name a) q at_name in
          subst (IsWellFormed i) (ground arith) (
            update-IsWellFormed i qp (i.resource_name a) (record q { list = rest }) v
              (record {
                bounded = ground (arith, old.bounded);
                named = λ b m. old.named b (subst (Member b) (sym shape) (inr m));
              }))
