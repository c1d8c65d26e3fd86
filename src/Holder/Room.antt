-- ===== src/Holder/Room.antt =====
-- internal/proxy/holder: the room that a waiter's channel needs, and whose responses it gets.
use mathlib.Core.Path.{subst}
use edge_q.Prelude.{
  ℕ, suc, ◌+◌, ◌≤◌, ◌<◌, String, ◌≡◌, refl, ap, sym, ◌∙◌, inl, inr, Bool, Bool-cases, true, false,
  Option, Option-cases, none, some, List, List-cases, ◌∷◌, length, Member, arith, ◌==◌, eq_iff,
  eq_refl, eqb, eqb_iff, if◌then◌else◌,
}
use edge_q.Maps.{Map, lookup, insert, lookup-insert, lookup-insert_cases}
use edge_q.Maps.Distinct.{insert-IsDistinct}
use edge_q.Holder.{
  Holder, Status, Response, update, remove, new, wait, Reason, context_done, timeout, last_response,
  expire, notify, cancel, take_response, Runs, starts, waits, expires, notified, cancels, takes,
}
use edge_q.Holder.Removal.{lookup-remove, remove-IsDistinct}
use edge_q.Holder.Channels.{
  one_if, registered, IsHeld, length-send, send-own, registered-remove, registered-le, lookup_kept,
  none_not_some,
}
use edge_q.Holder.Everyone.{length-cancel_each, occurs-once, cancel_each-own}

disarmed :
    (c d : ℕ) (armed : ℕ → Bool)
    → armed c ≡ true
    → one_if (update c false armed d) + one_if (eqb c d) ≤ one_if (armed d)
disarmed c d armed e = elim (Bool-cases (eqb c d)) [
  | inl same ↦
      rw (update, same) (omega (arith, ap one_if (sym (ap armed ((eqb_iff c d).0 same)) ∙ e)))
  | inr other ↦ rw (update, other) (omega arith)
]

expire-IsHeld :
    (k c : ℕ) (reason : Reason) (h : Holder)
    → h.armed c ≡ true
    → IsHeld k h
    → IsHeld k (expire c reason h)
unfolding expire last_response
expire-IsHeld k c reason h armed held = record {
  distinct = remove-IsDistinct (h.id_of c) h.holders held.distinct;
  owned = λ j d e. held.owned j d (lookup_kept (h.id_of c) j h.holders d e);
  room = λ d. omega (
    arith,
    held.room d,
    length-send c d (last_response (h.id_of c) reason) h.sent,
    registered-remove (h.id_of c) (h.id_of d) h.holders d,
    disarmed c d h.armed armed,
  );
  own = send-own c _ h.sent h.id_of (id_kept reason) held.own;
  own_answers = held.own_answers;
}
  where
    id_kept : (r : Reason) → (last_response (h.id_of c) r).id ≡ h.id_of c
    id_kept timeout = refl
    id_kept (context_done none) = refl
    id_kept (context_done (some e)) = refl

released :
    (h : Holder) (k : String) (c d : ℕ)
    → lookup k h.holders ≡ some c
    → h.id_of c ≡ k
    → registered (lookup (h.id_of d) (remove k h.holders)) d + one_if (eqb c d)
      ≤ registered (lookup (h.id_of d) h.holders) d
released h k c d found mine = elim (Bool-cases (eqb c d)) [
  | inl same ↦
      let at_d : k ≡ h.id_of d = sym mine ∙ ap h.id_of ((eqb_iff c d).0 same) in
      omega (
        arith,
        ap one_if same,
        ap (λ o. registered o d) (lookup-remove k (h.id_of d) h.holders ∙ gone _ at_d),
        ap (λ o. registered o d) (ap (λ j. lookup j h.holders) (sym at_d) ∙ found),
      )
  | inr other ↦ omega (arith, ap one_if other, registered-remove k (h.id_of d) h.holders d)
]
  where
    gone : {j : String} (o : Option ℕ) → k ≡ j → (if k == j then none else o) ≡ none
    gone o e = rw ((eq_iff k _).1 e) refl

notify-IsHeld : (k : ℕ) (resp : Response) (h : Holder) → IsHeld k h → IsHeld k (notify resp h)
unfolding notify
notify-IsHeld k resp h held = elim (Option-cases (lookup resp.id h.holders)) [
  | inl e ↦ rw (notify, e) held
  | inr (c, e) ↦
      rw (notify, e)
        (record {
          distinct = remove-IsDistinct resp.id h.holders held.distinct;
          owned = λ j d f. held.owned j d (lookup_kept resp.id j h.holders d f);
          room = λ d. omega (
            arith,
            held.room d,
            length-send c d resp h.sent,
            released h resp.id c d e (held.owned resp.id c e).0,
          );
          own = send-own c resp h.sent h.id_of (sym (held.owned resp.id c e).0) held.own;
          own_answers = held.own_answers;
        })
]

older : (made c : ℕ) → c < made → eqb made c ≡ false
older made c less = ground arith

registered-insert :
    (id j : String) (made d : ℕ) (m : Map ℕ)
    → eqb made d ≡ false
    → registered (lookup j (insert id made m)) d ≤ registered (lookup j m) d
registered-insert id j made d m e = elim (Bool-cases (id == j)) [
  | inl same ↦ rw (lookup-insert id j made m, same) (omega (arith, ap one_if e))
  | inr other ↦ rw (lookup-insert id j made m, other) (omega arith)
]

wait-IsHeld : (k : ℕ) (id : String) (h : Holder) → IsHeld k h → IsHeld k (wait id h)
unfolding wait
wait-IsHeld k id h held = record {
  distinct = insert-IsDistinct id h.made h.holders held.distinct;
  owned = λ j c e. elim (lookup-insert_cases id j h.made h.holders e) [
    | inl (here, new) ↦ rw (update, (eqb_iff h.made c).1 new) (here, omega (arith, new))
    | inr before ↦
        let (mine, less) = held.owned j c before in
        rw (update, older h.made c less) (mine, omega (arith, less))
  ];
  room = λ d. elim (Bool-cases (eqb h.made d)) [
    | inl same ↦
        rw (update, same) (omega (arith, registered-le (lookup id (insert id h.made h.holders)) d))
    | inr other ↦
        rw (update, other)
          (omega (arith, held.room d, registered-insert id (h.id_of d) h.made d h.holders other))
  ];
  own = λ d r m. elim (Bool-cases (eqb h.made d)) [
    | inl same ↦ absurd (rw (update, same) at m)
    | inr other ↦ rw (update, other) (held.own d r (rw (update, other) at m))
  ];
  own_answers = λ d r m. elim (Bool-cases (eqb h.made d)) [
    | inl same ↦ absurd (rw (update, same) at m)
    | inr other ↦ rw (update, other) (held.own_answers d r (rw (update, other) at m))
  ];
}

cancel-IsHeld : (k : ℕ) (h : Holder) → IsHeld k h → IsHeld (suc k) (cancel h)
unfolding cancel
cancel-IsHeld k h held = record {
  distinct = held.distinct;
  owned = held.owned;
  room = λ d. omega (
    arith,
    held.room d,
    length-cancel_each h.holders h.sent d,
    occurs-once h.id_of h.holders d held.distinct (λ j c e. (held.owned j c e).0),
  );
  own =
      cancel_each-own h.holders h.sent h.id_of held.distinct (λ j c e. (held.owned j c e).0)
        held.own;
  own_answers = held.own_answers;
}

take-IsHeld : (k c : ℕ) (h : Holder) → IsHeld k h → IsHeld k (take_response c h)
unfolding take_response
take-IsHeld k c h held = elim (List-cases (h.sent c)) [
  | inl e ↦ rw (take_response, e) held
  | inr (resp, rest, e) ↦
      rw (take_response, e)
        (record {
          distinct = held.distinct;
          owned = held.owned;
          room = λ d. omega (arith, held.room d, shorter resp rest e d);
          own = λ d q m. held.own d q (older_member resp rest e d q m);
          own_answers =
              send-own c resp h.answered h.id_of (held.own c resp (rw e (inl refl)))
                held.own_answers;
        })
]
  where
    shorter :
        (resp : Response) (rest : List Response)
        → h.sent c ≡ resp ∷ rest
        → (d : ℕ) → length (update c rest h.sent d) ≤ length (h.sent d)
    shorter resp rest e d = elim (Bool-cases (eqb c d)) [
      | inl same ↦
          rw (update, same) (omega (arith, ap length (ap h.sent (sym ((eqb_iff c d).0 same)) ∙ e)))
      | inr other ↦ rw (update, other) (omega arith)
    ]

    older_member :
        (resp : Response) (rest : List Response)
        → h.sent c ≡ resp ∷ rest
        → (d : ℕ) (q : Response) → Member q (update c rest h.sent d)
        → Member q (h.sent d)
    older_member resp rest e d q m = elim (Bool-cases (eqb c d)) [
      | inl same ↦
          subst (Member q) (sym (ap h.sent (sym ((eqb_iff c d).0 same)) ∙ e))
            (inr (rw (update, same) at m))
      | inr other ↦ rw (update, other) at m
    ]

-- Whatever happens in whatever order: a channel holds at most two responses, and one more for each
-- time that all waiters were canceled; and a waiter is answered only with responses for its own id.
pub Runs-IsHeld : (k : ℕ) (h : Holder) → Runs k h → IsHeld k h
unfolding new lookup
Runs-IsHeld k h starts = record {
  distinct = tt;
  owned = λ j c e. absurd (none_not_some e);
  room = λ d. omega arith;
  own = λ c r m. absurd m;
  own_answers = λ c r m. absurd m;
}
Runs-IsHeld k h (waits id run) = wait-IsHeld k id _ (Runs-IsHeld k _ run)
Runs-IsHeld k h (expires c reason armed run) =
    expire-IsHeld k c reason _ armed (Runs-IsHeld k _ run)
Runs-IsHeld k h (notified resp run) = notify-IsHeld k resp _ (Runs-IsHeld k _ run)
Runs-IsHeld k h (cancels run) = cancel-IsHeld _ _ (Runs-IsHeld _ _ run)
Runs-IsHeld k h (takes c run) = take-IsHeld k c _ (Runs-IsHeld k _ run)

-- Two waiters with one id: when the first gives up, the second is forgotten too, so that a
-- response for it is dropped while it still waits.
pub reused_id_is_dropped :
    (h : Holder) (first : ℕ) (id message : String) (reason : Reason) (s : Status)
    → first < h.made
    → h.id_of first ≡ id
    → (notify
          (record { id = id; status = s; err_message = message })
          (expire first reason (wait id h))
        ≡ expire first reason (wait id h))
      × ((expire first reason (wait id h)).armed h.made ≡ true)
unfolding notify expire wait
reused_id_is_dropped h first id message reason s older_one mine = (
  rw (notify, gone) refl,
  rw (update, eqb-false first h.made older_one, (eqb_iff h.made h.made).1 refl) refl,
)
  where
    eqb-false : (a b : ℕ) → a < b → eqb a b ≡ false
    eqb-false a b less = ground arith

    its_id : update h.made id h.id_of first ≡ id
    its_id = rw (update, older h.made first older_one) mine

    gone : lookup id (remove (update h.made id h.id_of first) (insert id h.made h.holders)) ≡ none
    gone =
        ap (λ k. lookup id (remove k (insert id h.made h.holders))) its_id
        ∙ lookup-remove id id (insert id h.made h.holders)
        ∙ rw (eq_refl id) refl
