-- ===== src/Holder/Everyone.antt =====
-- internal/proxy/holder: what canceling all waiters sends.
use edge_q.Prelude.{
  ℕ, ◌+◌, ◌≤◌, String, ◌≡◌, refl, ap, sym, ◌∙◌, ◌⊎◌, inl, inr, Bool, Bool-cases, true, false, some,
  List, [], ◌∷◌, length, Member, arith, ◌==◌, eq_iff, eq_refl, eqb, eqb_iff,
}
use edge_q.Maps.{Map, lookup, has_key}
use edge_q.Maps.Distinct.{IsDistinct, lookup_inside}
use edge_q.Holder.{Response, send, canceled, cancel_each}
use edge_q.Holder.Channels.{one_if, length-send, send-own}

-- How many entries of a map have the channel.
pub occurs : ℕ → Map ℕ → ℕ
occurs d [] = 0
occurs d ((j, c) ∷ m) = one_if (eqb c d) + occurs d m

pub length-cancel_each :
    (m : Map ℕ) (sent : ℕ → List Response) (d : ℕ)
    → length (cancel_each m sent d) ≡ length (sent d) + occurs d m
unfolding cancel_each occurs
length-cancel_each [] sent d = omega arith
length-cancel_each ((j, c) ∷ m) sent d =
    omega
      (arith, length-cancel_each m (send c (canceled j) sent) d, length-send c d (canceled j) sent)

-- Every entry of the map belongs to the id of its channel.
abbrev pub Owns : (ℕ → String) → Map ℕ → Type 0
Owns id_of m = (j : String) (c : ℕ) → lookup j m ≡ some c → id_of c ≡ j

Owns-rest :
    (id_of : ℕ → String) (j : String) (c : ℕ) (m : Map ℕ)
    → IsDistinct ((j, c) ∷ m)
    → Owns id_of ((j, c) ∷ m)
    → Owns id_of m
Owns-rest id_of j c m d owns i e h = owns i e (lookup_inside j c m i e d h)

Owns-first :
    (id_of : ℕ → String) (j : String) (c : ℕ) (m : Map ℕ) → Owns id_of ((j, c) ∷ m) → id_of c ≡ j
unfolding lookup
Owns-first id_of j c m owns = owns j c (rw (eq_refl j) refl)

occurs-none :
    (id_of : ℕ → String) (m : Map ℕ) (d : ℕ)
    → IsDistinct m
    → Owns id_of m
    → has_key (id_of d) m ≡ false
    → occurs d m ≡ 0
unfolding occurs lookup
occurs-none id_of [] d dist owns e = refl
occurs-none id_of ((j, c) ∷ m) d dist owns e = elim (Bool-cases (eqb c d)) [
  | inl same ↦
      let at_d : j ≡ id_of d =
        sym (Owns-first id_of j c m owns) ∙ ap id_of ((eqb_iff c d).0 same) in
      absurd (true_not_false (rw ((eq_iff j (id_of d)).1 at_d) at e))
  | inr other ↦ omega (
    arith,
    ap one_if other,
    occurs-none id_of m d dist.1 (Owns-rest id_of j c m dist owns)
        (without (Bool-cases (j == id_of d))),
  )
]
  where
    true_not_false : ◌≡◌ {A = Bool} true false → ⊥
    true_not_false x = cc

    without : ((j == id_of d) ≡ true) ⊎ ((j == id_of d) ≡ false) → has_key (id_of d) m ≡ false
    without (inl here) = absurd (true_not_false (rw here at e))
    without (inr there) = rw there at e

pub occurs-once :
    (id_of : ℕ → String) (m : Map ℕ) (d : ℕ) → IsDistinct m → Owns id_of m → occurs d m ≤ 1
unfolding occurs
occurs-once id_of [] d dist owns = omega arith
occurs-once id_of ((j, c) ∷ m) d dist owns = elim (Bool-cases (eqb c d)) [
  | inl same ↦
      let at_d : j ≡ id_of d =
        sym (Owns-first id_of j c m owns) ∙ ap id_of ((eqb_iff c d).0 same) in
      omega (
        arith,
        ap one_if same,
        occurs-none id_of m d dist.1 (Owns-rest id_of j c m dist owns)
            (ap (λ i. has_key i m) (sym at_d) ∙ dist.0),
      )
  | inr other ↦
      omega (arith, ap one_if other, occurs-once id_of m d dist.1 (Owns-rest id_of j c m dist owns))
]

pub cancel_each-own :
    (m : Map ℕ) (sent : ℕ → List Response) (id_of : ℕ → String)
    → IsDistinct m
    → Owns id_of m
    → ((d : ℕ) (q : Response) → Member q (sent d) → q.id ≡ id_of d)
    → (d : ℕ) (q : Response) → Member q (cancel_each m sent d)
    → q.id ≡ id_of d
unfolding cancel_each
cancel_each-own [] sent id_of dist owns own = own
cancel_each-own ((j, c) ∷ m) sent id_of dist owns own =
    cancel_each-own m (send c (canceled j) sent) id_of dist.1 (Owns-rest id_of j c m dist owns)
      (send-own c (canceled j) sent id_of (sym (Owns-first id_of j c m owns)) own)
