-- ===== src/Holder/Channels.antt =====
-- internal/proxy/holder: what is sent to a channel.
use edge_q.Prelude.{
  ℕ, ◌+◌, ◌≤◌, ◌<◌, String, ◌≡◌, ap, sym, ◌∙◌, ◌⊎◌, inl, inr, Bool, Bool-cases, true, false, Option,
  none, some, List, [], ◌∷◌, ◌++◌, length, length-append, Member, arith, ◌==◌, eqb, eqb_iff,
}
use edge_q.Maps.{Map, lookup}
use edge_q.Maps.Distinct.{IsDistinct}
use edge_q.Holder.{Holder, Response, remove, send}
use edge_q.Holder.Removal.{lookup-remove}

abbrev pub one_if : Bool → ℕ
one_if true = 1
one_if false = 0

-- 1 where the channel stands in the map under the id.
abbrev pub registered : Option ℕ → ℕ → ℕ
registered none c = 0
registered (some d) c = one_if (eqb d c)

-- The room for responses: two, of a notification and of the waiter's own end, and one for each time
-- that all were canceled; and the ids.
pub record IsHeld (k : ℕ) (h : Holder) : Type 0 where
  pub distinct : IsDistinct h.holders
  pub owned : (j : String) (c : ℕ) → lookup j h.holders ≡ some c → (h.id_of c ≡ j) × (c < h.made)
  pub room :
      (c : ℕ)
      → length (h.sent c) + registered (lookup (h.id_of c) h.holders) c + one_if (h.armed c) ≤ 2 + k
  pub own : (c : ℕ) (r : Response) → Member r (h.sent c) → r.id ≡ h.id_of c
  pub own_answers : (c : ℕ) (r : Response) → Member r (h.answered c) → r.id ≡ h.id_of c

Member-append :
    {A : Type 0} (xs : List A) (x y : A) → Member x (xs ++ y ∷ []) → Member x xs ⊎ (y ≡ x)
Member-append [] x y (inl e) = inr e
Member-append [] x y (inr m) = absurd m
Member-append (z ∷ xs) x y (inl e) = inl (inl e)
Member-append (z ∷ xs) x y (inr m) = elim (Member-append xs x y m) [
  | inl n ↦ inl (inr n)
  | inr e ↦ inr e
]

-- One response more on channel c, and none on the others.
pub length-send :
    (c d : ℕ) (r : Response) (sent : ℕ → List Response)
    → length (send c r sent d) ≡ length (sent d) + one_if (eqb c d)
length-send c d r sent = elim (Bool-cases (eqb c d)) [
  | inl e ↦
      rw e (length-append (sent c) (r ∷ []) ∙ ap (λ x. length (sent x) + 1) ((eqb_iff c d).0 e))
  | inr e ↦ rw e (omega arith)
]

-- A response with the id of its channel keeps the ids.
pub send-own :
    (c : ℕ) (r : Response) (sent : ℕ → List Response) (id_of : ℕ → String)
    → r.id ≡ id_of c
    → ((d : ℕ) (q : Response) → Member q (sent d) → q.id ≡ id_of d)
    → (d : ℕ) (q : Response) → Member q (send c r sent d)
    → q.id ≡ id_of d
send-own c r sent id_of e own d q m = elim (Bool-cases (eqb c d)) [
  | inl same ↦ elim (Member-append (sent c) q r (rw same at m)) [
    | inl before ↦ own c q before ∙ ap id_of ((eqb_iff c d).0 same)
    | inr now ↦ sym (ap (λ (x : Response). x.id) now) ∙ e ∙ ap id_of ((eqb_iff c d).0 same)
  ]
  | inr other ↦ own d q (rw other at m)
]

pub registered-le : (o : Option ℕ) (c : ℕ) → registered o c ≤ 1
registered-le o c = ground arith

pub registered-remove :
    (k j : String) (m : Map ℕ) (c : ℕ)
    → registered (lookup j (remove k m)) c ≤ registered (lookup j m) c
registered-remove k j m c = rw (lookup-remove k j m) (ground (arith, Bool-cases (k == j)))

pub none_not_some : {d : ℕ} → ◌≡◌ {A = Option ℕ} none (some d) → ⊥
none_not_some n = cc

pub lookup_kept :
    (k j : String) (m : Map ℕ) (c : ℕ) → lookup j (remove k m) ≡ some c → lookup j m ≡ some c
lookup_kept k j m c e = elim (Bool-cases (k == j)) [
  | inl same ↦ absurd (none_not_some (rw (lookup-remove k j m, same) at e))
  | inr other ↦ rw (lookup-remove k j m, other) at e
]
