-- ===== src/Picker/RoundRobin.antt =====
-- The round of `rrPicker.Pick` of internal/broker/picker/rrpicker.go.
use native.Mathlib.Nat.{add-zero, mod-lt, mod-eq_of_lt, mod-add-mod, add-mod_right}
use edge_q.Prelude.{
  ℕ, zero, suc, ◌+◌, ◌-◌, ◌%◌, ◌<◌, ◌≡◌, ap, ◌∙◌, String, inl, inr, Bool-cases, some, List, [], ◌∷◌,
  arith, leb, length, get_elem?, get_elem?-some, if◌then◌else◌,
}
use edge_q.Outcome.{Outcome, ok, ◌>>=◌}
use edge_q.Config.{Error}
use edge_q.Picker.{RrPicker, pick_rr}

module _ {A : Type 0} (name : A → String) where
  pub pick_rr_lem :
      (p : RrPicker) (cs : List A) (a : A)
      → 0 < length p.sub_conns
      → get_elem? cs (p.next % length cs) ≡ some a
      → pick_rr name p cs ≡ ok (a, record p { next = (p.next + 1) % length p.sub_conns })
  unfolding pick_rr
  pick_rr_lem p [] a h e = absurd (cc)
  pick_rr_lem p (c ∷ cs) a h e = rw e (ground arith)

  -- `k` calls in a row with the same candidates: the picker after them, and the item of the next call.
  pub after_picks : ℕ → RrPicker → List A → Outcome Error RrPicker
  after_picks zero p cs = ok p
  after_picks (suc k) p cs = after_picks k p cs >>= λ q. pick_rr name q cs >>= λ x. ok x.1

  pub nth_pick : ℕ → RrPicker → List A → Outcome Error A
  nth_pick k p cs = after_picks k p cs >>= λ q. pick_rr name q cs >>= λ x. ok x.0

  after_picks_lem :
      (k : ℕ) (p : RrPicker) (cs : List A)
      → 0 < length cs
      → 0 < length p.sub_conns
      → p.next < length p.sub_conns
      → after_picks k p cs ≡ ok (record p { next = (p.next + k) % length p.sub_conns })
  unfolding after_picks
  after_picks_lem zero p cs h g b = rw (add-zero, mod-eq_of_lt b)
  after_picks_lem (suc k) p cs h g b =
      let n = length p.sub_conns in
      let q : RrPicker = record p { next = (p.next + k) % n } in
      let (a, found) = get_elem?-some cs (q.next % length cs) (mod-lt q.next h) in
      rw (after_picks_lem k p cs h g b) (
        rw (pick_rr_lem q cs a g found) (
          ap (λ (m : ℕ). ok (record p { next = m }))
            (mod-add-mod (p.next + k) n 1 ∙ ap (λ (m : ℕ). m % n) (omega arith))))

  -- The round of the pickers: the call that reaches index `i` of the candidates.
  turn : ℕ → ℕ → ℕ → ℕ
  turn n start i = if leb start i then i - start else (i + n - start)

  turn_reaches :
      (n start i : ℕ)
      → start < n
      → i < n
      → (turn n start i < n) × ((start + turn n start i) % n ≡ i)
  unfolding turn
  turn_reaches n start i h g = elim (Bool-cases (leb start i)) [
    | inl le ↦ rw le (ground arith, ap (λ (m : ℕ). m % n) (ground arith) ∙ mod-eq_of_lt g)
    | inr gt ↦
        rw gt (
          ground arith,
          ap (λ (m : ℕ). m % n) (ground arith) ∙ (add-mod_right i n ∙ mod-eq_of_lt g),
        )
  ]

  nth_pick_lem :
      (k : ℕ) (p : RrPicker) (cs : List A) (a : A)
      → 0 < length cs
      → 0 < length p.sub_conns
      → p.next < length p.sub_conns
      → get_elem? cs ((p.next + k) % length p.sub_conns % length cs) ≡ some a
      → nth_pick k p cs ≡ ok a
  unfolding nth_pick
  nth_pick_lem k p cs a h g b e =
      rw (after_picks_lem k p cs h g b)
        (rw (pick_rr_lem (record p { next = (p.next + k) % length p.sub_conns }) cs a g e))

  -- A round-robin picker whose cursor is in range, and that is called again and again with the same
  -- candidates, as many as it has sub-connections: within that many calls each candidate is picked, and
  -- after them the picker is as before.
  pub round-IsFair :
      (p : RrPicker) (cs : List A)
      → p.next < length p.sub_conns
      → length cs ≡ length p.sub_conns
      → ((i : ℕ) (a : A)
          → i < length cs
          → get_elem? cs i ≡ some a
          → (k : ℕ) × (k < length cs) × (nth_pick k p cs ≡ ok a))
        × (after_picks (length cs) p cs ≡ ok p)
  round-IsFair p cs b same = (
    each,
    rw (after_picks_lem (length cs) p cs (omega arith) (omega arith) b) (
        rw same (
          ap (λ (m : ℕ). ok (record p { next = m }))
            (add-mod_right p.next (length p.sub_conns) ∙ mod-eq_of_lt b))),
  )
    where
      each :
          (i : ℕ) (a : A)
          → i < length cs
          → get_elem? cs i ≡ some a
          → (k : ℕ) × (k < length cs) × (nth_pick k p cs ≡ ok a)
      each i a h e =
          let n = length p.sub_conns in
          let (small, hits) = turn_reaches n p.next i b (omega arith) in
          (
            turn n p.next i,
            omega arith,
            nth_pick_lem (turn n p.next i) p cs a (omega arith) (omega arith) b
                (ap (get_elem? cs) (ap (λ (m : ℕ). m % length cs) hits ∙ mod-eq_of_lt h) ∙ e),
          )
