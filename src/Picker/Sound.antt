-- ===== src/Picker/Sound.antt =====
-- Whatever a picker of internal/broker/picker picks is one of the candidates of the call.
use mathlib.Core.Path.{subst}
use edge_q.Prelude.{
  ℕ, ◌%◌, ◌≡◌, ap, ◌∙◌, String, inl, inr, some, Option-cases, List, [], ◌∷◌, map, arith, length,
  get_elem?, Member, Member-get_elem?,
}
use edge_q.Prelude.Int.{ℤ}
use edge_q.Outcome.{Outcome, ok, ok_inj, err, panic, >>=-eq-ok}
use edge_q.Maps.{Map, lookup}
use edge_q.Picker.{
  WeightedRand, from_library, RrPicker, WrrPicker, Picker, err_picker, rr_picker, wrr_picker,
  pick_rr, weigh, pick_wrr, pick,
}

from_library-ok {ℓ} : {A : Type ℓ} (r : Outcome String A) {a : A} → from_library r ≡ ok a → r ≡ ok a
from_library-ok (ok b) h = ground arith
from_library-ok (err e) h = cc
from_library-ok panic h = cc

module _ {A : Type 0} (name : A → String) where
  pick_rr-Member :
      (p p' : RrPicker) (cs : List A) (a : A) → pick_rr name p cs ≡ ok (a, p') → Member a cs
  unfolding pick_rr
  pick_rr-Member p p' [] a h = cc
  pick_rr-Member p p' (c ∷ cs) a h =
      elim (Option-cases (get_elem? (c ∷ cs) (p.next % length (c ∷ cs)))) [
        | inl e ↦ absurd (ground (arith, e))
        | inr (b, e) ↦
            Member-get_elem? (c ∷ cs) (p.next % length (c ∷ cs)) a (e ∙ ap some (ground (arith, e)))
      ]

  -- Where every candidate has a weight, the choices are the candidates.
  weigh_candidates :
      (weights : Map ℤ) (cs : List A) (choices : List (A × ℤ))
      → weigh name weights cs ≡ ok choices
      → map (λ x. x.0) choices ≡ cs
  unfolding weigh
  weigh_candidates weights [] choices h = ground arith
  weigh_candidates weights (c ∷ cs) choices h = elim (Option-cases (lookup (name c) weights)) [
    | inl e ↦ absurd (cc (rw (e, weigh) at h))
    | inr (weight, e) ↦
        let (rest, weighed, made) = >>=-eq-ok (weigh name weights cs) _ (rw (e, weigh) at h) in
        rw (← ok_inj made) (ap (◌∷◌ c) (weigh_candidates weights cs rest weighed))
  ]

  pick_wrr-Member :
      (rand : WeightedRand A) (draw : ℕ) (p p' : WrrPicker) (cs : List A) (a : A)
      → pick_wrr name rand draw p cs ≡ ok (a, p')
      → Member a cs
  unfolding pick_wrr
  pick_wrr-Member rand draw p p' [] a h = cc
  pick_wrr-Member rand draw p p' (c ∷ cs) a h =
      let (choices, weighed, h') = >>=-eq-ok (weigh name p.weights (c ∷ cs)) _ h in
      let (chooser, made, h'') = >>=-eq-ok (from_library (rand.new_chooser choices)) _ h' in
      subst (λ l. Member a l) (weigh_candidates p.weights (c ∷ cs) choices weighed)
        (subst (λ b. Member b (map (λ x. x.0) choices)) (ground (arith, h''))
          (rand.choose-Member choices chooser draw
            (from_library-ok (rand.new_chooser choices) made)))

  -- Whatever picker is at hand, the item that it picks is one of the candidates.
  pub pick-Member :
      (rand : WeightedRand A) (draw : ℕ) (p p' : Picker) (cs : List A) (a : A)
      → pick name rand draw p cs ≡ ok (a, p')
      → Member a cs
  unfolding pick
  pick-Member rand draw (err_picker e) p' cs a h = cc
  pick-Member rand draw (rr_picker p) p' cs a h =
      let ((b, q), picked, h') = >>=-eq-ok (pick_rr name p cs) _ h in
      subst (λ b. Member b cs) (ground (arith, h')) (pick_rr-Member p q cs b picked)
  pick-Member rand draw (wrr_picker p) p' cs a h =
      let ((b, q), picked, h') = >>=-eq-ok (pick_wrr name rand draw p cs) _ h in
      subst (λ b. Member b cs) (ground (arith, h')) (pick_wrr-Member rand draw p q cs b picked)
