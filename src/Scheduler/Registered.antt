-- ===== src/Scheduler/Registered.antt =====
-- After `RegeneratePicker` of internal/broker/scheduler/scheduler.go, a weighted scheduler serves every
-- configured group and the default one.
use mathlib.Core.Path.{subst}
use edge_q.Prelude.{
  ℕ, ◌≡◌, ◌≢◌, refl, ap, sym, ◌∙◌, String, ◌⊎◌, inl, inr, true, some, Option-cases, List, [], ◌∷◌,
  arith, Member, is_some,
}
use edge_q.Prelude.Int.{ℤ}
use edge_q.Outcome.{Outcome, ok, err, panic, ◌>>=◌, Outcome-cases, err_not_ok, panic_not_ok, ok_inj}
use edge_q.Maps.{Map, lookup, insert, has_key, has_key-insert, lookup-insert_self}
use edge_q.Config.{ServiceGroup, Error, not_register, default_service_group}
use edge_q.Config
use edge_q.Picker.{
  AttributeLibrary, WeightedRand, ResourceInfo, Resources, WrrPicker, wrr, rr, wrr_picker,
  weigh_resources, build, on_picker, weigh, pick_wrr, from_library, weight_attribute_key,
}
use edge_q.Picker
use edge_q.Scheduler.{Scheduler, all_resources, regenerate_picker, pick}
use edge_q.Scheduler.Weights.{
  Registered, AllWeighted, Names, all_resources-AllWeighted, all_resources-Names,
}

module _ (lib : AttributeLibrary) where
  open lib use {Attributes, value, value-new}

  -- The names that `m` lists, and those that `weights` knows already.
  weigh_resources_lem :
      (m : Resources Attributes) (weights : Map ℤ)
      → AllWeighted lib m
      → (weights' : Map ℤ) × (weigh_resources lib m weights ≡ ok weights')
        × ((k : String) → (has_key k weights ≡ true) ⊎ Names lib m k → has_key k weights' ≡ true)
  unfolding weigh_resources Config.resource_name
  weigh_resources_lem [] weights v = (weights, refl, known)
    where
      known : (k : String) → (has_key k weights ≡ true) ⊎ Names lib [] k → has_key k weights ≡ true
      known k (inl h) = h
      known k (inr (e, at, n)) = elim at [ ]
  weigh_resources_lem ((g, info) ∷ m) weights v =
      let (at, w, has, weighs) = v (g, info) (inl refl) in
      let (weights', e, known) =
        weigh_resources_lem m (insert g.name w weights) (λ x h. v x (inr h)) in
      (weights', rw (has, weigh_resources) (rw weighs e), later weights' w known)
    where
      later :
          (weights' : Map ℤ) (w : ℤ)
          → ((k : String)
              → (has_key k (insert g.name w weights) ≡ true) ⊎ Names lib m k
              → has_key k weights' ≡ true)
          → (k : String) → (has_key k weights ≡ true) ⊎ Names lib ((g, info) ∷ m) k
          → has_key k weights' ≡ true
      later weights' w known k (inl h) = known k (inl (has_key-insert g.name k w weights h))
      later weights' w known k (inr (e, inl at, n)) = known k (
          inl (
            subst (λ j. has_key j (insert g.name w weights) ≡ true) (ap (λ x. x.0.name) at ∙ n)
              (ap is_some (lookup-insert_self g.name w weights))))
      later weights' w known k (inr (e, inr at, n)) = known k (inr (e, at, n))

  -- `range` visits the entries of a map, each of them, and nothing else.
  pub record IsVisit (visit : Resources Attributes → Resources Attributes) : Type 0 where
    pub each :
        (m : Resources Attributes) (e : ServiceGroup × ResourceInfo Attributes)
        → Member e m
        → Member e (visit m)
    pub only :
        (m : Resources Attributes) (e : ServiceGroup × ResourceInfo Attributes)
        → Member e (visit m)
        → Member e m

from_library-err {ℓ} :
    {A : Type ℓ} (r : Outcome String A) (k : String) → from_library r ≢ err (not_register k)
from_library-err (ok a) k e = cc
from_library-err (err x) k e = cc
from_library-err panic k e = cc

module _ {A : Type 0} (name : A → String) where
  weigh_ok :
      (weights : Map ℤ) (cs : List A)
      → ((c : A) → Member c cs → has_key (name c) weights ≡ true)
      → (choices : List (A × ℤ)) × (weigh name weights cs ≡ ok choices)
  unfolding weigh
  weigh_ok weights [] h = ([], refl)
  weigh_ok weights (c ∷ cs) h = elim (Option-cases (lookup (name c) weights)) [
    | inl e ↦ absurd (cc (rw e at (h c (inl refl))))
    | inr (w, e) ↦
        let (choices, e') = weigh_ok weights cs (λ d m. h d (inr m)) in
        ((c, w) ∷ choices, rw (e, weigh) (rw e'))
  ]

  pick_wrr_registered :
      (rand : WeightedRand A) (draw : ℕ) (p : WrrPicker) (cs : List A) (k : String)
      → ((c : A) → Member c cs → has_key (name c) p.weights ≡ true)
      → Picker.pick name rand draw (wrr_picker p) cs ≢ err (not_register k)
  unfolding Picker.pick pick_wrr
  pick_wrr_registered rand draw p [] k h e = cc
  pick_wrr_registered rand draw p (c ∷ cs) k h e =
      let (choices, weighed) = weigh_ok p.weights (c ∷ cs) h in
      elim (Outcome-cases (from_library (rand.new_chooser choices))) [
        | inl (chooser, made) ↦ ground (arith, weighed, made)
        | inr (inl (x, failed)) ↦
            from_library-err (rand.new_chooser choices) k
              (failed ∙ ap err (ground (arith, weighed, failed)))
        | inr (inr broke) ↦ ground (arith, weighed, broke)
      ]

-- What a scheduler becomes by calls of `Pick` that succeed, whatever the candidates and the draws.
pub data Reaches {A : Type 0} (name : A → String) (rand : WeightedRand A) (s : Scheduler)
    : Scheduler → Type 0 where
  unpicked : Reaches name rand s s
  picked :
      {t u : Scheduler} (draw : ℕ) (cs : List A) (a : A)
      → Reaches name rand s t
      → pick name rand draw t cs ≡ ok (a, u)
      → Reaches name rand s u

module _ {A : Type 0} (name : A → String) (rand : WeightedRand A) where
  picker_error :
      (r : Outcome Error (A × Picker.Picker)) (s : Scheduler) (k : String)
      → ◌>>=◌ {B = A × Scheduler} r (λ x. ok (x.0, record s { picker = some x.1 }))
        ≡ err (not_register k)
      → r ≡ err (not_register k)
  picker_error (ok x) s k e = absurd (cc)
  picker_error (err x) s k e = ground arith
  picker_error panic s k e = absurd (cc)

  pick_wrr_same :
      (draw : ℕ) (p : WrrPicker) (cs : List A) (a : A) (q : WrrPicker)
      → pick_wrr name rand draw p cs ≡ ok (a, q)
      → q ≡ p
  unfolding pick_wrr
  pick_wrr_same draw p [] a q h = cc
  pick_wrr_same draw p (c ∷ cs) a q h = elim (Outcome-cases (weigh name p.weights (c ∷ cs))) [
    | inr (inl (x, e)) ↦ cc
    | inr (inr e) ↦ cc
    | inl (choices, e) ↦ elim (Outcome-cases (from_library (rand.new_chooser choices))) [
      | inr (inl (x, f)) ↦ cc
      | inr (inr f) ↦ cc
      | inl (chooser, f) ↦ cc
    ]
  ]

  picked_same :
      (p : WrrPicker) (t u : Scheduler) (a : A) (r : Outcome Error (A × WrrPicker))
      → ((b : A) (q : WrrPicker) → r ≡ ok (b, q) → q ≡ p)
      → ◌>>=◌ {B = A × Scheduler}
          (on_picker name wrr_picker r)
          (λ x. ok (x.0, record t { picker = some x.1 }))
        ≡ ok (a, u)
      → u.picker ≡ some (wrr_picker p)
  unfolding on_picker
  picked_same p t u a (ok (b, q)) same h =
      ap (λ (x : A × Scheduler). x.1.picker) (sym (ok_inj h))
      ∙ ap (λ (x : WrrPicker). some (wrr_picker x)) (same b q refl)
  picked_same p t u a (err x) same h = absurd (err_not_ok h)
  picked_same p t u a panic same h = absurd (panic_not_ok h)

  pick_keeps :
      (draw : ℕ) (p : WrrPicker) (t u : Scheduler) (cs : List A) (a : A)
      → t.picker ≡ some (wrr_picker p)
      → pick name rand draw t cs ≡ ok (a, u)
      → u.picker ≡ some (wrr_picker p)
  unfolding pick Picker.pick
  pick_keeps draw p t u cs a has h =
      picked_same p t u a (pick_wrr name rand draw p cs) (λ b q e. pick_wrr_same draw p cs b q e)
        (rw has at h)

  -- A weighted picker is the same after any picks.
  Reaches-picker :
      (p : WrrPicker) (s : Scheduler)
      → s.picker ≡ some (wrr_picker p)
      → (t : Scheduler) → Reaches name rand s t
      → t.picker ≡ some (wrr_picker p)
  Reaches-picker p s has _ unpicked = has
  Reaches-picker p s has _ (picked {t} {u} draw cs a before e) =
      pick_keeps draw p t u cs a (Reaches-picker p s has t before) e

module _ (lib : AttributeLibrary) {A : Type 0} (name : A → String) where
  build_wrr :
      (intn : ℕ → ℕ) (m : Resources (lib.Attributes))
      → AllWeighted lib m
      → (e : ServiceGroup × ResourceInfo (lib.Attributes)) → Member e m
      → (p : WrrPicker) × (build lib intn wrr m ≡ ok (wrr_picker p))
        × ((k : String) → Names lib m k → has_key k p.weights ≡ true)
  unfolding build
  build_wrr intn [] v e h = elim h [ ]
  build_wrr intn (r ∷ m) v e h =
      let (weights, made, known) = weigh_resources_lem lib (r ∷ m) [] v in
      (record { weights = weights }, rw made, λ k n. known k (inr n))

  -- A weighted scheduler that is regenerated from the configured groups, in whatever order the map of
  -- resources is visited: it does not fail, and from then on, after any calls of `Pick` that succeeded
  -- with whatever candidates, no call whose candidates are all named for configured groups or for the
  -- default one fails for an unregistered group.
  pub regenerate_picker-Registers :
      (rand : WeightedRand A) (intn : ℕ → ℕ)
      (visit : Resources (lib.Attributes) → Resources (lib.Attributes)) (s : Scheduler)
      (groups : List ServiceGroup)
      → IsVisit lib visit
      → s.builder ≡ wrr
      → (s' : Scheduler) × (regenerate_picker lib intn visit s groups ≡ ok s')
        × ((t : Scheduler)
            → Reaches name rand s' t
            → (draw : ℕ) (cs : List A) (k : String)
            → ((c : A) → Member c cs → Registered (name c) groups)
            → pick name rand draw t cs ≢ err (not_register k))
  unfolding regenerate_picker pick
  regenerate_picker-Registers rand intn visit s groups ok_visit method =
      let m = all_resources lib groups in
      let weighted = all_resources-AllWeighted lib groups in
      let (d, d_in, _) = all_resources-Names lib groups default_service_group (inl refl) in
      let (p, made, known) =
        build_wrr intn (visit m) (λ e h. weighted e (ok_visit.only m e h)) d
          (ok_visit.each m d d_in) in
      (
        record s { picker = some (wrr_picker p) },
        rw (method, made),
        λ t reached draw cs k reg e.
            pick_wrr_registered name rand draw p cs k
              (λ c h.
                let (x, x_in, n) = all_resources-Names lib groups (name c) (reg c h) in
                known (name c) (x, ok_visit.each m x x_in, n))
              (picker_error name rand (Picker.pick name rand draw (wrr_picker p) cs) t k (
                rw
                  (Reaches-picker name rand p (record s { picker = some (wrr_picker p) }) refl t
                    reached)
                  at e)),
      )
