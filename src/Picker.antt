-- ===== src/Picker.antt =====
-- internal/broker/picker: the pickers that choose among the candidates of one call, and the builders
-- that make them. Map iteration, random numbers and the two libraries that the pickers call are
-- arguments.
pub mod Sound
pub mod RoundRobin
use edge_q.Prelude.{
  ℕ, ◌+◌, ◌%◌, ◌≡◌, String, Bool, true, ◌&&◌, Option, none, some, List, [], ◌∷◌, map, ◌==◌, eqb,
  length, get_elem?, Member, if◌then◌else◌,
}
use edge_q.Prelude.Int.{ℤ, eqb_ℤ}
use edge_q.Outcome.{Outcome, ok, err, panic, ◌>>=◌, or_panic}
use edge_q.Maps.{Map, lookup, insert}
use edge_q.Config.{ServiceGroup, Error, no_resource, no_sub_conn, not_register, external}
use edge_q.Config

-- google.golang.org/grpc/attributes: `New(key, value)` and `Value(key)`, which is nil for another key.
pub record AttributeLibrary : Type 1 where
  pub Attributes : Type 0
  pub new : String → ℤ → Attributes
  pub value : Attributes → String → Option ℤ
  pub value-new : (key : String) (v : ℤ) → value (new key v) key ≡ some v

-- github.com/mroth/weightedrand: a chooser over weighted choices picks one of them, from the random
-- number that it draws.
pub record WeightedRand (A : Type 0) : Type 1 where
  pub Chooser : Type 0
  pub new_chooser : List (A × ℤ) → Outcome String Chooser
  pub choose : Chooser → ℕ → A
  pub choose-Member :
      (cs : List (A × ℤ)) (c : Chooser) (draw : ℕ)
      → new_chooser cs ≡ ok c
      → Member (choose c draw) (map (λ x. x.0) cs)

abbrev pub weight_attribute_key : String
weight_attribute_key = "customize_weight"

-- `pickers`: the scheduling methods that have a builder.
pub data SchedulingMethod : Type 0 where
  rr wrr : SchedulingMethod

unfoldable pub builder : String → Option SchedulingMethod
builder method =
    if method == ""
    then none
    else if method == "RR"
    then some rr
    else if method == "WRR"
    then some wrr
    else none

pub record ResourceInfo (Attributes : Type 0) : Type 0 where
  pub name : String
  pub attributes : Option Attributes

-- `PickerBuildInfo`: a map whose keys are service groups, compared field by field.
abbrev pub Resources : Type 0 → Type 0
Resources Attributes = List (ServiceGroup × ResourceInfo Attributes)

unfoldable pub same_group : ServiceGroup → ServiceGroup → Bool
same_group a b =
    a.name == b.name && (same_bool a.reclaimable b.reclaimable && eqb_ℤ a.weight b.weight)
  where
    same_bool : Bool → Bool → Bool
    same_bool x y = if x then y else (if y then x else true)

module _ (lib : AttributeLibrary) where
  open lib use {Attributes, new, value}

  unfoldable pub set_resource :
      ServiceGroup → ResourceInfo Attributes → Resources Attributes → Resources Attributes
  set_resource r info [] = (r, info) ∷ []
  set_resource r info ((s, old) ∷ resources) =
      if same_group s r then (s, info) ∷ resources else (s, old) ∷ set_resource r info resources

  unfoldable pub add_resource : ServiceGroup → Resources Attributes → Resources Attributes
  unfolding set_resource
  add_resource r resources =
      set_resource r
        (record { name = r.name; attributes = some (new weight_attribute_key r.weight) }) resources

  -- The loop of `WRRPickerBuilder.Build`; the type assertion fails on a missing attribute.
  unfoldable pub weigh_resources : Resources Attributes → Map ℤ → Outcome Error (Map ℤ)
  weigh_resources [] weights = ok weights
  weigh_resources ((sc, info) ∷ resources) weights = elim info.attributes [
    | none ↦ weigh_resources resources weights
    | some attributes ↦ or_panic (value attributes weight_attribute_key) >>= λ weight.
        weigh_resources resources (insert (Config.resource_name sc) weight weights)
  ]

-- `subConns` is used for its length alone.
pub record RrPicker : Type 0 where
  pub sub_conns : List ServiceGroup
  pub next : ℕ

pub record WrrPicker : Type 0 where
  pub weights : Map ℤ

pub data Picker : Type 0 where
  err_picker : Error → Picker
  rr_picker : RrPicker → Picker
  wrr_picker : WrrPicker → Picker

-- `resources` stands in the order in which this call ranges over the map; `intn n` is the number that
-- `rand.Intn(n)` draws.
unfoldable pub build :
    (lib : AttributeLibrary)
    → (ℕ → ℕ)
    → SchedulingMethod
    → Resources (lib.Attributes)
    → Outcome Error Picker
build lib intn method [] = ok (err_picker no_resource)
build lib intn rr (r ∷ resources) =
    let scs : List ServiceGroup = map (λ x. x.0) (r ∷ resources) in
    ok (rr_picker (record { sub_conns = scs; next = intn (length scs) }))
build lib intn wrr (r ∷ resources) = weigh_resources lib (r ∷ resources) [] >>= λ weights.
    ok (wrr_picker (record { weights = weights }))

-- An error of a library comes back as it is.
abbrev pub from_library {ℓ} : {A : Type ℓ} → Outcome String A → Outcome Error A
from_library (ok a) = ok a
from_library (err e) = err (external e)
from_library panic = panic

module _ {A : Type 0} (name : A → String) where
  unfoldable pub pick_rr : RrPicker → List A → Outcome Error (A × RrPicker)
  pick_rr p candidates =
      let n = length p.sub_conns in
      if eqb (length candidates) 0
      then err no_sub_conn
      else if eqb n 0
      then err no_sub_conn
      else (or_panic (get_elem? candidates (p.next % length candidates)) >>= λ sc.
          ok (sc, record p { next = (p.next + 1) % n }))

  -- The loop over the candidates, up to the first that has no weight.
  unfoldable pub weigh : Map ℤ → List A → Outcome Error (List (A × ℤ))
  weigh weights [] = ok []
  weigh weights (candidate ∷ candidates) = elim (lookup (name candidate) weights) [
    | none ↦ err (not_register (name candidate))
    | some weight ↦ weigh weights candidates >>= λ choices. ok ((candidate, weight) ∷ choices)
  ]

  unfoldable pub pick_wrr : WeightedRand A → ℕ → WrrPicker → List A → Outcome Error (A × WrrPicker)
  pick_wrr rand draw p [] = err no_resource
  pick_wrr rand draw p (c ∷ candidates) = weigh p.weights (c ∷ candidates) >>= λ choices.
      from_library (rand.new_chooser choices) >>= λ chooser. ok (rand.choose chooser draw, p)

  unfoldable pub on_picker :
      {P : Type 0} → (P → Picker) → Outcome Error (A × P) → Outcome Error (A × Picker)
  on_picker wrap r = r >>= λ x. ok (x.0, wrap x.1)

  -- The method `Pick` of the picker at hand; `draw` is the random number of this call.
  unfoldable pub pick : WeightedRand A → ℕ → Picker → List A → Outcome Error (A × Picker)
  unfolding on_picker
  pick rand draw (err_picker e) candidates = err e
  pick rand draw (rr_picker p) candidates = on_picker rr_picker (pick_rr p candidates)
  pick rand draw (wrr_picker p) candidates = on_picker wrr_picker (pick_wrr rand draw p candidates)
