-- ===== src/Scheduler.antt =====
-- internal/broker/scheduler/scheduler.go: the scheduler that holds the picker of the configured method.
pub mod Weights
pub mod Registered
use edge_q.Prelude.{
  ℕ, String, Bool, true, false, ◌||◌, Option, none, some, List, [], ◌∷◌, ◌==◌, if◌then◌else◌,
}
use edge_q.Prelude.Int.{pos}
use edge_q.Outcome.{Outcome, ok, err, ◌>>=◌}
use edge_q.Config.{ServiceGroup, Schedule, Error, default_service_group, builder_nil, picker_nil}
use edge_q.Config
use edge_q.Picker.{
  AttributeLibrary, WeightedRand, SchedulingMethod, Resources, Picker, err_picker, builder,
  add_resource, build,
}
use edge_q.Picker

pub record Scheduler : Type 0 where
  pub builder : SchedulingMethod
  pub picker : Option Picker
  pub err_picker : Picker

unfoldable pub new_scheduler : Schedule → Outcome Error Scheduler
new_scheduler cfg = elim (builder cfg.method) [
  | none ↦ err builder_nil
  | some b ↦ ok (record { builder = b; picker = none; err_picker = err_picker picker_nil })
]

module _ (lib : AttributeLibrary) where
  -- The loop of `RegeneratePicker`.
  unfoldable pub add_groups :
      List ServiceGroup → Resources (lib.Attributes) → Bool → Resources (lib.Attributes) × Bool
  add_groups [] pbi default_exit = (pbi, default_exit)
  add_groups (group ∷ groups) pbi default_exit =
      add_groups groups (add_resource lib group pbi)
        (default_exit || Config.resource_name group == default_service_group)

  abbrev pub default_sg : ServiceGroup
  default_sg = record { name = default_service_group; reclaimable = false; weight = pos 1 }

  unfoldable pub all_resources : List ServiceGroup → Resources (lib.Attributes)
  unfolding add_groups
  all_resources groups =
      let (pbi, default_exit) = add_groups groups [] false in
      if default_exit then pbi else add_resource lib default_sg pbi

  -- `visit` is the order in which `Build` ranges over the map.
  unfoldable pub regenerate_picker :
      (ℕ → ℕ)
      → (Resources (lib.Attributes) → Resources (lib.Attributes))
      → Scheduler
      → List ServiceGroup
      → Outcome Error Scheduler
  regenerate_picker intn visit s groups =
      build lib intn s.builder (visit (all_resources groups)) >>= λ p.
      ok (record s { picker = some p })

module _ {A : Type 0} (name : A → String) (rand : WeightedRand A) where
  unfoldable pub pick : ℕ → Scheduler → List A → Outcome Error (A × Scheduler)
  pick draw s candidates = elim s.picker [
    | none ↦ Picker.pick name rand draw s.err_picker candidates >>= λ x.
        ok (x.0, record s { err_picker = x.1 })
    | some p ↦
        Picker.pick name rand draw p candidates >>= λ x. ok (x.0, record s { picker = some x.1 })
  ]
