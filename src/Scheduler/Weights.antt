-- ===== src/Scheduler/Weights.antt =====
-- The scheduler of internal/broker/scheduler knows a weight for every group whose queue the pool of
-- pkg/queue holds, since both are made from the same configured groups.
use mathlib.Core.Path.{subst}
use edge_q.Prelude.{
  ◌≡◌, refl, ap, ◌∙◌, String, ◌⊎◌, inl, inr, Bool, Bool-cases, true, false, some, List, [], ◌∷◌,
  map, arith, eq_iff, Member,
}
use edge_q.Prelude.Int.{ℤ}
use edge_q.Config.{ServiceGroup, Error, not_register, default_service_group}
use edge_q.Config
use edge_q.Picker.{
  AttributeLibrary, ResourceInfo, Resources, add_resource, set_resource, same_group,
  weight_attribute_key,
}
use edge_q.Scheduler.{add_groups, all_resources, default_sg}

-- The names that a service group may be scheduled under.
abbrev pub Registered : String → List ServiceGroup → Type 0
Registered k groups = (default_service_group ≡ k) ⊎ Member k (map (λ g. g.name) groups)

module _ (lib : AttributeLibrary) where
  open lib use {Attributes, value, value-new}

  -- Every entry of the map has the weight that `AddResource` gave it.
  abbrev pub HasWeight : ServiceGroup × ResourceInfo Attributes → Type 0
  HasWeight (g, info) =
      (at : Attributes) × (w : ℤ) × (info.attributes ≡ some at)
      × (value at weight_attribute_key ≡ some w)

  abbrev pub AllWeighted : Resources Attributes → Type 0
  AllWeighted m = (e : ServiceGroup × ResourceInfo Attributes) → Member e m → HasWeight e

  abbrev pub Names : Resources Attributes → String → Type 0
  Names m k = (e : ServiceGroup × ResourceInfo Attributes) × (Member e m) × (e.0.name ≡ k)

  set_resource-AllWeighted :
      (r : ServiceGroup) (info : ResourceInfo Attributes) (m : Resources Attributes)
      → ((g : ServiceGroup) → HasWeight (g, info))
      → AllWeighted m
      → AllWeighted (set_resource lib r info m)
  unfolding set_resource
  set_resource-AllWeighted r info [] h v e (inl x) = subst HasWeight x (h r)
  set_resource-AllWeighted r info [] h v e (inr x) = elim x [ ]
  set_resource-AllWeighted r info ((s, old) ∷ m) h v e x = elim (Bool-cases (same_group s r)) [
    | inl same ↦ elim (rw (same, set_resource) at x) [
      | inl y ↦ subst HasWeight y (h s)
      | inr y ↦ v e (inr y)
    ]
    | inr other ↦ elim (rw (other, set_resource) at x) [
      | inl y ↦ v e (inl y)
      | inr y ↦ set_resource-AllWeighted r info m h (λ e z. v e (inr z)) e y
    ]
  ]

  same_group-name : (a b : ServiceGroup) → same_group a b ≡ true → a.name ≡ b.name
  unfolding same_group
  same_group-name a b h = (eq_iff a.name b.name).0 (ground arith)

  set_resource-Names_self :
      (r : ServiceGroup) (info : ResourceInfo Attributes) (m : Resources Attributes)
      → Names (set_resource lib r info m) r.name
  unfolding set_resource
  set_resource-Names_self r info [] = ((r, info), inl refl, refl)
  set_resource-Names_self r info ((s, old) ∷ m) = elim (Bool-cases (same_group s r)) [
    | inl same ↦ rw same ((s, info), inl refl, same_group-name s r same)
    | inr other ↦ let (e, at, n) = set_resource-Names_self r info m in rw other (e, inr at, n)
  ]

  set_resource-Names :
      (r : ServiceGroup) (info : ResourceInfo Attributes) (m : Resources Attributes) (k : String)
      → Names m k
      → Names (set_resource lib r info m) k
  unfolding set_resource
  set_resource-Names r info [] k (e, at, n) = elim at [ ]
  set_resource-Names r info ((s, old) ∷ m) k (e, inl at, n) = elim (Bool-cases (same_group s r)) [
    | inl same ↦ rw same ((s, info), inl refl, ap (λ x. x.0.name) at ∙ n)
    | inr other ↦ rw other ((s, old), inl refl, ap (λ x. x.0.name) at ∙ n)
  ]
  set_resource-Names r info ((s, old) ∷ m) k (e, inr at, n) = elim (Bool-cases (same_group s r)) [
    | inl same ↦ rw same (e, inr at, n)
    | inr other ↦
        let (e', at', n') = set_resource-Names r info m k (e, at, n) in rw other (e', inr at', n')
  ]

  add_resource-AllWeighted :
      (g : ServiceGroup) (m : Resources Attributes)
      → AllWeighted m
      → AllWeighted (add_resource lib g m)
  unfolding add_resource
  add_resource-AllWeighted g m v =
      set_resource-AllWeighted g _ m
        (λ _. (_, g.weight, refl, value-new weight_attribute_key g.weight)) v

  add_groups-AllWeighted :
      (groups : List ServiceGroup) (m : Resources Attributes) (b : Bool)
      → AllWeighted m
      → AllWeighted (add_groups lib groups m b).0
  unfolding add_groups
  add_groups-AllWeighted [] m b v = v
  add_groups-AllWeighted (g ∷ groups) m b v =
      add_groups-AllWeighted groups (add_resource lib g m) _ (add_resource-AllWeighted g m v)

  add_groups-Names :
      (groups : List ServiceGroup) (m : Resources Attributes) (b : Bool) (k : String)
      → Names m k ⊎ Member k (map (λ g. g.name) groups)
      → Names (add_groups lib groups m b).0 k
  unfolding add_groups add_resource
  add_groups-Names [] m b k (inl h) = h
  add_groups-Names [] m b k (inr h) = elim h [ ]
  add_groups-Names (g ∷ groups) m b k (inl h) =
      add_groups-Names groups _ _ k (inl (set_resource-Names g _ m k h))
  add_groups-Names (g ∷ groups) m b k (inr (inl e)) =
      add_groups-Names groups _ _ k (inl (subst (Names _) e (set_resource-Names_self g _ m)))
  add_groups-Names (g ∷ groups) m b k (inr (inr h)) = add_groups-Names groups _ _ k (inr h)

  add_groups-Names_default :
      (groups : List ServiceGroup) (m : Resources Attributes) (b : Bool)
      → (b ≡ true → Names m default_service_group)
      → (add_groups lib groups m b).1 ≡ true
      → Names (add_groups lib groups m b).0 default_service_group
  unfolding add_groups add_resource Config.resource_name
  add_groups-Names_default [] m b h e = h e
  add_groups-Names_default (g ∷ groups) m b h e =
      add_groups-Names_default groups _ _
        (λ f. elim (Bool-cases b) [
          | inl before ↦ set_resource-Names g _ m default_service_group (h before)
          | inr now ↦
              subst (Names _) ((eq_iff g.name default_service_group).0 (rw now at f))
                (set_resource-Names_self g _ m)
        ])
        e

  none_weighted : AllWeighted []
  none_weighted e h = elim h [ ]

  pub all_resources-AllWeighted :
      (groups : List ServiceGroup) → AllWeighted (all_resources lib groups)
  unfolding all_resources
  all_resources-AllWeighted groups = elim (Bool-cases (add_groups lib groups [] false).1) [
    | inl e ↦ rw e (add_groups-AllWeighted groups [] false none_weighted)
    | inr e ↦ rw e (
        add_resource-AllWeighted (default_sg lib) _
          (add_groups-AllWeighted groups [] false none_weighted))
  ]

  pub all_resources-Names :
      (groups : List ServiceGroup) (k : String)
      → Registered k groups
      → Names (all_resources lib groups) k
  unfolding all_resources add_resource
  all_resources-Names groups k (inr h) = elim (Bool-cases (add_groups lib groups [] false).1) [
    | inl e ↦ rw e (add_groups-Names groups [] false k (inr h))
    | inr e ↦
        rw e
          (set_resource-Names (default_sg lib) _ _ k (add_groups-Names groups [] false k (inr h)))
  ]
  all_resources-Names groups k (inl d) = elim (Bool-cases (add_groups lib groups [] false).1) [
    | inl e ↦ rw e (subst (Names _) d (add_groups-Names_default groups [] false (λ f. cc) e))
    | inr e ↦ rw e (subst (Names _) d (set_resource-Names_self (default_sg lib) _ _))
  ]
