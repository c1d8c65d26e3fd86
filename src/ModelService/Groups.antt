-- ===== src/ModelService/Groups.antt =====
-- The status of pkg/controllers/imservice/imservice_controller.go against the pods.
use edge_q.Prelude.{
  String, ◌≡◌, refl, ap, ◌∙◌, inl, inr, Bool, Bool-cases, true, false, ◌&&◌, ◌||◌, Option-cases,
  none, some, List, [], ◌∷◌, ◌==◌, eq_iff, arith,
}
use edge_q.Maps.{Map, lookup, has_key, lookup-insert}
use edge_q.K8s.{Pod, ServiceGroupItem}
use edge_q.ModelService.{mark_pod, mark_used, group_label, get_pod_owner_ref_name}

-- A pod has the label of the group.
pub in_group : String → Pod → Bool
in_group g pod = elim (lookup group_label pod.labels) [ none ↦ false | some name ↦ name == g ]

pub any_in_group : String → List Pod → Bool
unfolding in_group
any_in_group g [] = false
any_in_group g (pod ∷ pods) = in_group g pod || any_in_group g pods

pub is_used_in : String → Map ServiceGroupItem → Bool
is_used_in g m = elim (lookup g m) [ none ↦ false | some item ↦ item.is_used ]

same_key : (a b : String) (m : Map ServiceGroupItem) → (a == b) ≡ true → has_key a m ≡ has_key b m
same_key a b m e = ap (λ k. has_key k m) ((eq_iff a b).0 e)

mark_pod_iff :
    (pod : Pod) (m : Map ServiceGroupItem) (g : String)
    → (has_key g (mark_pod pod m) ≡ has_key g m)
      × (is_used_in g (mark_pod pod m) ≡ (is_used_in g m || (has_key g m && in_group g pod)))
unfolding mark_pod in_group is_used_in
mark_pod_iff pod m g = elim (Option-cases (lookup group_label pod.labels)) [
  | inl e ↦ rw (mark_pod, e) (refl, ground arith)
  | inr (name, e) ↦
      let used : ServiceGroupItem = record {
        name = name;
        client = get_pod_owner_ref_name pod;
        is_used = true;
      } in
      elim (Bool-cases (has_key name m)) [
        | inl there ↦
            rw (mark_pod, e, there)
              (
                ground
                    (arith, lookup-insert name g used m, same_key name g m, Bool-cases (name == g)),
                ground (
                  arith,
                  lookup-insert name g used m,
                  same_key name g m,
                  Bool-cases (name == g),
                  e,
                ),
              )
        | inr absent ↦
            rw (mark_pod, e, absent)
              (refl, ground (arith, same_key name g m, Bool-cases (name == g), e))
      ]
]

-- The pods change which groups are in use, never which groups there are: a group is in use afterwards
-- if it was before, or if it is there and a pod has its label.
pub mark_used_iff :
    (pods : List Pod) (m : Map ServiceGroupItem) (g : String)
    → (has_key g (mark_used pods m) ≡ has_key g m)
      × (is_used_in g (mark_used pods m) ≡ (is_used_in g m || (has_key g m && any_in_group g pods)))
unfolding mark_used any_in_group
mark_used_iff [] m g = (refl, ground arith)
mark_used_iff (pod ∷ pods) m g =
    let (there, used) = mark_pod_iff pod m g in
    let (all_there, all_used) = mark_used_iff pods (mark_pod pod m) g in
    (all_there ∙ there, all_used ∙ rw (there, used) (ground arith))
