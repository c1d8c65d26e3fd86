-- ===== src/Apps/Orphans.antt =====
-- The deletion of pkg/models/apps/deploy.go against the deployments that
-- pkg/controllers/imdeployment/imdeployment_controller.go creates.
use edge_q.Prelude.{String, ◌≡◌, ◌≢◌, refl, ◌⊎◌, inl, inr, true, List, [], ◌∷◌, Member}
use edge_q.Outcome.{Outcome, ok, Outcome-cases}
use edge_q.K8s.{ApiError}
use edge_q.Deployment.{InferModelDeployment, ModelNodeSelector, inject_additional_labels}
use edge_q.Deployment.Rollout.{Api, new_deployment}
use edge_q.Apps.{
  Deletion, delete_instance, delete_workloads_in, delete_workloads, delete_infer_model_deployment,
}

InNamespace : Deletion → String → Type 0
InNamespace (delete_instance name) ns = ⊥
InNamespace (delete_workloads_in n) ns = n ≡ ns

-- Some deletion removes the deployments of the namespace.
pub Removes : List Deletion → String → Type 0
unfolding InNamespace
Removes [] ns = ⊥
Removes (d ∷ ds) ns = InNamespace d ns ⊎ Removes ds ns

module _ (delete : Deletion → Outcome ApiError (Unit {0})) where
  elsewhere :
      (selectors : List ModelNodeSelector) (ns : String)
      → ((s : ModelNodeSelector) → Member s selectors → s.project ≢ ns)
      → ¬ Removes (delete_workloads delete selectors).0 ns
  unfolding delete_workloads Removes
  elsewhere [] ns other = λ r. r
  elsewhere (s ∷ selectors) ns other =
      elim (Outcome-cases (delete (delete_workloads_in s.project))) [
        | inl (u, e) ↦
            rw (delete_workloads, e)
              (λ (r : (s.project ≡ ns) ⊎ Removes (delete_workloads delete selectors).0 ns). elim r [
                | inl here ↦ other s (inl refl) here
                | inr there ↦ elsewhere selectors ns (λ t m. other t (inr m)) there
              ])
        | inr (inl (x, e)) ↦
            rw (delete_workloads, e)
              (λ (r : (s.project ≡ ns) ⊎ ⊥). elim r [
                | inl here ↦ other s (inl refl) here
                | inr none_left ↦ none_left
              ])
        | inr (inr e) ↦
            rw (delete_workloads, e)
              (λ (r : (s.project ≡ ns) ⊎ ⊥). elim r [
                | inl here ↦ other s (inl refl) here
                | inr none_left ↦ none_left
              ])
      ]

  -- Where no selector's project is the namespace of the instance, the deletion of the instance with
  -- its workloads removes no deployment from the namespace in which the controller creates them.
  pub deletion_misses_deployments :
      (api : Api) (instance : InferModelDeployment) (workload : String) (info : ModelNodeSelector)
      → ((s : ModelNodeSelector)
          → Member s instance.node_selectors
          → s.project ≢ instance.namespace)
      → ¬ Removes
          (delete_infer_model_deployment delete (ok instance) true).0
          (new_deployment api instance workload info).namespace
  unfolding delete_infer_model_deployment Removes new_deployment inject_additional_labels
  deletion_misses_deployments api instance workload info other =
      elim (Outcome-cases (delete (delete_instance instance.name))) [
        | inl (u, e) ↦
            rw (delete_infer_model_deployment, e)
              (λ (r : ⊥
                  ⊎ Removes (delete_workloads delete instance.node_selectors).0 instance.namespace).
                elim r [
                  | inl impossible ↦ impossible
                  | inr there ↦ elsewhere instance.node_selectors instance.namespace other there
                ])
        | inr (inl (x, e)) ↦
            rw (delete_infer_model_deployment, e) (λ (r : ⊥ ⊎ ⊥). elim r [ inl i ↦ i | inr i ↦ i ])
        | inr (inr e) ↦
            rw (delete_infer_model_deployment, e) (λ (r : ⊥ ⊎ ⊥). elim r [ inl i ↦ i | inr i ↦ i ])
      ]
