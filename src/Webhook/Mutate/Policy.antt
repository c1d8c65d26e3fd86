-- ===== src/Webhook/Mutate/Policy.antt =====
-- What the webhook of internal/controller/webhook.go leaves alone, and which pods it changes.
use edge_q.Prelude.{String, ◌≡◌, ◌≢◌, refl, ◌⊎◌, inl, inr, false, [], eq_iff, arith}
use edge_q.K8s.{Pod}
use edge_q.Utils.{has_string}
use edge_q.Webhook.Inject.{Cluster}
use edge_q.Webhook.Mutate.{
  WebhookServer, status_key, annotation, mutation_required, allowed, mutate, with_namespace,
  ignored_namespaces,
}

module _ (k : Cluster) where
  named-with_namespace :
      (namespace : String) (pod : Pod) → pod.namespace ≢ "" → with_namespace k namespace pod ≡ pod
  unfolding with_namespace
  named-with_namespace namespace pod named = ground (arith, eq_iff pod.namespace "")

  -- What keeps a pod as it is.
  abbrev pub IsExempt : Pod → Type 0
  IsExempt pod =
      (pod.namespace ≡ "kube-system")
      ⊎ ((pod.namespace ≡ "kube-public")
          ⊎ ((k.to_lower (annotation status_key pod) ≡ "injected") ⊎ (pod.labels ≡ [])))

  exempt-mutation_required :
      (pod : Pod) → IsExempt pod → mutation_required k ignored_namespaces pod ≡ false
  unfolding mutation_required has_string IsExempt
  exempt-mutation_required pod (inl e) = rw e refl
  exempt-mutation_required pod (inr (inl e)) = rw e refl
  exempt-mutation_required pod (inr (inr (inl e))) = rw e (ground arith)
  exempt-mutation_required pod (inr (inr (inr e))) = rw e (ground arith)

  -- A pod of the system's namespaces, one that says it is injected, and one without labels is admitted
  -- as it is, and no configuration map is created for it. The pod names its namespace.
  pub mutate_skips :
      (whs : WebhookServer) (namespace : String) (pod : Pod)
      → pod.namespace ≢ ""
      → IsExempt pod
      → mutate k whs namespace pod ≡ ([], allowed)
  unfolding mutate
  mutate_skips whs namespace pod named why =
      rw (named-with_namespace namespace pod named, exempt-mutation_required pod why) refl
