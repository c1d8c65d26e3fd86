-- ===== src/Webhook/Mutate/Labels.antt =====
-- Which pods the webhook of internal/controller/webhook.go changes.
use edge_q.Prelude.{◌≡◌, ◌⊎◌, inl, inr, Bool-cases, true, false, ◌==◌}
use edge_q.Outcome.{Outcome, ok, err}
use edge_q.Maps.{has_key}
use edge_q.K8s.{Pod, value_at}
use edge_q.Sidecar.{SidecarConfig}
use edge_q.Webhook.Inject.{Cluster, WebhookError}
use edge_q.Webhook.Mutate.{WebhookServer, proxy_label, broker_label, prepare_sidecar_configuration}

-- The pod has exactly one of the two injection labels, and it enables the injection.
abbrev pub Injects : Pod → Type 0
Injects pod =
    ((has_key proxy_label pod.labels ≡ true)
      × (has_key broker_label pod.labels ≡ false)
      × ((value_at proxy_label pod.labels == "enabled") ≡ true))
    ⊎ ((has_key proxy_label pod.labels ≡ false)
        × (has_key broker_label pod.labels ≡ true)
        × ((value_at broker_label pod.labels == "enabled") ≡ true))

module _ (k : Cluster) where
  -- A sidecar is prepared only for a pod that has exactly one of the two injection labels, with the
  -- value that enables it.
  pub prepare_sidecar_configuration-Injects :
      (whs : WebhookServer) (pod : Pod) (sc : SidecarConfig)
      → (prepare_sidecar_configuration k whs pod).1 ≡ ok sc
      → Injects pod
  unfolding prepare_sidecar_configuration
  prepare_sidecar_configuration-Injects whs pod sc h =
      elim (Bool-cases (has_key proxy_label pod.labels)) [
        | inl p ↦ elim (Bool-cases (has_key broker_label pod.labels)) [
          | inl b ↦ absurd (no_message _ sc (rw (p, b) at h))
          | inr b ↦ elim (Bool-cases (value_at proxy_label pod.labels == "enabled")) [
            | inl e ↦ inl (p, b, e)
            | inr e ↦ absurd (no_message _ sc (rw (p, b, e) at h))
          ]
        ]
        | inr p ↦ elim (Bool-cases (has_key broker_label pod.labels)) [
          | inr b ↦ absurd (no_message _ sc (rw (p, b) at h))
          | inl b ↦ elim (Bool-cases (value_at broker_label pod.labels == "enabled")) [
            | inl e ↦ inr (p, b, e)
            | inr e ↦ absurd (no_message _ sc (rw (p, b, e) at h))
          ]
        ]
      ]
    where
      no_message :
          (e : WebhookError) (sc : SidecarConfig)
          → ¬ (◌≡◌ {A = Outcome WebhookError SidecarConfig} (err e) (ok sc))
      no_message e sc h = cc
