-- ===== src/Webhook/Registration/Converges.antt =====
-- internal/controller/webhook.go: what is registered after `CreateOrUpdateMutatingWebhookConfiguration`.
use edge_q.Prelude.{◌≡◌, Option, none, some, List, [], ◌∷◌}
use edge_q.Outcome.{Outcome, ok, err, panic}
use edge_q.K8s.{ApiError}
use edge_q.Webhook.Registration.{
  MutatingWebhook, MutatingWebhookConfiguration, ConfigWrite, create, update,
}

-- The two webhooks agree in all fields that are compared.
pub record Agree (old new : MutatingWebhook) : Type 0 where
  pub names : old.name ≡ new.name
  pub versions : old.admission_review_versions ≡ new.admission_review_versions
  pub effects : old.side_effects ≡ new.side_effects
  pub policies : old.failure_policy ≡ new.failure_policy
  pub rules : old.rules ≡ new.rules
  pub namespaces : old.namespace_selector ≡ new.namespace_selector
  pub bundles : old.ca_bundle ≡ new.ca_bundle
  pub services : old.service ≡ new.service

abbrev pub AgreeAll : List MutatingWebhook → List MutatingWebhook → Type 0
AgreeAll [] [] = Unit {0}
AgreeAll [] (new ∷ news) = ⊥
AgreeAll (old ∷ olds) [] = ⊥
AgreeAll (old ∷ olds) (new ∷ news) = Agree old new × AgreeAll olds news

abbrev pub written : ConfigWrite → MutatingWebhookConfiguration
written (create cfg) = cfg
written (update cfg) = cfg

-- What the API server has after the writes, of which it stores those that it accepts.
abbrev pub stored :
    (ConfigWrite → Outcome ApiError (Unit {0}))
    → Option MutatingWebhookConfiguration
    → List ConfigWrite
    → Option MutatingWebhookConfiguration
stored write has [] = has
stored write has (w ∷ writes) = elim (write w) [
  | ok _ ↦ stored write (some (written w)) writes
  | err e ↦ stored write has writes
  | panic ↦ stored write has writes
]

abbrev pub present :
    Outcome ApiError MutatingWebhookConfiguration → Option MutatingWebhookConfiguration
present (ok cfg) = some cfg
present (err e) = none
present panic = none
