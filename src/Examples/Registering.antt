-- ===== src/Examples/Registering.antt =====
-- A run of the registration of the webhook, with an outdated configuration registered.
use edge_q.Prelude.{[]}
use edge_q.Webhook.Registration.{MutatingWebhookConfiguration}

abbrev outdated : MutatingWebhookConfiguration
outdated = record { name = "edge-qos-injector-webhook"; resource_version = "7"; webhooks = [] }
