-- ===== src/Webhook.antt =====
-- internal/controller/webhook.go: the admission webhook that injects the sidecars.
pub mod Registration
pub mod Meta
pub mod Patch
pub mod Inject
pub mod Mutate
