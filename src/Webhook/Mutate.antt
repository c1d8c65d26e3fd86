-- ===== src/Webhook/Mutate.antt =====
-- internal/controller/webhook.go, `mutationRequired`, `prepareSidecarConfiguration`,
-- `createSidecarPatch` and `mutate`: the answer to one admission request. A patch is encoded without
-- fail, so that the answer holds the operations themselves.
pub mod Policy
pub mod Labels
use edge_q.Prelude.{
  String, Bool, true, false, not, ◌&&◌, ◌||◌, Option, none, some, List, [], ◌∷◌, ◌==◌, is_some,
  if◌then◌else◌,
}
use edge_q.Prelude.Int.{ℤ}
use edge_q.Outcome.{Outcome, ok, err, panic, ◌>>=◌}
use edge_q.Maps.{lookup, has_key}
use edge_q.K8s.{Container, Volume, Pod, value_at}
use edge_q.Utils.{has_string}
use edge_q.Sidecar.{SidecarConfig, get_proxy_sidecar_config, get_broker_sidecar_config}
use edge_q.Webhook.Meta.{get_deploy_meta_from_pod}
use edge_q.Webhook.Patch.{PatchOperation, add_container, add_volume, update_annotation}
use edge_q.Webhook.Inject.{
  Cluster, ConfigMap, WebhookError, message, generate_proxy_cm, generate_broker_cm, has_none,
}

pub record WebhookServer : Type 0 where
  pub proxy_sidecar : Option SidecarConfig
  pub broker_sidecar : Option SidecarConfig

abbrev pub proxy_label : String
proxy_label = "proxy.edge-qos.edgewize.io/injection"

abbrev pub broker_label : String
broker_label = "broker.edge-qos.edgewize.io/injection"

abbrev pub status_key : String
status_key = "sidecar-injector-webhook.edgewize.io/status"

abbrev pub inject_key : String
inject_key = "sidecar-injector-webhook.edgewize.io/inject"

abbrev pub ignored_namespaces : List String
ignored_namespaces = "kube-system" ∷ "kube-public" ∷ []

-- The value of an annotation, empty where there is none.
unfoldable pub annotation : String → Pod → String
annotation key pod = elim pod.annotations [ none ↦ "" | some m ↦ value_at key m ]

abbrev pub is_off : String → Bool
is_off s = has_string ("n" ∷ "not" ∷ "false" ∷ "off" ∷ []) s

module _ (k : Cluster) where
  -- The service of a broker is there; any error counts as none.
  service_is_there : Pod → Bool
  service_is_there pod =
      let deploy = (get_deploy_meta_from_pod k.cron_job pod).0 in
      if deploy.name == ""
      then false
      else elim (k.get_infer_model_service deploy.namespace deploy.name) [ ok _ ↦ true | _ ↦ false ]

  unfoldable pub mutation_required : List String → Pod → Bool
  unfolding service_is_there
  mutation_required ignored pod =
      if has_string ignored pod.namespace
      then false
      else if k.to_lower (annotation status_key pod) == "injected"
      then false
      else if is_off (k.to_lower (annotation inject_key pod))
      then false
      else if has_none pod.labels
      then false
      else if has_key broker_label pod.labels
      then service_is_there pod
      else true

  abbrev Prepared : Type 0 → Type 0
  Prepared A = List ConfigMap × Outcome WebhookError A

  unfoldable pub prepare_proxy : Pod → Option SidecarConfig → Prepared SidecarConfig
  prepare_proxy pod none = ([], err (message "app sidecar configuration is empty"))
  prepare_proxy pod (some sidecar) =
      let (cms, r) = generate_proxy_cm k pod in
      (cms, r >>= λ t. ok (get_proxy_sidecar_config k.itoa t.0 t.1 t.2 sidecar))

  prepare_broker : Pod → Option SidecarConfig → Prepared SidecarConfig
  prepare_broker pod none = ([], err (message "model server sidecar configuration is empty"))
  prepare_broker pod (some sidecar) =
      let (cms, r) = generate_broker_cm k pod in
      (cms, r >>= λ t. ok (get_broker_sidecar_config k.itoa t.0 t.1 sidecar))

  unfoldable pub prepare_sidecar_configuration : WebhookServer → Pod → Prepared SidecarConfig
  unfolding prepare_proxy prepare_broker
  prepare_sidecar_configuration whs pod =
      let has_proxy = has_key proxy_label pod.labels in
      let has_broker = has_key broker_label pod.labels in
      if has_proxy && has_broker
      then ([], err (message "app and model injection labels cannot exist at the same time"))
      else if has_proxy && value_at proxy_label pod.labels == "enabled"
      then prepare_proxy pod whs.proxy_sidecar
      else if has_broker && value_at broker_label pod.labels == "enabled"
      then prepare_broker pod whs.broker_sidecar
      else ([], err (message "no sidecar config found according to injection labels"))

  pub record SidecarPatch : Type 0 where
    pub init_containers : List (PatchOperation Container)
    pub containers : List (PatchOperation Container)
    pub volumes : List (PatchOperation Volume)
    pub annotations : List (PatchOperation String)

  unfoldable pub create_sidecar_patch :
      WebhookServer → Pod → List (String × String) → Prepared SidecarPatch
  create_sidecar_patch whs pod anno =
      let (cms, r) = prepare_sidecar_configuration whs pod in
      (
        cms,
        r >>= λ cfg. ok (record {
          init_containers =
              add_container pod.init_containers cfg.init_containers "/spec/initContainers";
          containers = add_container pod.containers cfg.containers "/spec/containers";
          volumes = add_volume pod.volumes cfg.volumes "/spec/volumes";
          annotations = update_annotation pod.annotations anno;
        }),
      )

  -- `AdmissionResponse`: the request is admitted, with a patch or with none, or it is refused.
  pub data AdmissionResponse : Type 0 where
    allowed : AdmissionResponse
    patched : SidecarPatch → AdmissionResponse
    refused : WebhookError → AdmissionResponse
    crashed : AdmissionResponse

  response : Outcome WebhookError SidecarPatch → AdmissionResponse
  response (ok p) = patched p
  response (err e) = refused e
  response panic = crashed

  with_namespace : String → Pod → Pod
  with_namespace namespace pod =
      if pod.namespace == "" then record pod { namespace = namespace } else pod

  -- The pod of a request that could be decoded, and the namespace of the request.
  unfoldable pub mutate : WebhookServer → String → Pod → List ConfigMap × AdmissionResponse
  unfolding response with_namespace
  mutate whs namespace raw =
      let pod = with_namespace namespace raw in
      if mutation_required ignored_namespaces pod
      then (let (cms, r) = create_sidecar_patch whs pod ((status_key, "injected") ∷ []) in
          (cms, response r))
      else ([], allowed)
