-- ===== src/Webhook/Inject.antt =====
-- internal/controller/webhook.go: whether a pod is to be changed, and the change. The API server is
-- an argument: what it answers to each read and to each creation of a configuration map. The maps
-- that a call asks it to create come back beside the result.
use Prim.Native.String.{◌++◌ as cat}
use edge_q.Prelude.{
  String, Bool, true, false, Option, none, some, List, [], ◌∷◌, ◌==◌, if◌then◌else◌,
}
use edge_q.Prelude.Int.{ℤ, pos, eqb_ℤ}
use edge_q.Outcome.{Outcome, ok, err, panic, ◌>>=◌}
use edge_q.Maps.{Map, lookup}
use edge_q.Config.{default_service_group}
use edge_q.K8s.{
  ApiError, is_not_found, is_already_exists, NamespacedName, Pod, value_at, EdgeQosProxyConfig,
  EdgeQosBrokerConfig, InferModelServiceSpec,
}
use edge_q.Utils.{get_target_container_port}
use edge_q.Webhook.Meta.{get_deploy_meta_from_pod, controller_of}

pub data WebhookError : Type 0 where
  api : ApiError → WebhookError
  message : String → WebhookError

pub record Node : Type 0 where
  pub labels : Map String
  pub addresses : List (String × String)

pub record ConfigMap : Type 0 where
  pub name : String
  pub namespace : String
  pub file : String
  pub content : String
  pub owner : Option String

-- The answers of the API server, and the functions of libraries that the webhook calls.
pub record Cluster : Type 0 where
  pub get_infer_model_service : String → String → Outcome ApiError InferModelServiceSpec
  pub get_deployment : String → String → Outcome ApiError (Map String)
  pub get_node : String → Outcome ApiError Node
  pub get_config_map : String → String → Outcome ApiError (Unit {0})
  pub create_config_map : ConfigMap → Outcome ApiError (Unit {0})
  pub marshal_proxy : EdgeQosProxyConfig → Outcome WebhookError String
  pub marshal_broker : EdgeQosBrokerConfig → Outcome WebhookError String
  pub itoa : ℤ → String
  pub to_lower : String → String
  pub cron_job : String → Option String

unfoldable pub from_api {ℓ} : {A : Type ℓ} → Outcome ApiError A → Outcome WebhookError A
from_api (ok a) = ok a
from_api (err e) = err (api e)
from_api panic = panic

abbrev pub has_none {ℓ} : {A : Type ℓ} → List A → Bool
has_none [] = true
has_none (x ∷ xs) = false

module _ (k : Cluster) where
  unfoldable pub internal_ip : List (String × String) → Option String
  internal_ip [] = none
  internal_ip ((type, address) ∷ addresses) =
      if type == "InternalIP" then some address else internal_ip addresses

  unfoldable pub address_of : Node → Outcome WebhookError String
  unfolding internal_ip
  address_of node = elim (lookup "kubeedge.io/internal-ip" node.labels) [
    | some address ↦ ok address
    | none ↦
        if has_none node.addresses
        then err (message "addresses are empty")
        else elim (internal_ip node.addresses) [
          | some address ↦ ok address
          | none ↦ err (message "internal ip not found")
        ]
  ]

  unfoldable pub get_node_address : String → Outcome WebhookError String
  unfolding address_of from_api
  get_node_address node_name = from_api (k.get_node node_name) >>= address_of

  unfoldable pub parse_model_server_addr : String → String → Outcome WebhookError String
  unfolding from_api
  parse_model_server_addr deploy_name namespace =
      from_api (k.get_deployment namespace deploy_name) >>= λ node_selector.
      if has_none node_selector
      then err (message "broker nodeSelector is empty")
      else elim (lookup "kubernetes.io/hostname" node_selector) [
        | none ↦ err (message "broker node not specified")
        | some node_name ↦ get_node_address node_name
      ]

  -- The value of a label that is there and is not empty.
  unfoldable pub label_or : String → Pod → String → Outcome WebhookError String
  label_or key pod complaint =
      if value_at key pod.labels == ""
      then err (message complaint)
      else ok (value_at key pod.labels)

  unfoldable pub created : Outcome ApiError (Unit {0}) → Outcome WebhookError (Unit {0})
  created (ok u) = ok u
  created (err e) = if is_already_exists e then ok tt else err (api e)
  created panic = panic

  -- The map is created only where it is not found.
  unfoldable pub ensure_config_map :
      String
      → String
      → Outcome WebhookError ConfigMap
      → List ConfigMap × Outcome WebhookError (Unit {0})
  unfolding created
  ensure_config_map namespace name content = elim (k.get_config_map namespace name) [
    | ok u ↦ ([], ok tt)
    | panic ↦ ([], panic)
    | err e ↦
        if is_not_found e
        then (elim content [
          | ok cm ↦ (cm ∷ [], created (k.create_config_map cm))
          | err x ↦ ([], err x)
          | panic ↦ ([], panic)
        ])
        else ([], err (api e))
  ]

  pub record ProxyTarget : Type 0 where
    pub ims_name : String
    pub ims_ns : String
    pub spec : InferModelServiceSpec
    pub server_addr : String
    pub app_service_group : String
    -- `proxyConfig` of the source, a copy that nothing reads
    pub proxy_config : EdgeQosProxyConfig

  unfoldable pub proxy_target : Pod → Outcome WebhookError ProxyTarget
  unfolding label_or from_api
  proxy_target pod =
      label_or "server.edge-qos.edgewize.io/name" pod "server deploy name is missing"
      >>= λ ims_name.
          label_or "server.edge-qos.edgewize.io/namespace" pod "server deploy namespace is missing"
          >>= λ ims_ns. from_api (k.get_infer_model_service ims_ns ims_name) >>= λ spec.
              parse_model_server_addr ims_name ims_ns >>= λ server_addr.
              let app : String = value_at "client.edge-qos.edgewize.io/servicegroup" pod.labels in
              let group : String = if app == "" then default_service_group else app in
              ok (record {
                ims_name = ims_name;
                ims_ns = ims_ns;
                spec = spec;
                server_addr = server_addr;
                app_service_group = group;
                proxy_config = record (spec.proxy_config) {
                  service_group = record { name = group; reclaimable = false; weight = pos 0 };
                };
              })

  unfoldable pub proxy_map : Pod → String → ProxyTarget → Outcome WebhookError ConfigMap
  proxy_map pod proxy_cm t = k.marshal_proxy t.spec.proxy_config >>= λ content. ok (record {
    name = proxy_cm;
    namespace = pod.namespace;
    file = "edge-qos-proxy.yaml";
    content = content;
    owner = elim (controller_of pod.owner_references) [ none ↦ none | some ref ↦ some ref.name ];
  })

  -- The name of the map, the address and the port of the server.
  unfoldable pub generate_proxy_cm :
      Pod → List ConfigMap × Outcome WebhookError (String × String × ℤ)
  unfolding proxy_map ensure_config_map
  generate_proxy_cm pod = elim (proxy_target pod) [
    | err e ↦ ([], err e)
    | panic ↦ ([], panic)
    | ok t ↦
        let proxy_cm : String = cat t.ims_name "-proxy" in
        let (cms, done) = ensure_config_map pod.namespace proxy_cm (proxy_map pod proxy_cm t) in
        (cms, done >>= λ _. ok (proxy_cm, t.server_addr, t.spec.host_port))
  ]

  broker_port : Pod → NamespacedName → Outcome WebhookError (InferModelServiceSpec × ℤ)
  unfolding from_api
  broker_port pod deploy =
      if deploy.name == ""
      then err (message "deployment name is empty")
      else (from_api (k.get_infer_model_service deploy.namespace deploy.name) >>= λ spec.
          let port : ℤ = get_target_container_port pod spec.host_port in
          if eqb_ℤ port (pos 0) then err (message "container port is empty") else ok (spec, port))

  broker_map : NamespacedName → String → InferModelServiceSpec → Outcome WebhookError ConfigMap
  unfolding from_api
  broker_map deploy broker_cm spec =
      from_api (k.get_deployment deploy.namespace deploy.name) >>= λ _.
      k.marshal_broker spec.broker_config >>= λ content. ok (record {
        name = broker_cm;
        namespace = deploy.namespace;
        file = "edge-qos-broker.yaml";
        content = content;
        owner = some deploy.name;
      })

  unfoldable pub generate_broker_cm : Pod → List ConfigMap × Outcome WebhookError (String × ℤ)
  unfolding broker_port broker_map ensure_config_map
  generate_broker_cm pod =
      let deploy = (get_deploy_meta_from_pod k.cron_job pod).0 in
      elim (broker_port pod deploy) [
        | err e ↦ ([], err e)
        | panic ↦ ([], panic)
        | ok (spec, port) ↦
            let broker_cm : String = cat deploy.name "-broker" in
            let (cms, done) =
              ensure_config_map deploy.namespace broker_cm (broker_map deploy broker_cm spec) in
            (cms, done >>= λ _. ok (broker_cm, port))
      ]
