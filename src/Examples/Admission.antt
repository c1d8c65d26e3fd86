-- ===== src/Examples/Admission.antt =====
-- Runs of the webhook, the sidecars and the queries.
use edge_q.Prelude.{
  ℕ, ◌-◌, ◌^◌, ◌≡◌, refl, inl, String, true, false, not, Option, none, some, List, [], ◌∷◌, ◌==◌,
  eq_iff, arith, take, drop, ◌&&◌, if◌then◌else◌,
}
use edge_q.Prelude.Int.{ℤ, pos, negsuc}
use edge_q.Outcome.{ok, err, panic}
use edge_q.Maps.{lookup, Map, has_key}
use edge_q.K8s.{
  value_at, ApiError, not_found, Pod, Container, Volume, OwnerReference, EdgeQosProxyConfig,
  EdgeQosBrokerConfig, InferModelServiceSpec, NamespacedName, ServiceGroupItem,
}
use edge_q.Config.{ServiceGroup}
use edge_q.Sidecar.{SidecarConfig, get_proxy_sidecar_config}
use edge_q.Webhook.Meta.{get_deploy_meta_from_pod, deployment_found}
use edge_q.Webhook.Patch.{
  add_container, add_volume, escape_json_pointer_value, member, apply_all, unescape,
  add_container_appends, unescape-escape,
}
use edge_q.Webhook.Inject.{
  generate_proxy_cm, proxy_target, label_or, from_api, parse_model_server_addr, get_node_address,
  address_of, ensure_config_map, Cluster,
}
use edge_q.Webhook.Mutate.{prepare_sidecar_configuration, prepare_proxy, allowed, mutate}
use edge_q.Webhook.Mutate.Labels.{Injects, prepare_sidecar_configuration-Injects}
use edge_q.Webhook.Mutate.Policy.{mutate_skips}
use edge_q.Query.{paginate, new_pagination, parse_query_parameter}
use edge_q.Query.Page.{paginate-page, page_overflows}
use edge_q.Query.Select.{Texts, ObjectMeta}

abbrev container : Container
container = record { name = "init"; command = []; args = []; env = []; ports = []; rest = 0 }

abbrev sidecar : SidecarConfig
sidecar = record {
  init_containers = container ∷ [];
  containers = container ∷ [];
  volumes = record { name = "broker-config"; config_map = some "base"; rest = 0 } ∷ [];
}

abbrev itoa : ℤ → String
itoa n = "80"

abbrev pub owner : OwnerReference
owner = record {
  api_version = "apps/v1";
  kind = "ReplicaSet";
  name = "web-5d";
  controller = some true;
}

abbrev pub pod : Pod
pod = record {
  name = "web-5d-x";
  namespace = "kube-system";
  generate_name = "web-5d-";
  labels = ("pod-template-hash", "5d") ∷ ("client.edge-qos.edgewize.io/servicegroup", "gold") ∷ [];
  annotations = none;
  owner_references = owner ∷ [];
  init_containers = [];
  containers = container ∷ [];
  volumes = [];
}

deployment_found_example :
    (get_deploy_meta_from_pod (λ s. none) pod).0
    ≡ record { name = "web"; namespace = "kube-system" }
unfolding edge_q.Webhook.Meta.controller_of edge_q.K8s.value_at edge_q.Maps.lookup
deployment_found_example =
    deployment_found (λ s. none) pod owner "web" "5d"
      (λ e. absurd (ground (arith, eq_iff "web-5d-" ""))) refl refl refl
      (λ e. absurd (ground (arith, eq_iff "5d" ""))) (λ e. absurd (ground (arith, eq_iff "web" "")))
      refl

abbrev two_numbers : List ℕ
two_numbers = 1 ∷ 2 ∷ []

abbrev three_numbers : List ℕ
three_numbers = 1 ∷ 2 ∷ 3 ∷ []

abbrev volume_of : String → Volume
volume_of name = record { name = name; config_map = none; rest = 0 }

add_container_appends_example :
    (apply_all "/spec" (add_container [] sidecar.containers "/spec") (member [])
      ≡ some (member sidecar.containers))
    × (apply_all "/spec"
          (add_volume (volume_of "a" ∷ []) (volume_of "b" ∷ volume_of "c" ∷ []) "/spec")
          (member (volume_of "a" ∷ []))
        ≡ some (member (volume_of "a" ∷ volume_of "b" ∷ volume_of "c" ∷ [])))
add_container_appends_example =
    add_container_appends "/spec" [] sidecar.containers (volume_of "a" ∷ [])
      (volume_of "b" ∷ volume_of "c" ∷ [])

unescape-escape_example : unescape (escape_json_pointer_value "a/b~c") ≡ some "a/b~c"
unescape-escape_example = unescape-escape "a/b~c"

abbrev cluster : Cluster
cluster = record {
  get_infer_model_service = λ a b. err not_found;
  get_deployment = λ a b. err not_found;
  get_node = λ a. err not_found;
  get_config_map = λ a b. err not_found;
  create_config_map = λ a. ok tt;
  marshal_proxy = λ a. ok "";
  marshal_broker = λ a. ok "";
  itoa = itoa;
  to_lower = λ s. s;
  cron_job = λ s. none;
}

mutate_skips_example :
    mutate cluster (record { proxy_sidecar = none; broker_sidecar = some sidecar }) "default" pod
    ≡ ([], allowed)
mutate_skips_example =
    mutate_skips cluster (record { proxy_sidecar = none; broker_sidecar = some sidecar }) "default"
      pod (λ e. absurd (ground (arith, eq_iff "kube-system" ""))) (inl refl)

paginate-page_example :
    paginate (some (new_pagination (pos 2) (pos 2))) three_numbers
    ≡ ok (take 2 (drop 2 three_numbers))
paginate-page_example = paginate-page 2 2 three_numbers (omega arith)

abbrev read_number : String → Option ℤ
read_number s = if s == "limit" then some (pos (2 ^ 63 - 1)) else some (negsuc 0)

page_overflows_example :
    paginate (parse_query_parameter read_number (λ s. none) (λ s. s) []).pagination two_numbers
    ≡ panic
page_overflows_example =
    page_overflows read_number (λ s. none) (λ s. s) [] two_numbers refl refl (omega arith)

abbrev texts : Texts
texts = record {
  split = λ s. s ∷ [];
  contains_text = λ s t. s == t;
  label_match = λ m s. true;
  is_greater = λ a b. a == "b" && not (b == "b");
  is_after = λ a b. false;
}

abbrev object : String → ObjectMeta
object name = record { name = name; namespace = "ns"; labels = []; created = "now" }

abbrev group : ServiceGroup
group = record { name = "default"; reclaimable = false; weight = pos 1 }

abbrev pub proxy : EdgeQosProxyConfig
proxy = record { proxy = 0; service_group = group; base_options = 0 }

abbrev pub broker : EdgeQosBrokerConfig
broker = record {
  broker = 0;
  schedule = 0;
  queue = 0;
  service_groups = group ∷ [];
  prom_metrics = 0;
  base_options = 0;
}

-- A server on a node, whose configuration map is there already, and a client of it.
abbrev serving : Cluster
serving = record cluster {
  get_infer_model_service =
      λ a b. ok (record { broker_config = broker; proxy_config = proxy; host_port = pos 80 });
  get_deployment = λ a b. ok (("kubernetes.io/hostname", "edge") ∷ []);
  get_node =
      λ a. ok (record { labels = ("kubeedge.io/internal-ip", "10.0.0.1") ∷ []; addresses = [] });
  get_config_map = λ a b. ok tt;
}

abbrev client_pod : Pod
client_pod = record pod {
  labels =
      ("proxy.edge-qos.edgewize.io/injection", "enabled")
      ∷ ("server.edge-qos.edgewize.io/name", "m")
      ∷ ("server.edge-qos.edgewize.io/namespace", "ns")
      ∷ [];
}

prepare_sidecar_configuration-Injects_example : Injects client_pod
unfolding prepare_sidecar_configuration prepare_proxy generate_proxy_cm proxy_target label_or
    from_api parse_model_server_addr get_node_address address_of ensure_config_map value_at lookup
prepare_sidecar_configuration-Injects_example =
    prepare_sidecar_configuration-Injects serving
      (record { proxy_sidecar = some sidecar; broker_sidecar = none }) client_pod
      (get_proxy_sidecar_config itoa "m-proxy" "10.0.0.1" (pos 80) sidecar) refl
