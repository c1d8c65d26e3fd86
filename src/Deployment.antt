-- ===== src/Deployment.antt =====
-- pkg/controllers/imdeployment/imdeployment_controller.go: the objects that the controller of the
-- infer model deployments reads and creates, their names, and the workloads of a deployment.
pub mod Rollout
pub mod Laws
pub mod Listing
pub mod Relisting
pub mod Passes
pub mod Names
use Prim.Native.String.{◌++◌ as cat, count}
use edge_q.Prelude.{
  ℕ, zero, suc, ◌-◌, String, Bool, Option, none, some, List, [], ◌∷◌, ◌++◌, ◌==◌, ltb,
  if◌then◌else◌,
}
use edge_q.Prelude.Int.{ℤ}
use edge_q.Maps.{Map, insert}
use edge_q.K8s.{OwnerReference, EdgeQosProxyConfig, EdgeQosBrokerConfig}
use edge_q.Utils.{merge_labels}

pub record ModelNodeSelector : Type 0 where
  pub project : String
  pub node_group : String
  pub node_name : String
  pub host_port : ℤ

pub record Toleration : Type 0 where
  pub key : String
  pub operator : String
  pub effect : String

-- `PodTemplateSpec`, with what the controller copies as a number.
pub record PodTemplate : Type 0 where
  pub labels : Map String
  pub node_selector : Map String
  pub tolerations : List Toleration
  pub rest : ℕ

pub record InferModelDeployment : Type 0 where
  pub name : String
  pub namespace : String
  pub api_version : String
  pub kind : String
  pub deleted : Bool
  pub finalizers : List String
  pub im_template_name : String
  pub version : String
  pub replicas : ℕ
  pub template : PodTemplate
  pub strategy : ℕ
  pub node_selectors : List ModelNodeSelector

pub record Service : Type 0 where
  pub name : String
  pub namespace : String
  pub labels : Map String
  pub owner : String
  pub proxy_config : EdgeQosProxyConfig
  pub broker_config : EdgeQosBrokerConfig
  pub host_port : ℤ

pub record Workload : Type 0 where
  pub name : String
  pub namespace : String
  pub labels : Map String
  pub replicas : ℕ
  pub template : PodTemplate
  pub strategy : ℕ
  pub match_labels : Map String

abbrev pub label_template : String
label_template = "apps.edgewize.io/imtemplate"

abbrev pub label_version : String
label_version = "apps.edgewize.io/imtemplateversion"

abbrev pub label_deployment : String
label_deployment = "apps.edgewize.io/imdeployment"

abbrev pub label_group : String
label_group = "apps.edgewize.io/nodegroup"

abbrev pub label_node : String
label_node = "apps.edgewize.io/node"

abbrev pub label_workload : String
label_workload = "apps.edgewize.io/workload"

abbrev pub label_creator : String
label_creator = "apps.edgewize.io/creator"

-- `strings.Join(name, "-")`
join : List String → String
join [] = ""
join (s ∷ []) = s
join (s ∷ t ∷ rest) = cat s (cat "-" (join (t ∷ rest)))

-- The first characters of a string.
unfoldable pub first_of : ℕ → String → String
first_of zero s = ""
first_of (suc n) String.[] = ""
first_of (suc n) (String.◌∷◌ c s) = String.◌∷◌ c (first_of n s)

-- `hex.EncodeToString(sha256.Sum256(...))` and `strings.ReplaceAll(..., ".-", "-")` are the
-- functions `digest` and `replace_all`. The names are ASCII: a character is a byte.
module _ (digest replace_all : String → String) where
  unfoldable pub safe_concat_name : List String → String
  unfolding join first_of
  safe_concat_name name =
      let full_path : String = join name in
      if ltb 63 (count full_path)
      then replace_all (cat (cat (first_of 52 full_path) "-") (first_of 10 (digest full_path)))
      else full_path

unfoldable pub unique_name : ModelNodeSelector → String
unique_name item = cat item.node_group (cat "-" item.node_name)

unfoldable pub add_workloads :
    List ModelNodeSelector → Map ModelNodeSelector → Map ModelNodeSelector
add_workloads [] result = result
add_workloads (item ∷ items) result = add_workloads items (insert (unique_name item) item result)

unfoldable pub get_workload_infos : InferModelDeployment → Map ModelNodeSelector
get_workload_infos instance = add_workloads instance.node_selectors []

unfoldable pub custom_tolerations : List Toleration
custom_tolerations =
    record { key = "aicp.group/worker"; operator = "Exists"; effect = "" }
    ∷ record { key = "aicp.group/resource_group"; operator = "Exists"; effect = "" }
    ∷ record { key = "node-role.kubernetes.io/edge"; operator = "Exists"; effect = "NoSchedule" }
    ∷ record { key = "node.kubernetes.io/unreachable"; operator = "Exists"; effect = "" }
    ∷ []

unfoldable pub get_custom_config_to_pod_template : InferModelDeployment → PodTemplate
get_custom_config_to_pod_template im_deploy = record (im_deploy.template) {
  tolerations = custom_tolerations ++ im_deploy.template.tolerations;
}

-- The labels of the template are those of the map that the caller passes: every workload writes the
-- same keys, so that none is left over from the workload before.
unfoldable pub inject_additional_labels :
    InferModelDeployment → ModelNodeSelector → Workload → Workload
unfolding merge_labels
inject_additional_labels instance info deploy =
    let added : Map String =
      ("app", deploy.name)
      ∷ (label_group, info.node_group)
      ∷ (label_node, info.node_name)
      ∷ (label_template, instance.im_template_name)
      ∷ (label_version, instance.version)
      ∷ (label_deployment, instance.name)
      ∷ ("broker.edge-qos.edgewize.io/injection", "enabled")
      ∷ [] in
    record deploy {
      template = record (deploy.template) { labels = merge_labels added deploy.template.labels };
    }
