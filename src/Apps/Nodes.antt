-- ===== src/Apps/Nodes.antt =====
-- pkg/models/apps/deploy.go: the calls that get and list deployments, the specifications of a node and
-- the servers that run in a group of nodes. The cache of the API server is an argument.
use edge_q.Prelude.{String, Bool, none, some, List, [], ◌∷◌, ◌++◌, ◌==◌, if◌then◌else◌}
use edge_q.Outcome.{Outcome, ok, ◌>>=◌}
use edge_q.Maps.{Map, lookup}
use edge_q.K8s.{ApiError, NamespacedName, ServiceGroupItem}
use edge_q.Deployment.{InferModelDeployment}
use edge_q.Query.{Query}
use edge_q.Query.Select.{ObjectMeta, Texts}
use edge_q.Apps.{
  WorkloadStats, Condition, get_deploy_with_workload_status, ResourceTemplateConfig, Devices,
  TemplateItem, get_dev_type_on_node, is_virtualized, parse_dev_res_template,
}
use edge_q.Apps.Listing.{ListResult, SortSlice, list_result, each}

-- A deployment with the state of its workloads, each by its conditions.
pub record FilledDeployment : Type 0 where
  pub deployment : InferModelDeployment
  pub stats : WorkloadStats
  pub workloads : List (List Condition)

-- The cache: a deployment by namespace and name, the deployments of a namespace by a selector, and the
-- workloads of a deployment.
pub record DeployCache : Type 0 where
  pub get : String → String → Outcome ApiError InferModelDeployment
  pub list : String → String → Outcome ApiError (List InferModelDeployment)
  pub workloads : String → InferModelDeployment → Outcome ApiError (List (List Condition))
  pub meta : InferModelDeployment → ObjectMeta

module _ (cache : DeployCache) where
  unfoldable pub with_status : String → InferModelDeployment → Outcome ApiError FilledDeployment
  with_status namespace imd =
      get_deploy_with_workload_status (cache.workloads namespace imd) >>= λ status.
      ok (record { deployment = imd; stats = status.0; workloads = status.1 })

  unfoldable pub get_infer_model_deployment : String → String → Outcome ApiError FilledDeployment
  get_infer_model_deployment namespace name = cache.get namespace name >>= with_status namespace

  unfoldable pub list_deployments : String → String → Outcome ApiError (List FilledDeployment)
  list_deployments namespace selector =
      cache.list namespace selector >>= λ items. each (with_status namespace) items

  unfoldable pub list_infer_model_deployments :
      Texts
      → SortSlice FilledDeployment
      → String
      → Query
      → Outcome ApiError (ListResult FilledDeployment)
  list_infer_model_deployments t sort_slice namespace q =
      list_deployments namespace q.label_selector >>= λ items.
      list_result t sort_slice (λ (item : FilledDeployment). cache.meta item.deployment) q items

pub record Node : Type 0 where
  pub name : String
  pub namespace : String
  pub labels : Map String

pub record NodeSpecifications : Type 0 where
  pub type : String
  pub dev_model : String
  pub is_virtual : Bool
  pub resource_templates : List TemplateItem

-- The cache of nodes and configuration maps, and the parse of a map's entry.
pub record NodeCache : Type 0 where
  pub get_node : String → Outcome ApiError Node
  pub get_config_map : NamespacedName → Outcome ApiError (Map String)
  pub unmarshal : String → Outcome ApiError ResourceTemplateConfig

module _ (d : Devices) (cache : NodeCache) where
  -- No templates where the entry is missing.
  unfoldable pub get_specific_dev_res_templates :
      Map String → String → String → Bool → String → Outcome ApiError (List TemplateItem)
  get_specific_dev_res_templates cm dev_type dev_model virtualized node_name =
      elim (lookup "resource-template.yaml" cm) [
        | none ↦ ok []
        | some text ↦ cache.unmarshal text >>= λ config.
            ok (parse_dev_res_template d config dev_type dev_model virtualized node_name)
      ]

  unfoldable pub list_node_specifications : String → Outcome ApiError NodeSpecifications
  list_node_specifications node_name = cache.get_node node_name >>= λ node.
      cache.get_config_map (record { name = node.name; namespace = node.namespace }) >>= λ cm.
      let (dev_type, dev_model) = get_dev_type_on_node node.labels in
      get_specific_dev_res_templates cm dev_type dev_model (is_virtualized node.labels) node_name
      >>= λ items. ok (record {
        type = dev_type;
        dev_model = dev_model;
        is_virtual = is_virtualized node.labels;
        resource_templates = items;
      })

-- A server that runs, with the states of its service groups.
pub record InferModelServer : Type 0 where
  pub key : NamespacedName
  pub service_groups : List ServiceGroupItem

-- The cache: the namespaces, the deployments of a group of nodes in a namespace, and the groups of the
-- infer model service with a name.
pub record ServerCache : Type 0 where
  pub list_namespaces : Outcome ApiError (List String)
  pub list_deployments : String → String → Outcome ApiError (List NamespacedName)
  pub get_service_groups : NamespacedName → Outcome ApiError (List ServiceGroupItem)

module _ (cache : ServerCache) where
  unfoldable pub server_of : NamespacedName → Outcome ApiError InferModelServer
  server_of key =
      cache.get_service_groups key >>= λ groups. ok (record { key = key; service_groups = groups })

  unfoldable pub servers_in : String → List String → Outcome ApiError (List InferModelServer)
  servers_in nodegroup [] = ok []
  servers_in nodegroup (namespace ∷ namespaces) =
      cache.list_deployments namespace nodegroup >>= λ deployments.
      each server_of deployments >>= λ servers.
      servers_in nodegroup namespaces >>= λ rest. ok (servers ++ rest)

  unfoldable pub list_running_infer_model_servers :
      String → Outcome ApiError (List InferModelServer)
  list_running_infer_model_servers nodegroup =
      if nodegroup == ""
      then ok []
      else (cache.list_namespaces >>= λ namespaces. servers_in nodegroup namespaces)
