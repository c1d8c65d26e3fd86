-- ===== src/Apps.antt =====
-- pkg/models/apps/deploy.go: the state of the workloads of a deployment, its deletion, and the
-- resource templates of a node's devices.
pub mod Counts
pub mod Orphans
pub mod Listing
pub mod Nodes
pub mod Latest
use Prim.Native.String.{◌++◌ as cat}
use edge_q.Prelude.{
  ℕ, zero, suc, ◌+◌, String, Bool, true, false, not, ◌&&◌, Option, none, some, List, [], ◌∷◌, ◌++◌,
  map, ◌==◌, ltb, is_some, if◌then◌else◌,
}
use edge_q.Prelude.Int.{ℤ}
use edge_q.Outcome.{Outcome, ok, err, panic}
use edge_q.Maps.{Map, lookup, has_key}
use edge_q.K8s.{ApiError}
use edge_q.Deployment.{InferModelDeployment, ModelNodeSelector}

pub data ConditionType : Type 0 where
  available replica_failure other_type : ConditionType

pub record Condition : Type 0 where
  pub type : ConditionType
  pub is_true : Bool

pub data WorkloadStatus : Type 0 where
  processing succeeded failed : WorkloadStatus

pub record WorkloadStats : Type 0 where
  pub failed : ℕ
  pub succeeded : ℕ
  pub processing : ℕ

-- The last condition that is true decides.
unfoldable pub status_of : WorkloadStatus → List Condition → WorkloadStatus
status_of status [] = status
status_of status (c ∷ conditions) = elim c.type [
  | available ↦ status_of (if c.is_true then succeeded else status) conditions
  | replica_failure ↦ status_of (if c.is_true then failed else status) conditions
  | other_type ↦ status_of status conditions
]

unfoldable pub counted : WorkloadStatus → WorkloadStats → WorkloadStats
counted failed s = record s { failed = suc s.failed }
counted succeeded s = record s { succeeded = suc s.succeeded }
counted processing s = record s { processing = suc s.processing }

-- The loop over the deployments, each by its conditions.
unfoldable pub count_workloads : WorkloadStats → List (List Condition) → WorkloadStats
count_workloads stats [] = stats
count_workloads stats (conditions ∷ workloads) =
    count_workloads (counted (status_of processing conditions) stats) workloads

unfoldable pub get_deploy_with_workload_status :
    Outcome ApiError (List (List Condition))
    → Outcome ApiError (WorkloadStats × List (List Condition))
get_deploy_with_workload_status (err e) = err e
get_deploy_with_workload_status panic = panic
get_deploy_with_workload_status (ok workloads) =
    ok (count_workloads (record { failed = 0; succeeded = 0; processing = 0 }) workloads, workloads)

pub data Deletion : Type 0 where
  delete_instance : String → Deletion
  -- all deployments of a namespace that have the label of the instance
  delete_workloads_in : String → Deletion

module _ (delete : Deletion → Outcome ApiError (Unit {0})) where
  unfoldable pub delete_workloads :
      List ModelNodeSelector → List Deletion × Outcome ApiError (Unit {0})
  delete_workloads [] = ([], ok tt)
  delete_workloads (selector ∷ selectors) =
      let d = delete_workloads_in selector.project in
      let rest = delete_workloads selectors in
      elim (delete d) [
        | err e ↦ (d ∷ [], err e)
        | panic ↦ (d ∷ [], panic)
        | ok u ↦ (d ∷ rest.0, rest.1)
      ]

  unfoldable pub delete_infer_model_deployment :
      Outcome ApiError InferModelDeployment → Bool → List Deletion × Outcome ApiError (Unit {0})
  delete_infer_model_deployment (err e) with_workloads = ([], err e)
  delete_infer_model_deployment panic with_workloads = ([], panic)
  delete_infer_model_deployment (ok item) with_workloads =
      let d = delete_instance item.name in
      let rest = delete_workloads item.node_selectors in
      elim (delete d) [
        | err e ↦ (d ∷ [], err e)
        | panic ↦ (d ∷ [], panic)
        | ok u ↦ if with_workloads then (d ∷ rest.0, rest.1) else (d ∷ [], ok tt)
      ]

-- The type and the model of the device on a node.
unfoldable pub get_dev_type_on_node : Map String → String × String
get_dev_type_on_node labels = elim (lookup "accelerator" labels) [
  | some npu ↦ ("NPU", npu)
  | none ↦ elim (lookup "nvidia" labels) [ some gpu ↦ ("GPU", gpu) | none ↦ ("COMMON", "") ]
]

unfoldable pub is_virtualized : Map String → Bool
is_virtualized labels = has_key "aicp.group/aipods_type" labels

pub record TemplateDetail : Type 0 where
  pub description : String
  pub resource_request : Map ℕ

pub record TemplateItem : Type 0 where
  pub resource_name : String
  pub description : String
  pub resource_request : Map ℕ

pub record DevResourceTemplate : Type 0 where
  pub virtualized : Option (Map (List TemplateDetail))
  pub physical : Option (Map (List TemplateDetail))

pub record ResourceTemplateConfig : Type 0 where
  pub npu : DevResourceTemplate
  pub gpu : DevResourceTemplate

-- What the templates need of the libraries, and of the API server: the text of a resource's capacity
-- on a node.
pub record Devices : Type 0 where
  pub to_lower : String → String
  pub contains_text : String → String → Bool
  -- `strings.TrimPrefix` where the text has the prefix
  pub without_prefix : String → String → Option String
  pub itoa : ℕ → String
  pub atoi : String → Option ℕ
  pub get_capacity : String → Outcome ApiError (Map String)

module _ (d : Devices) where
  unfoldable pub get_resource_name : String → String
  get_resource_name device =
      if device == "huawei-Ascend310"
      then "huawei.com/Ascend310"
      else if device == "huawei-Ascend310P"
      then "huawei.com/Ascend310P"
      else if d.contains_text (d.to_lower device) "nvidia"
      then "nvidia.com/gpu"
      else ""

  hardware : String → String
  hardware dev_model = elim (d.without_prefix dev_model "huawei-") [
    | none ↦ "nvidia"
    | some dev ↦ dev
  ]

  unfoldable pub get_physical_desc : String → ℕ → String
  unfolding hardware
  get_physical_desc dev_model count =
      cat (d.itoa count) (cat " Chip (" (cat (hardware dev_model) ")"))

  unfoldable pub add_hardware_info : String → List TemplateDetail → List TemplateDetail
  unfolding hardware
  add_hardware_info dev_model details =
      map
        (λ (item : TemplateDetail). record item {
          description = cat item.description (cat " (" (cat (hardware dev_model) ")"));
        })
        details

  -- The entries for i + 1 chips and more, n of them.
  unfoldable pub entries_from : String → String → ℕ → ℕ → List TemplateDetail
  entries_from dev_model resource i zero = []
  entries_from dev_model resource i (suc n) =
      record {
        description = get_physical_desc dev_model (suc i);
        resource_request = (resource, suc i) ∷ [];
      }
      ∷ entries_from dev_model resource (suc i) n

  unfoldable pub get_physical_template_entries : String → String → Option (List TemplateDetail)
  get_physical_template_entries node_name dev_model = elim (d.get_capacity node_name) [
    | err e ↦ none
    | panic ↦ none
    | ok capacity ↦
        if get_resource_name dev_model == ""
        then none
        else elim (lookup (get_resource_name dev_model) capacity) [
          | none ↦ none
          | some chips ↦ elim (d.atoi chips) [
            | none ↦ none
            | some max_chip_count ↦
                some (entries_from dev_model (get_resource_name dev_model) 0 max_chip_count)
          ]
        ]
  ]

  numbered : ℕ → List TemplateDetail → List TemplateItem
  numbered index [] = []
  numbered index (t ∷ details) =
      record {
        resource_name = cat "template-" (d.itoa index);
        description = t.description;
        resource_request = t.resource_request;
      }
      ∷ numbered (suc index) details

  -- The details for a device; none where the source returns no item.
  details_of : DevResourceTemplate → String → Bool → String → Option (List TemplateDetail)
  details_of template dev_model virtualized node_name =
      if virtualized
      then (elim template.virtualized [
        | none ↦ none
        | some m ↦ elim (lookup dev_model m) [
          | none ↦ none
          | some details ↦ some (add_hardware_info dev_model details)
        ]
      ])
      else elim template.physical [
        | none ↦ get_physical_template_entries node_name dev_model
        | some m ↦ elim (lookup dev_model m) [
          | none ↦ get_physical_template_entries node_name dev_model
          | some details ↦ some details
        ]
      ]

  unfoldable pub parse_dev_res_template :
      ResourceTemplateConfig → String → String → Bool → String → List TemplateItem
  unfolding numbered details_of
  parse_dev_res_template config dev_type dev_model virtualized node_name =
      let found : Option (List TemplateDetail) =
        if dev_type == "NPU"
        then details_of config.npu dev_model virtualized node_name
        else if dev_type == "GPU"
        then details_of config.gpu dev_model virtualized node_name
        else none in
      elim found [ none ↦ [] | some details ↦ numbered 0 details ]
