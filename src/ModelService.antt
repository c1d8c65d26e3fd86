-- ===== src/ModelService.antt =====
-- pkg/controllers/imservice/imservice_controller.go: the service groups in the status of an infer
-- model service. What the API server answers is an argument.
pub mod Groups
use edge_q.Prelude.{
  String, Bool, true, false, not, ◌&&◌, ◌||◌, Option, none, some, List, [], ◌∷◌, ◌++◌, ◌==◌,
  is_some, if◌then◌else◌,
}
use edge_q.Outcome.{Outcome, ok, err, panic}
use edge_q.Maps.{Map, lookup, insert, has_key}
use edge_q.Config.{ServiceGroup}
use edge_q.K8s.{ApiError, is_not_found, NamespacedName, Pod, ServiceGroupItem, EdgeQosBrokerConfig}
use edge_q.Utils.{has_string, remove_string}
use edge_q.Webhook.Meta.{controller_of}

pub record InferModelService : Type 0 where
  pub name : String
  pub namespace : String
  pub deleted : Bool
  pub finalizers : List String
  pub broker_config : EdgeQosBrokerConfig
  pub service_groups : Map ServiceGroupItem

pub data Write : Type 0 where
  patch_finalizers : List String → Write
  update_status : Map ServiceGroupItem → Write

pub record Api : Type 0 where
  pub get_instance : Outcome ApiError InferModelService
  -- the pods with the proxy label, and the name and the namespace of the service
  pub list_pods : String → String → Outcome ApiError (List Pod)
  pub get_deployment : NamespacedName → Outcome ApiError (Map String)
  pub write : Write → Outcome ApiError (Unit {0})
  -- `reflect.DeepEqual` on two maps of groups
  pub deep_equal : Map ServiceGroupItem → Map ServiceGroupItem → Bool

abbrev pub Wrote : Type 0
Wrote = List Write × Outcome ApiError (Unit {0})

abbrev pub group_label : String
group_label = "client.edge-qos.edgewize.io/servicegroup"

abbrev pub finalizer : String
finalizer = "imService.finalizer.apps.edgewize.io"

-- `GetPodOwnerRefName` of pkg/utils/common.go.
unfoldable pub get_pod_owner_ref_name : Pod → String
get_pod_owner_ref_name pod = elim (controller_of pod.owner_references) [
  | none ↦ pod.name
  | some ref ↦ ref.name
]

unfoldable pub add_groups : List ServiceGroup → Map ServiceGroupItem → Map ServiceGroupItem
add_groups [] m = m
add_groups (group ∷ groups) m =
    add_groups groups
      (insert group.name (record { name = group.name; client = ""; is_used = false }) m)

unfoldable pub get_desire_service_groups : InferModelService → Map ServiceGroupItem
get_desire_service_groups instance = add_groups instance.broker_config.service_groups []

-- One turn of the loop over the pods. A pod without labels has no group.
unfoldable pub mark_pod : Pod → Map ServiceGroupItem → Map ServiceGroupItem
mark_pod pod m = elim (lookup group_label pod.labels) [
  | none ↦ m
  | some client_sg ↦
      let used : ServiceGroupItem = record {
        name = client_sg;
        client = get_pod_owner_ref_name pod;
        is_used = true;
      } in
      if has_key client_sg m then insert client_sg used m else m
]

unfoldable pub mark_used : List Pod → Map ServiceGroupItem → Map ServiceGroupItem
mark_used [] m = m
mark_used (pod ∷ pods) m = mark_used pods (mark_pod pod m)

module _ (api : Api) where
  -- A write, and what follows where it is done.
  after : Write → Wrote → Wrote
  after w next = elim (api.write w) [
    | err e ↦ (w ∷ [], err e)
    | panic ↦ (w ∷ [], panic)
    | ok u ↦ (w ∷ next.0, next.1)
  ]

  unfoldable pub do_reconcile : InferModelService → Wrote
  unfolding after
  do_reconcile instance = elim (api.list_pods instance.name instance.namespace) [
    | err e ↦ ([], err e)
    | panic ↦ ([], panic)
    | ok pods ↦
        let curr : Map ServiceGroupItem = mark_used pods (get_desire_service_groups instance) in
        if api.deep_equal curr instance.service_groups
        then ([], ok tt)
        else after (update_status curr) ([], ok tt)
  ]

  unfoldable pub reconcile : Wrote
  unfolding after
  reconcile = elim api.get_instance [
    | panic ↦ ([], panic)
    | err e ↦ if is_not_found e then ([], ok tt) else ([], err e)
    | ok instance ↦
        if instance.deleted
        then (if has_string instance.finalizers finalizer
            then after (patch_finalizers (remove_string instance.finalizers finalizer)) ([], ok tt)
            else ([], ok tt))
        else if has_string instance.finalizers finalizer
        then do_reconcile instance
        else (let finalizers : List String = instance.finalizers ++ finalizer ∷ [] in
            after (patch_finalizers finalizers)
              (do_reconcile (record instance { finalizers = finalizers })))
  ]

  -- The service that the pods of a deployment call, from the labels of its pod template.
  server_of : Map String → List NamespacedName
  server_of labels = elim (lookup "server.edge-qos.edgewize.io/name" labels) [
    | none ↦ []
    | some name ↦ elim (lookup "server.edge-qos.edgewize.io/namespace" labels) [
      | none ↦ []
      | some namespace ↦ record { name = name; namespace = namespace } ∷ []
    ]
  ]

  -- The services to reconcile after a change of a deployment.
  unfoldable pub report_service_group : NamespacedName → Outcome ApiError (List NamespacedName)
  unfolding server_of
  report_service_group obj = elim (api.get_deployment obj) [
    | err e ↦ ok []
    | panic ↦ panic
    | ok labels ↦ elim (lookup "proxy.edge-qos.edgewize.io/injection" labels) [
      | none ↦ ok []
      | some enabled ↦ if enabled == "enabled" then ok (server_of labels) else ok []
    ]
  ]
