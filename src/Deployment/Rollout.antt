-- ===== src/Deployment/Rollout.antt =====
-- pkg/controllers/imdeployment/imdeployment_controller.go, `Reconcile` and what it calls. What the API
-- server answers is an argument; what a call asks it to write comes back beside the result, in order.
use edge_q.Prelude.{String, false, none, some, List, [], ◌∷◌, ◌++◌, ◌==◌, map, if◌then◌else◌}
use edge_q.Prelude.Int.{ℤ, int32}
use edge_q.Outcome.{Outcome, ok, err, panic, ◌>>=◌}
use edge_q.Maps.{Map, lookup, insert, has_key}
use edge_q.Config.{ServiceGroup}
use edge_q.K8s.{
  ApiError, other, is_not_found, is_already_exists, value_at, EdgeQosProxyConfig,
  EdgeQosBrokerConfig,
}
use edge_q.Utils.{has_string, remove_string}
use edge_q.Webhook.Inject.{has_none}
use edge_q.Deployment.{
  ModelNodeSelector, InferModelDeployment, Service, Workload, safe_concat_name, get_workload_infos,
  get_custom_config_to_pod_template, inject_additional_labels, label_template, label_version,
  label_deployment, label_group, label_node, label_workload, label_creator,
}

-- A template version, by its service groups and their weights.
abbrev pub Version : Type 0
Version = List (String × ℤ)

-- What the controller asks the API server to write.
pub data Write : Type 0 where
  patch_finalizers : List String → Write
  create_service : Service → Write
  create_deployment : Workload → Write

-- The API server and the libraries. A list of objects is given by their names and labels, and holds
-- those of the namespace that have the label of the deployment.
pub record Api : Type 0 where
  pub get_instance : Outcome ApiError InferModelDeployment
  pub list_versions : String → String → Outcome ApiError (List Version)
  pub list_services : String → String → Outcome ApiError (List (String × Map String))
  pub list_deployments : String → String → Outcome ApiError (List (String × Map String))
  pub current_namespace : Outcome ApiError String
  pub get_config_map : String → String → Outcome ApiError (Map String)
  pub unmarshal_proxy : String → Outcome ApiError EdgeQosProxyConfig
  pub unmarshal_broker : String → Outcome ApiError EdgeQosBrokerConfig
  pub write : Write → Outcome ApiError (Unit {0})
  pub digest : String → String
  pub replace_all : String → String
  -- the order in which a map of workloads is visited
  pub visit : Map ModelNodeSelector → Map ModelNodeSelector

abbrev pub Wrote : Type 0 → Type 0
Wrote A = List Write × Outcome ApiError A

-- The names of the objects that have a workload, by that workload: `svcCache` and `deployCache`.
unfoldable pub cache_of : List (String × Map String) → Map String → Map String
cache_of [] cache = cache
cache_of ((name, labels) ∷ items) cache =
    let workload : String = value_at label_workload labels in
    let next : Map String = if workload == "" then cache else insert workload name cache in
    cache_of items next

-- An object that is there already is not an error.
unfoldable pub tolerated : Outcome ApiError (Unit {0}) → Outcome ApiError (Unit {0})
tolerated (ok u) = ok u
tolerated (err e) = if is_already_exists e then ok tt else err e
tolerated panic = panic

abbrev pub finalizer : String
finalizer = "imdeployment.finalizer.apps.edgewize.io"

module _ (api : Api) where
  -- The loop over the expected workloads: one object for each that the cache does not have.
  unfoldable pub create_missing :
      Map String → (String → ModelNodeSelector → Write) → Map ModelNodeSelector → Wrote (Unit {0})
  unfolding tolerated
  create_missing cache make [] = ([], ok tt)
  create_missing cache make ((workload, info) ∷ expected) =
      let rest : Wrote (Unit {0}) = create_missing cache make expected in
      if has_key workload cache then rest else elim (tolerated (api.write (make workload info))) [
        | ok u ↦ (make workload info ∷ rest.0, rest.1)
        | err e ↦ (make workload info ∷ [], err e)
        | panic ↦ (make workload info ∷ [], panic)
      ]

  -- The text of a configuration map's file.
  unfoldable pub config_content : String → String → String → String → Outcome ApiError String
  config_content cm file no_data no_file = api.current_namespace >>= λ namespace.
      api.get_config_map namespace cm >>= λ data_map.
      if has_none data_map
      then err (other no_data)
      else elim (lookup file data_map) [ none ↦ err (other no_file) | some content ↦ ok content ]

  unfoldable pub load_proxy_cm : Outcome ApiError EdgeQosProxyConfig
  unfolding config_content
  load_proxy_cm =
      config_content "edge-qos-proxy" "edge-qos-proxy.yaml"
        "base proxy configMap edge-qos-proxy data is empty"
        "edge-qos-proxy.yaml is empty in base proxy configmap"
      >>= api.unmarshal_proxy

  to_group : String × ℤ → ServiceGroup
  to_group (name, weight) = record { name = name; reclaimable = false; weight = int32 weight }

  unfoldable pub load_broker_cm : Version → Outcome ApiError EdgeQosBrokerConfig
  unfolding config_content to_group
  load_broker_cm version =
      config_content "edge-qos-broker" "edge-qos-broker.yaml"
        "base broker configMap edge-qos-broker data is empty"
        "edge-qos-broker.yaml is empty in base broker configmap"
      >>= api.unmarshal_broker
      >>= λ conf. ok (record conf { service_groups = map to_group version })

  unfoldable pub new_service :
      InferModelDeployment
      → EdgeQosProxyConfig
      → EdgeQosBrokerConfig
      → String
      → ModelNodeSelector
      → Service
  new_service im_deploy proxy_config broker_config workload info =
      let name : String =
        safe_concat_name api.digest api.replace_all (im_deploy.name ∷ workload ∷ []) in
      record {
        name = name;
        namespace = info.project;
        labels =
            ("app", name)
            ∷ (label_workload, workload)
            ∷ (label_group, info.node_group)
            ∷ (label_node, info.node_name)
            ∷ (label_template, im_deploy.im_template_name)
            ∷ (label_version, im_deploy.version)
            ∷ (label_deployment, im_deploy.name)
            ∷ (label_creator, "edgewize")
            ∷ [];
        owner = im_deploy.name;
        proxy_config = proxy_config;
        broker_config = broker_config;
        host_port = info.host_port;
      }

  unfoldable pub deploy_infer_model_services :
      InferModelDeployment → Map ModelNodeSelector → Wrote (Unit {0})
  deploy_infer_model_services im_deploy expected =
      let prepared : Outcome ApiError (Map String × EdgeQosProxyConfig × EdgeQosBrokerConfig) =
        ◌>>=◌ {B = Map String × EdgeQosProxyConfig × EdgeQosBrokerConfig}
          (api.list_versions im_deploy.im_template_name im_deploy.version)
          (λ versions. elim versions [
            | [] ↦ err (other "imTemplate version not found")
            | version ∷ more ↦ api.list_services im_deploy.namespace im_deploy.name >>= λ services.
                load_proxy_cm >>= λ proxy_config. load_broker_cm version >>= λ broker_config.
                ok (cache_of services [], proxy_config, broker_config)
          ]) in
      elim prepared [
        | err e ↦ ([], err e)
        | panic ↦ ([], panic)
        | ok (cache, proxy_config, broker_config) ↦
            create_missing cache
              (λ w info. create_service (new_service im_deploy proxy_config broker_config w info))
              expected
      ]

  unfoldable pub new_deployment : InferModelDeployment → String → ModelNodeSelector → Workload
  new_deployment im_deploy workload info =
      let name : String =
        safe_concat_name api.digest api.replace_all (im_deploy.name ∷ workload ∷ []) in
      let template = get_custom_config_to_pod_template im_deploy in
      let selected =
        if info.node_name == ""
        then template
        else record template { node_selector = ("kubernetes.io/hostname", info.node_name) ∷ [] } in
      inject_additional_labels im_deploy info (record {
        name = name;
        namespace = im_deploy.namespace;
        labels =
            ("app", name)
            ∷ (label_group, info.node_group)
            ∷ (label_node, info.node_name)
            ∷ (label_template, im_deploy.im_template_name)
            ∷ (label_version, im_deploy.version)
            ∷ (label_deployment, im_deploy.name)
            ∷ (label_creator, "edgewize")
            ∷ [];
        replicas = im_deploy.replicas;
        template = selected;
        strategy = im_deploy.strategy;
        match_labels = ("app", name) ∷ (label_deployment, im_deploy.name) ∷ [];
      })

  unfoldable pub deploy_workload_deployments :
      InferModelDeployment → Map ModelNodeSelector → Wrote (Unit {0})
  deploy_workload_deployments im_deploy expected =
      elim (api.list_deployments im_deploy.namespace im_deploy.name) [
        | err e ↦ ([], err e)
        | panic ↦ ([], panic)
        | ok deployments ↦
            create_missing (cache_of deployments [])
              (λ w info. create_deployment (new_deployment im_deploy w info)) expected
      ]

  unfoldable pub do_reconcile : InferModelDeployment → Wrote (Unit {0})
  do_reconcile instance =
      let expected : Map ModelNodeSelector = api.visit (get_workload_infos instance) in
      let services : Wrote (Unit {0}) = deploy_infer_model_services instance expected in
      elim services.1 [
        | err e ↦ (services.0, err e)
        | panic ↦ (services.0, panic)
        | ok u ↦
            let deployments : Wrote (Unit {0}) = deploy_workload_deployments instance expected in
            (services.0 ++ deployments.0, deployments.1)
      ]

  -- A write, and what follows where it is done.
  unfoldable pub after : Write → Wrote (Unit {0}) → Wrote (Unit {0})
  after w next = elim (api.write w) [
    | err e ↦ (w ∷ [], err e)
    | panic ↦ (w ∷ [], panic)
    | ok u ↦ (w ∷ next.0, next.1)
  ]

  unfoldable pub reconcile : Wrote (Unit {0})
  unfolding after
  reconcile = elim api.get_instance [
    | panic ↦ ([], panic)
    | err e ↦ if is_not_found e then ([], ok tt) else ([], err e)
    | ok instance ↦
        if instance.deleted
        then (if has_string instance.finalizers finalizer
            then after (patch_finalizers (remove_string instance.finalizers finalizer)) ([], ok tt)
            else ([], ok tt))
        else if has_string instance.finalizers finalizer
        then do_reconcile instance
        else (let finalizers : List String = instance.finalizers ++ finalizer ∷ [] in
            after (patch_finalizers finalizers)
              (do_reconcile (record instance { finalizers = finalizers })))
  ]
