-- ===== src/Kapis.antt =====
-- pkg/kapis/apps/v1alpha1/handler.go and pkg/api/utils.go: the handlers of the REST API, which read a
-- request, call the models of pkg/models/apps, and write the result or the error.
pub mod Lists
use edge_q.Prelude.{ℕ, String, Bool, false, Option, none, some, List, [], ◌∷◌}
use edge_q.Prelude.Int.{ℤ}
use edge_q.Outcome.{Outcome, ok, err, panic}
use edge_q.K8s.{ApiError}
use edge_q.Query.{Query, parse_query_parameter}
use edge_q.Query.Select.{Texts}
use edge_q.Apps.{Devices, Deletion, delete_infer_model_deployment}
use edge_q.Apps.Listing.{
  ListResult, SortSlice, TemplateVersion, FilledTemplate, TemplateCache, get_infer_model_template,
  list_infer_model_template,
}
use edge_q.Apps.Nodes.{
  FilledDeployment, DeployCache, get_infer_model_deployment, list_infer_model_deployments,
  NodeCache, NodeSpecifications, list_node_specifications, ServerCache, InferModelServer,
  list_running_infer_model_servers,
}

-- How an error carries its status code, if it does.
pub data ErrorKind : Type 0 where
  api_status service_error : ℕ → ErrorKind
  plain : ErrorKind

pub data Reply (A : Type 0) : Type 0 where
  entity : A → Reply A
  http_error : ℕ → String → Reply A
  crashed : Reply A

-- `param` and `path` are QueryParameter and PathParameter, and `url` the query of the URL.
pub record Request : Type 0 where
  pub param : String → String
  pub path : String → String
  pub url : List (String × List String)

-- The parses of strconv, the kind and the sanitized text of an error, the texts of the queries.
pub record Rest : Type 0 where
  pub atoi : String → Option ℤ
  pub parse_bool : String → Option Bool
  pub kind_of : ApiError → ErrorKind
  pub text_of : ApiError → String
  pub texts : Texts

module _ (rest : Rest) where
  abbrev pub status_code : ErrorKind → ℕ
  status_code (api_status code) = code
  status_code (service_error code) = code
  status_code plain = 500

  unfoldable pub handle_error : {A : Type 0} → ApiError → Reply A
  handle_error e = http_error (status_code (rest.kind_of e)) (rest.text_of e)

  abbrev pub reply : {A : Type 0} → Outcome ApiError A → Reply A
  reply (ok result) = entity result
  reply (err e) = handle_error e
  reply panic = crashed

  abbrev pub query_of : Request → Query
  query_of req = parse_query_parameter rest.atoi rest.parse_bool req.param req.url

  module _ (templates : TemplateCache) (sort_versions : SortSlice TemplateVersion)
      (sort_templates : SortSlice FilledTemplate) where
    unfoldable pub handle_list_workspace_infer_model_templates :
        Request → Reply (ListResult FilledTemplate)
    handle_list_workspace_infer_model_templates req = reply (
        list_infer_model_template templates sort_versions rest.texts sort_templates
          (req.path "workspace") (query_of req))

    unfoldable pub handle_get_workspace_infer_model_template : Request → Reply FilledTemplate
    handle_get_workspace_infer_model_template req =
        reply (
          get_infer_model_template templates sort_versions (req.path "workspace") (req.path "name"))

    unfoldable pub handle_list_infer_model_templates : Request → Reply (ListResult FilledTemplate)
    handle_list_infer_model_templates req = reply (
        list_infer_model_template templates sort_versions rest.texts sort_templates ""
          (query_of req))

    unfoldable pub handle_get_infer_model_template : Request → Reply FilledTemplate
    handle_get_infer_model_template req =
        reply (get_infer_model_template templates sort_versions "" (req.path "name"))

  module _ (deploys : DeployCache) (sort_deploys : SortSlice FilledDeployment)
      (delete : Deletion → Outcome ApiError (Unit {0})) where
    unfoldable pub handle_list_all_infer_model_deployments :
        Request → Reply (ListResult FilledDeployment)
    handle_list_all_infer_model_deployments req =
        reply (list_infer_model_deployments deploys rest.texts sort_deploys "" (query_of req))

    unfoldable pub handle_list_infer_model_deployments :
        Request → Reply (ListResult FilledDeployment)
    handle_list_infer_model_deployments req = reply (
        list_infer_model_deployments deploys rest.texts sort_deploys (req.path "namespace")
          (query_of req))

    unfoldable pub handle_get_infer_model_deployment : Request → Reply FilledDeployment
    handle_get_infer_model_deployment req =
        reply (get_infer_model_deployment deploys (req.path "namespace") (req.path "name"))

    -- A text that is no truth value counts as false.
    abbrev pub truth_of : Option Bool → Bool
    truth_of none = false
    truth_of (some b) = b

    unfoldable pub handle_delete_infer_model_deployment : Request → List Deletion × Reply (Unit {0})
    handle_delete_infer_model_deployment req =
        let delete_workloads : Bool = truth_of (rest.parse_bool (req.param "delete_workloads")) in
        let (deletions, result) =
          delete_infer_model_deployment delete
            (deploys.get (req.path "namespace") (req.path "name")) delete_workloads in
        (deletions, reply result)

  unfoldable pub handle_get_specifications :
      Devices → NodeCache → Request → Reply NodeSpecifications
  handle_get_specifications d nodes req = reply (list_node_specifications d nodes (req.path "node"))

  unfoldable pub handle_get_deployed_infer_model_server :
      ServerCache → Request → Reply (List InferModelServer)
  handle_get_deployed_infer_model_server servers req =
      reply (list_running_infer_model_servers servers (req.param "node_group"))
