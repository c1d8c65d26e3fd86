-- ===== src/Kapis/Lists.antt =====
-- pkg/kapis/apps/v1alpha1/handler.go: what a list request is answered with.
use edge_q.Prelude.{String, ◌≡◌, ◌≢◌, ap, true, Option, List, Member}
use edge_q.Outcome.{Outcome, ok, err, panic}
use edge_q.K8s.{ApiError}
use edge_q.Query.Select.{default_object_meta_filter, selects}
use edge_q.Apps.Listing.{
  ListResult, SortSlice, InferModelTemplate, TemplateVersion, FilledTemplate, TemplateCache,
  workspace_requirement, update_versions,
}
use edge_q.Apps.Latest.{Sorts, list_infer_model_template-Member}
use edge_q.Kapis.{
  Reply, entity, http_error, crashed, Rest, Request, handle_error, reply, query_of,
  handle_list_workspace_infer_model_templates,
}

entity_inj : {A : Type 0} {a b : A} → ◌≡◌ {A = Reply A} (entity a) (entity b) → a ≡ b
entity_inj h = cc

error_not_entity :
    {A : Type 0} {code : _} {text : String} {a : A}
    → ◌≢◌ {A = Reply A} (http_error code text) (entity a)
error_not_entity h = cc

crashed_not_entity : {A : Type 0} {a : A} → ◌≢◌ {A = Reply A} crashed (entity a)
crashed_not_entity h = cc

-- Only a call without an error is answered with a result.
reply-eq-entity :
    (rest : Rest) {A : Type 0} (o : Outcome ApiError A) (res : A)
    → reply rest o ≡ entity res
    → o ≡ ok res
unfolding handle_error
reply-eq-entity rest (ok a) res h = ap (λ x. ok x) (entity_inj h)
reply-eq-entity rest (err e) res h = absurd (error_not_entity h)
reply-eq-entity rest panic res h = absurd (crashed_not_entity h)

-- A list request for a workspace that is answered with a page: every template of the page is one that
-- the cache lists for the workspace and the selector of the query, filled with its versions, and
-- passes the filters of the query, where sorting keeps the members of a list.
pub handle_list_workspace-Member :
    (rest : Rest) (templates : TemplateCache) (sort_versions : SortSlice TemplateVersion)
    (sort_templates : SortSlice FilledTemplate) (req : Request) (res : ListResult FilledTemplate)
    (x : FilledTemplate)
    → Sorts sort_templates
    → handle_list_workspace_infer_model_templates rest templates sort_versions sort_templates req
      ≡ entity res
    → Member x res.items
    → (template : InferModelTemplate) × (listed : List InferModelTemplate) × (requirement : Option
        String)
      × (workspace_requirement templates sort_versions (req.path "workspace") ≡ ok requirement)
      × (templates.list requirement (query_of rest req).label_selector ≡ ok listed)
      × Member template listed
      × (update_versions templates sort_versions template ≡ ok x)
      × (selects
            (λ item. default_object_meta_filter rest.texts item.template.meta)
            (query_of rest req).filters
            x
          ≡ true)
unfolding handle_list_workspace_infer_model_templates
handle_list_workspace-Member rest templates sort_versions sort_templates req res x sorts h m =
    list_infer_model_template-Member templates sort_versions rest.texts sort_templates
      (req.path "workspace") (query_of rest req) res x sorts (reply-eq-entity rest _ res h) m
