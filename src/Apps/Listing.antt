-- ===== src/Apps/Listing.antt =====
-- pkg/models/apps/template.go and deploy.go: the calls that get and list templates and deployments.
-- The cache of the API server is an argument.
use edge_q.Prelude.{
  ℕ, String, Bool, Option, none, some, List, [], ◌∷◌, ◌==◌, length, ltb, if◌then◌else◌,
}
use edge_q.Prelude.Int.{ℤ}
use edge_q.Outcome.{Outcome, ok, err, panic, ◌>>=◌}
use edge_q.Maps.{Map}
use edge_q.K8s.{ApiError, value_at}
use edge_q.Query.{Query, paginate}
use edge_q.Query.Select.{
  ObjectMeta, Texts, default_object_meta_compare, default_object_meta_filter, filter_and_sort,
}

pub record ListResult (A : Type 0) : Type 0 where
  pub items : List A
  pub total_items : ℕ

-- `sort.Slice`
abbrev pub SortSlice : Type 0 → Type 0
SortSlice A = (A → A → Bool) → List A → List A

module _ {A : Type 0} where
  -- The default processor of a query: `paginate` returns no error.
  unfoldable pub list_result :
      Texts → SortSlice A → (A → ObjectMeta) → Query → List A → Outcome ApiError (ListResult A)
  list_result t sort_slice meta q items =
      let selected : List A =
        filter_and_sort sort_slice
          (λ left right. default_object_meta_compare t (meta left) (meta right))
          (λ item. default_object_meta_filter t (meta item)) [] q.ascending q.sort_by q.filters
          items in
      elim (paginate q.pagination selected) [
        | ok page ↦ ok (record { items = page; total_items = length selected })
        | err e ↦ panic
        | panic ↦ panic
      ]

module _ {A B : Type 0} where
  -- The results of a call on each item, up to the first error.
  unfoldable pub each : (A → Outcome ApiError B) → List A → Outcome ApiError (List B)
  each call [] = ok []
  each call (item ∷ items) = call item >>= λ ret. each call items >>= λ rest. ok (ret ∷ rest)

pub record InferModelTemplate : Type 0 where
  pub meta : ObjectMeta
  pub service_group : Map ℤ

pub record TemplateVersion : Type 0 where
  pub name : String
  pub labels : Map String
  pub created : ℕ

-- The template of the API, with what is filled in.
pub record FilledTemplate : Type 0 where
  pub template : InferModelTemplate
  pub service_group : Map ℤ
  pub version_list : List TemplateVersion
  pub latest_version : String

-- The cache: templates by workspace and name, by the workspace's requirement and the text of a selector,
-- and the versions by the name of their template. The list takes the text as `Query.Selector` reads it.
pub record TemplateCache : Type 0 where
  pub get : String → String → Outcome ApiError InferModelTemplate
  pub new_requirement : String → Outcome ApiError String
  pub list : Option String → String → Outcome ApiError (List InferModelTemplate)
  pub list_versions : String → Outcome ApiError (List TemplateVersion)

-- Newest first: `items[j].CreationTimestamp.Before(&items[i].CreationTimestamp)`
abbrev pub is_newer : TemplateVersion → TemplateVersion → Bool
is_newer i j = ltb j.created i.created

module _ (cache : TemplateCache) (sort_versions : SortSlice TemplateVersion) where
  abbrev pub filled : InferModelTemplate → List TemplateVersion → FilledTemplate
  filled template [] = record {
    template = template;
    service_group = template.service_group;
    version_list = [];
    latest_version = "";
  }
  filled template (latest ∷ others) = record {
    template = template;
    service_group = template.service_group;
    version_list = latest ∷ others;
    latest_version = value_at "apps.edgewize.io/imtemplateversion" latest.labels;
  }

  unfoldable pub update_versions : InferModelTemplate → Outcome ApiError FilledTemplate
  update_versions template = cache.list_versions template.meta.name >>= λ versions. elim versions [
    | [] ↦ ok (filled template [])
    | v ∷ vs ↦ elim (sort_versions is_newer (v ∷ vs)) [
      -- `sort.Slice` keeps the length: this is not reached
      | [] ↦ panic
      | latest ∷ others ↦ ok (filled template (latest ∷ others))
    ]
  ]

  unfoldable pub get_infer_model_template : String → String → Outcome ApiError FilledTemplate
  get_infer_model_template workspace name = cache.get workspace name >>= update_versions

  abbrev pub workspace_requirement : String → Outcome ApiError (Option String)
  workspace_requirement workspace =
      if workspace == ""
      then ok none
      else (cache.new_requirement workspace >>= λ requirement. ok (some requirement))

  unfoldable pub list_infer_model_templates :
      String → String → Outcome ApiError (List FilledTemplate)
  list_infer_model_templates workspace selector = workspace_requirement workspace >>= λ requirement.
      cache.list requirement selector >>= λ templates. each update_versions templates

  unfoldable pub list_infer_model_template :
      Texts
      → SortSlice FilledTemplate
      → String
      → Query
      → Outcome ApiError (ListResult FilledTemplate)
  list_infer_model_template t sort_slice workspace q =
      list_infer_model_templates workspace q.label_selector >>= λ items.
      list_result t sort_slice (λ (item : FilledTemplate). item.template.meta) q items
