-- ===== src/Examples/Listings.antt =====
-- Runs of the calls that list templates.
use mathlib.Core.Path.{subst}
use edge_q.Prelude.Int.{wrap}
use edge_q.Prelude.{
  none, ap, sym, ◌∙◌, Bool-cases, ℕ, String, Bool, ◌≡◌, refl, inl, inr, ◌↔◌, true, false, Option,
  List, [], ◌∷◌, Member, if◌then◌else◌, ◌==◌,
}
use edge_q.Outcome.{ok}
use edge_q.Query.{
  parse_query_parameter, default_string, paginate, slice, get_valid_pagination, no_pagination,
  new_pagination,
}
use edge_q.Query.Select.{
  less, transform, Texts, default_object_meta_filter, selects, filter_and_sort,
}
use edge_q.Apps.Listing.{
  SortSlice, list_result, each, InferModelTemplate, TemplateVersion, FilledTemplate, TemplateCache,
  filled, update_versions, workspace_requirement, list_infer_model_templates,
  list_infer_model_template,
}
use edge_q.Kapis.{Rest, Request, plain, query_of, handle_list_workspace_infer_model_templates}
use edge_q.Kapis.Lists.{handle_list_workspace-Member}
use edge_q.Apps.Latest.{IsOrder, Sorts, IsFilled, update_versions-IsFilled}

abbrev texts : Texts
texts = record {
  split = λ s. s ∷ [];
  contains_text = λ s t. s == t;
  label_match = λ m s. true;
  is_greater = λ a b. false;
  is_after = λ a b. false;
}

-- The least of a list, as far as neighbours tell, moved to its front.
abbrev least_first : {A : Type 0} → (A → A → Bool) → A → List A → List A
least_first f x [] = x ∷ []
least_first f x (y ∷ ys) = if f y x then y ∷ x ∷ ys else x ∷ y ∷ ys

abbrev sort_slice : {A : Type 0} → SortSlice A
sort_slice f [] = []
sort_slice f (x ∷ xs) = least_first f x (sort_slice f xs)

-- Every member is the first, or not before it.
Least : {A : Type 0} → (A → A → Bool) → List A → Type 0
Least f [] = Unit {0}
Least {A} f (x ∷ xs) = (y : A) → Member y xs → f y x ≡ false

least_first-Least :
    {A : Type 0} (f : A → A → Bool) (x : A) (xs : List A)
    → IsOrder f
    → Least f xs
    → Least f (least_first f x xs)
unfolding Least
least_first-Least f x [] o l = λ y m. absurd m
least_first-Least f x (y ∷ ys) o l = elim (Bool-cases (f y x)) [
  | inl e ↦ rw e (λ w m. elim m [
    | inl same ↦ ap (λ v. f v y) (sym same) ∙ o.asym y x e
    | inr in_ys ↦ l w in_ys
  ])
  | inr e ↦ rw e (λ w m. elim m [
    | inl same ↦ ap (λ v. f v x) (sym same) ∙ e
    | inr in_ys ↦ o.not_before w y x (l w in_ys) e
  ])
]

sort_slice-Least :
    {A : Type 0} (f : A → A → Bool) (xs : List A) → IsOrder f → Least f (sort_slice f xs)
unfolding Least
sort_slice-Least f [] o = tt
sort_slice-Least f (x ∷ xs) o = least_first-Least f x (sort_slice f xs) o (sort_slice-Least f xs o)

least_first-Member :
    {A : Type 0} (f : A → A → Bool) (x y : A) (xs : List A)
    → Member y (least_first f x xs) ↔ Member y (x ∷ xs)
least_first-Member {A} f x y [] = (λ m. m, λ m. m)
least_first-Member {A} f x y (z ∷ zs) = elim (Bool-cases (f z x)) [
  | inl e ↦ rw e (swap z x zs, swap x z zs)
  | inr e ↦ rw e (λ m. m, λ m. m)
]
  where
    swap : (a b : A) (rest : List A) → Member y (a ∷ b ∷ rest) → Member y (b ∷ a ∷ rest)
    swap a b rest (inl h) = inr (inl h)
    swap a b rest (inr (inl h)) = inl h
    swap a b rest (inr (inr h)) = inr (inr h)

sort_slice-Member :
    {A : Type 0} (f : A → A → Bool) (xs : List A) (y : A) → Member y (sort_slice f xs) ↔ Member y xs
sort_slice-Member f [] y = (λ m. m, λ m. m)
sort_slice-Member f (x ∷ xs) y =
    let first = least_first-Member f x y (sort_slice f xs) in
    let rest = sort_slice-Member f xs y in
    (
      λ m. elim (first.0 m) [ inl h ↦ inl h | inr h ↦ inr (rest.0 h) ],
      λ m. elim m [ inl h ↦ first.1 (inl h) | inr h ↦ first.1 (inr (rest.1 h)) ],
    )

sort_slice-Sorts : {A : Type 0} → Sorts (sort_slice {A = A})
unfolding Least
sort_slice-Sorts = record {
  keeps = sort_slice-Member;
  first_least = λ f xs x rest y o e m. subst (Least f) e (sort_slice-Least f xs o) y m;
}

abbrev template : InferModelTemplate
template = record {
  meta = record { name = "m"; namespace = ""; labels = []; created = "" };
  service_group = [];
}

abbrev version : ℕ → String → TemplateVersion
version created label = record {
  name = label;
  labels = ("apps.edgewize.io/imtemplateversion", label) ∷ [];
  created = created;
}

abbrev cache : TemplateCache
cache = record {
  get = λ workspace name. ok template;
  new_requirement = λ workspace. ok workspace;
  list = λ requirement selector. ok (template ∷ []);
  list_versions = λ name. ok (version 3 "v1" ∷ version 5 "v2" ∷ []);
}

update_versions-IsFilled_example :
    (ret : FilledTemplate) × (update_versions cache sort_slice template ≡ ok ret)
    × IsFilled (version 3 "v1" ∷ version 5 "v2" ∷ []) template ret
update_versions-IsFilled_example =
    update_versions-IsFilled cache sort_slice template (version 3 "v1" ∷ version 5 "v2" ∷ [])
      sort_slice-Sorts refl

abbrev shown : FilledTemplate
shown = filled cache sort_slice template (version 5 "v2" ∷ version 3 "v1" ∷ [])

abbrev rest : Rest
rest = record {
  atoi = λ t. none;
  parse_bool = λ t. none;
  kind_of = λ e. plain;
  text_of = λ e. "";
  texts = texts;
}

abbrev request : Request
request = record {
  param = λ name. "";
  path = λ name. if name == "workspace" then "w" else "";
  url = [];
}

handle_list_workspace-Member_example :
    (item : InferModelTemplate) × (templates : List InferModelTemplate) × (requirement : Option
      String)
    × (workspace_requirement cache sort_slice "w" ≡ ok requirement)
    × (cache.list requirement "" ≡ ok templates)
    × Member item templates
    × (update_versions cache sort_slice item ≡ ok shown)
    × (selects
          (λ i. default_object_meta_filter texts i.template.meta)
          (query_of rest request).filters
          shown
        ≡ true)
unfolding handle_list_workspace_infer_model_templates wrap parse_query_parameter default_string
    list_infer_model_template list_infer_model_templates update_versions each list_result
    filter_and_sort paginate slice get_valid_pagination no_pagination new_pagination selects less
    transform
handle_list_workspace-Member_example =
    handle_list_workspace-Member rest cache sort_slice sort_slice request
      (record { items = shown ∷ []; total_items = 1 }) shown sort_slice-Sorts refl (inl refl)
