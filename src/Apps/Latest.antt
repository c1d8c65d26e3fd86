-- ===== src/Apps/Latest.antt =====
-- pkg/models/apps/template.go and deploy.go: which version is the latest, and what a list holds.
use mathlib.Core.Path.{subst}
use edge_q.Prelude.{
  ℕ, zero, suc, ◌-◌, ◌≤◌, String, ◌≡◌, refl, ap, sym, ◌∙◌, ◌⊎◌, inl, inr, ◌↔◌, Bool, true, false,
  Option, List, List-cases, [], ◌∷◌, Member, arith, leb, ◌&&◌, Bool-cases, length, take, drop,
}
use edge_q.Prelude.Int.{ℤ, pos, negsuc}
use edge_q.Outcome.{Outcome, ok, Outcome-cases, ok_inj, >>=-eq-ok, panic_not_ok}
use edge_q.K8s.{ApiError, value_at}
use edge_q.Query.{Query, Pagination, paginate, slice}
use edge_q.Query.Select.{
  ObjectMeta, Texts, default_object_meta_compare, default_object_meta_filter, selects, transform,
  filter_and_sort, filter_and_sort-Member,
}
use edge_q.Apps.Listing.{
  ListResult, SortSlice, list_result, each, InferModelTemplate, TemplateVersion, FilledTemplate,
  TemplateCache, is_newer, update_versions, workspace_requirement, list_infer_model_templates,
  list_infer_model_template,
}

-- A test that `sort.Slice` can sort by: strict, and so that what is not before is transitive.
pub record IsOrder {A : Type 0} (f : A → A → Bool) : Type 0 where
  pub asym : (a b : A) → f a b ≡ true → f b a ≡ false
  pub not_before : (a b c : A) → f a b ≡ false → f b c ≡ false → f a c ≡ false

-- What `sort.Slice` gives: the same members, and for an order none before the first.
pub record Sorts {A : Type 0} (sort_slice : SortSlice A) : Type 0 where
  pub keeps : (f : A → A → Bool) (xs : List A) (x : A) → Member x (sort_slice f xs) ↔ Member x xs
  pub first_least :
      (f : A → A → Bool) (xs : List A) (x : A) (rest : List A) (y : A)
      → IsOrder f
      → sort_slice f xs ≡ x ∷ rest
      → Member y rest
      → f y x ≡ false

is_newer-IsOrder : IsOrder is_newer
is_newer-IsOrder = record { asym = λ a b h. ground arith; not_before = λ a b c h g. ground arith }

-- What is known of a filled template: its versions are those of the cache, and the latest version is
-- the label of a version than which none is newer, empty where there is none.
pub record IsFilled (versions : List TemplateVersion) (template : InferModelTemplate)
    (ret : FilledTemplate) : Type 0 where
  pub same : ret.template ≡ template
  pub each_version : (v : TemplateVersion) → Member v ret.version_list ↔ Member v versions
  pub latest :
      ((versions ≡ []) × (ret.latest_version ≡ ""))
      ⊎ ((newest : TemplateVersion) × Member newest versions
          × (ret.latest_version ≡ value_at "apps.edgewize.io/imtemplateversion" newest.labels)
          × ((v : TemplateVersion) → Member v versions → v.created ≤ newest.created))

module _ (cache : TemplateCache) (sort_versions : SortSlice TemplateVersion) where
  -- A template whose versions the cache lists is filled with them: the latest version is the label of one
  -- than which none is newer, and empty where there is none. Sorting keeps the members of a list, and
  -- puts none before the first that comes before it.
  pub update_versions-IsFilled :
      (template : InferModelTemplate) (versions : List TemplateVersion)
      → Sorts sort_versions
      → cache.list_versions template.meta.name ≡ ok versions
      → (ret : FilledTemplate) × (update_versions cache sort_versions template ≡ ok ret)
        × IsFilled versions template ret
  unfolding update_versions
  update_versions-IsFilled template [] sorts e = rw e (
    _,
    refl,
    record { same = refl; each_version = λ v. (λ m. m, λ m. m); latest = inl (refl, refl) },
  )
  update_versions-IsFilled template (v ∷ vs) sorts e =
      elim (List-cases (sort_versions is_newer (v ∷ vs))) [
        | inl nothing ↦
            absurd (subst (Member v) nothing ((sorts.keeps is_newer (v ∷ vs) v).1 (inl refl)))
        | inr (newest, rest, s) ↦
            let kept = (λ (w : TemplateVersion).
              subst (λ xs. Member w xs ↔ Member w (v ∷ vs)) s (sorts.keeps is_newer (v ∷ vs) w)) in
            rw (update_versions, e, s)
              (
                _,
                refl,
                record {
                  same = refl;
                  each_version = kept;
                  latest = inr (
                    newest,
                    (kept newest).0 (inl refl),
                    refl,
                    λ w m.
                        not_newer newest rest w
                          (λ n.
                            sorts.first_least is_newer (v ∷ vs) newest rest w is_newer-IsOrder s n)
                          ((kept w).1 m),
                  );
                },
              )
      ]
    where
      ap_le : {a b : ℕ} → b ≡ a → a ≤ b
      ap_le h = omega arith

      not_newer :
          (newest : TemplateVersion) (rest : List TemplateVersion) (w : TemplateVersion)
          → (Member w rest → is_newer w newest ≡ false)
          → Member w (newest ∷ rest)
          → w.created ≤ newest.created
      not_newer newest rest w least (inl same) =
          ap_le (ap (λ (x : TemplateVersion). x.created) same)
      not_newer newest rest w least (inr m) = ground (arith, least m)

-- What `each` returns are the results of the call on the items.
each-Member :
    {A B : Type 0} (call : A → Outcome ApiError B) (items : List A) (out : List B) (b : B)
    → each call items ≡ ok out
    → Member b out
    → (a : A) × Member a items × (call a ≡ ok b)
unfolding each
each-Member call [] out b h m = absurd (subst (Member b) (sym (ok_inj h)) m)
each-Member call (item ∷ items) out b h m =
    let (first, e, h1) = >>=-eq-ok (call item) _ h in
    let (rest, f, h2) = >>=-eq-ok (each call items) _ h1 in
    elim (subst (Member b) (sym (ok_inj h2)) m) [
      | inl here ↦ (item, inl refl, e ∙ ap (λ x. ok x) here)
      | inr there ↦ let (a, within, g) = each-Member call items rest b f there in (a, inr within, g)
    ]

Member-take : {A : Type 0} (n : ℕ) (xs : List A) (x : A) → Member x (take n xs) → Member x xs
Member-take zero xs x m = absurd m
Member-take (suc n) [] x m = absurd m
Member-take (suc n) (y ∷ xs) x (inl h) = inl h
Member-take (suc n) (y ∷ xs) x (inr m) = inr (Member-take n xs x m)

Member-drop : {A : Type 0} (n : ℕ) (xs : List A) (x : A) → Member x (drop n xs) → Member x xs
Member-drop zero xs x m = m
Member-drop (suc n) [] x m = absurd m
Member-drop (suc n) (y ∷ xs) x m = inr (Member-drop n xs x m)

slice-Member :
    {A : Type 0} (xs page : List A) (i j : ℤ) (x : A)
    → slice xs i j ≡ ok page
    → Member x page
    → Member x xs
unfolding slice
slice-Member xs page (pos i) (pos j) x h m = elim (Bool-cases (leb i j && leb j (length xs))) [
  | inl e ↦
      Member-drop i xs x
        (Member-take (j - i) (drop i xs) x (subst (Member x) (sym (ok_inj (rw e at h))) m))
  | inr e ↦ absurd (panic_not_ok (rw e at h))
]
slice-Member xs page (pos i) (negsuc j) x h m = absurd (panic_not_ok h)
slice-Member xs page (negsuc i) j x h m = absurd (panic_not_ok h)

paginate-Member :
    {A : Type 0} (p : Option Pagination) (xs page : List A) (x : A)
    → paginate p xs ≡ ok page
    → Member x page
    → Member x xs
unfolding paginate
paginate-Member p xs page x h m = slice-Member xs page _ _ x h m

module _ {A : Type 0} (t : Texts) (sort_slice : SortSlice A) (meta : A → ObjectMeta) where
  list_result-Member :
      (q : Query) (items : List A) (res : ListResult A) (x : A)
      → Sorts sort_slice
      → list_result t sort_slice meta q items ≡ ok res
      → Member x res.items
      → Member x items
        × (selects (λ item. default_object_meta_filter t (meta item)) q.filters x ≡ true)
  unfolding list_result transform
  list_result-Member q items res x sorts h m =
      elim (Outcome-cases (paginate q.pagination selected)) [
        | inl (page, e) ↦
            let in_page =
              subst (λ (r : ListResult A). Member x r.items)
                (sym (ok_inj (rw (list_result, e) at h))) m in
            let (a, within, chosen, same) =
              (filter_and_sort-Member sort_slice compare passes [] q.ascending q.sort_by q.filters
                  items x sorts.keeps).0
                (paginate-Member q.pagination selected page x e in_page) in
            (
              subst (λ y. Member y items) same within,
              subst (λ y. selects passes q.filters y ≡ true) same chosen,
            )
        | inr (inl (failure, e)) ↦ absurd (panic_not_ok (rw (list_result, e) at h))
        | inr (inr e) ↦ absurd (panic_not_ok (rw (list_result, e) at h))
      ]
    where
      compare : A → A → String → Bool
      compare left right = default_object_meta_compare t (meta left) (meta right)

      passes : A → String × String → Bool
      passes item = default_object_meta_filter t (meta item)

      selected : List A
      selected = filter_and_sort sort_slice compare passes [] q.ascending q.sort_by q.filters items

-- Every template of a page is a template that the cache lists for the workspace and the selector,
-- filled with its versions, and passes the filters of the query.
pub list_infer_model_template-Member :
    (cache : TemplateCache) (sort_versions : SortSlice TemplateVersion) (t : Texts)
    (sort_slice : SortSlice FilledTemplate) (workspace : String) (q : Query)
    (res : ListResult FilledTemplate) (x : FilledTemplate)
    → Sorts sort_slice
    → list_infer_model_template cache sort_versions t sort_slice workspace q ≡ ok res
    → Member x res.items
    → (template : InferModelTemplate) × (templates : List InferModelTemplate)
      × (requirement : Option String) × (workspace_requirement cache sort_versions workspace
          ≡ ok requirement)
      × (cache.list requirement q.label_selector ≡ ok templates)
      × Member template templates
      × (update_versions cache sort_versions template ≡ ok x)
      × (selects (λ item. default_object_meta_filter t item.template.meta) q.filters x ≡ true)
unfolding list_infer_model_template list_infer_model_templates
list_infer_model_template-Member cache sort_versions t sort_slice workspace q res x sorts h m =
    let (items, e, h1) =
      >>=-eq-ok (list_infer_model_templates cache sort_versions workspace q.label_selector) _ h in
    let (requirement, f, h2) =
      >>=-eq-ok (workspace_requirement cache sort_versions workspace) _ e in
    let (templates, g, h3) = >>=-eq-ok (cache.list requirement q.label_selector) _ h2 in
    let (within, chosen) = list_result-Member t sort_slice _ q items res x sorts h1 m in
    let (template, there, filled_as) =
      each-Member (update_versions cache sort_versions) templates items x h3 within in
    (template, templates, requirement, f, g, there, filled_as, chosen)
