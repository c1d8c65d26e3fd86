-- ===== src/Template.antt =====
-- pkg/controllers/imtemplate/imtemplate_controller.go: the service groups of a template are copied to
-- its versions. What the API server answers is an argument.
pub mod Sync
use edge_q.Prelude.{
  String, Bool, true, false, Option, none, some, List, [], ◌∷◌, ◌++◌, map, if◌then◌else◌,
}
use edge_q.Prelude.Int.{ℤ}
use edge_q.Outcome.{Outcome, ok, err, panic}
use edge_q.Maps.{Map, lookup}
use edge_q.K8s.{ApiError, is_not_found}
use edge_q.Utils.{has_string, remove_string}

pub record Template : Type 0 where
  pub name : String
  pub deleted : Bool
  pub finalizers : List String
  pub service_group : Map ℤ

pub record Version : Type 0 where
  pub name : String
  pub service_group : Map ℤ

pub data Write : Type 0 where
  patch_finalizers : List String → Write
  update_version : Version → Write
  delete_template : String → Write

pub record Api : Type 0 where
  pub get_instance : Outcome ApiError Template
  -- the versions, and the templates, that have the label of the template
  pub list_versions : String → Outcome ApiError (List Version)
  pub list_templates : String → Outcome ApiError (List String)
  pub write : Write → Outcome ApiError (Unit {0})
  -- `reflect.DeepEqual` on two maps of weights
  pub deep_equal : Map ℤ → Map ℤ → Bool

abbrev pub Wrote : Type 0
Wrote = List Write × Outcome ApiError (Unit {0})

abbrev pub finalizer : String
finalizer = "imTemplate.finalizer.apps.edgewize.io"

module _ (api : Api) where
  -- A write, and what follows where it is done.
  unfoldable pub after : Write → Wrote → Wrote
  after w next = elim (api.write w) [
    | err e ↦ (w ∷ [], err e)
    | panic ↦ (w ∷ [], panic)
    | ok u ↦ (w ∷ next.0, next.1)
  ]

  -- The loop over the versions: it stops at the first error.
  unfoldable pub sync_versions : Map ℤ → List Version → Wrote
  sync_versions groups [] = ([], ok tt)
  sync_versions groups (item ∷ items) =
      let rest : Wrote = sync_versions groups items in
      if api.deep_equal item.service_group groups
      then rest
      else after (update_version (record item { service_group = groups })) rest

  unfoldable pub do_reconcile : Template → Wrote
  do_reconcile instance = elim (api.list_versions instance.name) [
    | err e ↦ ([], err e)
    | panic ↦ ([], panic)
    | ok versions ↦ sync_versions instance.service_group versions
  ]

  -- The loop over what is to be deleted: it goes on after an error, and returns the last answer.
  unfoldable pub delete_all : Outcome ApiError (Unit {0}) → List String → Wrote
  delete_all last [] = ([], last)
  delete_all last (item ∷ items) = elim (api.write (delete_template item)) [
    | panic ↦ (delete_template item ∷ [], panic)
    | ok u ↦ (delete_template item ∷ (delete_all (ok u) items).0, (delete_all (ok u) items).1)
    | err e ↦ (delete_template item ∷ (delete_all (err e) items).0, (delete_all (err e) items).1)
  ]

  unfoldable pub undo_reconcile : Template → Wrote
  undo_reconcile instance = elim (api.list_templates instance.name) [
    | err e ↦ ([], err e)
    | panic ↦ ([], panic)
    | ok items ↦ delete_all (ok tt) items
  ]

  -- What is done when a template is deleted; the error of the deletions is only logged.
  clean_up : Template → Wrote
  clean_up instance =
      let undone : Wrote = undo_reconcile instance in
      let patched : Wrote =
        after (patch_finalizers (remove_string instance.finalizers finalizer)) ([], ok tt) in
      elim undone.1 [ panic ↦ undone | _ ↦ (undone.0 ++ patched.0, patched.1) ]

  unfoldable pub reconcile : Wrote
  unfolding clean_up
  reconcile = elim api.get_instance [
    | panic ↦ ([], panic)
    | err e ↦ if is_not_found e then ([], ok tt) else ([], err e)
    | ok instance ↦
        if instance.deleted
        then (if has_string instance.finalizers finalizer then clean_up instance else ([], ok tt))
        else if has_string instance.finalizers finalizer
        then do_reconcile instance
        else (let finalizers : List String = instance.finalizers ++ finalizer ∷ [] in
            after (patch_finalizers finalizers)
              (do_reconcile (record instance { finalizers = finalizers })))
  ]

-- The template to reconcile after a change of a version, from the version's labels.
unfoldable pub sync_service_group : Map String → List String
sync_service_group labels = elim (lookup "apps.edgewize.io/imtemplate" labels) [
  | none ↦ []
  | some name ↦ name ∷ []
]
