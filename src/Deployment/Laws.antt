-- ===== src/Deployment/Laws.antt =====
-- What pkg/controllers/imdeployment/imdeployment_controller.go asks the API server to create.
use edge_q.Prelude.{
  String, ◌≡◌, ◌≢◌, refl, sym, ap, ◌⊎◌, inl, inr, Bool-cases, true, false, List, [], ◌∷◌, ◌++◌,
  ◌==◌, eq_iff, Member, if◌then◌else◌,
}
use edge_q.Outcome.{ok, err, panic, Outcome-cases}
use edge_q.Maps.{Map, lookup, insert, has_key, has_key-insert}
use edge_q.K8s.{value_at}
use edge_q.Utils.{has_string, remove_string, has_string-remove_string}
use edge_q.Deployment.{
  ModelNodeSelector, InferModelDeployment, label_workload, inject_additional_labels,
}
use edge_q.Deployment.Rollout.{
  Api, Write, patch_finalizers, Wrote, create_missing, cache_of, tolerated, new_deployment,
  reconcile, finalizer, after,
}

-- What is to be created: one object for each workload that the cache lacks, in order.
unfoldable pub wanted :
    Map String → (String → ModelNodeSelector → Write) → Map ModelNodeSelector → List Write
wanted cache make [] = []
wanted cache make ((w, info) ∷ expected) =
    let rest : List Write = wanted cache make expected in
    if has_key w cache then rest else make w info ∷ rest

module _ (api : Api) where
  -- The pass asks for what is to be created and for nothing else, in order. It stops early only with
  -- an error or a panic: where it is done, nothing is left.
  pub create_missing-wanted :
      (cache : Map String) (make : String → ModelNodeSelector → Write)
      (expected : Map ModelNodeSelector)
      → (left : List Write) × ((create_missing api cache make expected).0 ++ left
          ≡ wanted cache make expected)
        × ((create_missing api cache make expected).1 ≡ ok tt → left ≡ [])
  unfolding create_missing wanted
  create_missing-wanted cache make [] = ([], refl, λ _. refl)
  create_missing-wanted cache make ((w, info) ∷ expected) =
      let (left, all, done) = create_missing-wanted cache make expected in
      elim (Bool-cases (has_key w cache)) [
        | inl there ↦ (left, rw there all, rw there done)
        | inr missing ↦ elim (Outcome-cases (tolerated (api.write (make w info)))) [
          | inl (u, e) ↦ (
            left,
            rw (missing, e) (ap (λ (x : List Write). make w info ∷ x) all),
            rw (missing, e) done,
          )
          | inr (inl (x, e)) ↦ (
            wanted cache make expected,
            rw (missing, e) refl,
            rw (missing, e) (λ (h : err x ≡ ok tt). cc),
          )
          | inr (inr e) ↦ (
            wanted cache make expected,
            rw (missing, e) refl,
            rw (missing, e) (λ (h : panic ≡ ok tt). cc),
          )
        ]
      ]

-- The names and labels of the deployments that a pass creates.
pub created_deployments :
    Api → InferModelDeployment → Map ModelNodeSelector → List (String × Map String)
created_deployments api d [] = []
created_deployments api d ((w, info) ∷ expected) =
    ((new_deployment api d w info).name, (new_deployment api d w info).labels)
    ∷ created_deployments api d expected

module _ (api : Api) (d : InferModelDeployment) where
  pub has_key-cache_of :
      (items : List (String × Map String)) (c : Map String) (w : String)
      → has_key w c ≡ true
      → has_key w (cache_of items c) ≡ true
  unfolding cache_of
  has_key-cache_of [] c w h = h
  has_key-cache_of ((name, labels) ∷ items) c w h =
      elim (Bool-cases (value_at label_workload labels == "")) [
        | inl e ↦ rw e (has_key-cache_of items c w h)
        | inr e ↦ rw e (
            has_key-cache_of items (insert (value_at label_workload labels) name c) w
              (has_key-insert (value_at label_workload labels) w name c h))
      ]

  pub nothing_missing :
      (cache : Map String) (make : String → ModelNodeSelector → Write)
      (expected : Map ModelNodeSelector)
      → ((w : String) (info : ModelNodeSelector)
          → Member (w, info) expected
          → has_key w cache ≡ true)
      → create_missing api cache make expected ≡ ([], ok tt)
  unfolding create_missing
  nothing_missing cache make [] there = refl
  nothing_missing cache make ((w, info) ∷ expected) there =
      rw (there w info (inl refl))
        (nothing_missing cache make expected (λ v i within. there v i (inr within)))

  -- A deployment that the controller creates has no workload among its labels: the deployments of all
  -- workloads leave the cache that the next pass builds from them as it was.
  pub deployments_are_asked_again :
      (expected : Map ModelNodeSelector) (c : Map String)
      → cache_of (created_deployments api d expected) c ≡ c
  unfolding cache_of created_deployments new_deployment value_at lookup inject_additional_labels
  deployments_are_asked_again [] c = refl
  deployments_are_asked_again ((w, info) ∷ expected) c = deployments_are_asked_again expected c

module _ (api : Api) where
  after-writes : (w : Write) (next : Wrote (Unit {0})) → next.0 ≡ [] → (after api w next).0 ≡ w ∷ []
  unfolding after
  after-writes w next none_left = elim (Outcome-cases (api.write w)) [
    | inl (u, e) ↦ rw (e, after) (ap (λ (x : List Write). w ∷ x) none_left)
    | inr (inl (x, e)) ↦ rw (e, after) refl
    | inr (inr e) ↦ rw (e, after) refl
  ]

  -- The reconciliation of an instance that is being deleted creates nothing. Where the instance
  -- does not have the controller's finalizer it writes nothing at all; where it has it, the only
  -- write is a list of finalizers without that one, which has every other finalizer exactly if the
  -- instance has it.
  pub reconcile_deleted :
      (instance : InferModelDeployment)
      → api.get_instance ≡ ok instance
      → instance.deleted ≡ true
      → ((has_string instance.finalizers finalizer ≡ false) × ((reconcile api).0 ≡ []))
        ⊎ ((left : List String) × (has_string instance.finalizers finalizer ≡ true)
            × ((reconcile api).0 ≡ patch_finalizers left ∷ [])
            × (has_string left finalizer ≡ false)
            × ((f : String) → f ≢ finalizer → has_string left f ≡ has_string instance.finalizers f))
  unfolding reconcile
  reconcile_deleted instance found deleted =
      elim (Bool-cases (has_string instance.finalizers finalizer)) [
        | inr e ↦ inl (e, rw (found, deleted, e) refl)
        | inl e ↦
            let left : List String = remove_string instance.finalizers finalizer in
            inr (
              left,
              e,
              rw (found, deleted, e) (after-writes (patch_finalizers left) ([], ok tt) refl),
              has_string-remove_string instance.finalizers finalizer finalizer,
              λ f other. others f other (has_string-remove_string instance.finalizers finalizer f),
            )
      ]
    where
      others :
          (f : String)
          → f ≢ finalizer
          → has_string (remove_string instance.finalizers finalizer) f
            ≡ (if finalizer == f then false else has_string instance.finalizers f)
          → has_string (remove_string instance.finalizers finalizer) f
            ≡ has_string instance.finalizers f
      others f other h = elim (Bool-cases (finalizer == f)) [
        | inl e ↦ absurd (other (sym ((eq_iff finalizer f).0 e)))
        | inr e ↦ rw e at h
      ]
