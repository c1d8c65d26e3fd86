-- ===== src/Deployment/Listing.antt =====
-- pkg/controllers/imdeployment/imdeployment_controller.go, `deployInferModelServices`: which services the
-- API server has after a pass, and what the cache that is built from its list knows.
use mathlib.Core.Path.{subst}
use edge_q.Prelude.{
  String, ◌≡◌, ◌≢◌, refl, sym, ap, inl, inr, Bool, Bool-cases, true, false, ◌&&◌, List, [], ◌∷◌,
  ◌++◌, ◌==◌, eq_iff, eq_refl, Member, is_some, if◌then◌else◌,
}
use edge_q.Outcome.{Outcome, ok, err, panic, ◌>>=◌, Outcome-cases, err_not_ok, panic_not_ok}
use edge_q.Maps.{Map, insert, has_key, lookup-insert_self}
use edge_q.K8s.{ApiError, is_already_exists, value_at}
use edge_q.Deployment.{
  ModelNodeSelector, InferModelDeployment, Service, label_workload, label_deployment,
}
use edge_q.Deployment.Rollout.{
  Api, Write, patch_finalizers, create_service, create_deployment, create_missing, cache_of,
  tolerated,
}
use edge_q.Deployment.Laws.{wanted, has_key-cache_of}

abbrev pub is_ok : Outcome ApiError (Unit {0}) → Bool
is_ok (ok u) = true
is_ok (err e) = false
is_ok panic = false

module _ (api : Api) where
  -- Of the services that were written, those that the API server accepted and lists in a namespace by the
  -- label of the deployment.
  unfoldable pub listed : String → String → List Write → List (String × Map String)
  listed namespace deployment [] = []
  listed namespace deployment (patch_finalizers f ∷ writes) = listed namespace deployment writes
  listed namespace deployment (create_deployment w ∷ writes) = listed namespace deployment writes
  listed namespace deployment (create_service s ∷ writes) =
      let rest : List (String × Map String) = listed namespace deployment writes in
      if is_ok (api.write (create_service s))
        && (s.namespace == namespace)
        && (value_at label_deployment s.labels == deployment)
      then (s.name, s.labels) ∷ rest
      else rest

  -- The API server after the writes: it lists what it listed before and the new services.
  abbrev pub after_writes : List Write → Api
  after_writes writes = record api {
    list_services = λ namespace deployment.
        ◌>>=◌ {B = List (String × Map String)} (api.list_services namespace deployment)
          (λ had. ok (had ++ listed namespace deployment writes));
  }

  listed-more :
      (namespace deployment : String) (x : String × Map String) (w : Write) (writes : List Write)
      → Member x (listed namespace deployment writes)
      → Member x (listed namespace deployment (w ∷ writes))
  unfolding listed
  listed-more namespace deployment x (patch_finalizers f) writes m = m
  listed-more namespace deployment x (create_deployment v) writes m = m
  listed-more namespace deployment x (create_service s) writes m =
      elim (Bool-cases (
        is_ok (api.write (create_service s))
        && (s.namespace == namespace)
        && (value_at label_deployment s.labels == deployment))) [
          | inl e ↦ rw e (inr m)
          | inr e ↦ rw e m
        ]

  pub listed-Member :
      (namespace deployment : String) (s : Service) (writes : List Write)
      → Member (create_service s) writes
      → api.write (create_service s) ≡ ok tt
      → s.namespace ≡ namespace
      → value_at label_deployment s.labels ≡ deployment
      → Member (s.name, s.labels) (listed namespace deployment writes)
  unfolding listed
  listed-Member namespace deployment s [] within accepted here labelled = elim within [ ]
  listed-Member namespace deployment s (w ∷ writes) (inl e) accepted here labelled =
      subst (λ (x : Write). Member (s.name, s.labels) (listed namespace deployment (x ∷ writes)))
        (sym e) (rw (accepted, here, labelled, eq_refl namespace, eq_refl deployment) (inl refl))
  listed-Member namespace deployment s (w ∷ writes) (inr m) accepted here labelled =
      listed-more namespace deployment (s.name, s.labels) w writes
        (listed-Member namespace deployment s writes m accepted here labelled)

  -- Each write of a pass that is done was accepted, or found its object there.
  pub written-tolerated :
      (cache : Map String) (make : String → ModelNodeSelector → Write)
      (expected : Map ModelNodeSelector)
      → (create_missing api cache make expected).1 ≡ ok tt
      → (w : Write) → Member w (create_missing api cache make expected).0
      → tolerated (api.write w) ≡ ok tt
  unfolding create_missing
  written-tolerated cache make [] done w m = elim m [ ]
  written-tolerated cache make ((v, info) ∷ expected) done w m =
      elim (Bool-cases (has_key v cache)) [
        | inl there ↦
            written-tolerated cache make expected (rw (create_missing, there) at done) w
              (rw (create_missing, there) at m)
        | inr missing ↦ elim (Outcome-cases (tolerated (api.write (make v info)))) [
          | inr (inl (x, e)) ↦ absurd (err_not_ok (rw (create_missing, missing, e) at done))
          | inr (inr e) ↦ absurd (panic_not_ok (rw (create_missing, missing, e) at done))
          | inl (u, e) ↦ elim (rw (create_missing, missing, e) at m) [
            | inl same ↦ subst (λ (x : Write). tolerated (api.write x) ≡ ok tt) same e
            | inr later ↦
                written-tolerated cache make expected (rw (create_missing, missing, e) at done) w
                  later
          ]
        ]
      ]

  pub accepted :
      (w : Write)
      → ((e : ApiError) → api.write w ≡ err e → is_already_exists e ≡ false)
      → tolerated (api.write w) ≡ ok tt
      → api.write w ≡ ok tt
  unfolding tolerated
  accepted w new t = elim (Outcome-cases (api.write w)) [
    | inl (u, e) ↦ e
    | inr (inl (x, e)) ↦ absurd (err_not_ok (rw (e, tolerated, new x e) at t))
    | inr (inr e) ↦ absurd (panic_not_ok (rw (e, tolerated) at t))
  ]

pub wanted-Member :
    (cache : Map String) (make : String → ModelNodeSelector → Write)
    (expected : Map ModelNodeSelector) (w : String) (info : ModelNodeSelector)
    → Member (w, info) expected
    → has_key w cache ≡ false
    → Member (make w info) (wanted cache make expected)
unfolding wanted
wanted-Member cache make [] w info within missing = elim within [ ]
wanted-Member cache make ((v, i) ∷ expected) w info (inl e) missing =
    subst
      (λ (x : String × ModelNodeSelector). Member (make w info) (wanted cache make (x ∷ expected)))
      (sym e) (rw missing (inl refl))
wanted-Member cache make ((v, i) ∷ expected) w info (inr within) missing =
    elim (Bool-cases (has_key v cache)) [
      | inl there ↦ rw there (wanted-Member cache make expected w info within missing)
      | inr other ↦ rw other (inr (wanted-Member cache make expected w info within missing))
    ]

pub cache_of-append :
    (xs ys : List (String × Map String)) (c : Map String)
    → cache_of (xs ++ ys) c ≡ cache_of ys (cache_of xs c)
unfolding cache_of
cache_of-append [] ys c = refl
cache_of-append ((name, labels) ∷ xs) ys c = cache_of-append xs ys _

pub cache_of-Member :
    (api : Api) (d : InferModelDeployment) (name : String) (labels : Map String)
    (items : List (String × Map String)) (c : Map String)
    → Member (name, labels) items
    → value_at label_workload labels ≢ ""
    → has_key (value_at label_workload labels) (cache_of items c) ≡ true
unfolding cache_of
cache_of-Member api d name labels [] c within named = elim within [ ]
cache_of-Member api d name labels ((n, l) ∷ items) c (inr within) named =
    cache_of-Member api d name labels items _ within named
cache_of-Member api d name labels ((n, l) ∷ items) c (inl e) named =
    subst
      (λ (x : String × Map String).
        has_key (value_at label_workload labels) (cache_of (x ∷ items) c) ≡ true)
      (sym e)
      (elim (Bool-cases (value_at label_workload labels == "")) [
        | inl empty ↦ absurd (named ((eq_iff (value_at label_workload labels) "").0 empty))
        | inr full ↦ rw full (
            has_key-cache_of api d items (insert (value_at label_workload labels) name c)
              (value_at label_workload labels)
              (ap is_some (lookup-insert_self (value_at label_workload labels) name c)))
      ])
