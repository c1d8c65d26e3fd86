-- ===== src/Deployment/Passes.antt =====
-- pkg/controllers/imdeployment/imdeployment_controller.go, `deployInferModelServices`: what the next pass
-- asks for, once the API server has stored the services of a pass.
use mathlib.Core.List.{append-nil}
use edge_q.Prelude.{
  String, ◌≡◌, ◌≢◌, refl, sym, ap, ◌∙◌, inl, inr, Bool-cases, List, [], ◌∷◌, ◌++◌, ◌==◌, eq_iff,
  Member, arith,
}
use edge_q.Outcome.{ok}
use edge_q.Maps.{Map, has_key}
use edge_q.K8s.{EdgeQosProxyConfig, EdgeQosBrokerConfig}
use edge_q.Deployment.{ModelNodeSelector, InferModelDeployment}
use edge_q.Deployment.Rollout.{
  Api, Write, Wrote, create_missing, cache_of, new_service, deploy_infer_model_services,
}
use edge_q.Deployment.Laws.{wanted, create_missing-wanted}
use edge_q.Deployment.Listing.{listed, after_writes}
use edge_q.Deployment.Relisting.{make_service, deploy_done, relisted_same}

module _ (api : Api) (d : InferModelDeployment) where
  -- No service that goes to another namespace is listed.
  none_listed :
      (cache : Map String) (p : EdgeQosProxyConfig) (b : EdgeQosBrokerConfig)
      (expected : Map ModelNodeSelector)
      → ((w : String) (info : ModelNodeSelector)
          → Member (w, info) expected
          → info.project ≢ d.namespace)
      → listed api d.namespace d.name (wanted cache (make_service api d p b) expected) ≡ []
  unfolding wanted listed new_service
  none_listed cache p b [] away = refl
  none_listed cache p b ((w, info) ∷ expected) away =
      let rest = none_listed cache p b expected (λ v i m. away v i (inr m)) in
      elim (Bool-cases (has_key w cache)) [
        | inl there ↦ rw there rest
        | inr missing ↦ elim (Bool-cases (info.project == d.namespace)) [
          | inl same ↦ absurd (away w info (inl refl) ((eq_iff info.project d.namespace).0 same))
          | inr other ↦ rw missing (ground (arith, other, rest))
        ]
      ]

  all_written :
      (cache : Map String) (make : String → ModelNodeSelector → Write)
      (expected : Map ModelNodeSelector)
      → (create_missing api cache make expected).1 ≡ ok tt
      → wanted cache make expected ≡ (create_missing api cache make expected).0
  all_written cache make expected done =
      let (left, all, finished) = create_missing-wanted api cache make expected in
      sym all
      ∙ ap (λ (x : List Write). (create_missing api cache make expected).0 ++ x) (finished done)
      ∙ append-nil (create_missing api cache make expected).0

  -- After a pass that is done, none of whose services goes to the namespace of the instance, the
  -- next pass does as the first did: it asks for every service again.
  pub next_pass_asks_again :
      (expected : Map ModelNodeSelector)
      → (deploy_infer_model_services api d expected).1 ≡ ok tt
      → ((w : String) (info : ModelNodeSelector)
          → Member (w, info) expected
          → info.project ≢ d.namespace)
      → deploy_infer_model_services
          (after_writes api (deploy_infer_model_services api d expected).0)
          d
          expected
        ≡ deploy_infer_model_services api d expected
  next_pass_asks_again expected done away =
      let (had, p, b, shown, first, second) = deploy_done api d expected done in
      let writes : List Write = (deploy_infer_model_services api d expected).0 in
      let next : Api = after_writes api writes in
      second next.list_services had expected (
        rw shown (
          ap ok (
            ap (λ (x : List (String × Map String)). had ++ x)
              (ap (listed api d.namespace d.name) (
                  ap (λ (x : Wrote (Unit {0})). x.0) first
                  ∙ sym (
                      all_written (cache_of had []) (make_service api d p b) expected
                        (ap (λ (x : Wrote (Unit {0})). x.1) (sym first) ∙ done)))
                ∙ none_listed (cache_of had []) p b expected away)
            ∙ append-nil had)))
      ∙ relisted_same api d next.list_services (cache_of had []) (make_service api d p b) expected
      ∙ sym first
