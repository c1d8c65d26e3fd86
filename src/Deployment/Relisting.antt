-- ===== src/Deployment/Relisting.antt =====
-- pkg/controllers/imdeployment/imdeployment_controller.go, `deployInferModelServices`: what a pass reads
-- before it creates, and what it does where the API server lists other services.
use edge_q.Prelude.{String, ◌≡◌, refl, inl, inr, List, List-cases, [], ◌∷◌}
use edge_q.Outcome.{Outcome, ok, Outcome-cases, err_not_ok, panic_not_ok}
use edge_q.Maps.{Map}
use edge_q.K8s.{ApiError, EdgeQosProxyConfig, EdgeQosBrokerConfig}
use edge_q.Deployment.{ModelNodeSelector, InferModelDeployment}
use edge_q.Deployment.Rollout.{
  Api, Version, Write, create_service, create_missing, cache_of, new_service,
  deploy_infer_model_services, load_proxy_cm, load_broker_cm, config_content,
}

module _ (api : Api) (d : InferModelDeployment) where
  -- The API server with another answer to the lists of services.
  abbrev pub relisted : (String → String → Outcome ApiError (List (String × Map String))) → Api
  relisted listing = record api { list_services = listing }

  abbrev pub make_service :
      EdgeQosProxyConfig → EdgeQosBrokerConfig → String → ModelNodeSelector → Write
  make_service p b w info = create_service (new_service api d p b w info)

  same_proxy :
      (listing : String → String → Outcome ApiError (List (String × Map String)))
      → load_proxy_cm (relisted listing) ≡ load_proxy_cm api
  unfolding load_proxy_cm config_content
  same_proxy listing = refl

  same_broker :
      (listing : String → String → Outcome ApiError (List (String × Map String)))
      (version : Version)
      → load_broker_cm (relisted listing) version ≡ load_broker_cm api version
  unfolding load_broker_cm config_content
  same_broker listing version = refl

  -- A pass that is done has read what it needs; with another list it goes on as the list says.
  pub deploy_done :
      (expected : Map ModelNodeSelector)
      → (deploy_infer_model_services api d expected).1 ≡ ok tt
      → (had : List (String × Map String)) × (p : EdgeQosProxyConfig) × (b : EdgeQosBrokerConfig)
        × (api.list_services d.namespace d.name ≡ ok had)
        × (deploy_infer_model_services api d expected
            ≡ create_missing api (cache_of had []) (make_service p b) expected)
        × ((listing : String → String → Outcome ApiError (List (String × Map String)))
              (got : List (String × Map String)) (again : Map ModelNodeSelector)
            → listing d.namespace d.name ≡ ok got
            → deploy_infer_model_services (relisted listing) d again
              ≡ create_missing (relisted listing) (cache_of got []) (make_service p b) again)
  unfolding deploy_infer_model_services new_service
  deploy_done expected done =
      elim (Outcome-cases (api.list_versions d.im_template_name d.version)) [
        | inr (inl (x, v)) ↦ absurd (err_not_ok (rw (deploy_infer_model_services, v) at done))
        | inr (inr v) ↦ absurd (panic_not_ok (rw (deploy_infer_model_services, v) at done))
        | inl (versions, v) ↦ elim (List-cases versions) [
          | inl n ↦ absurd (err_not_ok (rw (deploy_infer_model_services, v, n) at done))
          | inr (version, more, n) ↦ elim (Outcome-cases (api.list_services d.namespace d.name)) [
            | inr (inl (x, l)) ↦
                absurd (err_not_ok (rw (deploy_infer_model_services, v, n, l) at done))
            | inr (inr l) ↦
                absurd (panic_not_ok (rw (deploy_infer_model_services, v, n, l) at done))
            | inl (had, l) ↦ elim (Outcome-cases (load_proxy_cm api)) [
              | inr (inl (x, c)) ↦
                  absurd (err_not_ok (rw (deploy_infer_model_services, v, n, l, c) at done))
              | inr (inr c) ↦
                  absurd (panic_not_ok (rw (deploy_infer_model_services, v, n, l, c) at done))
              | inl (p, c) ↦ elim (Outcome-cases (load_broker_cm api version)) [
                | inr (inl (x, k)) ↦
                    absurd (err_not_ok (rw (deploy_infer_model_services, v, n, l, c, k) at done))
                | inr (inr k) ↦
                    absurd (panic_not_ok (rw (deploy_infer_model_services, v, n, l, c, k) at done))
                | inl (b, k) ↦ (
                  had,
                  p,
                  b,
                  l,
                  rw (deploy_infer_model_services, v, n, l, c, k) refl,
                  λ listing got again g.
                      rw
                        (
                          deploy_infer_model_services,
                          v,
                          n,
                          g,
                          same_proxy listing,
                          c,
                          same_broker listing version,
                          k,
                        )
                        refl,
                )
              ]
            ]
          ]
        ]
      ]

  pub relisted_same :
      (listing : String → String → Outcome ApiError (List (String × Map String)))
      (cache : Map String) (make : String → ModelNodeSelector → Write)
      (expected : Map ModelNodeSelector)
      → create_missing (relisted listing) cache make expected
        ≡ create_missing api cache make expected
  unfolding create_missing
  relisted_same listing cache make [] = refl
  relisted_same listing cache make ((w, info) ∷ expected) =
      rw (relisted_same listing cache make expected) refl
