-- ===== src/Examples/Passing.antt =====
-- Two passes of the controller over an instance with one workload, its service going to the namespace
-- of the instance.
use edge_q.Prelude.{[], ◌∷◌}
use edge_q.Outcome.{ok}
use edge_q.Deployment.{InferModelDeployment}
use edge_q.Deployment.Rollout
use edge_q.Examples.Admission.{proxy, broker}
use edge_q.Examples.Reconciling.{instance_of_two, api}

abbrev server : Rollout.Api
server = record api {
  get_config_map = λ a b. ok (("edge-qos-proxy.yaml", "p") ∷ ("edge-qos-broker.yaml", "b") ∷ []);
  unmarshal_proxy = λ s. ok proxy;
  unmarshal_broker = λ s. ok broker;
}

abbrev at_home : InferModelDeployment
at_home = record instance_of_two { namespace = "ns" }
