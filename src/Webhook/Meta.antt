-- ===== src/Webhook/Meta.antt =====
-- internal/controller/webhook.go, `GetDeployMetaFromPod`: the workload that a pod belongs to, by its
-- controlling owner and its labels. `cron_job` is the match of the regular expression for the jobs of
-- a CronJob, the name before the time.
use Prim.Native.String.{◌++◌ as cat}
use text.Mathlib.TextLemmas.{append_assoc}
use edge_q.Prelude.{
  String, ◌≡◌, ◌≢◌, sym, ap, ◌∙◌, Bool, true, false, not, ◌&&◌, Option, none, some, List, [], ◌∷◌,
  ◌==◌, eq_iff, arith, if◌then◌else◌,
}
use edge_q.Text.{has_suffix, trim_suffix, has_suffix-cat, trim_suffix-cat}
use edge_q.Maps.{Map}
use edge_q.K8s.{NamespacedName, OwnerReference, Pod, value_at}

abbrev is_controller : Option Bool → Bool
is_controller none = false
is_controller (some b) = b

-- The first reference that controls the pod.
unfoldable pub controller_of : List OwnerReference → Option OwnerReference
controller_of [] = none
controller_of (ref ∷ refs) = if is_controller ref.controller then some ref else controller_of refs

pub record TypeMeta : Type 0 where
  pub kind : String
  pub api_version : String

ne_empty : (x : String) → x ≢ "" → (x == "") ≡ false
ne_empty x h = ground (arith, eq_iff x "")

module _ (cron_job : String → Option String) where
  -- The name, kind and version for a controlling owner.
  owner_meta : Map String → OwnerReference → String × TypeMeta
  owner_meta labels ref =
      if ref.kind == "ReplicaSet"
        && (not (value_at "pod-template-hash" labels == "")
            && has_suffix ref.name (value_at "pod-template-hash" labels))
      then (
        trim_suffix ref.name (cat "-" (value_at "pod-template-hash" labels)),
        record { kind = "Deployment"; api_version = ref.api_version },
      )
      else if ref.kind == "ReplicaSet"
          && (not (value_at "rollouts-pod-template-hash" labels == "")
              && has_suffix ref.name (value_at "rollouts-pod-template-hash" labels))
      then (
        trim_suffix ref.name (cat "-" (value_at "rollouts-pod-template-hash" labels)),
        record { kind = "Rollout"; api_version = "v1alpha1" },
      )
      else if ref.kind == "ReplicationController" && not (value_at "deploymentconfig" labels == "")
      then (
        value_at "deploymentconfig" labels,
        record { kind = "DeploymentConfig"; api_version = ref.api_version },
      )
      else if ref.kind == "Job"
      then elim (cron_job ref.name) [
        | none ↦ (ref.name, record { kind = ref.kind; api_version = ref.api_version })
        | some job ↦ (job, record { kind = "CronJob"; api_version = "batch/v1" })
      ]
      else (ref.name, record { kind = ref.kind; api_version = ref.api_version })

  heuristic : Pod → Option OwnerReference → String × TypeMeta
  unfolding owner_meta
  heuristic pod none = (pod.name, record { kind = "Pod"; api_version = "v1" })
  heuristic pod (some ref) = owner_meta pod.labels ref

  unfoldable pub get_deploy_meta_from_pod : Pod → NamespacedName × TypeMeta
  unfolding heuristic
  get_deploy_meta_from_pod pod =
      let found : Option OwnerReference =
        if pod.generate_name == "" then none else controller_of pod.owner_references in
      let (name, type_meta) = heuristic pod found in
      (
        record { name = if name == "" then pod.name else name; namespace = pod.namespace },
        type_meta,
      )

  replica_set :
      (labels : Map String) (ref : OwnerReference) (deploy hash : String)
      → ref.kind ≡ "ReplicaSet"
      → value_at "pod-template-hash" labels ≡ hash
      → hash ≢ ""
      → ref.name ≡ cat deploy (cat "-" hash)
      → owner_meta labels ref
        ≡ (deploy, record { kind = "Deployment"; api_version = ref.api_version })
  unfolding owner_meta
  replica_set labels ref deploy hash kind label hashed name =
      let ends : has_suffix ref.name hash ≡ true = rw name (
        ap (λ (x : String). has_suffix x hash) (sym (append_assoc deploy "-" hash))
        ∙ has_suffix-cat (cat deploy "-") hash) in
      let trims : trim_suffix ref.name (cat "-" hash) ≡ deploy =
        rw name (trim_suffix-cat deploy (cat "-" hash)) in
      rw label (rw ((eq_iff ref.kind "ReplicaSet").1 kind, ne_empty hash hashed, ends) (rw trims))

  -- A pod that a Deployment runs: its name is generated, and the first owner that controls it is the
  -- ReplicaSet that Kubernetes names for the Deployment and for the hash in the label of the pod. The
  -- workload is that Deployment, in the namespace of the pod.
  pub deployment_found :
      (pod : Pod) (ref : OwnerReference) (deploy hash : String)
      → pod.generate_name ≢ ""
      → controller_of pod.owner_references ≡ some ref
      → ref.kind ≡ "ReplicaSet"
      → value_at "pod-template-hash" pod.labels ≡ hash
      → hash ≢ ""
      → deploy ≢ ""
      → ref.name ≡ cat deploy (cat "-" hash)
      → (get_deploy_meta_from_pod pod).0 ≡ record { name = deploy; namespace = pod.namespace }
  unfolding get_deploy_meta_from_pod
  deployment_found pod ref deploy hash generated owner kind label hashed named name =
      let found : heuristic pod (controller_of pod.owner_references)
          ≡ (deploy, record { kind = "Deployment"; api_version = ref.api_version }) =
        rw owner (replica_set pod.labels ref deploy hash kind label hashed name) in
      rw (ne_empty pod.generate_name generated) (rw found (rw (ne_empty deploy named)))
