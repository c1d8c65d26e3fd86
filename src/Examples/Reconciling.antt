-- ===== src/Examples/Reconciling.antt =====
-- Runs of the controllers, the pool of connections and the deletion of deployments.
use Prim.Native.String.{count}
use edge_q.Prelude.{
  ℕ, ◌≤◌, ◌≡◌, ◌≢◌, refl, inl, inr, ◌⊎◌, String, Bool, true, false, some, List, [], ◌∷◌, ◌++◌,
  eq_iff, arith, Member, ◌&&◌, ◌||◌,
}
use edge_q.Prelude.Int.{pos}
use edge_q.Outcome.{Outcome, ok, err}
use edge_q.Maps.{Map, has_key}
use edge_q.K8s.{not_found, ServiceGroupItem}
use edge_q.Utils.{has_string}
use edge_q.Deployment.{ModelNodeSelector, InferModelDeployment, PodTemplate, safe_concat_name}
use edge_q.Deployment.Names.{safe_concat_name-bound}
use edge_q.Deployment.Rollout
use edge_q.Deployment.Rollout.{
  Write, create_missing, create_service, create_deployment, cache_of, new_deployment, reconcile,
  patch_finalizers, finalizer,
}
use edge_q.Deployment.Laws.{
  wanted, created_deployments, create_missing-wanted, deployments_are_asked_again,
  reconcile_deleted,
}
use edge_q.ConnPool.{Pool, Net, Client, received, acquire, close_client, PoolError}
use edge_q.ConnPool.Leases.{HasRoom, handed_after, acquire-HasRoom, close_client-HasRoom}
use edge_q.ModelService.{mark_used}
use edge_q.ModelService.Groups.{any_in_group, is_used_in, mark_used_iff}
use edge_q.Template
use edge_q.Template.{Version, sync_versions}
use edge_q.Template.Sync.{needed, sync_versions-needed}
use edge_q.Apps.{delete_infer_model_deployment}
use edge_q.Apps.Orphans.{Removes, deletion_misses_deployments}
use edge_q.Examples.Admission.{pod}

abbrev selector : ModelNodeSelector
selector = record { project = "ns"; node_group = "g"; node_name = "n"; host_port = pos 80 }

abbrev template : PodTemplate
template = record { labels = []; node_selector = []; tolerations = []; rest = 0 }

abbrev pub instance_of_two : InferModelDeployment
instance_of_two = record {
  name = "m";
  namespace = "own";
  api_version = "v1";
  kind = "InferModelDeployment";
  deleted = true;
  finalizers = finalizer ∷ [];
  im_template_name = "t";
  version = "v";
  replicas = 1;
  template = template;
  strategy = 0;
  node_selectors = selector ∷ [];
}

abbrev pub api : Rollout.Api
api = record {
  get_instance = ok instance_of_two;
  list_versions = λ a b. ok ([] ∷ []);
  list_services = λ a b. ok [];
  list_deployments = λ a b. ok [];
  current_namespace = ok "own";
  get_config_map = λ a b. err not_found;
  unmarshal_proxy = λ s. err not_found;
  unmarshal_broker = λ s. err not_found;
  write = λ w. ok tt;
  digest = λ s. s;
  replace_all = λ s. s;
  visit = λ m. m;
}

abbrev pub expected : Map ModelNodeSelector
expected = ("g-n", selector) ∷ []

abbrev make : String → ModelNodeSelector → Write
make w info = create_deployment (new_deployment api instance_of_two w info)

safe_concat_name-bound_example :
    count (safe_concat_name (λ s. s) (λ s. s) ("model" ∷ "g-n" ∷ [])) ≤ 63
safe_concat_name-bound_example =
    safe_concat_name-bound (λ s. s) (λ s. s) ("model" ∷ "g-n" ∷ []) (λ s. omega arith)

create_missing-wanted_example :
    (left : List Write) × ((create_missing api [] make expected).0 ++ left
      ≡ wanted [] make expected)
    × ((create_missing api [] make expected).1 ≡ ok tt → left ≡ [])
create_missing-wanted_example = create_missing-wanted api [] make expected

deployments_are_asked_again_example :
    cache_of (created_deployments api instance_of_two expected) [] ≡ []
deployments_are_asked_again_example = deployments_are_asked_again api instance_of_two expected []

reconcile_deleted_example :
    ((has_string instance_of_two.finalizers finalizer ≡ false) × ((reconcile api).0 ≡ []))
    ⊎ ((left : List String) × (has_string instance_of_two.finalizers finalizer ≡ true)
        × ((reconcile api).0 ≡ patch_finalizers left ∷ [])
        × (has_string left finalizer ≡ false)
        × ((f : String)
            → f ≢ finalizer
            → has_string left f ≡ has_string instance_of_two.finalizers f))
reconcile_deleted_example = reconcile_deleted api instance_of_two refl refl

abbrev client : Client
client = record { conn = some 0; time_used = 1; time_init = 1 }

abbrev full : Pool
full = record {
  clients = some (client ∷ []);
  capacity = 2;
  idle_dur = 5;
  max_life_dur = 0;
  status = true;
}

abbrev net : Net
net = record { dialled = 1; opened = 0 ∷ [] }

abbrev dials : ℕ → Bool
dials n = true

acquire-HasRoom_example :
    ((received ≡ received) × (full.clients ≡ some []))
    ⊎ ((r : Pool × Net × Outcome PoolError Client) × (acquire dials received 3 full net ≡ some r)
        × HasRoom r.0 (handed_after r.2 1))
acquire-HasRoom_example = acquire-HasRoom dials received 3 full net 1 (omega arith)

close_client-HasRoom_example :
    (r : Pool × Net) × (close_client 3 full net client ≡ some r) × HasRoom r.0 0
close_client-HasRoom_example = close_client-HasRoom 3 full net client 0 (omega arith)

abbrev no_net : Net
no_net = record { dialled = 0; opened = [] }

abbrev fresh : Client
fresh = record { conn = some 0; time_used = 3; time_init = 3 }

abbrev groups : Map ServiceGroupItem
groups = ("gold", record { name = "gold"; client = ""; is_used = false }) ∷ []

mark_used_iff_example :
    (has_key "gold" (mark_used (pod ∷ []) groups) ≡ has_key "gold" groups)
    × (is_used_in "gold" (mark_used (pod ∷ []) groups)
        ≡ (is_used_in "gold" groups || (has_key "gold" groups && any_in_group "gold" (pod ∷ []))))
mark_used_iff_example = mark_used_iff (pod ∷ []) groups "gold"

abbrev template_api : Template.Api
template_api = record {
  get_instance = err not_found;
  list_versions = λ s. ok [];
  list_templates = λ s. ok [];
  write = λ w. ok tt;
  deep_equal = λ a b. false;
}

abbrev versions : List Version
versions = record { name = "v1"; service_group = [] } ∷ []

sync_versions-needed_example :
    (left : List Template.Write) × ((sync_versions template_api (("gold", pos 3) ∷ []) versions).0
        ++ left
      ≡ needed template_api (("gold", pos 3) ∷ []) versions)
    × ((sync_versions template_api (("gold", pos 3) ∷ []) versions).1 ≡ ok tt → left ≡ [])
sync_versions-needed_example = sync_versions-needed template_api (("gold", pos 3) ∷ []) versions

others : (s : ModelNodeSelector) → Member s (selector ∷ []) → s.project ≢ "own"
others s (inl e) same = absurd (ground (arith, eq_iff "ns" "own"))
others s (inr within) same = elim within [ ]

deletion_misses_deployments_example :
    ¬ Removes
      (delete_infer_model_deployment (λ d. ok tt) (ok instance_of_two) true).0
      (new_deployment api instance_of_two "g-n" selector).namespace
deletion_misses_deployments_example =
    deletion_misses_deployments (λ d. ok tt) api instance_of_two "g-n" selector others
