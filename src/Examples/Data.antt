-- ===== src/Examples/Data.antt =====
-- The test data: libraries that the models take as arguments, a pool, and a broker.
use text.Mathlib.TextPositions.{eq_refl}
use edge_q.Prelude.{
  ℕ, String, ◌≡◌, refl, ap, inl, Bool-cases, false, none, some, List, [], ◌∷◌, map, arith, Member,
  ◌==◌, if◌then◌else◌,
}
use edge_q.Prelude.Int.{ℤ, pos}
use edge_q.Outcome.{Outcome, ok, err, ok_inj}
use edge_q.Maps.{lookup, IsRange}
use edge_q.Config.{no_sub_conn, picker_nil, QueueConfig, ServiceGroup}
use edge_q.Queue.{HttpRequestItem, GrpcItem}
use edge_q.Queue.Pool.{QueuePool, Pick}
use edge_q.Queue.Pool.Delivery.{IsSound}
use edge_q.Picker.{AttributeLibrary, WeightedRand, wrr, err_picker, wrr_picker}
use edge_q.Scheduler.{Scheduler}
use edge_q.Broker.{Broker, Env, Sample}

abbrev pub pair_attributes : AttributeLibrary
pair_attributes = record {
  Attributes = String × ℤ;
  new = λ key v. (key, v);
  value = λ a key. if a.0 == key then some a.1 else none;
  value-new = λ key v. rw (eq_refl key) refl;
}

abbrev pub first_choice : {A : Type 0} → List (A × ℤ) → Outcome String A
first_choice [] = err "no choices"
first_choice ((a, w) ∷ choices) = ok a

pub first_choice-Member :
    {A : Type 0} (cs : List (A × ℤ)) (c : A) (draw : ℕ)
    → first_choice cs ≡ ok c
    → Member c (map (λ x. x.0) cs)
first_choice-Member [] c draw e = cc
first_choice-Member ((a, w) ∷ cs) c draw e = inl (ok_inj e)

-- A chooser that always takes the first choice.
abbrev pub first_rand : (A : Type 0) → WeightedRand A
first_rand A = record {
  Chooser = A;
  new_chooser = first_choice;
  choose = λ c draw. c;
  choose-Member = first_choice-Member;
}

abbrev pub pick_first : {A : Type 0} → Pick A ℕ
pick_first s [] = err no_sub_conn
pick_first s (a ∷ cs) = ok (a, s)

pick_first-chooses :
    {A : Type 0} (s s' : ℕ) (cs : List A) (a : A) → pick_first s cs ≡ ok (a, s') → Member a cs
pick_first-chooses s s' [] a e = cc
pick_first-chooses s s' (b ∷ cs) a e = inl (ap (λ (x : _ × ℕ). x.0) (ok_inj e))

pub pick_first-IsSound : {A : Type 0} → IsSound (pick_first {A = A})
pick_first-IsSound = record { chooses = pick_first-chooses }

abbrev pub config : QueueConfig
config = record { size = pos 4 }

abbrev pub gold : ServiceGroup
gold = record { name = "gold"; reclaimable = false; weight = pos 3 }

abbrev pub request : HttpRequestItem
request = record { service_group = "default"; create_time = 3; req = 7; wait_chan = 0 }

abbrev pub call : GrpcItem
call = record { service_group = "default"; create_time = 3; wait_chan = 0 }

-- A pool of the default queue with the given items.
abbrev pub pool_of : {A : Type 0} → List A → QueuePool A
pool_of items = record { queues = ("default", record { max_size = pos 4; list = items }) ∷ [] }

pub only_default : {A : Type 0} (items : List A) → IsRange ("default" ∷ []) (pool_of items).queues
unfolding lookup
only_default items = record { visits = λ k. ground (arith, Bool-cases ("default" == k)) }

abbrev pub scheduler : Scheduler
scheduler = record {
  builder = wrr;
  picker = some (wrr_picker (record { weights = ("default", pos 1) ∷ [] }));
  err_picker = err_picker picker_nil;
}

abbrev pub sample : ℕ → Sample
sample d = record { method = "WRR"; service_group = "default"; duration = d }

abbrev pub env : Env
env = record { draw = 0; order = "default" ∷ []; now = 9; stopped = false; stopped_later = false }

-- A broker with one request in the queue, and the same after it was handled.
abbrev pub http_waiting : Broker HttpRequestItem
http_waiting = record {
  queue_pool = pool_of (request ∷ []);
  scheduler = scheduler;
  schedule_method = "WRR";
  work_pool_size = 1;
  work_pool = 0;
  made = 1;
  closed = [];
  received = sample 0 ∷ [];
  waited = [];
  handled = [];
  answered = [];
}

abbrev pub http_answered : Broker HttpRequestItem
http_answered = record {
  queue_pool = pool_of [];
  scheduler = scheduler;
  schedule_method = "WRR";
  work_pool_size = 1;
  work_pool = 0;
  made = 1;
  closed = 0 ∷ [];
  received = sample 0 ∷ [];
  waited = sample 6 ∷ [];
  handled = sample 0 ∷ [];
  answered = sample 6 ∷ [];
}

abbrev pub grpc_waiting : Broker GrpcItem
grpc_waiting = record {
  queue_pool = pool_of (call ∷ []);
  scheduler = scheduler;
  schedule_method = "WRR";
  work_pool_size = 1;
  work_pool = 0;
  made = 1;
  closed = [];
  received = sample 0 ∷ [];
  waited = [];
  handled = [];
  answered = [];
}

abbrev pub grpc_answered : Broker GrpcItem
grpc_answered = record {
  queue_pool = pool_of [];
  scheduler = scheduler;
  schedule_method = "WRR";
  work_pool_size = 1;
  work_pool = 0;
  made = 1;
  closed = 0 ∷ [];
  received = sample 0 ∷ [];
  waited = sample 6 ∷ [];
  handled = [];
  answered = [];
}
