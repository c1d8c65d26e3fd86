-- ===== src/Holder.antt =====
-- internal/proxy/holder: callers that wait for the response to a request, each on a channel of its
-- own. Channels are known by the numbers in which they were made; what is sent to a channel is kept
-- with it, whether or not there is room.
pub mod Removal
pub mod Channels
pub mod Everyone
pub mod Room
use edge_q.Prelude.{
  ◌≡◌, ℕ, suc, String, Bool, true, false, Option, none, some, List, [], ◌∷◌, ◌++◌, ◌==◌, eqb,
  if◌then◌else◌,
}
use edge_q.Maps.{Map, lookup, insert}

pub data Status : Type 0 where
  status_none status_canceled status_ok status_failed status_timeout : Status

pub record Response : Type 0 where
  pub id : String
  pub status : Status
  pub err_message : String

-- `id_of` and `armed` are what the goroutine of a waiter knows: its id, and whether it still waits.
pub record Holder : Type 0 where
  pub holders : Map ℕ
  pub made : ℕ
  pub id_of : ℕ → String
  pub armed : ℕ → Bool
  pub sent : ℕ → List Response
  pub answered : ℕ → List Response

-- A function with another value at one number.
abbrev pub update {ℓ} : {A : Type ℓ} → ℕ → A → (ℕ → A) → ℕ → A
update c a f d = if eqb c d then a else f d

-- `delete(m, k)`
unfoldable pub remove {ℓ} : {V : Type ℓ} → String → Map V → Map V
remove k [] = []
remove k ((j, v) ∷ m) = let rest = remove k m in if j == k then rest else (j, v) ∷ rest

unfoldable pub new : Holder
new = record {
  holders = [];
  made = 0;
  id_of = λ c. "";
  armed = λ c. false;
  sent = λ c. [];
  answered = λ c. [];
}

unfoldable pub wait : String → Holder → Holder
wait id h = record h {
  holders = insert id h.made h.holders;
  made = suc h.made;
  id_of = update h.made id h.id_of;
  armed = update h.made true h.armed;
  sent = update h.made [] h.sent;
  answered = update h.made [] h.answered;
}

-- `ch <- resp`
abbrev pub send : ℕ → Response → (ℕ → List Response) → ℕ → List Response
send c resp sent = update c (sent c ++ resp ∷ []) sent

-- Why the goroutine of a waiter ends: its context is done, with an error or without, or it is too late.
pub data Reason : Type 0 where
  context_done : Option String → Reason
  timeout : Reason

unfoldable pub last_response : String → Reason → Response
last_response id timeout = record {
  id = id;
  status = status_timeout;
  err_message = "waiting response timeout";
}
last_response id (context_done none) = record { id = id; status = status_none; err_message = "" }
last_response id (context_done (some e)) = record {
  id = id;
  status = status_canceled;
  err_message = e;
}

-- The end of the goroutine of the waiter with channel c.
unfoldable pub expire : ℕ → Reason → Holder → Holder
expire c reason h = record h {
  holders = remove (h.id_of c) h.holders;
  armed = update c false h.armed;
  sent = send c (last_response (h.id_of c) reason) h.sent;
}

unfoldable pub notify : Response → Holder → Holder
notify resp h = elim (lookup resp.id h.holders) [
  | none ↦ h
  | some c ↦ record h { holders = remove resp.id h.holders; sent = send c resp h.sent }
]

abbrev pub canceled : String → Response
canceled id = record { id = id; status = status_canceled; err_message = "canceled" }

unfoldable pub cancel_each : Map ℕ → (ℕ → List Response) → ℕ → List Response
cancel_each [] sent = sent
cancel_each ((id, c) ∷ holders) sent = cancel_each holders (send c (canceled id) sent)

unfoldable pub cancel : Holder → Holder
cancel h = record h { sent = cancel_each h.holders h.sent }

-- `<-w.ch`: the caller takes the first response of its channel, if there is one.
unfoldable pub take_response : ℕ → Holder → Holder
take_response c h = elim (h.sent c) [
  | [] ↦ h
  | resp ∷ rest ↦ record h {
    sent = update c rest h.sent;
    answered = update c (h.answered c ++ resp ∷ []) h.answered;
  }
]

-- What happens to a holder, in any order; a goroutine ends once.
pub data Runs : ℕ → Holder → Type 0 where
  starts : Runs 0 new
  waits : {k : ℕ} {h : Holder} (id : String) → Runs k h → Runs k (wait id h)
  expires :
      {k : ℕ} {h : Holder} (c : ℕ) (reason : Reason)
      → h.armed c ≡ true
      → Runs k h
      → Runs k (expire c reason h)
  notified : {k : ℕ} {h : Holder} (resp : Response) → Runs k h → Runs k (notify resp h)
  cancels : {k : ℕ} {h : Holder} → Runs k h → Runs (suc k) (cancel h)
  takes : {k : ℕ} {h : Holder} (c : ℕ) → Runs k h → Runs k (take_response c h)
