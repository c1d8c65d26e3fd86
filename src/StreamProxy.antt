-- ===== src/StreamProxy.antt =====
-- pkg/endpoint/pool/handler.go: the proxy of gRPC streams. What the libraries answer to the calls of
-- one kind is a list, in the order of the calls; a call that finds the list empty is still waiting.
pub mod Attempts
pub mod Frames
pub mod Ends
pub mod Handling
use Prim.Native.String.{◌++◌ as cat}
use edge_q.Prelude.{
  ℕ, zero, suc, String, Bool, true, map, ◌≡◌, refl, ◌⊎◌, inl, inr, Option, none, some, List, [],
  ◌∷◌, ◌++◌,
}

-- The codec: a frame keeps its bytes, and any other message is the parent codec's.
pub data Message (M : Type 0) : Type 0 where
  frame : List ℕ → Message M
  other : M → Message M

pub record Codec (M : Type 0) : Type 0 where
  pub marshal : M → String ⊎ List ℕ
  pub unmarshal : List ℕ → M → String ⊎ M
  pub name : String

module _ {M : Type 0} where
  unfoldable pub marshal : Codec M → Message M → String ⊎ List ℕ
  marshal parent (frame payload) = inr payload
  marshal parent (other v) = parent.marshal v

  -- The message as it is left in the destination.
  unfoldable pub unmarshal : Codec M → List ℕ → Message M → String ⊎ Message M
  unmarshal parent bytes (frame payload) = inr (frame bytes)
  unmarshal parent bytes (other v) = elim (parent.unmarshal bytes v) [
    | inl e ↦ inl e
    | inr w ↦ inr (other w)
  ]

  unfoldable pub codec_string : Codec M → String
  codec_string parent = cat "proxy>" parent.name

-- What is registered with a server: a stream in both directions for each method.
pub record StreamDesc : Type 0 where
  pub stream_name : String
  pub server_streams : Bool
  pub client_streams : Bool

pub record ServiceDesc : Type 0 where
  pub service_name : String
  pub streams : List StreamDesc

unfoldable pub register_service : String → List String → ServiceDesc
register_service service_name method_names = record {
  service_name = service_name;
  streams =
      map (λ (m : String). record { stream_name = m; server_streams = true; client_streams = true })
        method_names;
}

-- What a call that is tried again comes to, with the answers that are left.
pub data Tries (E A : Type 0) : Type 0 where
  got : A → List (E ⊎ A) → Tries E A
  gave_up : E → List (E ⊎ A) → Tries E A
  waits : Tries E A

module _ {E A : Type 0} where
  -- `for ; c < n; c++`, after a call that failed with the error
  unfoldable pub retry : ℕ → E → List (E ⊎ A) → Tries E A
  retry zero e answers = gave_up e answers
  retry (suc c) e [] = waits
  retry (suc c) e (inl e' ∷ answers) = retry c e' answers
  retry (suc c) e (inr a ∷ answers) = got a answers

  -- A call that is tried again up to n times.
  unfoldable pub tries : ℕ → List (E ⊎ A) → Tries E A
  unfolding retry
  tries n [] = waits
  tries n (inl e ∷ answers) = retry n e answers
  tries n (inr a ∷ answers) = got a answers

abbrev pub grpc_retry_times_int : ℕ
grpc_retry_times_int = 10

-- The error of a call on a stream: io.EOF, or another one.
pub data End : Type 0 where
  eof : End
  failed : String → End

abbrev pub Payload : Type 0
Payload = List ℕ

-- `RecvMsg`: an end of the stream is not tried again, unless it comes after an error.
unfoldable pub receive : List (End ⊎ Payload) → Tries End Payload
receive [] = waits
receive (inl eof ∷ answers) = gave_up eof answers
receive (inl (failed e) ∷ answers) = retry grpc_retry_times_int (failed e) answers
receive (inr payload ∷ answers) = got payload answers

-- The header of the source and what sending it gives; none where the direction has no header.
pub record HeaderCalls : Type 0 where
  pub header : End ⊎ String
  pub send_header : String → Option End

unfoldable pub forward_header : Option HeaderCalls → ℕ → Option End
forward_header none i = none
forward_header (some calls) (suc i) = none
forward_header (some calls) zero = elim calls.header [
  | inl e ↦ some e
  | inr md ↦ calls.send_header md
]

-- How far a direction has come: it ended, it waits in a call, or the fuel is out.
pub data Ending : Type 0 where
  ended : End → Ending
  is_waiting out_of_fuel : Ending

-- The frames sent, the frame that was received and is not sent, and what is still to be received.
pub record Forwarded : Type 0 where
  pub sent : List Payload
  pub in_hand : List Payload
  pub left : List (End ⊎ Payload)
  pub ending : Ending

abbrev pub sent_before : Payload → Forwarded → Forwarded
sent_before payload f = record f { sent = payload ∷ f.sent }

-- The loop of `forwardServerToClient` (without header) and `forwardClientToServer`, from round i. The
-- error of any call is put on the channel as it is: an io.EOF of `SendMsg` too ends the direction as
-- io.EOF does.
unfoldable pub forward :
    ℕ → Option HeaderCalls → ℕ → List (End ⊎ Payload) → List (End ⊎ Unit {0}) → Forwarded
forward zero calls i incoming answers = record {
  sent = [];
  in_hand = [];
  left = incoming;
  ending = out_of_fuel;
}
forward (suc fuel) calls i incoming answers = elim (receive incoming) [
  | waits ↦ record { sent = []; in_hand = []; left = []; ending = is_waiting }
  | gave_up e left ↦ record { sent = []; in_hand = []; left = left; ending = ended e }
  | got payload left ↦ elim (forward_header calls i) [
    | some e ↦ record { sent = []; in_hand = payload ∷ []; left = left; ending = ended e }
    | none ↦ elim (tries grpc_retry_times_int answers) [
      | waits ↦ record { sent = []; in_hand = payload ∷ []; left = left; ending = is_waiting }
      | gave_up e answers' ↦ record {
        sent = [];
        in_hand = payload ∷ [];
        left = left;
        ending = ended e;
      }
      | got _ answers' ↦ sent_before payload (forward fuel calls (suc i) left answers')
    ]
  ]
]

abbrev pub forward_server_to_client : ℕ → List (End ⊎ Payload) → List (End ⊎ Unit {0}) → Forwarded
forward_server_to_client fuel incoming answers = forward fuel none 0 incoming answers

abbrev pub forward_client_to_server :
    ℕ → HeaderCalls → List (End ⊎ Payload) → List (End ⊎ Unit {0}) → Forwarded
forward_client_to_server fuel calls incoming answers = forward fuel (some calls) 0 incoming answers

-- What `select` takes: each channel gives one value.
pub data Ready : Type 0 where
  s2c c2s : End → Ready

-- What the handler does to the streams and to the connection.
pub data Effect : Type 0 where
  close_send set_trailer client_cancel conn_close : Effect

pub data Status : Type 0 where
  nil : Status
  error : String → Status

abbrev pub never_reached : String
never_reached = "gRPC proxying should never reach this stage."

-- The effects and the result, none where `select` still waits.
unfoldable pub await_ends : ℕ → List Ready → List Effect × Option Status
await_ends zero ready = ([], some (error never_reached))
await_ends (suc i) [] = ([], none)
await_ends (suc i) (s2c eof ∷ ready) =
    let rest : List Effect × Option Status = await_ends i ready in (close_send ∷ rest.0, rest.1)
await_ends (suc i) (s2c (failed e) ∷ ready) =
    (client_cancel ∷ [], some (error (cat "failed proxying s2c: " e)))
await_ends (suc i) (c2s eof ∷ ready) = (set_trailer ∷ [], some nil)
await_ends (suc i) (c2s (failed e) ∷ ready) = (set_trailer ∷ [], some (error e))

-- The deferred calls, once the handler returns.
abbrev pub deferred : List Effect → Option Status → List Effect
deferred effects none = effects
deferred effects (some status) = effects ++ client_cancel ∷ conn_close ∷ []

module _ {Conn : Type 0} where
  -- The method's name, the answers of `GetConn` and of `NewClientStream`, and the ends that come.
  unfoldable pub handler :
      Option String
      → List (String ⊎ Conn)
      → List (String ⊎ Unit {0})
      → List Ready
      → List Effect × Option Status
  handler none conns streams ready = ([], some (error "lowLevelServerStream not exists in context"))
  handler (some full_method_name) conns streams ready = elim (tries grpc_retry_times_int conns) [
    | waits ↦ ([], none)
    | gave_up e _ ↦ ([], some (error e))
    | got conn _ ↦ elim (tries grpc_retry_times_int streams) [
      | waits ↦ ([], none)
      | gave_up e _ ↦ (deferred [] (some (error e)), some (error e))
      | got _ _ ↦ let (effects, status) = await_ends 2 ready in (deferred effects status, status)
    ]
  ]
