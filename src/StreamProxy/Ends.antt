-- ===== src/StreamProxy/Ends.antt =====
-- pkg/endpoint/pool/handler.go, `forwardServerToClient` and `forwardClientToServer`: the end of the
-- loops.
use edge_q.Prelude.{
  ℕ, zero, suc, ◌+◌, ◌*◌, ◌≤◌, ◌<◌, ◌≡◌, refl, ap, ◌⊎◌, inl, inr, Option, Option-cases, none, List,
  [], ◌∷◌, ◌++◌, length, arith, map,
}
use edge_q.StreamProxy.{
  Tries, got, gave_up, retry, tries, End, eof, failed, Payload, receive, grpc_retry_times_int,
  HeaderCalls, forward_header, ended, forward, sent_before,
}
use edge_q.StreamProxy.Attempts.{failures}

-- A receipt that does not wait: a frame with less before the failures, or an error.
Receives : List (End ⊎ Payload) → List End → Tries End Payload → Type 0
Receives before es t =
    ((payload : Payload) × (rest : List (End ⊎ Payload)) × (t ≡ got payload (rest ++ failures es))
      × (length rest < length before))
    ⊎ ((e : End) × (left : List (End ⊎ Payload)) × (t ≡ gave_up e left))

Receives-more :
    (x : End ⊎ Payload) (before : List (End ⊎ Payload)) (es : List End) (t : Tries End Payload)
    → Receives before es t
    → Receives (x ∷ before) es t
unfolding Receives
Receives-more x before es t (inl (payload, rest, e, less)) =
    inl (payload, rest, e, omega (arith, less))
Receives-more x before es t (inr h) = inr h

retry_dry :
    (c : ℕ) (e : End) (es : List End)
    → c ≤ length es
    → (f : End) × (left : List (End ⊎ Payload)) × (retry c e (failures es) ≡ gave_up f left)
unfolding retry
retry_dry zero e es h = (e, failures es, refl)
retry_dry (suc c) e [] h = absurd (omega arith)
retry_dry (suc c) e (f ∷ es) h = retry_dry c f es (omega arith)

retry-Receives :
    (c : ℕ) (e : End) (before : List (End ⊎ Payload)) (es : List End)
    → c ≤ length es
    → Receives before es (retry c e (before ++ failures es))
unfolding retry Receives
retry-Receives c e [] es h = inr (retry_dry c e es h)
retry-Receives zero e (x ∷ before) es h = inr (e, _, refl)
retry-Receives (suc c) e (inl f ∷ before) es h =
    Receives-more (inl f) before es (retry c f (before ++ failures es))
      (retry-Receives c f before es (omega arith))
retry-Receives (suc c) e (inr payload ∷ before) es h = inl (payload, before, refl, omega arith)

receive-Receives :
    (before : List (End ⊎ Payload)) (es : List End)
    → grpc_retry_times_int < length es
    → Receives before es (receive (before ++ failures es))
unfolding receive Receives
receive-Receives [] [] h = absurd (omega arith)
receive-Receives [] (eof ∷ es) h = inr (eof, _, refl)
receive-Receives [] (failed e ∷ es) h =
    inr (retry_dry grpc_retry_times_int (failed e) es (omega arith))
receive-Receives (inl eof ∷ before) es h = inr (eof, _, refl)
receive-Receives (inl (failed e) ∷ before) es h =
    Receives-more (inl (failed e)) before es
      (retry grpc_retry_times_int (failed e) (before ++ failures es))
      (retry-Receives grpc_retry_times_int (failed e) before es (omega arith))
receive-Receives (inr payload ∷ before) es h = inl (payload, before, refl, omega arith)

module _ {E A : Type 0} where
  -- A call that does not wait, and what it takes of the answers at most.
  Takes : ℕ → List (E ⊎ A) → Tries E A → Type 0
  Takes n answers t =
      ((a : A) × (rest : List (E ⊎ A)) × (t ≡ got a rest) × (length answers ≤ n + length rest))
      ⊎ ((e : E) × (rest : List (E ⊎ A)) × (t ≡ gave_up e rest))

  Takes-more :
      (n : ℕ) (x : E ⊎ A) (answers : List (E ⊎ A)) (t : Tries E A)
      → Takes n answers t
      → Takes (suc n) (x ∷ answers) t
  unfolding Takes
  Takes-more n x answers t (inl (a, rest, e, most)) = inl (a, rest, e, omega (arith, most))
  Takes-more n x answers t (inr h) = inr h

  retry-Takes :
      (c : ℕ) (e : E) (answers : List (E ⊎ A))
      → c ≤ length answers
      → Takes c answers (retry c e answers)
  unfolding retry Takes
  retry-Takes zero e answers h = inr (e, answers, refl)
  retry-Takes (suc c) e [] h = absurd (omega arith)
  retry-Takes (suc c) e (inl f ∷ answers) h =
      Takes-more c (inl f) answers (retry c f answers) (retry-Takes c f answers (omega arith))
  retry-Takes (suc c) e (inr a ∷ answers) h = inl (a, answers, refl, omega arith)

  tries-Takes :
      (n : ℕ) (answers : List (E ⊎ A))
      → n < length answers
      → Takes (suc n) answers (tries n answers)
  unfolding tries Takes
  tries-Takes n [] h = absurd (omega arith)
  tries-Takes n (inl e ∷ answers) h =
      Takes-more n (inl e) answers (retry n e answers) (retry-Takes n e answers (omega arith))
  tries-Takes n (inr a ∷ answers) h = inl (a, answers, refl, omega arith)

-- A direction comes to an end, with an error that it puts on its channel, where its source answers,
-- from some point on, only errors, more of them than a call is tried again, and where the
-- destination answers eleven sends for each answer of the source before that point. As many rounds
-- as there are answers before it, and one, are enough.
pub forward_ends :
    (fuel : ℕ) (calls : Option HeaderCalls) (i : ℕ) (before : List (End ⊎ Payload)) (es : List End)
    (answers : List (End ⊎ Unit {0}))
    → grpc_retry_times_int < length es
    → suc grpc_retry_times_int * length before ≤ length answers
    → length before < fuel
    → (e : End) × ((forward fuel calls i (before ++ failures es) answers).ending ≡ ended e)
unfolding forward Receives Takes
forward_ends zero calls i before es answers many room h = absurd (omega arith)
forward_ends (suc fuel) calls i before es answers many room h =
    elim (receive-Receives before es many) [
      | inr (e, left, r) ↦ (e, rw (forward, r) refl)
      | inl (payload, rest, r, less) ↦ elim (Option-cases (forward_header calls i)) [
        | inr (e, m) ↦ (e, rw (forward, r, m) refl)
        | inl m ↦ elim (tries-Takes grpc_retry_times_int answers (omega arith)) [
          | inr (e, others, t) ↦ (e, rw (forward, r, m, t) refl)
          | inl (done, others, t, most) ↦
              let (e, end) =
                forward_ends fuel calls (suc i) rest es others many (omega arith) (omega arith) in
              (e, rw (forward, r, m, t) end)
        ]
      ]
    ]

-- The frames as they are received, and as many sends that are accepted.
abbrev pub received : List Payload → List (End ⊎ Payload)
received [] = []
received (payload ∷ payloads) = inr payload ∷ received payloads

-- Where nothing fails, io.EOF comes after the frames and all of them are sent: the direction ends with
-- io.EOF, all the frames are sent in their order and each once, and none is in hand.
pub forward_copies :
    (fuel : ℕ) (calls : Option HeaderCalls) (i : ℕ) (payloads : List Payload)
    (left : List (End ⊎ Payload)) (answers : List (Unit {0}))
    → ((j : ℕ) → forward_header calls j ≡ none)
    → length payloads ≤ length answers
    → length payloads < fuel
    → forward fuel calls i (received payloads ++ inl eof ∷ left) (map inr answers)
      ≡ record { sent = payloads; in_hand = []; left = left; ending = ended eof }
unfolding forward receive tries
forward_copies zero calls i payloads left answers fine room h = absurd (omega arith)
forward_copies (suc fuel) calls i [] left answers fine room h = refl
forward_copies (suc fuel) calls i (p ∷ payloads) left [] fine room h = absurd (omega arith)
forward_copies (suc fuel) calls i (p ∷ payloads) left (a ∷ answers) fine room h =
    rw (forward, fine i)
      (ap (sent_before p)
        (forward_copies fuel calls (suc i) payloads left answers fine (omega arith) (omega arith)))
