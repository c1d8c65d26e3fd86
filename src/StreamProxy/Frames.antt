-- ===== src/StreamProxy/Frames.antt =====
-- pkg/endpoint/pool/handler.go, `forwardServerToClient` and `forwardClientToServer`: the frames
-- that are sent.
use mathlib.Core.Path.{subst}
use mathlib.Core.List.{append_assoc}
use edge_q.Prelude.{
  ℕ, zero, suc, ◌≡◌, ◌≢◌, refl, sym, ap, ◌∙◌, ◌⊎◌, inl, inr, Option, Option-cases, some, List, [],
  ◌∷◌, ◌++◌, Member,
}
use edge_q.StreamProxy.{
  Tries, got, gave_up, waits, retry, tries, End, eof, failed, Payload, receive,
  grpc_retry_times_int, HeaderCalls, forward_header, ended, is_waiting, out_of_fuel, Forwarded,
  forward,
}
use edge_q.StreamProxy.Attempts.{Tries-cases}

-- The frames among the answers to `RecvMsg`.
abbrev pub frames : List (End ⊎ Payload) → List Payload
frames [] = []
frames (inl e ∷ answers) = frames answers
frames (inr payload ∷ answers) = payload ∷ frames answers

-- The answers before one that ended a call and those after it, with no frame before.
abbrev pub Splits : List (End ⊎ Payload) → End ⊎ Payload → List (End ⊎ Payload) → Type 0
Splits incoming at left =
    (before : List (End ⊎ Payload)) × (incoming ≡ before ++ at ∷ left) × (frames before ≡ [])

-- Where a receipt stands among the answers.
abbrev pub Leaves : List (End ⊎ Payload) → Tries End Payload → Type 0
Leaves incoming (got payload left) = Splits incoming (inr payload) left
Leaves incoming (gave_up e left) = Splits incoming (inl e) left
Leaves incoming waits = frames incoming ≡ []

Leaves-more :
    (e : End) (incoming : List (End ⊎ Payload)) (t : Tries End Payload)
    → Leaves incoming t
    → Leaves (inl e ∷ incoming) t
Leaves-more e incoming (got payload left) (before, h, n) =
    (inl e ∷ before, ap (λ (x : List (End ⊎ Payload)). inl e ∷ x) h, n)
Leaves-more e incoming (gave_up f left) (before, h, n) =
    (inl e ∷ before, ap (λ (x : List (End ⊎ Payload)). inl e ∷ x) h, n)
Leaves-more e incoming waits h = h

retry-Leaves :
    (c : ℕ) (e : End) (incoming : List (End ⊎ Payload))
    → Leaves (inl e ∷ incoming) (retry c e incoming)
unfolding retry
retry-Leaves zero e incoming = ([], refl, refl)
retry-Leaves (suc c) e [] = refl
retry-Leaves (suc c) e (inl f ∷ incoming) =
    Leaves-more e (inl f ∷ incoming) (retry c f incoming) (retry-Leaves c f incoming)
retry-Leaves (suc c) e (inr payload ∷ incoming) = (inl e ∷ [], refl, refl)

receive-Leaves : (incoming : List (End ⊎ Payload)) → Leaves incoming (receive incoming)
unfolding receive
receive-Leaves [] = refl
receive-Leaves (inl eof ∷ incoming) = ([], refl, refl)
receive-Leaves (inl (failed e) ∷ incoming) = retry-Leaves grpc_retry_times_int (failed e) incoming
receive-Leaves (inr payload ∷ incoming) = ([], refl, refl)

module _ {E A : Type 0} where
  -- Where the outcome of the tries comes from.
  Within : List (E ⊎ A) → Tries E A → Type 0
  Within answers (got a rest) = (x : E ⊎ A) → Member x rest → Member x answers
  Within answers (gave_up e rest) = Member (inl e) answers
  Within answers waits = Unit {0}

  Within-more :
      (x : E ⊎ A) (answers : List (E ⊎ A)) (t : Tries E A)
      → Within answers t
      → Within (x ∷ answers) t
  unfolding Within
  Within-more x answers (got a rest) h = λ y m. inr (h y m)
  Within-more x answers (gave_up e rest) h = inr h
  Within-more x answers waits h = tt

  retry-Within :
      (c : ℕ) (e : E) (answers : List (E ⊎ A)) → Within (inl e ∷ answers) (retry c e answers)
  unfolding Within retry
  retry-Within zero e answers = inl refl
  retry-Within (suc c) e [] = tt
  retry-Within (suc c) e (inl f ∷ answers) =
      Within-more (inl e) (inl f ∷ answers) (retry c f answers) (retry-Within c f answers)
  retry-Within (suc c) e (inr a ∷ answers) = λ x m. inr (inr m)

  tries-Within : (n : ℕ) (answers : List (E ⊎ A)) → Within answers (tries n answers)
  unfolding Within tries
  tries-Within n [] = tt
  tries-Within n (inl e ∷ answers) = retry-Within n e answers
  tries-Within n (inr a ∷ answers) = λ x m. inr m

frames-append : (xs ys : List (End ⊎ Payload)) → frames (xs ++ ys) ≡ frames xs ++ frames ys
frames-append [] ys = refl
frames-append (inl e ∷ xs) ys = frames-append xs ys
frames-append (inr payload ∷ xs) ys = ap (λ x. payload ∷ x) (frames-append xs ys)

-- The receiver's end of the stream was an io.EOF that the source answered, all the frames before it were
-- sent in their order and each once, and what is still to be received is what follows it.
abbrev pub SentUpToEof : List (End ⊎ Payload) → Forwarded → Type 0
SentUpToEof incoming f =
    (before : List (End ⊎ Payload)) × (incoming ≡ before ++ inl eof ∷ f.left)
    × (frames before ≡ f.sent)

ended_inj : {e f : End} → ended e ≡ ended f → e ≡ f
ended_inj h = cc

waiting_not_eof : is_waiting ≢ ended eof
waiting_not_eof h = cc

out_not_eof : out_of_fuel ≢ ended eof
out_not_eof h = cc

-- One round: the frame of the round, and then those of the others.
one_more :
    (payload : Payload) (incoming left : List (End ⊎ Payload)) (f : Forwarded)
    → Splits incoming (inr payload) left
    → SentUpToEof left f
    → SentUpToEof incoming (record f { sent = payload ∷ f.sent })
one_more payload incoming left f (before, h, none_before) (others, g, sent) = (
  before ++ inr payload ∷ others,
  h
      ∙ ap (λ (x : List (End ⊎ Payload)). before ++ inr payload ∷ x) g
      ∙ sym (append_assoc before (inr payload ∷ others) (inl eof ∷ f.left)),
  frames-append before (inr payload ∷ others)
      ∙ ap (λ (x : List Payload). x ++ payload ∷ frames others) none_before
      ∙ ap (λ (x : List Payload). payload ∷ x) sent,
)

-- Where no call on the destination answers io.EOF, a direction that comes to an end with io.EOF has
-- copied all the frames before it.
pub forward-SentUpToEof :
    (fuel : ℕ) (calls : Option HeaderCalls) (i : ℕ) (incoming : List (End ⊎ Payload))
    (answers : List (End ⊎ Unit {0}))
    → ((j : ℕ) → forward_header calls j ≢ some eof)
    → (Member (inl eof) answers → ⊥)
    → (forward fuel calls i incoming answers).ending ≡ ended eof
    → SentUpToEof incoming (forward fuel calls i incoming answers)
unfolding forward Within
forward-SentUpToEof zero calls i incoming answers no_header no_send h = absurd (out_not_eof h)
forward-SentUpToEof (suc fuel) calls i incoming answers no_header no_send h =
    elim (Tries-cases (receive incoming)) [
      | inr (inr r) ↦ absurd (waiting_not_eof (rw (forward, r) at h))
      | inr (inl (e, left, r)) ↦
          let is_eof : e ≡ eof = ended_inj (rw (forward, r) at h) in
          rw (forward, r)
            (subst (λ (x : End). Splits incoming (inl x) left) is_eof
              (subst (Leaves incoming) r (receive-Leaves incoming)))
      | inl (payload, left, r) ↦
          let at : Splits incoming (inr payload) left =
            subst (Leaves incoming) r (receive-Leaves incoming) in
          elim (Option-cases (forward_header calls i)) [
            | inr (e, m) ↦ absurd (no_header i (m ∙ ap some (ended_inj (rw (forward, r, m) at h))))
            | inl m ↦ elim (Tries-cases (tries grpc_retry_times_int answers)) [
              | inr (inr t) ↦ absurd (waiting_not_eof (rw (forward, r, m, t) at h))
              | inr (inl (e, others, t)) ↦
                  let is_eof : e ≡ eof = ended_inj (rw (forward, r, m, t) at h) in
                  absurd (
                    no_send (
                      subst (λ (x : End). Member (inl x) answers) is_eof
                        (subst (Within answers) t (tries-Within grpc_retry_times_int answers))))
              | inl (done, others, t) ↦
                  let within =
                    subst (Within answers) t (tries-Within grpc_retry_times_int answers) in
                  let rest =
                    forward-SentUpToEof fuel calls (suc i) left others no_header
                      (λ m. no_send (within (inl eof) m)) (rw (forward, r, m, t) at h) in
                  rw (forward, r, m, t)
                    (one_more payload incoming left (forward fuel calls (suc i) left others) at
                      rest)
            ]
          ]
    ]
