-- ===== src/StreamProxy/Handling.antt =====
-- pkg/endpoint/pool/handler.go, `handler`: its result, and what becomes of the connection.
use edge_q.Prelude.{
  ℕ, zero, suc, ◌+◌, String, ◌≡◌, ◌≢◌, refl, ap, ◌∙◌, ◌⊎◌, inl, inr, Option, none, some, List, [],
  ◌∷◌, ◌++◌, arith,
}
use edge_q.StreamProxy.{
  Tries, got, gave_up, waits, tries, eof, failed, grpc_retry_times_int, Ready, s2c, c2s, Effect,
  close_send, set_trailer, client_cancel, conn_close, Status, await_ends, deferred, handler,
}
use edge_q.StreamProxy.Attempts.{Tries-cases}

-- How often the connection is given back to its pool.
abbrev pub closes : List Effect → ℕ
closes [] = 0
closes (conn_close ∷ effects) = suc (closes effects)
closes (close_send ∷ effects) = closes effects
closes (set_trailer ∷ effects) = closes effects
closes (client_cancel ∷ effects) = closes effects

abbrev pub is_got : {E A : Type 0} → Tries E A → ℕ
is_got (got a rest) = 1
is_got (gave_up e rest) = 0
is_got waits = 0

closes-append : (xs ys : List Effect) → closes (xs ++ ys) ≡ closes xs + closes ys
closes-append [] ys = omega arith
closes-append (conn_close ∷ xs) ys = omega (arith, closes-append xs ys)
closes-append (close_send ∷ xs) ys = closes-append xs ys
closes-append (set_trailer ∷ xs) ys = closes-append xs ys
closes-append (client_cancel ∷ xs) ys = closes-append xs ys

closes-await_ends : (i : ℕ) (ready : List Ready) → closes (await_ends i ready).0 ≡ 0
unfolding await_ends
closes-await_ends zero ready = refl
closes-await_ends (suc i) [] = refl
closes-await_ends (suc i) (s2c eof ∷ ready) = closes-await_ends i ready
closes-await_ends (suc i) (s2c (failed e) ∷ ready) = refl
closes-await_ends (suc i) (c2s eof ∷ ready) = refl
closes-await_ends (suc i) (c2s (failed e) ∷ ready) = refl

one_close :
    (ready : List Ready) (status : Status)
    → (await_ends 2 ready).1 ≡ some status
    → closes (deferred (await_ends 2 ready).0 (await_ends 2 ready).1) ≡ 1
one_close ready status h =
    ap (λ o. closes (deferred (await_ends 2 ready).0 o)) h
    ∙ closes-append (await_ends 2 ready).0 (client_cancel ∷ conn_close ∷ [])
    ∙ omega (arith, closes-await_ends 2 ready)

none_not_some : {s : Status} → ◌≢◌ {A = Option Status} none (some s)
none_not_some e = cc

module _ {Conn : Type 0} where
  -- Once the handler has returned, whatever the result: a connection that it got has been given back,
  -- once, and none otherwise.
  pub handler_releases :
      (method : String) (conns : List (String ⊎ Conn)) (streams : List (String ⊎ Unit {0}))
      (ready : List Ready) (status : Status)
      → (handler (some method) conns streams ready).1 ≡ some status
      → closes (handler (some method) conns streams ready).0
        ≡ is_got (tries grpc_retry_times_int conns)
  unfolding handler
  handler_releases method conns streams ready status h =
      elim (Tries-cases (tries grpc_retry_times_int conns)) [
        | inr (inr t) ↦ rw (handler, t) refl
        | inr (inl (e, others, t)) ↦ rw (handler, t) refl
        | inl (conn, others, t) ↦ elim (Tries-cases (tries grpc_retry_times_int streams)) [
          | inr (inr u) ↦ absurd (none_not_some (rw (handler, t, u) at h))
          | inr (inl (e, rest, u)) ↦ rw (handler, t, u) refl
          | inl (stream, rest, u) ↦
              rw (handler, t, u) (one_close ready status (rw (handler, t, u) at h))
        ]
      ]
