-- ===== src/Examples/Streams.antt =====
-- Runs of the proxy of gRPC streams.
use edge_q.Prelude.{ℕ, String, ◌≡◌, refl, ◌⊎◌, inl, inr, none, some, List, [], ◌∷◌, arith, map}
use edge_q.StreamProxy.{
  retry, tries, End, eof, failed, Payload, grpc_retry_times_int, HeaderCalls, ended, forward, Ready,
  s2c, c2s, nil, await_ends, handler,
}
use edge_q.StreamProxy.Ends.{forward_ends}
use edge_q.StreamProxy.Attempts.{failures}
use edge_q.StreamProxy.Handling.{closes, is_got, handler_releases}

-- Two frames, an error between them that does not last, and the end.
abbrev incoming : List (End ⊎ Payload)
incoming = inr (1 ∷ []) ∷ inl (failed "reset") ∷ inr (2 ∷ []) ∷ inl eof ∷ []

abbrev answers : List (End ⊎ Unit {0})
answers = inr tt ∷ inl (failed "busy") ∷ inr tt ∷ []

abbrev calls : HeaderCalls
calls = record { header = inr "md"; send_header = λ md. none }

-- The stream of the backend has ended, and goes on answering so.
abbrev eofs : List End
eofs = eof ∷ eof ∷ eof ∷ eof ∷ eof ∷ eof ∷ eof ∷ eof ∷ eof ∷ eof ∷ eof ∷ []

abbrev units : List (Unit {0})
units = tt ∷ tt ∷ tt ∷ tt ∷ tt ∷ tt ∷ tt ∷ tt ∷ tt ∷ tt ∷ []

abbrev sends : List (End ⊎ Unit {0})
sends = inl (failed "busy") ∷ map inr units

forward_ends_example :
    (e : End) × ((forward 2 (some calls) 0 (inr (1 ∷ []) ∷ failures eofs) sends).ending ≡ ended e)
forward_ends_example =
    forward_ends 2 (some calls) 0 (inr (1 ∷ []) ∷ []) eofs sends (omega arith) (omega arith)
      (omega arith)

abbrev ready : List Ready
ready = s2c eof ∷ c2s eof ∷ []

abbrev conns : List (String ⊎ ℕ)
conns = inl "no client" ∷ inr 7 ∷ []

abbrev streams : List (String ⊎ Unit {0})
streams = inr tt ∷ []

handler_releases_example :
    closes (handler (some "/predict") conns streams ready).0
    ≡ is_got (tries grpc_retry_times_int conns)
unfolding handler await_ends tries retry
handler_releases_example = handler_releases "/predict" conns streams ready nil refl

end_of_ready : Ready → End
end_of_ready (s2c e) = e
end_of_ready (c2s e) = e
