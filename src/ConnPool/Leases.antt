-- ===== src/ConnPool/Leases.antt =====
-- The clients of pkg/endpoint/pool/grpc_pool.go that are handed out, against those in the channel.
use edge_q.Prelude.{
  ℕ, zero, suc, ◌+◌, ◌≤◌, ◌≡◌, refl, sym, ap, ◌∙◌, ◌⊎◌, inl, inr, Bool, Bool-cases, true, ◌||◌,
  none, some, List, [], ◌∷◌, ◌++◌, arith, length, length-append, Option-cases, List-cases, ltb,
}
use edge_q.Prelude.Int.{pos, pos_part, ltb_ℤ}
use edge_q.Outcome.{Outcome, ok, err, panic, Outcome-cases, ok_inj}
use edge_q.ConnPool.{
  PoolError, pool_init, closed_pool, ctx_done, acquire_timeout, renew, Client, Pool, Net,
  GrpcConfig, Select, done, received, timed_out, create_client, create_clients, init_pool, acquire,
  close_client, destory,
}

-- The clients that were handed out and not closed, and the room that the channel has for them.
abbrev pub HasRoom : Pool → ℕ → Type 0
HasRoom p handed = elim p.clients as (λ _. Type 0) [
  | none ↦ Unit {0}
  | some clients ↦ length clients + handed ≤ p.capacity
]

-- One more is handed out where a call returns a client.
pub handed_after : Outcome PoolError Client → ℕ → ℕ
handed_after (ok c) n = suc n
handed_after (err e) n = n
handed_after panic n = n

grown :
    (r : Outcome PoolError Client) (n handed capacity : ℕ)
    → suc n + handed ≤ capacity
    → n + handed_after r handed ≤ capacity
unfolding handed_after
grown (ok c) n handed capacity h = omega arith
grown (err e) n handed capacity h = omega arith
grown panic n handed capacity h = omega arith

module _ (dial : ℕ → Bool) where
  -- `Acquire` returns, with a client or with an error, except where it receives from an empty channel;
  -- it keeps room for every client that is handed out, the new one included.
  pub acquire-HasRoom :
      (way : Select) (now : ℕ) (p : Pool) (net : Net) (handed : ℕ)
      → HasRoom p handed
      → ((way ≡ received) × (p.clients ≡ some []))
        ⊎ ((r : Pool × Net × Outcome PoolError Client) × (acquire dial way now p net ≡ some r)
            × HasRoom r.0 (handed_after r.2 handed))
  unfolding acquire HasRoom handed_after
  acquire-HasRoom done now p net handed room = elim (Option-cases p.clients) [
    | inl e ↦ inr ((p, net, err closed_pool), rw e refl, room)
    | inr (clients, e) ↦ inr ((p, net, err ctx_done), rw e refl, room)
  ]
  acquire-HasRoom timed_out now p net handed room = elim (Option-cases p.clients) [
    | inl e ↦ inr ((p, net, err closed_pool), rw e refl, room)
    | inr (clients, e) ↦ inr ((p, net, err acquire_timeout), rw e refl, room)
  ]
  acquire-HasRoom received now p net handed room = elim (Option-cases p.clients) [
    | inl e ↦ inr ((p, net, err closed_pool), rw e refl, room)
    | inr (clients, h) ↦ elim (List-cases clients) [
      | inl e ↦ inl (refl, h ∙ ap some e)
      | inr (client, rest, e) ↦
          let r : Net × Outcome PoolError Client = renew dial now p client net in
          inr (
            (record p { clients = some rest }, r.0, r.1),
            rw (h, e) refl,
            grown r.1 (length rest) handed p.capacity (rw (h, e) at room),
          )
    ]
  ]

fewer : (a b c : ℕ) → a + suc b ≤ c → a + b ≤ c
fewer a b c h = omega arith

fits : (a b c : ℕ) → a + suc b ≤ c → ltb a c ≡ true
fits a b c h = ground arith

one_more :
    (clients : List Client) (client : Client) (b c : ℕ)
    → length clients + suc b ≤ c
    → length (clients ++ client ∷ []) + b ≤ c
one_more clients client b c h = omega (arith, length-append clients (client ∷ []))

-- A client that is handed out can be closed without waiting, and room is kept for the others.
pub close_client-HasRoom :
    (now : ℕ) (p : Pool) (net : Net) (client : Client) (handed : ℕ)
    → HasRoom p (suc handed)
    → (r : Pool × Net) × (close_client now p net client ≡ some r) × HasRoom r.0 handed
unfolding close_client HasRoom
close_client-HasRoom now p net client handed room = elim (Option-cases p.clients) [
  | inl e ↦ ((p, (destory net client).0), rw e refl, rw e tt)
  | inr (clients, e) ↦ elim (Option-cases client.conn) [
    | inl c ↦
        ((p, net), rw (e, c) refl, rw e (fewer (length clients) handed p.capacity (rw e at room)))
    | inr (c, h) ↦
        let back : Client = record client { time_used = now } in
        (
          (record p { clients = some (clients ++ back ∷ []) }, net),
          rw (e, h, fits (length clients) handed p.capacity (rw e at room)) refl,
          one_more clients back handed p.capacity (rw e at room),
        )
  ]
]

module _ (dial : ℕ → Bool) where
  create_clients-length :
      (now n : ℕ) (net : Net) (cs : List Client)
      → (create_clients dial now n net).1 ≡ ok cs
      → length cs ≡ n
  unfolding create_clients
  create_clients-length now zero net cs e = rw (sym (ok_inj e)) refl
  create_clients-length now (suc n) net cs e = elim (Outcome-cases (create_client dial now net).1) [
    | inl (c, h) ↦
        elim (Outcome-cases (create_clients dial now n (create_client dial now net).0).1) [
          | inl (rest, g) ↦
              rw (sym (ok_inj (rw (create_clients, h, g) at e)))
                (ap suc (create_clients-length now n _ rest g))
          | inr (inl (x, g)) ↦
              (let bad : ◌≡◌ {A = Outcome PoolError (List Client)} (err x) (ok cs) =
                  rw (create_clients, h, g) at e in
                cc)
          | inr (inr g) ↦
              (let bad : ◌≡◌ {A = Outcome PoolError (List Client)} panic (ok cs) =
                  rw (create_clients, h, g) at e in
                cc)
        ]
    | inr (inl (x, h)) ↦
        (let bad : ◌≡◌ {A = Outcome PoolError (List Client)} (err pool_init) (ok cs) =
            rw (create_clients, h) at e in
          cc)
    | inr (inr h) ↦
        (let bad : ◌≡◌ {A = Outcome PoolError (List Client)} panic (ok cs) =
            rw (create_clients, h) at e in
          cc)
  ]

  -- A pool that is created is full: it has room for no more clients than it was asked for.
  pub init_pool-HasRoom :
      (now : ℕ) (cfg : GrpcConfig) (net : Net) (p : Pool)
      → (init_pool dial now cfg net).1 ≡ ok p
      → HasRoom p 0
  unfolding init_pool HasRoom
  init_pool-HasRoom now cfg net p e =
      let guard : Bool =
        ltb_ℤ cfg.connection_num (pos 0)
        || (ltb_ℤ cfg.request_idle_time (pos 0) || ltb_ℤ cfg.request_max_life (pos 0)) in
      let made : Net × Outcome PoolError (List Client) =
        create_clients dial now (pos_part cfg.connection_num) net in
      elim (Bool-cases guard) [
        | inl g ↦
            (let bad : ◌≡◌ {A = Outcome PoolError Pool} (err pool_init) (ok p) = rw g at e in
              absurd cc)
        | inr g ↦ elim (Outcome-cases made.1) [
          | inl (cs, h) ↦
              rw (sym (ok_inj (rw (g, h) at e)))
                (omega (arith, create_clients-length now (pos_part cfg.connection_num) net cs h))
          | inr (inl (x, h)) ↦
              (let bad : ◌≡◌ {A = Outcome PoolError Pool} (err x) (ok p) = rw (g, h) at e in
                absurd cc)
          | inr (inr h) ↦
              (let bad : ◌≡◌ {A = Outcome PoolError Pool} panic (ok p) = rw (g, h) at e in
                absurd cc)
        ]
      ]
