-- ===== src/ConnPool.antt =====
-- pkg/endpoint/pool/grpc_pool.go: the pool of connections to the backend. A connection is a number,
-- that of its dial; `dial` says which dials succeed. The channel of clients is a list, oldest first.
pub mod Leases
use edge_q.Prelude.{
  ℕ, zero, suc, ◌+◌, ◌-◌, Bool, true, false, not, ◌&&◌, ◌||◌, Option, none, some, List, [], ◌∷◌,
  ◌++◌, length, ltb, eqb, is_some, if◌then◌else◌,
}
use edge_q.Prelude.Int.{ℤ, pos, ltb_ℤ, pos_part}
use edge_q.Outcome.{Outcome, ok, err, panic}

pub data PoolError : Type 0 where
  pool_init closed_pool ctx_done acquire_timeout : PoolError

pub record GrpcConfig : Type 0 where
  pub connection_num : ℤ
  pub request_idle_time : ℤ
  pub request_max_life : ℤ

pub record Client : Type 0 where
  pub conn : Option ℕ
  pub time_used : ℕ
  pub time_init : ℕ

-- The channel is nil in a closed pool.
pub record Pool : Type 0 where
  pub clients : Option (List Client)
  pub capacity : ℕ
  pub idle_dur : ℕ
  pub max_life_dur : ℕ
  pub status : Bool

-- The connections that were dialled so far, and those of them that are open.
pub record Net : Type 0 where
  pub dialled : ℕ
  pub opened : List ℕ

remove_conn : ℕ → List ℕ → List ℕ
remove_conn c [] = []
remove_conn c (d ∷ ds) = if eqb d c then ds else d ∷ remove_conn c ds

unfoldable pub is_close : Pool → Bool
is_close p = not (is_some p.clients)

unfoldable pub size : Pool → ℕ
size p = elim p.clients [ none ↦ 0 | some cs ↦ length cs ]

unfoldable pub get_conn_current : Pool → ℤ
get_conn_current p = if ltb p.capacity (size p) then pos 0 else pos (p.capacity - size p)

-- `Destory`: the connection is closed, once.
unfoldable pub destory : Net → Client → Net × Client
unfolding remove_conn
destory net client = elim client.conn [
  | none ↦ (net, client)
  | some c ↦ (record net { opened = remove_conn c net.opened }, record client { conn = none })
]

unfoldable pub destory_all : Net → List Client → Net
destory_all net [] = net
destory_all net (client ∷ clients) = destory_all (destory net client).0 clients

-- What the `select` of `Acquire` finds first.
pub data Select : Type 0 where
  done received timed_out : Select

module _ (dial : ℕ → Bool) where
  unfoldable pub create_client : ℕ → Net → Net × Outcome PoolError Client
  create_client now net =
      let next = suc net.dialled in
      if dial net.dialled
      then (
        record { dialled = next; opened = net.dialled ∷ net.opened },
        ok (record { conn = some net.dialled; time_used = now; time_init = now }),
      )
      else (record net { dialled = next }, err pool_init)

  -- The clients of a new pool: the dials before one that fails stay open.
  unfoldable pub create_clients : ℕ → ℕ → Net → Net × Outcome PoolError (List Client)
  create_clients now zero net = (net, ok [])
  create_clients now (suc n) net = elim (create_client now net).1 [
    | panic ↦ ((create_client now net).0, panic)
    | err e ↦ ((create_client now net).0, err pool_init)
    | ok client ↦
        let rest = create_clients now n (create_client now net).0 in
        (rest.0, elim rest.1 [ ok clients ↦ ok (client ∷ clients) | err e ↦ err e | panic ↦ panic ])
  ]

  unfoldable pub init_pool : ℕ → GrpcConfig → Net → Net × Outcome PoolError Pool
  init_pool now cfg net =
      if ltb_ℤ cfg.connection_num (pos 0)
        || (ltb_ℤ cfg.request_idle_time (pos 0) || ltb_ℤ cfg.request_max_life (pos 0))
      then (net, err pool_init)
      else (let made = create_clients now (pos_part cfg.connection_num) net in
          (
            made.0,
            elim made.1 [
              | err e ↦ err e
              | panic ↦ panic
              | ok clients ↦ ok (record {
                clients = some clients;
                capacity = pos_part cfg.connection_num;
                idle_dur = pos_part cfg.request_idle_time;
                max_life_dur = pos_part cfg.request_max_life;
                status = true;
              })
            ],
          ))

  -- A client that was used recently is handed out as it is, any other is destroyed and dialled again.
  pub renew : ℕ → Pool → Client → Net → Net × Outcome PoolError Client
  renew now p client net =
      if ltb 0 p.idle_dur && ltb now (client.time_used + p.idle_dur)
      then (net, ok (record client { time_used = now }))
      else create_client now (destory net client).0

  -- `Acquire`; none where the channel that the `select` receives from is empty.
  unfoldable pub acquire : Select → ℕ → Pool → Net → Option (Pool × Net × Outcome PoolError Client)
  unfolding renew
  acquire way now p net = elim p.clients [
    | none ↦ some (p, net, err closed_pool)
    | some clients ↦ elim way [
      | done ↦ some (p, net, err ctx_done)
      | timed_out ↦ some (p, net, err acquire_timeout)
      | received ↦ elim clients [
        | [] ↦ none
        | client ∷ rest ↦
            let r = renew now p client net in some (record p { clients = some rest }, r.0, r.1)
      ]
    ]
  ]

-- The body of `Client.Close`, none where the channel is full and the send waits.
unfoldable pub close_client : ℕ → Pool → Net → Client → Option (Pool × Net)
close_client now p net client = elim p.clients [
  | none ↦ some (p, (destory net client).0)
  | some clients ↦ elim client.conn [
    | none ↦ some (p, net)
    | some c ↦
        if ltb (length clients) p.capacity
        then some
            (record p { clients = some (clients ++ (record client { time_used = now }) ∷ []) }, net)
        else none
  ]
]

-- `Pool.Close`, with the clients in the channel destroyed.
unfoldable pub close : Pool → Net → Pool × Net
close p net = elim p.clients [
  | none ↦ (p, net)
  | some clients ↦ (record p { clients = none; status = false }, destory_all net clients)
]
