-- ===== src/ProxyEndpoint.antt =====
-- internal/proxy/endpoint/http/endpoint.go and internal/proxy/endpoint/grpc/endpoint.go: the proxy
-- sidecar, which is to tag the requests of a client with its service group.
pub mod Tags
use Prim.Native.String.{◌++◌ as cat}
use edge_q.Prelude.{String, ◌==◌, Option, none, some, List, [], ◌∷◌, ◌++◌, if◌then◌else◌}
use edge_q.Prelude.Int.{ℤ}
use edge_q.Outcome.{Outcome, ok, err, ◌>>=◌}
use edge_q.Maps.{Map, lookup, insert}

-- `atoi` and `parse` are strconv.Atoi and url.Parse, `itoa` prints a number.
unfoldable pub get_target_url :
    (String → String)
    → (String → Outcome String ℤ)
    → (ℤ → String)
    → (String → Outcome String String)
    → Outcome String String
get_target_url getenv atoi itoa parse = atoi (getenv "TARGET_PORT") >>= λ target_port.
    let target_addr : String = getenv "TARGET_ADDRESS" in
    if target_addr == ""
    then err "TARGET_ADDRESS environment variable not set"
    else parse (cat "http://" (cat target_addr (cat ":" (itoa target_port))))

-- Headers of HTTP and metadata of gRPC: the values of each key. `Header.Add`, `Header.Get`.
abbrev pub Header : Type 0
Header = Map (List String)

abbrev pub values : String → Header → List String
values key h = elim (lookup key h) [ none ↦ [] | some vs ↦ vs ]

abbrev pub header_add : String → String → Header → Header
header_add key value h = insert key (values key h ++ value ∷ []) h

abbrev pub first_or : String → List String → String
first_or d [] = d
first_or d (v ∷ vs) = v

abbrev pub header_get : String → Header → String
header_get key h = first_or "" (values key h)

-- What `Rewrite` does to the header of the request that is sent on.
unfoldable pub rewrite : String → Header → Header
rewrite service_group out = header_add "X-Service-Group" service_group out

pub record GrpcProxyServer : Type 0 where
  pub addr : String
  pub service_group_name : String

-- The pool is made first; only whether that failed matters here.
unfoldable pub new_grpc_proxy_server :
    Outcome String (Unit {0}) → String → String → Outcome String GrpcProxyServer
new_grpc_proxy_server pool addr name = pool >>= λ _.
    ok (record { addr = addr; service_group_name = if name == "" then "default" else name })

-- The metadata that came in, if there is any, and that which goes out.
pub record Context : Type 0 where
  pub incoming : Option Header
  pub outgoing : Header

unfoldable pub context_with_service_group : GrpcProxyServer → Context → Context
context_with_service_group ps ctx = record ctx {
  outgoing = ("x-service-group", ps.service_group_name ∷ []) ∷ [];
}

-- `md.Copy()`, where `md` is nil without incoming metadata
abbrev pub metadata_of : Context → Header
metadata_of ctx = elim ctx.incoming [ none ↦ [] | some md ↦ md ]

module _ {Conn : Type 0} where
  -- The second context is made from the one that came in, not from the first.
  unfoldable pub get_conn :
      GrpcProxyServer
      → Context
      → Option Conn
      → Option String
      → Outcome String (Context × Conn × Option String)
  get_conn ps ctx conn failure =
      let out_ctx : Context = context_with_service_group ps ctx in
      let out_ctx : Context = record ctx { outgoing = metadata_of ctx } in
      elim conn [ some c ↦ ok (out_ctx, c, failure) | none ↦ err "unknown method" ]
