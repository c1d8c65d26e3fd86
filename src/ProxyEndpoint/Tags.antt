-- ===== src/ProxyEndpoint/Tags.antt =====
-- internal/proxy/endpoint: which service group the broker reads from what the proxy sends on.
use edge_q.Prelude.{String, ◌≡◌, ℕ, refl, ap, ◌∙◌, Option, none, some, List, [], ◌∷◌, ◌++◌}
use edge_q.Outcome.{Outcome, ok, err, ◌>>=◌}
use edge_q.Maps.{lookup, lookup-insert_self}
use edge_q.Config.{Error}
use edge_q.Queue.{GrpcItem, HttpRequestItem}
use edge_q.Broker.{Broker, service_group_from_context, http_enqueue_requests, grpc_enqueue_requests}
use edge_q.ProxyEndpoint.{
  Header, values, first_or, header_get, rewrite, GrpcProxyServer, Context, metadata_of, get_conn,
}

-- Over HTTP the broker reads the group of the proxy, unless the client set the header itself: then it
-- reads what the client wrote.
pub header_get-rewrite :
    (service_group : String) (out : Header)
    → header_get "X-Service-Group" (rewrite service_group out)
      ≡ first_or service_group (values "X-Service-Group" out)
unfolding rewrite
header_get-rewrite service_group out =
    ap (λ o. first_or "" (elim o [ none ↦ [] | some vs ↦ vs ]))
      (lookup-insert_self "X-Service-Group" (values "X-Service-Group" out ++ service_group ∷ [])
        out)
    ∙ first_of (values "X-Service-Group" out)
  where
    first_of :
        (vs : List String) → first_or "" (vs ++ service_group ∷ []) ≡ first_or service_group vs
    first_of [] = refl
    first_of (v ∷ vs) = refl

over_grpc :
    {Conn : Type 0} (ps : GrpcProxyServer) (ctx : Context) (conn : Option Conn)
    (failure : Option String) (now : ℕ) (s : Broker GrpcItem)
    → lookup "x-service-group" (metadata_of ctx) ≡ none
    → ◌>>=◌ {B = ℕ × Outcome Error (Broker GrpcItem)}
        (get_conn ps ctx conn failure)
        (λ x. ok (grpc_enqueue_requests (service_group_from_context x.0.outgoing) now s))
      ≡ elim conn [
        | none ↦ err "unknown method"
        | some c ↦ ok (grpc_enqueue_requests "default" now s)
      ]
unfolding get_conn service_group_from_context
over_grpc ps ctx none failure now s no_group = refl
over_grpc ps ctx (some c) failure now s no_group = rw (service_group_from_context, no_group) refl

-- A call on which the client set no service group goes through a proxy and on to the broker. Over
-- HTTP the broker does as with a request for the group of the proxy. Over gRPC, where the proxy has
-- a connection, the broker does as with a call of the default group, whatever the group of the
-- proxy; without a connection the proxy answers that the method is unknown.
pub grpc_proxy_loses_group :
    {Conn : Type 0} (ps : GrpcProxyServer) (ctx : Context) (conn : Option Conn)
    (failure : Option String) (header : Header) (req now : ℕ) (h : Broker HttpRequestItem)
    (s : Broker GrpcItem)
    → values "X-Service-Group" header ≡ []
    → lookup "x-service-group" (metadata_of ctx) ≡ none
    → (http_enqueue_requests
          (header_get "X-Service-Group" (rewrite ps.service_group_name header))
          req
          now
          h
        ≡ http_enqueue_requests ps.service_group_name req now h)
      × (◌>>=◌ {B = ℕ × Outcome Error (Broker GrpcItem)}
            (get_conn ps ctx conn failure)
            (λ x. ok (grpc_enqueue_requests (service_group_from_context x.0.outgoing) now s))
          ≡ elim conn [
            | none ↦ err "unknown method"
            | some c ↦ ok (grpc_enqueue_requests "default" now s)
          ])
grpc_proxy_loses_group ps ctx conn failure header req now h s untagged no_group = (
  ap (λ (g : String). http_enqueue_requests g req now h)
      (header_get-rewrite ps.service_group_name header
        ∙ ap (first_or ps.service_group_name) untagged),
  over_grpc ps ctx conn failure now s no_group,
)
