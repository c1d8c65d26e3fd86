-- ===== src/Examples/Tagging.antt =====
-- A call through the proxy sidecar of the group `gold`, over HTTP and over gRPC.
use edge_q.Prelude.{ℕ, String, ◌≡◌, refl, none, some, [], ◌∷◌}
use edge_q.Outcome.{Outcome, ok, ◌>>=◌}
use edge_q.Maps.{lookup}
use edge_q.Config.{Error}
use edge_q.Queue.{GrpcItem}
use edge_q.Broker.{Broker, service_group_from_context, http_enqueue_requests, grpc_enqueue_requests}
use edge_q.Broker.Lifecycle.{start}
use edge_q.ProxyEndpoint.{Header, header_get, rewrite, GrpcProxyServer, Context, get_conn}
use edge_q.ProxyEndpoint.Tags.{grpc_proxy_loses_group}
use edge_q.Examples.Data.{config, gold, scheduler}

abbrev gold_proxy : GrpcProxyServer
gold_proxy = record { addr = ":15051"; service_group_name = "gold" }

abbrev untagged : Context
untagged = record { incoming = some (("user", "u" ∷ []) ∷ []); outgoing = [] }

abbrev header : Header
header = ("Accept", "text" ∷ []) ∷ []

grpc_proxy_loses_group_example :
    (http_enqueue_requests
        (header_get "X-Service-Group" (rewrite "gold" header))
        1
        5
        (start config (gold ∷ []) scheduler "WRR" 1)
      ≡ http_enqueue_requests "gold" 1 5 (start config (gold ∷ []) scheduler "WRR" 1))
    × (◌>>=◌ {B = ℕ × Outcome Error (Broker GrpcItem)}
          (get_conn {Conn = String} gold_proxy untagged (some "conn") none)
          (λ x. ok (
            grpc_enqueue_requests
              (service_group_from_context x.0.outgoing)
              5
              (start config (gold ∷ []) scheduler "WRR" 1)))
        ≡ ok (grpc_enqueue_requests "default" 5 (start config (gold ∷ []) scheduler "WRR" 1)))
unfolding lookup
grpc_proxy_loses_group_example =
    grpc_proxy_loses_group {Conn = String} gold_proxy untagged (some "conn") none header 1 5
      (start config (gold ∷ []) scheduler "WRR" 1) (start config (gold ∷ []) scheduler "WRR" 1) refl
      refl
