-- ===== src/Examples/Conns.antt =====
-- internal/k8s/forward_manager.go: one connection that is handled while another one's stream is open.
use kube_forwarding_proxy.Base.{arith, ℕ, ◌≡◌, Option, some, [], ◌∷◌, Text, true}
use kube_forwarding_proxy.K8s.PortForward.{RestClient, Moment}
use kube_forwarding_proxy.K8s.PortForward.Conn.{
  ConnState, handle_conn, IsRestored, handle_conn-IsRestored,
}
use kube_forwarding_proxy.K8s.SpdyPool.{empty_pool}
use kube_forwarding_proxy.Examples.Forwards.{vip, manager}
use kube_forwarding_proxy.Examples.Services.{empty}
use kube_forwarding_proxy.Examples.Pool.{streaming, streaming-Reach, few_leases, refused, redialled}

abbrev clients : Text → Option RestClient
clients name = some (record { host_parses = true; has_round_tripper = true })

-- The first attempt meets a connection without streams.
abbrev moment : Moment
moment = record { now = 100; index = 0; first = refused; second = redialled }

abbrev given : ConnState
given = record { manager = manager; resolver = empty; pool = empty_pool; closed = [] }

abbrev handled : ConnState
handled =
    handle_conn clients (b'd' ∷ []) [] vip (b'n' ∷ []) (b'w' ∷ []) [] 80 moment 5
      (record given { pool = streaming.pool })

handle_conn-IsRestored_example :
    IsRestored streaming handled.pool
    × ((p : ℕ) → (handled.manager.store p).active_conns ≡ (manager.store p).active_conns)
    × (handled.closed ≡ 5 ∷ [])
handle_conn-IsRestored_example =
    handle_conn-IsRestored clients (b'd' ∷ []) [] vip (b'n' ∷ []) (b'w' ∷ []) [] 80 moment 5 given
      streaming streaming-Reach few_leases (λ q. omega arith)
