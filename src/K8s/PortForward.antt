-- ===== src/K8s/PortForward.antt =====
-- internal/k8s/forward_manager.go: DialPortForward, and stream_conn.go. The REST configuration of a
-- client, and what the URL and SPDY libraries say of it, are parameters.
pub mod Leases
pub mod Conn
use kube_forwarding_proxy.Base.{
  ℕ, Bool, true, false, Option, none, some, List, [], ◌∷◌, Text, Result, ok, err, if◌then◌else◌,
}
use kube_forwarding_proxy.K8s.Resolver.{
  Endpoint, ResolvedService, ResolveError, Resolver, resolve, pick_endpoint, find_port,
}
use kube_forwarding_proxy.K8s.ForwardManager.{context_or_current}
use kube_forwarding_proxy.K8s.SpdyPool.{
  SpdyKey, Pool, acquire_pool_entry, on_close, evict_stale, close_conn, StreamHeaders,
  CreatedStreams, create_streams,
}

-- What one acquirePoolEntry and its createStreams meet.
pub record Attempt : Type 0 where
  pub alive : Bool
  pub dial : Option ℕ
  pub create : StreamHeaders → Option ℕ

pub data DialError : Type 0 where
  unknown_context finding_port parsing_host creating_round_tripper dialing creating_streams :
      DialError
  resolving : ResolveError → DialError
  no_endpoint : DialError

-- The entry, its data stream and its error stream.
pub record OpenStreams : Type 0 where
  pub entry : ℕ
  pub data_stream : ℕ
  pub error_stream : ℕ

-- The second attempt gives its reference back where it fails.
unfoldable pub second_streams :
    SpdyKey → ℕ → Option (ℕ × ℕ) → Pool → Pool × Result DialError OpenStreams
second_streams key p none m = (on_close key p m, err creating_streams)
second_streams key p (some (d, e)) m =
    (m, ok (record { entry = p; data_stream = d; error_stream = e }))

unfoldable pub second_acquired :
    SpdyKey → ℕ → Attempt → Pool × Option ℕ → Pool × Result DialError OpenStreams
unfolding second_streams
second_acquired key port a (m, none) = (m, err dialing)
second_acquired key port a (m, some p) =
    let (c, m') = create_streams a.create port p m in second_streams key p c.streams m'

-- Where the first attempt creates no streams, its entry is evicted, and there is a second one.
unfoldable pub first_streams :
    SpdyKey → ℕ → ℕ → Attempt → Option (ℕ × ℕ) → Pool → Pool × Result DialError OpenStreams
unfolding second_acquired
first_streams key port p b none m =
    second_acquired key port b (acquire_pool_entry key b.alive b.dial (evict_stale key p m))
first_streams key port p b (some (d, e)) m =
    (m, ok (record { entry = p; data_stream = d; error_stream = e }))

unfoldable pub first_acquired :
    SpdyKey → ℕ → Attempt → Attempt → Pool × Option ℕ → Pool × Result DialError OpenStreams
unfolding first_streams
first_acquired key port a b (m, none) = (m, err dialing)
first_acquired key port a b (m, some p) =
    let (c, m') = create_streams a.create port p m in first_streams key port p b c.streams m'

-- DialPortForward behind the choice of a pod and its port.
unfoldable pub open_streams :
    SpdyKey → ℕ → Attempt → Attempt → Pool → Pool × Result DialError OpenStreams
unfolding first_acquired
open_streams key port a b m = first_acquired key port a b (acquire_pool_entry key a.alive a.dial m)

-- streamConn; `on_close_of` is the entry of the callback of buildOnClose, `spdy_con` a connection that
-- no pool manages.
pub record StreamConn : Type 0 where
  pub data_stream : ℕ
  pub error_stream : ℕ
  pub spdy_con : Option ℕ
  pub on_close_of : Option (SpdyKey × ℕ)

unfoldable pub fire_on_close : Option (SpdyKey × ℕ) → Pool → Pool
fire_on_close none m = m
fire_on_close (some (key, p)) m = on_close key p m

unfoldable pub close_owned : Option ℕ → Pool → Pool
close_owned none m = m
close_owned (some conn) m = record m { closed = conn ∷ m.closed }

-- streamConn.Close: the streams that are reset, in order, and the pool.
unfoldable pub close_stream_conn : StreamConn → Pool → List ℕ × Pool
unfolding fire_on_close close_owned
close_stream_conn c m =
    (c.data_stream ∷ c.error_stream ∷ [], close_owned c.spdy_con (fire_on_close c.on_close_of m))

unfoldable pub conn_of_streams :
    SpdyKey → Pool × Result DialError OpenStreams → Pool × Result DialError StreamConn
conn_of_streams key (m, err e) = (m, err e)
conn_of_streams key (m, ok s) = (
  m,
  ok (record {
    data_stream = s.data_stream;
    error_stream = s.error_stream;
    spdy_con = none;
    on_close_of = some (key, s.entry);
  }),
)

-- The libraries' answers for a client's REST configuration.
pub record RestClient : Type 0 where
  pub host_parses : Bool
  pub has_round_tripper : Bool

-- What a dial meets: the random index, the time, and the two attempts.
pub record Moment : Type 0 where
  pub now : ℕ
  pub index : ℕ
  pub first : Attempt
  pub second : Attempt

unfoldable pub dial_key :
    SpdyKey → RestClient → ℕ → Moment → Pool → Pool × Result DialError StreamConn
unfolding open_streams conn_of_streams
dial_key key client port moment m =
    if client.host_parses
    then if client.has_round_tripper
      then conn_of_streams key (open_streams key port moment.first moment.second m)
      else (m, err creating_round_tripper)
    else (m, err parsing_host)

-- Behind FindPort.
unfoldable pub dial_pod :
    Text → RestClient → Endpoint → Option ℕ → Moment → Pool → Pool × Result DialError StreamConn
unfolding dial_key
dial_pod context_name client endpoint none moment m = (m, err finding_port)
dial_pod context_name client endpoint (some port) moment m =
    let key : SpdyKey = record {
      context_name = context_name;
      namespace = endpoint.namespace;
      pod_name = endpoint.pod_name;
    } in
    dial_key key client port moment m

unfoldable pub dial_endpoint :
    Text
    → RestClient
    → Option Endpoint
    → Option ℕ
    → Moment
    → Pool
    → Pool × Result DialError StreamConn
unfolding dial_pod
dial_endpoint context_name client none port moment m = (m, err no_endpoint)
dial_endpoint context_name client (some endpoint) port moment m =
    dial_pod context_name client endpoint port moment m

unfoldable pub dial_resolved :
    Text
    → RestClient
    → ℕ
    → Moment
    → Resolver × Result ResolveError ResolvedService
    → Pool
    → Resolver × Pool × Result DialError StreamConn
unfolding dial_endpoint
dial_resolved context_name client svc_port moment (r, err e) m = (r, m, err (resolving e))
dial_resolved context_name client svc_port moment (r, ok resolved) m =
    let (m', answer) =
      dial_endpoint context_name client (pick_endpoint resolved.endpoints moment.index)
        (find_port resolved.ports svc_port) moment m in
    (r, m', answer)

unfoldable pub dial_client :
    Text
    → Option RestClient
    → Text
    → Text
    → Text
    → ℕ
    → Moment
    → Resolver
    → Pool
    → Resolver × Pool × Result DialError StreamConn
unfolding dial_resolved
dial_client context_name none namespace svc_name pod_name svc_port moment r m =
    (r, m, err unknown_context)
dial_client context_name (some client) namespace svc_name pod_name svc_port moment r m =
    dial_resolved context_name client svc_port moment
      (resolve r context_name namespace svc_name pod_name moment.now) m

-- `client_of` is clientForContext, and `current` the current context. (A PickEndpoint out of range,
-- `no_endpoint`, is a panic.)
unfoldable pub dial_port_forward :
    (Text → Option RestClient)
    → Text
    → Text
    → Text
    → Text
    → Text
    → ℕ
    → Moment
    → Resolver
    → Pool
    → Resolver × Pool × Result DialError StreamConn
unfolding dial_client context_or_current
dial_port_forward client_of current context_name namespace svc_name pod_name svc_port moment r m =
    let name = context_or_current context_name current in
    dial_client name (client_of name) namespace svc_name pod_name svc_port moment r m
