-- ===== src/K8s/PortForward/Conn.antt =====
-- internal/k8s/forward_manager.go: handleConn, with nothing of another goroutine between its parts. The
-- copying of bytes leaves the state as it is.
use kube_forwarding_proxy.Base.{
  ℕ, ◌+◌, ◌<◌, ◌≡◌, refl, ap, ◌∙◌, inl, inr, Option, none, some, List, ◌∷◌, Text, Result, ok, err,
  arith, Bool-cases,
}
use kube_forwarding_proxy.Vip.Address.{u32_mod}
use kube_forwarding_proxy.K8s.Resolver.{
  Endpoint, ResolvedService, ResolveError, Resolver, resolve, pick_endpoint, find_port,
}
use kube_forwarding_proxy.K8s.ForwardManager.{
  Manager, locate_state, conn_begin, conn_end, set_state, write, rearm, context_or_current,
}
use kube_forwarding_proxy.K8s.SpdyPool.{SpdyKey, Pool, on_close}
use kube_forwarding_proxy.K8s.SpdyPool.Sharing.{System, Reach}
use kube_forwarding_proxy.K8s.PortForward.{
  DialError, dialing, OpenStreams, open_streams, StreamConn, close_stream_conn, fire_on_close,
  close_owned, conn_of_streams, RestClient, Moment, dial_key, dial_pod, dial_endpoint,
  dial_resolved, dial_client, dial_port_forward,
}
use kube_forwarding_proxy.K8s.PortForward.Leases.{
  IsAnswered, IsHolding, closes, open_streams-answered,
}

-- The connections that were accepted and closed, beside the state of the components.
pub record ConnState : Type 0 where
  pub manager : Manager
  pub resolver : Resolver
  pub pool : Pool
  pub closed : List ℕ

-- The deferred Close of the stream's connection, if there is one.
unfoldable pub close_dialled : Pool × Result DialError StreamConn → Pool
unfolding close_stream_conn
close_dialled (m, err e) = m
close_dialled (m, ok c) = (close_stream_conn c m).1

-- handleConn behind the dial: the deferred calls, the last one first.
unfoldable pub finish_conn :
    ℕ → Text → Option ℕ → ConnState → Resolver × Pool × Result DialError StreamConn → ConnState
unfolding close_dialled conn_end
finish_conn conn vip tracked c (r, pool, answer) = record {
  manager = conn_end vip tracked c.manager;
  resolver = r;
  pool = close_dialled (pool, answer);
  closed = conn ∷ c.closed;
}

unfoldable pub handle_conn :
    (Text → Option RestClient)
    → Text
    → Text
    → Text
    → Text
    → Text
    → Text
    → ℕ
    → Moment
    → ℕ
    → ConnState
    → ConnState
unfolding finish_conn conn_begin locate_state dial_port_forward
handle_conn client_of current context_name vip namespace svc_name pod_name svc_port moment conn c =
    let tracked = locate_state vip c.manager in
    let c' = record c { manager = conn_begin tracked c.manager } in
    finish_conn conn vip tracked c' (
      dial_port_forward client_of current context_name namespace svc_name pod_name svc_port moment
        c'.resolver c'.pool)

-- A state of the pool that its steps reach, with the leases and callbacks of another.
pub record IsRestored (s : System) (pool : Pool) : Type 0 where
  pub state : System
  pub reached : Reach state
  pub same_pool : state.pool ≡ pool
  pub held : (q : ℕ) → state.leases q ≡ s.leases q
  pub waiting : (q : ℕ) → state.pending q ≡ s.pending q

abbrev dialled : Resolver × Pool × Result DialError StreamConn → Pool × Result DialError StreamConn
dialled (r, m, answer) = (m, answer)

module _ (s : System) (reach : Reach s) (room : (q : ℕ) → s.leases q + 1 < u32_mod) where
  unchanged : IsRestored s s.pool
  unchanged = record {
    state = s;
    reached = reach;
    same_pool = refl;
    held = λ q. refl;
    waiting = λ q. refl;
  }

  answered-IsRestored :
      (key : SpdyKey) (r : Pool × Result DialError OpenStreams) (t : System)
      → IsAnswered key s.leases s.pending r t
      → IsRestored s (close_dialled (conn_of_streams key r))
  unfolding close_dialled conn_of_streams close_stream_conn fire_on_close close_owned
  answered-IsRestored key (m, err e) t a = record {
    state = t;
    reached = a.reached;
    same_pool = a.pool;
    held = a.held;
    waiting = a.waiting;
  }
  answered-IsRestored key (m, ok o) t a =
      let holding : IsHolding key s.leases s.pending o.entry t = record {
        reached = a.reached;
        owned = a.owned;
        held = a.held;
        waiting = a.waiting;
      } in
      let (u, b) = closes key 0 s.leases s.pending o.entry t holding dialing in
      record {
        state = u;
        reached = b.reached;
        same_pool = b.pool ∙ ap (on_close key o.entry) a.pool;
        held = b.held;
        waiting = b.waiting;
      }

  dial_key-IsRestored :
      (key : SpdyKey) (client : RestClient) (port : ℕ) (moment : Moment)
      → IsRestored s (close_dialled (dial_key key client port moment s.pool))
  unfolding dial_key close_dialled
  dial_key-IsRestored key client port moment = elim (Bool-cases client.host_parses) [
    | inr e ↦ rw e unchanged
    | inl e ↦ elim (Bool-cases client.has_round_tripper) [
      | inr f ↦ rw (e, f) unchanged
      | inl f ↦
          let (t, a) = open_streams-answered key port moment.first moment.second s reach room in
          rw (e, f)
            (answered-IsRestored key (open_streams key port moment.first moment.second s.pool) t a)
    ]
  ]

  dial_endpoint-IsRestored :
      (name : Text) (client : RestClient) (e : Option Endpoint) (port : Option ℕ) (moment : Moment)
      → IsRestored s (close_dialled (dial_endpoint name client e port moment s.pool))
  unfolding dial_endpoint dial_pod close_dialled
  dial_endpoint-IsRestored name client none port moment = unchanged
  dial_endpoint-IsRestored name client (some e) none moment = unchanged
  dial_endpoint-IsRestored name client (some e) (some port) moment =
      dial_key-IsRestored
        (record { context_name = name; namespace = e.namespace; pod_name = e.pod_name }) client port
        moment

  dial_resolved-IsRestored :
      (name : Text) (client : RestClient) (port : ℕ) (moment : Moment)
      (r : Resolver × Result ResolveError ResolvedService)
      → IsRestored s (close_dialled (dialled (dial_resolved name client port moment r s.pool)))
  unfolding dial_resolved close_dialled
  dial_resolved-IsRestored name client port moment (r, err e) = unchanged
  dial_resolved-IsRestored name client port moment (r, ok resolved) =
      dial_endpoint-IsRestored name client (pick_endpoint resolved.endpoints moment.index)
        (find_port resolved.ports port) moment

  dial_client-IsRestored :
      (name : Text) (client : Option RestClient) (namespace svc pod : Text) (port : ℕ)
      (moment : Moment) (r : Resolver)
      → IsRestored s
          (close_dialled (dialled (dial_client name client namespace svc pod port moment r s.pool)))
  unfolding dial_client close_dialled
  dial_client-IsRestored name none namespace svc pod port moment r = unchanged
  dial_client-IsRestored name (some client) namespace svc pod port moment r =
      dial_resolved-IsRestored name client port moment (resolve r name namespace svc pod moment.now)

-- The count of a connection is taken back at its end.
conn_begin-conn_end :
    (vip : Text) (tracked : Option ℕ) (m : Manager) (p : ℕ)
    → ((q : ℕ) → (m.store q).active_conns < u32_mod)
    → ((conn_end vip tracked (conn_begin tracked m)).store p).active_conns
      ≡ (m.store p).active_conns
unfolding conn_begin conn_end set_state write rearm
conn_begin-conn_end vip none m p small = refl
conn_begin-conn_end vip (some q) m p small = ground (arith, small q, small p)

-- A connection that is handled alone, from every state that the pool's steps reach, where no
-- connection has 2³² - 1 streams and each count of active connections is a value of 32 bits, whatever
-- the API and the SPDY library answer: it gives everything back. The pool is reached by its steps again, with the leases and the callbacks that there were, no
-- VIP's count of active connections has changed, and the accepted connection is closed.
pub handle_conn-IsRestored :
    (client_of : Text → Option RestClient) (current context_name vip namespace svc pod : Text)
    (port : ℕ) (moment : Moment) (conn : ℕ) (given : ConnState) (s : System)
    → Reach s
    → ((q : ℕ) → s.leases q + 1 < u32_mod)
    → ((q : ℕ) → (given.manager.store q).active_conns < u32_mod)
    → let c = record given { pool = s.pool } in
      let c' =
        handle_conn client_of current context_name vip namespace svc pod port moment conn c in
      IsRestored s c'.pool
      × ((p : ℕ) → (c'.manager.store p).active_conns ≡ (c.manager.store p).active_conns)
      × (c'.closed ≡ conn ∷ c.closed)
unfolding handle_conn finish_conn dial_port_forward
handle_conn-IsRestored client_of current context_name vip namespace svc pod port moment conn given s
      reach room small =
    let name = context_or_current context_name current in
    (
      dial_client-IsRestored s reach room name (client_of name) namespace svc pod port moment
          given.resolver,
      λ p. conn_begin-conn_end vip (locate_state vip given.manager) given.manager p small,
      refl,
    )
