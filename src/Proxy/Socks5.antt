-- ===== src/Proxy/Socks5.antt =====
-- internal/proxy/socks5.go. The system's dials and DNS, and what net and fmt read of a text, are the
-- fields of `Net`; a connection is a number. A port is an int32 value, kept as its 32 bits.
pub mod Dots
pub mod Routes
use kube_forwarding_proxy.Base.{
  ℕ, Bool, true, false, Option, none, some, List, [], ◌∷◌, Text, Result, ok, err, if◌then◌else◌,
  trim_suffix,
}
use kube_forwarding_proxy.Vip.Address.{Ip}
use kube_forwarding_proxy.Proxy.Cluster.{dot, ClusterHost, is_cluster_host, parse_cluster_host}
use kube_forwarding_proxy.K8s.Resolver.{Resolver}
use kube_forwarding_proxy.K8s.SpdyPool.{Pool}
use kube_forwarding_proxy.K8s.PortForward.{
  DialError, StreamConn, RestClient, Moment, dial_port_forward,
}

-- net.SplitHostPort, fmt.Sscanf with "%d", net.DialTimeout, LookupHost and ParseIP.
pub record Net : Type 0 where
  pub split_host_port : Text → Option (Text × Text)
  pub scan_port : Text → Option ℕ
  pub dial_timeout : Text → Option ℕ
  pub lookup_host : Text → Option (List Text)
  pub parse_ip : Text → Option Ip

pub data SocksConn : Type 0 where
  direct : ℕ → SocksConn
  tunnel : StreamConn → SocksConn

pub data SocksError : Type 0 where
  parsing_address invalid_name invalid_port dial_failed : SocksError
  port_forward : DialError → SocksError

-- The forward manager as DialPortForward reads and changes it, and what it meets.
pub record Tunnels : Type 0 where
  pub client_of : Text → Option RestClient
  pub current : Text
  pub resolver : Resolver
  pub pool : Pool

unfoldable pub tunnelled :
    Tunnels → Resolver × Pool × Result DialError StreamConn → Tunnels × Result SocksError SocksConn
tunnelled t (r, p, ok conn) = (record t { resolver = r; pool = p }, ok (tunnel conn))
tunnelled t (r, p, err e) = (record t { resolver = r; pool = p }, err (port_forward e))

unfoldable pub dial_host_port :
    ClusterHost → Option ℕ → Moment → Tunnels → Tunnels × Result SocksError SocksConn
unfolding tunnelled dial_port_forward
dial_host_port h none moment t = (t, err invalid_port)
dial_host_port h (some svc_port) moment t = tunnelled t (
    dial_port_forward t.client_of t.current h.context_name h.namespace h.svc_name h.pod_name
      svc_port moment t.resolver t.pool)

unfoldable pub dial_parsed :
    Option ClusterHost → Option ℕ → Moment → Tunnels → Tunnels × Result SocksError SocksConn
unfolding dial_host_port
dial_parsed none port moment t = (t, err invalid_name)
dial_parsed (some h) port moment t = dial_host_port h port moment t

unfoldable pub dial_cluster :
    Net → Text → Text → Text → Moment → Tunnels → Tunnels × Result SocksError SocksConn
unfolding dial_parsed
dial_cluster net cluster_domain host port_str moment t =
    dial_parsed (parse_cluster_host (trim_suffix host (dot ∷ [])) cluster_domain)
      (net.scan_port port_str) moment t

unfoldable pub dial_direct : Option ℕ → Result SocksError SocksConn
dial_direct none = err dial_failed
dial_direct (some conn) = ok (direct conn)

unfoldable pub dial_split :
    Net
    → Text
    → Text
    → Option (Text × Text)
    → Moment
    → Tunnels
    → Tunnels × Result SocksError SocksConn
unfolding dial_cluster dial_direct
dial_split net cluster_domain addr none moment t = (t, err parsing_address)
dial_split net cluster_domain addr (some (host, port_str)) moment t =
    if is_cluster_host host cluster_domain
    then dial_cluster net cluster_domain host port_str moment t
    else (t, dial_direct (net.dial_timeout addr))

unfoldable pub dial : Net → Text → Text → Moment → Tunnels → Tunnels × Result SocksError SocksConn
unfolding dial_split
dial net cluster_domain addr moment t =
    dial_split net cluster_domain addr (net.split_host_port addr) moment t

-- clusterAwareResolver.Resolve. An answer may be the nil IP, which has the client's name dialled; an
-- empty list of addresses would be an index out of range.
pub data Resolved : Type 0 where
  nil_ip lookup_failed panics : Resolved
  resolved_ip : Ip → Resolved

unfoldable pub resolved_text : Option Ip → Resolved
resolved_text none = nil_ip
resolved_text (some ip) = resolved_ip ip

unfoldable pub resolved_addrs : (Text → Option Ip) → Option (List Text) → Resolved
unfolding resolved_text
resolved_addrs parse_ip none = lookup_failed
resolved_addrs parse_ip (some []) = panics
resolved_addrs parse_ip (some (addr ∷ addrs)) = resolved_text (parse_ip addr)

unfoldable pub resolve_name : Net → Text → Text → Resolved
unfolding resolved_addrs
resolve_name net cluster_domain name =
    if is_cluster_host name cluster_domain
    then nil_ip
    else resolved_addrs net.parse_ip (net.lookup_host name)

-- SOCKS5Proxy's listener, with the listeners that were closed.
pub record SocksProxy : Type 0 where
  pub listener : Option ℕ
  pub closed : List ℕ

-- Start: `listen` is what net.Listen answers. Whether it succeeded is the Boolean.
unfoldable pub socks_start : Option ℕ → SocksProxy → Bool × SocksProxy
socks_start none p = (false, p)
socks_start (some ln) p = (true, record p { listener = some ln })

-- Addr: `addr_of` is the address of a listener.
unfoldable pub socks_addr : (ℕ → Text) → Option ℕ → Text
socks_addr addr_of none = []
socks_addr addr_of (some ln) = addr_of ln

unfoldable pub close_listener : Option ℕ → SocksProxy → SocksProxy
close_listener none p = p
close_listener (some ln) p = record { listener = none; closed = ln ∷ p.closed }

unfoldable pub socks_shutdown : SocksProxy → SocksProxy
unfolding close_listener
socks_shutdown p = close_listener p.listener p
