-- ===== src/Dns/Lifecycle.antt =====
-- internal/dns/server.go: Start, Addr and Shutdown. A socket is a number; a server's own Shutdown
-- closes its socket.
use kube_forwarding_proxy.Base.{
  Bool, true, false, ℕ, Option, none, some, List, [], ◌∷◌, Text, if◌then◌else◌,
}

pub record DnsServer : Type 0 where
  pub udp_conn : Option ℕ
  pub tcp_listener : Option ℕ
  pub udp_server : Option ℕ
  pub tcp_server : Option ℕ
  pub closed : List ℕ

abbrev pub new_dns_server : DnsServer
new_dns_server = record {
  udp_conn = none;
  tcp_listener = none;
  udp_server = none;
  tcp_server = none;
  closed = [];
}

-- What the system answers: the two sockets, and whether a server fails within 100 milliseconds.
pub record DnsBoot : Type 0 where
  pub listen_packet : Text → Option ℕ
  pub listen_tcp : Text → Option ℕ
  pub serve_fails : Bool

-- Behind net.Listen; the Boolean is whether Start succeeds.
unfoldable pub dns_serve : Bool → ℕ → Option ℕ → DnsServer → Bool × DnsServer
dns_serve fails udp none s = (false, record s { closed = udp ∷ s.closed })
dns_serve fails udp (some tcp) s = (
  if fails then false else true,
  record s { tcp_listener = some tcp; udp_server = some udp; tcp_server = some tcp },
)

unfoldable pub dns_bound : DnsBoot → Text → Option ℕ → DnsServer → Bool × DnsServer
unfolding dns_serve
dns_bound boot listen_addr none s = (false, s)
dns_bound boot listen_addr (some udp) s =
    dns_serve boot.serve_fails udp (boot.listen_tcp listen_addr) (record s { udp_conn = some udp })

unfoldable pub dns_start : DnsBoot → Text → DnsServer → Bool × DnsServer
unfolding dns_bound
dns_start boot listen_addr s = dns_bound boot listen_addr (boot.listen_packet listen_addr) s

unfoldable pub dns_addr : (ℕ → Text) → Option ℕ → Text
dns_addr addr_of none = []
dns_addr addr_of (some udp) = addr_of udp

unfoldable pub close_socket : Option ℕ → List ℕ → List ℕ
close_socket none closed = closed
close_socket (some socket) closed = socket ∷ closed

-- The library's Shutdown of a server that serves closes its socket. (For one that is set but does not
-- serve yet it fails, which Shutdown logs: that moment is left out.)
unfoldable pub dns_shutdown : DnsServer → DnsServer
unfolding close_socket
dns_shutdown s = record s {
  closed = close_socket s.tcp_server (close_socket s.udp_server s.closed);
}
