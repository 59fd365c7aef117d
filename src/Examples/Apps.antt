-- ===== src/Examples/Apps.antt =====
-- app and internal/vip/resolve.go: a server with DNS and SOCKS5 on one interface.
use kube_forwarding_proxy.Base.{◌≡◌, ◌↔◌, refl, true, false, none, some, List, [], ◌∷◌, ok}
use kube_forwarding_proxy.Vip.Address.{ip4, ip6}
use kube_forwarding_proxy.Vip.Allocator.{Allocator, allocator_of, cleanup}
use kube_forwarding_proxy.Vip.Allocator.Invariant.{IsValid}
use kube_forwarding_proxy.Vip.Allocator.Refinement.{
  Call, allocates, releases, Answer, Promises, view, calls, calls-refine,
}
use kube_forwarding_proxy.Vip.Resolve.{ip_net, NetInterface, Host, resolve_iface}
use kube_forwarding_proxy.Vip.Resolve.Owner.{IsOwner, IsFrom, resolve_iface_ok}
use kube_forwarding_proxy.K8s.SpdyPool.{empty_pool}
use kube_forwarding_proxy.Health.{handle_readiness, ok_200}
use kube_forwarding_proxy.App.Config.{
  pos, Os, Config, config_from, info, new_config_from_environment,
}
use kube_forwarding_proxy.App.Config.Validity.{
  IsConfig, IsConfigOf, new_config_from_environment_iff,
}
use kube_forwarding_proxy.App.Server.{AppServer, new_server, Boot, start, stop}
use kube_forwarding_proxy.App.Server.Readiness.{start_ready}
use kube_forwarding_proxy.App.Server.Stopping.{IsStopped, stop-IsStopped}
use kube_forwarding_proxy.Examples.Allocation.{
  net, interface, network, iface, fresh-IsValid, web_ip, web,
}
use kube_forwarding_proxy.Examples.Forwards.{manager}

abbrev history : List Call
history = allocates web ∷ releases web_ip ∷ allocates web ∷ []

calls-refine_example :
    (ys : List Answer) × (b : Allocator) × (t : interface.Iface) × (calls net interface history
        (allocator_of network)
        iface
      ≡ some (ys, b, t))
    × IsValid net b
    × Promises (view (allocator_of network)) history ys (view b)
calls-refine_example = calls-refine net interface history (allocator_of network) iface fresh-IsValid

abbrev lo : NetInterface
lo = record {
  name = b'l' ∷ b'o' ∷ [];
  addrs = some (ip_net (ip6 (1 ∷ [])) ∷ ip_net (ip4 127 0 0 1) ∷ []);
}

abbrev host : Host
host = record {
  parse_ip = λ t. none;
  interfaces = some (lo ∷ []);
  interface_by_name = λ t. some lo;
}

resolves_lo : resolve_iface host lo.name ≡ ok (ip4 127 0 0 1, lo.name)
unfolding resolve_iface
resolves_lo = refl

resolve_iface_ok_example :
    (i : NetInterface) × (i.name ≡ lo.name)
    × IsOwner i (ip4 127 0 0 1)
    × IsFrom host lo.name (ip4 127 0 0 1) i
resolve_iface_ok_example = resolve_iface_ok host lo.name (ip4 127 0 0 1) lo.name resolves_lo

abbrev os : Os
os = record {
  lookup_env = λ key. none;
  to_lower = λ t. t;
  parse_duration = λ t. none;
  is_cidr = λ t. true;
}

abbrev defaults : Config
defaults = record {
  interface = lo.name;
  vip_cidr = [];
  cluster_domain = b'a' ∷ [];
  log_level = info;
  http_listen = [];
  dns_listen = b'd' ∷ [];
  socks_listen = b's' ∷ [];
  vip_idle_timeout = pos 30;
}

new_config_from_environment_iff_example :
    (new_config_from_environment os ≡ ok (config_from os (pos 0)))
    ↔ (IsConfigOf os (config_from os (pos 0)) × IsConfig os (config_from os (pos 0)))
new_config_from_environment_iff_example =
    new_config_from_environment_iff os (config_from os (pos 0))

-- The listeners are 1 to 4; the managers are left out of the clients.
abbrev boot : Boot (Unit {0})
boot = record {
  host = host;
  listen_tcp = λ addr. some 1;
  addr_of = λ ln. b'0' ∷ [];
  clients = some tt;
  has_address_manager = λ name. true;
  parse_cidr = λ cidr. ok network;
  dns = record { listen_packet = λ addr. some 3; listen_tcp = λ addr. some 4; serve_fails = false };
  has_socks = true;
}

start_ready_example :
    ((start (Unit {0}) boot defaults true true (new_server (Unit {0}))).0 ≡ none) ↔ (
      handle_readiness (start (Unit {0}) boot defaults true true (new_server (Unit {0}))).1.health
      ≡ ok_200)
start_ready_example = start_ready (Unit {0}) boot defaults true true

abbrev running : AppServer (Unit {0})
running = record (new_server (Unit {0})) {
  http_srv = some 1;
  allocator = some (allocator_of network);
  forward_manager = some (manager, empty_pool);
  dns_server = some (record {
    udp_conn = some 3;
    tcp_listener = some 4;
    udp_server = some 3;
    tcp_server = some 4;
    closed = [];
  });
  socks5_proxy = some (record { listener = some 2; closed = [] });
}

stop-IsStopped_example :
    IsStopped (Unit {0}) 1 2 3 4 (stop (Unit {0}) net interface running iface).0
    × ((stop (Unit {0}) net interface running iface).1
        ≡ cleanup net interface (allocator_of network) iface)
stop-IsStopped_example =
    stop-IsStopped (Unit {0}) net interface running iface 1 2 3 4
      (record { listener = some 2; closed = [] })
      (record {
        udp_conn = some 3;
        tcp_listener = some 4;
        udp_server = some 3;
        tcp_server = some 4;
        closed = [];
      })
      manager empty_pool (allocator_of network) refl refl refl refl refl refl refl refl
