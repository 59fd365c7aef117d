-- ===== src/App/Server.antt =====
-- app/server.go: Start and Stop over the components. `C` is the type of the client manager. Loggers
-- and handlers of requests are left out; the interface's state passes through.
pub mod Readiness
pub mod Stopping
use kube_forwarding_proxy.Base.{
  ℕ, Bool, true, false, Option, none, some, List, [], ◌∷◌, Text, Result, ok, err, if◌then◌else◌,
}
use kube_forwarding_proxy.Vip.Address.{Ip, NetText}
use kube_forwarding_proxy.Vip.Interface.{AddressError, InterfaceAddressManager}
use kube_forwarding_proxy.Vip.Resolve.{Host, IfaceError, resolve_iface}
use kube_forwarding_proxy.Vip.Allocator.{Allocator, AllocatorError, Network, new_allocator, cleanup}
use kube_forwarding_proxy.K8s.SpdyPool.{Pool, empty_pool, shutdown_pool}
use kube_forwarding_proxy.K8s.ForwardManager.{Manager, new_manager}
use kube_forwarding_proxy.K8s.ForwardManager.Shutdown.{shutdown}
use kube_forwarding_proxy.Dns.Lifecycle.{
  DnsServer, DnsBoot, new_dns_server, dns_start, dns_addr, dns_shutdown,
}
use kube_forwarding_proxy.Proxy.Socks5.{SocksProxy, socks_start, socks_addr, socks_shutdown}
use kube_forwarding_proxy.Health.{Health, new_health, set_ready}
use kube_forwarding_proxy.App.Config.{ℤ, pos, negsuc, Config}

pub data StartError : Type 0 where
  resolving_interface : IfaceError → StartError
  http_listen initialising_clients creating_address_manager : StartError
  creating_allocator : AllocatorError → StartError
  starting_dns creating_socks starting_socks : StartError

-- A manager expires nothing for a timeout that is not positive.
unfoldable pub timeout_of : ℤ → ℕ
timeout_of (pos n) = n
timeout_of (negsuc n) = 0

module _ (C : Type 0) where
  -- The forward manager is a manager with its pool. `injected` are the managers that the kubeconfig
  -- handler has.
  pub record AppServer : Type 0 where
    pub http_addr : Text
    pub dns_addr : Text
    pub socks_addr : Text
    pub http_srv : Option ℕ
    pub k8s_manager : Option C
    pub allocator : Option Allocator
    pub forward_manager : Option (Manager × Pool)
    pub dns_server : Option DnsServer
    pub socks5_proxy : Option SocksProxy
    pub injected : Option C
    pub health : Health
    pub closed : List ℕ

  abbrev pub new_server : AppServer
  new_server = record {
    http_addr = [];
    dns_addr = [];
    socks_addr = [];
    http_srv = none;
    k8s_manager = none;
    allocator = none;
    forward_manager = none;
    dns_server = none;
    socks5_proxy = none;
    injected = none;
    health = new_health;
    closed = [];
  }

  -- What the system and the libraries answer: NewClientManager, NewInterfaceAddressManager and
  -- socks5.New among them.
  pub record Boot : Type 0 where
    pub host : Host
    pub listen_tcp : Text → Option ℕ
    pub addr_of : ℕ → Text
    pub clients : Option C
    pub has_address_manager : Text → Bool
    pub parse_cidr : Text → Result Text Network
    pub dns : DnsBoot
    pub has_socks : Bool

  abbrev Started : Type 0
  Started = Option StartError × AppServer

  -- A later step runs where no earlier one failed.
  unfoldable pub then_start :
      Option StartError × AppServer
      → (AppServer → Option StartError × AppServer)
      → Option StartError × AppServer
  then_start (none, s) rest = rest s
  then_start (some e, s) rest = (some e, s)

  unfoldable pub start_http : Boot → Option ℕ → AppServer → Option StartError × AppServer
  start_http boot none s = (some http_listen, s)
  start_http boot (some ln) s = (none, record s { http_srv = some ln; http_addr = boot.addr_of ln })

  unfoldable pub start_clients : Option C → AppServer → Option StartError × AppServer
  start_clients none s = (some initialising_clients, s)
  start_clients (some c) s = (none, record s { k8s_manager = some c })

  -- NewAllocator, the resolver, NewForwardManager and SetManagers.
  unfoldable pub start_managers :
      Config → Result AllocatorError Allocator → AppServer → Option StartError × AppServer
  unfolding new_manager timeout_of
  start_managers cfg (err e) s = (some (creating_allocator e), s)
  start_managers cfg (ok a) s = (
    none,
    record s {
      allocator = some a;
      forward_manager = some (new_manager true (timeout_of cfg.vip_idle_timeout), empty_pool);
      injected = s.k8s_manager;
    },
  )

  unfoldable pub start_allocator : Boot → Config → Bool → AppServer → Option StartError × AppServer
  unfolding start_managers new_allocator
  start_allocator boot cfg false s = (some creating_address_manager, s)
  start_allocator boot cfg true s =
      start_managers cfg (new_allocator boot.parse_cidr cfg.vip_cidr) s

  unfoldable pub started_dns : Boot → Bool × DnsServer → AppServer → Option StartError × AppServer
  unfolding dns_addr
  started_dns boot (false, d) s = (some starting_dns, record s { dns_server = some d })
  started_dns boot (true, d) s =
      (none, record s { dns_server = some d; dns_addr = dns_addr boot.addr_of d.udp_conn })

  unfoldable pub start_dns : Boot → Config → Bool → AppServer → Option StartError × AppServer
  unfolding started_dns dns_start
  start_dns boot cfg false s = (none, s)
  start_dns boot cfg true s = started_dns boot (dns_start boot.dns cfg.dns_listen new_dns_server) s

  unfoldable pub started_socks :
      Boot → Bool × SocksProxy → AppServer → Option StartError × AppServer
  unfolding socks_addr
  started_socks boot (false, p) s = (some starting_socks, record s { socks5_proxy = some p })
  started_socks boot (true, p) s =
      (none, record s { socks5_proxy = some p; socks_addr = socks_addr boot.addr_of p.listener })

  unfoldable pub start_socks : Boot → Config → Bool → AppServer → Option StartError × AppServer
  unfolding started_socks socks_start
  start_socks boot cfg false s = (none, s)
  start_socks boot cfg true s =
      if boot.has_socks
      then started_socks boot
          (socks_start (boot.listen_tcp cfg.socks_listen) (record { listener = none; closed = [] }))
          s
      else (some creating_socks, s)

  unfoldable pub finish_start : AppServer → Option StartError × AppServer
  unfolding set_ready
  finish_start s = (none, record s { health = set_ready s.health })

  -- The steps from one component on.
  unfoldable pub start_from_socks : Boot → Config → Bool → AppServer → Option StartError × AppServer
  unfolding then_start start_socks finish_start
  start_from_socks boot cfg enable_socks s =
      then_start (start_socks boot cfg enable_socks s) finish_start

  unfoldable pub start_from_dns :
      Boot → Config → Bool → Bool → AppServer → Option StartError × AppServer
  unfolding then_start start_dns start_from_socks
  start_from_dns boot cfg enable_dns enable_socks s =
      then_start (start_dns boot cfg enable_dns s) (start_from_socks boot cfg enable_socks)

  unfoldable pub start_from_allocator :
      Boot → Config → Bool → Bool → Text → AppServer → Option StartError × AppServer
  unfolding then_start start_allocator start_from_dns
  start_from_allocator boot cfg enable_dns enable_socks iface_name s =
      then_start (start_allocator boot cfg (boot.has_address_manager iface_name) s)
        (start_from_dns boot cfg enable_dns enable_socks)

  unfoldable pub start_from_clients :
      Boot → Config → Bool → Bool → Text → AppServer → Option StartError × AppServer
  unfolding then_start start_clients start_from_allocator
  start_from_clients boot cfg enable_dns enable_socks iface_name s =
      then_start (start_clients boot.clients s)
        (start_from_allocator boot cfg enable_dns enable_socks iface_name)

  -- Behind ResolveIface.
  unfoldable pub start_on :
      Boot
      → Config
      → Bool
      → Bool
      → Result IfaceError (Ip × Text)
      → AppServer
      → Option StartError × AppServer
  unfolding then_start start_http start_from_clients
  start_on boot cfg enable_dns enable_socks (err e) s = (some (resolving_interface e), s)
  start_on boot cfg enable_dns enable_socks (ok (ip, iface_name)) s =
      then_start (start_http boot (boot.listen_tcp cfg.http_listen) s)
        (start_from_clients boot cfg enable_dns enable_socks iface_name)

  unfoldable pub start : Boot → Config → Bool → Bool → AppServer → Option StartError × AppServer
  unfolding start_on
  start boot cfg enable_dns enable_socks s =
      start_on boot cfg enable_dns enable_socks (resolve_iface boot.host cfg.interface) s

  -- Stop's steps: each component that is there is shut down.
  unfoldable pub stop_http : Option ℕ → AppServer → AppServer
  stop_http none s = s
  stop_http (some ln) s = record s { closed = ln ∷ s.closed }

  unfoldable pub stop_socks : Option SocksProxy → AppServer → AppServer
  unfolding socks_shutdown
  stop_socks none s = s
  stop_socks (some p) s = record s { socks5_proxy = some (socks_shutdown p) }

  unfoldable pub stop_dns : Option DnsServer → AppServer → AppServer
  unfolding dns_shutdown
  stop_dns none s = s
  stop_dns (some d) s = record s { dns_server = some (dns_shutdown d) }

  unfoldable pub stop_forwards : Option (Manager × Pool) → AppServer → AppServer
  unfolding shutdown shutdown_pool
  stop_forwards none s = s
  stop_forwards (some (m, p)) s = record s { forward_manager = some (shutdown m, shutdown_pool p) }

  module _ (net : NetText) (m : InterfaceAddressManager) where
    open m use {Iface}

    unfoldable pub stop_allocator :
        Option Allocator → Iface → List (Text × Ip × AddressError) × Iface
    unfolding cleanup
    stop_allocator none iface = ([], iface)
    stop_allocator (some a) iface = cleanup net m a iface

    -- Stop, with the errors of the cleanup.
    unfoldable pub stop : AppServer → Iface → AppServer × (List (Text × Ip × AddressError) × Iface)
    unfolding stop_http stop_socks stop_dns stop_forwards stop_allocator
    stop s iface = (
      stop_forwards s.forward_manager
          (stop_dns s.dns_server (stop_socks s.socks5_proxy (stop_http s.http_srv s))),
      stop_allocator s.allocator iface,
    )
