-- ===== src/App/Server/Stopping.antt =====
-- app/server.go: what Stop leaves.
use mathlib.Core.List.{Memᴰ}
use kube_forwarding_proxy.Base.{
  ℕ, ◌≡◌, refl, ap, ◌∙◌, true, none, some, [], ◌∷◌, Text, Dict, lookup, delete, is_some, arith,
  if◌then◌else◌, lookup-delete,
}
use kube_forwarding_proxy.Vip.Address.{NetText}
use kube_forwarding_proxy.Vip.Interface.{InterfaceAddressManager}
use kube_forwarding_proxy.Vip.Allocator.{Allocator, cleanup}
use kube_forwarding_proxy.K8s.SpdyPool.{
  SpdyKey, spdy_key_eq, spdy_key_beq_iff, Pool, close_conn, close_pooled, shutdown_pool,
}
use kube_forwarding_proxy.K8s.ForwardManager.{ForwardKey, key_eq, key_beq_iff, Manager, set_state}
use kube_forwarding_proxy.K8s.ForwardManager.Shutdown.{close_all, stop_all, stop_timer, shutdown}
use kube_forwarding_proxy.Dns.Lifecycle.{DnsServer, dns_shutdown, close_socket}
use kube_forwarding_proxy.Proxy.Socks5.{SocksProxy, socks_shutdown, close_listener}
use kube_forwarding_proxy.App.Server.{
  AppServer, stop_http, stop_socks, stop_dns, stop_forwards, stop_allocator, stop,
}

close_pooled-lookup :
    (d : Dict SpdyKey ℕ) (m : Pool) (key : SpdyKey)
    → lookup key (close_pooled (λ k. true) d m).spdy_pool
      ≡ (if is_some (lookup key d) then none else lookup key m.spdy_pool)
unfolding close_pooled close_conn lookup
close_pooled-lookup [] m key = refl
close_pooled-lookup ((k, p) ∷ d) m key =
    let m' = record m { spdy_pool = delete k m.spdy_pool; closed = (m.entry p).conn ∷ m.closed } in
    ground
      (arith, close_pooled-lookup d m' key, lookup-delete key k m.spdy_pool, spdy_key_beq_iff k key)

shutdown_pool-empty : (m : Pool) (key : SpdyKey) → lookup key (shutdown_pool m).spdy_pool ≡ none
unfolding shutdown_pool
shutdown_pool-empty m key = ground (arith, close_pooled-lookup m.spdy_pool m key)

close_all-lookup :
    (d : Dict ForwardKey ℕ) (m : Manager) (key : ForwardKey)
    → lookup key (close_all d m).entries
      ≡ (if is_some (lookup key d) then none else lookup key m.entries)
unfolding close_all lookup
close_all-lookup [] m key = refl
close_all-lookup ((k, l) ∷ d) m key =
    let m' = record m { entries = delete k m.entries; closed = l ∷ m.closed } in
    ground (arith, close_all-lookup d m' key, lookup-delete key k m.entries, key_beq_iff k key)

stop_all-entries : (d : Dict Text ℕ) (m : Manager) → (stop_all d m).entries ≡ m.entries
unfolding stop_all stop_timer set_state
stop_all-entries [] m = refl
stop_all-entries ((vip, p) ∷ d) m = stop_all-entries d (stop_timer p m)

shutdown-empty : (m : Manager) (key : ForwardKey) → lookup key (shutdown m).entries ≡ none
unfolding shutdown
shutdown-empty m key =
    let m' = close_all m.entries m in
    ap (lookup key) (stop_all-entries m'.vip_states m')
    ∙ ground (arith, close_all-lookup m.entries m key)

-- What is left of a server with all its components: its listeners `http`, `socks`, `udp` and `tcp`
-- are closed, nothing is forwarded, no connection is pooled.
pub record IsStopped (C : Type 0) (http socks udp tcp : ℕ) (t : AppServer C) : Type 0 where
  pub proxy : SocksProxy
  pub server : DnsServer
  pub manager : Manager
  pub pool : Pool
  pub has_proxy : t.socks5_proxy ≡ some proxy
  pub has_server : t.dns_server ≡ some server
  pub has_manager : t.forward_manager ≡ some (manager, pool)
  pub http_closed : Memᴰ http t.closed
  pub socks_closed : Memᴰ socks proxy.closed
  pub socks_gone : proxy.listener ≡ none
  pub udp_closed : Memᴰ udp server.closed
  pub tcp_closed : Memᴰ tcp server.closed
  pub forwards_none : (key : ForwardKey) → lookup key manager.entries ≡ none
  pub pools_none : (key : SpdyKey) → lookup key pool.spdy_pool ≡ none

module _ (C : Type 0) (net : NetText) (m : InterfaceAddressManager) where
  open m use {Iface}

  -- Stop of a server whose components are all there: its HTTP, SOCKS5 and DNS listeners are closed, no
  -- key is forwarded and no connection is pooled; the interface and the errors are those of the
  -- allocator's Cleanup.
  pub stop-IsStopped :
      (s : AppServer C) (iface : Iface) (http socks udp tcp : ℕ) (p : SocksProxy) (d : DnsServer)
      (manager : Manager) (pool : Pool) (a : Allocator)
      → s.http_srv ≡ some http
      → s.socks5_proxy ≡ some p
      → p.listener ≡ some socks
      → s.dns_server ≡ some d
      → d.udp_server ≡ some udp
      → d.tcp_server ≡ some tcp
      → s.forward_manager ≡ some (manager, pool)
      → s.allocator ≡ some a
      → IsStopped C http socks udp tcp (stop C net m s iface).0
        × ((stop C net m s iface).1 ≡ cleanup net m a iface)
  unfolding stop stop_http stop_socks stop_dns stop_forwards stop_allocator dns_shutdown
      close_socket socks_shutdown close_listener
  stop-IsStopped s iface http socks udp tcp p d manager pool a h hp hl hd hu ht hf ha =
      rw (h, hp, hd, hf, ha, stop_http, stop_socks, stop_dns, stop_forwards, stop_allocator)
        (
          record {
            proxy = socks_shutdown p;
            server = dns_shutdown d;
            manager = shutdown manager;
            pool = shutdown_pool pool;
            has_proxy = refl;
            has_server = refl;
            has_manager = refl;
            http_closed = Memᴰ.head refl;
            socks_closed = rw (hl, close_listener) (Memᴰ.head refl);
            socks_gone = rw (hl, close_listener) refl;
            udp_closed = rw (hu, ht, close_socket) (Memᴰ.tail (Memᴰ.head refl));
            tcp_closed = rw (ht, close_socket) (Memᴰ.head refl);
            forwards_none = shutdown-empty manager;
            pools_none = shutdown_pool-empty pool;
          },
          refl,
        )
