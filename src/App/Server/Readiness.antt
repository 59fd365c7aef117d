-- ===== src/App/Server/Readiness.antt =====
-- app/server.go and internal/health/server.go: when the server answers that it is ready.
use kube_forwarding_proxy.Base.{
  ℕ, [], ◌≡◌, ◌↔◌, refl, inl, inr, Bool, true, false, Option, none, some, Text, Result, ok, err,
  Bool-cases,
}
use kube_forwarding_proxy.Vip.Address.{Ip}
use kube_forwarding_proxy.Vip.Resolve.{IfaceError, resolve_iface}
use kube_forwarding_proxy.Vip.Allocator.{Allocator, AllocatorError, new_allocator}
use kube_forwarding_proxy.Dns.Lifecycle.{DnsServer, new_dns_server, dns_start}
use kube_forwarding_proxy.Proxy.Socks5.{SocksProxy, socks_start}
use kube_forwarding_proxy.Health.{ok_200, handle_readiness}
use kube_forwarding_proxy.App.Config.{Config}
use kube_forwarding_proxy.App.Server.{
  StartError, AppServer, new_server, Boot, then_start, start_http, start_clients, start_managers,
  start_allocator, started_dns, start_dns, started_socks, start_socks, finish_start,
  start_from_socks, start_from_dns, start_from_allocator, start_from_clients, start_on, start,
}

module _ (C : Type 0) (boot : Boot C) (cfg : Config) where
  -- A server that is not ready, behind a step or an error.
  abbrev IsUnready : AppServer C → Type 0
  IsUnready s = s.health.ready ≡ false

  -- An answer that agrees with the readiness probe.
  abbrev IsHonest : Option StartError × AppServer C → Type 0
  IsHonest (e, s) = (e ≡ none) ↔ (handle_readiness s.health ≡ ok_200)

  then_start-IsHonest :
      (r : Option StartError × AppServer C) (rest : AppServer C → Option StartError × AppServer C)
      → IsUnready r.1
      → ((s : AppServer C) → IsUnready s → IsHonest (rest s))
      → IsHonest (then_start C r rest)
  unfolding then_start handle_readiness
  then_start-IsHonest (none, s) rest u h = h s u
  then_start-IsHonest (some e, s) rest u h =
      (λ z. absurd (cc), λ z. absurd (let y = rw u at z in cc))

  start_http-IsUnready :
      (o : Option ℕ) (s : AppServer C) → IsUnready s → IsUnready (start_http C boot o s).1
  unfolding start_http
  start_http-IsUnready none s u = u
  start_http-IsUnready (some ln) s u = u

  start_clients-IsUnready :
      (o : Option C) (s : AppServer C) → IsUnready s → IsUnready (start_clients C o s).1
  unfolding start_clients
  start_clients-IsUnready none s u = u
  start_clients-IsUnready (some c) s u = u

  start_managers-IsUnready :
      (o : Result AllocatorError Allocator) (s : AppServer C)
      → IsUnready s
      → IsUnready (start_managers C cfg o s).1
  unfolding start_managers
  start_managers-IsUnready (err e) s u = u
  start_managers-IsUnready (ok a) s u = u

  start_allocator-IsUnready :
      (b : Bool) (s : AppServer C) → IsUnready s → IsUnready (start_allocator C boot cfg b s).1
  unfolding start_allocator
  start_allocator-IsUnready false s u = u
  start_allocator-IsUnready true s u =
      start_managers-IsUnready (new_allocator boot.parse_cidr cfg.vip_cidr) s u

  started_dns-IsUnready :
      (r : Bool × DnsServer) (s : AppServer C) → IsUnready s → IsUnready (started_dns C boot r s).1
  unfolding started_dns
  started_dns-IsUnready (false, d) s u = u
  started_dns-IsUnready (true, d) s u = u

  start_dns-IsUnready :
      (b : Bool) (s : AppServer C) → IsUnready s → IsUnready (start_dns C boot cfg b s).1
  unfolding start_dns
  start_dns-IsUnready false s u = u
  start_dns-IsUnready true s u =
      started_dns-IsUnready (dns_start boot.dns cfg.dns_listen new_dns_server) s u

  started_socks-IsUnready :
      (r : Bool × SocksProxy) (s : AppServer C)
      → IsUnready s
      → IsUnready (started_socks C boot r s).1
  unfolding started_socks
  started_socks-IsUnready (false, p) s u = u
  started_socks-IsUnready (true, p) s u = u

  start_socks-IsUnready :
      (b : Bool) (s : AppServer C) → IsUnready s → IsUnready (start_socks C boot cfg b s).1
  unfolding start_socks
  start_socks-IsUnready false s u = u
  start_socks-IsUnready true s u = elim (Bool-cases boot.has_socks) [
    | inl e ↦ rw e (
        started_socks-IsUnready
          (socks_start (boot.listen_tcp cfg.socks_listen) (record { listener = none; closed = [] }))
          s u)
    | inr e ↦ rw e u
  ]

  finish_start-IsHonest : (s : AppServer C) → IsHonest (finish_start C s)
  unfolding finish_start handle_readiness
  finish_start-IsHonest s = (λ z. refl, λ z. refl)

  start_from_socks-IsHonest :
      (socks : Bool) (s : AppServer C)
      → IsUnready s
      → IsHonest (start_from_socks C boot cfg socks s)
  unfolding start_from_socks
  start_from_socks-IsHonest socks s u =
      then_start-IsHonest (start_socks C boot cfg socks s) (finish_start C)
        (start_socks-IsUnready socks s u) (λ t v. finish_start-IsHonest t)

  start_from_dns-IsHonest :
      (dns socks : Bool) (s : AppServer C)
      → IsUnready s
      → IsHonest (start_from_dns C boot cfg dns socks s)
  unfolding start_from_dns
  start_from_dns-IsHonest dns socks s u =
      then_start-IsHonest (start_dns C boot cfg dns s) (start_from_socks C boot cfg socks)
        (start_dns-IsUnready dns s u) (start_from_socks-IsHonest socks)

  start_from_allocator-IsHonest :
      (dns socks : Bool) (name : Text) (s : AppServer C)
      → IsUnready s
      → IsHonest (start_from_allocator C boot cfg dns socks name s)
  unfolding start_from_allocator
  start_from_allocator-IsHonest dns socks name s u =
      let b = boot.has_address_manager name in
      then_start-IsHonest (start_allocator C boot cfg b s) (start_from_dns C boot cfg dns socks)
        (start_allocator-IsUnready b s u) (start_from_dns-IsHonest dns socks)

  start_from_clients-IsHonest :
      (dns socks : Bool) (name : Text) (s : AppServer C)
      → IsUnready s
      → IsHonest (start_from_clients C boot cfg dns socks name s)
  unfolding start_from_clients
  start_from_clients-IsHonest dns socks name s u =
      then_start-IsHonest (start_clients C boot.clients s)
        (start_from_allocator C boot cfg dns socks name) (start_clients-IsUnready boot.clients s u)
        (start_from_allocator-IsHonest dns socks name)

  start_on-IsHonest :
      (dns socks : Bool) (r : Result IfaceError (Ip × Text)) (s : AppServer C)
      → IsUnready s
      → IsHonest (start_on C boot cfg dns socks r s)
  unfolding start_on handle_readiness
  start_on-IsHonest dns socks (err e) s u =
      (λ z. absurd (cc), λ z. absurd (let y = rw u at z in cc))
  start_on-IsHonest dns socks (ok (ip, name)) s u =
      let ln = boot.listen_tcp cfg.http_listen in
      then_start-IsHonest (start_http C boot ln s) (start_from_clients C boot cfg dns socks name)
        (start_http-IsUnready ln s u) (start_from_clients-IsHonest dns socks name)

  -- A new server's Start, whatever the system answers: it succeeds exactly if /readyz answers that the
  -- proxy is ready afterwards.
  pub start_ready :
      (dns socks : Bool)
      → ((start C boot cfg dns socks (new_server C)).0 ≡ none)
        ↔ (handle_readiness (start C boot cfg dns socks (new_server C)).1.health ≡ ok_200)
  unfolding start
  start_ready dns socks =
      start_on-IsHonest dns socks (resolve_iface boot.host cfg.interface) (new_server C) refl
