-- ===== src/Dns/Server/Lookups.antt =====
-- internal/dns/server.go: the two informative lookups.
use kube_forwarding_proxy.Base.{
  ℕ, ◌≡◌, ◌≢◌, refl, ap, sym, ◌∙◌, inl, inr, Bool, true, Option, none, some, List, [], ◌∷◌, map,
  Text, Option-cases,
}
use kube_forwarding_proxy.Vip.Address.{Ip}
use kube_forwarding_proxy.Vip.Allocator.{Allocator, lookup_vip}
use kube_forwarding_proxy.Proxy.Cluster.{ClusterHost, parse_cluster_host}
use kube_forwarding_proxy.K8s.Resolver.{Resolver, resolver_context_names}
use kube_forwarding_proxy.Dns.Server.{
  ContextVip, allocated_vips, add_found, port_vip, add_vip, vips_with_ports, vips_or_exists,
  lookup_txt_in, lookup_srv_in, lookup_txt, lookup_srv, service_key, contexts_for, trim_dot,
  resolve_host,
}

-- A VIP without its ports, as lookupTXT gives it.
abbrev pub without_ports : ContextVip → ContextVip
without_ports v = record v { ports = [] }

vips_with_ports-allocated_vips :
    (names : List Text) (h : ClusterHost) (a : Allocator) (clock : Text → ℕ) (r : Resolver)
    → map without_ports (vips_with_ports names h a clock r).1 ≡ allocated_vips names h a
unfolding vips_with_ports allocated_vips port_vip add_vip add_found
vips_with_ports-allocated_vips [] h a clock r = refl
vips_with_ports-allocated_vips (name ∷ names) h a clock r =
    go (lookup_vip (service_key name h) a) (vips_with_ports-allocated_vips names h a clock)
  where
    go :
        (o : Option Ip)
        → ((q : Resolver)
            → map without_ports (vips_with_ports names h a clock q).1 ≡ allocated_vips names h a)
        → (let (r', v) = port_vip name o h (clock name) r in
            let (r'', vips) = vips_with_ports names h a clock r' in
            map without_ports (add_vip v vips))
          ≡ add_found name o (allocated_vips names h a)
    go none rest = rest r
    go (some ip) rest =
        ap (◌∷◌ (record { context_name = name; ip = ip; ports = [] }))
          (rest (resolve_host r name h (clock name)).0)

-- Where nothing is allocated the first pass of lookupSRV asks nothing.
vips_with_ports_none :
    (names : List Text) (h : ClusterHost) (a : Allocator) (clock : Text → ℕ) (r : Resolver)
    → allocated_vips names h a ≡ []
    → vips_with_ports names h a clock r ≡ (r, [])
unfolding vips_with_ports allocated_vips port_vip add_vip add_found
vips_with_ports_none [] h a clock r e = refl
vips_with_ports_none (name ∷ names) h a clock r e =
    elim (Option-cases (lookup_vip (service_key name h) a)) [
      | inl missing ↦ rw (missing, vips_with_ports_none names h a clock r (rw missing at e))
      | inr (ip, found) ↦ absurd (let e' = rw found at e in cc)
    ]

-- The answer without ports.
abbrev pub seen : Resolver × List ContextVip × Bool → List ContextVip × Bool
seen (r, vips, found) = (map without_ports vips, found)

-- The answer of a lookup, without the resolver's cache.
abbrev pub answer_of : Resolver × List ContextVip × Bool → List ContextVip × Bool
answer_of (r, vips, found) = (vips, found)

vips_or_exists_found :
    (vs ws : List ContextVip) (names : List Text) (h : ClusterHost) (clock : Text → ℕ)
    (r : Resolver)
    → map without_ports vs ≡ ws
    → ws ≢ []
    → seen (vips_or_exists vs names h clock r) ≡ (ws, true)
unfolding vips_or_exists
vips_or_exists_found [] ws names h clock r e given = absurd (given (sym e))
vips_or_exists_found (v ∷ vs) ws names h clock r e given = ap (λ l. (l, true)) e

lookup_srv_in-lookup_txt_in :
    (names : List Text) (h : ClusterHost) (a : Allocator) (clock : Text → ℕ) (r : Resolver)
    → seen (lookup_srv_in names h a clock r) ≡ answer_of (lookup_txt_in names h a clock r)
unfolding lookup_srv_in lookup_txt_in
lookup_srv_in-lookup_txt_in names h a clock r = go (allocated_vips names h a) refl
  where
    go :
        (ws : List ContextVip)
        → allocated_vips names h a ≡ ws
        → seen (lookup_srv_in names h a clock r) ≡ answer_of (vips_or_exists ws names h clock r)
    go [] e = rw (vips_with_ports_none names h a clock r e, vips_or_exists) refl
    go (w ∷ ws) e =
        vips_or_exists_found (vips_with_ports names h a clock r).1 (w ∷ ws) names h clock
          (vips_with_ports names h a clock r).0
          (vips_with_ports-allocated_vips names h a clock r ∙ e) (λ n. cc)

-- lookupSRV and lookupTXT agree on every name: they find the same VIPs, in the same contexts, and
-- answer alike whether the service exists. Only the ports are lookupSRV's own.
pub lookup_srv-lookup_txt :
    (domain name : Text) (a : Allocator) (clock : Text → ℕ) (r : Resolver)
    → seen (lookup_srv domain name a clock r) ≡ answer_of (lookup_txt domain name a clock r)
unfolding lookup_srv lookup_txt
lookup_srv-lookup_txt domain name a clock r =
    elim (Option-cases (parse_cluster_host (trim_dot name) domain)) [
      | inl missing ↦ rw (missing, lookup_srv, lookup_txt) refl
      | inr (h, e) ↦
          rw (e, lookup_srv, lookup_txt)
            (lookup_srv_in-lookup_txt_in (contexts_for h.context_name (resolver_context_names r)) h
              a clock r)
    ]
