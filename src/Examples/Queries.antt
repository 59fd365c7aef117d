-- ===== src/Examples/Queries.antt =====
-- internal/dns/server.go at concrete queries, for `web.prod.a.b.dev.` in the contexts of the resolver.
use kube_forwarding_proxy.Base.{
  ℕ, ◌≡◌, refl, Option, some, List, [], ◌∷◌, ◌++◌, Text, trim_suffix-append, ap, ◌∙◌, none, ok,
  Dict, lookup, insert, text_eq, nat_eq, text_beq,
}
use kube_forwarding_proxy.Vip.Allocator.{allocator_of, Outcome, allocate, lookup_vip}
use kube_forwarding_proxy.Vip.Address.{ip_to_uint32, uint32_to_ip}
use kube_forwarding_proxy.K8s.Resolver.{Resolver, ResolvedService, ServicePort, port_of, resolve}
use kube_forwarding_proxy.K8s.ForwardManager.{key_eq, key_beq, context_or_current}
use kube_forwarding_proxy.Proxy.Cluster.{dot, parse_cluster_host}
use kube_forwarding_proxy.Proxy.Cluster.RoundTrip.{fqdn, parse_cluster_host-fqdn}
use kube_forwarding_proxy.Dns.Server.{
  service_key, resolve_host, ContextVip, trim_dot, lookup_txt, lookup_srv,
}
use kube_forwarding_proxy.Dns.Server.Lookups.{seen, answer_of, lookup_srv-lookup_txt}
use kube_forwarding_proxy.Dns.Resolution.{DnsState, resolve_a, resolve_for_context}
use kube_forwarding_proxy.Dns.Resolution.Answers.{IsAnswered, resolve_a-IsAnswered}
use kube_forwarding_proxy.Examples.Allocation.{
  web_ip, spell, net, interface, network, iface, fresh-IsValid,
}
use kube_forwarding_proxy.Dns.Resolution.Unlistened.{resolve_for_context_unlistened}
use kube_forwarding_proxy.Examples.Hosts.{domain, host, host-IsPlain, last_label-IsFree}
use kube_forwarding_proxy.Examples.Services.{empty, answered, endpoint, http}
use kube_forwarding_proxy.Examples.Forwards.{manager}

abbrev pub query : Text
query = fqdn host domain ++ dot ∷ []

lookup_srv-lookup_txt_example :
    seen (lookup_srv domain query (allocator_of network) (λ c. 100) empty)
    ≡ answer_of (lookup_txt domain query (allocator_of network) (λ c. 100) empty)
lookup_srv-lookup_txt_example =
    lookup_srv-lookup_txt domain query (allocator_of network) (λ c. 100) empty

abbrev pub state : DnsState net interface
state = record {
  resolver = empty;
  allocator = allocator_of network;
  iface = iface;
  manager = manager;
}

-- Each port's listener is its number.
abbrev pub listens : Text → ℕ → Option ℕ
listens vip port = some port

query_is_host : parse_cluster_host (trim_dot query) domain ≡ some host
unfolding trim_dot
query_is_host =
    ap (λ t. parse_cluster_host t domain) (trim_suffix-append (fqdn host domain) (dot ∷ []))
    ∙ parse_cluster_host-fqdn host domain (b'a' ∷ []) (b'b' ∷ []) refl last_label-IsFree
        host-IsPlain (λ e. cc)

resolve_a-IsAnswered_example :
    (st : DnsState net interface) × (vips : List ContextVip) × (resolve_a net interface domain query
        (λ c. 100)
        listens
        state
      ≡ some (st, vips))
    × IsAnswered net interface host (allocator_of network) st vips
resolve_a-IsAnswered_example =
    resolve_a-IsAnswered net interface domain query host (λ c. 100) listens state fresh-IsValid
      query_is_host

abbrev dev : Text
dev = b'd' ∷ []

abbrev first_allocation : Outcome (Dict ℕ (Unit {0}))
first_allocation = record {
  allocator = record {
    base = 167772161;
    max = 167772167;
    next = 167772163;
    assigned = (service_key dev host, web_ip) ∷ [];
    reverse = (spell web_ip, service_key dev host) ∷ [];
    skipped = (167772161, tt) ∷ [];
  };
  iface = (167772161, tt) ∷ (167772162, tt) ∷ [];
  result = ok web_ip;
}

allocates_host :
    allocate net interface (service_key dev host) (allocator_of network) iface
    ≡ some first_allocation
unfolding allocate allocator_of ip_to_uint32 uint32_to_ip lookup insert
allocates_host = refl

host_is_new : lookup_vip (service_key dev host) (allocator_of network) ≡ none
unfolding lookup_vip allocator_of lookup
host_is_new = refl

abbrev host_service : ResolvedService
host_service = record answered { endpoints = record endpoint { namespace = host.namespace } ∷ [] }

abbrev behind : Resolver
behind = (resolve_host empty dev host 100).0

host_resolves : resolve_host empty dev host 100 ≡ (behind, ok host_service)
unfolding resolve_host resolve lookup
host_resolves = refl

nothing_listens :
    lookup (record { context_name = dev; vip_addr = spell web_ip; svc_port = 80 }) manager.entries
    ≡ none
unfolding lookup key_beq text_beq
nothing_listens = refl

resolve_for_context_unlistened_example :
    (first : DnsState net interface) × (resolve_for_context net interface dev host 100
        (λ vip port. none)
        state
      ≡ some (first, none))
    × (second : DnsState net interface) × (ports : List ServicePort) × (resolve_for_context net
          interface dev host 101
          (λ vip port. none)
          first
        ≡ some (second, some (record { context_name = dev; ip = web_ip; ports = ports })))
unfolding context_or_current port_of
resolve_for_context_unlistened_example =
    resolve_for_context_unlistened net interface dev host 100 101 (λ vip port. none)
      (λ vip port. none) state behind host_service (port_of http) [] first_allocation web_ip
      fresh-IsValid host_is_new host_resolves refl allocates_host refl nothing_listens refl
