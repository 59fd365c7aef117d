-- ===== src/Dns/Server.antt =====
-- internal/dns/server.go: the names and the lookups that allocate nothing. A lookup asks the resolver
-- for one context after the other; `clock` is the moment at which it asks for a context.
pub mod Names
pub mod Lookups
use kube_forwarding_proxy.Base.{
  ℕ, ◌-◌, Bool, true, false, Option, none, some, List, [], ◌∷◌, ◌++◌, Text, take, length,
  trim_suffix, Result, ok, err,
}
use kube_forwarding_proxy.Vip.Address.{Ip}
use kube_forwarding_proxy.Vip.Allocator.{Allocator, lookup_vip}
use kube_forwarding_proxy.Proxy.Cluster.{dot, ClusterHost, parse_cluster_host}
use kube_forwarding_proxy.K8s.Resolver.{
  ServicePort, ResolvedService, ResolveError, Resolver, slash, resolver_context_names, resolve,
}

-- strings.TrimSuffix(name, ".").
unfoldable pub trim_dot : Text → Text
trim_dot name = trim_suffix name (dot ∷ [])

-- The base without its context, which is the last label.
unfoldable pub strip_context : Text → Text → Text
strip_context base [] = base
strip_context base (c ∷ ctx) = take (length base - length (c ∷ ctx) - 1) base

unfoldable pub strip_parsed : Text → Option ClusterHost → Text
unfolding strip_context
strip_parsed base none = base
strip_parsed base (some h) = strip_context base h.context_name

unfoldable pub context_fqdn : Text → Text → Text → Text
unfolding trim_dot strip_parsed
context_fqdn cluster_domain qname context_name =
    let base = trim_dot qname in
    strip_parsed base (parse_cluster_host base cluster_domain) ++ dot ∷ (context_name ++ dot ∷ [])

-- contextVIP.
pub record ContextVip : Type 0 where
  pub context_name : Text
  pub ip : Ip
  pub ports : List ServicePort

-- "/" + podName, where a pod is named.
unfoldable pub pod_part : Text → Text
pod_part [] = []
pod_part (c ∷ pod) = slash ∷ c ∷ pod

-- The allocator's key of a service, or of one of its pods, in a context.
unfoldable pub service_key : Text → ClusterHost → Text
unfolding pod_part
service_key context_name h =
    context_name ++ slash ∷ (h.namespace ++ slash ∷ (h.svc_name ++ pod_part h.pod_name))

-- The contexts of a lookup: the one that the host names, else all.
unfoldable pub contexts_for : Text → List Text → List Text
contexts_for [] names = names
contexts_for (c ∷ ctx) names = (c ∷ ctx) ∷ []

unfoldable pub resolve_host :
    Resolver → Text → ClusterHost → ℕ → Resolver × Result ResolveError ResolvedService
resolve_host r context_name h now = resolve r context_name h.namespace h.svc_name h.pod_name now

-- The ports of an answer; none of an error.
unfoldable pub ports_of : Result ResolveError ResolvedService → List ServicePort
ports_of (err e) = []
ports_of (ok resolved) = resolved.ports

unfoldable pub add_found : Text → Option Ip → List ContextVip → List ContextVip
add_found context_name none rest = rest
add_found context_name (some ip) rest =
    record { context_name = context_name; ip = ip; ports = [] } ∷ rest

-- The first pass of lookupTXT.
unfoldable pub allocated_vips : List Text → ClusterHost → Allocator → List ContextVip
unfolding add_found service_key
allocated_vips [] h a = []
allocated_vips (name ∷ names) h a =
    add_found name (lookup_vip (service_key name h) a) (allocated_vips names h a)

-- What is left to do after a Resolve: nothing if it succeeded.
unfoldable pub found_or :
    Resolver × Result ResolveError ResolvedService → (Resolver → Resolver × Bool) → Resolver × Bool
found_or (r, ok resolved) rest = (r, true)
found_or (r, err e) rest = rest r

-- The second pass: whether some context resolves the host. It stops at the first that does.
unfoldable pub exists_in : List Text → ClusterHost → (Text → ℕ) → Resolver → Resolver × Bool
unfolding found_or resolve_host
exists_in [] h clock r = (r, false)
exists_in (name ∷ names) h clock r =
    found_or (resolve_host r name h (clock name)) (exists_in names h clock)

-- The VIPs that were found, or the second pass.
unfoldable pub vips_or_exists :
    List ContextVip
    → List Text
    → ClusterHost
    → (Text → ℕ)
    → Resolver
    → Resolver × List ContextVip × Bool
unfolding exists_in
vips_or_exists (v ∷ vs) names h clock r = (r, v ∷ vs, true)
vips_or_exists [] names h clock r = let (r', found) = exists_in names h clock r in (r', [], found)

unfoldable pub lookup_txt_in :
    List Text → ClusterHost → Allocator → (Text → ℕ) → Resolver → Resolver × List ContextVip × Bool
unfolding allocated_vips vips_or_exists
lookup_txt_in names h a clock r = vips_or_exists (allocated_vips names h a) names h clock r

unfoldable pub lookup_txt :
    Text → Text → Allocator → (Text → ℕ) → Resolver → Resolver × List ContextVip × Bool
unfolding lookup_txt_in contexts_for trim_dot
lookup_txt cluster_domain name a clock r =
    elim (parse_cluster_host (trim_dot name) cluster_domain) [
      | none ↦ (r, [], false)
      | some h ↦ lookup_txt_in (contexts_for h.context_name (resolver_context_names r)) h a clock r
    ]

-- One context of lookupSRV's first pass: a Resolve for the ports of a VIP that is allocated.
unfoldable pub port_vip :
    Text → Option Ip → ClusterHost → ℕ → Resolver → Resolver × Option ContextVip
unfolding resolve_host ports_of
port_vip name none h now r = (r, none)
port_vip name (some ip) h now r =
    let (r', answer) = resolve_host r name h now in
    (r', some (record { context_name = name; ip = ip; ports = ports_of answer }))

unfoldable pub add_vip : Option ContextVip → List ContextVip → List ContextVip
add_vip none vips = vips
add_vip (some v) vips = v ∷ vips

unfoldable pub vips_with_ports :
    List Text → ClusterHost → Allocator → (Text → ℕ) → Resolver → Resolver × List ContextVip
unfolding port_vip add_vip service_key
vips_with_ports [] h a clock r = (r, [])
vips_with_ports (name ∷ names) h a clock r =
    let (r', v) = port_vip name (lookup_vip (service_key name h) a) h (clock name) r in
    let (r'', vips) = vips_with_ports names h a clock r' in (r'', add_vip v vips)

unfoldable pub lookup_srv_in :
    List Text → ClusterHost → Allocator → (Text → ℕ) → Resolver → Resolver × List ContextVip × Bool
unfolding vips_with_ports vips_or_exists
lookup_srv_in names h a clock r =
    let (r', vips) = vips_with_ports names h a clock r in vips_or_exists vips names h clock r'

unfoldable pub lookup_srv :
    Text → Text → Allocator → (Text → ℕ) → Resolver → Resolver × List ContextVip × Bool
unfolding lookup_srv_in contexts_for trim_dot
lookup_srv cluster_domain name a clock r =
    elim (parse_cluster_host (trim_dot name) cluster_domain) [
      | none ↦ (r, [], false)
      | some h ↦ lookup_srv_in (contexts_for h.context_name (resolver_context_names r)) h a clock r
    ]
