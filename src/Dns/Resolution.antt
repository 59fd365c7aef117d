-- ===== src/Dns/Resolution.antt =====
-- internal/dns/server.go: A queries. They allocate addresses and start listeners, so the state is that
-- of the resolver, the allocator, the interface and the forward manager (which is not nil, as the
-- server sets it up). `listen` is what net.Listen answers for an address and a port.
pub mod Answers
pub mod Unlistened
use kube_forwarding_proxy.Base.{
  ℕ, Bool, true, false, Option, none, some, List, [], ◌∷◌, Text, Result, ok, err,
}
use kube_forwarding_proxy.Vip.Address.{Ip, NetText}
use kube_forwarding_proxy.Vip.Interface.{InterfaceAddressManager}
use kube_forwarding_proxy.Vip.Allocator.{Allocator, AllocatorError, Outcome, allocate, lookup_vip}
use kube_forwarding_proxy.Proxy.Cluster.{ClusterHost, parse_cluster_host}
use kube_forwarding_proxy.K8s.Resolver.{
  ServicePort, ResolvedService, ResolveError, Resolver, resolver_context_names, resolve_context,
}
use kube_forwarding_proxy.K8s.ForwardManager.{
  ForwardKey, Manager, start_forward, touch_vip, context_or_current,
}
use kube_forwarding_proxy.Dns.Server.{
  ContextVip, service_key, contexts_for, trim_dot, resolve_host, ports_of, add_vip,
}

-- The loop over a service's ports: it ends at the first listener that cannot be started.
unfoldable pub start_rest : (Manager → Bool × Manager) → Bool × Manager → Bool × Manager
start_rest rest (true, m) = rest m
start_rest rest (false, m) = (false, m)

unfoldable pub start_ports :
    Text → Text → (Text → ℕ → Option ℕ) → List ServicePort → Manager → Bool × Manager
unfolding start_rest start_forward
start_ports context_name vip listen [] m = (true, m)
start_ports context_name vip listen (p ∷ ps) m =
    start_rest (start_ports context_name vip listen ps) (
      start_forward (record { context_name = context_name; vip_addr = vip; svc_port = p.port })
        (listen vip p.port) m)

module _ (net : NetText) (m : InterfaceAddressManager) where
  open net use {ip_string}
  open m use {Iface}

  pub record DnsState : Type 0 where
    pub resolver : Resolver
    pub allocator : Allocator
    pub iface : Iface
    pub manager : Manager

  -- Behind the loop over the ports.
  unfoldable pub answer_started :
      Text → Ip → List ServicePort → DnsState → Bool × Manager → DnsState × Option ContextVip
  answer_started context_name ip ports st (true, manager) = (
    record st { manager = manager },
    some (record { context_name = context_name; ip = ip; ports = ports }),
  )
  answer_started context_name ip ports st (false, manager) = (record st { manager = manager }, none)

  -- Behind Allocate.
  unfoldable pub answer_allocated :
      Text
      → List ServicePort
      → (Text → ℕ → Option ℕ)
      → DnsState
      → Result AllocatorError Ip
      → DnsState × Option ContextVip
  unfolding answer_started start_ports resolve_context context_or_current
  answer_allocated context_name ports listen st (err e) = (st, none)
  answer_allocated context_name ports listen st (ok ip) =
      let current = context_or_current context_name (resolve_context st.resolver []) in
      answer_started context_name ip ports st
        (start_ports current (ip_string ip) listen ports st.manager)

  unfoldable pub answer_outcome :
      Text
      → List ServicePort
      → (Text → ℕ → Option ℕ)
      → DnsState
      → Option (Outcome Iface)
      → Option (DnsState × Option ContextVip)
  unfolding answer_allocated
  answer_outcome context_name ports listen st none = none
  answer_outcome context_name ports listen st (some o) = some (
      answer_allocated context_name ports listen
        (record st { allocator = o.allocator; iface = o.iface }) o.result)

  -- With the resolver's answer for a service that has no address.
  unfoldable pub answer_resolved :
      Text
      → ClusterHost
      → (Text → ℕ → Option ℕ)
      → DnsState
      → Resolver × Result ResolveError ResolvedService
      → Option (DnsState × Option ContextVip)
  unfolding answer_outcome
  answer_resolved context_name h listen st (r, err e) = some (record st { resolver = r }, none)
  answer_resolved context_name h listen st (r, ok resolved) =
      answer_outcome context_name resolved.ports listen (record st { resolver = r })
        (allocate net m (service_key context_name h) st.allocator st.iface)

  -- For a service that has the address already: a touch, and the ports of a new Resolve.
  unfoldable pub answer_known :
      Text
      → Ip
      → DnsState
      → Resolver × Result ResolveError ResolvedService
      → DnsState × Option ContextVip
  unfolding touch_vip ports_of
  answer_known context_name ip st (r, answer) = (
    record st { resolver = r; manager = touch_vip (ip_string ip) st.manager },
    some (record { context_name = context_name; ip = ip; ports = ports_of answer }),
  )

  -- `none` is a run of Allocate out of fuel.
  unfoldable pub resolve_for_context :
      Text
      → ClusterHost
      → ℕ
      → (Text → ℕ → Option ℕ)
      → DnsState
      → Option (DnsState × Option ContextVip)
  unfolding answer_known answer_resolved resolve_host service_key
  resolve_for_context context_name h now listen st =
      let resolved = resolve_host st.resolver context_name h now in
      elim (lookup_vip (service_key context_name h) st.allocator) [
        | some ip ↦ some (answer_known context_name ip st resolved)
        | none ↦ answer_resolved context_name h listen st resolved
      ]

  -- A context's answer joins those of the contexts behind it.
  unfoldable pub join_answers :
      Option ContextVip → Option (DnsState × List ContextVip) → Option (DnsState × List ContextVip)
  unfolding add_vip
  join_answers v none = none
  join_answers v (some (st, vips)) = some (st, add_vip v vips)

  unfoldable pub then_resolve :
      Option (DnsState × Option ContextVip)
      → (DnsState → Option (DnsState × List ContextVip))
      → Option (DnsState × List ContextVip)
  unfolding join_answers
  then_resolve none rest = none
  then_resolve (some (st, v)) rest = join_answers v (rest st)

  unfoldable pub resolve_in_contexts :
      List Text
      → ClusterHost
      → (Text → ℕ)
      → (Text → ℕ → Option ℕ)
      → DnsState
      → Option (DnsState × List ContextVip)
  unfolding resolve_for_context then_resolve
  resolve_in_contexts [] h clock listen st = some (st, [])
  resolve_in_contexts (name ∷ names) h clock listen st =
      then_resolve (resolve_for_context name h (clock name) listen st)
        (resolve_in_contexts names h clock listen)

  unfoldable pub resolve_a :
      Text
      → Text
      → (Text → ℕ)
      → (Text → ℕ → Option ℕ)
      → DnsState
      → Option (DnsState × List ContextVip)
  unfolding resolve_in_contexts contexts_for trim_dot
  resolve_a cluster_domain name clock listen st =
      elim (parse_cluster_host (trim_dot name) cluster_domain) [
        | none ↦ some (st, [])
        | some h ↦
            resolve_in_contexts (contexts_for h.context_name (resolver_context_names st.resolver)) h
              clock listen st
      ]
