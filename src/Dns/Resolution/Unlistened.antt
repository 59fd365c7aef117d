-- ===== src/Dns/Resolution/Unlistened.antt =====
-- internal/dns/server.go: what is left behind where a listener cannot be started.
use kube_forwarding_proxy.Base.{
  ℕ, ◌≡◌, refl, ap, ◌∙◌, false, Option, none, some, List, [], ◌∷◌, Text, lookup, ok, beq_self,
  text_eq,
}
use kube_forwarding_proxy.Vip.Address.{Ip, NetText}
use kube_forwarding_proxy.Vip.Interface.{InterfaceAddressManager}
use kube_forwarding_proxy.Vip.Allocator.{Outcome, allocate, lookup_vip}
use kube_forwarding_proxy.Vip.Allocator.Invariant.{IsValid}
use kube_forwarding_proxy.Vip.Allocator.Allocation.{allocate_ok}
use kube_forwarding_proxy.Proxy.Cluster.{ClusterHost}
use kube_forwarding_proxy.K8s.Resolver.{ServicePort, ResolvedService, Resolver, resolve_context}
use kube_forwarding_proxy.K8s.ForwardManager.{
  key_eq, touch_vip, Manager, context_or_current, start_check, start_listened, start_forward,
}
use kube_forwarding_proxy.Dns.Server.{service_key, resolve_host, ports_of}
use kube_forwarding_proxy.Dns.Resolution.{
  DnsState, start_rest, start_ports, answer_started, answer_allocated, answer_outcome,
  answer_resolved, answer_known, resolve_for_context,
}

start_ports_refused :
    (name vip : Text) (listen : Text → ℕ → Option ℕ) (p : ServicePort) (ps : List ServicePort)
    (m : Manager)
    → lookup (record { context_name = name; vip_addr = vip; svc_port = p.port }) m.entries ≡ none
    → listen vip p.port ≡ none
    → start_ports name vip listen (p ∷ ps) m ≡ (false, m)
unfolding start_ports start_rest start_forward start_check
start_ports_refused name vip listen p ps m new refused =
    rw (new, start_check, refused, start_listened) refl

module _ (net : NetText) (m : InterfaceAddressManager) where
  open net use {ip_string}
  open m use {Iface}

  answers_known :
      (name : Text) (h : ClusterHost) (now : ℕ) (listen : Text → ℕ → Option ℕ) (st : DnsState net m)
      (ip : Ip)
      → lookup_vip (service_key name h) st.allocator ≡ some ip
      → (st' : DnsState net m) × (ports : List ServicePort) × (resolve_for_context net m name h now
            listen st
          ≡ some (st', some (record { context_name = name; ip = ip; ports = ports })))
  unfolding resolve_for_context answer_known
  answers_known name h now listen st ip e =
      let r = resolve_host st.resolver name h now in
      (
        record st { resolver = r.0; manager = touch_vip (ip_string ip) st.manager },
        ports_of r.1,
        rw (e, resolve_for_context) refl,
      )

  refused_allocated :
      (name : Text) (listen : Text → ℕ → Option ℕ) (st : DnsState net m) (ports : List ServicePort)
      (p : ServicePort) (ps : List ServicePort) (ip : Ip)
      → ports ≡ p ∷ ps
      → lookup
          (record {
            context_name = context_or_current name (resolve_context st.resolver []);
            vip_addr = ip_string ip;
            svc_port = p.port;
          })
          st.manager.entries
        ≡ none
      → listen (ip_string ip) p.port ≡ none
      → answer_allocated net m name ports listen st (ok ip) ≡ (st, none)
  unfolding answer_allocated answer_started
  refused_allocated name listen st ports p ps ip e new refused =
      ap (λ l. answer_allocated net m name l listen st (ok ip)) e
      ∙ ap (answer_started net m name ip (p ∷ ps) st) (
          start_ports_refused (context_or_current name (resolve_context st.resolver []))
            (ip_string ip) listen p ps st.manager new refused)

  -- For a service with no address, which resolves and is given one by a valid allocator, where the
  -- listener of its first port cannot be started: resolveForContext gives no answer, but the
  -- address stays allocated. The next call for it answers with the address, whether or not
  -- anything can listen on it by then.
  pub resolve_for_context_unlistened :
      (name : Text) (h : ClusterHost) (now later : ℕ) (listen listen' : Text → ℕ → Option ℕ)
      (st : DnsState net m) (r : Resolver) (resolved : ResolvedService) (p : ServicePort)
      (ps : List ServicePort) (o : Outcome Iface) (ip : Ip)
      → IsValid net st.allocator
      → lookup_vip (service_key name h) st.allocator ≡ none
      → resolve_host st.resolver name h now ≡ (r, ok resolved)
      → resolved.ports ≡ p ∷ ps
      → allocate net m (service_key name h) st.allocator st.iface ≡ some o
      → o.result ≡ ok ip
      → lookup
          (record {
            context_name = context_or_current name (resolve_context r []);
            vip_addr = ip_string ip;
            svc_port = p.port;
          })
          st.manager.entries
        ≡ none
      → listen (ip_string ip) p.port ≡ none
      → (first : DnsState net m) × (resolve_for_context net m name h now listen st
          ≡ some (first, none))
        × (second : DnsState net m) × (ports : List ServicePort) × (resolve_for_context net m name h
              later listen' first
            ≡ some (second, some (record { context_name = name; ip = ip; ports = ports })))
  unfolding resolve_for_context answer_resolved answer_outcome
  resolve_for_context_unlistened name h now later listen listen' st r resolved p ps o ip v new e
        ports call result unheard refused =
      let key = service_key name h in
      let first = record st { resolver = r; allocator = o.allocator; iface = o.iface } in
      let asked : resolve_for_context net m name h now listen st
          ≡ answer_resolved net m name h listen st (r, ok resolved) =
        rw (new, resolve_for_context) (ap (answer_resolved net m name h listen st) e) in
      let allocated : answer_resolved net m name h listen st (r, ok resolved)
          ≡ some (answer_allocated net m name resolved.ports listen first o.result) =
        ap (answer_outcome net m name resolved.ports listen (record st { resolver = r })) call in
      let nothing : answer_allocated net m name resolved.ports listen first o.result
          ≡ (first, none) =
        ap (answer_allocated net m name resolved.ports listen first) result
        ∙ refused_allocated name listen first resolved.ports p ps ip ports unheard refused in
      let held : lookup_vip key o.allocator ≡ some ip =
        rw (beq_self key) at
          ((allocate_ok net m key st.allocator st.iface o ip key v new call result).0.found) in
      let (second, ports', again) = answers_known name h later listen' first ip held in
      (first, asked ∙ (allocated ∙ ap some nothing), second, ports', again)
