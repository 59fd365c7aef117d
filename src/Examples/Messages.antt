-- ===== src/Examples/Messages.antt =====
-- internal/dns/server.go: messages at concrete questions, and internal/proxy/socks5.go at a concrete
-- address.
use mathlib.Core.List.{Memᴰ}
use kube_forwarding_proxy.Base.{
  ◌≡◌, ◌↔◌, ◌≢◌, ◌⊎◌, refl, inl, true, none, some, List, [], ◌∷◌, ◌++◌, Text, map, All, has_byte,
  text_beq, arith, join, has_suffix, index, has_prefix, contains,
}
use kube_forwarding_proxy.Vip.Address.{ip4, ip6}
use kube_forwarding_proxy.Vip.Allocator.{allocator_of}
use kube_forwarding_proxy.Proxy.Cluster.{dot, is_cluster_host}
use kube_forwarding_proxy.Proxy.Cluster.RoundTrip.{fqdn}
use kube_forwarding_proxy.K8s.Resolver.{ServicePort}
use kube_forwarding_proxy.K8s.SpdyPool.{empty_pool}
use kube_forwarding_proxy.K8s.PortForward.{Moment, Attempt, dial_port_forward}
use kube_forwarding_proxy.Dns.Server.{ContextVip}
use kube_forwarding_proxy.Dns.Resolution.{DnsState}
use kube_forwarding_proxy.Dns.Messages.{
  rd_a, rd_aaaa, Question, type_a, type_aaaa, type_srv, Msg, srv_answers,
}
use kube_forwarding_proxy.Dns.Messages.Upstream.{Upstream, forward_to_upstream}
use kube_forwarding_proxy.Dns.Messages.Upstream.Addresses.{
  IsIp4, IsIp6, IsAskedFor, forward_to_upstream-addresses,
}
use kube_forwarding_proxy.Dns.Messages.Targets.{IsLabel, AreSrvOf, srv_answers-parsed}
use kube_forwarding_proxy.Dns.Messages.Routing.{IsForCluster, IsUpstream, handle_default-routes}
use kube_forwarding_proxy.Dns.Messages.Cluster.{Asked, handle_cluster, handle_default}
use kube_forwarding_proxy.Dns.Messages.Cluster.Replies.{IsReply, handle_cluster-IsReply}
use kube_forwarding_proxy.Proxy.Socks5.{Net, Tunnels, dial, dial_direct, tunnelled}
use kube_forwarding_proxy.Proxy.Socks5.Routes.{dial-fqdn, dial_dotted}
use kube_forwarding_proxy.Examples.Allocation.{net, interface, network, fresh-IsValid}
use kube_forwarding_proxy.Examples.Hosts.{domain, host, host-IsPlain, last_label-IsFree}
use kube_forwarding_proxy.Examples.Services.{empty}
use kube_forwarding_proxy.Examples.Queries.{state, listens, query}

abbrev upstream : Upstream
upstream = record {
  lookup_ip_addr = λ n. ip6 (1 ∷ []) ∷ ip4 192 0 2 1 ∷ [];
  lookup_cname = λ n. none;
  lookup_mx = λ n. [];
  lookup_txt = λ n. none;
  lookup_ns = λ n. [];
  lookup_addr = λ n. [];
}

abbrev asked : List Asked
asked =
    record {
      question = record { name = query; qtype = type_a };
      clock = λ c. 100;
      upstream = upstream;
    }
    ∷ record {
      question = record { name = query; qtype = type_srv };
      clock = λ c. 101;
      upstream = upstream;
    }
    ∷ []

handle_cluster-IsReply_example :
    (st : DnsState net interface) × (msg : Msg) × (handle_cluster net interface domain listens asked
        state
      ≡ some (st, msg))
    × IsReply net interface domain listens asked (allocator_of network) st msg
handle_cluster-IsReply_example =
    handle_cluster-IsReply net interface domain listens asked state fresh-IsValid

handle_default-routes_example :
    (IsForCluster domain asked
      × (handle_default net interface domain listens asked state
          ≡ handle_cluster net interface domain listens asked state))
    ⊎ (All (IsUpstream domain) asked
        × (handle_default net interface domain listens asked state
            ≡ some (state, forward_to_upstream (map (λ q. (q.question, q.upstream)) asked))))
handle_default-routes_example = handle_default-routes net interface domain listens asked state

abbrev looked_up : List (Question × Upstream)
looked_up =
    (record { name = query; qtype = type_a }, upstream)
    ∷ (record { name = query; qtype = type_aaaa }, record upstream { lookup_ip_addr = λ n. [] })
    ∷ []

forward_to_upstream-addresses_example :
    let answer = (forward_to_upstream looked_up).answer in
    (Memᴰ (record { name = query; rrtype = type_a; ttl = 60; rdata = rd_a (ip4 192 0 2 1) }) answer
      ↔ (IsIp4 (ip4 192 0 2 1) × IsAskedFor looked_up query type_a (ip4 192 0 2 1)))
    × (Memᴰ
          (record { name = query; rrtype = type_aaaa; ttl = 60; rdata = rd_aaaa (ip4 192 0 2 1) })
          answer
        ↔ (IsIp6 (ip4 192 0 2 1) × IsAskedFor looked_up query type_aaaa (ip4 192 0 2 1)))
forward_to_upstream-addresses_example =
    forward_to_upstream-addresses looked_up query (ip4 192 0 2 1)

abbrev port : ServicePort
port = record { name = []; port = 80; target_port = 8080; protocol = [] }

abbrev web_answer : ContextVip
web_answer = record { context_name = b'q' ∷ []; ip = ip4 10 0 0 2; ports = port ∷ [] }

q-IsLabel : IsLabel (b'b' ∷ []) (b'q' ∷ [])
unfolding has_byte
q-IsLabel = record { given = λ e. cc; free = refl; differs = λ e. absurd (ground arith) }

dev-differs : host.context_name ≢ b'b' ∷ []
dev-differs = λ e. cc

srv_answers-parsed_example :
    AreSrvOf host domain
      (b'a' ∷ [])
      (b'b' ∷ [])
      refl
      last_label-IsFree
      host-IsPlain
      dev-differs
      (web_answer ∷ [])
      (srv_answers domain (fqdn host domain ++ dot ∷ []) (web_answer ∷ []))
srv_answers-parsed_example =
    srv_answers-parsed host domain (b'a' ∷ []) (b'b' ∷ []) refl last_label-IsFree host-IsPlain
      dev-differs (web_answer ∷ []) (q-IsLabel, tt)

-- The port's text is one byte, behind the host.
abbrev network_of : Text → Net
network_of name = record {
  split_host_port = λ addr. some (name, b'8' ∷ []);
  scan_port = λ t. some 80;
  dial_timeout = λ addr. some 3;
  lookup_host = λ n. none;
  parse_ip = λ t. none;
}

abbrev socks_tunnels : Tunnels
socks_tunnels = record {
  client_of = λ name. some (record { host_parses = true; has_round_tripper = true });
  current = b'd' ∷ b'e' ∷ b'v' ∷ [];
  resolver = empty;
  pool = empty_pool;
}

abbrev attempt : Attempt
attempt = record { alive = true; dial = some 7; create = λ h. some 1 }

abbrev moment : Moment
moment = record { now = 100; index = 0; first = attempt; second = attempt }

accepts_host : is_cluster_host (fqdn host domain) domain ≡ true
unfolding is_cluster_host fqdn join has_suffix index has_prefix contains text_beq
accepts_host = refl

dial-fqdn_example :
    dial (network_of (fqdn host domain)) domain (fqdn host domain) moment socks_tunnels
    ≡ tunnelled socks_tunnels (
        dial_port_forward socks_tunnels.client_of socks_tunnels.current host.context_name
          host.namespace host.svc_name host.pod_name 80 moment empty empty_pool)
dial-fqdn_example =
    dial-fqdn domain (b'a' ∷ []) (b'b' ∷ []) refl last_label-IsFree (λ e. cc)
      (network_of (fqdn host domain)) host (fqdn host domain) (fqdn host domain) (b'8' ∷ []) 80
      moment socks_tunnels host-IsPlain (λ e. cc) (inl refl) refl accepts_host refl

dial_dotted_example :
    dial (network_of query) domain query moment socks_tunnels
    ≡ (socks_tunnels, dial_direct (some 3))
dial_dotted_example =
    dial_dotted domain (b'a' ∷ []) (b'b' ∷ []) refl last_label-IsFree (λ e. cc) (network_of query)
      host query (b'8' ∷ []) moment socks_tunnels host-IsPlain (λ e. cc) (λ e. cc) refl
