-- ===== src/Examples/Hosts.antt =====
-- internal/proxy/cluster.go at a concrete host name, `web.prod.a.b.dev` under the domain `a.b`.
use kube_forwarding_proxy.Base.{◌≡◌, refl, Bool, false, some, [], ◌∷◌, Text, has_byte}
use kube_forwarding_proxy.Proxy.Cluster.{dot, ClusterHost, parse_cluster_host}
use kube_forwarding_proxy.Proxy.Cluster.Soundness.{IsNamed, parse_cluster_host-IsNamed}
use kube_forwarding_proxy.Proxy.Cluster.RoundTrip.{IsPlain, fqdn, parse_cluster_host-fqdn}

abbrev pub domain : Text
domain = b'a' ∷ dot ∷ b'b' ∷ []

abbrev pub host : ClusterHost
host = record {
  pod_name = [];
  svc_name = b'w' ∷ b'e' ∷ b'b' ∷ [];
  namespace = b'p' ∷ b'r' ∷ b'o' ∷ b'd' ∷ [];
  context_name = b'd' ∷ b'e' ∷ b'v' ∷ [];
}

pub host-IsPlain : IsPlain host
unfolding has_byte
host-IsPlain = record { pod = refl; svc = refl; ns = refl; ctx = refl }

pub last_label-IsFree : has_byte dot (b'b' ∷ []) ≡ false
unfolding has_byte
last_label-IsFree = refl

parse_cluster_host-fqdn_example : parse_cluster_host (fqdn host domain) domain ≡ some host
parse_cluster_host-fqdn_example =
    parse_cluster_host-fqdn host domain (b'a' ∷ []) (b'b' ∷ []) refl last_label-IsFree host-IsPlain
      (λ e. cc)

parse_cluster_host-IsNamed_example :
    (with_pod : Bool) × IsNamed (fqdn host domain) domain host with_pod
parse_cluster_host-IsNamed_example =
    parse_cluster_host-IsNamed (fqdn host domain) domain host parse_cluster_host-fqdn_example
