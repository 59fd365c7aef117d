-- ===== src/Dns/Messages/Upstream.antt =====
-- internal/dns/server.go: forwardToUpstream. The lookups of net.DefaultResolver are parameters, with
-- `none` for an error; LookupIPAddr and its like may answer addresses beside an error, so theirs is
-- the list alone. Each question comes with the resolver as it answers at that moment: two questions
-- for one name may be answered differently.
pub mod Addresses
use kube_forwarding_proxy.Base.{ℕ, true, Option, none, some, List, [], ◌∷◌, ◌++◌, map, Text}
use kube_forwarding_proxy.Vip.Address.{Ip, ip4, ip6}
use kube_forwarding_proxy.Dns.Server.{trim_dot}
use kube_forwarding_proxy.Dns.Messages.{
  QType, type_a, type_aaaa, type_cname, type_mx, type_txt, type_srv, type_ns, type_ptr, other_type,
  Question, RData, rd_a, rd_aaaa, rd_cname, rd_mx, rd_txt, rd_ns, rd_ptr, Rr, Msg, reply,
}

pub record Upstream : Type 0 where
  pub lookup_ip_addr : Text → List Ip
  pub lookup_cname : Text → Option Text
  pub lookup_mx : Text → List (ℕ × Text)
  pub lookup_txt : Text → Option (List Text)
  pub lookup_ns : Text → List Text
  pub lookup_addr : Text → List Text

-- The addresses with a four-byte form, and the others.
unfoldable pub only_ip4 : List Ip → List Ip
only_ip4 [] = []
only_ip4 (ip4 a b c d ∷ ips) = ip4 a b c d ∷ only_ip4 ips
only_ip4 (ip6 t ∷ ips) = only_ip4 ips

unfoldable pub only_ip6 : List Ip → List Ip
only_ip6 [] = []
only_ip6 (ip4 a b c d ∷ ips) = only_ip6 ips
only_ip6 (ip6 t ∷ ips) = ip6 t ∷ only_ip6 ips

unfoldable pub optional {ℓ κ} : {A : Type ℓ} {B : Type κ} → (A → B) → Option A → List B
optional f none = []
optional f (some a) = f a ∷ []

-- What is looked up for a question: the data of its answers.
unfoldable pub upstream_data : Upstream → QType → Text → List RData
unfolding only_ip4 only_ip6 optional
upstream_data up type_a name = map rd_a (only_ip4 (up.lookup_ip_addr name))
upstream_data up type_aaaa name = map rd_aaaa (only_ip6 (up.lookup_ip_addr name))
upstream_data up type_cname name = optional rd_cname (up.lookup_cname name)
upstream_data up type_mx name = map (λ mx. rd_mx mx.0 mx.1) (up.lookup_mx name)
upstream_data up type_txt name = optional rd_txt (up.lookup_txt name)
upstream_data up type_ns name = map rd_ns (up.lookup_ns name)
upstream_data up type_ptr name = map rd_ptr (up.lookup_addr name)
upstream_data up type_srv name = []
upstream_data up (other_type n) name = []

unfoldable pub upstream_answers : List (Question × Upstream) → List Rr
unfolding upstream_data trim_dot
upstream_answers [] = []
upstream_answers ((q, up) ∷ qs) =
    map (λ d. record { name = q.name; rrtype = q.qtype; ttl = 60; rdata = d })
      (upstream_data up q.qtype (trim_dot q.name))
    ++ upstream_answers qs

unfoldable pub forward_to_upstream : List (Question × Upstream) → Msg
unfolding upstream_answers
forward_to_upstream qs = record reply { recursion_available = true; answer = upstream_answers qs }
