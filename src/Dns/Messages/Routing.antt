-- ===== src/Dns/Messages/Routing.antt =====
-- internal/dns/server.go: the route that handleDefault chooses, and what goes upstream.
use mathlib.Core.List.{Memᴰ}
use kube_forwarding_proxy.Base.{
  ℕ, ◌≡◌, ◌≢◌, refl, ap, inl, inr, ◌⊎◌, Bool, true, false, none, Option, some, List, [], ◌∷◌, map,
  Text, Bool-cases, All, arith, if◌then◌else◌, text_beq_iff,
}
use kube_forwarding_proxy.Vip.Address.{NetText}
use kube_forwarding_proxy.Vip.Interface.{InterfaceAddressManager}
use kube_forwarding_proxy.Proxy.Cluster.{ClusterHost, parse_cluster_host}
use kube_forwarding_proxy.Dns.Server.{trim_dot}
use kube_forwarding_proxy.Dns.Resolution.{DnsState}
use kube_forwarding_proxy.Dns.Messages.{
  QType, type_a, type_aaaa, type_txt, type_srv, type_cname, type_mx, type_ns, type_ptr, other_type,
  asks_cluster, has_context, is_cluster_question, is_cluster_message,
}
use kube_forwarding_proxy.Dns.Messages.Upstream.{forward_to_upstream}
use kube_forwarding_proxy.Dns.Messages.Cluster.{Asked, handle_cluster, handle_default}

-- The types that handleDefault looks at.
abbrev AsksCluster : QType → Type 0
AsksCluster t = (t ≡ type_a) ⊎ ((t ≡ type_txt) ⊎ (t ≡ type_srv))

-- A name that is not a cluster host's, or is one without a context.
abbrev HasNoContext : Text → Text → Type 0
HasNoContext domain name =
    (parse_cluster_host name domain ≡ none)
    ⊎ ((h : ClusterHost) × (parse_cluster_host name domain ≡ some h) × (h.context_name ≡ []))

-- A question that handleDefault sends nowhere near the cluster.
abbrev pub IsUpstream : Text → Asked → Type 0
IsUpstream domain q =
    ((q.question.qtype ≢ type_a) × (q.question.qtype ≢ type_txt) × (q.question.qtype ≢ type_srv))
    ⊎ HasNoContext domain (trim_dot q.question.name)

-- One with a context: an A, TXT or SRV question for a cluster host.
pub record IsForCluster (domain : Text) (qs : List Asked) : Type 0 where
  pub asked : Asked
  pub host : ClusterHost
  pub found : Memᴰ asked qs
  pub asks : AsksCluster asked.question.qtype
  pub parsed : parse_cluster_host (trim_dot asked.question.name) domain ≡ some host
  pub given : host.context_name ≢ []

-- Which of the two a message is.
data Route (domain : Text) (qs : List Asked) : Bool → Type 0 where
  cluster : IsForCluster domain qs → Route domain qs true
  upstream : All (IsUpstream domain) qs → Route domain qs false

asks_cluster_inv : (t : QType) → asks_cluster t ≡ true → AsksCluster t
unfolding asks_cluster
asks_cluster_inv type_a e = inl refl
asks_cluster_inv type_txt e = inr (inl refl)
asks_cluster_inv type_srv e = inr (inr refl)
asks_cluster_inv type_aaaa e = absurd (cc)
asks_cluster_inv type_cname e = absurd (cc)
asks_cluster_inv type_mx e = absurd (cc)
asks_cluster_inv type_ns e = absurd (cc)
asks_cluster_inv type_ptr e = absurd (cc)
asks_cluster_inv (other_type n) e = absurd (cc)

asks_upstream :
    (t : QType) → asks_cluster t ≡ false → (t ≢ type_a) × (t ≢ type_txt) × (t ≢ type_srv)
unfolding asks_cluster
asks_upstream t e = (
  λ same. absurd (let a = ap asks_cluster same in cc),
  λ same. absurd (let a = ap asks_cluster same in cc),
  λ same. absurd (let a = ap asks_cluster same in cc),
)

has_context_inv :
    (o : Option ClusterHost)
    → has_context o ≡ true
    → (h : ClusterHost) × (o ≡ some h) × (h.context_name ≢ [])
unfolding has_context
has_context_inv none e = absurd (cc)
has_context_inv (some h) e =
    (h, refl, λ z. absurd (let y = (text_beq_iff h.context_name []).1 z in ground arith))

has_no_context :
    (o : Option ClusterHost)
    → has_context o ≡ false
    → (o ≡ none) ⊎ ((h : ClusterHost) × (o ≡ some h) × (h.context_name ≡ []))
unfolding has_context
has_no_context none e = inl refl
has_no_context (some h) e = inr (h, refl, ground (arith, text_beq_iff h.context_name []))

Route-cons :
    (domain : Text) (q : Asked) (qs : List Asked) (b : Bool)
    → IsUpstream domain q
    → Route domain qs b
    → Route domain (q ∷ qs) b
Route-cons domain q qs true u (cluster c) = cluster (record {
  asked = c.asked;
  host = c.host;
  found = Memᴰ.tail c.found;
  asks = c.asks;
  parsed = c.parsed;
  given = c.given;
})
Route-cons domain q qs false u (upstream all) = upstream (u, all)

routes :
    (domain : Text) (qs : List Asked)
    → Route domain qs (is_cluster_message domain (map (λ q. q.question) qs))
unfolding is_cluster_message is_cluster_question
routes domain [] = upstream tt
routes domain (q ∷ qs) =
    let asks = asks_cluster q.question.qtype in
    let parsed = parse_cluster_host (trim_dot q.question.name) domain in
    elim (Bool-cases asks) [
      | inr e ↦
          rw e
            (Route-cons domain q qs _ (inl (asks_upstream q.question.qtype e)) (routes domain qs))
      | inl e ↦ elim (Bool-cases (has_context parsed)) [
        | inr f ↦
            rw (e, f) (Route-cons domain q qs _ (inr (has_no_context parsed f)) (routes domain qs))
        | inl f ↦
            let (h, p, given) = has_context_inv parsed f in
            rw (e, f)
              (cluster (record {
                asked = q;
                host = h;
                found = Memᴰ.head refl;
                asks = asks_cluster_inv q.question.qtype e;
                parsed = p;
                given = given;
              }))
      ]
    ]

module _ (net : NetText) (m : InterfaceAddressManager) (domain : Text)
    (listen : Text → ℕ → Option ℕ) where
  -- Each message goes one of two ways. Some A, TXT or SRV question of it is for a cluster host with a
  -- context, and handleDefault does what handleCluster does; or none is, the reply comes from upstream
  -- and the server's state stays as it was.
  pub handle_default-routes :
      (qs : List Asked) (st : DnsState net m)
      → (IsForCluster domain qs
          × (handle_default net m domain listen qs st ≡ handle_cluster net m domain listen qs st))
        ⊎ (All (IsUpstream domain) qs
            × (handle_default net m domain listen qs st
                ≡ some (st, forward_to_upstream (map (λ q. (q.question, q.upstream)) qs))))
  unfolding handle_default
  handle_default-routes qs st =
      go (is_cluster_message domain (map (λ q. q.question) qs)) (routes domain qs)
    where
      go :
          (b : Bool)
          → Route domain qs b
          → (IsForCluster domain qs
              × ((if b
                    then handle_cluster net m domain listen qs st
                    else some (st, forward_to_upstream (map (λ q. (q.question, q.upstream)) qs)))
                  ≡ handle_cluster net m domain listen qs st))
            ⊎ (All (IsUpstream domain) qs
                × ((if b
                      then handle_cluster net m domain listen qs st
                      else some (st, forward_to_upstream (map (λ q. (q.question, q.upstream)) qs)))
                    ≡ some (st, forward_to_upstream (map (λ q. (q.question, q.upstream)) qs))))
      go true (cluster c) = inl (c, refl)
      go false (upstream all) = inr (all, refl)
