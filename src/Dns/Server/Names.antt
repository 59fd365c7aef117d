-- ===== src/Dns/Server/Names.antt =====
-- internal/dns/server.go: the names that answers point to.
use kube_forwarding_proxy.Base.{
  ℕ, ◌-◌, ◌≡◌, ◌≢◌, sym, ap, ◌∙◌, some, [], ◌∷◌, ◌++◌, Text, arith, IsFree, join, length,
  length-append, take-length_append, append_assoc, append-nil, trim_suffix-append,
}
use kube_forwarding_proxy.Proxy.Cluster.{dot, ClusterHost, parse_cluster_host}
use kube_forwarding_proxy.Proxy.Cluster.RoundTrip.{
  host_labels, context_part, fqdn, IsPlain, parse_cluster_host-fqdn,
}
use kube_forwarding_proxy.Dns.Server.{trim_dot, strip_context, strip_parsed, context_fqdn}

-- What stands behind the last label is what is left of its context.
strip_context_part : (base ctx : Text) → strip_context (base ++ context_part ctx) ctx ≡ base
unfolding strip_context
strip_context_part base [] = append-nil base
strip_context_part base (c ∷ ctx) =
    let cut : length (base ++ dot ∷ c ∷ ctx) - length (c ∷ ctx) - 1 ≡ length base =
      omega (arith, length-append base (dot ∷ c ∷ ctx)) in
    rw cut (take-length_append base (dot ∷ c ∷ ctx))

regroup : (a b c d : Text) → (a ++ b) ++ (c ++ d) ≡ (a ++ (b ++ c)) ++ d
regroup a b c d =
    append_assoc a b (c ++ d)
    ∙ (ap (◌++◌ a) (sym (append_assoc b c d)) ∙ sym (append_assoc a (b ++ c) d))

-- The context-suffixed name of a host, whose parts hold no dots and whose context is not the last
-- label of the domain, is the host's FQDN in the given context, which is not empty: a context that
-- was there is replaced, and the final dot stays.
pub context_fqdn-fqdn :
    (h : ClusterHost) (domain d l ctx : Text) (c : ℕ)
    → domain ≡ d ++ dot ∷ l
    → IsFree dot l
    → IsPlain h
    → h.context_name ≢ l
    → context_fqdn domain (fqdn h domain ++ dot ∷ []) (c ∷ ctx)
      ≡ fqdn (record h { context_name = c ∷ ctx }) domain ++ dot ∷ []
unfolding context_fqdn trim_dot strip_parsed fqdn
context_fqdn-fqdn h domain d l ctx c e free plain differ =
    let labels = join dot (host_labels h.pod_name h.svc_name h.namespace) in
    let base = labels ++ dot ∷ domain in
    let trimmed : trim_dot (fqdn h domain ++ dot ∷ []) ≡ fqdn h domain =
      trim_suffix-append (fqdn h domain) (dot ∷ []) in
    let parsed : parse_cluster_host (fqdn h domain) domain ≡ some h =
      parse_cluster_host-fqdn h domain d l e free plain differ in
    let stripped : strip_context (fqdn h domain) h.context_name ≡ base =
      ap (λ t. strip_context t h.context_name)
        (sym (append_assoc labels (dot ∷ domain) (context_part h.context_name)))
      ∙ strip_context_part base h.context_name in
    let tail = dot ∷ ((c ∷ ctx) ++ dot ∷ []) in
    ap (λ b. strip_parsed b (parse_cluster_host b domain) ++ tail) trimmed
    ∙ (ap (λ o. strip_parsed (fqdn h domain) o ++ tail) parsed
        ∙ (ap (λ b. b ++ tail) stripped ∙ regroup labels (dot ∷ domain) (dot ∷ c ∷ ctx) (dot ∷ [])))
