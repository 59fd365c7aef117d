-- ===== src/Proxy/Cluster/RoundTrip.antt =====
-- internal/proxy/cluster.go: the parser reads back the names that its comment lists.
use kube_forwarding_proxy.Base.{
  ◌+◌, ◌≡◌, ◌≢◌, sym, ap, ◌∙◌, inl, inr, none, some, List, [], ◌∷◌, ◌++◌, Text, arith, IsFree,
  split-append, split_free, join, cut_suffix, cut_suffix-append, append_of_cut_suffix, append_assoc,
  append-nil, last_index-append, free_tails, contains-byte, text_beq_iff, Option-cases, length,
  drop, take-length_append, drop_past_append,
}
use kube_forwarding_proxy.Proxy.Cluster.{
  dot, ClusterHost, parse_labels, parse_suffixed, parse_cluster_host,
}

-- The labels in front of the domain; the pod's label is there if it is not empty.
abbrev pub host_labels : Text → Text → Text → List Text
host_labels [] svc ns = svc ∷ ns ∷ []
host_labels (c ∷ pod) svc ns = (c ∷ pod) ∷ svc ∷ ns ∷ []

-- The labels behind the domain.
abbrev pub context_part : Text → Text
context_part [] = []
context_part (c ∷ ctx) = dot ∷ c ∷ ctx

-- A service or pod FQDN in the formats that `ParseClusterHost` documents.
unfoldable pub fqdn : ClusterHost → Text → Text
fqdn h domain =
    join dot (host_labels h.pod_name h.svc_name h.namespace)
    ++ ((dot ∷ domain) ++ context_part h.context_name)

-- Every label is free of dots.
pub record IsPlain (h : ClusterHost) : Type 0 where
  pub pod : IsFree dot h.pod_name
  pub svc : IsFree dot h.svc_name
  pub ns : IsFree dot h.namespace
  pub ctx : IsFree dot h.context_name

parse_labels-host_labels :
    (pod svc ns ctx : Text)
    → IsFree dot pod
    → IsFree dot svc
    → IsFree dot ns
    → parse_labels (join dot (host_labels pod svc ns)) ctx
      ≡ some (record { pod_name = pod; svc_name = svc; namespace = ns; context_name = ctx })
unfolding parse_labels join
parse_labels-host_labels [] svc ns ctx p s n = rw (split-append dot svc ns s, split_free dot ns n)
parse_labels-host_labels (c ∷ pod) svc ns ctx p s n =
    rw (
      split-append dot (c ∷ pod) (svc ++ dot ∷ ns) p,
      split-append dot svc ns s,
      split_free dot ns n,
    )

parse_suffixed_at :
    (p suffix ctx : Text)
    → IsFree dot ctx
    → ctx ≢ []
    → parse_suffixed (p ++ (suffix ++ dot ∷ ctx)) suffix ≡ parse_labels p ctx
unfolding parse_suffixed
parse_suffixed_at p suffix ctx free given =
    let host = p ++ (suffix ++ dot ∷ ctx) in
    let past : drop (length p + length suffix + 1) host ≡ ctx = drop_past_append dot p suffix ctx in
    rw (last_index-append dot p suffix ctx free, parse_suffixed)
      (rw (past, take-length_append p (suffix ++ dot ∷ ctx), contains-byte dot ctx, free)
        (ground (arith, text_beq_iff ctx [])))

-- A text that ends in a context does not end in a domain with another last label.
no_suffix_of_context :
    (p domain d l ctx : Text)
    → domain ≡ d ++ dot ∷ l
    → IsFree dot l
    → IsFree dot ctx
    → ctx ≢ l
    → cut_suffix (p ++ dot ∷ ctx) (dot ∷ domain) ≡ none
no_suffix_of_context p domain d l ctx e fl fc differ =
    elim (Option-cases (cut_suffix (p ++ dot ∷ ctx) (dot ∷ domain))) [
      | inl missing ↦ missing
      | inr (before, cut) ↦ absurd (
          differ (
            free_tails dot p ctx (before ++ dot ∷ d) l
              (append_of_cut_suffix (p ++ dot ∷ ctx) (dot ∷ domain) cut
                ∙ (ap (λ t. before ++ dot ∷ t) e ∙ sym (append_assoc before (dot ∷ d) (dot ∷ l))))
              fc fl))
    ]

parse_suffixed_fqdn :
    (p domain d l ctx : Text)
    → domain ≡ d ++ dot ∷ l
    → IsFree dot l
    → IsFree dot ctx
    → ctx ≢ l
    → ctx ≢ []
    → parse_cluster_host (p ++ ((dot ∷ domain) ++ dot ∷ ctx)) domain ≡ parse_labels p ctx
unfolding parse_cluster_host
parse_suffixed_fqdn p domain d l ctx e fl fc differ given =
    let none_cut : cut_suffix (p ++ ((dot ∷ domain) ++ dot ∷ ctx)) (dot ∷ domain) ≡ none =
      rw (append_assoc p (dot ∷ domain) (dot ∷ ctx)) at
        (no_suffix_of_context (p ++ dot ∷ domain) domain d l ctx e fl fc differ) in
    rw (none_cut, parse_cluster_host) (parse_suffixed_at p (dot ∷ domain) ctx fc given)

parse_fqdn_of_context :
    (p domain d l ctx : Text)
    → domain ≡ d ++ dot ∷ l
    → IsFree dot l
    → IsFree dot ctx
    → ctx ≢ l
    → parse_cluster_host (p ++ ((dot ∷ domain) ++ context_part ctx)) domain ≡ parse_labels p ctx
unfolding parse_cluster_host
parse_fqdn_of_context p domain d l [] e fl fc differ =
    rw (append-nil domain, cut_suffix-append p (dot ∷ domain), parse_cluster_host)
parse_fqdn_of_context p domain d l (c ∷ ctx) e fl fc differ =
    parse_suffixed_fqdn p domain d l (c ∷ ctx) e fl fc differ (λ empty. cc)

-- Every FQDN of the documented formats, with or without a pod and a context, is parsed back to its
-- parts, if no part holds a dot and the context is not the last label of the cluster domain.
pub parse_cluster_host-fqdn :
    (h : ClusterHost) (domain d l : Text)
    → domain ≡ d ++ dot ∷ l
    → IsFree dot l
    → IsPlain h
    → h.context_name ≢ l
    → parse_cluster_host (fqdn h domain) domain ≡ some h
unfolding fqdn
parse_cluster_host-fqdn h domain d l e fl plain differ =
    parse_fqdn_of_context (join dot (host_labels h.pod_name h.svc_name h.namespace)) domain d l
      h.context_name e fl plain.ctx differ
    ∙ parse_labels-host_labels h.pod_name h.svc_name h.namespace h.context_name plain.pod plain.svc
        plain.ns
