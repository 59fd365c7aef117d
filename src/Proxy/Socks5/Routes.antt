-- ===== src/Proxy/Socks5/Routes.antt =====
-- internal/proxy/socks5.go and cluster.go: which hosts are tunnelled, and to where.
use kube_forwarding_proxy.Base.{
  ℕ, ◌≡◌, ◌≢◌, refl, sym, ap, ◌∙◌, inl, inr, ◌⊎◌, true, false, some, [], ◌∷◌, ◌++◌, Text, IsFree,
  arith, trim_suffix, has_suffix-append, trim_suffix-append, append_assoc, append-nil, join,
}
use kube_forwarding_proxy.Proxy.Cluster.{dot, ClusterHost, is_cluster_host, parse_cluster_host}
use kube_forwarding_proxy.Proxy.Cluster.RoundTrip.{
  fqdn, host_labels, context_part, IsPlain, parse_cluster_host-fqdn,
}
use kube_forwarding_proxy.K8s.PortForward.{Moment, dial_port_forward}
use kube_forwarding_proxy.Proxy.Socks5.{
  Net, Tunnels, dial, dial_direct, dial_split, dial_cluster, dial_parsed, tunnelled,
}
use kube_forwarding_proxy.Proxy.Socks5.Dots.{trim_dot_free, is_cluster_host_dotted}

module _ (domain d l : Text) (e : domain ≡ d ++ dot ∷ l) (free : IsFree dot l)
    (given : l ≢ []) where
  fqdn_split :
      (h : ClusterHost)
      → h.context_name ≢ []
      → (x : Text) × (fqdn h domain ≡ x ++ dot ∷ h.context_name)
  unfolding fqdn
  fqdn_split h named = go h.context_name named
    where
      go :
          (ctx : Text)
          → ctx ≢ []
          → (x : Text) × (join dot (host_labels h.pod_name h.svc_name h.namespace)
                ++ ((dot ∷ domain) ++ context_part ctx)
              ≡ x ++ dot ∷ ctx)
      go [] n = absurd (n refl)
      go (c ∷ ctx) n =
          let labels = join dot (host_labels h.pod_name h.svc_name h.namespace) in
          (labels ++ (dot ∷ domain), sym (append_assoc labels (dot ∷ domain) (dot ∷ c ∷ ctx)))

  fqdn_last :
      (h : ClusterHost)
      → IsPlain h
      → (x y : Text) × (fqdn h domain ≡ x ++ dot ∷ y) × IsFree dot y × (y ≢ [])
  unfolding fqdn
  fqdn_last h plain = go h.context_name plain.ctx
    where
      go :
          (ctx : Text)
          → IsFree dot ctx
          → (x y : Text) × (join dot (host_labels h.pod_name h.svc_name h.namespace)
                ++ ((dot ∷ domain) ++ context_part ctx)
              ≡ x ++ dot ∷ y)
            × IsFree dot y
            × (y ≢ [])
      go [] f =
          let labels = join dot (host_labels h.pod_name h.svc_name h.namespace) in
          (
            labels ++ (dot ∷ d),
            l,
            ap (λ u. labels ++ dot ∷ u) (append-nil domain ∙ e)
                ∙ sym (append_assoc labels (dot ∷ d) (dot ∷ l)),
            free,
            given,
          )
      go (c ∷ ctx) f =
          let labels = join dot (host_labels h.pod_name h.svc_name h.namespace) in
          (
            labels ++ (dot ∷ domain),
            c ∷ ctx,
            sym (append_assoc labels (dot ∷ domain) (dot ∷ c ∷ ctx)),
            f,
            λ z. cc,
          )

  trim_fqdn : (h : ClusterHost) → IsPlain h → trim_suffix (fqdn h domain) (dot ∷ []) ≡ fqdn h domain
  trim_fqdn h plain =
      let (x, y, cut, f, n) = fqdn_last h plain in
      ap (λ t. trim_suffix t (dot ∷ [])) cut ∙ (trim_dot_free x y f n ∙ sym cut)

  -- The FQDN of a service or pod, with a final dot or without, that IsClusterHost accepts, and a port
  -- that Sscanf reads: the proxy's dial is DialPortForward for exactly the parts that the name is
  -- made of. The labels hold no dots, the context is not the domain's last label, and that is not
  -- empty.
  pub dial-fqdn :
      (net : Net) (h : ClusterHost) (addr host port_str : Text) (port : ℕ) (moment : Moment)
      (t : Tunnels)
      → IsPlain h
      → h.context_name ≢ l
      → (host ≡ fqdn h domain) ⊎ (host ≡ fqdn h domain ++ dot ∷ [])
      → net.split_host_port addr ≡ some (host, port_str)
      → is_cluster_host host domain ≡ true
      → net.scan_port port_str ≡ some port
      → dial net domain addr moment t
        ≡ tunnelled t (
            dial_port_forward t.client_of t.current h.context_name h.namespace h.svc_name h.pod_name
              port moment t.resolver t.pool)
  unfolding dial dial_split dial_cluster dial_parsed
  dial-fqdn net h addr host port_str port moment t plain differ spelled splits accepted scanned =
      let trimmed : trim_suffix host (dot ∷ []) ≡ fqdn h domain = elim spelled [
        | inl s ↦ ap (λ u. trim_suffix u (dot ∷ [])) s ∙ trim_fqdn h plain
        | inr s ↦
            ap (λ u. trim_suffix u (dot ∷ [])) s ∙ trim_suffix-append (fqdn h domain) (dot ∷ [])
      ] in
      let parsed : parse_cluster_host (trim_suffix host (dot ∷ [])) domain ≡ some h =
        ap (λ u. parse_cluster_host u domain) trimmed
        ∙ parse_cluster_host-fqdn h domain d l e free plain differ in
      rw (splits, dial) (rw (accepted, dial_split) (rw (parsed, scanned, dial_cluster) refl))

  -- The context-suffixed FQDN of a service or pod, whose context is not the domain's last label, with
  -- a final dot: the proxy dials it directly, as a name outside the cluster, and touches neither the
  -- resolver nor the pool.
  pub dial_dotted :
      (net : Net) (h : ClusterHost) (addr port_str : Text) (moment : Moment) (t : Tunnels)
      → IsPlain h
      → h.context_name ≢ l
      → h.context_name ≢ []
      → net.split_host_port addr ≡ some (fqdn h domain ++ dot ∷ [], port_str)
      → dial net domain addr moment t ≡ (t, dial_direct (net.dial_timeout addr))
  unfolding dial dial_split
  dial_dotted net h addr port_str moment t plain differ named splits =
      let (x, cut) = fqdn_split h named in
      let rejected : is_cluster_host (fqdn h domain ++ dot ∷ []) domain ≡ false =
        ap (λ u. is_cluster_host (u ++ dot ∷ []) domain) cut
        ∙ is_cluster_host_dotted domain d l e free given x h.context_name plain.ctx differ in
      rw (splits, dial) (rw (rejected, dial_split) refl)

  -- Without a context IsClusterHost accepts the name, with a final dot or without.
  pub is_cluster_host_bare :
      (h : ClusterHost)
      → h.context_name ≡ []
      → (is_cluster_host (fqdn h domain) domain ≡ true)
        × (is_cluster_host (fqdn h domain ++ dot ∷ []) domain ≡ true)
  unfolding is_cluster_host fqdn
  is_cluster_host_bare h bare =
      let labels = join dot (host_labels h.pod_name h.svc_name h.namespace) in
      let spelled : fqdn h domain ≡ labels ++ dot ∷ domain =
        ap (λ c. labels ++ ((dot ∷ domain) ++ context_part c)) bare
        ∙ ap (λ u. labels ++ u) (append-nil (dot ∷ domain)) in
      let dotted : fqdn h domain ++ dot ∷ [] ≡ labels ++ ((dot ∷ domain) ++ dot ∷ []) =
        ap (λ u. u ++ dot ∷ []) spelled ∙ append_assoc labels (dot ∷ domain) (dot ∷ []) in
      (
        ap (λ u. is_cluster_host u domain) spelled
            ∙ rw (has_suffix-append labels (dot ∷ domain)) refl,
        ap (λ u. is_cluster_host u domain) dotted
            ∙ rw (has_suffix-append labels ((dot ∷ domain) ++ dot ∷ [])) (ground arith),
      )
