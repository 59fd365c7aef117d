-- ===== src/Dns/Messages/Targets.antt =====
-- internal/dns/server.go: the targets of SRV records.
use kube_forwarding_proxy.Base.{
  ℕ, ◌%◌, ◌≡◌, ◌≢◌, refl, ap, ◌∙◌, inl, inr, some, List, [], ◌∷◌, ◌++◌, Text, IsFree, nat_beq,
  Bool-cases, All, All-append, subst, arith, trim_suffix-append,
}
use mathlib.Core.List.{Memᴰ}
use kube_forwarding_proxy.Proxy.Cluster.{dot, ClusterHost, parse_cluster_host}
use kube_forwarding_proxy.Proxy.Cluster.RoundTrip.{fqdn, IsPlain, parse_cluster_host-fqdn}
use kube_forwarding_proxy.K8s.Resolver.{ServicePort}
use kube_forwarding_proxy.Dns.Server.{ContextVip, trim_dot, context_fqdn}
use kube_forwarding_proxy.Dns.Server.Names.{context_fqdn-fqdn}
use kube_forwarding_proxy.Dns.Messages.{Rr, rd_srv, srv_records, srv_answers}

-- A context that a name can carry: one label, which is not the domain's last one.
pub record IsLabel (l ctx : Text) : Type 0 where
  pub given : ctx ≢ []
  pub free : IsFree dot ctx
  pub differs : ctx ≢ l

module _ (h : ClusterHost) (domain d l : Text) (e : domain ≡ d ++ dot ∷ l) (free : IsFree dot l)
    (plain : IsPlain h) (differ : h.context_name ≢ l) where
  target-parses :
      (ctx : Text)
      → IsLabel l ctx
      → parse_cluster_host (trim_dot (context_fqdn domain (fqdn h domain ++ dot ∷ []) ctx)) domain
        ≡ some (record h { context_name = ctx })
  unfolding trim_dot
  target-parses [] label = absurd (label.given refl)
  target-parses (c ∷ ctx) label =
      let g = record h { context_name = c ∷ ctx } in
      let p : IsPlain g = record {
        pod = plain.pod;
        svc = plain.svc;
        ns = plain.ns;
        ctx = label.free;
      } in
      ap (λ t. parse_cluster_host (trim_dot t) domain)
        (context_fqdn-fqdn h domain d l ctx c e free plain differ)
      ∙ (ap (λ t. parse_cluster_host t domain) (trim_suffix-append (fqdn g domain) (dot ∷ []))
          ∙ parse_cluster_host-fqdn g domain d l e free p label.differs)

  -- Where an SRV record may come from: an exposed port of a VIP.
  pub record IsSrvOf (vips : List ContextVip) (port : ℕ) (target : Text) : Type 0 where
    pub vip : ContextVip
    pub service_port : ServicePort
    pub vip_found : Memᴰ vip vips
    pub port_found : Memᴰ service_port vip.ports
    pub port_given : service_port.port ≢ 0
    pub port_kept : port ≡ service_port.port % 65536
    pub target_parses :
        parse_cluster_host (trim_dot target) domain
        ≡ some (record h { context_name = vip.context_name })

  -- The records of the question's name, each of which is the SRV record of some VIP.
  abbrev pub AreSrvOf : List ContextVip → List Rr → Type 0
  AreSrvOf vips rs =
      All
        (λ r. (port : ℕ) (target : Text) → r.rdata ≡ rd_srv port target → IsSrvOf vips port target)
        rs

  srv_records-AreSrvOf :
      (vips : List ContextVip) (v : ContextVip) (name target : Text) (ports : List ServicePort)
      → Memᴰ v vips
      → ((p : ServicePort) → Memᴰ p ports → Memᴰ p v.ports)
      → parse_cluster_host (trim_dot target) domain
        ≡ some (record h { context_name = v.context_name })
      → AreSrvOf vips (srv_records name target ports)
  unfolding srv_records
  srv_records-AreSrvOf vips v name target [] found sub parses = tt
  srv_records-AreSrvOf vips v name target (p ∷ ps) found sub parses =
      let rest =
        srv_records-AreSrvOf vips v name target ps found (λ q i. sub q (Memᴰ.tail i)) parses in
      elim (Bool-cases (nat_beq p.port 0)) [
        | inl e ↦ rw e rest
        | inr e ↦ rw e (
          λ port t r. record {
            vip = v;
            service_port = p;
            vip_found = found;
            port_found = sub p (Memᴰ.head refl);
            port_given = λ z. ground (arith);
            port_kept = ground arith;
            target_parses =
                subst
                  (λ u.
                    parse_cluster_host (trim_dot u) domain
                    ≡ some (record h { context_name = v.context_name }))
                  (ground arith) parses;
          },
          rest,
        )
      ]

  srv_answers-AreSrvOf :
      (all vips : List ContextVip)
      → ((v : ContextVip) → Memᴰ v vips → Memᴰ v all)
      → All (λ v. IsLabel l v.context_name) vips
      → AreSrvOf all (srv_answers domain (fqdn h domain ++ dot ∷ []) vips)
  unfolding srv_answers
  srv_answers-AreSrvOf all [] sub labels = tt
  srv_answers-AreSrvOf all (v ∷ vips) sub (label, labels) =
      let name = fqdn h domain ++ dot ∷ [] in
      let target = context_fqdn domain name v.context_name in
      All-append _ (srv_records name target v.ports) _
        (srv_records-AreSrvOf all v name target v.ports (sub v (Memᴰ.head refl)) (λ p i. i)
          (target-parses v.context_name label))
        (srv_answers-AreSrvOf all vips (λ w i. sub w (Memᴰ.tail i)) labels)

  -- An SRV question for the FQDN of a host, whose labels hold no dots, where the contexts of the VIPs
  -- are single labels and not the domain's last one: every SRV record of the answer is that of an
  -- exposed port, not 0, of one of the VIPs, its port is that port's 16 bits, and its target is a name
  -- that the parser reads as the same service or pod in that VIP's context.
  pub srv_answers-parsed :
      (vips : List ContextVip)
      → All (λ v. IsLabel l v.context_name) vips
      → AreSrvOf vips (srv_answers domain (fqdn h domain ++ dot ∷ []) vips)
  srv_answers-parsed vips labels = srv_answers-AreSrvOf vips vips (λ v i. i) labels
