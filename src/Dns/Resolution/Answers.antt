-- ===== src/Dns/Resolution/Answers.antt =====
-- internal/dns/server.go: the addresses that an A query answers with.
use kube_forwarding_proxy.Base.{
  ℕ, ◌≡◌, refl, sym, ◌∙◌, inl, inr, Bool, true, false, Option, none, some, List, [], ◌∷◌, Text,
  arith, Option-cases, Result, ok, err, text_eq, beq_self, subst, All,
}
use kube_forwarding_proxy.Vip.Address.{Ip, NetText}
use kube_forwarding_proxy.Vip.Interface.{InterfaceAddressManager}
use kube_forwarding_proxy.Vip.Allocator.{Allocator, AllocatorError, Outcome, allocate, lookup_vip}
use kube_forwarding_proxy.Vip.Allocator.Invariant.{IsValid}
use kube_forwarding_proxy.Vip.Allocator.Allocation.{allocate-IsValid, allocate_ok, allocate_err}
use kube_forwarding_proxy.Proxy.Cluster.{ClusterHost, parse_cluster_host}
use kube_forwarding_proxy.K8s.Resolver.{
  ServicePort, ResolvedService, ResolveError, Resolver, resolver_context_names,
}
use kube_forwarding_proxy.K8s.ForwardManager.{Manager}
use kube_forwarding_proxy.Dns.Server.{
  ContextVip, service_key, contexts_for, trim_dot, resolve_host, add_vip,
}
use kube_forwarding_proxy.Dns.Resolution.{
  DnsState, answer_started, answer_allocated, answer_outcome, answer_resolved, answer_known,
  resolve_for_context, join_answers, then_resolve, resolve_in_contexts, resolve_a,
}

module _ (net : NetText) (m : InterfaceAddressManager) where
  open net use {ip_string}
  open m use {Iface}

  -- The allocator's answer for a VIP of the host.
  abbrev pub IsHeld : ClusterHost → Allocator → ContextVip → Type 0
  IsHeld h a v = lookup_vip (service_key v.context_name h) a ≡ some v.ip

  -- What every key with an address keeps.
  abbrev Keeps : Allocator → Allocator → Type 0
  Keeps a b = (j : Text) (ip : Ip) → lookup_vip j a ≡ some ip → lookup_vip j b ≡ some ip

  -- A successful or failed Allocate takes no address from another key.
  allocate-Keeps :
      (key : Text) (a : Allocator) (s : Iface) (o : Outcome Iface)
      → IsValid net a
      → lookup_vip key a ≡ none
      → allocate net m key a s ≡ some o
      → Keeps a o.allocator
  allocate-Keeps key a s o v new e j ip h = go o.result refl
    where
      go : (r : Result AllocatorError Ip) → o.result ≡ r → lookup_vip j o.allocator ≡ some ip
      go (ok x) r =
          ground (arith, (allocate_ok net m key a s o x j v new e r).0.found, text_eq.beq_iff key j)
      go (err x) r = (allocate_err net m key a s o x j [] v new e r).0 ∙ h

  -- What a context's answer, or all answers, may be relied on for.
  pub record IsAnswered (h : ClusterHost) (a : Allocator) (st : DnsState net m)
      (vips : List ContextVip) : Type 0 where
    pub valid : IsValid net st.allocator
    pub kept : Keeps a st.allocator
    pub held : All (IsHeld h st.allocator) vips

  answer_started-IsAnswered :
      (name : Text) (h : ClusterHost) (ip : Ip) (ports : List ServicePort) (a : Allocator)
      (st : DnsState net m) (r : Bool × Manager)
      → IsValid net st.allocator
      → Keeps a st.allocator
      → lookup_vip (service_key name h) st.allocator ≡ some ip
      → let (st', v) = answer_started net m name ip ports st r in IsAnswered h a st' (add_vip v [])
  unfolding answer_started add_vip
  answer_started-IsAnswered name h ip ports a st (true, mg) v k e = record {
    valid = v;
    kept = k;
    held = (e, tt);
  }
  answer_started-IsAnswered name h ip ports a st (false, mg) v k e = record {
    valid = v;
    kept = k;
    held = tt;
  }

  -- A run that returns, with what its answers may be relied on for.
  record Runs (h : ClusterHost) (a : Allocator) (run : Option (DnsState net m × Option ContextVip))
      : Type 0 where
    outcome : DnsState net m × Option ContextVip
    total : run ≡ some outcome
    answered : IsAnswered h a outcome.0 (add_vip outcome.1 [])

  outcome-Runs :
      (h : ClusterHost) (a : Allocator) (o : DnsState net m × Option ContextVip)
      → IsAnswered h a o.0 (add_vip o.1 [])
      → Runs h a (some o)
  outcome-Runs h a o answered = record { outcome = o; total = refl; answered = answered }

  answer_allocated-IsAnswered :
      (name : Text) (h : ClusterHost) (ports : List ServicePort) (listen : Text → ℕ → Option ℕ)
      (a : Allocator) (st : DnsState net m) (r : Result AllocatorError Ip)
      → IsValid net st.allocator
      → Keeps a st.allocator
      → ((ip : Ip) → r ≡ ok ip → lookup_vip (service_key name h) st.allocator ≡ some ip)
      → let (st', v) = answer_allocated net m name ports listen st r in
        IsAnswered h a st' (add_vip v [])
  unfolding answer_allocated add_vip
  answer_allocated-IsAnswered name h ports listen a st (ok ip) v k e =
      answer_started-IsAnswered name h ip ports a st _ v k (e ip refl)
  answer_allocated-IsAnswered name h ports listen a st (err x) v k e = record {
    valid = v;
    kept = k;
    held = tt;
  }

  answer_resolved-Runs :
      (name : Text) (h : ClusterHost) (listen : Text → ℕ → Option ℕ) (st : DnsState net m)
      (r : Resolver × Result ResolveError ResolvedService)
      → IsValid net st.allocator
      → lookup_vip (service_key name h) st.allocator ≡ none
      → Runs h st.allocator (answer_resolved net m name h listen st r)
  unfolding answer_resolved answer_outcome add_vip
  answer_resolved-Runs name h listen st (r, err x) v new =
      outcome-Runs h st.allocator _ (record { valid = v; kept = λ j ip e. e; held = tt })
  answer_resolved-Runs name h listen st (r, ok resolved) v new =
      let key = service_key name h in
      let (o, e, v', moved) = allocate-IsValid net m key st.allocator st.iface v in
      let st' = record st { resolver = r; allocator = o.allocator; iface = o.iface } in
      subst
        (λ run.
          Runs h st.allocator
            (answer_outcome net m name resolved.ports listen (record st { resolver = r }) run))
        (sym e)
        (outcome-Runs h st.allocator
          (answer_allocated net m name resolved.ports listen st' o.result)
          (answer_allocated-IsAnswered name h resolved.ports listen st.allocator st' o.result v'
            (allocate-Keeps key st.allocator st.iface o v new e)
            (λ ip r'.
              rw (beq_self key) at
                ((allocate_ok net m key st.allocator st.iface o ip key v new e r').0.found))))

  answer_known-IsAnswered :
      (name : Text) (h : ClusterHost) (ip : Ip) (st : DnsState net m)
      (r : Resolver × Result ResolveError ResolvedService)
      → IsValid net st.allocator
      → lookup_vip (service_key name h) st.allocator ≡ some ip
      → let (st', v) = answer_known net m name ip st r in
        IsAnswered h st.allocator st' (add_vip v [])
  unfolding answer_known add_vip
  answer_known-IsAnswered name h ip st (r, answer) v e = record {
    valid = v;
    kept = λ j i e'. e';
    held = (e, tt);
  }

  resolve_for_context-Runs :
      (name : Text) (h : ClusterHost) (now : ℕ) (listen : Text → ℕ → Option ℕ) (st : DnsState net m)
      → IsValid net st.allocator
      → Runs h st.allocator (resolve_for_context net m name h now listen st)
  unfolding resolve_for_context
  resolve_for_context-Runs name h now listen st v =
      let r = resolve_host st.resolver name h now in
      elim (Option-cases (lookup_vip (service_key name h) st.allocator)) [
        | inl new ↦ rw (new, resolve_for_context) (answer_resolved-Runs name h listen st r v new)
        | inr (ip, e) ↦
            rw (e, resolve_for_context)
              (outcome-Runs h st.allocator (answer_known net m name ip st r)
                (answer_known-IsAnswered name h ip st r v e))
      ]

  All-held :
      (h : ClusterHost) (a b : Allocator) (vips : List ContextVip)
      → Keeps a b
      → All (IsHeld h a) vips
      → All (IsHeld h b) vips
  All-held h a b [] k all = tt
  All-held h a b (v ∷ vips) k (first, rest) = (k _ _ first, All-held h a b vips k rest)

  -- The same of all contexts.
  record RunsAll (h : ClusterHost) (a : Allocator) (run : Option (DnsState net m × List ContextVip))
      : Type 0 where
    outcome : DnsState net m × List ContextVip
    total : run ≡ some outcome
    answered : IsAnswered h a outcome.0 outcome.1

  add_vip-held :
      (h : ClusterHost) (a : Allocator) (o : Option ContextVip) (vips : List ContextVip)
      → All (IsHeld h a) (add_vip o [])
      → All (IsHeld h a) vips
      → All (IsHeld h a) (add_vip o vips)
  unfolding add_vip
  add_vip-held h a none vips one all = all
  add_vip-held h a (some v) vips (one, nil) all = (one, all)

  join_answers-RunsAll :
      (h : ClusterHost) (a : Allocator) (st : DnsState net m) (v : Option ContextVip)
      (run : Option (DnsState net m × List ContextVip))
      → IsAnswered h a st (add_vip v [])
      → RunsAll h st.allocator run
      → RunsAll h a (join_answers net m v run)
  unfolding join_answers
  join_answers-RunsAll h a st v run first rest =
      let (st', vips) = rest.outcome in
      subst (λ x. RunsAll h a (join_answers net m v x)) (sym rest.total)
        (record {
          outcome = (st', add_vip v vips);
          total = refl;
          answered = record {
            valid = rest.answered.valid;
            kept = λ j ip e. rest.answered.kept j ip (first.kept j ip e);
            held =
                add_vip-held h st'.allocator v vips
                  (All-held h st.allocator st'.allocator (add_vip v []) rest.answered.kept
                    first.held)
                  rest.answered.held;
          };
        })

  resolve_in_contexts-RunsAll :
      (names : List Text) (h : ClusterHost) (clock : Text → ℕ) (listen : Text → ℕ → Option ℕ)
      (st : DnsState net m)
      → IsValid net st.allocator
      → RunsAll h st.allocator (resolve_in_contexts net m names h clock listen st)
  unfolding resolve_in_contexts then_resolve
  resolve_in_contexts-RunsAll [] h clock listen st v = record {
    outcome = (st, []);
    total = refl;
    answered = record { valid = v; kept = λ j ip e. e; held = tt };
  }
  resolve_in_contexts-RunsAll (name ∷ names) h clock listen st v =
      let first = resolve_for_context-Runs name h (clock name) listen st v in
      let (st', o) = first.outcome in
      subst
        (λ x.
          RunsAll h st.allocator
            (then_resolve net m x (resolve_in_contexts net m names h clock listen)))
        (sym first.total)
        (join_answers-RunsAll h st.allocator st' o _ first.answered
          (resolve_in_contexts-RunsAll names h clock listen st' first.answered.valid))

  -- From a valid allocator, resolveA always returns for a cluster host. It keeps the allocator
  -- valid and takes no address from any service, and each address in the answer is the one that
  -- the allocator holds for the host's service or pod in the context that the answer names.
  pub resolve_a-IsAnswered :
      (domain name : Text) (h : ClusterHost) (clock : Text → ℕ) (listen : Text → ℕ → Option ℕ)
      (st : DnsState net m)
      → IsValid net st.allocator
      → parse_cluster_host (trim_dot name) domain ≡ some h
      → (st' : DnsState net m) × (vips : List ContextVip) × (resolve_a net m domain name clock
            listen st
          ≡ some (st', vips))
        × IsAnswered h st.allocator st' vips
  unfolding resolve_a
  resolve_a-IsAnswered domain name h clock listen st v e =
      let names = contexts_for h.context_name (resolver_context_names st.resolver) in
      let all = resolve_in_contexts-RunsAll names h clock listen st v in
      (all.outcome.0, all.outcome.1, rw (e, resolve_a) all.total, all.answered)
