-- ===== src/Dns/Messages/Cluster/Steps.antt =====
-- internal/dns/server.go: one question of handleCluster's loop.
use kube_forwarding_proxy.Base.{
  ℕ, ◌≡◌, refl, sym, inl, inr, Bool, true, false, ◌||◌, Option, some, List, [], map, Text, arith,
  All, All-append, Option-cases, subst,
}
use kube_forwarding_proxy.Vip.Address.{Ip, NetText}
use kube_forwarding_proxy.Vip.Interface.{InterfaceAddressManager}
use kube_forwarding_proxy.Vip.Allocator.{Allocator, lookup_vip}
use kube_forwarding_proxy.Vip.Allocator.Invariant.{IsValid}
use kube_forwarding_proxy.Proxy.Cluster.{ClusterHost, parse_cluster_host}
use kube_forwarding_proxy.K8s.Resolver.{Resolver}
use kube_forwarding_proxy.Dns.Server.{ContextVip, trim_dot, lookup_txt, lookup_srv}
use kube_forwarding_proxy.Dns.Resolution.{DnsState, resolve_a}
use kube_forwarding_proxy.Dns.Resolution.Answers.{IsAnswered, resolve_a-IsAnswered}
use kube_forwarding_proxy.Dns.Messages.{
  QType, type_a, type_aaaa, type_cname, type_mx, type_txt, type_srv, type_ns, type_ptr, other_type,
  Rr, a_record, answer_lookup,
}
use kube_forwarding_proxy.Dns.Messages.Cluster.Records.{
  is_a, is_informative, count_a, IsHeldRecord, count_a-append, count_a-a_record, IsPlain,
  txt_record-IsPlain, srv_answers-IsPlain, count_a-plain, plain-held, a_record-held, held-kept,
}
use kube_forwarding_proxy.Dns.Messages.Cluster.{
  ClusterRun, answer_a, answer_informative, cluster_question,
}

module _ (net : NetText) (m : InterfaceAddressManager) (domain : Text)
    (listen : Text → ℕ → Option ℕ) where
  open net use {ip_string}

  -- What a run of the loop may be relied on for, from the allocator `a`.
  pub record IsRunning (a : Allocator) (run : ClusterRun net m domain listen) : Type 0 where
    pub valid : IsValid net run.state.allocator
    pub kept :
        (j : Text) (ip : Ip) → lookup_vip j a ≡ some ip → lookup_vip j run.state.allocator ≡ some ip
    pub counted : run.a_answer_count ≡ count_a run.msg.answer
    pub held : All (IsHeldRecord run.state.allocator) run.msg.answer

  -- One question's step, which returns.
  pub record Steps (t : QType) (run : ClusterRun net m domain listen)
      (answer : Option (ClusterRun net m domain listen)) : Type 0 where
    pub outcome : ClusterRun net m domain listen
    pub total : answer ≡ some outcome
    pub running : IsRunning run.state.allocator outcome
    pub had_a : outcome.had_type_a ≡ (is_a t || run.had_type_a)
    pub rcode : is_informative t ≡ false → outcome.msg.rcode ≡ run.msg.rcode

  resolve_a-returns :
      (name : Text) (clock : Text → ℕ) (st : DnsState net m)
      → IsValid net st.allocator
      → (st' : DnsState net m) × (vips : List ContextVip) × (resolve_a net m domain name clock
            listen st
          ≡ some (st', vips))
        × (h : ClusterHost) × IsAnswered net m h st.allocator st' vips
  unfolding resolve_a
  resolve_a-returns name clock st v =
      elim (Option-cases (parse_cluster_host (trim_dot name) domain)) [
        | inl none_parsed ↦ (
          st,
          [],
          rw (none_parsed, resolve_a) refl,
          record { pod_name = []; svc_name = []; namespace = []; context_name = [] },
          record { valid = v; kept = λ j ip e. e; held = tt },
        )
        | inr (h, parsed) ↦
            let (st', vips, total, answered) =
              resolve_a-IsAnswered net m domain name h clock listen st v parsed in
            (st', vips, total, h, answered)
      ]

  answer_a-Steps :
      (name : Text) (run : ClusterRun net m domain listen) (a : Allocator) (h : ClusterHost)
      (st : DnsState net m) (vips : List ContextVip)
      → IsRunning a run
      → IsAnswered net m h run.state.allocator st vips
      → Steps type_a run (answer_a net m domain listen name (some (st, vips)) run)
  unfolding answer_a
  answer_a-Steps name run a h st vips r answered =
      let answers = map (a_record name) vips in
      record {
        outcome = _;
        total = refl;
        running = record {
          valid = answered.valid;
          kept = answered.kept;
          counted =
              omega (
                arith,
                r.counted,
                count_a-append run.msg.answer answers,
                count_a-a_record name vips,
              );
          held =
              All-append _ run.msg.answer answers
                (held-kept run.state.allocator st.allocator run.msg.answer answered.kept r.held)
                (a_record-held st.allocator h name vips answered.held);
        };
        had_a = refl;
        rcode = λ e. refl;
      }

  answer_informative-Steps :
      (t : QType) (records : List ContextVip → List Rr) (x : Resolver × List ContextVip × Bool)
      (run : ClusterRun net m domain listen)
      → (a : Allocator) → IsRunning a run
      → ((vips : List ContextVip) → IsPlain (records vips))
      → is_a t ≡ false
      → is_informative t ≡ true
      → Steps t run (some (answer_informative net m domain listen records x run))
  unfolding answer_informative answer_lookup
  answer_informative-Steps t records (r, vips, false) run a i plain ea ei = record {
    outcome = _;
    total = refl;
    running = record { valid = i.valid; kept = λ j ip e. e; counted = i.counted; held = i.held };
    had_a = rw ea refl;
    rcode = λ e. absurd (cc);
  }
  answer_informative-Steps t records (r, vips, true) run a i plain ea ei = record {
    outcome = _;
    total = refl;
    running = record {
      valid = i.valid;
      kept = λ j ip e. e;
      counted = omega (
        arith,
        i.counted,
        count_a-append run.msg.answer (records vips),
        count_a-plain (records vips) (plain vips),
      );
      held =
          All-append _ run.msg.answer (records vips) i.held
            (plain-held run.state.allocator (records vips) (plain vips));
    };
    had_a = rw ea refl;
    rcode = λ e. absurd (cc);
  }

  other-Steps :
      (t : QType) (run : ClusterRun net m domain listen) (a : Allocator)
      → IsRunning a run
      → is_a t ≡ false
      → Steps t run (some run)
  other-Steps t run a i ea = record {
    outcome = run;
    total = refl;
    running = record { valid = i.valid; kept = λ j ip e. e; counted = i.counted; held = i.held };
    had_a = rw ea refl;
    rcode = λ e. refl;
  }

  pub cluster_question-Steps :
      (t : QType) (name : Text) (clock : Text → ℕ) (run : ClusterRun net m domain listen)
      (a : Allocator)
      → IsRunning a run
      → Steps t run (cluster_question net m domain listen t name clock run)
  unfolding cluster_question
  cluster_question-Steps type_a name clock run a i =
      let (st, vips, total, h, answered) = resolve_a-returns name clock run.state i.valid in
      subst (λ o. Steps type_a run (answer_a net m domain listen name o run)) (sym total)
        (answer_a-Steps name run a h st vips i answered)
  cluster_question-Steps type_txt name clock run a i =
      answer_informative-Steps type_txt _
        (lookup_txt domain name run.state.allocator clock run.state.resolver) run a i
        (txt_record-IsPlain ip_string name) refl refl
  cluster_question-Steps type_srv name clock run a i =
      answer_informative-Steps type_srv _
        (lookup_srv domain name run.state.allocator clock run.state.resolver) run a i
        (srv_answers-IsPlain domain name) refl refl
  cluster_question-Steps type_aaaa name clock run a i = other-Steps type_aaaa run a i refl
  cluster_question-Steps type_cname name clock run a i = other-Steps type_cname run a i refl
  cluster_question-Steps type_mx name clock run a i = other-Steps type_mx run a i refl
  cluster_question-Steps type_ns name clock run a i = other-Steps type_ns run a i refl
  cluster_question-Steps type_ptr name clock run a i = other-Steps type_ptr run a i refl
  cluster_question-Steps (other_type n) name clock run a i = other-Steps (other_type n) run a i refl
