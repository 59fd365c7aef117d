-- ===== src/Dns/Messages/Cluster/Replies.antt =====
-- internal/dns/server.go: what a reply of handleCluster may be relied on for.
use kube_forwarding_proxy.Base.{
  ℕ, ◌≡◌, ◌⊎◌, refl, ◌∙◌, inl, inr, true, false, ◌&&◌, ◌||◌, Option, some, List, [], ◌∷◌, Text,
  if◌then◌else◌, nat_beq, arith, All, Bool-cases,
}
use kube_forwarding_proxy.Vip.Address.{Ip, NetText}
use kube_forwarding_proxy.Vip.Interface.{InterfaceAddressManager}
use kube_forwarding_proxy.Vip.Allocator.{Allocator, lookup_vip}
use kube_forwarding_proxy.Vip.Allocator.Invariant.{IsValid}
use kube_forwarding_proxy.Dns.Resolution.{DnsState}
use kube_forwarding_proxy.Dns.Messages.{Rcode, success, name_error, Msg, reply}
use kube_forwarding_proxy.Dns.Messages.Cluster.Records.{
  is_a, is_informative, any_question, count_a, IsHeldRecord,
}
use kube_forwarding_proxy.Dns.Messages.Cluster.Steps.{IsRunning, cluster_question-Steps}
use kube_forwarding_proxy.Dns.Messages.Cluster.{
  Asked, ClusterRun, then_answer, cluster_questions, finish_reply, written, handle_cluster,
}

module _ (net : NetText) (m : InterfaceAddressManager) (domain : Text)
    (listen : Text → ℕ → Option ℕ) where
  -- The loop.
  record Answers (qs : List Asked) (run : ClusterRun net m domain listen)
      (answer : Option (ClusterRun net m domain listen)) : Type 0 where
    outcome : ClusterRun net m domain listen
    total : answer ≡ some outcome
    running : IsRunning net m domain listen run.state.allocator outcome
    had_a : outcome.had_type_a ≡ (any_question is_a qs || run.had_type_a)
    rcode : any_question is_informative qs ≡ false → outcome.msg.rcode ≡ run.msg.rcode

  cluster_questions-Answers :
      (qs : List Asked) (run : ClusterRun net m domain listen) (a : Allocator)
      → IsRunning net m domain listen a run
      → Answers qs run (cluster_questions net m domain listen qs run)
  unfolding cluster_questions then_answer
  cluster_questions-Answers [] run a i = record {
    outcome = run;
    total = refl;
    running = record { valid = i.valid; kept = λ j ip e. e; counted = i.counted; held = i.held };
    had_a = refl;
    rcode = λ e. refl;
  }
  cluster_questions-Answers (q ∷ qs) run a i =
      let t = q.question.qtype in
      let first = cluster_question-Steps net m domain listen t q.question.name q.clock run a i in
      let rest = cluster_questions-Answers qs first.outcome run.state.allocator first.running in
      record {
        outcome = rest.outcome;
        total = rw first.total rest.total;
        running = record {
          valid = rest.running.valid;
          kept = λ j ip e. rest.running.kept j ip (first.running.kept j ip e);
          counted = rest.running.counted;
          held = rest.running.held;
        };
        had_a = ground (arith, rest.had_a, first.had_a);
        rcode = λ e. rest.rcode (ground arith) ∙ first.rcode (ground arith);
      }

  -- A reply, from the allocator `a`.
  pub record IsReply (qs : List Asked) (a : Allocator) (st : DnsState net m) (msg : Msg)
      : Type 0 where
    pub valid : IsValid net st.allocator
    pub kept : (j : Text) (ip : Ip) → lookup_vip j a ≡ some ip → lookup_vip j st.allocator ≡ some ip
    pub held : All (IsHeldRecord st.allocator) msg.answer
    -- The code that the TXT and SRV questions leave.
    pub base_rcode : Rcode
    pub rcode : msg.rcode ≡ (
        if any_question is_a qs && nat_beq (count_a msg.answer) 0 then name_error else base_rcode)
    pub base_is_success : (any_question is_informative qs ≡ true) ⊎ (base_rcode ≡ success)

  finish_reply-IsReply :
      (qs : List Asked) (run : ClusterRun net m domain listen) (a : Allocator)
      → IsRunning net m domain listen a run
      → run.had_type_a ≡ any_question is_a qs
      → (any_question is_informative qs ≡ true) ⊎ (run.msg.rcode ≡ success)
      → IsReply qs a run.state (finish_reply net m domain listen run)
  unfolding finish_reply
  finish_reply-IsReply qs run a i had plain =
      elim (Bool-cases (run.had_type_a && nat_beq run.a_answer_count 0)) [
        | inl e ↦ rw e (record {
          valid = i.valid;
          kept = i.kept;
          held = i.held;
          base_rcode = run.msg.rcode;
          rcode = ground (arith, had, i.counted);
          base_is_success = plain;
        })
        | inr e ↦ rw e (record {
          valid = i.valid;
          kept = i.kept;
          held = i.held;
          base_rcode = run.msg.rcode;
          rcode = ground (arith, had, i.counted);
          base_is_success = plain;
        })
      ]

  -- From a valid allocator handleCluster always replies, to every list of questions. It keeps the
  -- allocator valid and takes no address from any key; each address among the answers is one that the
  -- allocator then holds for a key; a message with A questions whose reply has no address among its
  -- answers is NXDOMAIN, and one without TXT and SRV questions succeeds otherwise.
  pub handle_cluster-IsReply :
      (qs : List Asked) (st : DnsState net m)
      → IsValid net st.allocator
      → (st' : DnsState net m) × (msg : Msg) × (handle_cluster net m domain listen qs st
          ≡ some (st', msg))
        × IsReply qs st.allocator st' msg
  unfolding handle_cluster written
  handle_cluster-IsReply qs st v =
      let begin : ClusterRun net m domain listen = record {
        state = st;
        msg = record reply { authoritative = true };
        had_type_a = false;
        a_answer_count = 0;
      } in
      let all =
        cluster_questions-Answers qs begin st.allocator
          (record { valid = v; kept = λ j ip e. e; counted = refl; held = tt }) in
      (
        all.outcome.state,
        finish_reply net m domain listen all.outcome,
        rw all.total refl,
        finish_reply-IsReply qs all.outcome st.allocator all.running (ground (arith, all.had_a))
            (elim (Bool-cases (any_question is_informative qs)) [
              | inl e ↦ inl e
              | inr e ↦ inr (all.rcode e)
            ]),
      )
