-- ===== src/Dns/Messages/Cluster.antt =====
-- internal/dns/server.go: handleCluster and handleDefault over the state of the server. Each question
-- comes with the moments at which it asks for a context, and with the upstream resolver as it answers
-- then. `none` is a run of Allocate out of fuel.
pub mod Records
pub mod Steps
pub mod Replies
use kube_forwarding_proxy.Base.{
  ℕ, ◌+◌, Bool, true, false, ◌&&◌, Option, none, some, List, [], ◌∷◌, ◌++◌, map, Text,
  if◌then◌else◌, nat_beq, length,
}
use kube_forwarding_proxy.Vip.Address.{NetText}
use kube_forwarding_proxy.Vip.Interface.{InterfaceAddressManager}
use kube_forwarding_proxy.K8s.Resolver.{Resolver}
use kube_forwarding_proxy.Dns.Server.{ContextVip, lookup_txt, lookup_srv}
use kube_forwarding_proxy.Dns.Resolution.{DnsState, resolve_a}
use kube_forwarding_proxy.Dns.Messages.{
  QType, type_a, type_txt, type_srv, Question, Rr, Msg, reply, name_error, a_record, txt_record,
  extra_records, srv_answers, answer_lookup, is_cluster_message,
}
use kube_forwarding_proxy.Dns.Messages.Upstream.{Upstream, forward_to_upstream}

pub record Asked : Type 0 where
  pub question : Question
  pub clock : Text → ℕ
  pub upstream : Upstream

module _ (net : NetText) (m : InterfaceAddressManager) (cluster_domain : Text)
    (listen : Text → ℕ → Option ℕ) where
  open net use {ip_string}

  pub record ClusterRun : Type 0 where
    pub state : DnsState net m
    pub msg : Msg
    pub had_type_a : Bool
    pub a_answer_count : ℕ

  unfoldable pub answer_a :
      Text → Option (DnsState net m × List ContextVip) → ClusterRun → Option ClusterRun
  unfolding a_record extra_records
  answer_a name none run = none
  answer_a name (some (st, vips)) run = some (record {
    state = st;
    had_type_a = true;
    a_answer_count = run.a_answer_count + length vips;
    msg = record run.msg {
      answer = run.msg.answer ++ map (a_record name) vips;
      extra = run.msg.extra ++ extra_records cluster_domain ip_string name vips;
    };
  })

  unfoldable pub answer_informative :
      (List ContextVip → List Rr) → Resolver × List ContextVip × Bool → ClusterRun → ClusterRun
  unfolding answer_lookup
  answer_informative records (r, vips, service_exists) run = record run {
    state = record run.state { resolver = r };
    msg = answer_lookup (records vips) service_exists run.msg;
  }

  unfoldable pub cluster_question : QType → Text → (Text → ℕ) → ClusterRun → Option ClusterRun
  unfolding answer_a answer_informative txt_record srv_answers
  cluster_question type_a name clock run =
      answer_a name (resolve_a net m cluster_domain name clock listen run.state) run
  cluster_question type_txt name clock run = some (
      answer_informative (map (txt_record ip_string name))
        (lookup_txt cluster_domain name run.state.allocator clock run.state.resolver) run)
  cluster_question type_srv name clock run = some (
      answer_informative (srv_answers cluster_domain name)
        (lookup_srv cluster_domain name run.state.allocator clock run.state.resolver) run)
  cluster_question _ name clock run = some run

  unfoldable pub then_answer :
      Option ClusterRun → (ClusterRun → Option ClusterRun) → Option ClusterRun
  then_answer none rest = none
  then_answer (some run) rest = rest run

  unfoldable pub cluster_questions : List Asked → ClusterRun → Option ClusterRun
  unfolding cluster_question then_answer
  cluster_questions [] run = some run
  cluster_questions (q ∷ qs) run =
      then_answer (cluster_question q.question.qtype q.question.name q.clock run)
        (cluster_questions qs)

  -- Behind the loop: NXDOMAIN where A questions have no answer at all.
  unfoldable pub finish_reply : ClusterRun → Msg
  finish_reply run =
      if run.had_type_a && nat_beq run.a_answer_count 0
      then record run.msg { rcode = name_error }
      else run.msg

  unfoldable pub written : Option ClusterRun → Option (DnsState net m × Msg)
  unfolding finish_reply
  written none = none
  written (some run) = some (run.state, finish_reply run)

  unfoldable pub handle_cluster : List Asked → DnsState net m → Option (DnsState net m × Msg)
  unfolding cluster_questions written
  handle_cluster qs st = written (
      cluster_questions qs (record {
        state = st;
        msg = record reply { authoritative = true };
        had_type_a = false;
        a_answer_count = 0;
      }))

  unfoldable pub handle_default : List Asked → DnsState net m → Option (DnsState net m × Msg)
  unfolding handle_cluster is_cluster_message forward_to_upstream
  handle_default qs st =
      let questions = map (λ q. q.question) qs in
      let answered = handle_cluster qs st in
      if is_cluster_message cluster_domain questions
      then answered
      else some (st, forward_to_upstream (map (λ q. (q.question, q.upstream)) qs))
