-- ===== src/Dns/Messages.antt =====
-- internal/dns/server.go: the messages of handleCluster, handleDefault and forwardToUpstream. A reply
-- holds what the handlers set; the id and the question are those of SetReply, and every record's
-- class is IN. `ip_string` is net's.
pub mod Cluster
pub mod Upstream
pub mod Targets
pub mod Routing
use kube_forwarding_proxy.Base.{
  ℕ, ◌%◌, ◌≡◌, Bool, true, false, ◌&&◌, ◌||◌, not, Option, none, some, List, [], ◌∷◌, ◌++◌, map,
  Text, text_beq, if◌then◌else◌, nat_beq,
}
use kube_forwarding_proxy.Vip.Address.{Ip}
use kube_forwarding_proxy.Proxy.Cluster.{ClusterHost, parse_cluster_host}
use kube_forwarding_proxy.K8s.Resolver.{ServicePort}
use kube_forwarding_proxy.Dns.Server.{ContextVip, trim_dot, context_fqdn}

pub data QType : Type 0 where
  type_a type_aaaa type_cname type_mx type_txt type_srv type_ns type_ptr : QType
  other_type : ℕ → QType

pub record Question : Type 0 where
  pub name : Text
  pub qtype : QType

pub data RData : Type 0 where
  rd_a : Ip → RData
  rd_aaaa : Ip → RData
  rd_cname : Text → RData
  rd_mx : ℕ → Text → RData
  rd_txt : List Text → RData
  rd_srv : ℕ → Text → RData
  rd_ns : Text → RData
  rd_ptr : Text → RData

-- An SRV's priority and weight are 0.
pub record Rr : Type 0 where
  pub name : Text
  pub rrtype : QType
  pub ttl : ℕ
  pub rdata : RData

pub data Rcode : Type 0 where
  success name_error : Rcode

pub record Msg : Type 0 where
  pub authoritative : Bool
  pub recursion_available : Bool
  pub rcode : Rcode
  pub answer : List Rr
  pub extra : List Rr

abbrev pub reply : Msg
reply = record {
  authoritative = false;
  recursion_available = false;
  rcode = success;
  answer = [];
  extra = [];
}

-- "ip=" and " context=" of the TXT records.
abbrev pub ip_label : Text
ip_label = b'i' ∷ b'p' ∷ b'=' ∷ []

abbrev pub context_label : Text
context_label = b' ' ∷ b'c' ∷ b'o' ∷ b'n' ∷ b't' ∷ b'e' ∷ b'x' ∷ b't' ∷ b'=' ∷ []

unfoldable pub a_record : Text → ContextVip → Rr
a_record name v = record { name = name; rrtype = type_a; ttl = 5; rdata = rd_a v.ip }

unfoldable pub txt_record : (Ip → Text) → Text → ContextVip → Rr
txt_record ip_string name v = record {
  name = name;
  rrtype = type_txt;
  ttl = 5;
  rdata = rd_txt ((ip_label ++ (ip_string v.ip ++ (context_label ++ v.context_name))) ∷ []);
}

-- uint16(port.Port), and no record for the port 0.
unfoldable pub srv_records : Text → Text → List ServicePort → List Rr
srv_records name target [] = []
srv_records name target (p ∷ ps) =
    let rest = srv_records name target ps in
    if nat_beq p.port 0
    then rest
    else record { name = name; rrtype = type_srv; ttl = 5; rdata = rd_srv (p.port % 65536) target }
      ∷ rest

-- An A question's extra records, VIP by VIP: its TXT record and its SRV records.
unfoldable pub extra_records : Text → (Ip → Text) → Text → List ContextVip → List Rr
unfolding txt_record srv_records
extra_records cluster_domain ip_string name [] = []
extra_records cluster_domain ip_string name (v ∷ vs) =
    txt_record ip_string name v
    ∷ (srv_records name (context_fqdn cluster_domain name v.context_name) v.ports
        ++ extra_records cluster_domain ip_string name vs)

-- An SRV question's answers.
unfoldable pub srv_answers : Text → Text → List ContextVip → List Rr
unfolding srv_records
srv_answers cluster_domain name [] = []
srv_answers cluster_domain name (v ∷ vs) =
    srv_records name (context_fqdn cluster_domain name v.context_name) v.ports
    ++ srv_answers cluster_domain name vs

-- The answers of an informative lookup, or NXDOMAIN.
unfoldable pub answer_lookup : List Rr → Bool → Msg → Msg
answer_lookup records false msg = record msg { rcode = name_error }
answer_lookup records true msg = record msg { answer = msg.answer ++ records }

-- Whether a question is an A, a TXT or an SRV question for a name with a context.
unfoldable pub asks_cluster : QType → Bool
asks_cluster type_a = true
asks_cluster type_txt = true
asks_cluster type_srv = true
asks_cluster _ = false

unfoldable pub has_context : Option ClusterHost → Bool
has_context none = false
has_context (some h) = not (text_beq h.context_name [])

unfoldable pub is_cluster_question : Text → Question → Bool
unfolding asks_cluster has_context trim_dot
is_cluster_question cluster_domain q =
    asks_cluster q.qtype && has_context (parse_cluster_host (trim_dot q.name) cluster_domain)

-- handleDefault's second loop: whether the message goes to handleCluster.
unfoldable pub is_cluster_message : Text → List Question → Bool
unfolding is_cluster_question
is_cluster_message cluster_domain [] = false
is_cluster_message cluster_domain (q ∷ qs) =
    let rest = is_cluster_message cluster_domain qs in
    if is_cluster_question cluster_domain q then true else rest
