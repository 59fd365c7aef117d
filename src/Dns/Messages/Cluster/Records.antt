-- ===== src/Dns/Messages/Cluster/Records.antt =====
-- internal/dns/server.go: the records of a reply, and the addresses among them.
use kube_forwarding_proxy.Base.{
  ℕ, ◌+◌, ◌≡◌, ◌≢◌, refl, ap, ◌∙◌, inl, inr, Bool, true, false, ◌||◌, some, List, [], ◌∷◌, ◌++◌,
  map, Text, nat_beq, length, arith, All, All-append, Bool-cases,
}
use kube_forwarding_proxy.Vip.Address.{Ip}
use kube_forwarding_proxy.Vip.Allocator.{Allocator, lookup_vip}
use kube_forwarding_proxy.Proxy.Cluster.{ClusterHost}
use kube_forwarding_proxy.K8s.Resolver.{ServicePort}
use kube_forwarding_proxy.Dns.Server.{ContextVip, service_key, context_fqdn}
use kube_forwarding_proxy.Dns.Messages.{
  QType, type_a, type_txt, type_srv, RData, rd_a, rd_aaaa, rd_cname, rd_mx, rd_txt, rd_srv, rd_ns,
  rd_ptr, Rr, a_record, txt_record, srv_records, srv_answers,
}
use kube_forwarding_proxy.Dns.Messages.Cluster.{Asked}

abbrev pub is_a : QType → Bool
is_a type_a = true
is_a _ = false

-- A TXT or SRV question sets the reply's code itself.
abbrev pub is_informative : QType → Bool
is_informative type_txt = true
is_informative type_srv = true
is_informative _ = false

abbrev pub any_question : (QType → Bool) → List Asked → Bool
any_question f [] = false
any_question f (q ∷ qs) = f q.question.qtype || any_question f qs

abbrev pub address_count : RData → ℕ
address_count (rd_a ip) = 1
address_count _ = 0

-- How many of the records hold an address.
abbrev pub count_a : List Rr → ℕ
count_a [] = 0
count_a (r ∷ rs) = address_count r.rdata + count_a rs

-- A record's address is one that the allocator holds for a key.
abbrev pub IsHeldRecord : Allocator → Rr → Type 0
IsHeldRecord a r = (ip : Ip) → r.rdata ≡ rd_a ip → (key : Text) × (lookup_vip key a ≡ some ip)

pub count_a-append : (xs ys : List Rr) → count_a (xs ++ ys) ≡ count_a xs + count_a ys
count_a-append [] ys = omega arith
count_a-append (x ∷ xs) ys = omega (arith, count_a-append xs ys)

pub count_a-a_record :
    (name : Text) (vips : List ContextVip) → count_a (map (a_record name) vips) ≡ length vips
unfolding a_record
count_a-a_record name [] = refl
count_a-a_record name (v ∷ vips) = omega (arith, count_a-a_record name vips)

-- Records that hold no address.
abbrev pub IsPlain : List Rr → Type 0
IsPlain rs = All (λ r. (ip : Ip) → r.rdata ≢ rd_a ip) rs

pub txt_record-IsPlain :
    (ip_string : Ip → Text) (name : Text) (vips : List ContextVip)
    → IsPlain (map (txt_record ip_string name) vips)
unfolding txt_record
txt_record-IsPlain ip_string name [] = tt
txt_record-IsPlain ip_string name (v ∷ vips) = (λ ip e. cc, txt_record-IsPlain ip_string name vips)

srv_records-IsPlain :
    (name target : Text) (ports : List ServicePort) → IsPlain (srv_records name target ports)
unfolding srv_records
srv_records-IsPlain name target [] = tt
srv_records-IsPlain name target (p ∷ ps) = elim (Bool-cases (nat_beq p.port 0)) [
  | inl e ↦ rw e (srv_records-IsPlain name target ps)
  | inr e ↦ rw e (λ ip x. cc, srv_records-IsPlain name target ps)
]

pub srv_answers-IsPlain :
    (domain name : Text) (vips : List ContextVip) → IsPlain (srv_answers domain name vips)
unfolding srv_answers
srv_answers-IsPlain domain name [] = tt
srv_answers-IsPlain domain name (v ∷ vips) =
    All-append _ (srv_records name (context_fqdn domain name v.context_name) v.ports) _
      (srv_records-IsPlain name (context_fqdn domain name v.context_name) v.ports)
      (srv_answers-IsPlain domain name vips)

plain_count : (d : RData) → ((ip : Ip) → d ≢ rd_a ip) → address_count d ≡ 0
plain_count (rd_a ip) h = absurd (h ip refl)
plain_count (rd_aaaa ip) h = refl
plain_count (rd_cname t) h = refl
plain_count (rd_mx n t) h = refl
plain_count (rd_txt ts) h = refl
plain_count (rd_srv n t) h = refl
plain_count (rd_ns t) h = refl
plain_count (rd_ptr t) h = refl

pub count_a-plain : (rs : List Rr) → IsPlain rs → count_a rs ≡ 0
count_a-plain [] h = refl
count_a-plain (r ∷ rs) (f, g) = omega (arith, plain_count r.rdata f, count_a-plain rs g)

pub plain-held : (a : Allocator) (rs : List Rr) → IsPlain rs → All (IsHeldRecord a) rs
plain-held a [] h = tt
plain-held a (r ∷ rs) (f, g) = (λ ip e. absurd (f ip e), plain-held a rs g)

pub a_record-held :
    (a : Allocator) (h : ClusterHost) (name : Text) (vips : List ContextVip)
    → All (λ v. lookup_vip (service_key v.context_name h) a ≡ some v.ip) vips
    → All (IsHeldRecord a) (map (a_record name) vips)
unfolding a_record
a_record-held a h name [] all = tt
a_record-held a h name (v ∷ vips) (f, g) = (
  λ ip e. (service_key v.context_name h, f ∙ ap some (ground arith)),
  a_record-held a h name vips g,
)

pub held-kept :
    (a b : Allocator) (rs : List Rr)
    → ((j : Text) (ip : Ip) → lookup_vip j a ≡ some ip → lookup_vip j b ≡ some ip)
    → All (IsHeldRecord a) rs
    → All (IsHeldRecord b) rs
held-kept a b [] k h = tt
held-kept a b (r ∷ rs) k (f, g) =
    (λ ip e. let (key, l) = f ip e in (key, k key ip l), held-kept a b rs k g)
