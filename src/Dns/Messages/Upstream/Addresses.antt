-- ===== src/Dns/Messages/Upstream/Addresses.antt =====
-- internal/dns/server.go: the addresses that forwardToUpstream answers.
use mathlib.Core.List.{Memᴰ}
use mathlib.Core.List.Memᴰ
use kube_forwarding_proxy.Base.{
  ℕ, ◌≡◌, ◌↔◌, sym, ap, inl, inr, List, [], ◌∷◌, map, Text, subst, arith,
}
use kube_forwarding_proxy.Vip.Address.{Ip, ip4, ip6}
use kube_forwarding_proxy.Dns.Server.{trim_dot}
use kube_forwarding_proxy.Dns.Messages.{
  QType, type_a, type_aaaa, Question, RData, rd_a, rd_aaaa, Rr,
}
use kube_forwarding_proxy.Dns.Messages.Upstream.{
  Upstream, only_ip4, only_ip6, upstream_data, upstream_answers, forward_to_upstream,
}

abbrev pub IsIp4 : Ip → Type 0
IsIp4 ip = (a : ℕ) × (b : ℕ) × (c : ℕ) × (d : ℕ) × (ip ≡ ip4 a b c d)

abbrev pub IsIp6 : Ip → Type 0
IsIp6 ip = (t : Text) × (ip ≡ ip6 t)

-- A question for a name and a type, to which the resolver answers an address.
abbrev pub IsAskedFor : List (Question × Upstream) → Text → QType → Ip → Type 0
IsAskedFor qs name t ip =
    (up : Upstream) × Memᴰ (record { name = name; qtype = t }, up) qs
    × Memᴰ ip (up.lookup_ip_addr (trim_dot name))

only_ip4_iff : (ips : List Ip) (ip : Ip) → Memᴰ ip (only_ip4 ips) ↔ (IsIp4 ip × Memᴰ ip ips)
unfolding only_ip4
only_ip4_iff [] ip = (λ m. absurd (Memᴰ.not-nil m), λ (f, m). m)
only_ip4_iff (ip4 a b c d ∷ ips) ip = (
  λ m. elim (Memᴰ.cases_cons m) [
    | inl e ↦ ((a, b, c, d, e), Memᴰ.head e)
    | inr m' ↦ let (f, k) = (only_ip4_iff ips ip).0 m' in (f, Memᴰ.tail k)
  ],
  λ (f, m). elim (Memᴰ.cases_cons m) [
    | inl e ↦ Memᴰ.head e
    | inr m' ↦ Memᴰ.tail ((only_ip4_iff ips ip).1 (f, m'))
  ],
)
only_ip4_iff (ip6 t ∷ ips) ip = (
  λ m. let (f, k) = (only_ip4_iff ips ip).0 m in (f, Memᴰ.tail k),
  λ (f, m). elim (Memᴰ.cases_cons m) [
    | inl e ↦ absurd (let (a, b, c, d, e') = f in cc)
    | inr m' ↦ (only_ip4_iff ips ip).1 (f, m')
  ],
)

only_ip6_iff : (ips : List Ip) (ip : Ip) → Memᴰ ip (only_ip6 ips) ↔ (IsIp6 ip × Memᴰ ip ips)
unfolding only_ip6
only_ip6_iff [] ip = (λ m. absurd (Memᴰ.not-nil m), λ (f, m). m)
only_ip6_iff (ip6 t ∷ ips) ip = (
  λ m. elim (Memᴰ.cases_cons m) [
    | inl e ↦ ((t, e), Memᴰ.head e)
    | inr m' ↦ let (f, k) = (only_ip6_iff ips ip).0 m' in (f, Memᴰ.tail k)
  ],
  λ (f, m). elim (Memᴰ.cases_cons m) [
    | inl e ↦ Memᴰ.head e
    | inr m' ↦ Memᴰ.tail ((only_ip6_iff ips ip).1 (f, m'))
  ],
)
only_ip6_iff (ip4 a b c d ∷ ips) ip = (
  λ m. let (f, k) = (only_ip6_iff ips ip).0 m in (f, Memᴰ.tail k),
  λ (f, m). elim (Memᴰ.cases_cons m) [
    | inl e ↦ absurd (let (t, e') = f in cc)
    | inr m' ↦ (only_ip6_iff ips ip).1 (f, m')
  ],
)

abbrev record_of : Question → RData → Rr
record_of q d = record { name = q.name; rrtype = q.qtype; ttl = 60; rdata = d }

-- The records of a reply, by the questions that they answer.
answers_iff :
    (qs : List (Question × Upstream)) (q : Question) (d : RData)
    → Memᴰ (record_of q d) (upstream_answers qs)
      ↔ ((up : Upstream) × Memᴰ (q, up) qs × Memᴰ d (upstream_data up q.qtype (trim_dot q.name)))
unfolding upstream_answers
answers_iff [] q d = (λ m. absurd (Memᴰ.not-nil m), λ (up, m, k). absurd (Memᴰ.not-nil m))
answers_iff ((p, up) ∷ qs) q d =
    let data_of : Upstream → Question → List RData =
      λ u x. upstream_data u x.qtype (trim_dot x.name) in
    (
      λ m. elim (Memᴰ.append_cases (map (record_of p) (data_of up p)) m) [
        | inl here ↦
            let (d', k, e) = Memᴰ.of_map (record_of p) (data_of up p) here in
            let same : p ≡ q = ground (arith, ap (λ r. r.name) e, ap (λ r. r.rrtype) e) in
            let same_data : d' ≡ d = ap (λ r. r.rdata) e in
            (
              up,
              Memᴰ.head (ap (λ x. (x, up)) (sym same)),
              subst (λ x. Memᴰ d (data_of up x)) same (Memᴰ.cast (sym same_data) k),
            )
        | inr there ↦ let (u, k, l) = (answers_iff qs q d).0 there in (u, Memᴰ.tail k, l)
      ],
      λ (u, m, k). elim (Memᴰ.cases_cons m) [
        | inl e ↦
            let same : q ≡ p = ap (λ x. x.0) e in
            let same_up : u ≡ up = ap (λ x. x.1) e in
            let k' : Memᴰ d (data_of up p) =
              subst (λ x. Memᴰ d (data_of up x)) same
                (subst (λ x. Memᴰ d (data_of x q)) same_up k) in
            Memᴰ.append_left _
              (Memᴰ.cast (ap (λ x. record_of x d) same) (Memᴰ.map (record_of p) k'))
        | inr m' ↦
            Memᴰ.append_right (map (record_of p) (data_of up p)) ((answers_iff qs q d).1 (u, m', k))
      ],
    )

-- Whatever the resolver answers to each question: a reply from upstream has the A record of an
-- address for a name exactly where the address has a four-byte form and the resolver answers it to
-- an A question of the message for that name; and the AAAA record of an address exactly where the
-- address has no four-byte form and the resolver answers it to an AAAA question for that name.
pub forward_to_upstream-addresses :
    (qs : List (Question × Upstream)) (name : Text) (ip : Ip)
    → let answer = (forward_to_upstream qs).answer in
      (Memᴰ (record { name = name; rrtype = type_a; ttl = 60; rdata = rd_a ip }) answer
        ↔ (IsIp4 ip × IsAskedFor qs name type_a ip))
      × (Memᴰ (record { name = name; rrtype = type_aaaa; ttl = 60; rdata = rd_aaaa ip }) answer
          ↔ (IsIp6 ip × IsAskedFor qs name type_aaaa ip))
unfolding forward_to_upstream upstream_data
forward_to_upstream-addresses qs name ip =
    let a = answers_iff qs (record { name = name; qtype = type_a }) (rd_a ip) in
    let aaaa = answers_iff qs (record { name = name; qtype = type_aaaa }) (rd_aaaa ip) in
    (
      (
        λ m.
            let (up, asked, found) = a.0 m in
            let ips = up.lookup_ip_addr (trim_dot name) in
            let (i, k, e) = Memᴰ.of_map rd_a (only_ip4 ips) found in
            let same : ip ≡ i = cc in
            let (form, held) = (only_ip4_iff ips ip).0 (Memᴰ.cast same k) in
            (form, (up, asked, held)),
        λ (form, (up, asked, held)).
            let ips = up.lookup_ip_addr (trim_dot name) in
            a.1 (up, asked, Memᴰ.map rd_a ((only_ip4_iff ips ip).1 (form, held))),
      ),
      (
        λ m.
            let (up, asked, found) = aaaa.0 m in
            let ips = up.lookup_ip_addr (trim_dot name) in
            let (i, k, e) = Memᴰ.of_map rd_aaaa (only_ip6 ips) found in
            let same : ip ≡ i = cc in
            let (form, held) = (only_ip6_iff ips ip).0 (Memᴰ.cast same k) in
            (form, (up, asked, held)),
        λ (form, (up, asked, held)).
            let ips = up.lookup_ip_addr (trim_dot name) in
            aaaa.1 (up, asked, Memᴰ.map rd_aaaa ((only_ip6_iff ips ip).1 (form, held))),
      ),
    )
