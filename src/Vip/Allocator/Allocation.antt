-- ===== src/Vip/Allocator/Allocation.antt =====
-- internal/vip/allocator.go: what callers of Allocate may rely on.
use mathlib.Core.Option.{some-injective}
use kube_forwarding_proxy.Base.{
  ◌≤◌, ◌<◌, ◌≡◌, refl, sym, ap, ◌∙◌, inl, inr, none, some, Text, text_eq, arith, lookup,
  lookup-insert_self, lookup-insert, beq_self, ◌==◌, if◌then◌else◌, Option-cases, Result, ok, err,
  subst,
}
use kube_forwarding_proxy.Vip.Address.{Ip, NetText, ip_to_uint32}
use kube_forwarding_proxy.Vip.Interface.{InterfaceAddressManager}
use kube_forwarding_proxy.Vip.Allocator.{
  Allocator, AllocatorError, exhausted, Outcome, allocate, lookup_vip, reverse_lookup,
}
use kube_forwarding_proxy.Vip.Allocator.Invariant.{IsValid}
use kube_forwarding_proxy.Vip.Allocator.Loop.{Settled, Advances, allocate-Allocates}

module _ (net : NetText) (m : InterfaceAddressManager) where
  open net use {ip_string}
  open m use {Iface}

  -- A key that has an address keeps it: nothing changes.
  pub allocate_held :
      (key : Text) (a : Allocator) (s : Iface) (ip : Ip)
      → lookup key a.assigned ≡ some ip
      → allocate net m key a s ≡ some (record { allocator = a; iface = s; result = ok ip })
  unfolding allocate
  allocate_held key a s ip e = rw (e, allocate)

  -- From a valid allocator, Allocate returns for every key, and keeps the allocator valid whatever
  -- the interface answers. The range stays, and the next candidate never moves back.
  pub allocate-IsValid :
      (key : Text) (a : Allocator) (s : Iface)
      → IsValid net a
      → (o : Outcome Iface) × (allocate net m key a s ≡ some o)
        × IsValid net o.allocator
        × Advances net a o.allocator
  allocate-IsValid key a s v = elim (Option-cases (lookup key a.assigned)) [
    | inl new ↦
        let r = allocate-Allocates net m key a s v new in (r.outcome, r.total, r.valid, r.advanced)
    | inr (ip, held) ↦ (
      record { allocator = a; iface = s; result = ok ip },
      allocate_held key a s ip held,
      v,
      record { same_base = refl; same_max = refl; forward = omega arith },
    )
  ]

  -- What the two lookups say of `key` and of `j` behind a successful call.
  pub record IsTracked (key : Text) (ip : Ip) (a b : Allocator) (j : Text) : Type 0 where
    pub found : lookup_vip j b ≡ (if key == j then some ip else lookup_vip j a)
    pub found_back : reverse_lookup net m (ip_string ip) b ≡ key

  ok_result-IsTracked :
      (key : Text) (ip : Ip) (a b : Allocator) (r : Result AllocatorError Ip) (j : Text)
      → r ≡ ok ip
      → Settled net key a b r
      → IsTracked key ip a b j
  unfolding lookup_vip reverse_lookup
  ok_result-IsTracked key ip a b (ok ip') j e (p, q, _, _) =
      let same : ip' ≡ ip = cc in
      let back : lookup (ip_string ip) b.reverse ≡ some key =
        ap (λ i. lookup (ip_string i) b.reverse) (sym same)
        ∙ (ap (lookup (ip_string ip')) q ∙ lookup-insert_self (ip_string ip') key a.reverse) in
      record {
        found =
            ap (lookup j) p
            ∙ (lookup-insert j key ip' a.assigned
                ∙ ap (λ i. if key == j then some i else lookup j a.assigned) same);
        found_back = rw (back, reverse_lookup);
      }
  ok_result-IsTracked key ip a b (err x) j e h = absurd (cc)

  -- The outcome of a call for a key that has no address.
  allocates_outcome :
      (key : Text) (a : Allocator) (s : Iface) (o : Outcome Iface)
      → IsValid net a
      → lookup_vip key a ≡ none
      → allocate net m key a s ≡ some o
      → Settled net key a o.allocator o.result × Advances net a o.allocator
  unfolding lookup_vip
  allocates_outcome key a s o v new e =
      let r = allocate-Allocates net m key a s v new in
      subst (λ t. Settled net key a t.allocator t.result × Advances net a t.allocator)
        (some-injective _ _ (sym r.total ∙ e)) (r.settled, r.advanced)

  -- A successful Allocate, from a valid allocator, for a key with no address: Lookup and
  -- ReverseLookup then agree on the key and its address, no other key's address changes, and the
  -- address lies in the range, at or behind the old next candidate.
  pub allocate_ok :
      (key : Text) (a : Allocator) (s : Iface) (o : Outcome Iface) (ip : Ip) (j : Text)
      → IsValid net a
      → lookup_vip key a ≡ none
      → allocate net m key a s ≡ some o
      → o.result ≡ ok ip
      → IsTracked key ip a o.allocator j × (a.next ≤ ip_to_uint32 ip) × (ip_to_uint32 ip < a.max)
  allocate_ok key a s o ip j v new e r =
      let (settled, _) = allocates_outcome key a s o v new e in
      let settled' = subst (Settled net key a o.allocator) r settled in
      (ok_result-IsTracked key ip a o.allocator o.result j r settled, settled'.2, settled'.3)

  -- A failed Allocate, from a valid allocator, for a key with no address leaves every key's
  -- address, and every address's key, as it was.
  pub allocate_err :
      (key : Text) (a : Allocator) (s : Iface) (o : Outcome Iface) (x : AllocatorError) (j t : Text)
      → IsValid net a
      → lookup_vip key a ≡ none
      → allocate net m key a s ≡ some o
      → o.result ≡ err x
      → (lookup_vip j o.allocator ≡ lookup_vip j a)
        × (reverse_lookup net m t o.allocator ≡ reverse_lookup net m t a)
  unfolding lookup_vip reverse_lookup
  allocate_err key a s o x j t v new e r =
      let (settled, _) = allocates_outcome key a s o v new e in
      let (p, q, _) = subst (Settled net key a o.allocator) r settled in
      (ap (lookup j) p, ap (λ rev. reverse_lookup net m t (record a { reverse = rev })) q)

  -- From a valid allocator and for a key with no address, Allocate says that the range is
  -- exhausted only when the next candidate has reached its end.
  pub allocate_exhausted :
      (key : Text) (a : Allocator) (s : Iface) (o : Outcome Iface)
      → IsValid net a
      → lookup_vip key a ≡ none
      → allocate net m key a s ≡ some o
      → o.result ≡ err exhausted
      → a.max ≤ o.allocator.next
  allocate_exhausted key a s o v new e r =
      let (settled, _) = allocates_outcome key a s o v new e in
      (subst (Settled net key a o.allocator) r settled).2 refl

  -- Allocate is idempotent on a valid allocator: after a successful call, a second call for the
  -- key returns the same address, and touches neither the allocator nor the interface.
  pub allocate_again :
      (key : Text) (a : Allocator) (s t : Iface) (o : Outcome Iface) (ip : Ip)
      → IsValid net a
      → allocate net m key a s ≡ some o
      → o.result ≡ ok ip
      → allocate net m key o.allocator t
        ≡ some (record { allocator = o.allocator; iface = t; result = ok ip })
  allocate_again key a s t o ip v e r = elim (Option-cases (lookup_vip key a)) [
    | inl new ↦ allocate_held key o.allocator t ip (
        unfold lookup_vip in
        (rw (beq_self key) at (allocate_ok key a s o ip key v new e r).0.found))
    | inr (old, held) ↦
        let kept : record { allocator = a; iface = s; result = ok old } ≡ o =
          some-injective _ _ (sym (allocate_held key a s old (unfold lookup_vip in held)) ∙ e) in
        let same : old ≡ ip = cc (ap (λ x. x.result) kept, r) in
        allocate_held key o.allocator t ip (
          ap (λ x. lookup key x.allocator.assigned) (sym kept)
          ∙ (unfold lookup_vip in held ∙ ap some same))
  ]
