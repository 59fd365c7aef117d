-- ===== src/Vip/Allocator/Release.antt =====
-- internal/vip/allocator.go: what callers of ReleaseVIP may rely on, and what becomes of the
-- addresses that are released.
use kube_forwarding_proxy.Base.{
  ◌≤◌, ◌≡◌, ◌≢◌, refl, sym, ap, ◌∙◌, inl, inr, true, [], none, some, Text, text_eq, arith, lookup,
  delete, lookup-delete_self, lookup-delete, ◌==◌, if◌then◌else◌, leb, Option-cases, ok, err,
}
use kube_forwarding_proxy.Vip.Address.{Ip, NetText, ip_to_uint32}
use kube_forwarding_proxy.Vip.Interface.{InterfaceAddressManager}
use kube_forwarding_proxy.Vip.Allocator.{
  Allocator, exhausted, Outcome, removal_error, release_vip, try_next, allocate_loop, allocate,
  lookup_vip, reverse_lookup,
}
use kube_forwarding_proxy.Vip.Allocator.Invariant.{IsValid, release-IsValid, ip_string-injective}
use kube_forwarding_proxy.Vip.Allocator.Allocation.{allocate_ok}

module _ (net : NetText) (m : InterfaceAddressManager) where
  open net use {ip_string}
  open m use {Iface, remove_address}

  release_tracked :
      (ip : Ip) (a : Allocator) (s : Iface) (key : Text)
      → lookup (ip_string ip) a.reverse ≡ some key
      → release_vip net m ip a s ≡ (
        record a { assigned = delete key a.assigned; reverse = delete (ip_string ip) a.reverse },
        (remove_address ip s).1,
        removal_error ip (remove_address ip s).0,
      )
  unfolding release_vip
  release_tracked ip a s key e = rw (e, release_vip)

  -- Whether or not the interface gives an address up, ReleaseVIP keeps a valid allocator valid.
  pub release_vip-IsValid :
      (ip : Ip) (a : Allocator) (s : Iface)
      → IsValid net a
      → IsValid net (release_vip net m ip a s).0
  unfolding release_vip
  release_vip-IsValid ip a s v = elim (Option-cases (lookup (ip_string ip) a.reverse)) [
    | inl missing ↦ rw (missing, release_vip) v
    | inr (key, found) ↦
        let (ip', same, held) = v.backed (ip_string ip) key found in
        rw (found, release_vip)
          (release-IsValid net a key ip v
            (held ∙ ap some (sym (ip_string-injective net ip ip' same))))
  ]

  -- ReleaseVIP of an address that a key holds, in a valid allocator: the key and the address are
  -- forgotten, every other key keeps its address, and the interface is asked once to drop it. That
  -- holds also if the interface refuses, and then its error is returned.
  pub release_held :
      (ip : Ip) (a : Allocator) (s : Iface) (key j : Text)
      → IsValid net a
      → lookup_vip key a ≡ some ip
      → let (b, t, e) = release_vip net m ip a s in
        (lookup_vip j b ≡ (if key == j then none else lookup_vip j a))
        × (reverse_lookup net m (ip_string ip) b ≡ [])
        × (t ≡ (remove_address ip s).1)
        × (e ≡ removal_error ip (remove_address ip s).0)
  unfolding lookup_vip reverse_lookup
  release_held ip a s key j v held = rw (release_tracked ip a s key (v.mirrored key ip held)) (
    lookup-delete j key a.assigned,
    rw (lookup-delete_self (ip_string ip) a.reverse, reverse_lookup),
    refl,
    refl,
  )

  -- ReleaseVIP of an address that no key holds, in a valid allocator, does nothing: the interface
  -- is not touched.
  pub release_unheld :
      (ip : Ip) (a : Allocator) (s : Iface)
      → IsValid net a
      → ((key : Text) → lookup_vip key a ≢ some ip)
      → release_vip net m ip a s ≡ (a, s, none)
  unfolding lookup_vip release_vip
  release_unheld ip a s v unheld = elim (Option-cases (lookup (ip_string ip) a.reverse)) [
    | inl missing ↦ rw (missing, release_vip)
    | inr (key, found) ↦
        let (ip', same, held) = v.backed (ip_string ip) key found in
        absurd (unheld key (held ∙ ap some (sym (ip_string-injective net ip ip' same))))
  ]

  release_range :
      (ip : Ip) (a : Allocator) (s : Iface)
      → ((release_vip net m ip a s).0.next ≡ a.next) × ((release_vip net m ip a s).0.max ≡ a.max)
  unfolding release_vip
  release_range ip a s = elim (Option-cases (lookup (ip_string ip) a.reverse)) [
    | inl missing ↦ rw (missing, release_vip) (refl, refl)
    | inr (key, found) ↦ rw (found, release_vip) (refl, refl)
  ]

  -- An address that a key of a valid allocator held is not handed out right after its release:
  -- what Allocate then gives a key without an address is another one.
  pub release-allocate_ne :
      (ip new : Ip) (a : Allocator) (s t : Iface) (key other : Text) (o : Outcome Iface)
      → IsValid net a
      → lookup_vip key a ≡ some ip
      → lookup_vip other (release_vip net m ip a s).0 ≡ none
      → allocate net m other (release_vip net m ip a s).0 t ≡ some o
      → o.result ≡ ok new
      → new ≢ ip
  unfolding lookup_vip
  release-allocate_ne ip new a s t key other o v held free e r same =
      let b = (release_vip net m ip a s).0 in
      let law = allocate_ok net m other b t o new other (release_vip-IsValid ip a s v) free e r in
      omega (arith, law.1, (release_range ip a s).0, v.handed_out key ip held, ap ip_to_uint32 same)

  -- Once the next candidate has reached the end of the range, releasing an address frees nothing:
  -- Allocate still fails for every key without an address.
  pub release-exhausted :
      (ip : Ip) (a : Allocator) (s t : Iface) (other : Text)
      → a.max ≤ a.next
      → lookup_vip other (release_vip net m ip a s).0 ≡ none
      → allocate net m other (release_vip net m ip a s).0 t
        ≡ some
            (record { allocator = (release_vip net m ip a s).0; iface = t; result = err exhausted })
  unfolding lookup_vip allocate try_next
  release-exhausted ip a s t other full free =
      let b = (release_vip net m ip a s).0 in
      let still : leb b.max b.next ≡ true =
        ground (arith, (release_range ip a s).0, (release_range ip a s).1) in
      rw (free, allocate) (rw (still, allocate_loop, try_next))
