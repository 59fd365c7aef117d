-- ===== src/Vip/Allocator/Creation.antt =====
-- internal/vip/allocator.go: NewAllocator, by the network that the CIDR names.
use native.Mathlib.Nat.{pow-suc, suc-add}
use kube_forwarding_proxy.Base.{
  ℕ, zero, suc, ◌+◌, ◌-◌, ◌%◌, ◌^◌, ◌≤◌, ◌≡◌, refl, ap, ◌∙◌, Text, text_eq, arith, lookup, leb,
  false, none, some, Result, ok,
}
use kube_forwarding_proxy.Vip.Address.{ip4, ip6, NetText, u32_mod, ip_to_uint32, uint32_to_ip}
use kube_forwarding_proxy.Vip.Interface.{InterfaceAddressManager}
use kube_forwarding_proxy.Vip.Allocator.{
  Allocator, Network, Outcome, shl_one, allocator_of, new_allocator, after_add, try_next,
  allocate_loop, allocate,
}
use kube_forwarding_proxy.Vip.Allocator.Invariant.{IsValid}

pow_pos : (k : ℕ) → 1 ≤ 2 ^ k
pow_pos zero = omega arith
pow_pos (suc k) = omega (arith, pow-suc 2 k, pow_pos k)

two-le-pow : (ones : ℕ) → ones ≤ 31 → 2 ≤ 2 ^ (32 - ones)
two-le-pow ones h =
    let e : 32 - ones ≡ suc (31 - ones) = omega arith in
    rw e (omega (arith, pow-suc 2 (31 - ones), pow_pos (31 - ones)))

pow-mod_u32 : (k : ℕ) → 2 ^ (k + 32) % u32_mod ≡ 0
pow-mod_u32 zero = refl
pow-mod_u32 (suc k) = rw suc-add (omega (arith, pow-suc 2 (k + 32), pow-mod_u32 k))

-- For an IPv4 network of at least two addresses within the 32-bit range, the new allocator is
-- valid, starts at the address behind the network's own, and ends before the last one, the
-- broadcast address.
pub allocator_of-IsValid :
    (net : NetText) (network : Network)
    → network.bits ≡ 32
    → network.ones ≤ 31
    → ip_to_uint32 network.ip + 2 ^ (32 - network.ones) ≤ u32_mod
    → let a = allocator_of network in
      IsValid net a
      × (a.next ≡ ip_to_uint32 network.ip + 1)
      × (a.max ≡ ip_to_uint32 network.ip + 2 ^ (32 - network.ones) - 1)
unfolding allocator_of shl_one lookup
allocator_of-IsValid net network b o fits =
    let n = ip_to_uint32 network.ip in
    let size = 2 ^ (32 - network.ones) in
    let big = two-le-pow network.ones o in
    let shift : shl_one (network.bits - network.ones) ≡ size % u32_mod =
      ap (λ k. shl_one (k - network.ones)) b in
    (
      record {
        started = omega arith;
        in_range = omega (arith, big);
        top = omega arith;
        mirrored = λ key ip p. cc;
        backed = λ t key p. absurd (cc);
        handed_out = λ key ip p. absurd (cc);
        not_skipped = λ key ip p. refl;
        skipped_below = λ k p. absurd (cc);
      },
      omega (arith, big),
      ap (λ k. (n + k + u32_mod - 1) % u32_mod) shift ∙ omega (arith, big),
    )

-- The range of an IPv6 network: its own address counts as 0, and the size wraps.
range_of_ip6 :
    (network : Network) (t : Text)
    → network.ip ≡ ip6 t
    → network.bits ≡ 128
    → network.ones ≤ 96
    → ((allocator_of network).base ≡ 1)
      × ((allocator_of network).next ≡ 1)
      × ((allocator_of network).max ≡ u32_mod - 1)
unfolding allocator_of shl_one ip_to_uint32
range_of_ip6 network t e b o =
    let zero_ip : ip_to_uint32 network.ip ≡ 0 = ap ip_to_uint32 e in
    let wrapped : shl_one (network.bits - network.ones) ≡ 0 =
      ap (λ k. 2 ^ (k - network.ones) % u32_mod) b
      ∙ (ap (λ k. 2 ^ k % u32_mod) (omega arith) ∙ pow-mod_u32 (96 - network.ones)) in
    (omega (arith, zero_ip), omega (arith, zero_ip), omega (arith, zero_ip, wrapped))

-- The first address of a range that starts at 1, where the interface adds it.
first_address :
    (net : NetText) (m : InterfaceAddressManager) (key : Text) (a : Allocator) (s t : m.Iface)
    → lookup key a.assigned ≡ none
    → a.next ≡ 1
    → a.max ≡ u32_mod - 1
    → m.add_address (ip4 0 0 0 1) s ≡ (none, t)
    → (o : Outcome m.Iface) × (allocate net m key a s ≡ some o) × (o.result ≡ ok (ip4 0 0 0 1))
unfolding allocate allocate_loop try_next uint32_to_ip
first_address net m key a s t new next max free =
    let more : leb a.max a.next ≡ false = ground arith in
    rw (new, allocate)
      (rw (more, allocate_loop, try_next)
        (rw (next, uint32_to_ip) (rw (free, after_add) (_, refl, ap ok (ap uint32_to_ip next)))))

-- NewAllocator accepts an IPv6 network with a prefix of at most 96 bits, and its allocator is valid.
-- Whatever the network is, the range ends at 255.255.255.254, and the first address that Allocate
-- gives out, where the interface adds it, is the IPv4 address 0.0.0.1.
pub new_allocator_ip6 :
    (net : NetText) (m : InterfaceAddressManager) (parse_cidr : Text → Result Text Network)
    (cidr key spelled : Text) (network : Network) (s t : m.Iface)
    → parse_cidr cidr ≡ ok network
    → network.ip ≡ ip6 spelled
    → network.bits ≡ 128
    → network.ones ≤ 96
    → m.add_address (ip4 0 0 0 1) s ≡ (none, t)
    → (a : Allocator) × (new_allocator parse_cidr cidr ≡ ok a)
      × IsValid net a
      × (a.max ≡ u32_mod - 1)
      × (o : Outcome m.Iface) × (allocate net m key a s ≡ some o)
      × (o.result ≡ ok (ip4 0 0 0 1))
unfolding new_allocator allocator_of lookup
new_allocator_ip6 net m parse_cidr cidr key spelled network s t parsed six b o free =
    let a = allocator_of network in
    let (base, next, max) = range_of_ip6 network spelled six b o in
    let (outcome, run, result) = first_address net m key a s t refl next max free in
    (
      a,
      rw (parsed, new_allocator) refl,
      record {
        started = omega (arith, base, next);
        in_range = omega (arith, next);
        top = omega (arith, max);
        mirrored = λ key ip p. absurd (cc);
        backed = λ t key p. absurd (cc);
        handed_out = λ key ip p. absurd (cc);
        not_skipped = λ key ip p. refl;
        skipped_below = λ k p. absurd (cc);
      },
      max,
      outcome,
      run,
      result,
    )
