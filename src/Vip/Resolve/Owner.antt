-- ===== src/Vip/Resolve/Owner.antt =====
-- internal/vip/resolve.go: the interface that owns the address.
use kube_forwarding_proxy.Base.{
  ◌≡◌, refl, ap, ◌∙◌, inl, inr, ◌⊎◌, true, Option, none, some, List, [], ◌∷◌, Text, ok, arith,
  Bool-cases, Option-cases, subst, sym,
}
use kube_forwarding_proxy.Vip.Address.{Ip, ip4, ip6}
use mathlib.Core.List.{Memᴰ}
use kube_forwarding_proxy.Vip.Resolve.{
  Addr, NetInterface, Host, to4, addr_ip4, equals_ip4, owns, owns_any, find_owner, resolve_address,
  or_next_ip4, first_ip4, resolve_named, resolve_iface,
}

-- An interface that has an address in its four-byte form.
pub record IsOwner (i : NetInterface) (ip : Ip) : Type 0 where
  pub addrs : List Addr
  pub listed : i.addrs ≡ some addrs
  pub addr : Addr
  pub found : Memᴰ addr addrs
  pub four_bytes : addr_ip4 addr ≡ some ip

equals_ip4_inv : (o : Option Ip) (ip : Ip) → equals_ip4 o ip ≡ true → o ≡ some ip
unfolding equals_ip4
equals_ip4_inv none ip h = absurd (cc)
equals_ip4_inv (some (ip6 s)) ip h = absurd (cc)
equals_ip4_inv (some (ip4 a b c d)) (ip6 t) h = absurd (cc)
equals_ip4_inv (some (ip4 a b c d)) (ip4 e f g k) h = ground arith

owns_inv :
    (ip : Ip) (addrs : List Addr)
    → owns ip addrs ≡ true
    → (a : Addr) × Memᴰ a addrs × (addr_ip4 a ≡ some ip)
unfolding owns
owns_inv ip [] h = absurd (cc)
owns_inv ip (a ∷ addrs) h = elim (Bool-cases (equals_ip4 (addr_ip4 a) ip)) [
  | inl e ↦ (a, Memᴰ.head refl, equals_ip4_inv (addr_ip4 a) ip e)
  | inr e ↦ let (b, found, four) = owns_inv ip addrs (rw e at h) in (b, Memᴰ.tail found, four)
]

owns_any-IsOwner : (ip : Ip) (i : NetInterface) → owns_any ip i.addrs ≡ true → IsOwner i ip
unfolding owns_any
owns_any-IsOwner ip i h = go i.addrs refl h
  where
    go : (o : Option (List Addr)) → i.addrs ≡ o → owns_any ip o ≡ true → IsOwner i ip
    go none e h' = absurd (cc)
    go (some addrs) e h' =
        let (a, found, four) = owns_inv ip addrs h' in
        record { addrs = addrs; listed = e; addr = a; found = found; four_bytes = four }

find_owner-inv :
    (ip : Ip) (ifaces : List NetInterface) (x : Ip) (name : Text)
    → find_owner ip ifaces ≡ ok (x, name)
    → (x ≡ ip) × (i : NetInterface) × (i.name ≡ name) × IsOwner i ip × Memᴰ i ifaces
unfolding find_owner
find_owner-inv ip [] x name h = absurd (cc)
find_owner-inv ip (i ∷ rest) x name h = elim (Bool-cases (owns_any ip i.addrs)) [
  | inl e ↦ (ground arith, i, ground arith, owns_any-IsOwner ip i e, Memᴰ.head refl)
  | inr e ↦
      let (same, j, named, owner, found) = find_owner-inv ip rest x name (rw e at h) in
      (same, j, named, owner, Memᴰ.tail found)
]

first_ip4-inv :
    (name : Text) (addrs : List Addr) (ip : Ip) (n : Text)
    → first_ip4 name addrs ≡ ok (ip, n)
    → (n ≡ name) × (a : Addr) × Memᴰ a addrs × (addr_ip4 a ≡ some ip)
unfolding first_ip4 or_next_ip4
first_ip4-inv name [] ip n h = absurd (cc)
first_ip4-inv name (a ∷ addrs) ip n h = go (addr_ip4 a) refl h (first_ip4-inv name addrs ip n)
  where
    go :
        (o : Option Ip)
        → addr_ip4 a ≡ o
        → or_next_ip4 name o (first_ip4 name addrs) ≡ ok (ip, n)
        → (first_ip4 name addrs ≡ ok (ip, n)
            → (n ≡ name) × (b : Addr) × Memᴰ b addrs × (addr_ip4 b ≡ some ip))
        → (n ≡ name) × (b : Addr) × Memᴰ b (a ∷ addrs) × (addr_ip4 b ≡ some ip)
    go none e h' rest = let (same, b, found, four) = rest h' in (same, b, Memᴰ.tail found, four)
    go (some x) e h' rest = (ground arith, a, Memᴰ.head refl, e ∙ ap some (ground arith))

-- Where the interface of an answer comes from: the one of the given name, or one of the listed.
abbrev pub IsFrom : Host → Text → Ip → NetInterface → Type 0
IsFrom host value ip i =
    ((host.parse_ip value ≡ none) × (host.interface_by_name value ≡ some i))
    ⊎ ((host.parse_ip value ≡ some ip)
        × (ifaces : List NetInterface) × (host.interfaces ≡ some ifaces)
        × Memᴰ i ifaces)

to4-inv : (x ip : Ip) → to4 x ≡ some ip → x ≡ ip
unfolding to4
to4-inv (ip4 a b c d) ip h = ground arith
to4-inv (ip6 t) ip h = absurd (cc)

named-inv :
    (value : Text) (o : Option NetInterface) (ip : Ip) (name : Text)
    → resolve_named o ≡ ok (ip, name)
    → (i : NetInterface) × (o ≡ some i) × (i.name ≡ name) × IsOwner i ip
unfolding resolve_named
named-inv value none ip name h = absurd (cc)
named-inv value (some i) ip name h = elim (Option-cases i.addrs) [
  | inl e ↦ absurd (let h' = rw (e, resolve_named) at h in cc)
  | inr (addrs, e) ↦
      let (same, a, found, four) =
        first_ip4-inv i.name addrs ip name (rw (e, resolve_named) at h) in
      (
        i,
        refl,
        sym same,
        record { addrs = addrs; listed = e; addr = a; found = found; four_bytes = four },
      )
]

address-inv :
    (host : Host) (o : Option Ip) (q : Option (List NetInterface)) (ip : Ip) (name : Text)
    → resolve_address o q ≡ ok (ip, name)
    → (o ≡ some ip)
      × (i : NetInterface) × (i.name ≡ name)
      × IsOwner i ip
      × (ifaces : List NetInterface) × (q ≡ some ifaces)
      × Memᴰ i ifaces
unfolding resolve_address
address-inv host none q ip name h = absurd (cc)
address-inv host (some x) none ip name h = absurd (cc)
address-inv host (some x) (some ifaces) ip name h =
    let (same, i, named, owner, found) = find_owner-inv x ifaces ip name h in
    (ap some (sym same), i, named, subst (λ y. IsOwner i y) (sym same) owner, ifaces, refl, found)

-- Where ResolveIface answers, the answer is an IPv4 address and the name of an interface that has it:
-- the interface of the given name, if the value is no address, and else one of the host's, with the
-- value itself as the address.
pub resolve_iface_ok :
    (host : Host) (value : Text) (ip : Ip) (name : Text)
    → resolve_iface host value ≡ ok (ip, name)
    → (i : NetInterface) × (i.name ≡ name) × IsOwner i ip × IsFrom host value ip i
unfolding resolve_iface
resolve_iface_ok host value ip name h = elim (Option-cases (host.parse_ip value)) [
  | inl e ↦
      let (i, found, named, owner) =
        named-inv value (host.interface_by_name value) ip name (rw (e, resolve_iface) at h) in
      (i, named, owner, inl (e, found))
  | inr (x, e) ↦
      let (same, i, named, owner, ifaces, known, listed) =
        address-inv host (to4 x) host.interfaces ip name (rw (e, resolve_iface) at h) in
      (i, named, owner, inr (e ∙ ap some (to4-inv x ip same), ifaces, known, listed))
]
