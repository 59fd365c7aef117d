-- ===== src/Vip/Resolve.antt =====
-- internal/vip/resolve.go. The system's interfaces and net.ParseIP are the fields of `Host`.
pub mod Owner
use kube_forwarding_proxy.Base.{
  ◌≡◌, refl, ap, ◌∙◌, inl, inr, ◌⊎◌, Bool, true, false, Option, none, some, List, [], ◌∷◌, Text,
  Result, ok, err, if◌then◌else◌, nat_beq, ◌&&◌, arith, Bool-cases, Option-cases, subst, sym,
}
use kube_forwarding_proxy.Vip.Address.{Ip, ip4, ip6}
use mathlib.Core.List.{Memᴰ}

-- A net.Addr: *net.IPNet, *net.IPAddr, or neither.
pub data Addr : Type 0 where
  ip_net ip_addr : Ip → Addr
  other_addr : Addr

-- `addrs` is what Addrs answers, `none` for an error.
pub record NetInterface : Type 0 where
  pub name : Text
  pub addrs : Option (List Addr)

pub record Host : Type 0 where
  pub parse_ip : Text → Option Ip
  pub interfaces : Option (List NetInterface)
  pub interface_by_name : Text → Option NetInterface

pub data IfaceError : Type 0 where
  not_ip4 listing_interfaces no_interface_with interface_not_found listing_addresses
        no_ip4_address :
      IfaceError

unfoldable pub to4 : Ip → Option Ip
to4 (ip4 a b c d) = some (ip4 a b c d)
to4 (ip6 t) = none

-- The four-byte address of an Addr, or nil.
unfoldable pub addr_ip4 : Addr → Option Ip
unfolding to4
addr_ip4 (ip_net ip) = to4 ip
addr_ip4 (ip_addr ip) = to4 ip
addr_ip4 other_addr = none

-- ifIP != nil && ifIP.Equal(ip), for an address of four bytes.
unfoldable pub equals_ip4 : Option Ip → Ip → Bool
equals_ip4 (some (ip4 a b c d)) (ip4 e f g h) =
    nat_beq a e && (nat_beq b f && (nat_beq c g && nat_beq d h))
equals_ip4 (some (ip4 a b c d)) (ip6 t) = false
equals_ip4 (some (ip6 s)) ip = false
equals_ip4 none ip = false

unfoldable pub owns : Ip → List Addr → Bool
unfolding equals_ip4 addr_ip4
owns ip [] = false
owns ip (a ∷ addrs) = let rest = owns ip addrs in if equals_ip4 (addr_ip4 a) ip then true else rest

unfoldable pub owns_any : Ip → Option (List Addr) → Bool
unfolding owns
owns_any ip none = false
owns_any ip (some addrs) = owns ip addrs

-- The interface that owns an address; one whose addresses cannot be listed is passed over.
unfoldable pub find_owner : Ip → List NetInterface → Result IfaceError (Ip × Text)
unfolding owns_any
find_owner ip [] = err no_interface_with
find_owner ip (i ∷ rest) =
    let later = find_owner ip rest in if owns_any ip i.addrs then ok (ip, i.name) else later

unfoldable pub resolve_address :
    Option Ip → Option (List NetInterface) → Result IfaceError (Ip × Text)
unfolding find_owner
resolve_address none ifaces = err not_ip4
resolve_address (some ip) none = err listing_interfaces
resolve_address (some ip) (some ifaces) = find_owner ip ifaces

unfoldable pub or_next_ip4 :
    Text → Option Ip → Result IfaceError (Ip × Text) → Result IfaceError (Ip × Text)
or_next_ip4 name none later = later
or_next_ip4 name (some ip) later = ok (ip, name)

unfoldable pub first_ip4 : Text → List Addr → Result IfaceError (Ip × Text)
unfolding addr_ip4 or_next_ip4
first_ip4 name [] = err no_ip4_address
first_ip4 name (a ∷ addrs) = or_next_ip4 name (addr_ip4 a) (first_ip4 name addrs)

unfoldable pub resolve_named : Option NetInterface → Result IfaceError (Ip × Text)
unfolding first_ip4
resolve_named none = err interface_not_found
resolve_named (some i) = elim i.addrs [
  | none ↦ err listing_addresses
  | some addrs ↦ first_ip4 i.name addrs
]

unfoldable pub resolve_iface : Host → Text → Result IfaceError (Ip × Text)
unfolding resolve_address resolve_named to4
resolve_iface host value = elim (host.parse_ip value) [
  | some ip ↦ resolve_address (to4 ip) host.interfaces
  | none ↦ resolve_named (host.interface_by_name value)
]
