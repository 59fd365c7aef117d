-- ===== src/Examples/Allocation.antt =====
-- internal/vip at concrete inputs: a /29 network on an interface that already has its first address.
use kube_forwarding_proxy.Base.{
  ℕ, zero, suc, ◌+◌, ◌-◌, ◌≤◌, ◌≡◌, refl, Option, none, some, [], ◌∷◌, Text, text_eq, nat_eq,
  text_beq, arith, lookup, insert, delete, Dict, is_some, Result, if◌then◌else◌, ok, err,
}
use kube_forwarding_proxy.Vip.Address.{Ip, ip4, ip6, NetText, u32_mod, ip_to_uint32, uint32_to_ip}
use kube_forwarding_proxy.Vip.Interface.{AddressError, address_in_use, InterfaceAddressManager}
use kube_forwarding_proxy.Vip.Allocator.{
  Allocator, Network, exhausted, Outcome, allocator_of, new_allocator, allocate, release_vip,
  lookup_vip,
}
use kube_forwarding_proxy.Vip.Allocator.Invariant.{IsValid}
use kube_forwarding_proxy.Vip.Allocator.Allocation.{allocate_ok}
use kube_forwarding_proxy.Vip.Allocator.Release.{release-exhausted}
use kube_forwarding_proxy.Vip.Allocator.Creation.{allocator_of-IsValid, new_allocator_ip6}

abbrev pub spell : Ip → Text
spell (ip4 a b c d) = 0 ∷ a ∷ b ∷ c ∷ d ∷ []
spell (ip6 t) = 1 ∷ t

abbrev pub read : Text → Option Ip
read (zero ∷ a ∷ b ∷ c ∷ d ∷ []) = some (ip4 a b c d)
read (suc zero ∷ t) = some (ip6 t)
read _ = none

pub spelled : (ip : Ip) → read (spell ip) ≡ some ip
spelled (ip4 a b c d) = refl
spelled (ip6 t) = refl

abbrev pub net : NetText
net = record { ip_string = spell; parse_ip = read; parse_ip_string = spelled }

-- The interface is the set of its addresses.
abbrev pub put_address : Ip → Dict ℕ (Unit {0}) → Option AddressError × Dict ℕ (Unit {0})
put_address ip s =
    let n = ip_to_uint32 ip in
    if is_some (lookup n s) then (some address_in_use, s) else (none, insert n tt s)

abbrev pub interface : InterfaceAddressManager
interface = record {
  Iface = Dict ℕ (Unit {0});
  add_address = put_address;
  remove_address = λ ip s. (none, delete (ip_to_uint32 ip) s);
}

abbrev pub network : Network
network = record { ip = ip4 10 0 0 0; ones = 29; bits = 32 }

pub fresh-IsValid : IsValid net (allocator_of network)
unfolding ip_to_uint32
fresh-IsValid = (allocator_of-IsValid net network refl (omega arith) (omega arith)).0

allocator_of-IsValid_example : (allocator_of network).next ≡ ip_to_uint32 (ip4 10 0 0 0) + 1
unfolding ip_to_uint32
allocator_of-IsValid_example = (allocator_of-IsValid net network refl (omega arith) (omega arith)).1

new_allocator_ip6_example :
    let parse_cidr : Text → Result Text Network =
      λ cidr. ok (record { ip = ip6 (1 ∷ []); ones = 64; bits = 128 }) in
    (a : Allocator) × (new_allocator parse_cidr [] ≡ ok a)
    × IsValid net a
    × (a.max ≡ u32_mod - 1)
    × (o : Outcome (Dict ℕ (Unit {0}))) × (allocate net interface [] a [] ≡ some o)
    × (o.result ≡ ok (ip4 0 0 0 1))
unfolding ip_to_uint32 insert lookup
new_allocator_ip6_example =
    new_allocator_ip6 net interface
      (λ cidr. ok (record { ip = ip6 (1 ∷ []); ones = 64; bits = 128 })) [] [] (1 ∷ [])
      (record { ip = ip6 (1 ∷ []); ones = 64; bits = 128 }) [] ((1, tt) ∷ []) refl refl refl
      (omega arith) refl

-- 10.0.0.1 is taken.
abbrev pub iface : Dict ℕ (Unit {0})
iface = (167772161, tt) ∷ []

abbrev pub web : Text
web = b'w' ∷ b'e' ∷ b'b' ∷ []

abbrev db : Text
db = b'd' ∷ b'b' ∷ []

abbrev pub web_ip : Ip
web_ip = ip4 10 0 0 2

abbrev held : Allocator
held = record {
  base = 167772161;
  max = 167772167;
  next = 167772163;
  assigned = (web, web_ip) ∷ [];
  reverse = (spell web_ip, web) ∷ [];
  skipped = (167772161, tt) ∷ [];
}

abbrev first : Outcome (Dict ℕ (Unit {0}))
first = record {
  allocator = held;
  iface = (167772161, tt) ∷ (167772162, tt) ∷ [];
  result = ok web_ip;
}

allocates_first : allocate net interface web (allocator_of network) iface ≡ some first
unfolding allocate allocator_of ip_to_uint32 uint32_to_ip lookup insert
allocates_first = refl

web_is_new : lookup_vip web (allocator_of network) ≡ none
unfolding lookup_vip allocator_of lookup
web_is_new = refl

allocate_ok_example : (allocator_of network).next ≤ ip_to_uint32 web_ip
allocate_ok_example =
    (allocate_ok net interface web (allocator_of network) iface first web_ip db fresh-IsValid
      web_is_new allocates_first refl).1

abbrev full_held : Allocator
full_held = record held { next = 167772167 }

db_still_new : lookup_vip db (release_vip net interface web_ip full_held iface).0 ≡ none
unfolding lookup_vip release_vip lookup delete text_beq
db_still_new = refl

release-exhausted_example :
    allocate net interface db (release_vip net interface web_ip full_held iface).0 iface
    ≡ some (record {
      allocator = (release_vip net interface web_ip full_held iface).0;
      iface = iface;
      result = err exhausted;
    })
release-exhausted_example =
    release-exhausted net interface web_ip full_held iface iface db (omega arith) db_still_new
