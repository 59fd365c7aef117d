-- ===== src/Vip/Allocator.antt =====
-- internal/vip/allocator.go. The mutex makes each operation one step on the allocator; the
-- interface's state passes through. Maps are association lists.
pub mod Invariant
pub mod Loop
pub mod Allocation
pub mod Release
pub mod Creation
pub mod Refinement
use kube_forwarding_proxy.Base.{
  ℕ, zero, suc, ◌+◌, ◌-◌, ◌%◌, ◌^◌, ◌≡◌, Option, none, some, List, [], ◌∷◌, Text, Dict, text_eq,
  nat_eq, lookup, insert, delete, leb, if◌then◌else◌, Result, ok, err,
}
use kube_forwarding_proxy.Vip.Address.{Ip, NetText, u32_mod, ip_to_uint32, uint32_to_ip}
use kube_forwarding_proxy.Vip.Interface.{
  AddressError, address_in_use, os_error, InterfaceAddressManager,
}

pub record Allocator : Type 0 where
  pub base : ℕ
  pub max : ℕ
  pub next : ℕ
  pub assigned : Dict Text Ip
  pub reverse : Dict Text Text
  pub skipped : Dict ℕ (Unit {0})

-- What net.ParseCIDR returns for the network: its masked address, and Mask.Size().
pub record Network : Type 0 where
  pub ip : Ip
  pub ones : ℕ
  pub bits : ℕ

pub data AllocatorError : Type 0 where
  bad_cidr : Text → AllocatorError
  exhausted : AllocatorError
  adding_vip : Ip → AddressError → AllocatorError
  removing_vip : Ip → AddressError → AllocatorError

-- uint32(1) << s, which is 0 from 32 on.
unfoldable pub shl_one : ℕ → ℕ
shl_one s = 2 ^ s % u32_mod

-- The uint32 sums wrap.
unfoldable pub allocator_of : Network → Allocator
unfolding shl_one
allocator_of network =
    let base = ip_to_uint32 network.ip in
    let size = shl_one (network.bits - network.ones) in
    record {
      base = (base + 1) % u32_mod;
      max = (base + size + u32_mod - 1) % u32_mod;
      next = (base + 1) % u32_mod;
      assigned = [];
      reverse = [];
      skipped = [];
    }

unfoldable pub new_allocator : (Text → Result Text Network) → Text → Result AllocatorError Allocator
unfolding allocator_of
new_allocator parse_cidr cidr = elim (parse_cidr cidr) [
  | err e ↦ err (bad_cidr e)
  | ok network ↦ ok (allocator_of network)
]

-- The allocator and the interface behind a call of Allocate, and what it returns.
pub record Outcome (S : Type 0) : Type 0 where
  pub allocator : Allocator
  pub iface : S
  pub result : Result AllocatorError Ip

-- One round of Allocate's loop: it returns, or it skips an address and goes on.
pub data Round (S : Type 0) : Type 0 where
  returns : Outcome S → Round S
  continues : Allocator → S → Round S

unfoldable pub removal_error : Ip → Option AddressError → Option AllocatorError
removal_error ip none = none
removal_error ip (some e) = some (removing_vip ip e)

unfoldable pub add_removal_error :
    Text
    → Ip
    → Option AddressError
    → List (Text × Ip × AddressError)
    → List (Text × Ip × AddressError)
add_removal_error key ip none errs = errs
add_removal_error key ip (some e) errs = (key, ip, e) ∷ errs

module _ (net : NetText) (m : InterfaceAddressManager) where
  open net use {ip_string}
  open m use {Iface, add_address, remove_address}

  -- AddAddress has answered for `ip`; `next` has moved on.
  unfoldable pub after_add : Text → Ip → Allocator → Option AddressError × Iface → Round Iface
  after_add key ip a (some address_in_use, s) =
      continues (record a { skipped = insert (ip_to_uint32 ip) tt a.skipped }) s
  after_add key ip a (some (os_error e), s) =
      returns (record { allocator = a; iface = s; result = err (adding_vip ip (os_error e)) })
  after_add key ip a (none, s) = returns (record {
    allocator = record a {
      assigned = insert key ip a.assigned;
      reverse = insert (ip_string ip) key a.reverse;
    };
    iface = s;
    result = ok ip;
  })

  unfoldable pub try_next : Text → Allocator → Iface → Round Iface
  unfolding after_add
  try_next key a s =
      if leb a.max a.next
      then returns (record { allocator = a; iface = s; result = err exhausted })
      else let ip = uint32_to_ip a.next in
        after_add key ip (record a { next = (a.next + 1) % u32_mod }) (add_address ip s)

  unfoldable pub allocate_loop : ℕ → Text → Allocator → Iface → Option (Outcome Iface)
  unfolding try_next
  allocate_loop zero key a s = none
  allocate_loop (suc fuel) key a s = elim (try_next key a s) [
    | returns o ↦ some o
    | continues a' s' ↦ allocate_loop fuel key a' s'
  ]

  -- One round for each address that is left, and one that finds none.
  unfoldable pub allocate : Text → Allocator → Iface → Option (Outcome Iface)
  unfolding allocate_loop
  allocate key a s = elim (lookup key a.assigned) [
    | some ip ↦ some (record { allocator = a; iface = s; result = ok ip })
    | none ↦ allocate_loop (suc (a.max - a.next)) key a s
  ]

  -- Only tracked addresses are taken off the interface, after they are forgotten.
  unfoldable pub release_vip : Ip → Allocator → Iface → Allocator × Iface × Option AllocatorError
  unfolding removal_error
  release_vip ip a s = elim (lookup (ip_string ip) a.reverse) [
    | none ↦ (a, s, none)
    | some key ↦
        let a' = record a {
          assigned = delete key a.assigned;
          reverse = delete (ip_string ip) a.reverse;
        } in
        let (e, s') = remove_address ip s in (a', s', removal_error ip e)
  ]

  -- The errors of all the removals, the first one first.
  unfoldable pub cleanup_loop : Dict Text Ip → Iface → List (Text × Ip × AddressError) × Iface
  unfolding add_removal_error
  cleanup_loop [] s = ([], s)
  cleanup_loop ((key, ip) ∷ rest) s =
      let (e, s') = remove_address ip s in
      let (errs, s'') = cleanup_loop rest s' in (add_removal_error key ip e errs, s'')

  -- The errors of Cleanup: none at all is the nil error.
  unfoldable pub cleanup : Allocator → Iface → List (Text × Ip × AddressError) × Iface
  unfolding cleanup_loop
  cleanup a s = cleanup_loop a.assigned s

  unfoldable pub reverse_lookup : Text → Allocator → Text
  reverse_lookup s a = elim (lookup s a.reverse) [ none ↦ [] | some key ↦ key ]

-- Lookup: nil where nothing is allocated.
unfoldable pub lookup_vip : Text → Allocator → Option Ip
lookup_vip key a = lookup key a.assigned
