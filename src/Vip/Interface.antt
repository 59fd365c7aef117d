-- ===== src/Vip/Interface.antt =====
-- internal/vip/interface.go, errors.go, interface_linux.go and interface_darwin.go: the interface that
-- holds the virtual addresses. Netlink and the ifconfig command are parameters.
use kube_forwarding_proxy.Base.{
  Bool, true, false, Option, none, some, List, [], ◌∷◌, Text, if◌then◌else◌,
}
use kube_forwarding_proxy.Vip.Address.{Ip}

-- The errors of a netlink call.
pub data Errno : Type 0 where
  eexist : Errno
  other_errno : Text → Errno

-- ErrAddressInUse, or an error that wraps the errno.
pub data AddressError : Type 0 where
  address_in_use : AddressError
  os_error : Errno → AddressError

-- `none` is the nil error. The state of the interface passes through each call.
pub record InterfaceAddressManager : Type 1 where
  pub Iface : Type 0
  pub add_address : Ip → Iface → Option AddressError × Iface
  pub remove_address : Ip → Iface → Option AddressError × Iface

-- Package netlink for one link, with addresses under a 32-bit mask.
pub record Netlink : Type 1 where
  pub Link : Type 0
  pub addr_add : Ip → Link → Option Errno × Link
  pub addr_del : Ip → Link → Option Errno × Link

-- An errno as AddAddress reports it.
unfoldable pub add_error : Option Errno → Option AddressError
add_error none = none
add_error (some eexist) = some address_in_use
add_error (some (other_errno t)) = some (os_error (other_errno t))

-- An errno as RemoveAddress reports it.
unfoldable pub remove_error : Option Errno → Option AddressError
remove_error none = none
remove_error (some e) = some (os_error e)

abbrev pub netlink_manager : Netlink → InterfaceAddressManager
netlink_manager n = record {
  Iface = n.Link;
  add_address = λ ip link. let r = n.addr_add ip link in (add_error r.0, r.1);
  remove_address = λ ip link. let r = n.addr_del ip link in (remove_error r.0, r.1);
}

-- The addresses of the macOS interface, and the ifconfig command with `alias` and `-alias`; `none` of
-- an Addrs is an error, and of a command its success. `ip_equal` is net.IP's Equal.
pub record Ifconfig : Type 1 where
  pub Link : Type 0
  pub addrs : Link → Option (List Ip)
  pub ip_equal : Ip → Ip → Bool
  pub alias : Ip → Link → Option Text × Link
  pub unalias : Ip → Link → Option Text × Link

unfoldable pub ifconfig_error : Option Text → Option AddressError
ifconfig_error none = none
ifconfig_error (some output) = some (os_error (other_errno output))

module _ (c : Ifconfig) where
  unfoldable pub has_address : Ip → List Ip → Bool
  has_address ip [] = false
  has_address ip (existing ∷ rest) =
      let later = has_address ip rest in if c.ip_equal existing ip then true else later

  -- AddAddress, with the addresses that the interface has.
  unfoldable pub add_alias : Ip → Option (List Ip) → c.Link → Option AddressError × c.Link
  unfolding has_address ifconfig_error
  add_alias ip none link = (some (os_error (other_errno [])), link)
  add_alias ip (some existing) link =
      if has_address ip existing
      then (some address_in_use, link)
      else (let r = c.alias ip link in (ifconfig_error r.0, r.1))

abbrev pub ifconfig_manager : Ifconfig → InterfaceAddressManager
ifconfig_manager c = record {
  Iface = c.Link;
  add_address = λ ip link. add_alias c ip (c.addrs link) link;
  remove_address = λ ip link. let r = c.unalias ip link in (ifconfig_error r.0, r.1);
}
