-- ===== src/K8s/ForwardManager/Shutdown.antt =====
-- internal/k8s/forward_manager.go: ShutdownContext and Shutdown, as far as listeners and VIPs go. (The
-- pool's part is K8s.SpdyPool's.)
pub mod Context
use kube_forwarding_proxy.Base.{
  ℕ, Bool, true, false, Option, none, some, List, [], ◌∷◌, Text, text_eq, text_beq, Dict, lookup,
  insert, delete, if◌then◌else◌,
}
use kube_forwarding_proxy.Vip.Address.{Ip}
use kube_forwarding_proxy.K8s.ForwardManager.{ForwardKey, key_eq, VipState, Manager, set_state}

-- uniqueVIPs[key.vipAddr] = ip, if the address parses.
unfoldable pub add_unique : Text → Option Ip → Dict Text Ip → Dict Text Ip
add_unique vip none vips = vips
add_unique vip (some ip) vips = insert vip ip vips

-- One entry of the first loop, which belongs to the context or not.
unfoldable pub close_entry :
    (Text → Option Ip) → ForwardKey → ℕ → Bool → Dict Text Ip × Manager → Dict Text Ip × Manager
unfolding add_unique
close_entry parse_ip key listener false (vips, m) = (vips, m)
close_entry parse_ip key listener true (vips, m) = (
  add_unique key.vip_addr (parse_ip key.vip_addr) vips,
  record m { entries = delete key m.entries; closed = listener ∷ m.closed },
)

-- The first loop, over the entries that the map had.
unfoldable pub close_context :
    (Text → Option Ip) → Text → Dict ForwardKey ℕ → Dict Text Ip × Manager → Dict Text Ip × Manager
unfolding close_entry
close_context parse_ip name [] r = r
close_context parse_ip name ((key, listener) ∷ rest) r =
    close_context parse_ip name rest
      (close_entry parse_ip key listener (text_beq key.context_name name) r)

-- state.timer.Stop()
unfoldable pub stop_timer : ℕ → Manager → Manager
unfolding set_state
stop_timer p m = set_state p (record (m.store p) { timer = none }) m

unfoldable pub drop_found : Text → Option ℕ → Manager → Manager
unfolding stop_timer
drop_found vip none m = m
drop_found vip (some p) m =
    let m' = stop_timer p m in record m' { vip_states = delete vip m'.vip_states }

-- The second loop.
unfoldable pub drop_states : Dict Text Ip → Manager → Manager
unfolding drop_found
drop_states [] m = m
drop_states ((vip, ip) ∷ rest) m = drop_states rest (drop_found vip (lookup vip m.vip_states) m)

-- The third, outside the lock: ReleaseVIP for each address.
unfoldable pub release_all : Dict Text Ip → Manager → Manager
release_all [] m = m
release_all ((vip, ip) ∷ rest) m = release_all rest (record m { released = ip ∷ m.released })

unfoldable pub release_unique : Dict Text Ip → Manager → Manager
unfolding release_all
release_unique vips m = if m.has_releaser then release_all vips m else m

unfoldable pub shutdown_context : (Text → Option Ip) → Text → Manager → Manager
unfolding close_context drop_states release_unique
shutdown_context parse_ip name m =
    let (vips, m') = close_context parse_ip name m.entries ([], m) in
    release_unique vips (drop_states vips m')

-- The first loop of Shutdown.
unfoldable pub close_all : Dict ForwardKey ℕ → Manager → Manager
close_all [] m = m
close_all ((key, listener) ∷ rest) m =
    close_all rest (record m { entries = delete key m.entries; closed = listener ∷ m.closed })

unfoldable pub stop_all : Dict Text ℕ → Manager → Manager
unfolding stop_timer
stop_all [] m = m
stop_all ((vip, p) ∷ rest) m = stop_all rest (stop_timer p m)

unfoldable pub shutdown : Manager → Manager
unfolding close_all stop_all
shutdown m =
    let m' = close_all m.entries m in record (stop_all m'.vip_states m') { vip_states = [] }
