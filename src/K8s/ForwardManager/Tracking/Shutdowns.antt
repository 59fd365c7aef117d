-- ===== src/K8s/ForwardManager/Tracking/Shutdowns.antt =====
-- internal/k8s/forward_manager.go: the tracked states behind ShutdownContext and Shutdown.
use kube_forwarding_proxy.Base.{
  ℕ, refl, Bool, true, false, Option, none, some, [], ◌∷◌, Text, text_eq, text_beq, Dict, lookup,
  delete, lookup-delete_inv, if◌then◌else◌,
}
use kube_forwarding_proxy.Vip.Address.{Ip}
use kube_forwarding_proxy.K8s.ForwardManager.{ForwardKey, key_eq, Manager}
use kube_forwarding_proxy.K8s.ForwardManager.Shutdown.{
  close_entry, close_context, stop_timer, drop_found, drop_states, release_all, release_unique,
  shutdown_context, shutdown,
}
use kube_forwarding_proxy.K8s.ForwardManager.Tracking.{
  IsTracked, set_state-IsTracked, same_states-IsTracked,
}

close_context-IsTracked :
    (parse_ip : Text → Option Ip) (name : Text) (d : Dict ForwardKey ℕ) (r : Dict Text Ip × Manager)
    → IsTracked r.1
    → IsTracked (close_context parse_ip name d r).1
unfolding close_context close_entry
close_context-IsTracked parse_ip name [] r t = t
close_context-IsTracked parse_ip name ((key, l) ∷ d) r t =
    let b = text_beq key.context_name name in
    close_context-IsTracked parse_ip name d (close_entry parse_ip key l b r) (go b)
  where
    go : (b : Bool) → IsTracked (close_entry parse_ip key l b r).1
    go false = t
    go true = same_states-IsTracked r.1 _ refl refl refl t

-- A state that is taken out.
delete-IsTracked :
    (vip : Text) (m : Manager)
    → IsTracked m
    → IsTracked (record m { vip_states = delete vip m.vip_states })
delete-IsTracked vip m t = record {
  bounded = λ v p l. t.bounded v p (lookup-delete_inv v vip p m.vip_states l).1;
  distinct = λ v w p l l'.
      t.distinct v w p (lookup-delete_inv v vip p m.vip_states l).1
        (lookup-delete_inv w vip p m.vip_states l').1;
  own = λ v p l. t.own v p (lookup-delete_inv v vip p m.vip_states l).1;
}

drop_found-IsTracked :
    (vip : Text) (o : Option ℕ) (m : Manager) → IsTracked m → IsTracked (drop_found vip o m)
unfolding drop_found stop_timer
drop_found-IsTracked vip none m t = t
drop_found-IsTracked vip (some p) m t =
    delete-IsTracked vip (stop_timer p m)
      (set_state-IsTracked p (record (m.store p) { timer = none }) m refl t)

drop_states-IsTracked :
    (vips : Dict Text Ip) (m : Manager) → IsTracked m → IsTracked (drop_states vips m)
unfolding drop_states
drop_states-IsTracked [] m t = t
drop_states-IsTracked ((vip, ip) ∷ vips) m t =
    drop_states-IsTracked vips (drop_found vip (lookup vip m.vip_states) m)
      (drop_found-IsTracked vip (lookup vip m.vip_states) m t)

release_all-IsTracked :
    (vips : Dict Text Ip) (m : Manager) → IsTracked m → IsTracked (release_all vips m)
unfolding release_all
release_all-IsTracked [] m t = t
release_all-IsTracked ((vip, ip) ∷ vips) m t =
    release_all-IsTracked vips (record m { released = ip ∷ m.released })
      (same_states-IsTracked m _ refl refl refl t)

release_unique-IsTracked :
    (vips : Dict Text Ip) (m : Manager) → IsTracked m → IsTracked (release_unique vips m)
unfolding release_unique
release_unique-IsTracked vips m t = go m.has_releaser
  where
    go : (b : Bool) → IsTracked (if b then release_all vips m else m)
    go true = release_all-IsTracked vips m t
    go false = t

pub shutdown_context-IsTracked :
    (parse_ip : Text → Option Ip) (name : Text) (m : Manager)
    → IsTracked m
    → IsTracked (shutdown_context parse_ip name m)
unfolding shutdown_context
shutdown_context-IsTracked parse_ip name m t =
    let c = close_context parse_ip name m.entries ([], m) in
    release_unique-IsTracked c.0 (drop_states c.0 c.1)
      (drop_states-IsTracked c.0 c.1 (close_context-IsTracked parse_ip name m.entries ([], m) t))

-- Nothing is tracked behind Shutdown.
pub shutdown-IsTracked : (m : Manager) → IsTracked (shutdown m)
unfolding shutdown lookup
shutdown-IsTracked m = record {
  bounded = λ v p l. absurd (cc);
  distinct = λ v w p l l'. absurd (cc);
  own = λ v p l. absurd (cc);
}
