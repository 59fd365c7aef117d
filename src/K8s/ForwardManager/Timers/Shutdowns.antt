-- ===== src/K8s/ForwardManager/Timers/Shutdowns.antt =====
-- internal/k8s/forward_manager.go: the VIPs behind ShutdownContext.
use kube_forwarding_proxy.Base.{
  ℕ, ◌≡◌, ◌≢◌, refl, sym, ap, ◌∙◌, false, Option, none, some, [], ◌∷◌, Text, Dict, text_eq, arith,
  lookup, lookup-delete_inv, nat_beq,
}
use kube_forwarding_proxy.Vip.Address.{Ip}
use kube_forwarding_proxy.K8s.ForwardManager.{key_eq, Manager, write, set_state, idle_enabled}
use kube_forwarding_proxy.K8s.ForwardManager.Shutdown.{
  close_context, stop_timer, drop_found, drop_states, release_unique, shutdown_context,
}
use kube_forwarding_proxy.K8s.ForwardManager.Timers.{Timeline}
use kube_forwarding_proxy.K8s.ForwardManager.Timers.Frame.{
  IsQuiet, close_context-IsQuiet, release_unique-IsQuiet,
}
use kube_forwarding_proxy.K8s.ForwardManager.Timers.Liveness.{
  IsNamed, part-IsNamed, IsLive, quiet-IsLive,
}
use kube_forwarding_proxy.K8s.ForwardManager.Timers.Commits.{IsAwake}

record IsBoth (vip_of : ℕ → Text) (fired : Text → ℕ → ℕ) (m : Manager) : Type 0 where
  names : IsNamed vip_of m
  live : IsLive vip_of fired m

quiet-IsBoth :
    (vip_of : ℕ → Text) (fired : Text → ℕ → ℕ) (m m' : Manager)
    → IsQuiet m m'
    → IsBoth vip_of fired m
    → IsBoth vip_of fired m'
quiet-IsBoth vip_of fired m m' q b = record {
  names = part-IsNamed vip_of m m' q.part b.names;
  live = quiet-IsLive vip_of fired m m' q b.live;
}

drop_found-IsBoth :
    (vip_of : ℕ → Text) (fired : Text → ℕ → ℕ) (vip : Text) (o : Option ℕ) (m : Manager)
    → lookup vip m.vip_states ≡ o
    → IsBoth vip_of fired m
    → IsBoth vip_of fired (drop_found vip o m)
unfolding drop_found stop_timer set_state write idle_enabled
drop_found-IsBoth vip_of fired vip none m e b = b
drop_found-IsBoth vip_of fired vip (some p) m e b = record {
  names = record {
    named = λ v q l. b.names.named v q (lookup-delete_inv v vip q m.vip_states l).1;
    bounded = λ v q l. b.names.bounded v q (lookup-delete_inv v vip q m.vip_states l).1;
    enabled = λ v q l. b.names.enabled v q (lookup-delete_inv v vip q m.vip_states l).1;
  };
  live = λ v q l.
      let (ne, l') = lookup-delete_inv v vip q m.vip_states l in
      let differ : p ≢ q =
        λ same. ne (sym (b.names.named vip p e) ∙ (ap vip_of same ∙ b.names.named v q l')) in
      let miss : nat_beq p q ≡ false = ground (arith, differ) in rw miss (b.live v q l');
}

drop_states-IsBoth :
    (vip_of : ℕ → Text) (fired : Text → ℕ → ℕ) (vips : Dict Text Ip) (m : Manager)
    → IsBoth vip_of fired m
    → IsBoth vip_of fired (drop_states vips m)
unfolding drop_states
drop_states-IsBoth vip_of fired [] m b = b
drop_states-IsBoth vip_of fired ((vip, ip) ∷ vips) m b =
    drop_states-IsBoth vip_of fired vips _
      (drop_found-IsBoth vip_of fired vip (lookup vip m.vip_states) m refl b)

pub shutdown_context-IsAwake :
    (parse_ip : Text → Option Ip) (s : Timeline) (name : Text)
    → IsAwake s
    → IsAwake (record s { manager = shutdown_context parse_ip name s.manager })
unfolding shutdown_context
shutdown_context-IsAwake parse_ip s name a =
    let c = close_context parse_ip name s.manager.entries ([], s.manager) in
    let d = drop_states c.0 c.1 in
    let closed =
      quiet-IsBoth s.vip_of s.fired s.manager c.1
        (close_context-IsQuiet parse_ip name s.manager.entries ([], s.manager))
        (record { names = a.names; live = a.live }) in
    let released =
      quiet-IsBoth s.vip_of s.fired d (release_unique c.0 d) (release_unique-IsQuiet c.0 d)
        (drop_states-IsBoth s.vip_of s.fired c.0 c.1 closed) in
    record { names = released.names; live = released.live }
