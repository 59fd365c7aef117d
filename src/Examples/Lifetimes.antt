-- ===== src/Examples/Lifetimes.antt =====
-- internal/k8s/forward_manager.go: a context that is shut down, and a timer that runs.
use kube_forwarding_proxy.Base.{◌≡◌, refl, true, some, [], ◌∷◌, Text, lookup, text_eq, text_beq}
use kube_forwarding_proxy.Vip.Address.{ip4}
use kube_forwarding_proxy.K8s.ForwardManager.{key_eq, key_beq, start_commit}
use kube_forwarding_proxy.K8s.ForwardManager.Shutdown.{shutdown_context}
use kube_forwarding_proxy.K8s.ForwardManager.Shutdown.Context.{IsIn, shutdown_context_lem}
use kube_forwarding_proxy.K8s.ForwardManager.Timers.{Timeline, begin, commits, Reach, here, next}
use kube_forwarding_proxy.K8s.ForwardManager.Timers.Liveness.{IsAwaited}
use kube_forwarding_proxy.K8s.ForwardManager.Timers.Reached.{tracked-IsAwaited}
use kube_forwarding_proxy.Examples.Forwards.{vip, key, read_ip, manager}
use kube_forwarding_proxy.K8s.ForwardManager.{new_manager}
use kube_forwarding_proxy.Base.{insert, update}

abbrev other : Text
other = 10 ∷ 3 ∷ []

shutdown_context_lem_example :
    IsIn (ip4 10 0 0 2) (shutdown_context read_ip (b'd' ∷ []) manager).released
unfolding text_beq
shutdown_context_lem_example =
    (shutdown_context_lem read_ip (b'd' ∷ []) manager key vip other (ip4 10 0 0 2) refl refl refl
      refl).2

-- A listener is started on a new manager.
abbrev started : Timeline
started =
    let s = begin true 1800 in
    record s {
      manager = start_commit key 7 s.manager;
      vip_of = update s.manager.next_pointer key.vip_addr s.vip_of;
    }

started-Reach : Reach read_ip (begin true 1800) started
started-Reach = next here (commits (begin true 1800) key 7)

vip_is_tracked : lookup vip started.manager.vip_states ≡ some 0
unfolding start_commit new_manager lookup text_beq key_beq insert
vip_is_tracked = refl

tracked-IsAwaited_example : IsAwaited started.fired vip (started.manager.store 0)
tracked-IsAwaited_example = tracked-IsAwaited true 1800 vip 0 started-Reach vip_is_tracked
