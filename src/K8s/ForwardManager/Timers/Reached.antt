-- ===== src/K8s/ForwardManager/Timers/Reached.antt =====
-- internal/k8s/forward_manager.go: the tracked VIPs behind a sequence of steps.
use kube_forwarding_proxy.Base.{ℕ, ◌≡◌, Bool, Option, some, Text, text_eq, lookup}
use kube_forwarding_proxy.Vip.Address.{Ip}
use kube_forwarding_proxy.K8s.ForwardManager.{key_eq, new_manager, touch_vip, conn_begin}
use kube_forwarding_proxy.K8s.ForwardManager.Shutdown.{shutdown}
use kube_forwarding_proxy.K8s.ForwardManager.Timers.{
  Timeline, begin, Step, touches, checks, commits, fires, expires, begins, ends, shuts_context,
  shuts, Reach, here, next,
}
use kube_forwarding_proxy.K8s.ForwardManager.Timers.Frame.{
  touch_vip_locked-IsPart, conn_end-IsPart, set_state-IsPart,
}
use kube_forwarding_proxy.K8s.ForwardManager.Timers.Liveness.{
  part-IsNamed, IsAwaited, touch_vip_locked-IsLive, start_check-IsLive, conn_begin-IsLive,
  conn_end-IsLive,
}
use kube_forwarding_proxy.K8s.ForwardManager.Timers.Commits.{
  IsAwake, start_commit-IsAwake, start_check-IsNamed,
}
use kube_forwarding_proxy.K8s.ForwardManager.Timers.Callbacks.{fires-IsAwake, expires-IsAwake}
use kube_forwarding_proxy.K8s.ForwardManager.Timers.Shutdowns.{shutdown_context-IsAwake}

Step-IsAwake :
    {parse_ip : Text → Option Ip} {s t : Timeline} → Step parse_ip s t → IsAwake s → IsAwake t
unfolding touch_vip conn_begin shutdown lookup
Step-IsAwake (touches s vip) a = record {
  names = part-IsNamed s.vip_of s.manager _ (touch_vip_locked-IsPart vip s.manager) a.names;
  live = touch_vip_locked-IsLive s.vip_of s.fired vip s.manager a.names (λ v p l ne. a.live v p l);
}
Step-IsAwake (checks s key) a = record {
  names = start_check-IsNamed s.vip_of key s.manager a.names;
  live = start_check-IsLive s.vip_of s.fired key s.manager a.names a.live;
}
Step-IsAwake (commits s key listener) a = start_commit-IsAwake s key listener a
Step-IsAwake (fires s p c armed) a = fires-IsAwake s p c armed a
Step-IsAwake {parse_ip} (expires s vip gen waiting) a = expires-IsAwake parse_ip s vip gen a
Step-IsAwake (begins s p few) a = record {
  names = part-IsNamed s.vip_of s.manager _ (set_state-IsPart p _ s.manager) a.names;
  live = conn_begin-IsLive s.vip_of s.fired p s.manager few a.live;
}
Step-IsAwake (ends s p counted) a = record {
  names = part-IsNamed s.vip_of s.manager _ (conn_end-IsPart (s.vip_of p) p s.manager) a.names;
  live = conn_end-IsLive s.vip_of s.fired p s.manager a.names a.live;
}
Step-IsAwake {parse_ip} (shuts_context s name) a = shutdown_context-IsAwake parse_ip s name a
Step-IsAwake (shuts s) a = record {
  names = record {
    named = λ v p l. absurd (cc);
    bounded = λ v p l. absurd (cc);
    enabled = λ v p l. absurd (cc);
  };
  live = λ v p l. absurd (cc);
}

Reach-IsAwake :
    {parse_ip : Text → Option Ip} (r : Bool) (timeout : ℕ) {s : Timeline}
    → Reach parse_ip (begin r timeout) s
    → IsAwake s
unfolding new_manager lookup
Reach-IsAwake r timeout here = record {
  names = record {
    named = λ v p l. absurd (cc);
    bounded = λ v p l. absurd (cc);
    enabled = λ v p l. absurd (cc);
  };
  live = λ v p l. absurd (cc);
}
Reach-IsAwake r timeout (next reach st) = Step-IsAwake st (Reach-IsAwake r timeout reach)

-- No idle VIP is forgotten. After every sequence of steps from a new manager (touches, starts, timers
-- that fire, their callbacks in any order, connections that begin and end, fewer than 2³¹ of them
-- active on a VIP at a time, and shutdowns), each VIP
-- that is still tracked has an active connection, or a running timer that will end its current
-- generation, or that timer's callback is on its way.
pub tracked-IsAwaited :
    {parse_ip : Text → Option Ip} (r : Bool) (timeout : ℕ) {s : Timeline} (vip : Text) (p : ℕ)
    → Reach parse_ip (begin r timeout) s
    → lookup vip s.manager.vip_states ≡ some p
    → IsAwaited s.fired vip (s.manager.store p)
tracked-IsAwaited r timeout vip p reach tracked = (Reach-IsAwake r timeout reach).live vip p tracked
