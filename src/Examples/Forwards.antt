-- ===== src/Examples/Forwards.antt =====
-- internal/k8s/forward_manager.go at a concrete manager: one VIP with one listener.
use kube_forwarding_proxy.Base.{
  arith, ◌≡◌, List, refl, text_eq, text_beq, true, Option, none, some, [], ◌∷◌, Text, lookup,
}
use kube_forwarding_proxy.Vip.Address.{Ip, ip4}
use kube_forwarding_proxy.K8s.ForwardManager.{
  key_eq, new_manager, ForwardKey, VipState, Manager, idle_enabled, touch_vip, expire_vip,
  conn_begin,
}
use kube_forwarding_proxy.K8s.ForwardManager.Tracking.Expiry.{
  Step, touches, checks, commits, begins, ends, shuts_context, run, run-expire_vip,
}
use kube_forwarding_proxy.K8s.ForwardManager.Idle.{
  conn_begin-expire_vip, touch_vip-expire_vip, expire_vip_idle,
}

abbrev pub vip : Text
vip = 10 ∷ 2 ∷ []

abbrev pub read_ip : Text → Option Ip
read_ip (a ∷ d ∷ []) = some (ip4 a 0 0 d)
read_ip _ = none

abbrev pub key : ForwardKey
key = record { context_name = b'd' ∷ []; vip_addr = vip; svc_port = 80 }

abbrev idle_state : VipState
idle_state = record {
  timer = some (record { vip = vip; gen = 3 });
  generation = 3;
  active_conns = 0;
  forward_keys = key ∷ [];
}

abbrev pub manager : Manager
manager = record {
  idle_timeout = 1800;
  has_releaser = true;
  entries = (key, 7) ∷ [];
  vip_states = (vip, 0) ∷ [];
  store = λ p. idle_state;
  next_pointer = 1;
  closed = [];
  released = [];
}

vip_is_tracked : lookup vip manager.vip_states ≡ some 0
unfolding lookup text_beq
vip_is_tracked = refl

manager_is_enabled : idle_enabled manager ≡ true
unfolding idle_enabled
manager_is_enabled = refl

conn_begin-expire_vip_example :
    expire_vip read_ip vip 3 (conn_begin (some 0) manager) ≡ conn_begin (some 0) manager
conn_begin-expire_vip_example =
    conn_begin-expire_vip read_ip vip 3 0 manager vip_is_tracked (omega arith)

touch_vip-expire_vip_example :
    expire_vip read_ip vip 3 (touch_vip vip manager) ≡ touch_vip vip manager
touch_vip-expire_vip_example =
    touch_vip-expire_vip read_ip vip 0 manager manager_is_enabled vip_is_tracked

expire_vip_idle_example : (expire_vip read_ip vip 3 manager).released ≡ ip4 10 0 0 2 ∷ []
expire_vip_idle_example =
    (expire_vip_idle read_ip vip (ip4 10 0 0 2) 0 manager key vip vip_is_tracked refl refl).2

-- The listener is started, the VIP is touched, a connection comes and goes, and another context is
-- shut down.
abbrev history : List Step
history =
    shuts_context []
    ∷ ends vip (some 0)
    ∷ begins vip (some 0)
    ∷ touches vip
    ∷ commits key 7
    ∷ checks key
    ∷ []

run-expire_vip_example :
    let m = run read_ip history (new_manager true 1800) in
    lookup (record key { vip_addr = 10 ∷ 3 ∷ [] }) (expire_vip read_ip vip 3 m).entries
    ≡ lookup (record key { vip_addr = 10 ∷ 3 ∷ [] }) m.entries
run-expire_vip_example =
    run-expire_vip read_ip true 1800 history vip 3 (record key { vip_addr = 10 ∷ 3 ∷ [] }) (λ e. cc)
