-- ===== src/K8s/ForwardManager/Timers.antt =====
-- internal/k8s/forward_manager.go: all goroutines' locked sections as sequences of steps, with timers
-- that fire and callbacks that come later.
pub mod Frame
pub mod Liveness
pub mod Commits
pub mod Callbacks
pub mod Shutdowns
pub mod Reached
use kube_forwarding_proxy.Base.{
  ℕ, ◌+◌, ◌-◌, ◌<◌, ◌≡◌, Bool, Option, none, some, [], Text, text_eq, text_beq, ◌&&◌, nat_beq,
  update, if◌then◌else◌,
}
use kube_forwarding_proxy.Vip.Address.{Ip}
use kube_forwarding_proxy.K8s.ForwardManager.{
  i32_limit, ForwardKey, Callback, VipState, Manager, set_state, new_manager, touch_vip,
  start_check, start_commit, expire_vip, conn_begin, conn_end,
}
use kube_forwarding_proxy.K8s.ForwardManager.Shutdown.{shutdown_context, shutdown}

-- `vip_of` is the VIP that a state was made for, and `fired` counts the callbacks on their way, by VIP
-- and generation.
pub record Timeline : Type 0 where
  pub manager : Manager
  pub vip_of : ℕ → Text
  pub fired : Text → ℕ → ℕ

-- One callback more or less.
abbrev pub add_fired : Text → ℕ → (Text → ℕ → ℕ) → Text → ℕ → ℕ
add_fired vip gen f v g = if text_beq vip v && nat_beq gen g then f v g + 1 else f v g

abbrev pub sub_fired : Text → ℕ → (Text → ℕ → ℕ) → Text → ℕ → ℕ
sub_fired vip gen f v g = if text_beq vip v && nat_beq gen g then f v g - 1 else f v g

abbrev pub begin : Bool → ℕ → Timeline
begin has_releaser timeout = record {
  manager = new_manager has_releaser timeout;
  vip_of = λ p. [];
  fired = λ vip gen. 0;
}

-- A connection knows the state of its VIP by the pointer, and has been counted when it ends. Fewer than
-- 2³¹ connections of a VIP are active at a time, so that the count does not wrap.
pub data Step (parse_ip : Text → Option Ip) : Timeline → Timeline → Type 0 where
  touches :
      (s : Timeline) (vip : Text) → Step parse_ip s (record s { manager = touch_vip vip s.manager })
  checks :
      (s : Timeline) (key : ForwardKey)
      → Step parse_ip s (record s { manager = (start_check key s.manager).1 })
  commits :
      (s : Timeline) (key : ForwardKey) (listener : ℕ)
      → Step parse_ip s (record s {
        manager = start_commit key listener s.manager;
        vip_of = update s.manager.next_pointer key.vip_addr s.vip_of;
      })
  fires :
      (s : Timeline) (p : ℕ) (c : Callback)
      → (s.manager.store p).timer ≡ some c
      → Step parse_ip s (record s {
        manager = set_state p (record (s.manager.store p) { timer = none }) s.manager;
        fired = add_fired c.vip c.gen s.fired;
      })
  expires :
      (s : Timeline) (vip : Text) (gen : ℕ)
      → 0 < s.fired vip gen
      → Step parse_ip s (record s {
        manager = expire_vip parse_ip vip gen s.manager;
        fired = sub_fired vip gen s.fired;
      })
  begins :
      (s : Timeline) (p : ℕ)
      → (s.manager.store p).active_conns + 1 < i32_limit
      → Step parse_ip s (record s { manager = conn_begin (some p) s.manager })
  ends :
      (s : Timeline) (p : ℕ)
      → 0 < (s.manager.store p).active_conns
      → Step parse_ip s (record s { manager = conn_end (s.vip_of p) (some p) s.manager })
  shuts_context :
      (s : Timeline) (name : Text)
      → Step parse_ip s (record s { manager = shutdown_context parse_ip name s.manager })
  shuts : (s : Timeline) → Step parse_ip s (record s { manager = shutdown s.manager })

pub data Reach (parse_ip : Text → Option Ip) (first : Timeline) : Timeline → Type 0 where
  here : Reach parse_ip first first
  next : {s t : Timeline} → Reach parse_ip first s → Step parse_ip s t → Reach parse_ip first t
