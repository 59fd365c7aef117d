-- ===== src/K8s/ForwardManager/Idle.antt =====
-- internal/k8s/forward_manager.go: what a timer's callback may tear down, and when it may not.
use kube_forwarding_proxy.Base.{
  ℕ, ◌+◌, ◌-◌, ◌%◌, ◌<◌, ◌≡◌, ◌≢◌, refl, ap, ◌∙◌, ◌⊎◌, inl, inr, true, false, not, ◌||◌, ◌&&◌,
  Option, none, some, List, [], ◌∷◌, Text, text_eq, ◌==◌, lookup, delete, lookup-delete,
  if◌then◌else◌, ltb, nat_beq, arith, Bool-cases,
}
use kube_forwarding_proxy.Vip.Address.{Ip, u32_mod}
use kube_forwarding_proxy.K8s.ForwardManager.{
  is_positive, i32_limit, ForwardKey, key_eq, VipState, Manager, write, set_state, idle_enabled,
  rearm, touch_state, touch_found, touch_vip_locked, touch_vip, close_found, close_keys,
  release_text, expire_state, expire_vip, conn_begin, conn_end,
}
use kube_forwarding_proxy.K8s.ForwardManager.Listeners.{
  IsShut, has_key, lookup-close_found, close_keys-IsShut,
}

-- A state that no callback of the given generation may tear down.
abbrev IsShielded : ℕ → VipState → Type 0
IsShielded gen s = (s.generation ≢ gen) ⊎ (is_positive s.active_conns ≡ true)

-- A callback that is out of date, or comes while a connection is active, changes nothing.
expire_blocked :
    (parse_ip : Text → Option Ip) (vip : Text) (gen p : ℕ) (m : Manager)
    → lookup vip m.vip_states ≡ some p
    → IsShielded gen (m.store p)
    → expire_vip parse_ip vip gen m ≡ m
unfolding expire_vip
expire_blocked parse_ip vip gen p m e h = ap (λ o. expire_state parse_ip vip gen o m) e ∙ blocked
  where
    blocked : expire_state parse_ip vip gen (some p) m ≡ m
    blocked =
        let test : not (nat_beq (m.store p).generation gen) || is_positive (m.store p).active_conns
            ≡ true =
          ground arith in
        rw test

write_self : (p : ℕ) (v : VipState) (store : ℕ → VipState) → write p v store p ≡ v
unfolding write
write_self p v store = ground arith

touch_state-IsShielded : (vip : Text) (s : VipState) → IsShielded s.generation (touch_state vip s)
unfolding touch_state
touch_state-IsShielded vip s = elim (Bool-cases (is_positive s.active_conns)) [
  | inl active ↦ rw active (inr active)
  | inr idle ↦ rw idle (inl (λ same. omega arith))
]

end-IsShielded :
    (vip : Text) (s : VipState) (timeout : ℕ)
    → ltb 0 timeout ≡ true
    → is_positive s.active_conns ≡ true
    → let t = record s { active_conns = (s.active_conns + u32_mod - 1) % u32_mod } in
      IsShielded s.generation (if nat_beq t.active_conns 0 && ltb 0 timeout then rearm vip t else t)
unfolding rearm
end-IsShielded vip s timeout on counted =
    elim (Bool-cases (nat_beq ((s.active_conns + u32_mod - 1) % u32_mod) 0)) [
      | inl last ↦ rw (last, on) (inl (λ same. omega arith))
      | inr more ↦ rw more (inr (ground arith))
    ]

set_state-expire_vip :
    (parse_ip : Text → Option Ip) (vip : Text) (gen p : ℕ) (v : VipState) (m : Manager)
    → lookup vip m.vip_states ≡ some p
    → IsShielded gen v
    → expire_vip parse_ip vip gen (set_state p v m) ≡ set_state p v m
unfolding set_state
set_state-expire_vip parse_ip vip gen p v m e h =
    expire_blocked parse_ip vip gen p (set_state p v m) e (rw (write_self p v m.store) h)

-- Where fewer than 2³¹ - 1 connections of a tracked VIP are active: right after one more is counted,
-- a timer callback for the VIP changes nothing, whatever its generation.
pub conn_begin-expire_vip :
    (parse_ip : Text → Option Ip) (vip : Text) (gen p : ℕ) (m : Manager)
    → lookup vip m.vip_states ≡ some p
    → (m.store p).active_conns + 1 < i32_limit
    → expire_vip parse_ip vip gen (conn_begin (some p) m) ≡ conn_begin (some p) m
unfolding conn_begin set_state write
conn_begin-expire_vip parse_ip vip gen p m e few =
    expire_blocked parse_ip vip gen p (conn_begin (some p) m) e
      (inr (rw (write_self p _ m.store) (ground arith)))

-- Where idle expiry is enabled and the VIP is tracked, TouchVIP makes the callback of the
-- generation before it void: expireVIP with that generation then changes nothing.
pub touch_vip-expire_vip :
    (parse_ip : Text → Option Ip) (vip : Text) (p : ℕ) (m : Manager)
    → idle_enabled m ≡ true
    → lookup vip m.vip_states ≡ some p
    → expire_vip parse_ip vip (m.store p).generation (touch_vip vip m) ≡ touch_vip vip m
unfolding touch_vip touch_vip_locked touch_found
touch_vip-expire_vip parse_ip vip p m on e =
    let touched : touch_vip vip m ≡ set_state p (touch_state vip (m.store p)) m =
      rw on (ap (λ o. touch_found vip o m) e) in
    rw touched (
      set_state-expire_vip parse_ip vip (m.store p).generation p (touch_state vip (m.store p)) m e
        (touch_state-IsShielded vip (m.store p)))

-- Where idle expiry is enabled, the VIP is tracked and its count of connections is a positive int32,
-- the end of a connection makes the callback of the generation before it void: expireVIP with that generation then changes
-- nothing, whether other connections are still active or not.
pub conn_end-expire_vip :
    (parse_ip : Text → Option Ip) (vip : Text) (p : ℕ) (m : Manager)
    → idle_enabled m ≡ true
    → lookup vip m.vip_states ≡ some p
    → is_positive (m.store p).active_conns ≡ true
    → expire_vip parse_ip vip (m.store p).generation (conn_end vip (some p) m)
      ≡ conn_end vip (some p) m
unfolding conn_end idle_enabled
conn_end-expire_vip parse_ip vip p m on e counted =
    set_state-expire_vip parse_ip vip (m.store p).generation p _ m e
      (end-IsShielded vip (m.store p) m.idle_timeout (ground arith) counted)

-- What closing listeners leaves alone.
record SameStates (m m' : Manager) : Type 0 where
  vip_states : m'.vip_states ≡ m.vip_states
  released : m'.released ≡ m.released

close_found-SameStates :
    (key : ForwardKey) (o : Option ℕ) (m : Manager) → SameStates m (close_found key o m)
unfolding close_found
close_found-SameStates key none m = record { vip_states = refl; released = refl }
close_found-SameStates key (some l) m = record { vip_states = refl; released = refl }

close_keys-SameStates : (keys : List ForwardKey) (m : Manager) → SameStates m (close_keys keys m)
unfolding close_keys
close_keys-SameStates [] m = record { vip_states = refl; released = refl }
close_keys-SameStates (key ∷ keys) m =
    let first = close_found-SameStates key (lookup key m.entries) m in
    let rest = close_keys-SameStates keys (close_found key (lookup key m.entries) m) in
    record {
      vip_states = rest.vip_states ∙ first.vip_states;
      released = rest.released ∙ first.released;
    }

pub lookup-close_keys :
    (key : ForwardKey) (keys : List ForwardKey) (m : Manager)
    → lookup key (close_keys keys m).entries
      ≡ (if has_key key keys then none else lookup key m.entries)
unfolding close_keys
lookup-close_keys key [] m = refl
lookup-close_keys key (k ∷ keys) m = ground (
  arith,
  lookup-close_found key k (lookup k m.entries) m refl,
  lookup-close_keys key keys (close_found k (lookup k m.entries) m),
)

expired_idle :
    (parse_ip : Text → Option Ip) (vip : Text) (ip : Ip) (p : ℕ) (m : Manager)
    → lookup vip m.vip_states ≡ some p
    → (m.store p).active_conns ≡ 0
    → parse_ip vip ≡ some ip
    → expire_vip parse_ip vip (m.store p).generation m ≡ (
        let c = close_keys (m.store p).forward_keys m in
        record c { vip_states = delete vip c.vip_states; released = ip ∷ c.released })
unfolding expire_vip release_text
expired_idle parse_ip vip ip p m e idle ok =
    ap (λ o. expire_state parse_ip vip (m.store p).generation o m) e ∙ expires
  where
    c : Manager
    c = close_keys (m.store p).forward_keys m

    expires :
        expire_state parse_ip vip (m.store p).generation (some p) m
        ≡ record c { vip_states = delete vip c.vip_states; released = ip ∷ c.released }
    expires =
        let test : not (nat_beq (m.store p).generation (m.store p).generation)
              || is_positive (m.store p).active_conns
            ≡ false =
          ground arith in
        rw test (rw (ok, release_text))

-- The callback of the current generation, with no connection active and an address that parses,
-- ends a tracked VIP: its state's listeners are gone and closed, it is no longer tracked, and its
-- address is released. Every listener of another key and every other VIP's tracking stay.
pub expire_vip_idle :
    (parse_ip : Text → Option Ip) (vip : Text) (ip : Ip) (p : ℕ) (m : Manager) (key : ForwardKey)
    (other : Text)
    → lookup vip m.vip_states ≡ some p
    → (m.store p).active_conns ≡ 0
    → parse_ip vip ≡ some ip
    → let m' = expire_vip parse_ip vip (m.store p).generation m in
      (lookup key m'.entries
        ≡ (if has_key key (m.store p).forward_keys then none else lookup key m.entries))
      × (lookup other m'.vip_states ≡ (if vip == other then none else lookup other m.vip_states))
      × (m'.released ≡ ip ∷ m.released)
      × IsShut
          (if has_key key (m.store p).forward_keys then lookup key m.entries else none)
          m'.closed
expire_vip_idle parse_ip vip ip p m key other e idle ok =
    let keys = (m.store p).forward_keys in
    let same = close_keys-SameStates keys m in
    rw (expired_idle parse_ip vip ip p m e idle ok) (
      lookup-close_keys key keys m,
      lookup-delete other vip (close_keys keys m).vip_states
          ∙ ap (λ d. if vip == other then none else lookup other d) same.vip_states,
      ap (λ r. ip ∷ r) same.released,
      close_keys-IsShut key keys m,
    )
