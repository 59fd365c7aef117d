-- ===== src/K8s/ForwardManager/Tracking/Expiry.antt =====
-- internal/k8s/forward_manager.go: sequences of steps, and what a timer's callback closes after them.
use kube_forwarding_proxy.Base.{
  ℕ, ◌≡◌, ◌≢◌, ◌<◌, refl, sym, ap, ◌∙◌, inl, inr, Bool, false, not, Option, none, some, List, [],
  ◌∷◌, Text, text_eq, arith, All, lookup, delete, ◌⊎◌, lookup-delete_inv, Option-cases, Bool-cases,
  if◌then◌else◌, subst, nat_beq, ◌||◌,
}
use kube_forwarding_proxy.Vip.Address.{Ip}
use kube_forwarding_proxy.K8s.ForwardManager.{
  is_positive, ForwardKey, key_eq, key_beq_iff, Manager, new_manager, touch_vip, start_check,
  start_commit, close_found, close_keys, release_text, expire_state, expire_vip, conn_begin,
  conn_end,
}
use kube_forwarding_proxy.K8s.ForwardManager.Idle.{lookup-close_keys}
use kube_forwarding_proxy.K8s.ForwardManager.Listeners.{has_key}
use kube_forwarding_proxy.K8s.ForwardManager.Shutdown.{shutdown_context, shutdown}
use kube_forwarding_proxy.K8s.ForwardManager.Tracking.Shutdowns.{
  shutdown_context-IsTracked, shutdown-IsTracked,
}
use kube_forwarding_proxy.K8s.ForwardManager.Tracking.{
  IsOf, IsTracked, touch_vip_locked-IsTracked, start_check-IsTracked, start_commit-IsTracked,
  conn_begin-IsTracked, conn_end-IsTracked,
}

-- What closing listeners, and releasing the address, leave alone.
record SameTracking (m m' : Manager) : Type 0 where
  pub states : m'.vip_states ≡ m.vip_states
  pub store : m'.store ≡ m.store
  pub pointer : m'.next_pointer ≡ m.next_pointer

close_found-SameTracking :
    (key : ForwardKey) (o : Option ℕ) (m : Manager) → SameTracking m (close_found key o m)
unfolding close_found
close_found-SameTracking key none m = record { states = refl; store = refl; pointer = refl }
close_found-SameTracking key (some l) m = record { states = refl; store = refl; pointer = refl }

close_keys-SameTracking :
    (keys : List ForwardKey) (m : Manager) → SameTracking m (close_keys keys m)
unfolding close_keys
close_keys-SameTracking [] m = record { states = refl; store = refl; pointer = refl }
close_keys-SameTracking (key ∷ keys) m =
    let first = close_found-SameTracking key (lookup key m.entries) m in
    let rest = close_keys-SameTracking keys (close_found key (lookup key m.entries) m) in
    record {
      states = rest.states ∙ first.states;
      store = rest.store ∙ first.store;
      pointer = rest.pointer ∙ first.pointer;
    }

-- A callback that tears its VIP down.
pub record IsExpired (vip : Text) (p : ℕ) (m m' : Manager) : Type 0 where
  pub states : m'.vip_states ≡ delete vip m.vip_states
  pub store : m'.store ≡ m.store
  pub pointer : m'.next_pointer ≡ m.next_pointer
  pub entries : m'.entries ≡ (close_keys (m.store p).forward_keys m).entries

release_text-IsExpired :
    (parse_ip : Text → Option Ip) (vip : Text) (p : ℕ) (m m' : Manager)
    → IsExpired vip p m m'
    → IsExpired vip p m (release_text parse_ip vip m')
unfolding release_text
release_text-IsExpired parse_ip vip p m m' x = elim (Option-cases (parse_ip vip)) [
  | inl missing ↦ rw (missing, release_text) x
  | inr (ip, found) ↦
      rw (found, release_text)
        (record { states = x.states; store = x.store; pointer = x.pointer; entries = x.entries })
]

pub expire_state-cases :
    (parse_ip : Text → Option Ip) (vip : Text) (gen p : ℕ) (m : Manager)
    → ((expire_state parse_ip vip gen (some p) m ≡ m)
        × (((m.store p).generation ≢ gen) ⊎ (0 < (m.store p).active_conns)))
      ⊎ IsExpired vip p m (expire_state parse_ip vip gen (some p) m)
unfolding expire_state
expire_state-cases parse_ip vip gen p m =
    let s = m.store p in
    let c = close_keys s.forward_keys m in
    let same = close_keys-SameTracking s.forward_keys m in
    elim (Bool-cases (not (nat_beq s.generation gen) || is_positive s.active_conns)) [
      | inl blocked ↦ inl (rw blocked refl, ground arith)
      | inr free ↦ inr (
          rw free (
            release_text-IsExpired parse_ip vip p m
              (record c { vip_states = delete vip c.vip_states })
              (record {
                states = ap (delete vip) same.states;
                store = same.store;
                pointer = same.pointer;
                entries = refl;
              })))
    ]

IsExpired-IsTracked :
    (vip : Text) (p : ℕ) (m m' : Manager) → IsExpired vip p m m' → IsTracked m → IsTracked m'
IsExpired-IsTracked vip p m m' x t =
    let held : (v : Text) (q : ℕ)
        → lookup v m'.vip_states ≡ some q
        → lookup v m.vip_states ≡ some q =
      λ v q l. (lookup-delete_inv v vip q m.vip_states (ap (lookup v) (sym x.states) ∙ l)).1 in
    record {
      bounded = λ v q l. rw (x.pointer) (t.bounded v q (held v q l));
      distinct = λ v w q l l'. t.distinct v w q (held v q l) (held w q l');
      own = λ v q l. rw (x.store) (t.own v q (held v q l));
    }

expire_vip-IsTracked :
    (parse_ip : Text → Option Ip) (vip : Text) (gen : ℕ) (m : Manager)
    → IsTracked m
    → IsTracked (expire_vip parse_ip vip gen m)
unfolding expire_vip expire_state
expire_vip-IsTracked parse_ip vip gen m t = elim (Option-cases (lookup vip m.vip_states)) [
  | inl missing ↦ rw (missing, expire_vip, expire_state) t
  | inr (p, found) ↦ elim (expire_state-cases parse_ip vip gen p m) [
    | inl (same, why) ↦ rw (found, expire_vip) (subst IsTracked (sym same) t)
    | inr x ↦ rw (found, expire_vip) (IsExpired-IsTracked vip p m _ x t)
  ]
]

touch_vip-IsTracked : (vip : Text) (m : Manager) → IsTracked m → IsTracked (touch_vip vip m)
unfolding touch_vip
touch_vip-IsTracked vip m t = touch_vip_locked-IsTracked vip m t

-- A locked section of the manager, with the pointer of a state where it has one from before.
pub data Step : Type 0 where
  touches : Text → Step
  checks : ForwardKey → Step
  commits : ForwardKey → ℕ → Step
  expires : Text → ℕ → Step
  begins ends : Text → Option ℕ → Step
  shuts_context : Text → Step
  shuts : Step

abbrev pub step : (Text → Option Ip) → Step → Manager → Manager
step parse_ip (touches vip) m = touch_vip vip m
step parse_ip (checks key) m = (start_check key m).1
step parse_ip (commits key listener) m = start_commit key listener m
step parse_ip (expires vip gen) m = expire_vip parse_ip vip gen m
step parse_ip (begins vip p) m = conn_begin p m
step parse_ip (ends vip p) m = conn_end vip p m
step parse_ip (shuts_context name) m = shutdown_context parse_ip name m
step parse_ip shuts m = shutdown m

-- The last step of the list is the first that is made.
abbrev pub run : (Text → Option Ip) → List Step → Manager → Manager
run parse_ip [] m = m
run parse_ip (s ∷ ss) m = step parse_ip s (run parse_ip ss m)

run-IsTracked :
    (parse_ip : Text → Option Ip) (steps : List Step) (m : Manager)
    → IsTracked m
    → IsTracked (run parse_ip steps m)
run-IsTracked parse_ip [] m t = t
run-IsTracked parse_ip (touches vip ∷ ss) m t =
    touch_vip-IsTracked vip _ (run-IsTracked parse_ip ss m t)
run-IsTracked parse_ip (checks key ∷ ss) m t =
    start_check-IsTracked key _ (run-IsTracked parse_ip ss m t)
run-IsTracked parse_ip (commits key l ∷ ss) m t =
    start_commit-IsTracked key l _ (run-IsTracked parse_ip ss m t)
run-IsTracked parse_ip (expires vip gen ∷ ss) m t =
    expire_vip-IsTracked parse_ip vip gen _ (run-IsTracked parse_ip ss m t)
run-IsTracked parse_ip (begins vip p ∷ ss) m t =
    conn_begin-IsTracked p _ (run-IsTracked parse_ip ss m t)
run-IsTracked parse_ip (ends vip p ∷ ss) m t =
    conn_end-IsTracked vip p _ (run-IsTracked parse_ip ss m t)
run-IsTracked parse_ip (shuts_context name ∷ ss) m t =
    shutdown_context-IsTracked parse_ip name _ (run-IsTracked parse_ip ss m t)
run-IsTracked parse_ip (shuts ∷ ss) m t = shutdown-IsTracked (run parse_ip ss m)

other_key :
    (vip : Text) (key : ForwardKey) (keys : List ForwardKey)
    → All (IsOf vip) keys
    → key.vip_addr ≢ vip
    → has_key key keys ≡ false
other_key vip key [] all ne = refl
other_key vip key (k ∷ keys) (first, rest) ne =
    let differ : k ≢ key = λ e. ne (ap (λ j. j.vip_addr) (sym e) ∙ first) in
    ground (arith, key_beq_iff k key, other_key vip key keys rest ne)

-- After each sequence of steps from a new manager (touches, starts, timer callbacks, connections that
-- begin and end, and shutdowns), a timer callback closes listeners of its own VIP only: the listener of every key with another address stays as it is.
pub run-expire_vip :
    (parse_ip : Text → Option Ip) (has_releaser : Bool) (timeout : ℕ) (steps : List Step)
    (vip : Text) (gen : ℕ) (key : ForwardKey)
    → key.vip_addr ≢ vip
    → let m = run parse_ip steps (new_manager has_releaser timeout) in
      lookup key (expire_vip parse_ip vip gen m).entries ≡ lookup key m.entries
unfolding expire_vip expire_state new_manager lookup
run-expire_vip parse_ip has_releaser timeout steps vip gen key ne =
    let m = run parse_ip steps (new_manager has_releaser timeout) in
    let t = run-IsTracked parse_ip steps (new_manager has_releaser timeout) (record {
      bounded = λ v p l. absurd (cc);
      distinct = λ v w p l l'. absurd (cc);
      own = λ v p l. absurd (cc);
    }) in
    elim (Option-cases (lookup vip m.vip_states)) [
      | inl missing ↦ rw (missing, expire_vip, expire_state) refl
      | inr (p, found) ↦ elim (expire_state-cases parse_ip vip gen p m) [
        | inl (same, why) ↦ rw (found, expire_vip) (ap (λ x. lookup key x.entries) same)
        | inr x ↦
            rw (found, expire_vip)
              (ap (lookup key) x.entries
                ∙ (lookup-close_keys key (m.store p).forward_keys m
                    ∙ ap (λ b. if b then none else lookup key m.entries)
                        (other_key vip key (m.store p).forward_keys (t.own vip p found) ne)))
      ]
    ]
