-- ===== src/K8s/ForwardManager/Tracking.antt =====
-- internal/k8s/forward_manager.go: the states are apart, and each has keys of its own VIP only.
pub mod Shutdowns
pub mod Expiry
use kube_forwarding_proxy.Base.{
  ℕ, ◌+◌, ◌-◌, ◌<◌, ◌≡◌, ◌≢◌, refl, sym, ap, ◌∙◌, inl, inr, Bool, true, false, not, Option, none,
  some, List, [], ◌∷◌, ◌++◌, Text, text_eq, text_beq_iff, arith, All, lookup, insert, delete, ◌⊎◌,
  lookup-insert_cases, lookup-delete_inv, Option-cases, Bool-cases, if◌then◌else◌, ◌==◌, subst,
  nat_beq, ltb, ◌||◌, ◌&&◌,
}
use kube_forwarding_proxy.Vip.Address.{Ip}
use kube_forwarding_proxy.K8s.ForwardManager.{
  ForwardKey, key_eq, key_beq_iff, VipState, Manager, write, set_state, new_manager, idle_enabled,
  rearm, touch_state, touch_found, touch_vip_locked, touch_vip, track_key, start_check,
  start_commit, close_found, close_keys, release_text, expire_state, expire_vip, conn_begin,
  conn_end,
}
use kube_forwarding_proxy.K8s.ForwardManager.Idle.{lookup-close_keys}
use kube_forwarding_proxy.K8s.ForwardManager.Listeners.{has_key}

abbrev pub IsOf : Text → ForwardKey → Type 0
IsOf vip key = key.vip_addr ≡ vip

pub record IsTracked (m : Manager) : Type 0 where
  pub bounded : (vip : Text) (p : ℕ) → lookup vip m.vip_states ≡ some p → p < m.next_pointer
  pub distinct :
      (v w : Text) (p : ℕ) → lookup v m.vip_states ≡ some p → lookup w m.vip_states ≡ some p → v ≡ w
  pub own :
      (vip : Text) (p : ℕ)
      → lookup vip m.vip_states ≡ some p
      → All (IsOf vip) (m.store p).forward_keys

write_keys :
    (p q : ℕ) (s : VipState) (store : ℕ → VipState)
    → s.forward_keys ≡ (store p).forward_keys
    → (write p s store q).forward_keys ≡ (store q).forward_keys
unfolding write
write_keys p q s store e = ground (arith, e, ap (λ i. (store i).forward_keys) {x = p} {y = q})

pub set_state-IsTracked :
    (p : ℕ) (s : VipState) (m : Manager)
    → s.forward_keys ≡ (m.store p).forward_keys
    → IsTracked m
    → IsTracked (set_state p s m)
unfolding set_state
set_state-IsTracked p s m e t = record {
  bounded = t.bounded;
  distinct = t.distinct;
  own = λ vip q l. subst (All (IsOf vip)) (sym (write_keys p q s m.store e)) (t.own vip q l);
}

touch_state-keys : (vip : Text) (s : VipState) → (touch_state vip s).forward_keys ≡ s.forward_keys
unfolding touch_state rearm
touch_state-keys vip s = ground arith

touch_found-IsTracked :
    (vip : Text) (o : Option ℕ) (m : Manager) → IsTracked m → IsTracked (touch_found vip o m)
unfolding touch_found
touch_found-IsTracked vip none m t = t
touch_found-IsTracked vip (some p) m t =
    set_state-IsTracked p (touch_state vip (m.store p)) m (touch_state-keys vip (m.store p)) t

pub touch_vip_locked-IsTracked :
    (vip : Text) (m : Manager) → IsTracked m → IsTracked (touch_vip_locked vip m)
unfolding touch_vip_locked
touch_vip_locked-IsTracked vip m t = elim (Bool-cases (idle_enabled m)) [
  | inl on ↦ rw (on, touch_vip_locked) (touch_found-IsTracked vip (lookup vip m.vip_states) m t)
  | inr off ↦ rw (off, touch_vip_locked) t
]

pub start_check-IsTracked :
    (key : ForwardKey) (m : Manager) → IsTracked m → IsTracked (start_check key m).1
unfolding start_check
start_check-IsTracked key m t = elim (Option-cases (lookup key m.entries)) [
  | inl missing ↦ rw (missing, start_check) t
  | inr (l, found) ↦ rw (found, start_check) (touch_vip_locked-IsTracked key.vip_addr m t)
]

All-snoc :
    (vip : Text) (keys : List ForwardKey) (key : ForwardKey)
    → All (IsOf vip) keys
    → key.vip_addr ≡ vip
    → All (IsOf vip) (keys ++ key ∷ [])
All-snoc vip [] key all e = (e, tt)
All-snoc vip (k ∷ keys) key (first, rest) e = (first, All-snoc vip keys key rest e)

pub conn_begin-IsTracked : (p : Option ℕ) (m : Manager) → IsTracked m → IsTracked (conn_begin p m)
unfolding conn_begin
conn_begin-IsTracked none m t = t
conn_begin-IsTracked (some p) m t = set_state-IsTracked p _ m refl t

pub conn_end-IsTracked :
    (vip : Text) (p : Option ℕ) (m : Manager) → IsTracked m → IsTracked (conn_end vip p m)
unfolding conn_end rearm
conn_end-IsTracked vip none m t = t
conn_end-IsTracked vip (some p) m t = set_state-IsTracked p _ m (ground arith) t

write_hit : (p q : ℕ) (s : VipState) (store : ℕ → VipState) → p ≡ q → write p s store q ≡ s
unfolding write
write_hit p q s store e = ground arith

write_miss : (p q : ℕ) (s : VipState) (store : ℕ → VipState) → p ≢ q → write p s store q ≡ store q
unfolding write
write_miss p q s store e = ground arith

append_key-IsTracked :
    (key : ForwardKey) (p : ℕ) (s : VipState) (m : Manager)
    → lookup key.vip_addr m.vip_states ≡ some p
    → s.forward_keys ≡ (m.store p).forward_keys ++ key ∷ []
    → IsTracked m
    → IsTracked (set_state p s m)
unfolding set_state
append_key-IsTracked key p s m e keys t = record {
  bounded = t.bounded;
  distinct = t.distinct;
  own = λ vip q l. elim (Bool-cases (nat_beq p q)) [
    | inl hit ↦
        let same : p ≡ q = ground arith in
        let own_vip : key.vip_addr ≡ vip = t.distinct key.vip_addr vip q (e ∙ ap some same) l in
        rw (write_hit p q s m.store same, keys)
          (All-snoc vip (m.store p).forward_keys key
            (subst (λ i. All (IsOf vip) (m.store i).forward_keys) (sym same) (t.own vip q l))
            own_vip)
    | inr miss ↦ rw (write_miss p q s m.store (ground arith)) (t.own vip q l)
  ];
}

track_key-IsTracked :
    (key : ForwardKey) (o : Option ℕ) (m : Manager)
    → lookup key.vip_addr m.vip_states ≡ o
    → IsTracked m
    → IsTracked (track_key key o m)
unfolding track_key set_state
track_key-IsTracked key (some p) m e t = append_key-IsTracked key p _ m e refl t
track_key-IsTracked key none m e t =
    let p = m.next_pointer in
    let k = key.vip_addr in
    record {
      bounded = λ vip q l. elim (lookup-insert_cases vip k p q m.vip_states l) [
        | inl (a, b) ↦ omega arith
        | inr (a, b) ↦ omega (arith, t.bounded vip q b)
      ];
      distinct = λ v w q l l'. elim (lookup-insert_cases v k p q m.vip_states l) [
        | inl (a, b) ↦ elim (lookup-insert_cases w k p q m.vip_states l') [
          | inl (a', b') ↦ sym a ∙ a'
          | inr (a', b') ↦ absurd (omega (arith, t.bounded w q b'))
        ]
        | inr (a, b) ↦ elim (lookup-insert_cases w k p q m.vip_states l') [
          | inl (a', b') ↦ absurd (omega (arith, t.bounded v q b))
          | inr (a', b') ↦ t.distinct v w q b b'
        ]
      ];
      own = λ vip q l. elim (lookup-insert_cases vip k p q m.vip_states l) [
        | inl (a, b) ↦ rw (write_hit p q _ m.store b) (a, tt)
        | inr (a, b) ↦
            rw (write_miss p q _ m.store (λ same. omega (arith, t.bounded vip q b))) (t.own vip q b)
      ];
    }

-- IsTracked looks at the states only.
pub same_states-IsTracked :
    (m m' : Manager)
    → m'.vip_states ≡ m.vip_states
    → m'.store ≡ m.store
    → m'.next_pointer ≡ m.next_pointer
    → IsTracked m
    → IsTracked m'
same_states-IsTracked m m' e f g t = record {
  bounded = λ vip p l. rw g (t.bounded vip p (ap (lookup vip) (sym e) ∙ l));
  distinct =
      λ v w p l l'. t.distinct v w p (ap (lookup v) (sym e) ∙ l) (ap (lookup w) (sym e) ∙ l');
  own = λ vip p l. rw f (t.own vip p (ap (lookup vip) (sym e) ∙ l));
}

pub start_commit-IsTracked :
    (key : ForwardKey) (listener : ℕ) (m : Manager)
    → IsTracked m
    → IsTracked (start_commit key listener m)
unfolding start_commit
start_commit-IsTracked key listener m t = elim (Option-cases (lookup key m.entries)) [
  | inr (other, found) ↦
      rw (found, start_commit)
        (same_states-IsTracked (touch_vip_locked key.vip_addr m) _ refl refl refl
          (touch_vip_locked-IsTracked key.vip_addr m t))
  | inl missing ↦
      let m' = record m { entries = insert key listener m.entries } in
      let t' = same_states-IsTracked m m' refl refl refl t in
      elim (Bool-cases (idle_enabled m)) [
        | inl on ↦
            rw (missing, start_commit)
              (rw on (
                touch_vip_locked-IsTracked key.vip_addr
                  (track_key key (lookup key.vip_addr m.vip_states) m')
                  (track_key-IsTracked key (lookup key.vip_addr m.vip_states) m' refl t')))
        | inr off ↦ rw (missing, start_commit) (rw off t')
      ]
]
