-- ===== src/K8s/ForwardManager/Timers/Liveness.antt =====
-- internal/k8s/forward_manager.go: what a tracked VIP waits for.
use kube_forwarding_proxy.Base.{
  ℕ, ◌+◌, ◌-◌, ◌%◌, ◌<◌, ◌≡◌, ◌≢◌, refl, sym, ap, ◌∙◌, ◌⊎◌, inl, inr, true, Option, none, some,
  Text, text_eq, arith, lookup, Option-cases, Bool-cases, subst, nat_beq, ltb,
}
use kube_forwarding_proxy.Vip.Address.{u32_mod}
use kube_forwarding_proxy.K8s.ForwardManager.{
  is_positive, i32_limit, ForwardKey, key_eq, VipState, Manager, write, set_state, idle_enabled,
  rearm, touch_state, touch_found, touch_vip_locked, start_check, conn_begin, conn_end,
}
use kube_forwarding_proxy.K8s.ForwardManager.Timers.Frame.{IsPart, IsQuiet}

pub record IsNamed (vip_of : ℕ → Text) (m : Manager) : Type 0 where
  pub named : (vip : Text) (p : ℕ) → lookup vip m.vip_states ≡ some p → vip_of p ≡ vip
  pub bounded : (vip : Text) (p : ℕ) → lookup vip m.vip_states ≡ some p → p < m.next_pointer
  pub enabled : (vip : Text) (p : ℕ) → lookup vip m.vip_states ≡ some p → idle_enabled m ≡ true

pub part-IsNamed :
    (vip_of : ℕ → Text) (m m' : Manager) → IsPart m m' → IsNamed vip_of m → IsNamed vip_of m'
unfolding idle_enabled
part-IsNamed vip_of m m' part n = record {
  named = λ v p l. n.named v p (part.kept v p l);
  bounded = λ v p l. rw part.pointer (n.bounded v p (part.kept v p l));
  enabled = λ v p l. rw (part.timeout, part.releaser) (n.enabled v p (part.kept v p l));
}

-- A connection is active, or a timer runs that will end the current generation, or its callback is on
-- its way.
abbrev pub IsAwaited : (Text → ℕ → ℕ) → Text → VipState → Type 0
IsAwaited fired vip s =
    (0 < s.active_conns)
    ⊎ ((s.timer ≡ some (record { vip = vip; gen = s.generation })) ⊎ (0 < fired vip s.generation))

touch_state-IsAwaited :
    (fired : Text → ℕ → ℕ) (vip : Text) (s : VipState) → IsAwaited fired vip (touch_state vip s)
unfolding touch_state rearm
touch_state-IsAwaited fired vip s = elim (Bool-cases (is_positive s.active_conns)) [
  | inl active ↦ rw active (inl (ground arith))
  | inr idle ↦ rw idle (inr (inl refl))
]

module _ (vip_of : ℕ → Text) (fired : Text → ℕ → ℕ) where
  -- Every tracked VIP is awaited, but perhaps one.
  abbrev pub IsLiveBut : Text → Manager → Type 0
  IsLiveBut but m =
      (vip : Text) (p : ℕ)
      → lookup vip m.vip_states ≡ some p
      → vip ≢ but
      → IsAwaited fired vip (m.store p)

  abbrev pub IsLive : Manager → Type 0
  IsLive m =
      (vip : Text) (p : ℕ) → lookup vip m.vip_states ≡ some p → IsAwaited fired vip (m.store p)

  pub quiet-IsLive : (m m' : Manager) → IsQuiet m m' → IsLive m → IsLive m'
  quiet-IsLive m m' q live v p l = rw q.store (live v p (q.part.kept v p l))

  write_cases :
      (p q : ℕ) (s : VipState) (store : ℕ → VipState)
      → ((p ≡ q) × (write p s store q ≡ s)) ⊎ ((p ≢ q) × (write p s store q ≡ store q))
  unfolding write
  write_cases p q s store = ground arith

  pub set_state-IsLive :
      (p : ℕ) (s : VipState) (m : Manager)
      → ((vip : Text) → lookup vip m.vip_states ≡ some p → IsAwaited fired vip s)
      → IsLive m
      → IsLive (set_state p s m)
  unfolding set_state
  set_state-IsLive p s m here live v q l = elim (write_cases p q s m.store) [
    | inl (same, e) ↦ rw e (here v (l ∙ ap some (sym same)))
    | inr (ne, e) ↦ rw e (live v q l)
  ]

  touch_found-IsLive :
      (vip : Text) (o : Option ℕ) (m : Manager)
      → lookup vip m.vip_states ≡ o
      → IsNamed vip_of m
      → IsLiveBut vip m
      → IsLive (touch_found vip o m)
  unfolding touch_found set_state
  touch_found-IsLive vip none m e n live v q l =
      live v q l (λ same. absurd (let e' = ap (λ x. lookup x m.vip_states) same in cc))
  touch_found-IsLive vip (some p) m e n live v q l =
      elim (write_cases p q (touch_state vip (m.store p)) m.store) [
        | inl (same, w) ↦
            let names : v ≡ vip = sym (n.named v q l) ∙ (ap vip_of (sym same) ∙ n.named vip p e) in
            rw w (
              subst (λ x. IsAwaited fired x (touch_state vip (m.store p))) (sym names)
                (touch_state-IsAwaited fired vip (m.store p)))
        | inr (ne, w) ↦
            rw w
              (live v q l (λ same. ne (ground (arith, e, l, ap (λ x. lookup x m.vip_states) same))))
      ]

  pub touch_vip_locked-IsLive :
      (vip : Text) (m : Manager)
      → IsNamed vip_of m
      → IsLiveBut vip m
      → IsLive (touch_vip_locked vip m)
  unfolding touch_vip_locked
  touch_vip_locked-IsLive vip m n live = elim (Bool-cases (idle_enabled m)) [
    | inl on ↦
        rw (on, touch_vip_locked) (touch_found-IsLive vip (lookup vip m.vip_states) m refl n live)
    | inr off ↦ rw (off, touch_vip_locked) (λ v p l. absurd (let on = n.enabled v p l in cc))
  ]

  pub start_check-IsLive :
      (key : ForwardKey) (m : Manager) → IsNamed vip_of m → IsLive m → IsLive (start_check key m).1
  unfolding start_check
  start_check-IsLive key m n live = elim (Option-cases (lookup key m.entries)) [
    | inl missing ↦ rw (missing, start_check) live
    | inr (l, found) ↦
        rw (found, start_check)
          (touch_vip_locked-IsLive key.vip_addr m n (λ v p l' ne. live v p l'))
  ]

  pub conn_begin-IsLive :
      (p : ℕ) (m : Manager)
      → (m.store p).active_conns + 1 < i32_limit
      → IsLive m
      → IsLive (conn_begin (some p) m)
  unfolding conn_begin
  conn_begin-IsLive p m few live = set_state-IsLive p _ m (λ v l. inl (omega arith)) live

  pub conn_end-IsLive :
      (p : ℕ) (m : Manager) → IsNamed vip_of m → IsLive m → IsLive (conn_end (vip_of p) (some p) m)
  unfolding conn_end rearm idle_enabled
  conn_end-IsLive p m n live =
      set_state-IsLive p _ m
        (λ v l. elim (Bool-cases (nat_beq (((m.store p).active_conns + u32_mod - 1) % u32_mod) 0)) [
          | inl last ↦
              let on : ltb 0 m.idle_timeout ≡ true = ground (arith, n.enabled v p l) in
              rw (last, on)
                (inr (
                  inl (
                    ap
                      (λ x. some (record {
                        vip = x;
                        gen = ((m.store p).generation + 1) % 18446744073709551616;
                      }))
                      (n.named v p l))))
          | inr more ↦ rw more (inl (ground arith))
        ])
        live
