-- ===== src/K8s/ForwardManager/Timers/Commits.antt =====
-- internal/k8s/forward_manager.go: the state of a VIP behind a started listener.
use kube_forwarding_proxy.Base.{
  ℕ, ◌≡◌, refl, sym, ap, ◌∙◌, inl, inr, true, false, Option, none, some, ◌∷◌, Text, text_eq, arith,
  lookup, insert, lookup-insert_cases, Option-cases, Bool-cases, nat_beq, update,
}
use kube_forwarding_proxy.K8s.ForwardManager.{
  ForwardKey, key_eq, Manager, write, set_state, idle_enabled, touch_vip_locked, track_key,
  start_check, start_commit,
}
use kube_forwarding_proxy.K8s.ForwardManager.Timers.{Timeline}
use kube_forwarding_proxy.K8s.ForwardManager.Timers.Frame.{
  touch_vip_locked-IsPart, set_state-IsPart, same-IsQuiet,
}
use kube_forwarding_proxy.K8s.ForwardManager.Timers.Liveness.{
  IsNamed, part-IsNamed, IsLiveBut, IsLive, quiet-IsLive, touch_vip_locked-IsLive,
}

pub record IsAwake (s : Timeline) : Type 0 where
  pub names : IsNamed s.vip_of s.manager
  pub live : IsLive s.vip_of s.fired s.manager

-- A name for the next pointer changes no state's.
update-IsNamed :
    (vip_of : ℕ → Text) (vip : Text) (m : Manager)
    → IsNamed vip_of m
    → IsNamed (update m.next_pointer vip vip_of) m
update-IsNamed vip_of vip m n = record {
  named = λ v p l. ground (arith, n.named v p l, n.bounded v p l);
  bounded = n.bounded;
  enabled = n.enabled;
}

track_key-IsNamed :
    (vip_of : ℕ → Text) (key : ForwardKey) (o : Option ℕ) (m : Manager)
    → idle_enabled m ≡ true
    → IsNamed vip_of m
    → IsNamed (update m.next_pointer key.vip_addr vip_of) (track_key key o m)
unfolding track_key set_state idle_enabled
track_key-IsNamed vip_of key (some p) m on n =
    part-IsNamed (update m.next_pointer key.vip_addr vip_of) m _ (set_state-IsPart p _ m)
      (update-IsNamed vip_of key.vip_addr m n)
track_key-IsNamed vip_of key none m on n =
    let q = m.next_pointer in
    let k = key.vip_addr in
    record {
      named = λ v p l. elim (lookup-insert_cases v k q p m.vip_states l) [
        | inl (a, b) ↦ ground (arith, a, b)
        | inr (a, b) ↦ ground (arith, n.named v p b, n.bounded v p b)
      ];
      bounded = λ v p l. elim (lookup-insert_cases v k q p m.vip_states l) [
        | inl (a, b) ↦ omega arith
        | inr (a, b) ↦ omega (arith, n.bounded v p b)
      ];
      enabled = λ v p l. on;
    }

track_key-IsLiveBut :
    (vip_of : ℕ → Text) (fired : Text → ℕ → ℕ) (key : ForwardKey) (o : Option ℕ) (m : Manager)
    → lookup key.vip_addr m.vip_states ≡ o
    → IsNamed vip_of m
    → IsLive vip_of fired m
    → IsLiveBut vip_of fired key.vip_addr (track_key key o m)
unfolding track_key set_state write
track_key-IsLiveBut vip_of fired key (some p) m e n live v q l ne =
    elim (Bool-cases (nat_beq p q)) [
      | inl hit ↦
          absurd (ne (sym (n.named v q l) ∙ (ap vip_of (ground arith) ∙ n.named key.vip_addr p e)))
      | inr miss ↦ rw miss (live v q l)
    ]
track_key-IsLiveBut vip_of fired key none m e n live v q l ne =
    elim (lookup-insert_cases v key.vip_addr m.next_pointer q m.vip_states l) [
      | inl (a, b) ↦ absurd (ne (sym a))
      | inr (a, b) ↦
          let miss : nat_beq m.next_pointer q ≡ false = ground (arith, n.bounded v q b) in
          rw miss (live v q b)
    ]

pub start_check-IsNamed :
    (vip_of : ℕ → Text) (key : ForwardKey) (m : Manager)
    → IsNamed vip_of m
    → IsNamed vip_of (start_check key m).1
unfolding start_check
start_check-IsNamed vip_of key m n = elim (Option-cases (lookup key m.entries)) [
  | inl missing ↦ rw (missing, start_check) n
  | inr (l, found) ↦
      rw (found, start_check) (part-IsNamed vip_of m _ (touch_vip_locked-IsPart key.vip_addr m) n)
]

pub start_commit-IsAwake :
    (s : Timeline) (key : ForwardKey) (listener : ℕ)
    → IsAwake s
    → IsAwake (record s {
      manager = start_commit key listener s.manager;
      vip_of = update s.manager.next_pointer key.vip_addr s.vip_of;
    })
unfolding start_commit
start_commit-IsAwake s key listener a =
    let m = s.manager in
    let vip_of = update m.next_pointer key.vip_addr s.vip_of in
    let n = update-IsNamed s.vip_of key.vip_addr m a.names in
    elim (Option-cases (lookup key m.entries)) [
      | inr (other, found) ↦
          let t = touch_vip_locked key.vip_addr m in
          let closes =
            same-IsQuiet t (record t { closed = listener ∷ t.closed }) refl refl refl refl refl in
          rw (found, start_commit)
            (record {
              names =
                  part-IsNamed vip_of t _ closes.part
                    (part-IsNamed vip_of m t (touch_vip_locked-IsPart key.vip_addr m) n);
              live = quiet-IsLive vip_of s.fired t _ closes (
                  touch_vip_locked-IsLive vip_of s.fired key.vip_addr m n
                    (λ v p l ne. a.live v p l));
            })
      | inl missing ↦
          let m' = record m { entries = insert key listener m.entries } in
          let adds = same-IsQuiet m m' refl refl refl refl refl in
          let n' = part-IsNamed s.vip_of m m' adds.part a.names in
          let live' = quiet-IsLive s.vip_of s.fired m m' adds a.live in
          elim (Bool-cases (idle_enabled m)) [
            | inr off ↦
                rw (missing, start_commit)
                  (rw off (record { names = part-IsNamed vip_of m m' adds.part n; live = live' }))
            | inl on ↦
                let o = lookup key.vip_addr m.vip_states in
                let tracked = track_key-IsNamed s.vip_of key o m' on n' in
                rw (missing, start_commit)
                  (rw on (record {
                    names =
                        part-IsNamed vip_of (track_key key o m') _
                          (touch_vip_locked-IsPart key.vip_addr (track_key key o m')) tracked;
                    live =
                        touch_vip_locked-IsLive vip_of s.fired key.vip_addr (track_key key o m')
                          tracked (track_key-IsLiveBut s.vip_of s.fired key o m' refl n' live');
                  }))
          ]
    ]
