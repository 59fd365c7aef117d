-- ===== src/K8s/ForwardManager/Timers/Callbacks.antt =====
-- internal/k8s/forward_manager.go: timers that fire, and their callbacks.
use kube_forwarding_proxy.Base.{
  ℕ, ◌<◌, ◌≡◌, refl, sym, ap, ◌∙◌, inl, inr, ◌&&◌, Option, none, some, Text, text_eq, text_beq,
  text_beq_iff, arith, lookup, delete, lookup-delete_self, Bool-cases, subst, nat_beq,
}
use kube_forwarding_proxy.Vip.Address.{Ip}
use kube_forwarding_proxy.K8s.ForwardManager.{
  key_eq, Callback, Manager, set_state, expire_state, expire_vip,
}
use kube_forwarding_proxy.K8s.ForwardManager.Tracking.Expiry.{expire_state-cases}
use kube_forwarding_proxy.K8s.ForwardManager.Timers.{Timeline, add_fired, sub_fired}
use kube_forwarding_proxy.K8s.ForwardManager.Timers.Frame.{set_state-IsPart, expire_vip-IsQuiet}
use kube_forwarding_proxy.K8s.ForwardManager.Timers.Liveness.{
  part-IsNamed, IsAwaited, set_state-IsLive,
}
use kube_forwarding_proxy.K8s.ForwardManager.Timers.Commits.{IsAwake}

pub fires-IsAwake :
    (s : Timeline) (p : ℕ) (c : Callback)
    → (s.manager.store p).timer ≡ some c
    → IsAwake s
    → IsAwake (record s {
      manager = set_state p (record (s.manager.store p) { timer = none }) s.manager;
      fired = add_fired c.vip c.gen s.fired;
    })
fires-IsAwake s p c armed a =
    let fired = add_fired c.vip c.gen s.fired in
    let state = s.manager.store p in
    record {
      names = part-IsNamed s.vip_of s.manager _ (set_state-IsPart p _ s.manager) a.names;
      live =
          set_state-IsLive s.vip_of fired p (record state { timer = none }) s.manager
            (λ v l. elim (a.live v p l) [
              | inl active ↦ inl active
              | inr (inl timed) ↦ inr (inr (ground (arith, timed, armed, text_beq_iff c.vip v)))
              | inr (inr waiting) ↦ inr (inr (ground (arith, waiting)))
            ])
            (λ v q l. elim (a.live v q l) [
              | inl active ↦ inl active
              | inr (inl timed) ↦ inr (inl timed)
              | inr (inr waiting) ↦ inr (inr (ground (arith, waiting)))
            ]);
    }

-- Behind the callback of a generation, a state that is still tracked did not wait for it.
expire_vip-IsAwaited :
    (parse_ip : Text → Option Ip) (vip : Text) (gen : ℕ) (fired : Text → ℕ → ℕ) (m : Manager)
    (v : Text) (q : ℕ)
    → lookup v (expire_vip parse_ip vip gen m).vip_states ≡ some q
    → IsAwaited fired v (m.store q)
    → IsAwaited (sub_fired vip gen fired) v (m.store q)
unfolding expire_vip
expire_vip-IsAwaited parse_ip vip gen fired m v q l (inl active) = inl active
expire_vip-IsAwaited parse_ip vip gen fired m v q l (inr (inl timed)) = inr (inl timed)
expire_vip-IsAwaited parse_ip vip gen fired m v q l (inr (inr waiting)) =
    elim (Bool-cases (text_beq vip v && nat_beq gen (m.store q).generation)) [
      | inr other ↦ inr (inr (rw other waiting))
      | inl mine ↦
          let same : vip ≡ v = ground (arith, mine, text_beq_iff vip v) in
          let current : gen ≡ (m.store q).generation = ground (arith, mine) in
          inl (go (lookup vip m.vip_states) refl same current)
    ]
  where
    go :
        (o : Option ℕ)
        → lookup vip m.vip_states ≡ o
        → vip ≡ v
        → gen ≡ (m.store q).generation
        → 0 < (m.store q).active_conns
    go none e same current =
        let kept = (expire_vip-IsQuiet parse_ip vip gen m).part.kept v q l in
        absurd (let e' = ap (λ x. lookup x m.vip_states) same in cc)
    go (some p) e same current =
        let kept = (expire_vip-IsQuiet parse_ip vip gen m).part.kept v q l in
        let pointers : p ≡ q = ground (arith, e, kept, ap (λ x. lookup x m.vip_states) same) in
        let ran : expire_vip parse_ip vip gen m ≡ expire_state parse_ip vip gen (some p) m =
          ap (λ o. expire_state parse_ip vip gen o m) e in
        elim (expire_state-cases parse_ip vip gen p m) [
          | inl (stayed, inl stale) ↦
              absurd (stale (ap (λ i. (m.store i).generation) pointers ∙ sym current))
          | inl (stayed, inr active) ↦ subst (λ i. 0 < (m.store i).active_conns) pointers active
          | inr x ↦ absurd (
              let gone = lookup-delete_self vip m.vip_states in
              let l' = ap (λ w. lookup v w.vip_states) (sym ran) ∙ l in
              let l'' = ap (lookup v) (sym x.states) ∙ l' in
              let l3 = ap (λ y. lookup y (delete vip m.vip_states)) same ∙ l'' in cc)
        ]

pub expires-IsAwake :
    (parse_ip : Text → Option Ip) (s : Timeline) (vip : Text) (gen : ℕ)
    → IsAwake s
    → IsAwake (record s {
      manager = expire_vip parse_ip vip gen s.manager;
      fired = sub_fired vip gen s.fired;
    })
expires-IsAwake parse_ip s vip gen a =
    let quiet = expire_vip-IsQuiet parse_ip vip gen s.manager in
    record {
      names = part-IsNamed s.vip_of s.manager _ quiet.part a.names;
      live = λ v q l. rw quiet.store (
          expire_vip-IsAwaited parse_ip vip gen s.fired s.manager v q l
            (a.live v q (quiet.part.kept v q l)));
    }
