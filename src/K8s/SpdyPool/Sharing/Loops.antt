-- ===== src/K8s/SpdyPool/Sharing/Loops.antt =====
-- internal/k8s/forward_manager.go: the loops of ShutdownContext and Shutdown over the pool.
use mathlib.Core.List.{Memᴰ}
use kube_forwarding_proxy.Base.{
  ℕ, ◌≡◌, ◌≢◌, refl, sym, ap, ◌∙◌, inl, inr, Bool, true, false, some, [], ◌∷◌, Dict, arith, lookup,
  delete, lookup-delete_ne, Bool-cases, ◌==◌,
}
use kube_forwarding_proxy.K8s.SpdyPool.{
  SpdyKey, spdy_key_eq, spdy_key_beq_iff, Pool, close_conn, close_pooled,
}

module _ (given : SpdyKey → Bool) where
  pub close_pooled_entry :
      (d : Dict SpdyKey ℕ) (m : Pool)
      → ((close_pooled given d m).entry ≡ m.entry)
        × ((close_pooled given d m).next_pointer ≡ m.next_pointer)
  unfolding close_pooled close_conn
  close_pooled_entry [] m = (refl, refl)
  close_pooled_entry ((k, p) ∷ d) m = elim (Bool-cases (given k)) [
    | inl mine ↦
        rw (mine, close_pooled)
          (close_pooled_entry d (close_conn p (record m { spdy_pool = delete k m.spdy_pool })))
    | inr other ↦ rw (other, close_pooled) (close_pooled_entry d m)
  ]

  pub close_pooled_closed :
      (d : Dict SpdyKey ℕ) (m : Pool) (c : ℕ)
      → Memᴰ c m.closed
      → Memᴰ c (close_pooled given d m).closed
  unfolding close_pooled close_conn
  close_pooled_closed [] m c h = h
  close_pooled_closed ((k, p) ∷ d) m c h = elim (Bool-cases (given k)) [
    | inl mine ↦
        rw (mine, close_pooled)
          (close_pooled_closed d (close_conn p (record m { spdy_pool = delete k m.spdy_pool })) c
            (Memᴰ.tail h))
    | inr other ↦ rw (other, close_pooled) (close_pooled_closed d m c h)
  ]

  pub close_pooled_other :
      (d : Dict SpdyKey ℕ) (m : Pool) (key : SpdyKey)
      → given key ≡ false
      → lookup key (close_pooled given d m).spdy_pool ≡ lookup key m.spdy_pool
  unfolding close_pooled close_conn
  close_pooled_other [] m key out = refl
  close_pooled_other ((k, p) ∷ d) m key out = elim (Bool-cases (given k)) [
    | inl mine ↦
        let ne : k ≢ key = λ e. absurd (let e' = ap given e in cc) in
        rw (mine, close_pooled)
          (close_pooled_other d (close_conn p (record m { spdy_pool = delete k m.spdy_pool })) key
              out
            ∙ lookup-delete_ne key k m.spdy_pool ne)
    | inr other ↦ rw (other, close_pooled) (close_pooled_other d m key out)
  ]

  pub close_pooled_given :
      (d : Dict SpdyKey ℕ) (m : Pool) (key : SpdyKey) (p : ℕ)
      → given key ≡ true
      → lookup key d ≡ some p
      → Memᴰ (m.entry p).conn (close_pooled given d m).closed
  unfolding close_pooled close_conn lookup
  close_pooled_given [] m key p mine l = absurd (cc)
  close_pooled_given ((k, q) ∷ d) m key p mine l =
      let m' = close_conn q (record m { spdy_pool = delete k m.spdy_pool }) in
      elim (Bool-cases (k == key)) [
        | inl hit ↦
            let same : k ≡ key = ground (arith, spdy_key_beq_iff k key) in
            let pointer : q ≡ p = ground (arith, hit) in
            let mine' : given k ≡ true = ap given same ∙ mine in
            rw (mine', close_pooled)
              (close_pooled_closed d m' (m.entry p).conn
                (Memᴰ.head (ap (λ i. (m.entry i).conn) (sym pointer))))
        | inr miss ↦
            let l' : lookup key d ≡ some p = ground (arith, miss) in
            elim (Bool-cases (given k)) [
              | inl mine' ↦ rw (mine', close_pooled) (close_pooled_given d m' key p mine l')
              | inr other ↦ rw (other, close_pooled) (close_pooled_given d m key p mine l')
            ]
      ]
