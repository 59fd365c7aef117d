-- ===== src/K8s/SpdyPool/Sharing/Dropping.antt =====
-- internal/k8s/forward_manager.go: the steps that give a reference back, and the references.
use kube_forwarding_proxy.Base.{
  ℕ, ◌-◌, ◌<◌, ◌≡◌, ◌≢◌, ◌↔◌, sym, ap, ◌∙◌, inl, inr, true, false, ◌&&◌, some, List, ◌∷◌, Dict,
  arith, lookup, delete, lookup-delete_inv, lookup-delete_self, update, nat_beq, Bool-cases, subst,
  text_eq,
}
use kube_forwarding_proxy.K8s.SpdyPool.{
  SpdyKey, spdy_key_eq, Pool, drop_ref, is_pooled, close_conn, evict_idle, evict_stale,
}
use kube_forwarding_proxy.K8s.SpdyPool.Sharing.{System, dropped}
use kube_forwarding_proxy.K8s.SpdyPool.Sharing.Counting.{IsCounted}

pub is_pooled_iff :
    (key : SpdyKey) (p : ℕ) (m : Pool)
    → (is_pooled key p m ≡ true) ↔ (lookup key m.spdy_pool ≡ some p)
unfolding is_pooled
is_pooled_iff key p m = ground arith

-- An entry that is taken out under its key is in the pool no more.
unpooled :
    (s : System) (key : SpdyKey) (p : ℕ) (d : Dict SpdyKey ℕ)
    → IsCounted s
    → ((k : SpdyKey) (q : ℕ) → lookup k d ≡ some q → lookup k s.pool.spdy_pool ≡ some q)
    → lookup (s.owner p) d ≢ some p
    → lookup key d ≢ some p
unpooled s key p d c kept out l =
    out (subst (λ k. lookup k d ≡ some p) (sym (c.shared key p (kept key p l)).owned) l)

pub fails-IsCounted :
    (s : System) (p : ℕ)
    → IsCounted s
    → IsCounted (record s {
      pool = evict_stale (s.owner p) p s.pool;
      leases = update p (s.leases p - 1) s.leases;
    })
unfolding evict_stale close_conn
fails-IsCounted s p c = elim (Bool-cases (is_pooled (s.owner p) p s.pool)) [
  | inl pooled ↦ rw pooled (
      kept_others (delete (s.owner p) s.pool.spdy_pool)
        (λ k q l. (lookup-delete_inv k (s.owner p) q s.pool.spdy_pool l).1)
        (λ l. absurd (let e = lookup-delete_self (s.owner p) s.pool.spdy_pool in cc)))
  | inr missing ↦ rw missing (
      kept_others s.pool.spdy_pool (λ k q l. l)
        (λ l. ground (arith, is_pooled_iff (s.owner p) p s.pool)))
]
  where
    kept_others :
        (d : Dict SpdyKey ℕ)
        → ((k : SpdyKey) (q : ℕ) → lookup k d ≡ some q → lookup k s.pool.spdy_pool ≡ some q)
        → lookup (s.owner p) d ≢ some p
        → IsCounted (record s {
          pool = record s.pool { spdy_pool = d; closed = (s.pool.entry p).conn ∷ s.pool.closed };
          leases = update p (s.leases p - 1) s.leases;
        })
    kept_others d kept out = record {
      shared = λ key q l.
          let h = c.shared key q (kept key q l) in
          let ne : p ≢ q = λ same.
            unpooled s key p d c kept out
              (ap (λ x. lookup key d) same ∙ (l ∙ ap some (sym same))) in
          record {
            fresh = h.fresh;
            owned = h.owned;
            counted = ground (arith, ne, h.counted);
            awaited = ground (arith, ne, h.awaited);
          };
      small = λ q. ground (arith, c.small q, c.small p);
      unused = λ q h. ground (arith, c.unused q h);
    }

pub drops-IsCounted :
    (s : System) (p : ℕ)
    → 0 < s.leases p
    → IsCounted s
    → IsCounted (dropped p s (drop_ref p s.pool))
unfolding drop_ref
drops-IsCounted s p some_lease c = record {
  shared = λ key q l.
      let h = c.shared key q l in
      record {
        fresh = h.fresh;
        owned = h.owned;
        counted = ground (arith, h.counted, c.small p);
        awaited = ground (arith, h.counted, h.awaited, c.small p);
      };
  small = λ q. ground (arith, c.small q, c.small p);
  unused = λ q h. ground (arith, c.unused q h);
}

pub finishes-IsCounted :
    (s : System) (p : ℕ)
    → IsCounted s
    → IsCounted (record s {
      pool = evict_idle (s.owner p) p s.pool;
      pending = update p (s.pending p - 1) s.pending;
    })
unfolding evict_idle close_conn
finishes-IsCounted s p c =
    elim (Bool-cases (is_pooled (s.owner p) p s.pool && nat_beq (s.pool.entry p).refs 0)) [
      | inl idle ↦ rw idle (
          kept (delete (s.owner p) s.pool.spdy_pool) _
            (λ k q l. (lookup-delete_inv k (s.owner p) q s.pool.spdy_pool l).1)
            (λ key q l same. absurd (
              unpooled s key p (delete (s.owner p) s.pool.spdy_pool) c
                (λ k r l'. (lookup-delete_inv k (s.owner p) r s.pool.spdy_pool l').1)
                (λ l'. absurd (let e = lookup-delete_self (s.owner p) s.pool.spdy_pool in cc))
                (l ∙ ap some (sym same)))))
      | inr busy ↦
          rw busy (kept s.pool.spdy_pool _ (λ k q l. l) (λ key q l same. in_use key q l same busy))
    ]
  where
    in_use :
        (key : SpdyKey) (q : ℕ)
        → lookup key s.pool.spdy_pool ≡ some q
        → p ≡ q
        → is_pooled (s.owner p) p s.pool && nat_beq (s.pool.entry p).refs 0 ≡ false
        → 0 < s.leases q
    in_use key q l same busy =
        let h = c.shared key q l in
        let pooled : is_pooled (s.owner p) p s.pool ≡ true =
          (is_pooled_iff (s.owner p) p s.pool).1 (
            ap (λ k. lookup k s.pool.spdy_pool) (ap s.owner same ∙ h.owned)
            ∙ (l ∙ ap some (sym same))) in
        let used : (s.pool.entry p).refs ≡ s.leases q =
          ap (λ i. (s.pool.entry i).refs) same ∙ h.counted in
        ground (arith, pooled, used)

    kept :
        (d : Dict SpdyKey ℕ) (closed : List ℕ)
        → ((k : SpdyKey) (q : ℕ) → lookup k d ≡ some q → lookup k s.pool.spdy_pool ≡ some q)
        → ((key : SpdyKey) (q : ℕ) → lookup key d ≡ some q → p ≡ q → 0 < s.leases q)
        → IsCounted (record s {
          pool = record s.pool { spdy_pool = d; closed = closed };
          pending = update p (s.pending p - 1) s.pending;
        })
    kept d closed part used = record {
      shared = λ key q l.
          let h = c.shared key q (part key q l) in
          record {
            fresh = h.fresh;
            owned = h.owned;
            counted = h.counted;
            awaited = ground (arith, h.awaited, used key q l);
          };
      small = c.small;
      unused = c.unused;
    }
