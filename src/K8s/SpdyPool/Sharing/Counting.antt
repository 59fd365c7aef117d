-- ===== src/K8s/SpdyPool/Sharing/Counting.antt =====
-- internal/k8s/forward_manager.go: the references of a pooled entry, beside its leases.
use kube_forwarding_proxy.Base.{
  ℕ, ◌+◌, ◌≤◌, ◌<◌, ◌≡◌, refl, ◌⊎◌, inl, inr, Bool, true, false, Option, none, some, arith, lookup,
  delete, lookup-insert_cases, lookup-delete_inv, text_eq,
}
use kube_forwarding_proxy.Vip.Address.{u32_mod}
use kube_forwarding_proxy.K8s.SpdyPool.{
  SpdyKey, spdy_key_eq, Pool, add_ref, dial_entry, acquire_found, acquire_pool_entry, take_id,
}
use kube_forwarding_proxy.K8s.SpdyPool.Sharing.{System, leased, found_dead, start}

-- Of the entry that the pool has for a key.
pub record IsShared (s : System) (key : SpdyKey) (p : ℕ) : Type 0 where
  pub fresh : p < s.pool.next_pointer
  pub owned : s.owner p ≡ key
  pub counted : (s.pool.entry p).refs ≡ s.leases p
  pub awaited : (0 < s.pending p) ⊎ (0 < s.leases p)

pub record IsCounted (s : System) : Type 0 where
  pub shared : (key : SpdyKey) (p : ℕ) → lookup key s.pool.spdy_pool ≡ some p → IsShared s key p
  pub small : (p : ℕ) → s.leases p < u32_mod
  pub unused : (p : ℕ) → s.pool.next_pointer ≤ p → s.leases p ≡ 0

pub start-IsCounted : IsCounted start
unfolding lookup
start-IsCounted = record {
  shared = λ key p l. absurd (cc);
  small = λ p. omega arith;
  unused = λ p h. refl;
}

pub numbers-IsCounted :
    (s : System) (p : ℕ) → IsCounted s → IsCounted (record s { pool = (take_id p s.pool).1 })
unfolding take_id
numbers-IsCounted s p c = record {
  shared = λ key q l.
      let h = c.shared key q l in
      record {
        fresh = h.fresh;
        owned = h.owned;
        counted = ground (arith, h.counted);
        awaited = h.awaited;
      };
  small = c.small;
  unused = c.unused;
}

reuse-IsCounted :
    (s : System) (key : SpdyKey) (p : ℕ)
    → ((q : ℕ) → s.leases q + 1 < u32_mod)
    → lookup key s.pool.spdy_pool ≡ some p
    → IsCounted s
    → IsCounted (leased key s (add_ref p s.pool, some p))
unfolding add_ref
reuse-IsCounted s key p room l c = record {
  shared = λ k q l'.
      let h = c.shared k q l' in
      record {
        fresh = h.fresh;
        owned = ground (arith, h.owned, (c.shared key p l).owned);
        counted = ground (arith, h.counted, room p);
        awaited = ground (arith, h.awaited);
      };
  small = λ q. ground (arith, room p, c.small q);
  unused = λ q h. ground (arith, c.unused q h, (c.shared key p l).fresh);
}

dial-IsCounted :
    (s : System) (key : SpdyKey) (dial : Option ℕ)
    → IsCounted s
    → IsCounted (leased key s (dial_entry key dial s.pool))
unfolding dial_entry
dial-IsCounted s key none c = c
dial-IsCounted s key (some conn) c =
    let p = s.pool.next_pointer in
    let none_yet : s.leases p ≡ 0 = c.unused p (omega arith) in
    record {
      shared = λ k q l. elim (lookup-insert_cases k key p q s.pool.spdy_pool l) [
        | inl (a, b) ↦ record {
          fresh = omega arith;
          owned = ground (arith, a, b);
          counted = ground (arith, none_yet, b);
          awaited = inr (ground (arith, none_yet, b));
        }
        | inr (a, b) ↦
            let h = c.shared k q b in
            record {
              fresh = omega (arith, h.fresh);
              owned = ground (arith, h.fresh, h.owned);
              counted = ground (arith, h.fresh, h.counted);
              awaited = ground (arith, h.fresh, h.awaited);
            }
      ];
      small = λ q. ground (arith, c.small q, none_yet);
      unused = λ q h. ground (arith, c.unused q (omega arith));
    }

-- A step that at most takes entries out of the pool.
pub record IsPart (m m' : Pool) : Type 0 where
  pub kept :
      (key : SpdyKey) (p : ℕ) → lookup key m'.spdy_pool ≡ some p → lookup key m.spdy_pool ≡ some p
  pub entry : m'.entry ≡ m.entry
  pub pointer : m'.next_pointer ≡ m.next_pointer

pub delete-IsPart :
    (key : SpdyKey) (m : Pool) → IsPart m (record m { spdy_pool = delete key m.spdy_pool })
delete-IsPart key m = record {
  kept = λ k p l. (lookup-delete_inv k key p m.spdy_pool l).1;
  entry = refl;
  pointer = refl;
}

pub part-IsCounted :
    (s : System) (m : Pool) → IsPart s.pool m → IsCounted s → IsCounted (record s { pool = m })
part-IsCounted s m part c = record {
  shared = λ key p l.
      let h = c.shared key p (part.kept key p l) in
      record {
        fresh = rw part.pointer h.fresh;
        owned = h.owned;
        counted = rw part.entry h.counted;
        awaited = h.awaited;
      };
  small = c.small;
  unused = λ p h. c.unused p (rw part.pointer at h);
}

pub found_dead-IsCounted :
    (s : System) (key : SpdyKey) (alive : Bool) → IsCounted s → IsCounted (found_dead key alive s)
found_dead-IsCounted s key alive c = record {
  shared = λ k p l.
      let h = c.shared k p l in
      record { fresh = h.fresh; owned = h.owned; counted = h.counted; awaited = h.awaited };
  small = c.small;
  unused = c.unused;
}

pub acquires-IsCounted :
    (s : System) (key : SpdyKey) (alive : Bool) (dial : Option ℕ)
    → ((p : ℕ) → s.leases p + 1 < u32_mod)
    → IsCounted s
    → IsCounted (leased key s (acquire_pool_entry key alive dial s.pool))
unfolding acquire_pool_entry acquire_found
acquires-IsCounted s key alive dial room c = go alive (lookup key s.pool.spdy_pool) refl
  where
    go :
        (a : Bool) (o : Option ℕ)
        → lookup key s.pool.spdy_pool ≡ o
        → IsCounted (leased key s (acquire_found key a dial o s.pool))
    go a none e = dial-IsCounted s key dial c
    go true (some p) e = reuse-IsCounted s key p room e c
    go false (some p) e =
        dial-IsCounted
          (record s { pool = record s.pool { spdy_pool = delete key s.pool.spdy_pool } }) key dial
          (part-IsCounted s _ (delete-IsPart key s.pool) c)
