-- ===== src/K8s/SpdyPool/Sharing/Closing.antt =====
-- internal/k8s/forward_manager.go: what becomes of the connections that were dialled.
use mathlib.Core.List.{Memᴰ}
use kube_forwarding_proxy.Base.{
  ℕ, ◌+◌, ◌-◌, ◌%◌, ◌<◌, ◌≡◌, ◌≢◌, refl, ap, ◌∙◌, ◌⊎◌, inl, inr, Bool, true, false, ◌&&◌, Option,
  none, some, List, ◌∷◌, text_beq, arith, lookup, delete, lookup-insert_self, lookup-insert_ne,
  lookup-delete_self, lookup-delete_ne, update, nat_beq, Bool-cases, if◌then◌else◌, ◌==◌, subst,
}
use kube_forwarding_proxy.Vip.Address.{u32_mod}
use kube_forwarding_proxy.K8s.SpdyPool.{
  SpdyKey, spdy_key_eq, spdy_key_beq_iff, PoolEntry, Pool, add_ref, dial_entry, acquire_found,
  acquire_pool_entry, drop_ref, is_pooled, close_conn, evict_idle, evict_stale, close_pooled,
  shutdown_pool_context, shutdown_pool, take_id,
}
use kube_forwarding_proxy.K8s.SpdyPool.Sharing.{
  System, leased, add_dead, found_dead, Step, acquires, numbers, fails, drops, finishes,
  shuts_context, shuts, Reach, here, next,
}
use kube_forwarding_proxy.K8s.SpdyPool.Sharing.Dropping.{is_pooled_iff}
use kube_forwarding_proxy.K8s.SpdyPool.Sharing.Loops.{
  close_pooled_entry, close_pooled_closed, close_pooled_other, close_pooled_given,
}

-- An entry that is pooled under its key, whose connection was closed, or that was found dead.
abbrev pub IsKept : System → ℕ → Type 0
IsKept s p =
    (lookup (s.owner p) s.pool.spdy_pool ≡ some p)
    ⊎ (Memᴰ (s.pool.entry p).conn s.pool.closed ⊎ Memᴰ p s.dead)

abbrev IsAccounted : System → Type 0
IsAccounted s = (p : ℕ) → p < s.pool.next_pointer → IsKept s p

-- A counter that changes leaves the connections.
update_conn :
    (p q : ℕ) (e : PoolEntry) (entry : ℕ → PoolEntry)
    → e.conn ≡ (entry p).conn
    → (update p e entry q).conn ≡ (entry q).conn
update_conn p q e entry same = ground (arith, ap (λ i. (entry i).conn) {x = p} {y = q})

entries-IsAccounted :
    (s : System) (m : Pool) (leases pending : ℕ → ℕ)
    → m.spdy_pool ≡ s.pool.spdy_pool
    → m.closed ≡ s.pool.closed
    → m.next_pointer ≡ s.pool.next_pointer
    → ((q : ℕ) → (m.entry q).conn ≡ (s.pool.entry q).conn)
    → IsAccounted s
    → IsAccounted (record s { pool = m; leases = leases; pending = pending })
entries-IsAccounted s m leases pending pools closed pointer conns a q h =
    rw (pools, closed, conns q) (a q (rw pointer at h))

reuse-IsAccounted :
    (s : System) (key : SpdyKey) (p : ℕ)
    → lookup key s.pool.spdy_pool ≡ some p
    → IsAccounted s
    → IsAccounted (leased key s (add_ref p s.pool, some p))
unfolding add_ref
reuse-IsAccounted s key p l a q h =
    rw
      (update_conn p q (record (s.pool.entry p) { refs = ((s.pool.entry p).refs + 1) % u32_mod })
        s.pool.entry refl)
      (elim (Bool-cases (nat_beq p q)) [
        | inl hit ↦ rw hit (inl (l ∙ ap some (ground arith)))
        | inr miss ↦ rw miss (a q h)
      ])

dial-IsAccounted :
    (s : System) (key : SpdyKey) (dial : Option ℕ)
    → lookup key s.pool.spdy_pool ≡ none
    → IsAccounted s
    → IsAccounted (leased key s (dial_entry key dial s.pool))
unfolding dial_entry
dial-IsAccounted s key none free a q h = a q h
dial-IsAccounted s key (some conn) free a q h =
    let p = s.pool.next_pointer in
    elim (Bool-cases (nat_beq p q)) [
      | inl hit ↦
          let same : p ≡ q = ground arith in
          rw hit (inl (lookup-insert_self key p s.pool.spdy_pool ∙ ap some same))
      | inr miss ↦ rw miss (elim (a q (ground (arith, miss))) [
        | inl pooled ↦
            let ne : key ≢ s.owner q =
              λ e. absurd (let e' = ap (λ k. lookup k s.pool.spdy_pool) e in cc) in
            inl (lookup-insert_ne (s.owner q) key p s.pool.spdy_pool ne ∙ pooled)
        | inr gone ↦ inr gone
      ])
    ]

-- An entry is taken out under a key, and is closed or was found dead.
delete-IsAccounted :
    (s : System) (key : SpdyKey) (p : ℕ) (closed dead : List ℕ) (leases pending : ℕ → ℕ)
    → lookup key s.pool.spdy_pool ≡ some p
    → ((c : ℕ) → Memᴰ c s.pool.closed → Memᴰ c closed)
    → ((q : ℕ) → Memᴰ q s.dead → Memᴰ q dead)
    → Memᴰ (s.pool.entry p).conn closed ⊎ Memᴰ p dead
    → IsAccounted s
    → IsAccounted (record s {
      pool = record s.pool { spdy_pool = delete key s.pool.spdy_pool; closed = closed };
      leases = leases;
      pending = pending;
      dead = dead;
    })
delete-IsAccounted s key p closed dead leases pending l more_closed more_dead gone a q h =
    elim (a q h) [
      | inr (inl c) ↦ inr (inl (more_closed (s.pool.entry q).conn c))
      | inr (inr d) ↦ inr (inr (more_dead q d))
      | inl pooled ↦ elim (Bool-cases (key == s.owner q)) [
        | inr other ↦
            let ne : key ≢ s.owner q = ground (arith, spdy_key_beq_iff key (s.owner q)) in
            inl (lookup-delete_ne (s.owner q) key s.pool.spdy_pool ne ∙ pooled)
        | inl mine ↦
            let e : key ≡ s.owner q = ground (arith, spdy_key_beq_iff key (s.owner q)) in
            let same : p ≡ q = ground (arith, l, pooled, ap (λ k. lookup k s.pool.spdy_pool) e) in
            inr (subst (λ i. Memᴰ (s.pool.entry i).conn closed ⊎ Memᴰ i dead) same gone)
      ]
    ]

acquires-IsAccounted :
    (s : System) (key : SpdyKey) (alive : Bool) (dial : Option ℕ)
    → IsAccounted s
    → IsAccounted (leased key (found_dead key alive s) (acquire_pool_entry key alive dial s.pool))
unfolding acquire_pool_entry acquire_found
acquires-IsAccounted s key alive dial a = go alive (lookup key s.pool.spdy_pool) refl
  where
    go :
        (b : Bool) (o : Option ℕ)
        → lookup key s.pool.spdy_pool ≡ o
        → IsAccounted (
            leased key
              (record s { dead = add_dead b o s.dead })
              (acquire_found key b dial o s.pool))
    go true none e = dial-IsAccounted s key dial e a
    go false none e = dial-IsAccounted s key dial e a
    go true (some p) e = reuse-IsAccounted s key p e a
    go false (some p) e =
        dial-IsAccounted
          (record s {
            pool = record s.pool { spdy_pool = delete key s.pool.spdy_pool };
            dead = p ∷ s.dead;
          })
          key dial (lookup-delete_self key s.pool.spdy_pool)
          (delete-IsAccounted s key p s.pool.closed (p ∷ s.dead) s.leases s.pending e (λ c h. h)
            (λ q h. Memᴰ.tail h) (inr (Memᴰ.head refl)) a)

fails-IsAccounted :
    (s : System) (p : ℕ)
    → IsAccounted s
    → IsAccounted (record s {
      pool = evict_stale (s.owner p) p s.pool;
      leases = update p (s.leases p - 1) s.leases;
    })
unfolding evict_stale close_conn
fails-IsAccounted s p a = elim (Bool-cases (is_pooled (s.owner p) p s.pool)) [
  | inl pooled ↦ rw pooled (
      delete-IsAccounted s (s.owner p) p ((s.pool.entry p).conn ∷ s.pool.closed) s.dead
        (update p (s.leases p - 1) s.leases) s.pending
        ((is_pooled_iff (s.owner p) p s.pool).0 pooled) (λ c h. Memᴰ.tail h) (λ q h. h)
        (inl (Memᴰ.head refl)) a)
  | inr missing ↦ rw missing (λ q h. elim (a q h) [
    | inl pooled ↦ inl pooled
    | inr (inl c) ↦ inr (inl (Memᴰ.tail c))
    | inr (inr d) ↦ inr (inr d)
  ])
]

finishes-IsAccounted :
    (s : System) (p : ℕ)
    → IsAccounted s
    → IsAccounted (record s {
      pool = evict_idle (s.owner p) p s.pool;
      pending = update p (s.pending p - 1) s.pending;
    })
unfolding evict_idle close_conn
finishes-IsAccounted s p a =
    elim (Bool-cases (is_pooled (s.owner p) p s.pool && nat_beq (s.pool.entry p).refs 0)) [
      | inr busy ↦ rw busy a
      | inl idle ↦
          let pooled : is_pooled (s.owner p) p s.pool ≡ true = ground (arith, idle) in
          rw idle (
            delete-IsAccounted s (s.owner p) p ((s.pool.entry p).conn ∷ s.pool.closed) s.dead
              s.leases (update p (s.pending p - 1) s.pending)
              ((is_pooled_iff (s.owner p) p s.pool).0 pooled) (λ c h. Memᴰ.tail h) (λ q h. h)
              (inl (Memᴰ.head refl)) a)
    ]

close_pooled-IsAccounted :
    (given : SpdyKey → Bool) (s : System)
    → IsAccounted s
    → IsAccounted (record s { pool = close_pooled given s.pool.spdy_pool s.pool })
close_pooled-IsAccounted given s a q h =
    let d = s.pool.spdy_pool in
    let (entry, pointer) = close_pooled_entry given d s.pool in
    let keeps = close_pooled_closed given d s.pool (s.pool.entry q).conn in
    rw entry (elim (a q (rw pointer at h)) [
      | inr (inl c) ↦ inr (inl (keeps c))
      | inr (inr x) ↦ inr (inr x)
      | inl pooled ↦ elim (Bool-cases (given (s.owner q))) [
        | inl mine ↦ inr (inl (close_pooled_given given d s.pool (s.owner q) q mine pooled))
        | inr out ↦ inl (close_pooled_other given d s.pool (s.owner q) out ∙ pooled)
      ]
    ])

Step-IsAccounted : {s t : System} → Step s t → IsAccounted s → IsAccounted t
unfolding shutdown_pool_context shutdown_pool take_id drop_ref
Step-IsAccounted (acquires s key alive dial room) a = acquires-IsAccounted s key alive dial a
Step-IsAccounted (numbers s p) a =
    entries-IsAccounted s (take_id p s.pool).1 s.leases s.pending refl refl refl
      (λ q. update_conn p q _ s.pool.entry refl) a
Step-IsAccounted (fails s p h) a = fails-IsAccounted s p a
Step-IsAccounted (drops s p h) a =
    entries-IsAccounted s (drop_ref p s.pool).1 (update p (s.leases p - 1) s.leases)
      (if (drop_ref p s.pool).0 then update p (s.pending p + 1) s.pending else s.pending) refl refl
      refl (λ q. update_conn p q _ s.pool.entry refl) a
Step-IsAccounted (finishes s p h) a = finishes-IsAccounted s p a
Step-IsAccounted (shuts_context s name) a =
    close_pooled-IsAccounted (λ key. text_beq key.context_name name) s a
Step-IsAccounted (shuts s) a = close_pooled-IsAccounted (λ key. true) s a

pub Reach-IsAccounted : {s : System} → Reach s → IsAccounted s
Reach-IsAccounted here q h = absurd (omega arith)
Reach-IsAccounted (next r st) q h = Step-IsAccounted st (Reach-IsAccounted r) q h
