-- ===== src/K8s/SpdyPool/Sharing/Safety.antt =====
-- internal/k8s/forward_manager.go: when a callback of buildOnClose closes a connection, and when not.
use mathlib.Core.List.{Memᴰ}
use kube_forwarding_proxy.K8s.SpdyPool.Sharing.Closing.{Reach-IsAccounted}
use kube_forwarding_proxy.Base.{
  ◌⊎◌, ℕ, ◌<◌, ◌≡◌, refl, ◌∙◌, inl, inr, Bool, true, none, [], ◌∷◌, Dict, arith, lookup, delete,
  Option-cases, Bool-cases,
}
use kube_forwarding_proxy.K8s.SpdyPool.{
  SpdyKey, spdy_key_eq, Pool, close_conn, close_pooled, shutdown_pool_context, shutdown_pool,
}
use kube_forwarding_proxy.K8s.SpdyPool.Sharing.{
  System, Step, acquires, numbers, fails, drops, finishes, shuts_context, shuts, Reach, found_dead,
  here, next,
}
use kube_forwarding_proxy.K8s.SpdyPool.Sharing.Counting.{
  IsCounted, IsPart, delete-IsPart, part-IsCounted, start-IsCounted, numbers-IsCounted,
  acquires-IsCounted, found_dead-IsCounted,
}
use kube_forwarding_proxy.K8s.SpdyPool.Sharing.Dropping.{
  drops-IsCounted, fails-IsCounted, finishes-IsCounted,
}

IsPart-trans : (a b c : Pool) → IsPart a b → IsPart b c → IsPart a c
IsPart-trans a b c x y = record {
  kept = λ key p l. x.kept key p (y.kept key p l);
  entry = y.entry ∙ x.entry;
  pointer = y.pointer ∙ x.pointer;
}

close_pooled-IsPart :
    (given : SpdyKey → Bool) (d : Dict SpdyKey ℕ) (m : Pool) → IsPart m (close_pooled given d m)
unfolding close_pooled close_conn
close_pooled-IsPart given [] m = record { kept = λ key p l. l; entry = refl; pointer = refl }
close_pooled-IsPart given ((key, p) ∷ d) m = elim (Bool-cases (given key)) [
  | inl mine ↦
      let m' = record m {
        spdy_pool = delete key m.spdy_pool;
        closed = (m.entry p).conn ∷ m.closed;
      } in
      let part = delete-IsPart key m in
      rw mine (
        IsPart-trans m m' _ (record { kept = part.kept; entry = refl; pointer = refl })
          (close_pooled-IsPart given d m'))
  | inr other ↦ rw other (close_pooled-IsPart given d m)
]

Step-IsCounted : {s t : System} → Step s t → IsCounted s → IsCounted t
unfolding shutdown_pool_context shutdown_pool
Step-IsCounted (acquires s key alive dial room) c =
    acquires-IsCounted (found_dead key alive s) key alive dial room
      (found_dead-IsCounted s key alive c)
Step-IsCounted (numbers s p) c = numbers-IsCounted s p c
Step-IsCounted (fails s p h) c = fails-IsCounted s p c
Step-IsCounted (drops s p h) c = drops-IsCounted s p h c
Step-IsCounted (finishes s p h) c = finishes-IsCounted s p c
Step-IsCounted (shuts_context s name) c =
    part-IsCounted s (shutdown_pool_context name s.pool)
      (close_pooled-IsPart _ s.pool.spdy_pool s.pool) c
Step-IsCounted (shuts s) c =
    part-IsCounted s (shutdown_pool s.pool)
      (close_pooled-IsPart (λ key. true) s.pool.spdy_pool s.pool) c

Reach-IsCounted : {s : System} → Reach s → IsCounted s
Reach-IsCounted here = start-IsCounted
Reach-IsCounted (next r st) = Step-IsCounted st (Reach-IsCounted r)

pool_empty :
    {s : System} (key : SpdyKey)
    → Reach s
    → ((p : ℕ) → s.leases p ≡ 0)
    → ((p : ℕ) → s.pending p ≡ 0)
    → lookup key s.pool.spdy_pool ≡ none
pool_empty {s} key r unleased finished = elim (Option-cases (lookup key s.pool.spdy_pool)) [
  | inl missing ↦ missing
  | inr (p, found) ↦ absurd (elim ((Reach-IsCounted r).shared key p found).awaited [
    | inl h ↦ omega (arith, finished p)
    | inr h ↦ omega (arith, unleased p)
  ])
]

-- No connection is left behind: after every sequence of the pool's steps, in which at most 2³² - 1
-- streams of a connection are open at a time, once no goroutine holds a lease and no callback is on
-- its way, the pool is empty, and the connection of each entry that was ever dialled has been closed
-- by the pool, or acquirePoolEntry has found it closed from elsewhere.
pub pool_drained :
    {s : System} (key : SpdyKey) (p : ℕ)
    → Reach s
    → ((q : ℕ) → s.leases q ≡ 0)
    → ((q : ℕ) → s.pending q ≡ 0)
    → p < s.pool.next_pointer
    → (lookup key s.pool.spdy_pool ≡ none)
      × (Memᴰ (s.pool.entry p).conn s.pool.closed ⊎ Memᴰ p s.dead)
pool_drained {s} key p r unleased finished dialled = (
  pool_empty key r unleased finished,
  elim (Reach-IsAccounted r p dialled) [
    | inl pooled ↦ absurd (let empty = pool_empty (s.owner p) r unleased finished in cc)
    | inr gone ↦ gone
  ],
)
