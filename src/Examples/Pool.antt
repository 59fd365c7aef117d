-- ===== src/Examples/Pool.antt =====
-- internal/k8s/forward_manager.go: the pool of connections at one key, with one stream of one
-- connection.
use mathlib.Core.List.{Memᴰ}
use kube_forwarding_proxy.Base.{
  ◌⊎◌, ℕ, ◌+◌, ◌-◌, ◌<◌, ◌≡◌, true, none, some, [], ◌∷◌, arith, lookup, update,
}
use kube_forwarding_proxy.Vip.Address.{u32_mod}
use kube_forwarding_proxy.K8s.SpdyPool.{
  SpdyKey, spdy_key_eq, acquire_pool_entry, drop_ref, evict_idle,
}
use kube_forwarding_proxy.K8s.SpdyPool.Sharing.{
  System, leased, found_dead, dropped, start, acquires, drops, finishes, Reach, here, next,
}
use kube_forwarding_proxy.K8s.SpdyPool.Sharing.Safety.{pool_drained}
use kube_forwarding_proxy.K8s.PortForward.{Attempt, open_streams}
use kube_forwarding_proxy.K8s.PortForward.Leases.{IsAnswered, open_streams-answered}

abbrev pub key : SpdyKey
key = record { context_name = b'd' ∷ []; namespace = b'n' ∷ []; pod_name = b'p' ∷ [] }

abbrev pub streaming : System
streaming = leased key (found_dead key true start) (acquire_pool_entry key true (some 7) start.pool)

pub streaming-Reach : Reach streaming
streaming-Reach = next here (acquires start key true (some 7) (λ p. omega arith))

is_leased : 0 < streaming.leases 0
unfolding acquire_pool_entry lookup
is_leased = omega arith

-- The stream is closed, and its callback has run.
abbrev closing : System
closing = dropped 0 streaming (drop_ref 0 streaming.pool)

is_pending : 0 < closing.pending 0
unfolding acquire_pool_entry lookup drop_ref
is_pending = omega arith

abbrev finished : System
finished = record closing {
  pool = evict_idle (closing.owner 0) 0 closing.pool;
  pending = update 0 (closing.pending 0 - 1) closing.pending;
}

finished-Reach : Reach finished
finished-Reach =
    next (next streaming-Reach (drops streaming 0 is_leased)) (finishes closing 0 is_pending)

none_leased : (p : ℕ) → finished.leases p ≡ 0
unfolding acquire_pool_entry lookup drop_ref
none_leased p = ground arith

none_pending : (p : ℕ) → finished.pending p ≡ 0
unfolding acquire_pool_entry lookup drop_ref
none_pending p = ground arith

was_dialled : 0 < finished.pool.next_pointer
unfolding acquire_pool_entry lookup drop_ref evict_idle
was_dialled = ground arith

pool_drained_example :
    (lookup key finished.pool.spdy_pool ≡ none)
    × (Memᴰ (finished.pool.entry 0).conn finished.pool.closed ⊎ Memᴰ 0 finished.dead)
pool_drained_example = pool_drained key 0 finished-Reach none_leased none_pending was_dialled

-- The streams of the reused connection cannot be created; a new connection has them.
abbrev pub refused : Attempt
refused = record { alive = true; dial = none; create = λ h. none }

abbrev pub redialled : Attempt
redialled = record { alive = true; dial = some 8; create = λ h. some 1 }

pub few_leases : (q : ℕ) → streaming.leases q + 1 < u32_mod
unfolding acquire_pool_entry lookup
few_leases q = ground arith

open_streams-answered_example :
    (t : System) × IsAnswered key streaming.leases streaming.pending
      (open_streams key 8080 refused redialled streaming.pool)
      t
open_streams-answered_example =
    open_streams-answered key 8080 refused redialled streaming streaming-Reach few_leases
