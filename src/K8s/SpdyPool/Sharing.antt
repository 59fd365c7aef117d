-- ===== src/K8s/SpdyPool/Sharing.antt =====
-- internal/k8s/forward_manager.go: the dials and the closing streams of all goroutines, as sequences
-- of the pool's steps. A goroutine that has acquired an entry holds a lease of it, until its stream
-- is closed or could not be created; a callback that dropped the last reference is pending until it
-- has looked at the pool.
pub mod Counting
pub mod Dropping
pub mod Loops
pub mod Closing
pub mod Safety
use kube_forwarding_proxy.Base.{
  ℕ, ◌+◌, ◌-◌, ◌<◌, ◌≡◌, Bool, true, false, Option, none, some, List, [], ◌∷◌, Text, update,
  if◌then◌else◌, lookup,
}
use kube_forwarding_proxy.Vip.Address.{u32_mod}
use kube_forwarding_proxy.K8s.SpdyPool.{
  SpdyKey, spdy_key_eq, Pool, empty_pool, acquire_pool_entry, drop_ref, evict_idle, evict_stale,
  take_id, shutdown_pool_context, shutdown_pool,
}

-- `owner` is the key that an entry was dialled for, and `dead` lists the entries that acquirePoolEntry
-- has found in the pool with a connection that was closed from elsewhere.
pub record System : Type 0 where
  pub pool : Pool
  pub owner : ℕ → SpdyKey
  pub leases : ℕ → ℕ
  pub pending : ℕ → ℕ
  pub dead : List ℕ

abbrev pub leased : SpdyKey → System → Pool × Option ℕ → System
leased key s (m, none) = record s { pool = m }
leased key s (m, some p) = record s {
  pool = m;
  owner = update p key s.owner;
  leases = update p (s.leases p + 1) s.leases;
}

abbrev pub add_dead : Bool → Option ℕ → List ℕ → List ℕ
add_dead false (some p) dead = p ∷ dead
add_dead _ _ dead = dead

abbrev pub found_dead : SpdyKey → Bool → System → System
found_dead key alive s = record s { dead = add_dead alive (lookup key s.pool.spdy_pool) s.dead }

abbrev pub dropped : ℕ → System → Bool × Pool → System
dropped p s (last, m) = record s {
  pool = m;
  leases = update p (s.leases p - 1) s.leases;
  pending = if last then update p (s.pending p + 1) s.pending else s.pending;
}

abbrev pub start : System
start = record {
  pool = empty_pool;
  owner = λ p. record { context_name = []; namespace = []; pod_name = [] };
  leases = λ p. 0;
  pending = λ p. 0;
  dead = [];
}

-- At most 2³² - 1 streams of a connection are open at a time, so that no counter wraps.
pub data Step : System → System → Type 0 where
  acquires :
      (s : System) (key : SpdyKey) (alive : Bool) (dial : Option ℕ)
      → ((p : ℕ) → s.leases p + 1 < u32_mod)
      → Step s (leased key (found_dead key alive s) (acquire_pool_entry key alive dial s.pool))
  numbers : (s : System) (p : ℕ) → Step s (record s { pool = (take_id p s.pool).1 })
  fails :
      (s : System) (p : ℕ)
      → 0 < s.leases p
      → Step s (record s {
        pool = evict_stale (s.owner p) p s.pool;
        leases = update p (s.leases p - 1) s.leases;
      })
  drops : (s : System) (p : ℕ) → 0 < s.leases p → Step s (dropped p s (drop_ref p s.pool))
  finishes :
      (s : System) (p : ℕ)
      → 0 < s.pending p
      → Step s (record s {
        pool = evict_idle (s.owner p) p s.pool;
        pending = update p (s.pending p - 1) s.pending;
      })
  shuts_context :
      (s : System) (name : Text) → Step s (record s { pool = shutdown_pool_context name s.pool })
  shuts : (s : System) → Step s (record s { pool = shutdown_pool s.pool })

pub data Reach : System → Type 0 where
  here : Reach start
  next : {s t : System} → Reach s → Step s t → Reach t
