-- ===== src/K8s/PortForward/Leases.antt =====
-- internal/k8s/forward_manager.go: what a dial of DialPortForward does to the pool's leases.
use kube_forwarding_proxy.Base.{
  ℕ, ◌+◌, ◌-◌, ◌<◌, ◌≡◌, refl, ap, Bool, true, false, Option, none, some, arith, Result, ok, err,
  update, if◌then◌else◌, subst,
}
use kube_forwarding_proxy.Vip.Address.{u32_mod}
use kube_forwarding_proxy.K8s.SpdyPool.{
  SpdyKey, Pool, acquire_pool_entry, drop_ref, evict_idle, on_close, evict_stale, take_id,
  create_streams,
}
use kube_forwarding_proxy.K8s.SpdyPool.Sharing.{
  System, leased, dropped, found_dead, acquires, numbers, fails, drops, finishes, Reach, next,
}
use kube_forwarding_proxy.K8s.PortForward.{
  Attempt, DialError, OpenStreams, second_streams, second_acquired, first_streams, first_acquired,
  open_streams,
}

-- The leases behind an answer: one more, of the entry that is answered, or the same.
abbrev pub leases_of : Result DialError OpenStreams → (ℕ → ℕ) → ℕ → ℕ
leases_of (err e) leases = leases
leases_of (ok o) leases = update o.entry (leases o.entry + 1) leases

-- The entry that is answered was dialled for the key.
abbrev pub IsOwned : SpdyKey → Result DialError OpenStreams → System → Type 0
IsOwned key (err e) t = Unit
IsOwned key (ok o) t = t.owner o.entry ≡ key

-- A state that the pool's steps reach, with the answer's pool and leases, and the callbacks that were
-- on their way.
pub record IsAnswered (key : SpdyKey) (leases pending : ℕ → ℕ)
    (answer : Pool × Result DialError OpenStreams) (t : System) : Type 0 where
  pub reached : Reach t
  pub pool : t.pool ≡ answer.0
  pub owned : IsOwned key answer.1 t
  pub held : (q : ℕ) → t.leases q ≡ leases_of answer.1 leases q
  pub waiting : (q : ℕ) → t.pending q ≡ pending q

-- A goroutine that has just acquired `p`.
pub record IsHolding (key : SpdyKey) (leases pending : ℕ → ℕ) (p : ℕ) (s : System) : Type 0 where
  pub reached : Reach s
  pub owned : s.owner p ≡ key
  pub held : (q : ℕ) → s.leases q ≡ update p (leases p + 1) leases q
  pub waiting : (q : ℕ) → s.pending q ≡ pending q

module _ (key : SpdyKey) (port : ℕ) (leases pending : ℕ → ℕ) where
  holds : (p : ℕ) (s : System) → IsHolding key leases pending p s → 0 < s.leases p
  holds p s h = ground (arith, h.held p)

  pub closes :
      (p : ℕ) (s : System)
      → IsHolding key leases pending p s
      → (e : DialError)
      → (t : System) × IsAnswered key leases pending (on_close key p s.pool, err e) t
  unfolding on_close
  closes p s h e = go (drop_ref p s.pool) (next h.reached (drops s p (holds p s h)))
    where
      go :
          (r : Bool × Pool)
          → Reach (dropped p s r)
          → (t : System) × IsAnswered key leases pending
              (if r.0 then evict_idle key p r.1 else r.1, err e)
              t
      go (false, m) r = (
        dropped p s (false, m),
        record {
          reached = r;
          pool = refl;
          owned = tt;
          held = λ q. ground (arith, h.held q, h.held p);
          waiting = h.waiting;
        },
      )
      go (true, m) r =
          let t = dropped p s (true, m) in
          (
            record t {
              pool = evict_idle (t.owner p) p t.pool;
              pending = update p (t.pending p - 1) t.pending;
            },
            record {
              reached = next r (finishes t p (ground arith));
              pool = ap (λ k. evict_idle k p m) h.owned;
              owned = tt;
              held = λ q. ground (arith, h.held q, h.held p);
              waiting = λ q. ground (arith, h.waiting q, h.waiting p);
            },
          )

  numbers-IsHolding :
      (p : ℕ) (s : System)
      → IsHolding key leases pending p s
      → IsHolding key leases pending p (record s { pool = (take_id p s.pool).1 })
  numbers-IsHolding p s h = record {
    reached = next h.reached (numbers s p);
    owned = h.owned;
    held = h.held;
    waiting = h.waiting;
  }

  acquired-IsHolding :
      (s : System) (m : Pool) (p : ℕ)
      → ((q : ℕ) → s.leases q ≡ leases q)
      → ((q : ℕ) → s.pending q ≡ pending q)
      → Reach (leased key s (m, some p))
      → IsHolding key leases pending p (leased key s (m, some p))
  acquired-IsHolding s m p l w r = record {
    reached = r;
    owned = ground arith;
    held = λ q. ground (arith, l q, l p);
    waiting = w;
  }

  second_streams-answered :
      (p : ℕ) (o : Option (ℕ × ℕ)) (s : System)
      → IsHolding key leases pending p s
      → (t : System) × IsAnswered key leases pending (second_streams key p o s.pool) t
  unfolding second_streams
  second_streams-answered p none s h = closes p s h _
  second_streams-answered p (some (d, e)) s h = (
    s,
    record {
      reached = h.reached;
      pool = refl;
      owned = h.owned;
      held = h.held;
      waiting = h.waiting;
    },
  )

  second_acquired-answered :
      (b : Attempt) (s : System) (r : Pool × Option ℕ)
      → ((q : ℕ) → s.leases q ≡ leases q)
      → ((q : ℕ) → s.pending q ≡ pending q)
      → Reach (leased key s r)
      → (t : System) × IsAnswered key leases pending (second_acquired key port b r) t
  unfolding second_acquired create_streams
  second_acquired-answered b s (m, none) l w r = (
    leased key s (m, none),
    record { reached = r; pool = refl; owned = tt; held = l; waiting = w },
  )
  second_acquired-answered b s (m, some p) l w r =
      second_streams-answered p _ _ (numbers-IsHolding p _ (acquired-IsHolding s m p l w r))

  first_streams-answered :
      (p : ℕ) (b : Attempt) (o : Option (ℕ × ℕ)) (s : System)
      → IsHolding key leases pending p s
      → ((q : ℕ) → leases q + 1 < u32_mod)
      → (t : System) × IsAnswered key leases pending (first_streams key port p b o s.pool) t
  unfolding first_streams
  first_streams-answered p b none s h room =
      let t = record s {
        pool = evict_stale (s.owner p) p s.pool;
        leases = update p (s.leases p - 1) s.leases;
      } in
      let same : (q : ℕ) → t.leases q ≡ leases q = λ q. ground (arith, h.held q, h.held p) in
      let reached = next h.reached (fails s p (holds p s h)) in
      let evicted = ap (λ k. evict_stale k p s.pool) h.owned in
      subst
        (λ m.
          (u : System) × IsAnswered key leases pending
            (second_acquired key port b (acquire_pool_entry key b.alive b.dial m)) u)
        evicted
        (second_acquired-answered b (found_dead key b.alive t)
          (acquire_pool_entry key b.alive b.dial t.pool) same h.waiting
          (next reached (acquires t key b.alive b.dial (λ q. omega (arith, same q, room q)))))
  first_streams-answered p b (some (d, e)) s h room = (
    s,
    record {
      reached = h.reached;
      pool = refl;
      owned = h.owned;
      held = h.held;
      waiting = h.waiting;
    },
  )

  first_acquired-answered :
      (a b : Attempt) (s : System) (r : Pool × Option ℕ)
      → ((q : ℕ) → s.leases q ≡ leases q)
      → ((q : ℕ) → s.pending q ≡ pending q)
      → ((q : ℕ) → leases q + 1 < u32_mod)
      → Reach (leased key s r)
      → (t : System) × IsAnswered key leases pending (first_acquired key port a b r) t
  unfolding first_acquired create_streams
  first_acquired-answered a b s (m, none) l w room r = (
    leased key s (m, none),
    record { reached = r; pool = refl; owned = tt; held = l; waiting = w },
  )
  first_acquired-answered a b s (m, some p) l w room r =
      first_streams-answered p b _ _ (numbers-IsHolding p _ (acquired-IsHolding s m p l w r)) room

-- From every state that the pool's steps reach, where no connection has 2³² - 1 streams: a dial's two
-- attempts are steps of the pool again, whatever the SPDY library answers. Behind them no callback is
-- on its way that was not before, and the leases are what they were, where the dial fails, and one
-- more of the entry that is answered, where it succeeds.
pub open_streams-answered :
    (key : SpdyKey) (port : ℕ) (a b : Attempt) (s : System)
    → Reach s
    → ((q : ℕ) → s.leases q + 1 < u32_mod)
    → (t : System) × IsAnswered key s.leases s.pending (open_streams key port a b s.pool) t
unfolding open_streams
open_streams-answered key port a b s r room =
    first_acquired-answered key port s.leases s.pending a b (found_dead key a.alive s)
      (acquire_pool_entry key a.alive a.dial s.pool) (λ q. refl) (λ q. refl) room
      (next r (acquires s key a.alive a.dial room))
