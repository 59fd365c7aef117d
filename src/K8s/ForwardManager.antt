-- ===== src/K8s/ForwardManager.antt =====
-- internal/k8s/forward_manager.go: listeners on virtual addresses and their idle expiry. A vipState
-- is shared by pointers (the map's, and those that connections hold), so the states stand in a
-- store; a pointer is a number. A timer that has fired has its callback on the way, which Stop cannot
-- call back: expireVIP may come with each generation that was ever armed. Each function that holds the
-- manager's lock is one step.
pub mod Listeners
pub mod Idle
pub mod Shutdown
pub mod Tracking
pub mod Timers
use kube_forwarding_proxy.Base.{
  ℕ, ◌+◌, ◌-◌, ◌%◌, ◌≡◌, ◌↔◌, Bool, true, false, not, ◌&&◌, ◌||◌, Option, none, some, List, [], ◌∷◌,
  ◌++◌, Text, Eq, text_eq, text_beq, text_beq_iff, Dict, lookup, insert, delete, if◌then◌else◌, ltb,
  nat_beq, nat_beq_iff, arith,
}
use kube_forwarding_proxy.Vip.Address.{Ip, u32_mod}

pub record ForwardKey : Type 0 where
  pub context_name : Text
  pub vip_addr : Text
  pub svc_port : ℕ

unfoldable pub key_beq : ForwardKey → ForwardKey → Bool
key_beq a b =
    text_beq a.context_name b.context_name
    && (text_beq a.vip_addr b.vip_addr && nat_beq a.svc_port b.svc_port)

pub key_beq_iff : (a b : ForwardKey) → (key_beq a b ≡ true) ↔ (a ≡ b)
unfolding key_beq
key_beq_iff a b = ground (
  arith,
  text_beq_iff a.context_name b.context_name,
  text_beq_iff a.vip_addr b.vip_addr,
  nat_beq_iff a.svc_port b.svc_port,
)

instance abbrev pub key_eq : Eq ForwardKey
key_eq = record { beq = key_beq; beq_iff = key_beq_iff }

-- The closure of time.AfterFunc: expireVIP(vipAddr, gen).
pub record Callback : Type 0 where
  pub vip : Text
  pub gen : ℕ

-- `timer` is the callback of a running timer; a stopped or fired timer, and nil, are `none`.
-- `active_conns` is an int32, kept as its 32 bits.
pub record VipState : Type 0 where
  pub timer : Option Callback
  pub generation : ℕ
  pub active_conns : ℕ
  pub forward_keys : List ForwardKey

-- A listener is a number, the entry's cancel function goes with it. The idle timeout is not negative.
pub record Manager : Type 0 where
  pub idle_timeout : ℕ
  pub has_releaser : Bool
  pub entries : Dict ForwardKey ℕ
  pub vip_states : Dict Text ℕ
  pub store : ℕ → VipState
  pub next_pointer : ℕ
  pub closed : List ℕ
  pub released : List Ip

-- The test for a positive int32, of its 32 bits.
abbrev pub i32_limit : ℕ
i32_limit = 2147483648

abbrev pub is_positive : ℕ → Bool
is_positive n = ltb 0 n && ltb n i32_limit

abbrev pub u64_mod : ℕ
u64_mod = 18446744073709551616

-- A write through a pointer.
unfoldable pub write : ℕ → VipState → (ℕ → VipState) → ℕ → VipState
write p v store q = if nat_beq p q then v else store q

unfoldable pub set_state : ℕ → VipState → Manager → Manager
unfolding write
set_state p v m = record m { store = write p v m.store }

unfoldable pub new_manager : Bool → ℕ → Manager
new_manager has_releaser idle_timeout = record {
  idle_timeout = idle_timeout;
  has_releaser = has_releaser;
  entries = [];
  vip_states = [];
  store = λ p. record { timer = none; generation = 0; active_conns = 0; forward_keys = [] };
  next_pointer = 0;
  closed = [];
  released = [];
}

-- idleTimeout > 0 && vipReleaser != nil
unfoldable pub idle_enabled : Manager → Bool
idle_enabled m = ltb 0 m.idle_timeout && m.has_releaser

-- generation++ and a new timer for it.
unfoldable pub rearm : Text → VipState → VipState
rearm vip s =
    let gen = (s.generation + 1) % u64_mod in
    record s { timer = some (record { vip = vip; gen = gen }); generation = gen }

-- The part of touchVIPLocked under state.mu: the timer is stopped, and armed anew if no connection
-- is active.
unfoldable pub touch_state : Text → VipState → VipState
unfolding rearm
touch_state vip s =
    let stopped = record s { timer = none } in
    if is_positive s.active_conns then stopped else rearm vip stopped

unfoldable pub touch_found : Text → Option ℕ → Manager → Manager
unfolding touch_state set_state
touch_found vip none m = m
touch_found vip (some p) m = set_state p (touch_state vip (m.store p)) m

unfoldable pub touch_vip_locked : Text → Manager → Manager
unfolding touch_found idle_enabled
touch_vip_locked vip m =
    if not (idle_enabled m) then m else touch_found vip (lookup vip m.vip_states) m

unfoldable pub touch_vip : Text → Manager → Manager
unfolding touch_vip_locked
touch_vip vip m = touch_vip_locked vip m

-- The key joins the state of its VIP, a new one if there is none.
unfoldable pub track_key : ForwardKey → Option ℕ → Manager → Manager
unfolding set_state
track_key key (some p) m =
    let s = m.store p in set_state p (record s { forward_keys = s.forward_keys ++ key ∷ [] }) m
track_key key none m =
    let p = m.next_pointer in
    let s : VipState = record {
      timer = none;
      generation = 0;
      active_conns = 0;
      forward_keys = key ∷ [];
    } in
    record (set_state p s m) {
      vip_states = insert key.vip_addr p m.vip_states;
      next_pointer = p + 1;
    }

-- StartForward's first section under the lock: whether the listener runs already.
unfoldable pub start_check : ForwardKey → Manager → Bool × Manager
unfolding touch_vip_locked
start_check key m = elim (lookup key m.entries) [
  | some listener ↦ (true, touch_vip_locked key.vip_addr m)
  | none ↦ (false, m)
]

-- Its second section, with a bound listener: it is dropped where another call was faster.
unfoldable pub start_commit : ForwardKey → ℕ → Manager → Manager
unfolding touch_vip_locked idle_enabled track_key
start_commit key listener m = elim (lookup key m.entries) [
  | some other ↦
      let m' = touch_vip_locked key.vip_addr m in record m' { closed = listener ∷ m'.closed }
  | none ↦
      let m' = record m { entries = insert key listener m.entries } in
      if idle_enabled m
      then touch_vip_locked key.vip_addr (track_key key (lookup key.vip_addr m.vip_states) m')
      else m'
]

-- The context of a call: the current one where none is named.
unfoldable pub context_or_current : Text → Text → Text
context_or_current [] current = current
context_or_current (c ∷ context_name) current = c ∷ context_name

-- The rest of StartForward behind its first section: nothing where the listener runs already.
unfoldable pub start_listened : ForwardKey → Option ℕ → Bool × Manager → Bool × Manager
unfolding start_commit
start_listened key listen (true, m) = (true, m)
start_listened key none (false, m) = (false, m)
start_listened key (some listener) (false, m) = (true, start_commit key listener m)

-- StartForward with nothing else between its sections. `listen` is net.Listen's listener, or
-- `none` for an error; the result says whether StartForward returns nil.
unfoldable pub start_forward : ForwardKey → Option ℕ → Manager → Bool × Manager
unfolding start_check start_listened
start_forward key listen m = start_listened key listen (start_check key m)

-- A key's listener is closed, if it is still there.
unfoldable pub close_found : ForwardKey → Option ℕ → Manager → Manager
close_found key none m = m
close_found key (some listener) m = record m {
  entries = delete key m.entries;
  closed = listener ∷ m.closed;
}

-- The loop over a state's keys.
unfoldable pub close_keys : List ForwardKey → Manager → Manager
unfolding close_found
close_keys [] m = m
close_keys (key ∷ keys) m = close_keys keys (close_found key (lookup key m.entries) m)

-- vipReleaser.ReleaseVIP for an address that parses.
unfoldable pub release_text : (Text → Option Ip) → Text → Manager → Manager
release_text parse_ip vip m = elim (parse_ip vip) [
  | none ↦ m
  | some ip ↦ record m { released = ip ∷ m.released }
]

unfoldable pub expire_state : (Text → Option Ip) → Text → ℕ → Option ℕ → Manager → Manager
unfolding close_keys release_text
expire_state parse_ip vip gen none m = m
expire_state parse_ip vip gen (some p) m =
    let s = m.store p in
    if not (nat_beq s.generation gen) || is_positive s.active_conns
    then m
    else let m' = close_keys s.forward_keys m in
      release_text parse_ip vip (record m' { vip_states = delete vip m'.vip_states })

unfoldable pub expire_vip : (Text → Option Ip) → Text → ℕ → Manager → Manager
unfolding expire_state
expire_vip parse_ip vip gen m = expire_state parse_ip vip gen (lookup vip m.vip_states) m

-- handleConn finds the state of its VIP under the manager's lock.
unfoldable pub locate_state : Text → Manager → Option ℕ
unfolding idle_enabled
locate_state vip m = if idle_enabled m then lookup vip m.vip_states else none

-- Then it stops the timer and counts the connection.
unfoldable pub conn_begin : Option ℕ → Manager → Manager
unfolding set_state
conn_begin none m = m
conn_begin (some p) m =
    let s = m.store p in
    set_state p (record s { timer = none; active_conns = (s.active_conns + 1) % u32_mod }) m

-- At the end it takes the connection off, and the last one arms the timer.
unfoldable pub conn_end : Text → Option ℕ → Manager → Manager
unfolding set_state rearm
conn_end vip none m = m
conn_end vip (some p) m =
    let s = m.store p in
    let t = record s { active_conns = (s.active_conns + u32_mod - 1) % u32_mod } in
    set_state p (if nat_beq t.active_conns 0 && ltb 0 m.idle_timeout then rearm vip t else t) m
