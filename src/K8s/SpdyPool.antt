-- ===== src/K8s/SpdyPool.antt =====
-- internal/k8s/forward_manager.go: the pool of SPDY connections. Entries are shared by pointers, so
-- they stand in a store. Dialling, whether a connection's CloseChan is closed, and the streams that a
-- connection opens are the SPDY library's: arguments of the functions that ask for them. The counters
-- are int32 values, kept as their 32 bits.
pub mod Sharing
use kube_forwarding_proxy.Base.{
  ℕ, ◌+◌, ◌-◌, ◌%◌, ◌≡◌, ◌↔◌, Bool, true, false, not, ◌&&◌, Option, none, some, List, [], ◌∷◌, Text,
  Eq, text_eq, text_beq, text_beq_iff, Dict, lookup, insert, delete, update, if◌then◌else◌, nat_beq,
  arith, Result, ok, err,
}
use kube_forwarding_proxy.Vip.Address.{u32_mod}

pub record SpdyKey : Type 0 where
  pub context_name : Text
  pub namespace : Text
  pub pod_name : Text

unfoldable pub spdy_key_beq : SpdyKey → SpdyKey → Bool
spdy_key_beq a b =
    text_beq a.context_name b.context_name
    && (text_beq a.namespace b.namespace && text_beq a.pod_name b.pod_name)

pub spdy_key_beq_iff : (a b : SpdyKey) → (spdy_key_beq a b ≡ true) ↔ (a ≡ b)
unfolding spdy_key_beq
spdy_key_beq_iff a b = ground (
  arith,
  text_beq_iff a.context_name b.context_name,
  text_beq_iff a.namespace b.namespace,
  text_beq_iff a.pod_name b.pod_name,
)

instance abbrev pub spdy_key_eq : Eq SpdyKey
spdy_key_eq = record { beq = spdy_key_beq; beq_iff = spdy_key_beq_iff }

-- A connection is a number.
pub record PoolEntry : Type 0 where
  pub conn : ℕ
  pub next_id : ℕ
  pub refs : ℕ

-- The pool's part of the ForwardManager. `closed` lists the connections that were closed, the last
-- one first.
pub record Pool : Type 0 where
  pub spdy_pool : Dict SpdyKey ℕ
  pub entry : ℕ → PoolEntry
  pub next_pointer : ℕ
  pub closed : List ℕ

abbrev pub empty_pool : Pool
empty_pool = record {
  spdy_pool = [];
  entry = λ p. record { conn = 0; next_id = 0; refs = 0 };
  next_pointer = 0;
  closed = [];
}

-- refs.Add(1).
unfoldable pub add_ref : ℕ → Pool → Pool
add_ref p m = record m {
  entry = update p (record (m.entry p) { refs = ((m.entry p).refs + 1) % u32_mod }) m.entry;
}

-- The end of acquirePoolEntry: `dial` is the new connection, `none` an error.
unfoldable pub dial_entry : SpdyKey → Option ℕ → Pool → Pool × Option ℕ
dial_entry key none m = (m, none)
dial_entry key (some conn) m =
    let p = m.next_pointer in
    (
      record m {
        spdy_pool = insert key p m.spdy_pool;
        entry = update p (record { conn = conn; next_id = 0; refs = 1 }) m.entry;
        next_pointer = p + 1;
      },
      some p,
    )

-- With the entry that the pool has for the key; `alive` is false where its CloseChan is closed.
unfoldable pub acquire_found : SpdyKey → Bool → Option ℕ → Option ℕ → Pool → Pool × Option ℕ
unfolding add_ref dial_entry
acquire_found key alive dial none m = dial_entry key dial m
acquire_found key true dial (some p) m = (add_ref p m, some p)
acquire_found key false dial (some p) m =
    dial_entry key dial (record m { spdy_pool = delete key m.spdy_pool })

unfoldable pub acquire_pool_entry : SpdyKey → Bool → Option ℕ → Pool → Pool × Option ℕ
unfolding acquire_found
acquire_pool_entry key alive dial m = acquire_found key alive dial (lookup key m.spdy_pool) m

-- The first step of the callback of buildOnClose, refs.Add(-1): whether it dropped the last reference.
unfoldable pub drop_ref : ℕ → Pool → Bool × Pool
drop_ref p m =
    let refs = ((m.entry p).refs + u32_mod - 1) % u32_mod in
    (nat_beq refs 0, record m { entry = update p (record (m.entry p) { refs = refs }) m.entry })

-- m.spdyPool[key] == e
unfoldable pub is_pooled : SpdyKey → ℕ → Pool → Bool
is_pooled key p m = elim (lookup key m.spdy_pool) [ none ↦ false | some q ↦ nat_beq q p ]

unfoldable pub close_conn : ℕ → Pool → Pool
close_conn p m = record m { closed = (m.entry p).conn ∷ m.closed }

-- Its second step, under the pool's lock.
unfoldable pub evict_idle : SpdyKey → ℕ → Pool → Pool
unfolding is_pooled close_conn
evict_idle key p m =
    if is_pooled key p m && nat_beq (m.entry p).refs 0
    then close_conn p (record m { spdy_pool = delete key m.spdy_pool })
    else m

-- The whole callback, with nothing between its steps.
unfoldable pub on_close : SpdyKey → ℕ → Pool → Pool
unfolding drop_ref evict_idle
on_close key p m = let (last, m') = drop_ref p m in if last then evict_idle key p m' else m'

-- DialPortForward, where no streams can be created: the entry is evicted and closed.
unfoldable pub evict_stale : SpdyKey → ℕ → Pool → Pool
unfolding is_pooled close_conn
evict_stale key p m =
    close_conn p (if is_pooled key p m then record m { spdy_pool = delete key m.spdy_pool } else m)

-- The pools' part of ShutdownContext: the connections of a context.
unfoldable pub close_pooled : (SpdyKey → Bool) → Dict SpdyKey ℕ → Pool → Pool
unfolding close_conn
close_pooled given [] m = m
close_pooled given ((key, p) ∷ rest) m =
    let m' =
      if given key then close_conn p (record m { spdy_pool = delete key m.spdy_pool }) else m in
    close_pooled given rest m'

unfoldable pub shutdown_pool_context : Text → Pool → Pool
unfolding close_pooled
shutdown_pool_context context_name m =
    close_pooled (λ key. text_beq key.context_name context_name) m.spdy_pool m

unfoldable pub shutdown_pool : Pool → Pool
unfolding close_pooled
shutdown_pool m = close_pooled (λ key. true) m.spdy_pool m

-- The headers of the two streams of a forward.
pub data StreamType : Type 0 where
  error_stream data_stream : StreamType

pub record StreamHeaders : Type 0 where
  pub stream_type : StreamType
  pub port : ℕ
  pub request_id : ℕ

-- What createStreams leaves: the error stream that it reset, and the two streams or nothing.
pub record CreatedStreams : Type 0 where
  pub headers : List StreamHeaders
  pub reset : Option ℕ
  pub streams : Option (ℕ × ℕ)

-- With the error stream; `create` answers a stream, or `none` for an error.
unfoldable pub create_data_stream : (StreamHeaders → Option ℕ) → ℕ → ℕ → Option ℕ → CreatedStreams
create_data_stream create port id none = record {
  headers = record { stream_type = error_stream; port = port; request_id = id } ∷ [];
  reset = none;
  streams = none;
}
create_data_stream create port id (some error) =
    let first : StreamHeaders = record {
      stream_type = error_stream;
      port = port;
      request_id = id;
    } in
    let second : StreamHeaders = record {
      stream_type = data_stream;
      port = port;
      request_id = id;
    } in
    elim (create second) [
      | none ↦ record { headers = first ∷ second ∷ []; reset = some error; streams = none }
      | some stream ↦ record {
        headers = first ∷ second ∷ [];
        reset = none;
        streams = some (stream, error);
      }
    ]

-- nextID.Add(1), whose value before is the request's id.
unfoldable pub take_id : ℕ → Pool → ℕ × Pool
take_id p m =
    let id = (m.entry p).next_id in
    (
      id,
      record m { entry = update p (record (m.entry p) { next_id = (id + 1) % u32_mod }) m.entry },
    )

unfoldable pub create_streams : (StreamHeaders → Option ℕ) → ℕ → ℕ → Pool → CreatedStreams × Pool
unfolding take_id create_data_stream
create_streams create port p m =
    let (id, m') = take_id p m in
    let first : StreamHeaders = record {
      stream_type = error_stream;
      port = port;
      request_id = id;
    } in
    (create_data_stream create port id (create first), m')
