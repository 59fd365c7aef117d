-- ===== src/K8s/ForwardManager/Timers/Frame.antt =====
-- internal/k8s/forward_manager.go: which VIPs each step keeps track of.
use kube_forwarding_proxy.Base.{
  ℕ, ◌≡◌, refl, sym, ap, ◌∙◌, inl, inr, Bool, true, false, Option, none, some, List, [], ◌∷◌, Text,
  Dict, text_eq, lookup, delete, lookup-delete_inv, Option-cases, Bool-cases, not, ◌||◌, nat_beq,
  text_beq, if◌then◌else◌,
}
use kube_forwarding_proxy.Vip.Address.{Ip}
use kube_forwarding_proxy.K8s.ForwardManager.{
  is_positive, ForwardKey, key_eq, VipState, Manager, set_state, idle_enabled, touch_state,
  touch_found, touch_vip_locked, close_found, close_keys, release_text, expire_state, expire_vip,
  conn_end,
}
use kube_forwarding_proxy.K8s.ForwardManager.Shutdown.{
  close_entry, close_context, release_all, release_unique,
}

-- A step that tracks no new VIP: the states that stay are where they were.
pub record IsPart (m m' : Manager) : Type 0 where
  pub kept :
      (vip : Text) (p : ℕ) → lookup vip m'.vip_states ≡ some p → lookup vip m.vip_states ≡ some p
  pub timeout : m'.idle_timeout ≡ m.idle_timeout
  pub releaser : m'.has_releaser ≡ m.has_releaser
  pub pointer : m'.next_pointer ≡ m.next_pointer

pub IsPart-refl : (m : Manager) → IsPart m m
IsPart-refl m = record { kept = λ v p l. l; timeout = refl; releaser = refl; pointer = refl }

pub IsPart-trans : (a b c : Manager) → IsPart a b → IsPart b c → IsPart a c
IsPart-trans a b c x y = record {
  kept = λ v p l. x.kept v p (y.kept v p l);
  timeout = y.timeout ∙ x.timeout;
  releaser = y.releaser ∙ x.releaser;
  pointer = y.pointer ∙ x.pointer;
}

pub delete-IsPart :
    (vip : Text) (m : Manager) → IsPart m (record m { vip_states = delete vip m.vip_states })
delete-IsPart vip m = record {
  kept = λ v p l. (lookup-delete_inv v vip p m.vip_states l).1;
  timeout = refl;
  releaser = refl;
  pointer = refl;
}

pub set_state-IsPart : (p : ℕ) (s : VipState) (m : Manager) → IsPart m (set_state p s m)
unfolding set_state
set_state-IsPart p s m = record {
  kept = λ v q l. l;
  timeout = refl;
  releaser = refl;
  pointer = refl;
}

touch_found-IsPart : (vip : Text) (o : Option ℕ) (m : Manager) → IsPart m (touch_found vip o m)
unfolding touch_found
touch_found-IsPart vip none m = IsPart-refl m
touch_found-IsPart vip (some p) m = set_state-IsPart p (touch_state vip (m.store p)) m

pub touch_vip_locked-IsPart : (vip : Text) (m : Manager) → IsPart m (touch_vip_locked vip m)
unfolding touch_vip_locked
touch_vip_locked-IsPart vip m = elim (Bool-cases (idle_enabled m)) [
  | inl on ↦ rw (on, touch_vip_locked) (touch_found-IsPart vip (lookup vip m.vip_states) m)
  | inr off ↦ rw (off, touch_vip_locked) (IsPart-refl m)
]

pub conn_end-IsPart : (vip : Text) (p : ℕ) (m : Manager) → IsPart m (conn_end vip (some p) m)
unfolding conn_end
conn_end-IsPart vip p m = set_state-IsPart p _ m

-- A step that changes no state either.
pub record IsQuiet (m m' : Manager) : Type 0 where
  pub part : IsPart m m'
  pub store : m'.store ≡ m.store

pub IsQuiet-trans : (a b c : Manager) → IsQuiet a b → IsQuiet b c → IsQuiet a c
IsQuiet-trans a b c x y = record {
  part = IsPart-trans a b c x.part y.part;
  store = y.store ∙ x.store;
}

pub IsQuiet-refl : (m : Manager) → IsQuiet m m
IsQuiet-refl m = record { part = IsPart-refl m; store = refl }

-- The fields that IsQuiet looks at.
pub same-IsQuiet :
    (m m' : Manager)
    → m'.vip_states ≡ m.vip_states
    → m'.store ≡ m.store
    → m'.idle_timeout ≡ m.idle_timeout
    → m'.has_releaser ≡ m.has_releaser
    → m'.next_pointer ≡ m.next_pointer
    → IsQuiet m m'
same-IsQuiet m m' e f g h i = record {
  part = record {
    kept = λ v p l. ap (lookup v) (sym e) ∙ l;
    timeout = g;
    releaser = h;
    pointer = i;
  };
  store = f;
}

close_found-IsQuiet :
    (key : ForwardKey) (o : Option ℕ) (m : Manager) → IsQuiet m (close_found key o m)
unfolding close_found
close_found-IsQuiet key none m = IsQuiet-refl m
close_found-IsQuiet key (some l) m = same-IsQuiet m _ refl refl refl refl refl

close_keys-IsQuiet : (keys : List ForwardKey) (m : Manager) → IsQuiet m (close_keys keys m)
unfolding close_keys
close_keys-IsQuiet [] m = IsQuiet-refl m
close_keys-IsQuiet (key ∷ keys) m =
    IsQuiet-trans m (close_found key (lookup key m.entries) m) _
      (close_found-IsQuiet key (lookup key m.entries) m)
      (close_keys-IsQuiet keys (close_found key (lookup key m.entries) m))

release_text-IsQuiet :
    (parse_ip : Text → Option Ip) (vip : Text) (m : Manager)
    → IsQuiet m (release_text parse_ip vip m)
unfolding release_text
release_text-IsQuiet parse_ip vip m = elim (Option-cases (parse_ip vip)) [
  | inl missing ↦ rw (missing, release_text) (IsQuiet-refl m)
  | inr (ip, found) ↦ rw (found, release_text) (same-IsQuiet m _ refl refl refl refl refl)
]

pub expire_vip-IsQuiet :
    (parse_ip : Text → Option Ip) (vip : Text) (gen : ℕ) (m : Manager)
    → IsQuiet m (expire_vip parse_ip vip gen m)
unfolding expire_vip expire_state
expire_vip-IsQuiet parse_ip vip gen m = go (lookup vip m.vip_states)
  where
    go : (o : Option ℕ) → IsQuiet m (expire_state parse_ip vip gen o m)
    go none = IsQuiet-refl m
    go (some p) =
        let c = close_keys (m.store p).forward_keys m in
        let d = record c { vip_states = delete vip c.vip_states } in
        elim (Bool-cases
          (not (nat_beq (m.store p).generation gen) || is_positive (m.store p).active_conns)) [
            | inl blocked ↦ rw blocked (IsQuiet-refl m)
            | inr free ↦ rw free (
                IsQuiet-trans m c _ (close_keys-IsQuiet (m.store p).forward_keys m) (
                  IsQuiet-trans c d _ (record { part = delete-IsPart vip c; store = refl })
                    (release_text-IsQuiet parse_ip vip d)))
          ]

close_entry-IsQuiet :
    (parse_ip : Text → Option Ip) (key : ForwardKey) (l : ℕ) (b : Bool) (r : Dict Text Ip × Manager)
    → IsQuiet r.1 (close_entry parse_ip key l b r).1
unfolding close_entry
close_entry-IsQuiet parse_ip key l false r = IsQuiet-refl r.1
close_entry-IsQuiet parse_ip key l true r = same-IsQuiet r.1 _ refl refl refl refl refl

pub close_context-IsQuiet :
    (parse_ip : Text → Option Ip) (name : Text) (d : Dict ForwardKey ℕ) (r : Dict Text Ip × Manager)
    → IsQuiet r.1 (close_context parse_ip name d r).1
unfolding close_context
close_context-IsQuiet parse_ip name [] r = IsQuiet-refl r.1
close_context-IsQuiet parse_ip name ((key, l) ∷ d) r =
    let b = text_beq key.context_name name in
    IsQuiet-trans r.1 (close_entry parse_ip key l b r).1 _ (close_entry-IsQuiet parse_ip key l b r)
      (close_context-IsQuiet parse_ip name d (close_entry parse_ip key l b r))

release_all-IsQuiet : (vips : Dict Text Ip) (m : Manager) → IsQuiet m (release_all vips m)
unfolding release_all
release_all-IsQuiet [] m = IsQuiet-refl m
release_all-IsQuiet ((v, i) ∷ vips) m =
    let m' = record m { released = i ∷ m.released } in
    IsQuiet-trans m m' _ (same-IsQuiet m m' refl refl refl refl refl) (release_all-IsQuiet vips m')

pub release_unique-IsQuiet : (vips : Dict Text Ip) (m : Manager) → IsQuiet m (release_unique vips m)
unfolding release_unique
release_unique-IsQuiet vips m = go m.has_releaser
  where
    go : (b : Bool) → IsQuiet m (if b then release_all vips m else m)
    go true = release_all-IsQuiet vips m
    go false = IsQuiet-refl m
