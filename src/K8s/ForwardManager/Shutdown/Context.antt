-- ===== src/K8s/ForwardManager/Shutdown/Context.antt =====
-- internal/k8s/forward_manager.go: what ShutdownContext takes down, and what it leaves.
use kube_forwarding_proxy.Base.{
  ℕ, ◌≡◌, refl, sym, ap, ◌∙◌, ◌⊎◌, inl, inr, Bool, true, false, ◌&&◌, ◌||◌, Option, none, some,
  List, [], ◌∷◌, Text, text_eq, text_beq, text_beq_iff, Dict, is_some, lookup, lookup-insert,
  lookup-delete, if◌then◌else◌, ◌==◌, arith, Bool-cases, subst,
}
use kube_forwarding_proxy.Vip.Address.{Ip}
use kube_forwarding_proxy.K8s.ForwardManager.{ForwardKey, key_eq, key_beq_iff, Manager, set_state}
use kube_forwarding_proxy.K8s.ForwardManager.Shutdown.{
  add_unique, close_entry, close_context, stop_timer, drop_found, drop_states, release_all,
  release_unique, shutdown_context,
}
use kube_forwarding_proxy.K8s.ForwardManager.Listeners.{IsShut, close_context-IsShut}

-- Whether a context listens on a VIP.
abbrev pub listens : Text → Text → Dict ForwardKey ℕ → Bool
listens name vip [] = false
listens name vip ((key, l) ∷ rest) =
    (text_beq key.context_name name && text_beq key.vip_addr vip) || listens name vip rest

module _ (parse_ip : Text → Option Ip) (name : Text) where
  -- The first loop, key by key and VIP by VIP.
  record IsClosed (d : Dict ForwardKey ℕ) (vips vips' : Dict Text Ip) (m m' : Manager)
      : Type 0 where
    entries :
        (key : ForwardKey)
        → lookup key m'.entries ≡ (
            if text_beq key.context_name name && is_some (lookup key d)
            then none
            else lookup key m.entries)
    unique :
        (vip : Text)
        → lookup vip vips'
          ≡ (if listens name vip d && is_some (parse_ip vip) then parse_ip vip else lookup vip vips)
    states : m'.vip_states ≡ m.vip_states
    releaser : m'.has_releaser ≡ m.has_releaser

  entry_entries :
      (k key : ForwardKey) (l : ℕ) (b : Bool) (r : Dict Text Ip × Manager)
      → lookup key (close_entry parse_ip k l b r).1.entries
        ≡ (if b && (k == key) then none else lookup key r.1.entries)
  unfolding close_entry
  entry_entries k key l false r = refl
  entry_entries k key l true r = lookup-delete key k r.1.entries

  entry_unique :
      (k : ForwardKey) (vip : Text) (l : ℕ) (b : Bool) (r : Dict Text Ip × Manager)
      → lookup vip (close_entry parse_ip k l b r).0 ≡ (
          if (b && text_beq k.vip_addr vip) && is_some (parse_ip vip)
          then parse_ip vip
          else lookup vip r.0)
  unfolding close_entry add_unique
  entry_unique k vip l false r = refl
  entry_unique k vip l true r = go (parse_ip k.vip_addr) refl
    where
      go :
          (o : Option Ip)
          → parse_ip k.vip_addr ≡ o
          → lookup vip (add_unique k.vip_addr o r.0) ≡ (
              if text_beq k.vip_addr vip && is_some (parse_ip vip)
              then parse_ip vip
              else lookup vip r.0)
      go none e =
          ground (arith, text_beq_iff k.vip_addr vip, ap parse_ip {x = k.vip_addr} {y = vip})
      go (some ip) e = ground (
        arith,
        text_beq_iff k.vip_addr vip,
        ap parse_ip {x = k.vip_addr} {y = vip},
        lookup-insert vip k.vip_addr ip r.0,
      )

  entry_kept :
      (k : ForwardKey) (l : ℕ) (b : Bool) (r : Dict Text Ip × Manager)
      → ((close_entry parse_ip k l b r).1.vip_states ≡ r.1.vip_states)
        × ((close_entry parse_ip k l b r).1.has_releaser ≡ r.1.has_releaser)
  unfolding close_entry
  entry_kept k l false r = (refl, refl)
  entry_kept k l true r = (refl, refl)

  close_context-IsClosed :
      (d : Dict ForwardKey ℕ) (r : Dict Text Ip × Manager)
      → IsClosed d r.0 (close_context parse_ip name d r).0 r.1 (close_context parse_ip name d r).1
  unfolding close_context lookup
  close_context-IsClosed [] r = record {
    entries = λ key. ground arith;
    unique = λ vip. refl;
    states = refl;
    releaser = refl;
  }
  close_context-IsClosed ((k, l) ∷ d) r =
      let b = text_beq k.context_name name in
      let rest = close_context-IsClosed d (close_entry parse_ip k l b r) in
      record {
        entries = λ key. ground (
          arith,
          rest.entries key,
          entry_entries k key l b r,
          key_beq_iff k key,
          ap (λ i. text_beq i.context_name name) {x = k} {y = key},
        );
        unique = λ vip. ground (arith, rest.unique vip, entry_unique k vip l b r);
        states = rest.states ∙ (entry_kept k l b r).0;
        releaser = rest.releaser ∙ (entry_kept k l b r).1;
      }

  -- Closing tracked states leaves listeners and released addresses alone.
  record IsDropped (vips : Dict Text Ip) (m m' : Manager) : Type 0 where
    states :
        (vip : Text)
        → lookup vip m'.vip_states
          ≡ (if is_some (lookup vip vips) then none else lookup vip m.vip_states)
    entries : m'.entries ≡ m.entries
    released : m'.released ≡ m.released
    closed : m'.closed ≡ m.closed
    releaser : m'.has_releaser ≡ m.has_releaser

  drop_found-IsDropped :
      (vip : Text) (ip : Ip) (o : Option ℕ) (m : Manager)
      → lookup vip m.vip_states ≡ o
      → IsDropped ((vip, ip) ∷ []) m (drop_found vip o m)
  unfolding drop_found stop_timer set_state lookup
  drop_found-IsDropped vip ip none m e = record {
    states =
        λ v. ground (arith, text_beq_iff vip v, ap (λ i. lookup i m.vip_states) {x = vip} {y = v});
    entries = refl;
    released = refl;
    closed = refl;
    releaser = refl;
  }
  drop_found-IsDropped vip ip (some p) m e = record {
    states = λ v. ground (arith, lookup-delete v vip m.vip_states);
    entries = refl;
    released = refl;
    closed = refl;
    releaser = refl;
  }

  drop_states-IsDropped :
      (vips : Dict Text Ip) (m : Manager) → IsDropped vips m (drop_states vips m)
  unfolding drop_states lookup
  drop_states-IsDropped [] m = record {
    states = λ v. refl;
    entries = refl;
    released = refl;
    closed = refl;
    releaser = refl;
  }
  drop_states-IsDropped ((vip, ip) ∷ vips) m =
      let first = drop_found-IsDropped vip ip (lookup vip m.vip_states) m refl in
      let rest = drop_states-IsDropped vips (drop_found vip (lookup vip m.vip_states) m) in
      record {
        states = λ v. ground (arith, first.states v, rest.states v);
        entries = rest.entries ∙ first.entries;
        released = rest.released ∙ first.released;
        closed = rest.closed ∙ first.closed;
        releaser = rest.releaser ∙ first.releaser;
      }

-- Whether an address is in a list.
abbrev pub IsIn : Ip → List Ip → Type 0
IsIn ip [] = ⊥
IsIn ip (x ∷ xs) = (x ≡ ip) ⊎ IsIn ip xs

release_all_kept :
    (vips : Dict Text Ip) (ip : Ip) (m : Manager)
    → IsIn ip m.released
    → IsIn ip (release_all vips m).released
unfolding release_all
release_all_kept [] ip m h = h
release_all_kept ((v, i) ∷ vips) ip m h =
    release_all_kept vips ip (record m { released = i ∷ m.released }) (inr h)

release_all_found :
    (vips : Dict Text Ip) (vip : Text) (ip : Ip) (m : Manager)
    → lookup vip vips ≡ some ip
    → IsIn ip (release_all vips m).released
unfolding release_all lookup
release_all_found [] vip ip m h = absurd (cc)
release_all_found ((v, i) ∷ vips) vip ip m h = elim (Bool-cases (text_beq v vip)) [
  | inl hit ↦
      release_all_kept vips ip (record m { released = i ∷ m.released }) (inl (ground (arith, hit)))
  | inr miss ↦
      release_all_found vips vip ip (record m { released = i ∷ m.released }) (ground (arith, miss))
]

release_all-rest :
    (vips : Dict Text Ip) (m : Manager)
    → ((release_all vips m).entries ≡ m.entries)
      × ((release_all vips m).vip_states ≡ m.vip_states)
      × ((release_all vips m).closed ≡ m.closed)
unfolding release_all
release_all-rest [] m = (refl, refl, refl)
release_all-rest ((v, i) ∷ vips) m = release_all-rest vips (record m { released = i ∷ m.released })

release_unique-rest :
    (vips : Dict Text Ip) (m : Manager)
    → ((release_unique vips m).entries ≡ m.entries)
      × ((release_unique vips m).vip_states ≡ m.vip_states)
      × ((release_unique vips m).closed ≡ m.closed)
unfolding release_unique
release_unique-rest vips m = go m.has_releaser
  where
    go :
        (b : Bool)
        → ((if b then release_all vips m else m).entries ≡ m.entries)
          × ((if b then release_all vips m else m).vip_states ≡ m.vip_states)
          × ((if b then release_all vips m else m).closed ≡ m.closed)
    go true = release_all-rest vips m
    go false = (refl, refl, refl)

release_unique_found :
    (vips : Dict Text Ip) (vip : Text) (ip : Ip) (m : Manager)
    → m.has_releaser ≡ true
    → lookup vip vips ≡ some ip
    → IsIn ip (release_unique vips m).released
unfolding release_unique
release_unique_found vips vip ip m on found =
    subst (λ b. IsIn ip (if b then release_all vips m else m).released) (sym on)
      (release_all_found vips vip ip m found)

-- ShutdownContext, for a VIP whose address parses and on which the context has a listener, where a
-- releaser is set: every listener of the context is gone and closed and every other one stays, the
-- VIP is no longer tracked and its address is released; a VIP on which the context does not listen stays
-- tracked.
pub shutdown_context_lem :
    (parse_ip : Text → Option Ip) (name : Text) (m : Manager) (key : ForwardKey) (vip other : Text)
    (ip : Ip)
    → m.has_releaser ≡ true
    → listens name vip m.entries ≡ true
    → parse_ip vip ≡ some ip
    → listens name other m.entries ≡ false
    → let m' = shutdown_context parse_ip name m in
      (lookup key m'.entries
        ≡ (if text_beq key.context_name name then none else lookup key m.entries))
      × (lookup vip m'.vip_states ≡ none)
      × IsIn ip m'.released
      × (lookup other m'.vip_states ≡ lookup other m.vip_states)
      × IsShut (if text_beq key.context_name name then lookup key m.entries else none) m'.closed
unfolding shutdown_context lookup
shutdown_context_lem parse_ip name m key vip other ip on here parsed elsewhere =
    let c = close_context parse_ip name m.entries ([], m) in
    let closed = close_context-IsClosed parse_ip name m.entries ([], m) in
    let dropped = drop_states-IsDropped parse_ip name c.0 c.1 in
    let rest = release_unique-rest c.0 (drop_states c.0 c.1) in
    let unique : lookup vip c.0 ≡ some ip = ground (arith, closed.unique vip) in
    let none_of_other : lookup other c.0 ≡ none = ground (arith, closed.unique other) in
    (
      ap (lookup key) (rest.0 ∙ dropped.entries) ∙ ground (arith, closed.entries key),
      ap (lookup vip) rest.1 ∙ (dropped.states vip ∙ ground (arith, unique)),
      release_unique_found c.0 vip ip (drop_states c.0 c.1)
          (dropped.releaser ∙ (closed.releaser ∙ on)) unique,
      ap (lookup other) rest.1
          ∙ (dropped.states other ∙ ground (arith, none_of_other, ap (lookup other) closed.states)),
      rw (rest.2 ∙ dropped.closed) (close_context-IsShut parse_ip name key m.entries ([], m)),
    )
