-- ===== src/K8s/ForwardManager/Listeners.antt =====
-- internal/k8s/forward_manager.go: the listeners that expireVIP and ShutdownContext close.
use mathlib.Core.List.{Memᴰ}
use kube_forwarding_proxy.Base.{
  ℕ, ◌≡◌, refl, ap, sym, ◌∙◌, inl, inr, Bool, true, false, ◌||◌, Option, none, some, List, [], ◌∷◌,
  Text, text_eq, text_beq, ◌==◌, Dict, lookup, lookup-delete, if◌then◌else◌, arith, Bool-cases,
  subst,
}
use kube_forwarding_proxy.Vip.Address.{Ip}
use kube_forwarding_proxy.K8s.ForwardManager.{
  ForwardKey, key_eq, key_beq_iff, Manager, close_found, close_keys,
}
use kube_forwarding_proxy.K8s.ForwardManager.Shutdown.{close_entry, close_context}

-- A listener, if there is one, is among those that were closed.
abbrev pub IsShut : Option ℕ → List ℕ → Type 0
IsShut none closed = Unit
IsShut (some l) closed = Memᴰ l closed

-- Whether a key is among a state's keys.
abbrev pub has_key : ForwardKey → List ForwardKey → Bool
has_key key [] = false
has_key key (k ∷ keys) = k == key || has_key key keys

pub lookup-close_found :
    (key k : ForwardKey) (o : Option ℕ) (m : Manager)
    → lookup k m.entries ≡ o
    → lookup key (close_found k o m).entries ≡ (if k == key then none else lookup key m.entries)
unfolding close_found
lookup-close_found key k none m e =
    ground (arith, key_beq_iff k key, ap (λ j. lookup j m.entries) {x = k} {y = key})
lookup-close_found key k (some l) m e = lookup-delete key k m.entries

close_found_closed :
    (k : ForwardKey) (o : Option ℕ) (m : Manager) (l : ℕ)
    → Memᴰ l m.closed
    → Memᴰ l (close_found k o m).closed
unfolding close_found
close_found_closed k none m l h = h
close_found_closed k (some i) m l h = Memᴰ.tail h

close_keys_closed :
    (keys : List ForwardKey) (m : Manager) (l : ℕ)
    → Memᴰ l m.closed
    → Memᴰ l (close_keys keys m).closed
unfolding close_keys
close_keys_closed [] m l h = h
close_keys_closed (k ∷ keys) m l h =
    let o = lookup k m.entries in
    close_keys_closed keys (close_found k o m) l (close_found_closed k o m l h)

pub close_keys-IsShut :
    (key : ForwardKey) (keys : List ForwardKey) (m : Manager)
    → IsShut (if has_key key keys then lookup key m.entries else none) (close_keys keys m).closed
unfolding close_keys close_found
close_keys-IsShut key [] m = tt
close_keys-IsShut key (k ∷ keys) m =
    let m' = close_found k (lookup k m.entries) m in
    elim (Bool-cases (k == key)) [
      | inl hit ↦
          let same : k ≡ key = ground (arith, hit, key_beq_iff k key) in
          rw (hit) (
            subst (λ j. IsShut (lookup j m.entries) (close_keys keys m').closed) same
              (here (lookup k m.entries)))
      | inr miss ↦
          let kept : lookup key m'.entries ≡ lookup key m.entries =
            lookup-close_found key k (lookup k m.entries) m refl
            ∙ ap (λ b. if b then none else lookup key m.entries) miss in
          rw miss (
            subst (λ o. IsShut (if has_key key keys then o else none) (close_keys keys m').closed)
              kept (close_keys-IsShut key keys m'))
    ]
  where
    here : (o : Option ℕ) → IsShut o (close_keys keys (close_found k o m)).closed
    here none = tt
    here (some l) = close_keys_closed keys (close_found k (some l) m) l (Memᴰ.head refl)

module _ (parse_ip : Text → Option Ip) (name : Text) where
  close_entry_closed :
      (k : ForwardKey) (i : ℕ) (b : Bool) (r : Dict Text Ip × Manager) (l : ℕ)
      → Memᴰ l r.1.closed
      → Memᴰ l (close_entry parse_ip k i b r).1.closed
  unfolding close_entry
  close_entry_closed k i false r l h = h
  close_entry_closed k i true r l h = Memᴰ.tail h

  close_context_closed :
      (d : Dict ForwardKey ℕ) (r : Dict Text Ip × Manager) (l : ℕ)
      → Memᴰ l r.1.closed
      → Memᴰ l (close_context parse_ip name d r).1.closed
  unfolding close_context
  close_context_closed [] r l h = h
  close_context_closed ((k, i) ∷ d) r l h =
      let b = text_beq k.context_name name in
      close_context_closed d (close_entry parse_ip k i b r) l (close_entry_closed k i b r l h)

  pub close_context-IsShut :
      (key : ForwardKey) (d : Dict ForwardKey ℕ) (r : Dict Text Ip × Manager)
      → IsShut
          (if text_beq key.context_name name then lookup key d else none)
          (close_context parse_ip name d r).1.closed
  unfolding close_context close_entry lookup
  close_context-IsShut key [] r = elim (Bool-cases (text_beq key.context_name name)) [
    | inl mine ↦ rw mine tt
    | inr other ↦ rw other tt
  ]
  close_context-IsShut key ((k, i) ∷ d) r =
      let b = text_beq k.context_name name in
      let r' = close_entry parse_ip k i b r in
      elim (Bool-cases (k == key)) [
        | inr miss ↦ rw miss (close_context-IsShut key d r')
        | inl hit ↦ elim (Bool-cases (text_beq key.context_name name)) [
          | inr other ↦ rw other tt
          | inl mine ↦
              let same : k ≡ key = ground (arith, hit, key_beq_iff k key) in
              let given : text_beq k.context_name name ≡ true =
                ap (λ j. text_beq j.context_name name) same ∙ mine in
              rw (hit, mine)
                (subst
                  (λ c.
                    Memᴰ i (close_context parse_ip name d (close_entry parse_ip k i c r)).1.closed)
                  (sym given)
                  (close_context_closed d (close_entry parse_ip k i true r) i (Memᴰ.head refl)))
        ]
      ]
