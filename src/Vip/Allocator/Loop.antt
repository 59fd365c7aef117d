-- ===== src/Vip/Allocator/Loop.antt =====
-- internal/vip/allocator.go: what Allocate does, from its loop's single round up.
use kube_forwarding_proxy.Base.{
  ℕ, zero, suc, ◌+◌, ◌%◌, ◌-◌, ◌≤◌, ◌<◌, ◌≡◌, refl, ap, ◌∙◌, inl, inr, Option, none, some, Text,
  text_eq, nat_eq, arith, lookup, insert, leb, Bool-cases, Option-cases, Result, ok, err,
}
use kube_forwarding_proxy.Vip.Address.{
  Ip, NetText, u32_mod, ip_to_uint32, uint32_to_ip, ip_to_uint32-uint32_to_ip,
}
use kube_forwarding_proxy.Vip.Interface.{
  AddressError, address_in_use, os_error, InterfaceAddressManager,
}
use kube_forwarding_proxy.Vip.Allocator.{
  Allocator, AllocatorError, exhausted, Outcome, Round, returns, continues, after_add, try_next,
  allocate_loop, allocate,
}
use kube_forwarding_proxy.Vip.Allocator.Invariant.{
  IsValid, advance-IsValid, skip-IsValid, assign-IsValid,
}

module _ (net : NetText) where
  open net use {ip_string, parse_ip, parse_ip_string}

  -- How the maps stand behind a call that allocates for `key`, by its result.
  abbrev pub Settled : Text → Allocator → Allocator → Result AllocatorError Ip → Type 0
  Settled key a b (ok ip) =
      (b.assigned ≡ insert key ip a.assigned)
      × (b.reverse ≡ insert (ip_string ip) key a.reverse)
      × (a.next ≤ ip_to_uint32 ip)
      × (ip_to_uint32 ip < a.max)
  Settled key a b (err e) =
      (b.assigned ≡ a.assigned) × (b.reverse ≡ a.reverse) × (e ≡ exhausted → a.max ≤ b.next)

  -- The range stays, and `next` never moves back.
  pub record Advances (a b : Allocator) : Type 0 where
    pub same_base : b.base ≡ a.base
    pub same_max : b.max ≡ a.max
    pub forward : a.next ≤ b.next

  advances :
      (a b : Allocator)
      → IsValid net a
      → a.next < a.max
      → b.base ≡ a.base
      → b.max ≡ a.max
      → b.next ≡ (a.next + 1) % u32_mod
      → Advances a b
  advances a b v h same_base same_max e = record {
    same_base = same_base;
    same_max = same_max;
    forward = omega (arith, v.top);
  }

  -- The address that comes next has not been skipped.
  not_skipped_next :
      (a : Allocator) (n : ℕ) → IsValid net a → n ≡ a.next → lookup n a.skipped ≡ none
  not_skipped_next a n v e = elim (Option-cases (lookup n a.skipped)) [
    | inl missing ↦ missing
    | inr (tt, found) ↦ absurd (omega (arith, v.skipped_below n found))
  ]

  module _ (m : InterfaceAddressManager) where
    open m use {Iface, add_address, remove_address}

    abbrev RoundLaw : Text → Allocator → Round Iface → Type 0
    RoundLaw key a (returns o) =
        Settled key a o.allocator o.result × Advances a o.allocator × IsValid net o.allocator
    RoundLaw key a (continues b s) =
        (b.assigned ≡ a.assigned)
        × (b.reverse ≡ a.reverse)
        × Advances a b
        × (a.next < b.next)
        × (b.next ≤ a.max)
        × IsValid net b

    after_add-RoundLaw :
        (key : Text) (ip : Ip) (a : Allocator) (r : Option AddressError × Iface)
        → IsValid net a
        → a.next < a.max
        → ip_to_uint32 ip ≡ a.next
        → lookup key a.assigned ≡ none
        → RoundLaw key a (after_add net m key ip (record a { next = (a.next + 1) % u32_mod }) r)
    unfolding after_add
    after_add-RoundLaw key ip a (some address_in_use, s) v h n new = (
      refl,
      refl,
      advances a _ v h refl refl refl,
      omega (arith, v.top),
      omega (arith, v.top),
      skip-IsValid net (record a { next = (a.next + 1) % u32_mod }) (ip_to_uint32 ip)
          (advance-IsValid net a v h) (omega (arith, v.top))
          (λ j ip' p. omega (arith, v.handed_out j ip' p)),
    )
    after_add-RoundLaw key ip a (some (os_error e), s) v h n new =
        ((refl, refl, λ e. cc), advances a _ v h refl refl refl, advance-IsValid net a v h)
    after_add-RoundLaw key ip a (none, s) v h n new = (
      (refl, refl, omega arith, omega arith),
      advances a _ v h refl refl refl,
      assign-IsValid net (record a { next = (a.next + 1) % u32_mod }) key ip
          (advance-IsValid net a v h) new (omega (arith, v.started, v.top))
          (not_skipped_next a (ip_to_uint32 ip) v n)
          (λ j ip' p same. omega (arith, v.handed_out j ip' p, ap ip_to_uint32 same)),
    )

    try_next-RoundLaw :
        (key : Text) (a : Allocator) (s : Iface)
        → IsValid net a
        → lookup key a.assigned ≡ none
        → RoundLaw key a (try_next net m key a s)
    unfolding try_next
    try_next-RoundLaw key a s v new = elim (Bool-cases (leb a.max a.next)) [
      | inl full ↦ rw full (
        (refl, refl, λ e. ground arith),
        record { same_base = refl; same_max = refl; forward = omega arith },
        v,
      )
      | inr room ↦ rw room (
          after_add-RoundLaw key (uint32_to_ip a.next) a (add_address (uint32_to_ip a.next) s) v
            (ground arith) (ip_to_uint32-uint32_to_ip a.next v.in_range) new)
    ]

    -- What a whole call gives: it returns, its result is settled, and the invariant holds.
    pub record Allocates (key : Text) (a : Allocator) (run : Option (Outcome Iface)) : Type 0 where
      pub outcome : Outcome Iface
      pub total : run ≡ some outcome
      pub settled : Settled key a outcome.allocator outcome.result
      pub advanced : Advances a outcome.allocator
      pub valid : IsValid net outcome.allocator

    Settled-skip :
        (key : Text) (a b c : Allocator) (r : Result AllocatorError Ip)
        → b.assigned ≡ a.assigned
        → b.reverse ≡ a.reverse
        → Advances a b
        → Settled key b c r
        → Settled key a c r
    Settled-skip key a b c (ok ip) p q h (x, y, lo, hi) = (
      x ∙ ap (insert key ip) p,
      y ∙ ap (insert (ip_string ip) key) q,
      omega (arith, h.forward),
      omega (arith, h.same_max),
    )
    Settled-skip key a b c (err e) p q h (x, y, full) =
        (x ∙ p, y ∙ q, λ same. omega (arith, full same, h.same_max))

    Allocates-skip :
        (key : Text) (a b : Allocator) (run : Option (Outcome Iface))
        → b.assigned ≡ a.assigned
        → b.reverse ≡ a.reverse
        → Advances a b
        → Allocates key b run
        → Allocates key a run
    Allocates-skip key a b run p q h r = record {
      outcome = r.outcome;
      total = r.total;
      settled = Settled-skip key a b r.outcome.allocator r.outcome.result p q h r.settled;
      advanced = record {
        same_base = r.advanced.same_base ∙ h.same_base;
        same_max = r.advanced.same_max ∙ h.same_max;
        forward = omega (arith, r.advanced.forward, h.forward);
      };
      valid = r.valid;
    }

    allocate_loop-Allocates :
        (fuel : ℕ) (key : Text) (a : Allocator) (s : Iface)
        → IsValid net a
        → lookup key a.assigned ≡ none
        → a.max - a.next < fuel
        → Allocates key a (allocate_loop net m fuel key a s)
    unfolding allocate_loop
    allocate_loop-Allocates zero key a s v new enough = absurd (omega arith)
    allocate_loop-Allocates (suc fuel) key a s v new enough =
        go (try_next net m key a s) refl (try_next-RoundLaw key a s v new)
          (allocate_loop-Allocates fuel key)
      where
        go :
            (r : Round Iface)
            → try_next net m key a s ≡ r
            → RoundLaw key a r
            → ((b : Allocator) (t : Iface)
                → IsValid net b
                → lookup key b.assigned ≡ none
                → b.max - b.next < fuel
                → Allocates key b (allocate_loop net m fuel key b t))
            → Allocates key a (allocate_loop net m (suc fuel) key a s)
        go (returns o) e (settled, advanced, valid) rest =
            rw (e, allocate_loop)
              (record {
                outcome = o;
                total = refl;
                settled = settled;
                advanced = advanced;
                valid = valid;
              })
        go (continues b t) e (p, q, advanced, moved, within, valid) rest =
            rw (e, allocate_loop)
              (Allocates-skip key a b _ p q advanced
                (rest b t valid (rw p new) (omega (arith, advanced.same_max))))

    -- Allocate always returns.
    pub allocate-Allocates :
        (key : Text) (a : Allocator) (s : Iface)
        → IsValid net a
        → lookup key a.assigned ≡ none
        → Allocates key a (allocate net m key a s)
    unfolding allocate
    allocate-Allocates key a s v new =
        rw (new, allocate)
          (allocate_loop-Allocates (suc (a.max - a.next)) key a s v new (omega arith))
