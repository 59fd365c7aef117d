-- ===== src/Vip/Allocator/Invariant.antt =====
-- internal/vip/allocator.go: the two maps mirror each other, and every address that was handed out
-- or skipped lies behind `next`.
use mathlib.Core.Option.{some-injective}
use kube_forwarding_proxy.Base.{
  ℕ, ◌+◌, ◌%◌, ◌≤◌, ◌<◌, ◌≡◌, ◌≢◌, sym, ap, ◌∙◌, inl, inr, none, some, Text, text_eq, nat_eq, arith,
  lookup, insert, delete, lookup-insert_self, lookup-insert_ne, lookup-insert_cases,
  lookup-delete_ne, lookup-delete_inv,
}
use kube_forwarding_proxy.Vip.Address.{Ip, NetText, u32_mod, ip_to_uint32}
use kube_forwarding_proxy.Vip.Allocator.{Allocator}

module _ (net : NetText) where
  open net use {ip_string, parse_ip, parse_ip_string}

  -- Addresses are told apart by their spelling.
  pub ip_string-injective : (a b : Ip) → ip_string a ≡ ip_string b → a ≡ b
  ip_string-injective a b e =
      some-injective _ _ (sym (parse_ip_string a) ∙ (ap parse_ip e ∙ parse_ip_string b))

  pub record IsValid (a : Allocator) : Type 0 where
    pub started : a.base ≤ a.next
    pub in_range : a.next < u32_mod
    pub top : a.max < u32_mod
    pub mirrored :
        (key : Text) (ip : Ip)
        → lookup key a.assigned ≡ some ip
        → lookup (ip_string ip) a.reverse ≡ some key
    pub backed :
        (s key : Text)
        → lookup s a.reverse ≡ some key
        → (ip : Ip) × (s ≡ ip_string ip) × (lookup key a.assigned ≡ some ip)
    pub handed_out :
        (key : Text) (ip : Ip)
        → lookup key a.assigned ≡ some ip
        → (a.base ≤ ip_to_uint32 ip) × (ip_to_uint32 ip < a.next) × (ip_to_uint32 ip < a.max)
    pub not_skipped :
        (key : Text) (ip : Ip)
        → lookup key a.assigned ≡ some ip
        → lookup (ip_to_uint32 ip) a.skipped ≡ none
    pub skipped_below : (n : ℕ) → lookup n a.skipped ≡ some tt → n < a.next

  -- No two services share a VIP.
  pub distinct_keys :
      (a : Allocator) (k j : Text) (ip : Ip)
      → IsValid a
      → lookup k a.assigned ≡ some ip
      → lookup j a.assigned ≡ some ip
      → k ≡ j
  distinct_keys a k j ip v p q = some-injective _ _ (sym (v.mirrored k ip p) ∙ v.mirrored j ip q)

  -- `next` passes an address.
  pub advance-IsValid :
      (a : Allocator)
      → IsValid a
      → a.next < a.max
      → IsValid (record a { next = (a.next + 1) % u32_mod })
  advance-IsValid a v h = record {
    started = omega (arith, v.started, v.top);
    in_range = omega arith;
    top = v.top;
    mirrored = v.mirrored;
    backed = v.backed;
    handed_out = λ key ip p. omega (arith, v.handed_out key ip p, v.top);
    not_skipped = v.not_skipped;
    skipped_below = λ n p. omega (arith, v.skipped_below n p, v.top);
  }

  pub skip-IsValid :
      (a : Allocator) (n : ℕ)
      → IsValid a
      → n < a.next
      → ((key : Text) (ip : Ip) → lookup key a.assigned ≡ some ip → n ≢ ip_to_uint32 ip)
      → IsValid (record a { skipped = insert n tt a.skipped })
  skip-IsValid a n v h free = record {
    started = v.started;
    in_range = v.in_range;
    top = v.top;
    mirrored = v.mirrored;
    backed = v.backed;
    handed_out = v.handed_out;
    not_skipped = λ key ip p.
        lookup-insert_ne (ip_to_uint32 ip) n tt a.skipped (free key ip p) ∙ v.not_skipped key ip p;
    skipped_below = λ k p. elim (lookup-insert_cases k n tt tt a.skipped p) [
      | inl (e, _) ↦ rw (← e) h
      | inr (_, q) ↦ v.skipped_below k q
    ];
  }

  -- A new pair of entries.
  assign_mirrored :
      (a : Allocator) (key : Text) (ip : Ip)
      → IsValid a
      → ((j : Text) (ip' : Ip) → lookup j a.assigned ≡ some ip' → ip ≢ ip')
      → (j : Text) (ip' : Ip) → lookup j (insert key ip a.assigned) ≡ some ip'
      → lookup (ip_string ip') (insert (ip_string ip) key a.reverse) ≡ some j
  assign_mirrored a key ip v free j ip' p = elim (lookup-insert_cases j key ip ip' a.assigned p) [
    | inl (e, f) ↦ rw (← e, ← f) (lookup-insert_self (ip_string ip) key a.reverse)
    | inr (_, q) ↦
        lookup-insert_ne (ip_string ip') (ip_string ip) key a.reverse
          (λ same. free j ip' q (ip_string-injective ip ip' same))
        ∙ v.mirrored j ip' q
  ]

  assign_backed :
      (a : Allocator) (key : Text) (ip : Ip)
      → IsValid a
      → lookup key a.assigned ≡ none
      → (s j : Text) → lookup s (insert (ip_string ip) key a.reverse) ≡ some j
      → (ip' : Ip) × (s ≡ ip_string ip') × (lookup j (insert key ip a.assigned) ≡ some ip')
  assign_backed a key ip v new s j p =
      elim (lookup-insert_cases s (ip_string ip) key j a.reverse p) [
        | inl (e, f) ↦ (ip, sym e, rw (← f) (lookup-insert_self key ip a.assigned))
        | inr (_, q) ↦
            let (ip', e, r) = v.backed s j q in
            (
              ip',
              e,
              lookup-insert_ne j key ip a.assigned
                    (λ same. ground (arith, ap (λ k. lookup k a.assigned) same))
                  ∙ r,
            )
      ]

  pub assign-IsValid :
      (a : Allocator) (key : Text) (ip : Ip)
      → IsValid a
      → lookup key a.assigned ≡ none
      → (a.base ≤ ip_to_uint32 ip) × (ip_to_uint32 ip < a.next) × (ip_to_uint32 ip < a.max)
      → lookup (ip_to_uint32 ip) a.skipped ≡ none
      → ((j : Text) (ip' : Ip) → lookup j a.assigned ≡ some ip' → ip ≢ ip')
      → IsValid (record a {
        assigned = insert key ip a.assigned;
        reverse = insert (ip_string ip) key a.reverse;
      })
  assign-IsValid a key ip v new within ns free = record {
    started = v.started;
    in_range = v.in_range;
    top = v.top;
    mirrored = assign_mirrored a key ip v free;
    backed = assign_backed a key ip v new;
    handed_out = λ j ip' p. elim (lookup-insert_cases j key ip ip' a.assigned p) [
      | inl (_, f) ↦ rw (← f) within
      | inr (_, q) ↦ v.handed_out j ip' q
    ];
    not_skipped = λ j ip' p. elim (lookup-insert_cases j key ip ip' a.assigned p) [
      | inl (_, f) ↦ rw (← f) ns
      | inr (_, q) ↦ v.not_skipped j ip' q
    ];
    skipped_below = v.skipped_below;
  }

  -- Both entries of an address are dropped.
  pub release-IsValid :
      (a : Allocator) (key : Text) (ip : Ip)
      → IsValid a
      → lookup key a.assigned ≡ some ip
      → IsValid
          (record a { assigned = delete key a.assigned; reverse = delete (ip_string ip) a.reverse })
  release-IsValid a key ip v held = record {
    started = v.started;
    in_range = v.in_range;
    top = v.top;
    mirrored = λ j ip' p.
        let (other, q) = lookup-delete_inv j key ip' a.assigned p in
        lookup-delete_ne (ip_string ip') (ip_string ip) a.reverse (λ same. other (
          some-injective _ _ (
            sym (v.mirrored key ip held)
            ∙ (ap (λ s. lookup s a.reverse) same ∙ v.mirrored j ip' q))))
        ∙ v.mirrored j ip' q;
    backed = λ s j p.
        let (other, q) = lookup-delete_inv s (ip_string ip) j a.reverse p in
        let (ip', e, r) = v.backed s j q in
        (
          ip',
          e,
          lookup-delete_ne j key a.assigned (λ same. other (
                ap ip_string
                  (some-injective _ _ (sym held ∙ (ap (λ k. lookup k a.assigned) same ∙ r)))
                ∙ sym e))
              ∙ r,
        );
    handed_out = λ j ip' p. v.handed_out j ip' (lookup-delete_inv j key ip' a.assigned p).1;
    not_skipped = λ j ip' p. v.not_skipped j ip' (lookup-delete_inv j key ip' a.assigned p).1;
    skipped_below = v.skipped_below;
  }
