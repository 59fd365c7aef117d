-- ===== src/Proxy/Socks5/Dots.antt =====
-- internal/proxy/cluster.go: names with a final dot.
use kube_forwarding_proxy.Base.{
  ℕ, zero, suc, ◌+◌, ◌-◌, ◌≡◌, ◌≢◌, refl, sym, ap, ◌∙◌, inl, inr, ◌⊎◌, Bool, true, false, none,
  Option, some, [], ◌∷◌, ◌++◌, Text, IsFree, Bool-cases, arith, has_suffix, trim_suffix,
  append_of_has_suffix, trim_suffix-append, append_assoc, free_tails, length, take, drop, index,
  contains-byte, has_byte, has_byte-append, text_beq_iff,
}
use kube_forwarding_proxy.Proxy.Cluster.{dot, is_cluster_host, is_context_suffix}

-- A text whose last label is not empty has no dot at its end.
has_no_dot : (x y : Text) → IsFree dot y → y ≢ [] → has_suffix (x ++ dot ∷ y) (dot ∷ []) ≡ false
unfolding has_byte
has_no_dot x y free given = elim (Bool-cases (has_suffix (x ++ dot ∷ y) (dot ∷ []))) [
  | inr missing ↦ missing
  | inl found ↦ absurd (
      given
        (free_tails dot x y _ [] (append_of_has_suffix (x ++ dot ∷ y) (dot ∷ []) found) free refl))
]

pub trim_dot_free :
    (x y : Text) → IsFree dot y → y ≢ [] → trim_suffix (x ++ dot ∷ y) (dot ∷ []) ≡ x ++ dot ∷ y
unfolding trim_suffix
trim_dot_free x y free given = rw (has_no_dot x y free given) refl

-- Behind a text that ends in a dot: what is left of it, if anything, holds a dot.
drop-dotted :
    (n : ℕ) (x : Text)
    → (drop n (x ++ dot ∷ []) ≡ []) ⊎ (has_byte dot (drop n (x ++ dot ∷ [])) ≡ true)
unfolding has_byte
drop-dotted zero x = inr (has_byte-append dot x [])
drop-dotted (suc zero) [] = inl refl
drop-dotted (suc (suc n)) [] = inl refl
drop-dotted (suc n) (c ∷ x) = drop-dotted n x

-- The rest behind the domain in such a text is no context.
no_context_suffix : (n : ℕ) (x : Text) → is_context_suffix (drop n (x ++ dot ∷ [])) ≡ false
unfolding is_context_suffix
no_context_suffix n x =
    let rest = drop n (x ++ dot ∷ []) in
    elim (drop-dotted n x) [
      | inl e ↦ ground (arith, text_beq_iff rest [])
      | inr e ↦ ground (arith, contains-byte dot rest)
    ]

module _ (domain d l : Text) (e : domain ≡ d ++ dot ∷ l) (free : IsFree dot l)
    (given : l ≢ []) where
  not_at_domain : (y : Text) → has_suffix (y ++ dot ∷ []) (dot ∷ domain) ≡ false
  unfolding has_byte
  not_at_domain y = elim (Bool-cases (has_suffix (y ++ dot ∷ []) (dot ∷ domain))) [
    | inr missing ↦ missing
    | inl found ↦
        let cut = append_of_has_suffix (y ++ dot ∷ []) (dot ∷ domain) found in
        let n = length (y ++ dot ∷ []) - length (dot ∷ domain) in
        let t = take n (y ++ dot ∷ []) in
        absurd (
          given (
            sym (
              free_tails dot y [] (t ++ dot ∷ d) l
                (cut ∙ (ap (λ u. t ++ dot ∷ u) e ∙ sym (append_assoc t (dot ∷ d) (dot ∷ l)))) refl
                free)))
  ]

  not_before_dot :
      (x ctx : Text)
      → IsFree dot ctx
      → ctx ≢ l
      → has_suffix ((x ++ dot ∷ ctx) ++ dot ∷ []) ((dot ∷ domain) ++ dot ∷ []) ≡ false
  not_before_dot x ctx plain differ =
      let y = x ++ dot ∷ ctx in
      let u = (dot ∷ domain) ++ dot ∷ [] in
      elim (Bool-cases (has_suffix (y ++ dot ∷ []) u)) [
        | inr missing ↦ missing
        | inl found ↦
            let t = take (length (y ++ dot ∷ []) - length u) (y ++ dot ∷ []) in
            let cut : y ++ dot ∷ [] ≡ (t ++ dot ∷ domain) ++ dot ∷ [] =
              append_of_has_suffix (y ++ dot ∷ []) u found
              ∙ sym (append_assoc t (dot ∷ domain) (dot ∷ [])) in
            let same : y ≡ t ++ dot ∷ domain =
              sym (trim_suffix-append y (dot ∷ []))
              ∙ (ap (λ z. trim_suffix z (dot ∷ [])) cut
                  ∙ trim_suffix-append (t ++ dot ∷ domain) (dot ∷ [])) in
            absurd (
              differ (
                free_tails dot x ctx (t ++ dot ∷ d) l
                  (same ∙ (ap (λ z. t ++ dot ∷ z) e ∙ sym (append_assoc t (dot ∷ d) (dot ∷ l))))
                  plain free))
      ]

  pub is_cluster_host_dotted :
      (x ctx : Text)
      → IsFree dot ctx
      → ctx ≢ l
      → is_cluster_host ((x ++ dot ∷ ctx) ++ dot ∷ []) domain ≡ false
  unfolding is_cluster_host
  is_cluster_host_dotted x ctx plain differ =
      let y = x ++ dot ∷ ctx in
      rw (not_at_domain y, not_before_dot x ctx plain differ)
        (go (index (y ++ dot ∷ []) ((dot ∷ domain) ++ dot ∷ [])))
    where
      go :
          (o : Option ℕ)
          → elim o as (λ p. Bool) [
            | none ↦ false
            | some idx ↦
                is_context_suffix
                  (drop (idx + length (dot ∷ domain) + 1) ((x ++ dot ∷ ctx) ++ dot ∷ []))
          ]
            ≡ false
      go none = refl
      go (some idx) = no_context_suffix (idx + length (dot ∷ domain) + 1) (x ++ dot ∷ ctx)
