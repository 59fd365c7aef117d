-- ===== src/Base/Texts.antt =====
-- The functions of Go's `strings` package that the program calls, over lists of bytes.
mod Bytes
unfoldable pub use Bytes.*
use Prim.Native.Nat.{ℕ, zero, suc, ◌+◌, ◌-◌, ◌≤◌, ◌<◌}
use mathlib.Core.Path.{◌≡◌, refl, sym, ap, ◌∙◌, subst}
use mathlib.Core.Logic.{◌⊎◌, inl, inr}
use mathlib.Core.Bool.{Bool, true, false, ◌&&◌, ◌||◌}
use mathlib.Core.List.{List, [], ◌∷◌, ◌++◌, append_assoc}
use mathlib.Core.Option.{Option, none, some}
use native.Mathlib.Nat.{zero-add, suc-add}
use native.Mathlib.Omega.{arith}
use kube_forwarding_proxy.Base.Tests.{
  leb, nat_beq, if◌then◌else◌, Text, text_beq, text_beq_iff, Bool-cases, Option-cases,
}
use kube_forwarding_proxy.Base.Lists.{
  length, take, drop, length-append, take-length_append, drop-length_append, take-append-drop,
  length-drop,
}
use kube_forwarding_proxy.Base.Maps.{is_some}

unfoldable pub has_prefix : Text → Text → Bool
has_prefix s [] = true
has_prefix [] (d ∷ p) = false
has_prefix (c ∷ s) (d ∷ p) = nat_beq c d && has_prefix s p

unfoldable pub has_suffix : Text → Text → Bool
has_suffix s t = leb (length t) (length s) && text_beq (drop (length s - length t) s) t

unfoldable pub cut_suffix : Text → Text → Option Text
unfolding has_suffix
cut_suffix s t = if has_suffix s t then some (take (length s - length t) s) else none

unfoldable pub trim_suffix : Text → Text → Text
unfolding has_suffix
trim_suffix s t = if has_suffix s t then take (length s - length t) s else s

unfoldable pub index : Text → Text → Option ℕ
unfolding has_prefix
index [] t = if has_prefix [] t then some 0 else none
index (c ∷ s) t =
    let later = index s t in
    if has_prefix (c ∷ s) t then some 0 else elim later [ none ↦ none | some i ↦ some (suc i) ]

unfoldable pub last_index : Text → Text → Option ℕ
unfolding has_prefix
last_index [] t = if has_prefix [] t then some 0 else none
last_index (c ∷ s) t = elim (last_index s t) [
  | some i ↦ some (suc i)
  | none ↦ if has_prefix (c ∷ s) t then some 0 else none
]

unfoldable pub contains : Text → Text → Bool
unfolding index
contains s t = is_some (index s t)

drop-nil {ℓ} : {A : Type ℓ} (n : ℕ) → [] ≡ drop n (let l : List A = [] in l)
drop-nil zero = refl
drop-nil (suc n) = refl

pub has_prefix-append : (s t : Text) → has_prefix (t ++ s) t ≡ true
unfolding has_prefix
has_prefix-append s [] = refl
has_prefix-append s (c ∷ t) = ground (arith, has_prefix-append s t)

pub append_of_has_prefix : (s t : Text) → has_prefix s t ≡ true → s ≡ t ++ drop (length t) s
unfolding has_prefix
append_of_has_prefix s [] h = refl
append_of_has_prefix [] (d ∷ t) h = cc
append_of_has_prefix (c ∷ s) (d ∷ t) h = ground (arith, append_of_has_prefix s t)

pub has_suffix-append : (s t : Text) → has_suffix (s ++ t) t ≡ true
unfolding has_suffix
has_suffix-append s t = ground (arith, length-append s t, drop-length_append s t, text_beq_iff t t)

pub append_of_has_suffix :
    (s t : Text) → has_suffix s t ≡ true → s ≡ take (length s - length t) s ++ t
unfolding has_suffix
append_of_has_suffix s t h =
    let n = length s - length t in ground (arith, text_beq_iff (drop n s) t, take-append-drop n s)

add-sub : (s t : Text) → length s + length t - length t ≡ length s
add-sub s t = omega arith

pub cut_suffix-append : (s t : Text) → cut_suffix (s ++ t) t ≡ some s
unfolding cut_suffix
cut_suffix-append s t =
    rw (has_suffix-append s t, length-append s t)
      (rw (add-sub s t) (ap some (take-length_append s t)))

pub append_of_cut_suffix : (s t : Text) {r : Text} → cut_suffix s t ≡ some r → s ≡ r ++ t
unfolding cut_suffix
append_of_cut_suffix s t h = ground (arith, append_of_has_suffix s t)

pub cut_suffix-none : (s t : Text) → cut_suffix s t ≡ none → has_suffix s t ≡ false
unfolding cut_suffix
cut_suffix-none s t h = ground arith

pub trim_suffix-append : (s t : Text) → trim_suffix (s ++ t) t ≡ s
unfolding trim_suffix
trim_suffix-append s t =
    rw (has_suffix-append s t, length-append s t) (rw (add-sub s t) (take-length_append s t))

pub append_of_last_index :
    (s t : Text) (i : ℕ)
    → last_index s t ≡ some i
    → s ≡ take i s ++ (t ++ drop (length t) (drop i s))
unfolding last_index
append_of_last_index [] [] zero h = refl
append_of_last_index [] [] (suc i) h = ground arith
append_of_last_index [] (d ∷ t) i h = ground arith
append_of_last_index (c ∷ s) t zero h = elim (Option-cases (last_index s t)) [
  | inl e ↦ append_of_has_prefix (c ∷ s) t (ground arith)
  | inr (j, e) ↦ absurd (ground arith)
]
append_of_last_index (c ∷ s) t (suc i) h = ap (◌∷◌ c) (append_of_last_index s t i (ground arith))

-- Behind a text that is free of `c` no text that ends in `c` begins.
no_later_index :
    (c : ℕ) (d y : Text) (z : ℕ) (r : Text)
    → z ∷ r ≡ d ++ c ∷ y
    → IsFree c y
    → last_index r (d ++ c ∷ []) ≡ none
no_later_index c d y z r e free = elim (Option-cases (last_index r (d ++ c ∷ []))) [
  | inl none_found ↦ none_found
  | inr (j, found) ↦ absurd (
      let t = take j r in
      let w = drop (length (d ++ c ∷ [])) (drop j r) in
      let cut : r ≡ (t ++ d) ++ c ∷ w =
        append_of_last_index r (d ++ c ∷ []) j found
        ∙ (ap (◌++◌ t) (append_assoc d (c ∷ []) w) ∙ sym (append_assoc t d (c ∷ w))) in
      let longer : length y ≤ length w =
        tail_of_free c (z ∷ (t ++ d)) w d y (ap (◌∷◌ z) (sym cut) ∙ e) free in
      omega (
        arith,
        longer,
        ap length e,
        ap length cut,
        length-append d (c ∷ y),
        length-append (t ++ d) (c ∷ w),
        length-append t d,
      ))
]

index_at_start :
    (z : ℕ) (r t : Text)
    → last_index r t ≡ none
    → has_prefix (z ∷ r) t ≡ true
    → last_index (z ∷ r) t ≡ some 0
unfolding last_index
index_at_start z r t later here = rw (later, here)

has_prefix-separator : (c : ℕ) (d y : Text) → has_prefix (d ++ c ∷ y) (d ++ c ∷ []) ≡ true
has_prefix-separator c d y = rw (append_assoc d (c ∷ []) y) at (has_prefix-append y (d ++ c ∷ []))

-- A text that ends in `c` is found at its last place, if nothing behind it holds a `c`.
pub last_index-append :
    (c : ℕ) (p d y : Text)
    → IsFree c y
    → last_index (p ++ (d ++ c ∷ y)) (d ++ c ∷ []) ≡ some (length p)
unfolding last_index
last_index-append c [] [] y free =
    index_at_start c y (c ∷ []) (no_later_index c [] y c y refl free) (has_prefix-separator c [] y)
last_index-append c [] (b ∷ d) y free =
    index_at_start b (d ++ c ∷ y) (b ∷ (d ++ c ∷ []))
      (no_later_index c (b ∷ d) y b (d ++ c ∷ y) refl free) (has_prefix-separator c (b ∷ d) y)
last_index-append c (b ∷ p) d y free = rw (last_index-append c p d y free)

pub drop-add {ℓ} : {A : Type ℓ} (m n : ℕ) (s : List A) → drop (m + n) s ≡ drop n (drop m s)
drop-add zero n s = rw zero-add
drop-add (suc m) n [] = rw suc-add (drop-nil n)
drop-add (suc m) n (x ∷ s) = rw suc-add (drop-add m n s)

-- Looking for one byte.
pub contains-byte : (c : ℕ) (s : Text) → contains s (c ∷ []) ≡ has_byte c s
unfolding contains has_byte
contains-byte c [] = refl
contains-byte c (x ∷ s) = ground (arith, contains-byte c s)

-- Behind an occurrence of `t` and one more byte.
pub drop_past :
    (i : ℕ) (c : ℕ) (t s : Text)
    → drop (i + length t + 1) s ≡ drop (length (t ++ c ∷ [])) (drop i s)
drop_past i c t s =
    ap (λ n. drop n s) (omega (arith, length-append t (c ∷ [])))
    ∙ drop-add i (length (t ++ c ∷ [])) s

pub drop_past_append :
    (c : ℕ) (p t y : Text) → drop (length p + length t + 1) (p ++ (t ++ c ∷ y)) ≡ y
drop_past_append c p t y =
    drop_past (length p) c t (p ++ (t ++ c ∷ y))
    ∙ rw (drop-length_append p (t ++ c ∷ y), ← append_assoc t (c ∷ []) y)
        (drop-length_append (t ++ c ∷ []) y)
