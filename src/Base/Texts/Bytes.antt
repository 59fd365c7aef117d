-- ===== src/Base/Texts/Bytes.antt =====
-- Texts cut at a byte: `strings.Split` and `strings.Join` with a one-byte separator.
use Prim.Native.Nat.{ℕ, ◌≤◌}
use mathlib.Core.Path.{◌≡◌, refl, ap}
use mathlib.Core.Logic.{inl, inr}
use mathlib.Core.Bool.{Bool, true, false, ◌||◌}
use mathlib.Core.List.{List, [], ◌∷◌, ◌++◌}
use native.Mathlib.Omega.{arith}
use kube_forwarding_proxy.Base.Tests.{Bool-cases, nat_beq, if◌then◌else◌, Text}
use kube_forwarding_proxy.Base.Lists.{length, length-append, All}

unfoldable pub has_byte : ℕ → Text → Bool
has_byte c [] = false
has_byte c (d ∷ s) = nat_beq d c || has_byte c s

-- The text lies between two separators.
abbrev pub IsFree : ℕ → Text → Type 0
IsFree c s = has_byte c s ≡ false

-- A byte put in front of the first part.
unfoldable pub push_byte : ℕ → List Text → List Text
push_byte c [] = (c ∷ []) ∷ []
push_byte c (s ∷ ss) = (c ∷ s) ∷ ss

unfoldable pub split : ℕ → Text → List Text
unfolding push_byte
split c [] = [] ∷ []
split c (d ∷ s) = let rest = split c s in if nat_beq d c then [] ∷ rest else push_byte d rest

unfoldable pub join : ℕ → List Text → Text
join c [] = []
join c (s ∷ []) = s
join c (s ∷ t ∷ ts) = s ++ c ∷ join c (t ∷ ts)

join-push_byte : (c d : ℕ) (ss : List Text) → join c (push_byte d ss) ≡ d ∷ join c ss
unfolding join push_byte
join-push_byte c d [] = refl
join-push_byte c d (s ∷ []) = refl
join-push_byte c d (s ∷ t ∷ ts) = refl

split-cons : (c : ℕ) (s : Text) → (t : Text) × (ts : List Text) × (split c s ≡ t ∷ ts)
unfolding split
split-cons c [] = ([], [], refl)
split-cons c (d ∷ s) =
    let (t, ts, e) = split-cons c s in
    elim (Bool-cases (nat_beq d c)) [
      | inl hit ↦ ([], split c s, rw hit)
      | inr miss ↦ (d ∷ t, ts, rw (miss, e))
    ]

pub join-split : (c : ℕ) (s : Text) → join c (split c s) ≡ s
unfolding split join
join-split c [] = refl
join-split c (d ∷ s) =
    let (t, ts, e) = split-cons c s in
    ground (arith, e, join-split c s, join-push_byte c d (split c s))

pub split-All : (c : ℕ) (s : Text) → All (IsFree c) (split c s)
unfolding split has_byte
split-All c [] = (refl, tt)
split-All c (d ∷ s) = let (t, ts, e) = split-cons c s in ground (arith, e, split-All c s)

pub split_free : (c : ℕ) (s : Text) → IsFree c s → split c s ≡ s ∷ []
unfolding split has_byte
split_free c [] h = refl
split_free c (d ∷ s) h = ground (arith, split_free c s)

pub split-append : (c : ℕ) (s t : Text) → IsFree c s → split c (s ++ c ∷ t) ≡ s ∷ split c t
unfolding split has_byte
split-append c [] t h = ground arith
split-append c (d ∷ s) t h = ground (arith, split-append c s t)

pub has_byte-append : (c : ℕ) (x b : Text) → has_byte c (x ++ c ∷ b) ≡ true
unfolding has_byte
has_byte-append c [] b = ground arith
has_byte-append c (d ∷ x) b = ground (arith, has_byte-append c x b)

-- Two ways to cut a text at a separator: the shorter tail is free of it.
pub tail_of_free :
    (c : ℕ) (x b y t : Text) → x ++ c ∷ b ≡ y ++ c ∷ t → IsFree c t → length t ≤ length b
unfolding has_byte
tail_of_free c [] b [] t e h = ground arith
tail_of_free c [] b (j ∷ y) t e h = ground (arith, ap (◌∷◌ c) e, length-append y (c ∷ t))
tail_of_free c (i ∷ x) b [] t e h = absurd (ground (arith, has_byte-append c x b))
tail_of_free c (i ∷ x) b (j ∷ y) t e h = tail_of_free c x b y t (ground arith) h

-- Where both tails are free of the separator they are one.
pub free_tails :
    (c : ℕ) (x b y t : Text) → x ++ c ∷ b ≡ y ++ c ∷ t → IsFree c b → IsFree c t → b ≡ t
unfolding has_byte
free_tails c [] b [] t e g h = ground arith
free_tails c [] b (j ∷ y) t e g h = absurd (ground (arith, has_byte-append c y t))
free_tails c (i ∷ x) b [] t e g h = absurd (ground (arith, has_byte-append c x b))
free_tails c (i ∷ x) b (j ∷ y) t e g h = free_tails c x b y t (ground arith) g h
