-- ===== src/Text.antt =====
-- Go strings as lists of bytes, and what the program uses of package `strings`. The model reads
-- text as ASCII: `ToLower` and `EqualFold` leave bytes from 128 up alone.
pub mod Order
pub mod Bytes
pub mod Decimal
pub mod Hex
pub mod Split
pub mod Space
use Prim.Native.Char.{code}
use Prim.Native.String.{String}
use mathlib.Core.Option.{get_or}
use mathlib.Core.List.{map-append}
use signature_escrow.Common.{
  Option, none, some, ℕ, ◌+◌, ◌≡◌, refl, ap, ◌↔◌, Bool, true, false, ◌&&◌, List, [], ◌∷◌, ◌++◌, map,
  ◌≢◌, ◌⊎◌, inl, inr, Bool-cases, arith, leb, ltb, nat_eq, nat_eq_iff, if◌then◌else◌,
}

abbrev pub Text : Type 0
Text = List ℕ

-- A literal of the source.
unfoldable pub bytes : String → Text
bytes String.[] = []
bytes (String.◌∷◌ c s) = code c ∷ bytes s

infix 50 ◌==◌
unfoldable pub ◌==◌ : Text → Text → Bool
[] == [] = true
(a ∷ s) == (b ∷ t) = nat_eq a b && s == t
_ == _ = false

-- `s == ""`
abbrev pub is_empty : Text → Bool
is_empty [] = true
is_empty (_ ∷ _) = false

-- `a < b` on strings: the first byte that differs decides, and a prefix comes first.
unfoldable pub less : Text → Text → Bool
less [] [] = false
less [] (_ ∷ _) = true
less (_ ∷ _) [] = false
less (a ∷ s) (b ∷ t) = if nat_eq a b then less s t else ltb a b

unfoldable pub lower_byte : ℕ → ℕ
lower_byte c = if leb b'A' c && leb c b'Z' then c + 32 else c

-- strings.ToLower
unfoldable pub to_lower : Text → Text
unfolding lower_byte
to_lower = map lower_byte

-- strings.EqualFold
unfoldable pub equal_fold : Text → Text → Bool
unfolding to_lower ◌==◌
equal_fold s t = to_lower s == to_lower t

-- The rest of the text behind a prefix.
unfoldable pub strip : Text → Text → Option Text
strip [] s = some s
strip (p ∷ ps) [] = none
strip (p ∷ ps) (c ∷ s) = if nat_eq p c then strip ps s else none

-- strings.TrimPrefix
unfoldable pub trim_prefix : Text → Text → Text
unfolding strip
trim_prefix s p = get_or (strip p s) s

pub ==_iff : (s t : Text) → ((s == t) ≡ true) ↔ (s ≡ t)
unfolding ◌==◌
==_iff [] [] = (λ _. refl, λ _. refl)
==_iff [] (b ∷ t) = ground arith
==_iff (a ∷ s) [] = ground arith
==_iff (a ∷ s) (b ∷ t) = ground (arith, ==_iff s t)

pub ==_refl : (s : Text) → (s == s) ≡ true
==_refl s = (==_iff s s).1 refl

pub lower_byte_idem : (c : ℕ) → lower_byte (lower_byte c) ≡ lower_byte c
unfolding lower_byte
lower_byte_idem c = ground arith

pub to_lower_idem : (s : Text) → to_lower (to_lower s) ≡ to_lower s
unfolding to_lower
to_lower_idem [] = refl
to_lower_idem (c ∷ s) = cc (lower_byte_idem c, to_lower_idem s)

pub to_lower-append : (s t : Text) → to_lower (s ++ t) ≡ to_lower s ++ to_lower t
unfolding to_lower
to_lower-append s t = map-append _ s t

pub equal_fold_iff : (s t : Text) → (equal_fold s t ≡ true) ↔ (to_lower s ≡ to_lower t)
unfolding equal_fold
equal_fold_iff s t = ==_iff (to_lower s) (to_lower t)

-- Folding ignores that one side was lower-cased before.
pub equal_fold-to_lower : (s t : Text) → equal_fold s (to_lower t) ≡ equal_fold s t
unfolding equal_fold
equal_fold-to_lower s t = ap (λ x. to_lower s == x) (to_lower_idem t)

pub Text-cases : (s t : Text) → (s ≡ t) ⊎ (s ≢ t)
Text-cases s t = elim (Bool-cases (s == t)) [
  | inl e ↦ inl ((==_iff s t).0 e)
  | inr e ↦ inr (λ h. ground (arith, e, (==_iff s t).1 h))
]
