-- ===== src/Client/Int64.antt =====
-- Go's int64, and `Int64` of a big.Int that is not negative: its low 64 bits in two's complement.
use signature_escrow.Common.{
  ℕ, ◌-◌, ◌%◌, ◌<◌, ◌≤◌, ◌≡◌, Bool, true, false, ltb, leb, arith, if◌then◌else◌,
}

-- `negsuc n` is -(n + 1).
pub data ℤ : Type 0 where
  pos : ℕ → ℤ
  negsuc : ℕ → ℤ

abbrev pub two_63 : ℕ
two_63 = 9_223_372_036_854_775_808

abbrev pub two_64 : ℕ
two_64 = 18_446_744_073_709_551_616

abbrev word : ℕ → ℤ
word w = if ltb w two_63 then pos w else negsuc (two_64 - 1 - w)

unfoldable pub int64 : ℕ → ℤ
int64 n = word (n % two_64)

unfoldable pub leb_int : ℤ → ℤ → Bool
leb_int (pos a) (pos b) = leb a b
leb_int (pos a) (negsuc b) = false
leb_int (negsuc a) (pos b) = true
leb_int (negsuc a) (negsuc b) = leb b a

abbrev pub is_negative : ℤ → Bool
is_negative (pos _) = false
is_negative (negsuc _) = true

-- `x <= 0`
abbrev pub is_positive : ℤ → Bool
is_positive (pos n) = ltb 0 n
is_positive (negsuc _) = false

-- A number that fits is itself, and one up to twice as large is negative.
pub int64_small : (n : ℕ) → n < two_63 → int64 n ≡ pos n
unfolding int64
int64_small n h = ground arith

pub int64_large : (n : ℕ) → two_63 ≤ n → n < two_64 → int64 n ≡ negsuc (two_64 - 1 - n)
unfolding int64
int64_large n h k = ground arith
