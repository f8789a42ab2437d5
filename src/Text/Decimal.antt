-- ===== src/Text/Decimal.antt =====
-- `%d` of fmt.Sprintf for a number that is not negative.
use signature_escrow.Common.{
  ℕ, zero, suc, ◌+◌, ◌/◌, ◌%◌, ◌<◌, ◌≡◌, refl, true, [], ◌∷◌, arith, ltb, if◌then◌else◌,
}
use signature_escrow.Text.{Text, bytes}
use signature_escrow.Text.Bytes.{lacks}

-- The digits of `n`, least significant last; the fuel bounds their number.
digits_from : ℕ → ℕ → Text → Text
digits_from zero n acc = acc
digits_from (suc fuel) n acc =
    let longer = digits_from fuel (n / 10) ((b'0' + n % 10) ∷ acc) in
    if ltb n 10 then (b'0' + n) ∷ acc else longer

unfoldable pub print_decimal : ℕ → Text
unfolding digits_from
print_decimal n = digits_from (suc n) n []

print_decimal_test : print_decimal 1090 ≡ bytes "1090"
unfolding print_decimal bytes
print_decimal_test = refl

lacks-digits_from :
    (b fuel n : ℕ) (acc : Text)
    → b < b'0'
    → lacks b acc ≡ true
    → lacks b (digits_from fuel n acc) ≡ true
unfolding digits_from
lacks-digits_from b zero n acc h k = k
lacks-digits_from b (suc fuel) n acc h k =
    ground (arith, lacks-digits_from b fuel (n / 10) ((b'0' + n % 10) ∷ acc) h)

-- A number prints as digits.
pub lacks-print_decimal : (b n : ℕ) → b < b'0' → lacks b (print_decimal n) ≡ true
unfolding print_decimal
lacks-print_decimal b n h = lacks-digits_from b (suc n) n [] h refl
