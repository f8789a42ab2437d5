-- ===== src/Auth/Tests.antt =====
-- The address "0xab" signs "hi", with a signature whose recovery byte is 27.
use signature_escrow.Common.{ℕ, ◌≡◌, refl, [], ◌∷◌, ◌++◌, List}
use signature_escrow.Text.{Text, bytes, equal_fold, to_lower, lower_byte, ◌==◌}
use signature_escrow.Act.{ok}
use signature_escrow.Auth.{normalize_v, verify_signature, verify_signature_sound}
use signature_escrow.Auth.Sample.{sample_ethereum}
use signature_escrow.Auth

abbrev zeros : List ℕ
zeros = 0 ∷ 0 ∷ 0 ∷ 0 ∷ 0 ∷ 0 ∷ 0 ∷ 0 ∷ 0 ∷ 0 ∷ 0 ∷ 0 ∷ 0 ∷ 0 ∷ 0 ∷ 0 ∷ 0 ∷ 0 ∷ 0 ∷ 0 ∷ []

abbrev signature : Text
signature = bytes "0xab" ++ (zeros ++ (zeros ++ (zeros ++ 27 ∷ [])))

test_verify :
    verify_signature sample_ethereum (bytes "0xab") (bytes "hi") signature ≡ ok (bytes "0xab")
unfolding verify_signature normalize_v Auth.check_recovered Auth.recover Auth.check_sig bytes
    equal_fold to_lower lower_byte ◌==◌
test_verify = refl
