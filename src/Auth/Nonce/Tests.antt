-- ===== src/Auth/Nonce/Tests.antt =====
-- The address "0xAb", which is given the nonce of the bytes 7, 8 at time 100.
use signature_escrow.Common.{◌≡◌, ◌↔◌, ◌≤◌, ◌+◌, refl, none, true, false, [], ◌∷◌, arith, List, ℕ}
use signature_escrow.Text.{Text, bytes, to_lower}
use signature_escrow.Text.Hex.{hex_encode}
use signature_escrow.Act.{ok}
use signature_escrow.Auth.Nonce.{NonceStore, nonce_ttl, generate, verify}
use signature_escrow.Auth.Nonce.OneTime.{
  Event, generates, cleans, run, NoGenerate, Apart, verify_once, generate-verify,
}

abbrev no_nonces : NonceStore
no_nonces key = none

abbrev address : Text
address = bytes "0xAb"

abbrev drawn : List ℕ
drawn = 7 ∷ 8 ∷ []

abbrev given : NonceStore
given = (generate address 100 (ok drawn) no_nonces).1

abbrev others : List Event
others = cleans 150 ∷ generates (bytes "0xcd") 160 (ok drawn) ∷ []

others-Apart : Apart (to_lower address) (100 + nonce_ttl) others
unfolding bytes to_lower
others-Apart = (omega arith, (λ e. ground (arith, e), tt))

no_generate : NoGenerate (to_lower address) others
unfolding bytes to_lower
no_generate = (λ e. ground (arith, e), tt)

verify_once_example :
    (verify address (bytes "0708") 300 (run others (verify address (bytes "0708") 200 given).1)).0
    ≡ false
verify_once_example =
    verify_once address (bytes "0708") (bytes "0708") 200 300 others given no_generate

same_address : to_lower (bytes "0xaB") ≡ to_lower address
unfolding bytes to_lower
same_address = refl

generate-verify_example :
    ((verify (bytes "0xaB") (bytes "0708") 300 (run others given)).0 ≡ true)
    ↔ ((300 ≤ 100 + nonce_ttl) × (hex_encode drawn ≡ bytes "0708"))
generate-verify_example =
    generate-verify address (bytes "0xaB") (bytes "0708") 100 300 drawn others no_nonces
      others-Apart same_address
