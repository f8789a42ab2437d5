-- ===== src/Auth/Token/Tests.antt =====
-- A token for the address "0xAb", that lasts ten seconds.
use signature_escrow.Common.{ℕ, ◌≡◌, refl, ◌*◌}
use signature_escrow.Text.{Text, bytes}
use signature_escrow.Act.{ok}
use signature_escrow.Auth.Sample.{sample_ethereum, sample_jwt, spell}
use signature_escrow.Auth.Token.{second, claims_of, generate_token}

abbrev address : Text
address = bytes "0xAb"

abbrev secret : Text
secret = bytes "secret"

abbrev ttl : ℕ
ttl = 10 * second

abbrev token : Text
token = spell (claims_of address ttl 5) secret

test_token : generate_token sample_jwt sample_ethereum address secret ttl 5 ≡ ok token
unfolding generate_token
test_token = refl
