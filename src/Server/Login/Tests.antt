-- ===== src/Server/Login/Tests.antt =====
-- The address "0xab" logs in with the nonce "0708", at time 200.
use signature_escrow.Common.{ℕ, ◌≡◌, refl, none, true, [], ◌∷◌, ◌++◌, List, arith}
use signature_escrow.Text.{Text, bytes, equal_fold, to_lower, lower_byte, ◌==◌}
use signature_escrow.Text.Hex.{hex_encode}
use signature_escrow.Act.{ok}
use signature_escrow.Http.{content, status_code}
use signature_escrow.Auth
use signature_escrow.Auth.{normalize_v, verify_signature, generate_nonce}
use signature_escrow.Auth.Token.{generate_token}
use signature_escrow.Auth.Nonce
use signature_escrow.Auth.Nonce.{NonceStore, generate, verify}
use signature_escrow.Auth.Nonce.OneTime.{Event, generates, cleans, run, NoGenerate}
use signature_escrow.Auth.Sample.{sample_ethereum, sample_jwt, spell}
use signature_escrow.Server.Login.{
  LoginRequest, LoginResponse, auth_login, token_ttl, auth_login_sound, auth_login_no_replay,
  IsFull,
}

abbrev address : Text
address = bytes "0xab"

abbrev secret : Text
secret = bytes "secret"

abbrev zeros : List ℕ
zeros = 0 ∷ 0 ∷ 0 ∷ 0 ∷ 0 ∷ 0 ∷ 0 ∷ 0 ∷ 0 ∷ 0 ∷ 0 ∷ 0 ∷ 0 ∷ 0 ∷ 0 ∷ 0 ∷ 0 ∷ 0 ∷ 0 ∷ 0 ∷ []

abbrev given : NonceStore
given = (generate address 100 (ok (7 ∷ 8 ∷ [])) (λ key. none)).1

abbrev request : LoginRequest
request = record {
  address = address;
  signature = address ++ (zeros ++ (zeros ++ (zeros ++ 28 ∷ [])));
  nonce = bytes "0708";
}

abbrev response : LoginResponse
response = record {
  token = spell (record { address = address; expires_at = 86400; issued_at = 0 }) secret;
  address = address;
}

test_login :
    (auth_login sample_ethereum sample_jwt secret (ok request) 200 given).0 ≡ ok (content response)
unfolding auth_login generate verify Nonce.set generate_token verify_signature normalize_v
    Auth.check_recovered Auth.recover Auth.check_sig bytes equal_fold to_lower lower_byte ◌==◌
    hex_encode spell
test_login = refl

auth_login_sound_example :
    (a : Text) × ((verify address (bytes "0708") 200 given).0 ≡ true)
    × (verify_signature sample_ethereum address
          (generate_nonce address (bytes "0708"))
          request.signature
        ≡ ok a)
    × (generate_token sample_jwt sample_ethereum a secret token_ttl 200 ≡ ok response.token)
    × (address ≡ a)
auth_login_sound_example =
    auth_login_sound sample_ethereum sample_jwt secret request 200 given response test_login

full : IsFull sample_ethereum sample_jwt secret request
unfolding bytes
full = refl

abbrev others : List Event
others = cleans 250 ∷ generates (bytes "0xcd") 260 (ok (1 ∷ [])) ∷ []

no_generate : NoGenerate (to_lower address) others
unfolding bytes to_lower lower_byte
no_generate = (λ e. ground (arith, e), tt)

auth_login_no_replay_example :
    status_code
      (auth_login sample_ethereum sample_jwt secret
        (ok request)
        300
        (run others (auth_login sample_ethereum sample_jwt secret (ok request) 200 given).1)).0
    ≡ 401
auth_login_no_replay_example =
    auth_login_no_replay sample_ethereum sample_jwt secret request 200 300 others given full
      no_generate
