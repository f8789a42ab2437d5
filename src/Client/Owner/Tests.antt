-- ===== src/Client/Owner/Tests.antt =====
-- The address "0xab" logs in to a fresh client, which is its owner's from then on.
use signature_escrow.Common.{ℕ, if◌then◌else◌, ◌≡◌, refl, false, true, none, List, [], ◌∷◌, ◌++◌}
use signature_escrow.Text.{Text, bytes, is_empty, ◌==◌, to_lower, lower_byte, equal_fold, strip}
use signature_escrow.Text.Space.{trim_space, trim_left, trim_right}
use signature_escrow.Text.Hex.{hex_encode}
use signature_escrow.Act.{ok, err, pure}
use signature_escrow.Storage.{load}
use signature_escrow.Http.{content}
use signature_escrow.Auth
use signature_escrow.Auth.{normalize_v, verify_signature}
use signature_escrow.Auth.Token.{generate_token}
use signature_escrow.Auth.Nonce
use signature_escrow.Auth.Nonce.{generate, verify}
use signature_escrow.Auth.Sample.{sample_ethereum, sample_jwt, spell}
use signature_escrow.Client.Sample.{Encoded, sample_store, empty, account_codec, raw}
use signature_escrow.Client.Accounts.{accounts_from, accounts_of}
use signature_escrow.Client.Owner.{
  RawText, LoginRequest, LoginResponse, State, norm_addr, first_identity, key_identity,
  stored_owner, owner, bind_owner, admit, auth_login, owner_guard,
}
use signature_escrow.Client.Owner.Binding.{Attempt, asks, logs_in, attempts}
use signature_escrow.Client.Owner.Guard.{guard_after_login}

abbrev text_in : Encoded → Text
text_in (raw t) = t
text_in _ = []

abbrev raw_text : RawText Encoded
raw_text = record { of_text = raw; to_text = text_in; to_text-of_text = λ t. refl }

abbrev address : Text
address = bytes "0xab"

abbrev secret : Text
secret = bytes "secret"

abbrev zeros : List ℕ
zeros = 0 ∷ 0 ∷ 0 ∷ 0 ∷ 0 ∷ 0 ∷ 0 ∷ 0 ∷ 0 ∷ 0 ∷ 0 ∷ 0 ∷ 0 ∷ 0 ∷ 0 ∷ 0 ∷ 0 ∷ 0 ∷ 0 ∷ 0 ∷ []

abbrev fresh : State sample_store raw_text
fresh = record { nonces = (generate address 100 (ok (7 ∷ 8 ∷ [])) (λ key. none)).1; store = empty }

abbrev request : Text → LoginRequest
request nonce = record {
  address = address;
  signature = address ++ (zeros ++ (zeros ++ (zeros ++ 28 ∷ [])));
  nonce = nonce;
}

abbrev response : LoginResponse
response = record {
  token = spell (record { address = address; expires_at = 86400; issued_at = 0 }) secret;
  address = address;
}

test_login :
    (auth_login sample_store raw_text sample_ethereum sample_jwt secret
      (ok (request (bytes "0708")))
      200
      fresh).0
    ≡ ok (content response)
unfolding auth_login generate verify Nonce.set generate_token verify_signature normalize_v
    Auth.check_recovered Auth.recover Auth.check_sig bytes equal_fold to_lower lower_byte ◌==◌
    hex_encode spell admit owner key_identity stored_owner bind_owner first_identity accounts_of
    accounts_from load norm_addr trim_space trim_left trim_right strip
test_login = refl

named : is_empty (norm_addr address) ≡ false
unfolding norm_addr bytes to_lower lower_byte trim_space trim_left trim_right strip
named = refl

-- Another address fails to log in, and the owner asks for a nonce again.
abbrev between : List Attempt
between = logs_in (ok (request (bytes "0000"))) 210 ∷ asks (ok address) 220 (ok (9 ∷ 9 ∷ [])) ∷ []

-- The state after the first login and the attempts that follow.
abbrev later : State sample_store raw_text
later =
    attempts sample_store raw_text sample_ethereum sample_jwt secret between
      (auth_login sample_store raw_text sample_ethereum sample_jwt secret
        (ok (request (bytes "0708"))) 200 fresh).1

guard_after_login_example :
    owner_guard sample_store raw_text (bytes "AB") (pure true) later.store ≡ (
      if norm_addr (bytes "AB") == norm_addr address then (ok true, later.store) else (
        err (record {
          status = 403;
          message = bytes "this client is bound to " ++ norm_addr address;
        }),
        later.store,
      ))
guard_after_login_example =
    guard_after_login sample_store raw_text sample_ethereum sample_jwt secret
      (request (bytes "0708")) 200 fresh response between (bytes "AB") (pure true) test_login named
