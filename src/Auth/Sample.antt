-- ===== src/Auth/Sample.antt =====
-- Small stand-ins for go-ethereum and golang-jwt that compute, for the concrete runs of auth and of
-- server's login. An address is its text, a signature names the address that made it, and a token
-- spells out its claims and its secret.
use signature_escrow.Common.{
  ℕ, ◌*◌, ◌<◌, ◌≤◌, ◌≡◌, ◌≢◌, sym, inl, inr, length, true, Bool, ◌∷◌, ◌++◌, ltb, arith,
  if◌then◌else◌,
}
use signature_escrow.Text.{Text, bytes, ◌==◌, ==_refl}
use signature_escrow.Act.{Result, ok, err, Result-cases}
use signature_escrow.Storage.{Error}
use signature_escrow.Validation.{take, drop, take_append, drop_append}
use signature_escrow.Auth.{Ethereum}
use signature_escrow.Auth.Token.{Claims, Jwt, second}

-- The first four bytes of a signature are the address; the text of the message does not matter.
abbrev pub sample_ethereum : Ethereum
sample_ethereum = record {
  Address = Text;
  Hash = Text;
  PublicKey = Text;
  is_hex_address = λ t. true;
  hex_to_address = λ t. t;
  address_hex = λ a. a;
  hexutil_decode = λ t. ok t;
  text_hash = λ t. t;
  sig_to_pub = λ h sig. ok (take 4 sig);
  pubkey_to_address = λ k. k;
}

-- A token is the two times, the length of the address, the address and the secret.
unfoldable pub spell : Claims → Text → Text
spell c secret = c.expires_at ∷ c.issued_at ∷ length c.address ∷ (c.address ++ secret)

abbrev claims_in : ℕ → ℕ → ℕ → Text → Claims
claims_in expires issued n rest = record {
  address = take n rest;
  expires_at = expires;
  issued_at = issued;
}

abbrev opened : ℕ → Claims → Text → Result Error Text → Result Error (Claims × Bool)
opened now c found (err e) = err e
opened now c found (ok secret) =
    if found == secret
    then (if ltb now (c.expires_at * second) then ok (c, true) else err (bytes "token is expired"))
    else err (bytes "signature is invalid")

unfoldable pub read_token : Text → (Bool → Result Error Text) → ℕ → Result Error (Claims × Bool)
read_token (expires ∷ issued ∷ n ∷ rest) keys now =
    opened now (claims_in expires issued n rest) (drop n rest) (keys true)
read_token _ keys now = err (bytes "token is malformed")

pub read-spell :
    (c : Claims) (secret token : Text) (keys : Bool → Result Error Text) (now : ℕ)
    → ◌≡◌ {A = Result Error Text} (ok (spell c secret)) (ok token)
    → keys true ≡ ok secret
    → now < c.expires_at * second
    → read_token token keys now ≡ ok (c, true)
unfolding spell read_token
read-spell c secret token keys now e k live =
    let same : spell c secret ≡ token = cc e in
    rw (sym same, k, take_append c.address secret, drop_append c.address secret, ==_refl secret)
      (ground arith)

pub read_expired :
    (c : Claims) (secret token : Text) (keys : Bool → Result Error Text) (now : ℕ)
    (r : Claims × Bool)
    → ◌≡◌ {A = Result Error Text} (ok (spell c secret)) (ok token)
    → c.expires_at * second ≤ now
    → read_token token keys now ≢ ok r
unfolding spell read_token
read_expired c secret token keys now r e late = elim (Result-cases (keys true)) [
  | inr (x, k) ↦ λ h. ground (arith, h)
  | inl (key, k) ↦ λ h. ground (arith, h)
]

abbrev pub sample_jwt : Jwt
sample_jwt = record {
  sign = λ c secret. ok (spell c secret);
  parse = read_token;
  parse-sign = read-spell;
  parse_expired = read_expired;
}
