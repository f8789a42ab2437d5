-- ===== src/Auth/Token.antt =====
-- auth/auth.go, `GenerateToken` and `ValidateToken`, and auth/middleware.go: a session's token.
-- Times are in nanoseconds, and the claims count seconds, as jwt.NewNumericDate does.
mod Tests
use signature_escrow.Common.{
  ℕ, ◌+◌, ◌*◌, ◌/◌, ◌<◌, ◌≤◌, ◌≡◌, ◌≢◌, refl, ap, ◌∙◌, true, false, Bool, Bool-cases, inl, inr, [],
  ◌∷◌, ◌++◌, arith, length, length-append, if◌then◌else◌,
}
use signature_escrow.Text.{Text, bytes, is_empty, to_lower, trim_prefix, ◌==◌, ==_iff}
use signature_escrow.Text.Bytes.{trim_prefix-append}
use signature_escrow.Act.{Result, ok, err, Result-cases}
use signature_escrow.Storage.{Error}
use signature_escrow.Http.{HttpError}
use signature_escrow.Auth.{Ethereum, invalid_token}

pub record Claims : Type 0 where
  pub address : Text
  pub expires_at : ℕ
  pub issued_at : ℕ

abbrev pub second : ℕ
second = 1_000_000_000

-- github.com/golang-jwt/jwt: `sign` is SignedString under HS256. `parse` is ParseWithClaims at a
-- time: it asks for the key with whether the token's method is HMAC, and gives the claims and
-- `token.Valid`. A token that was signed with a secret is valid for that secret until it expires,
-- and does not parse from then on.
pub record Jwt : Type 0 where
  pub sign : Claims → Text → Result Error Text
  pub parse : Text → (Bool → Result Error Text) → ℕ → Result Error (Claims × Bool)
  pub parse-sign :
      (c : Claims) (secret token : Text) (keys : Bool → Result Error Text) (now : ℕ)
      → sign c secret ≡ ok token
      → keys true ≡ ok secret
      → now < c.expires_at * second
      → parse token keys now ≡ ok (c, true)
  pub parse_expired :
      (c : Claims) (secret token : Text) (keys : Bool → Result Error Text) (now : ℕ)
      (r : Claims × Bool)
      → sign c secret ≡ ok token
      → c.expires_at * second ≤ now
      → parse token keys now ≢ ok r

abbrev key_for : Text → Bool → Result Error Text
key_for secret true = ok secret
key_for secret false = err (bytes "unexpected signing method")

abbrev checked : Result Error (Claims × Bool) → Result Error Claims
checked (err e) = err invalid_token
checked (ok (c, valid)) = if valid then ok c else err invalid_token

abbrev pub unauthorized : Text → HttpError
unauthorized message = record { status = 401; message = message }

abbrev admitted : Result Error Claims → Result HttpError Text
admitted (err e) = err (unauthorized (bytes "invalid or expired token"))
admitted (ok c) = ok c.address

abbrev pub claims_of : Text → ℕ → ℕ → Claims
claims_of address ttl now = record {
  address = to_lower address;
  expires_at = (now + ttl) / second;
  issued_at = now / second;
}

module _ (jwt : Jwt) where
  unfoldable pub validate_token : Text → Text → ℕ → Result Error Claims
  validate_token token secret now = checked (jwt.parse token (key_for secret) now)

  -- The address that the middleware puts into the request's context, or its refusal.
  unfoldable pub middleware : Text → Text → ℕ → Result HttpError Text
  unfolding validate_token
  middleware secret header now =
      let token = trim_prefix header (bytes "Bearer ") in
      if is_empty header
      then err (unauthorized (bytes "missing authorization header"))
      else if token == header
      then err (unauthorized (bytes "invalid authorization format"))
      else admitted (validate_token token secret now)

  module _ (eth : Ethereum) where
    unfoldable pub generate_token : eth.Address → Text → ℕ → ℕ → Result Error Text
    generate_token address secret ttl now =
        jwt.sign (claims_of (eth.address_hex address) ttl now) secret

  header_differs : (token : Text) → (token == (bytes "Bearer " ++ token)) ≡ false
  unfolding bytes
  header_differs token = elim (Bool-cases (token == (bytes "Bearer " ++ token))) [
    | inl same ↦
        absurd
          (omega (arith, ap (length {A = ℕ}) ((==_iff token (bytes "Bearer " ++ token)).0 same)))
    | inr other ↦ other
  ]

  middleware_bearer :
      (secret token : Text) (now : ℕ)
      → middleware secret (bytes "Bearer " ++ token) now
        ≡ admitted (validate_token token secret now)
  unfolding middleware bytes
  middleware_bearer secret token now =
      rw (trim_prefix-append (bytes "Bearer ") token, header_differs token)

  module _ (eth : Ethereum) (a : eth.Address) (secret token : Text) (ttl now later : ℕ) where
    abbrev issued : Claims
    issued = claims_of (eth.address_hex a) ttl now

    -- A token that GenerateToken made for an address lets a bearer pass the middleware under that
    -- address, in lower case, at each time before the second in which it expires.
    pub middleware-generate_token :
        generate_token eth a secret ttl now ≡ ok token
        → later < (now + ttl) / second * second
        → middleware secret (bytes "Bearer " ++ token) later ≡ ok (to_lower (eth.address_hex a))
    unfolding generate_token validate_token
    middleware-generate_token signed live =
        middleware_bearer secret token later
        ∙ ap (λ r. admitted (checked r))
            (jwt.parse-sign issued secret token (key_for secret) later signed refl live)

    -- From the second in which it expires on, a token that GenerateToken made is refused by the
    -- middleware with 401.
    pub middleware_expired :
        generate_token eth a secret ttl now ≡ ok token
        → (now + ttl) / second * second ≤ later
        → middleware secret (bytes "Bearer " ++ token) later
          ≡ err (unauthorized (bytes "invalid or expired token"))
    unfolding generate_token validate_token
    middleware_expired signed late = middleware_bearer secret token later ∙ refused
      where
        refused :
            admitted (validate_token token secret later)
            ≡ err (unauthorized (bytes "invalid or expired token"))
        refused = elim (Result-cases (jwt.parse token (key_for secret) later)) [
          | inl (r, parsed) ↦
              absurd
                (jwt.parse_expired issued secret token (key_for secret) later r signed late parsed)
          | inr (e, failed) ↦ ap (λ r. admitted (checked r)) failed
        ]
