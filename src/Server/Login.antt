-- ===== src/Server/Login.antt =====
-- server/auth.go: the login of an address by a signed nonce.
mod Tests
use signature_escrow.Common.{
  ℕ, zero, ◌+◌, ◌*◌, ◌≡◌, ◌≢◌, refl, sym, ap, ◌∙◌, inl, inr, some, true, false, Bool, Bool-cases,
  ◌||◌, List, ◌++◌, arith, not,
}
use signature_escrow.Text.{Text, bytes, is_empty, to_lower, equal_fold}
use signature_escrow.Act.{
  Result, ok, err, Result-cases, Act, pure, lift, or_fail, reads, continue, ◌>>=◌, ◌>>◌,
}
use signature_escrow.Storage.{Error}
use signature_escrow.Http.{
  HttpError, Reply, content, respond_ok, reject_if, or_respond, decoded, status_code,
}
use signature_escrow.Auth.{Ethereum, generate_nonce, verify_signature}
use signature_escrow.Auth.Token.{Jwt, generate_token}
use signature_escrow.Auth.Nonce.{NonceStore, generate, verify}
use signature_escrow.Auth.Nonce.OneTime.{Event, NoGenerate, run, verify_once}

-- 24 hours
abbrev pub token_ttl : ℕ
token_ttl = 24 * 60 * 60 * 1_000_000_000

pub record NonceResponse : Type 0 where
  pub nonce : Text
  pub message : Text

pub record LoginRequest : Type 0 where
  pub address : Text
  pub signature : Text
  pub nonce : Text

pub record LoginResponse : Type 0 where
  pub token : Text
  pub address : Text

-- `body` is `req.Address`, and `drawn` the random bytes.
pub auth_nonce :
    Result Error Text → ℕ → Result Error (List ℕ) → Act HttpError NonceStore (Reply NonceResponse)
auth_nonce body now drawn = do
  address ← decoded body
  reject_if (is_empty address) 400 (bytes "address is required")
  nonce ←
      or_fail (generate address now drawn)
        (λ e. record { status = 500; message = bytes "failed to generate nonce: " ++ e })
  respond_ok (some (record { nonce = nonce; message = generate_nonce address nonce }))

abbrev checks : Text → Text → ℕ → Act HttpError NonceStore Bool
checks address nonce now ns = let (b, ns') = verify address nonce now ns in (ok b, ns')

module _ (eth : Ethereum) (jwt : Jwt) (secret : Text) where
  pub auth_login : Result Error LoginRequest → ℕ → Act HttpError NonceStore (Reply LoginResponse)
  auth_login body now = do
    req ← decoded body
    reject_if (is_empty req.address || is_empty req.signature || is_empty req.nonce) 400
        (bytes "address, signature and nonce are required")
    fresh ← checks req.address req.nonce now
    reject_if (not fresh) 401 (bytes "invalid or expired nonce")
    let message = generate_nonce req.address req.nonce
    address ←
        or_respond (lift (verify_signature eth req.address message req.signature)) 401
          (bytes "signature verification failed")
    token ←
        or_respond (lift (generate_token jwt eth address secret token_ttl now)) 500
          (bytes "failed to generate token")
    respond_ok (some (record { token = token; address = eth.address_hex address }))

  -- A login that is answered 200 had a nonce that was valid for its address, a signature that was
  -- verified for the address over the message with that nonce, and is answered with a token for,
  -- and the text of, the address that signed.
  pub auth_login_sound :
      (req : LoginRequest) (now : ℕ) (ns : NonceStore) (resp : LoginResponse)
      → (auth_login (ok req) now ns).0 ≡ ok (content resp)
      → (a : eth.Address) × ((verify req.address req.nonce now ns).0 ≡ true)
        × (verify_signature eth req.address (generate_nonce req.address req.nonce) req.signature
            ≡ ok a)
        × (generate_token jwt eth a secret token_ttl now ≡ ok resp.token)
        × (resp.address ≡ eth.address_hex a)
  unfolding auth_login
  auth_login_sound req now ns resp h =
      elim (Result-cases
        (verify_signature eth req.address (generate_nonce req.address req.nonce) req.signature)) [
          | inr (x, e) ↦ ground (arith, e)
          | inl (a, e) ↦ elim (Result-cases (generate_token jwt eth a secret token_ttl now)) [
            | inr (x, f) ↦ ground (arith, e, f)
            | inl (token, f) ↦
                (a, ground (arith, e, f), e, ground (arith, e, f), ground (arith, e, f))
          ]
        ]

  module _ (req : LoginRequest) where
    abbrev pub IsFull : Type 0
    IsFull = (is_empty req.address || is_empty req.signature || is_empty req.nonce) ≡ false

    login_spends :
        (now : ℕ) (ns : NonceStore)
        → IsFull
        → (auth_login (ok req) now ns).1 ≡ (verify req.address req.nonce now ns).1
    unfolding auth_login
    login_spends now ns full = ground arith

    login_stale :
        (now : ℕ) (ns : NonceStore)
        → IsFull
        → (verify req.address req.nonce now ns).0 ≡ false
        → status_code (auth_login (ok req) now ns).0 ≡ 401
    unfolding auth_login
    login_stale now ns full stale = ground arith

    -- A login request with all its fields cannot be replayed: after it was answered in any way, the
    -- same request is refused with 401 at any time, as long as no nonce is generated for its
    -- address between the two.
    pub auth_login_no_replay :
        (t now : ℕ) (es : List Event) (ns : NonceStore)
        → IsFull
        → NoGenerate (to_lower req.address) es
        → status_code (auth_login (ok req) now (run es (auth_login (ok req) t ns).1)).0 ≡ 401
    auth_login_no_replay t now es ns full w =
        login_stale now (run es (auth_login (ok req) t ns).1) full
          (rw (login_spends t ns full) (verify_once req.address req.nonce req.nonce t now es ns w))
