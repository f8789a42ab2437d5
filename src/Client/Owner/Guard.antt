-- ===== src/Client/Owner/Guard.antt =====
-- client/auth.go: whom ownerGuard lets through after a login.
use signature_escrow.Common.{ℕ, ◌≡◌, ap, ◌∙◌, false, if◌then◌else◌, List, ◌++◌, arith}
use signature_escrow.Text.{Text, bytes, is_empty, ◌==◌}
use signature_escrow.Act.{Act, ok, err}
use signature_escrow.Storage.{Storage, Codec}
use signature_escrow.Http.{HttpError, content}
use signature_escrow.Auth.{Ethereum}
use signature_escrow.Auth.Token.{Jwt}
use signature_escrow.Client.Accounts.{AccountMeta}
use signature_escrow.Client.Owner.{
  RawText, LoginRequest, LoginResponse, norm_addr, owner, auth_login, State, owner_guard,
}
-- A request for a nonce or to log in.
use signature_escrow.Client.Owner.Binding.{Attempt, attempts, attempts_keep, auth_login_binds}

module _ {Blob : Type 0} (st : Storage Blob) ⦃codec : Codec Blob AccountMeta⦄
    (raw : RawText Blob) where
  guard_owner :
      {A : Type 0} (caller own : Text) (next : Act HttpError st.State A) (s : st.State)
      → owner st raw s ≡ own
      → is_empty own ≡ false
      → owner_guard st raw caller next s ≡ (
          if norm_addr caller == own then next s else (
            err (record { status = 403; message = bytes "this client is bound to " ++ own }),
            s,
          ))
  unfolding owner_guard
  guard_owner caller own next s e named = ground (arith, e, named)

  module _ (eth : Ethereum) (jwt : Jwt) (secret : Text) where
    -- After a login to a client was answered 200, and any requests for nonces and logins,
    -- ownerGuard passes a request of the address that logged in on to the next handler, and refuses
    -- one of any other address with 403 and changes nothing. Condition: the address is not empty in
    -- the form that normAddr gives it.
    pub guard_after_login :
        {A : Type 0} (req : LoginRequest) (now : ℕ) (c : State st raw) (resp : LoginResponse)
        (tries : List Attempt) (caller : Text) (next : Act HttpError st.State A)
        → (auth_login st raw eth jwt secret (ok req) now c).0 ≡ ok (content resp)
        → is_empty (norm_addr resp.address) ≡ false
        → let s =
            (attempts st raw eth jwt secret tries
              (auth_login st raw eth jwt secret (ok req) now c).1).store in
          owner_guard st raw caller next s ≡ (
            if norm_addr caller == norm_addr resp.address then next s else (
              err (record {
                status = 403;
                message = bytes "this client is bound to " ++ norm_addr resp.address;
              }),
              s,
            ))
    guard_after_login req now c resp tries caller next h named =
        let bound = auth_login_binds st raw eth jwt secret req now c resp h in
        let kept = attempts_keep st raw eth jwt secret tries _ (ap is_empty bound ∙ named) in
        guard_owner caller (norm_addr resp.address) next _ (ap (owner st raw) kept ∙ bound) named
