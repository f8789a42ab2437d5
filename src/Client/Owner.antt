-- ===== src/Client/Owner.antt =====
-- client/auth.go: whose client this is, and the login of its owner.
pub mod Address
pub mod Binding
pub mod Guard
mod Tests
use signature_escrow.Common.{
  ℕ, ◌+◌, ◌*◌, ◌≡◌, Bool, true, false, not, ◌&&◌, ◌||◌, Option, none, some, List, [], ◌∷◌, ◌++◌,
  if◌then◌else◌,
}
use signature_escrow.Text.{Text, bytes, ◌==◌, is_empty, to_lower, strip}
use signature_escrow.Text.Space.{trim_space}
use signature_escrow.Act.{Result, ok, err, Act, pure, lift, reads, or_fail, continue, ◌>>=◌, ◌>>◌}
use signature_escrow.Storage.{Error, Storage, Codec}
use signature_escrow.Http.{
  HttpError, Reply, respond_ok, respond_error, reject_if, or_respond, decoded,
}
use signature_escrow.Auth.{Ethereum, generate_nonce, verify_signature}
use signature_escrow.Auth.Token.{Jwt, generate_token}
use signature_escrow.Auth.Nonce.{NonceStore, generate, verify}
use signature_escrow.Client.Accounts.{AccountMeta, accounts_of, both_networks}

abbrev pub client_token_ttl : ℕ
client_token_ttl = 24 * 60 * 60 * 1_000_000_000

abbrev pub owner_key : Text
owner_key = bytes "client/owner"

pub record NonceResponse : Type 0 where
  pub nonce : Text
  pub message : Text

pub record LoginRequest : Type 0 where
  pub address : Text
  pub signature : Text
  pub nonce : Text

pub record LoginResponse : Type 0 where
  pub token : Text
  pub address : Text

pub record IdentityResponse : Type 0 where
  pub address : Text
  pub has_keys : Bool
  pub bound : Bool
  pub auth_required : Bool

-- A value that is kept as the bytes of a text, `[]byte(s)` and `string(data)`.
pub record RawText (Blob : Type 0) : Type 0 where
  pub of_text : Text → Blob
  pub to_text : Blob → Text
  pub to_text-of_text : (t : Text) → to_text (of_text t) ≡ t

abbrev pub has_prefix : Text → Text → Bool
has_prefix s p = elim (strip p s) [ some _ ↦ true | none ↦ false ]

abbrev pub prefixed : Text → Text
prefixed a = if not (is_empty a) && not (has_prefix a (bytes "0x")) then bytes "0x" ++ a else a

unfoldable pub norm_addr : Text → Text
norm_addr a = prefixed (trim_space (to_lower a))

-- The loop that returns the first identity that is not empty.
unfoldable pub first_identity : List AccountMeta → Text
first_identity [] = []
first_identity (a ∷ more) =
    let rest = first_identity more in
    if not (is_empty (norm_addr a.pair_my_id)) then norm_addr a.pair_my_id else rest

-- A client's parts that a login changes.
pub record ClientState (S : Type 0) : Type 0 where
  pub nonces : NonceStore
  pub store : S

module _ {Blob : Type 0} (st : Storage Blob) ⦃codec : Codec Blob AccountMeta⦄
    (raw : RawText Blob) where
  unfoldable pub key_identity : st.State → Text
  key_identity s = first_identity (accounts_of st both_networks s)

  abbrev pub owner_of : Result Error (Option Blob) → Text
  owner_of (err _) = []
  owner_of (ok none) = []
  owner_of (ok (some d)) = norm_addr (raw.to_text d)

  unfoldable pub stored_owner : st.State → Text
  stored_owner s = owner_of (st.get owner_key s)

  unfoldable pub owner : st.State → Text
  owner s = if not (is_empty (key_identity s)) then key_identity s else stored_owner s

  unfoldable pub bind_owner : Text → Act Error st.State (Unit {0})
  bind_owner addr = st.put owner_key (raw.of_text (norm_addr addr))

  abbrev pub State : Type 0
  State = ClientState st.State

  abbrev pub on_nonces : {E A : Type 0} → Act E NonceStore A → Act E State A
  on_nonces m c = let (r, ns) = m c.nonces in (r, record c { nonces = ns })

  abbrev pub on_store : {E A : Type 0} → Act E st.State A → Act E State A
  on_store m c = let (r, s) = m c.store in (r, record c { store = s })

  -- `body` is `req.Address`, and `drawn` the random bytes.
  unfoldable pub auth_nonce :
      Result Error Text → ℕ → Result Error (List ℕ) → Act HttpError State (Reply NonceResponse)
  auth_nonce body now drawn = do
    address ← decoded body
    reject_if (is_empty address) 400 (bytes "address is required")
    nonce ←
        or_fail (on_nonces (generate address now drawn))
          (λ e. record { status = 500; message = bytes "failed to generate nonce: " ++ e })
    respond_ok (some (record { nonce = nonce; message = generate_nonce address nonce }))

  abbrev checks : Text → Text → ℕ → Act HttpError NonceStore Bool
  checks address nonce now ns = let (b, ns') = verify address nonce now ns in (ok b, ns')

  -- `if own != "" { … } else { … }`: the owner alone, or the first who logs in.
  unfoldable pub admit : Text → Act HttpError st.State (Unit {0})
  admit signer s =
      let own = owner s in
      if not (is_empty own)
      then reject_if (not (signer == own)) 403
          (bytes "this client is bound to " ++ (own ++ bytes "; sign in with that account")) s
      else or_fail (bind_owner signer)
          (λ e. record { status = 500; message = bytes "failed to bind owner: " ++ e }) s

  module _ (eth : Ethereum) (jwt : Jwt) (secret : Text) where
    unfoldable pub auth_login :
        Result Error LoginRequest → ℕ → Act HttpError State (Reply LoginResponse)
    auth_login body now = do
      req ← decoded body
      reject_if (is_empty req.address || is_empty req.signature || is_empty req.nonce) 400
          (bytes "address, signature and nonce are required")
      fresh ← on_nonces (checks req.address req.nonce now)
      reject_if (not fresh) 401 (bytes "invalid or expired nonce")
      address ←
          or_respond
            (lift (
              verify_signature eth req.address (generate_nonce req.address req.nonce)
                req.signature))
            401 (bytes "signature verification failed")
      on_store (admit (norm_addr (eth.address_hex address)))
      token ←
          or_respond (lift (generate_token jwt eth address secret client_token_ttl now)) 500
            (bytes "failed to generate token")
      respond_ok (some (record { token = token; address = eth.address_hex address }))

  -- `auth_enabled` is the client's field.
  unfoldable pub identity : Bool → Act HttpError State (Reply IdentityResponse)
  identity auth_enabled c =
      respond_ok
        (some (record {
          address = owner c.store;
          has_keys = not (is_empty (key_identity c.store));
          bound = not (is_empty (owner c.store));
          auth_required = auth_enabled;
        }))
        c

  -- `caller` is the address in the request's context, and `next` the handler behind the guard.
  unfoldable pub owner_guard :
      {A : Type 0} → Text → Act HttpError st.State A → Act HttpError st.State A
  owner_guard caller next s =
      let own = owner s in
      if not (is_empty own) && not (norm_addr caller == own)
      then respond_error 403 (bytes "this client is bound to " ++ own) s
      else next s
