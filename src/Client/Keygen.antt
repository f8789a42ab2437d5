-- ===== src/Client/Keygen.antt =====
-- client/keygen_ecdsa.go and client/keygen_frost.go: the requests that generate a key, and what they
-- store of it. What the protocols of multi-party-sig give is a parameter, in the order in which it
-- is asked for; cbor.Marshal of an AccountMeta is taken not to fail.
pub mod Listed
mod Tests
use signature_escrow.Common.{
  ℕ, ◌≡◌, Bool, true, false, not, ◌&&◌, ◌||◌, Option, none, some, List, [], ◌∷◌, ◌++◌, nat_eq,
  if◌then◌else◌,
}
use signature_escrow.Text.{Text, bytes, ◌==◌, is_empty}
use signature_escrow.Text.Hex.{hex_encode}
use signature_escrow.Validation.{Bytes}
use signature_escrow.Act.{Result, ok, err, Act, pure, lift, or_fail, continue, ◌>>=◌, ◌>>◌}
use signature_escrow.Storage.{Error, Storage, Codec, save}
use signature_escrow.Http.{HttpError, Reply, respond_ok, reject_if, decoded}
use signature_escrow.Client.Accounts.{AccountMeta, account_base}
use signature_escrow.Client.Util.{
  normalize_party_id, validate_session_id, validate_network, validate_index, validate_eth_address,
}
use signature_escrow.Client.Withdrawal.Sign.{server_error, bad_request}

-- KeygenECDSARequest, and KeygenFROSTRequest, which has no network. An index below 0 is as 0.
pub record KeygenRequest : Type 0 where
  pub session_id : Text
  pub my_id : Text
  pub another : Text
  pub network : Text
  pub index : ℕ

pub record KeygenResponse : Type 0 where
  pub public_key : Text
  pub address : Text
  pub session_id : Text
  pub network : Text
  pub index : ℕ

-- A run of the protocol: the set-up of the network, the key, and what is read off it.
pub record EcdsaRun (Blob : Type 0) : Type 0 where
  pub network : Result Error (Unit {0})
  pub keygen : Result Error (Unit {0})
  pub presign_network : Result Error (Unit {0})
  pub presign : Result Error (Unit {0})
  pub address : Result Error Text
  pub public_key : Result Error Bytes
  pub config : Result Error Blob
  pub presignature : Result Error Blob

pub record FrostRun (Blob : Type 0) : Type 0 where
  pub network : Result Error (Unit {0})
  pub keygen : Result Error (Unit {0})
  pub address : Result Error Text
  pub public_key : Result Error Bytes
  pub config : Result Error Blob

abbrev pub or_eth : Text → Text
or_eth network = if is_empty network then bytes "eth" else network

abbrev pub or_one : ℕ → ℕ
or_one index = if nat_eq index 0 then 1 else index

-- The account as it is stored.
abbrev pub meta_of : KeygenRequest → Text → Text → Bytes → AccountMeta
meta_of req network address public_key = record {
  network = network;
  index = or_one req.index;
  address = address;
  public_key = hex_encode public_key;
  pair_my_id = normalize_party_id req.my_id;
  pair_other = normalize_party_id req.another;
  session_id = req.session_id;
}

abbrev pub response_of : KeygenRequest → AccountMeta → KeygenResponse
response_of req m = record {
  public_key = m.public_key;
  address = m.address;
  session_id = req.session_id;
  network = m.network;
  index = m.index;
}

abbrev pub check_parties : {S : Type 0} → KeygenRequest → Act HttpError S (Unit {0})
check_parties req = do
  reject_if (is_empty req.session_id || is_empty req.my_id || is_empty req.another) 400
      (bytes "session_id, my_id, and another_id are required")
  bad_request (validate_session_id req.session_id) []
  bad_request (validate_eth_address req.my_id) (bytes "my_id: ")
  bad_request (validate_eth_address req.another) (bytes "another_id: ")

module _ {Blob : Type 0} (st : Storage Blob) ⦃codec : Codec Blob AccountMeta⦄ where
  abbrev pub stores : Text → Blob → Text → Act HttpError st.State (Unit {0})
  stores key blob message =
      or_fail (st.put key blob) (λ e. record { status = 500; message = message ++ e })

  -- An error of this save is logged at most.
  abbrev saves_meta : Text → AccountMeta → Act HttpError st.State (Unit {0})
  saves_meta base m s = (ok tt, (save st (base ++ bytes "/meta") m s).1)

  unfoldable pub keygen_ecdsa :
      Result Error KeygenRequest → EcdsaRun Blob → Act HttpError st.State (Reply KeygenResponse)
  keygen_ecdsa body run = do
    req ← decoded body
    check_parties req
    bad_request (validate_network (or_eth req.network)) []
    bad_request (validate_index (or_one req.index)) []
    server_error run.network (bytes "network setup failed: ")
    server_error run.keygen (bytes "ECDSA keygen failed: ")
    server_error run.presign_network (bytes "network setup failed: ")
    server_error run.presign (bytes "ECDSA presign failed: ")
    address ← server_error run.address (bytes "failed to get address: ")
    public_key ← server_error run.public_key (bytes "failed to get public key: ")
    config ← server_error run.config (bytes "failed to marshal config: ")
    presignature ← server_error run.presignature (bytes "failed to marshal presign: ")
    let base = account_base (or_eth req.network) (or_one req.index)
    stores (base ++ bytes "/conf-ecdsa") config (bytes "failed to save config: ")
    stores (base ++ bytes "/presig-ecdsa") presignature (bytes "failed to save presign: ")
    let m = meta_of req (or_eth req.network) address public_key
    saves_meta base m
    respond_ok (some (response_of req m))

  unfoldable pub keygen_frost :
      Result Error KeygenRequest → FrostRun Blob → Act HttpError st.State (Reply KeygenResponse)
  keygen_frost body run = do
    req ← decoded body
    check_parties req
    bad_request (validate_index (or_one req.index)) []
    server_error run.network (bytes "network setup failed: ")
    server_error run.keygen (bytes "FROST keygen failed: ")
    address ← server_error run.address (bytes "failed to get address: ")
    public_key ← server_error run.public_key (bytes "failed to get public key: ")
    let base = account_base (bytes "btc") (or_one req.index)
    config ← server_error run.config (bytes "failed to marshal config: ")
    stores (base ++ bytes "/conf-frost") config (bytes "failed to save config: ")
    let m = meta_of req (bytes "btc") address public_key
    saves_meta base m
    respond_ok (some (response_of req m))
