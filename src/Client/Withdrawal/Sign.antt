-- ===== src/Client/Withdrawal/Sign.antt =====
-- client/withdrawal.go: what both halves of a co-signature compute. The protocols of
-- multi-party-sig and what comes over the network are parameters.
use signature_escrow.Common.{◌≡◌, not, Option, none, some, ◌++◌, if◌then◌else◌}
use signature_escrow.Text.{Text, bytes, ◌==◌, is_empty, trim_prefix, equal_fold}
use signature_escrow.Text.Hex.{hex_encode, hex_decode}
use signature_escrow.Validation.{Bytes}
use signature_escrow.Act.{Result, ok, Act, pure, lift, reads, or_fail-ok, ◌>>=◌, ◌>>◌, or_fail}
use signature_escrow.Storage.{Error, Storage}
use signature_escrow.Http.{HttpError, reject_if, respond_error}
use signature_escrow.Client.Int64.{pos}
use signature_escrow.Client.Node.{Node}
use signature_escrow.Client.Withdrawal.{AcceptWithdrawalTxRequest}

-- The message of the initiator.
pub record Incomplete : Type 0 where
  pub inc_sig : Text
  pub hash_tx : Text

-- mpc/mpccmp and mpc/mpcfrost over multi-party-sig. A value that is not stored is unmarshalled too.
pub record Mpc (Blob : Type 0) : Type 1 where
  pub Config : Type 0
  pub PreSign : Type 0
  pub TaprootConfig : Type 0
  pub Message : Type 0
  pub Signature : Type 0
  pub config_unmarshal : Option Blob → Result Error Config
  pub presign_unmarshal : Option Blob → Result Error PreSign
  pub presign_marshal : PreSign → Result Error Blob
  pub taproot_unmarshal : Blob → Result Error TaprootConfig
  pub online_inc : Config → PreSign → Bytes → Result Error Message
  pub online_cosign : Config → PreSign → Bytes → Message → Result Error Signature
  pub msg_to_hex : Message → Result Error Text
  pub hex_to_msg : Text → Result Error Message
  pub get_sig_byte : Signature → Result Error Bytes
  pub sig_ethereum : Signature → Result Error Bytes
  pub frost_inc : TaprootConfig → Bytes → Result Error (Unit {0})
  pub frost_cosign : TaprootConfig → Bytes → Result Error Bytes

-- The complete signature, the one for the escrow, and the hash that was signed as a text.
pub record Signed : Type 0 where
  pub complete : Text
  pub escrow : Text
  pub hash : Text

abbrev pub server_error : {S A : Type 0} → Result Error A → Text → Act HttpError S A
server_error r message = or_fail (lift r) (λ e. record { status = 500; message = message ++ e })

abbrev pub bad_request : {S A : Type 0} → Result Error A → Text → Act HttpError S A
bad_request r message = or_fail (lift r) (λ e. record { status = 400; message = message ++ e })

pub answered-ok :
    {S A : Type 0} (r : Result Error A) (f : Error → HttpError) (s : S) (a : A)
    → (or_fail (lift r) f s).0 ≡ ok a
    → r ≡ ok a
answered-ok r f s a h = or_fail-ok (lift r) f s a h

abbrev tampered : Text
tampered = bytes "refusing to sign: tx hash does not match tx_data (possible tampering)"

module _ {Blob : Type 0} (st : Storage Blob) (mpc : Mpc Blob) (node : Node) where
  abbrev pub fetched : Text → Text → Act HttpError st.State (Option Blob)
  fetched key what = or_fail (reads (st.get key)) (λ e. record {
    status = 500;
    message = bytes "failed to get " ++ (what ++ (bytes ": " ++ e));
  })

  abbrev pub account_key : Text → Text → Text
  account_key name part = bytes "accounts/" ++ (name ++ part)

  -- The guard against blind signing: the hash is that of the transaction in `tx_data`, on chain 1.
  unfoldable pub verify_tx_data : {S : Type 0} → Text → Text → Act HttpError S (Unit {0})
  verify_tx_data tx_data hash_tx = do
    raw ← bad_request (hex_decode (trim_prefix tx_data (bytes "0x"))) (bytes "invalid tx_data: ")
    tx ← bad_request (node.unmarshal_binary raw) (bytes "decode tx_data: ")
    reject_if (not (equal_fold (hex_encode (node.signing_hash (pos 1) tx)) hash_tx)) 400 tampered

  -- `none` is the timeout, and an error that of json.Unmarshal.
  abbrev pub awaited : Option (Result Error Incomplete) → Act HttpError st.State Incomplete
  awaited none =
      respond_error 504 (bytes "timed out waiting for the other party's incomplete signature")
  awaited (some r) = server_error r (bytes "failed to unmarshal message: ")

  unfoldable pub cosign_ecdsa :
      AcceptWithdrawalTxRequest → Option (Result Error Incomplete) → Act HttpError st.State Signed
  cosign_ecdsa req received = do
    tx ← awaited received
    if not (is_empty req.tx_data) then verify_tx_data req.tx_data tx.hash_tx else pure tt
    conf ← fetched (account_key req.name (bytes "/conf-ecdsa")) (bytes "config")
    config ← server_error (mpc.config_unmarshal conf) (bytes "failed to unmarshal config: ")
    pre ← fetched (account_key req.name (bytes "/presig-ecdsa")) (bytes "presign")
    presign ← server_error (mpc.presign_unmarshal pre) (bytes "failed to unmarshal presign: ")
    hash ← bad_request (hex_decode tx.hash_tx) (bytes "invalid hash format: ")
    inc ← server_error (mpc.hex_to_msg tx.inc_sig) (bytes "failed to convert hex to message: ")
    sig ←
        server_error (mpc.online_cosign config presign hash inc)
          (bytes "failed to complete signature: ")
    escrow ← server_error (mpc.get_sig_byte sig) (bytes "failed to get escrow signature bytes: ")
    complete ← server_error (mpc.sig_ethereum sig) (bytes "failed to get signature bytes: ")
    pure (record { complete = hex_encode complete; escrow = hex_encode escrow; hash = tx.hash_tx })

  abbrev pub taproot : Text → Text → Option Blob → Act HttpError st.State mpc.TaprootConfig
  taproot name address none =
      respond_error 404 (bytes "frost config not found for " ++ (name ++ (bytes "/" ++ address)))
  taproot name address (some blob) =
      server_error (mpc.taproot_unmarshal blob) (bytes "failed to unmarshal frost config: ")

  unfoldable pub cosign_frost : AcceptWithdrawalTxRequest → Act HttpError st.State Signed
  cosign_frost req = do
    hash ← bad_request (hex_decode req.hash_tx) (bytes "invalid hash format: ")
    conf ← fetched (account_key req.name (bytes "/conf-frost")) (bytes "frost config")
    config ← taproot req.name req.escrow_address conf
    sig ← server_error (mpc.frost_cosign config hash) (bytes "frost co-sign failed: ")
    pure (record { complete = hex_encode sig; escrow = hex_encode sig; hash = req.hash_tx })

  -- The handler between the section under `cosignMu` and the record of the event.
  unfoldable pub cosign :
      AcceptWithdrawalTxRequest
      → Result Error (Unit {0})
      → Option (Result Error Incomplete)
      → Act HttpError st.State Signed
  cosign req setup received = do
    server_error setup (bytes "network setup failed: ")
    if req.algorithm == bytes "ecdsa"
        then cosign_ecdsa req received
        else (if req.algorithm == bytes "frost"
            then cosign_frost req
            else respond_error 400 (bytes "unknown alg(frost or ecdsa)"))
