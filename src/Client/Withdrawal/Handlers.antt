-- ===== src/Client/Withdrawal/Handlers.antt =====
-- client/withdrawal.go: `acceptWithdrawalTx` and `sendWithdrawalTx` as a whole, and
-- `rotateECDSAPresign`, which both start in the background; parseAccountName of
-- client/cosign_history.go.
use signature_escrow.Common.{
  ℕ, Bool, true, false, ◌||◌, Option, none, some, List, [], ◌∷◌, ◌++◌, nat_eq, if◌then◌else◌,
}
use signature_escrow.Text.{Text, bytes, ◌==◌, is_empty}
use signature_escrow.Text.Hex.{hex_decode}
use signature_escrow.Act.{Result, ok, err, Act, pure, lift, ◌>>=◌, ◌>>◌, or_fail}
use signature_escrow.Storage.{Error, Storage, Codec}
use signature_escrow.Http.{HttpError, reject_if, respond_error}
use signature_escrow.Client.Node.{Node}
use signature_escrow.Client.Cosign.{CosignEvent, record_cosign}
use signature_escrow.Client.SendTx.{parse_decimal}
use signature_escrow.Client.Withdrawal.{
  AcceptWithdrawalTxRequest, State, Busy, admit, finish, outcome_of,
}
use signature_escrow.Client.Withdrawal.Sign.{
  Mpc, Incomplete, Signed, server_error, bad_request, fetched, account_key, taproot, cosign,
}

pub record SendWithdrawalTxRequest : Type 0 where
  pub algorithm : Text
  pub name : Text
  pub escrow_address : Text
  pub hash_tx : Text
  pub my_id : Text
  pub another : Text
  pub to : Text
  pub amount : Text
  pub tx_data : Text
  pub escrow_id : Text
  pub public_key : Text

-- What `strconv.Atoi` gives, 0 where there is no number; a sign, and numbers from 2^63 on, are not modelled.
abbrev or_zero : Option ℕ → ℕ
or_zero none = 0
or_zero (some n) = n

-- Up to the first slash, and the rest behind it.
unfoldable pub split_name : Text → Text × Option Text
split_name [] = ([], none)
split_name (c ∷ s) =
    let (first, rest) = split_name s in if nat_eq c b'/' then ([], some s) else (c ∷ first, rest)

abbrev index_of : Option Text → ℕ
index_of none = 0
index_of (some t) = or_zero (parse_decimal t)

unfoldable pub parse_account_name : Text → Text × ℕ
parse_account_name name = let (network, rest) = split_name name in (network, index_of rest)

module _ {Blob : Type 0} (st : Storage Blob) ⦃codec : Codec Blob (List CosignEvent)⦄
    (mpc : Mpc Blob) (node : Node) where
  -- The end of the handler, which is deferred, whatever came before.
  abbrev pub ended :
      AcceptWithdrawalTxRequest
      → ℕ
      → List ℕ
      → Busy
      → Result HttpError Signed × st.State
      → Result HttpError Signed × State st
  ended req now drawn busy (ok r, s) = (
    ok r,
    finish st req.escrow_id
        (outcome_of req (parse_account_name req.name) r.hash r.complete now drawn) (busy, s),
  )
  ended req now drawn busy (err e, s) = (err e, finish st req.escrow_id none (busy, s))

  abbrev pub signs :
      AcceptWithdrawalTxRequest
      → Result Error (Unit {0})
      → Option (Result Error Incomplete)
      → ℕ
      → List ℕ
      → Act HttpError (State st) Signed
  signs req setup received now drawn (busy, s) =
      ended req now drawn busy (cosign st mpc node req setup received s)

  -- `setup` is what network.NewClient answers, and `received` the initiator's message.
  unfoldable pub accept_withdrawal_tx :
      Result Error AcceptWithdrawalTxRequest
      → Result Error (Unit {0})
      → Option (Result Error Incomplete)
      → ℕ
      → List ℕ
      → Act HttpError (State st) Signed
  accept_withdrawal_tx body setup received now drawn = do
    req ← admit st body
    signs req setup received now drawn

  abbrev sent_event : SendWithdrawalTxRequest → Text × ℕ → CosignEvent
  sent_event req (network, index) = record {
    id = [];
    role = bytes "initiator";
    status = if is_empty req.escrow_id then bytes "sent" else bytes "escrow-await";
    network = network;
    index = index;
    escrow = req.escrow_address;
    to = req.to;
    amount = req.amount;
    hash = req.hash_tx;
    signature = [];
    tx_data = req.tx_data;
    tx_hash = [];
    failure = [];
    escrow_id = req.escrow_id;
    public_key = req.public_key;
    created_at = 0;
  }

  abbrev records : CosignEvent → ℕ → List ℕ → Act HttpError st.State (Unit {0})
  records ev now drawn s = (ok tt, record_cosign st ev now drawn s)

  -- The reply is the message that is sent, if any.
  unfoldable pub send_ecdsa :
      SendWithdrawalTxRequest → ℕ → List ℕ → Act HttpError st.State (Option Incomplete)
  send_ecdsa req now drawn = do
    conf ←
        fetched st mpc node (account_key st mpc node req.name (bytes "/conf-ecdsa"))
          (bytes "config")
    config ← server_error (mpc.config_unmarshal conf) (bytes "failed to unmarshal config: ")
    pre ←
        fetched st mpc node (account_key st mpc node req.name (bytes "/presig-ecdsa"))
          (bytes "presign")
    presign ← server_error (mpc.presign_unmarshal pre) (bytes "failed to unmarshal presign: ")
    hash ← bad_request (hex_decode req.hash_tx) (bytes "invalid hash format: ")
    inc ←
        server_error (mpc.online_inc config presign hash)
          (bytes "failed to create incomplete signature: ")
    inc_hex ← server_error (mpc.msg_to_hex inc) (bytes "failed to convert signature to hex: ")
    records (sent_event req (parse_account_name req.name)) now drawn
    pure (some (record { inc_sig = inc_hex; hash_tx = req.hash_tx }))

  unfoldable pub send_frost : SendWithdrawalTxRequest → Act HttpError st.State (Option Incomplete)
  send_frost req = do
    conf ←
        fetched st mpc node (account_key st mpc node req.name (bytes "/conf-frost"))
          (bytes "frost config")
    config ← taproot st mpc node req.name req.escrow_address conf
    hash ← bad_request (hex_decode req.hash_tx) (bytes "invalid hash format: ")
    server_error (mpc.frost_inc config hash) (bytes "frost inc signing failed: ")
    pure none

  unfoldable pub send_withdrawal_tx :
      Result Error SendWithdrawalTxRequest
      → Result Error (Unit {0})
      → ℕ
      → List ℕ
      → Act HttpError st.State (Option Incomplete)
  send_withdrawal_tx body setup now drawn = do
    req ←
        or_fail (lift body)
          (λ e. record { status = 400; message = bytes "invalid request body: " ++ e })
    reject_if
        (is_empty req.algorithm
          || is_empty req.name
          || is_empty req.escrow_address
          || is_empty req.hash_tx
          || is_empty req.my_id
          || is_empty req.another)
        400 (bytes "alg, name, escrow_address, hash_tx, my_id and another_id are required")
    server_error setup (bytes "network setup failed: ")
    if req.algorithm == bytes "ecdsa"
        then send_ecdsa req now drawn
        else (if req.algorithm == bytes "frost"
            then send_frost req
            else respond_error 400 (bytes "unknown alg(frost or ecdsa)"))

  abbrev deleted : Text → st.State → Bool × st.State
  deleted key s = (false, (st.delete key s).1)

  abbrev is_ok : Result Error (Unit {0}) → Bool
  is_ok (ok _) = true
  is_ok (err _) = false

  -- `presigned` is the new presignature of the protocol, which needs the network to be set up.
  unfoldable pub rotate_ecdsa_presign :
      Text → Result Error (Unit {0}) → Result Error mpc.PreSign → st.State → Bool × st.State
  rotate_ecdsa_presign name (err _) presigned s =
      deleted (account_key st mpc node name (bytes "/presig-ecdsa")) s
  rotate_ecdsa_presign name (ok _) (err _) s =
      deleted (account_key st mpc node name (bytes "/presig-ecdsa")) s
  rotate_ecdsa_presign name (ok _) (ok presign) s = elim (mpc.presign_marshal presign) [
    | err _ ↦ deleted (account_key st mpc node name (bytes "/presig-ecdsa")) s
    | ok b ↦
        let (r, s') = st.put (account_key st mpc node name (bytes "/presig-ecdsa")) b s in
        (is_ok r, s')
  ]
