-- ===== src/Client/SendTx.antt =====
-- client/send_tx.go: a signature is put to a transaction, which is sent to its network. A value with
-- a sign is not modelled.
pub mod Nonce
mod Tests
use signature_escrow.Common.{
  ℕ, zero, suc, ◌+◌, ◌%◌, ◌*◌, ◌-◌, ◌≡◌, Bool, true, false, not, ◌&&◌, ◌||◌, Option, none, some,
  List, [], ◌∷◌, ◌++◌, leb, ltb, if◌then◌else◌,
}
use signature_escrow.Text.{Text, bytes, is_empty, to_lower, trim_prefix}
use signature_escrow.Text.Hex.{hex_decode}
use signature_escrow.Validation.{Bytes}
use signature_escrow.Act.{Result, ok, err, Act, pure, throw, lift, or_fail, continue, ◌>>=◌, ◌>>◌}
use signature_escrow.Storage.{Error, Storage, Codec}
use signature_escrow.Http.{HttpError, Reply, content, no_content, respond_ok, reject_if, decoded}
use signature_escrow.Client.Int64.{ℤ, pos, int64, two_64}
use signature_escrow.Client.Cosign.{CosignEvent, record_cosign}
use signature_escrow.Client.Balance.{
  Checked, requires, failing, rpc_url, is_ethereum, is_bitcoin, unsupported,
}
use signature_escrow.Client.Node.{Node, Transaction, new_transaction, or_default}

pub record SendTransactionRequest : Type 0 where
  pub network : Text
  pub from : Text
  pub to : Text
  pub value : Text
  pub gas_price : Text
  pub gas_limit : Text
  pub signature : Text
  pub chain_id : ℤ
  pub node_url : Text
  pub tx_data : Text

pub record SendTransactionResponse : Type 0 where
  pub status : Text
  pub tx_hash : Text
  pub message : Text

-- The digits of a text, read on from a number.
unfoldable pub digits_from : ℕ → Text → Option ℕ
digits_from acc [] = some acc
digits_from acc (c ∷ s) =
    let rest = digits_from (acc * 10 + (c - b'0')) s in
    if leb b'0' c && leb c b'9' then rest else none

-- big.Int.SetString(s, 10) of a text without a sign.
unfoldable pub parse_decimal : Text → Option ℕ
parse_decimal [] = none
parse_decimal (c ∷ s) = digits_from 0 (c ∷ s)

abbrev within : Option ℕ → Result Error ℕ
within none = err (bytes "invalid syntax")
within (some n) = if ltb n two_64 then ok n else err (bytes "value out of range")

-- strconv.ParseUint(s, 10, 64)
unfoldable pub parse_uint : Text → Result Error ℕ
parse_uint s = within (parse_decimal s)

abbrev first_of : Text → Text → Text
first_of a b = if is_empty a then b else a

-- What a handler of this file ends with, apart from its reply: an answer that is an error, or the
-- panic of a slice out of range.
pub data Ending : Type 0 where
  failed : Error → Ending
  panic : Ending

module _ (node : Node) (ethereum_rpc : Text) where
  abbrev sent : Text → Text → SendTransactionResponse
  sent tx_hash message = record { status = bytes "sent"; tx_hash = tx_hash; message = message }

  -- With `tx_data`, the transaction that it holds is signed and sent.
  unfoldable pub send_tx_data : SendTransactionRequest → Checked SendTransactionResponse
  send_tx_data req = do
    raw ← failing (hex_decode (trim_prefix req.tx_data (bytes "0x"))) (bytes "invalid tx_data: ")
    tx ← failing (node.unmarshal_binary raw) (bytes "decode tx_data: ")
    sig ←
        failing (hex_decode (trim_prefix req.signature (bytes "0x")))
          (bytes "invalid signature format: ")
    signed ←
        failing (node.with_signature (or_default req.chain_id (pos 1)) tx sig)
          (bytes "failed to apply signature: ")
    failing (node.dial (first_of req.node_url (rpc_url ethereum_rpc)))
        (bytes "failed to connect to Ethereum node: ")
    failing (node.send_transaction signed) (bytes "failed to send transaction to network: ")
    pure (sent (node.tx_hash signed) (bytes "Transaction broadcast successfully"))

  abbrev pub value_in : Text → Checked ℕ
  value_in t = elim (parse_decimal t) [
    | some n ↦ pure n
    | none ↦ throw (bytes "invalid value format: " ++ t)
  ]

  -- The gas price of the request, if it has one: from 2^63 on it becomes negative.
  abbrev pub price_in : Text → Checked (Option ℤ)
  price_in [] = pure none
  price_in (c ∷ s) = do
    p ← failing (parse_uint (c ∷ s)) (bytes "invalid gas price format: ")
    pure (some (int64 p))

  abbrev pub limit_in : Text → Checked ℕ
  limit_in [] = pure 21000
  limit_in (c ∷ s) = failing (parse_uint (c ∷ s)) (bytes "invalid gas limit format: ")

  abbrev pub price_or : Option ℤ → Checked ℤ
  price_or (some p) = pure p
  price_or none = do
    p ← failing node.suggest_gas_price (bytes "failed to get gas price: ")
    pure (pos p)

  -- Without `tx_data`, a transaction is made from the fields, with the nonce after the node's.
  unfoldable pub send_fields : SendTransactionRequest → Checked SendTransactionResponse
  send_fields req = do
    requires (node.is_hex_address req.from) (bytes "invalid Ethereum from address: " ++ req.from)
    requires (node.is_hex_address req.to) (bytes "invalid Ethereum to address: " ++ req.to)
    value ← value_in req.value
    given ← price_in req.gas_price
    gas ← limit_in req.gas_limit
    failing (node.dial (first_of req.node_url (rpc_url ethereum_rpc)))
        (bytes "failed to connect to Ethereum node: ")
    nonce ← failing (node.nonce_at (node.hex_to_address req.from)) (bytes "failed to get nonce: ")
    price ← price_or given
    let tx = new_transaction ((nonce + 1) % two_64) (node.hex_to_address req.to) value gas price []
    sig ← failing (hex_decode req.signature) (bytes "invalid signature format: ")
    failing node.network_id (bytes "failed to get chain ID: ")
    signed ←
        failing (node.with_signature (or_default req.chain_id (pos 1)) tx sig)
          (bytes "failed to apply signature to transaction: ")
    failing (node.send_transaction signed) (bytes "failed to send transaction to network: ")
    pure (sent (node.tx_hash signed) (bytes "Transaction sent successfully to Ethereum network"))

  unfoldable pub send_ethereum_transaction :
      SendTransactionRequest → Checked SendTransactionResponse
  send_ethereum_transaction req =
      if not (is_empty req.tx_data) then send_tx_data req else send_fields req

  -- `s[:8]`, which panics on a shorter text.
  abbrev first_eight : Text → Act Ending (Unit {0}) Text
  first_eight (a ∷ b ∷ c ∷ d ∷ e ∷ f ∷ g ∷ h ∷ _) = pure (a ∷ b ∷ c ∷ d ∷ e ∷ f ∷ g ∷ h ∷ [])
  first_eight _ = throw panic

  unfoldable pub send_bitcoin_transaction :
      SendTransactionRequest → Act Ending (Unit {0}) SendTransactionResponse
  send_bitcoin_transaction req = do
    value ← or_fail (value_in req.value) failed
    to_sign ←
        or_fail
          (failing (node.new_btc_tx req.from req.to value false)
            (bytes "failed to create Bitcoin transaction: "))
          failed
    or_fail
        (failing (node.send_btc_tx to_sign req.signature)
          (bytes "failed to send Bitcoin transaction: "))
        failed
    start ← first_eight req.from
    pure (
        sent (bytes "btc_tx_sent_" ++ start)
          (bytes "Transaction sent successfully to Bitcoin network"))

-- A handler that did not reply: an error that was answered, or a panic.
pub data Stopped : Type 0 where
  answered : HttpError → Stopped
  crashed : Stopped

abbrev ending : Ending → Stopped
ending (failed e) =
    answered (record { status = 500; message = bytes "failed to send transaction: " ++ e })
ending panic = crashed

module _ {Blob : Type 0} (st : Storage Blob) ⦃codec : Codec Blob (List CosignEvent)⦄ (node : Node)
    (ethereum_rpc : Text) where
  abbrev sends : SendTransactionRequest → Act Stopped st.State SendTransactionResponse
  sends req =
      if is_ethereum (to_lower req.network)
      then or_fail (lift (send_ethereum_transaction node ethereum_rpc req tt).0)
          (λ e. ending (failed e))
      else (if is_bitcoin (to_lower req.network)
          then or_fail (lift (send_bitcoin_transaction node ethereum_rpc req tt).0) ending
          else throw (answered (unsupported req.network)))

  -- The event of the history: what is not named is empty.
  abbrev pub broadcast_event : SendTransactionRequest → SendTransactionResponse → CosignEvent
  broadcast_event req resp = record {
    id = [];
    role = bytes "broadcast";
    status = bytes "broadcast";
    network = to_lower req.network;
    index = 0;
    escrow = [];
    to = req.to;
    amount = req.value;
    hash = [];
    signature = [];
    tx_data = [];
    tx_hash = resp.tx_hash;
    failure = [];
    escrow_id = [];
    public_key = [];
    created_at = 0;
  }

  abbrev records : CosignEvent → ℕ → List ℕ → Act Stopped st.State (Unit {0})
  records ev now drawn s = (ok tt, record_cosign st ev now drawn s)

  unfoldable pub send_transaction :
      Result Error SendTransactionRequest
      → ℕ
      → List ℕ
      → Act Stopped st.State (Reply SendTransactionResponse)
  send_transaction body now drawn = do
    req ←
        or_fail (lift body)
          (λ e. answered (record { status = 400; message = bytes "invalid request body: " ++ e }))
    or_fail
        (reject_if (is_empty req.network || is_empty req.signature) 400
          (bytes "network and signature are required"))
        answered
    or_fail
        (reject_if
          (is_empty req.tx_data && (is_empty req.from || is_empty req.to || is_empty req.value)) 400
          (bytes "from, to and value are required when tx_data is absent"))
        answered
    resp ← sends req
    records (broadcast_event req resp) now drawn
    pure (content resp)
