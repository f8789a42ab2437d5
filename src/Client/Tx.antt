-- ===== src/Client/Tx.antt =====
-- client/tx.go: an unsigned transaction is made and hashed, and shown to who is to co-sign it.
pub mod Shown
mod Tests
use signature_escrow.Common.{
  ℕ, ◌+◌, ◌≡◌, Bool, true, false, not, ◌&&◌, ◌||◌, Option, none, some, List, [], ◌∷◌, ◌++◌,
  if◌then◌else◌,
}
use signature_escrow.Text.{Text, bytes, is_empty, to_lower, trim_prefix}
use signature_escrow.Text.Hex.{hex_encode, hex_decode}
use signature_escrow.Text.Decimal.{print_decimal}
use signature_escrow.Validation.{Bytes}
use signature_escrow.Act.{Result, ok, err, Act, pure, throw, lift, or_fail, continue, ◌>>=◌, ◌>>◌}
use signature_escrow.Storage.{Error}
use signature_escrow.Http.{
  HttpError, Reply, respond_ok, respond_error, reject_if, decoded, or_respond,
}
use signature_escrow.Client.Int64.{ℤ, pos, negsuc, is_positive}
use signature_escrow.Client.Erc20.{erc20_transfer_data, decode_erc20_transfer}
use signature_escrow.Client.Balance.{
  Checked, Stateless, requires, failing, answered, by_network, rpc_url,
}
use signature_escrow.Client.Node.{Node, Transaction, new_transaction, uint64, or_default, is_zero}

pub record TxHashRequest : Type 0 where
  pub network : Text
  pub from : Text
  pub to : Text
  pub amount : ℤ
  pub gas_limit : ℤ
  pub chain_id : ℤ
  pub token : Text

pub record TxHashResponse : Type 0 where
  pub network : Text
  pub hash : Text
  pub tx_data : Text

pub record TxDecodeRequest : Type 0 where
  pub network : Text
  pub tx_data : Text

-- The fields of the reply of decodeTx; `token` is there for an ERC-20 transfer only.
pub record Decoded : Type 0 where
  pub to : Text
  pub value : Text
  pub nonce : ℕ
  pub gas : ℕ
  pub gas_price : Text
  pub is_erc20 : Bool
  pub token : Option Text

-- `big.NewInt(req.Amount)`, which is positive here.
abbrev pub amount_of : ℤ → ℕ
amount_of x = uint64 x

abbrev pub gas_of : TxHashRequest → ℤ
gas_of req = or_default req.gas_limit (if is_empty req.token then pos 21000 else pos 65000)

-- big.Int.String
abbrev print_int : ℤ → Text
print_int (pos n) = print_decimal n
print_int (negsuc n) = b'-' ∷ print_decimal (n + 1)

module _ (node : Node) (ethereum_rpc : Text) where
  -- An ERC-20 transfer sends nothing to the token's contract, with the transfer as its call data.
  unfoldable pub eth_transaction : TxHashRequest → ℕ → ℕ → Transaction
  eth_transaction req nonce gas_price =
      if is_empty req.token
      then new_transaction nonce (node.hex_to_address req.to) (amount_of req.amount)
          (uint64 (gas_of req)) (pos gas_price) []
      else new_transaction nonce (node.hex_to_address req.token) 0 (uint64 (gas_of req))
          (pos gas_price) (erc20_transfer_data (node.hex_to_address req.to) (amount_of req.amount))

  -- An error of MarshalBinary is only logged.
  abbrev pub wire_text : Result Error Bytes → Text
  wire_text (err _) = []
  wire_text (ok b) = hex_encode b

  unfoldable pub create_ethereum_tx_hash : TxHashRequest → Checked TxHashResponse
  create_ethereum_tx_hash req = do
    requires (node.is_hex_address req.from) (bytes "invalid Ethereum from address: " ++ req.from)
    requires (node.is_hex_address req.to) (bytes "invalid Ethereum to address: " ++ req.to)
    failing (node.dial (rpc_url ethereum_rpc)) (bytes "failed to connect to Ethereum client: ")
    nonce ←
        failing (node.pending_nonce_at (node.hex_to_address req.from))
          (bytes "failed to get nonce: ")
    gas_price ← failing node.suggest_gas_price (bytes "failed to get gas price: ")
    requires (is_empty req.token || node.is_hex_address req.token)
        (bytes "invalid token contract address: " ++ req.token)
    let tx = eth_transaction req nonce gas_price
    pure (record {
      network = req.network;
      hash = hex_encode (node.signing_hash (or_default req.chain_id (pos 1)) tx);
      tx_data = wire_text (node.marshal_binary tx);
    })

  abbrev first_to_sign : TxHashRequest → List Text → Checked TxHashResponse
  first_to_sign req [] = throw (bytes "no hash to sign in Bitcoin transaction")
  first_to_sign req (h ∷ _) = do
    hash ← failing (hex_decode h) (bytes "failed to decode Bitcoin transaction hash: ")
    pure (record { network = req.network; hash = hex_encode hash; tx_data = h })

  unfoldable pub create_bitcoin_tx_hash : TxHashRequest → Checked TxHashResponse
  create_bitcoin_tx_hash req = do
    to_sign ←
        failing (node.new_btc_tx req.from req.to (amount_of req.amount) true)
          (bytes "failed to create Bitcoin transaction: ")
    first_to_sign req to_sign

  unfoldable pub create_tx_hash : Result Error TxHashRequest → Stateless (Reply TxHashResponse)
  create_tx_hash body = do
    req ← decoded body
    reject_if
        (is_empty req.network
          || is_empty req.from
          || is_empty req.to
          || not (is_positive req.amount))
        400 (bytes "network, from, to and amount are required")
    by_network req.network
        (answered (bytes "failed to create tx hash: ") (create_ethereum_tx_hash req))
        (answered (bytes "failed to create tx hash: ") (create_bitcoin_tx_hash req))

  abbrev to_text : Option Bytes → Text
  to_text none = []
  to_text (some a) = node.address_hex a

  abbrev shown_transfer : Transaction → Option (Bytes × ℕ) → Decoded
  shown_transfer tx none = record {
    to = to_text tx.to;
    value = print_decimal tx.value;
    nonce = tx.nonce;
    gas = tx.gas;
    gas_price = print_int tx.gas_price;
    is_erc20 = false;
    token = none;
  }
  shown_transfer tx (some (recipient, amount)) = record {
    to = node.address_hex recipient;
    value = print_decimal amount;
    nonce = tx.nonce;
    gas = tx.gas;
    gas_price = print_int tx.gas_price;
    is_erc20 = true;
    token = some (to_text tx.to);
  }

  unfoldable pub decode_tx : Result Error TxDecodeRequest → Stateless (Reply Decoded)
  decode_tx body = do
    req ← or_respond (lift body) 400 (bytes "invalid request")
    reject_if (is_empty req.tx_data) 400 (bytes "tx_data is required")
    raw ←
        or_respond (lift (hex_decode (trim_prefix req.tx_data (bytes "0x")))) 400
          (bytes "invalid tx_data hex")
    tx ←
        or_fail (lift (node.unmarshal_binary raw))
          (λ e. record { status = 400; message = bytes "decode tx_data: " ++ e })
    respond_ok (some (shown_transfer tx (decode_erc20_transfer tx.payload)))

  -- The reply is the price in wei.
  unfoldable pub gas_price : Stateless (Reply Text)
  gas_price = do
    or_fail (lift (node.dial (rpc_url ethereum_rpc)))
        (λ e. record { status = 500; message = bytes "rpc dial: " ++ e })
    price ←
        or_fail (lift node.suggest_gas_price)
          (λ e. record { status = 500; message = bytes "gas price: " ++ e })
    respond_ok (some (print_decimal price))
