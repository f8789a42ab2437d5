-- ===== src/Client/Node.antt =====
-- What client/tx.go and client/send_tx.go use of go-ethereum (common, core/types, ethclient) and of
-- gobcy. An address is its twenty bytes, a chain id an int64.
use signature_escrow.Common.{
  ℕ, ◌-◌, ◌≡◌, Bool, false, nat_eq, if◌then◌else◌, Option, some, List, [], length,
}
use signature_escrow.Text.{Text}
use signature_escrow.Text.Hex.{IsBytes}
use signature_escrow.Validation.{Bytes}
use signature_escrow.Act.{Result, ok}
use signature_escrow.Storage.{Error}
use signature_escrow.Client.Int64.{ℤ, pos, negsuc, two_64}

-- types.Transaction: `to` is `none` where a contract is created, and `signature` is empty where
-- there is none.
pub record Transaction : Type 0 where
  pub nonce : ℕ
  pub to : Option Bytes
  pub value : ℕ
  pub gas : ℕ
  pub gas_price : ℤ
  pub payload : Bytes
  pub signature : Bytes

-- The wire form of a transaction is read back as the transaction.
pub record Node : Type 0 where
  pub is_hex_address : Text → Bool
  pub hex_to_address : Text → Bytes
  pub hex_to_address-length : (t : Text) → length (hex_to_address t) ≡ 20
  pub address_hex : Bytes → Text
  pub dial : Text → Result Error (Unit {0})
  pub pending_nonce_at : Bytes → Result Error ℕ
  pub nonce_at : Bytes → Result Error ℕ
  pub suggest_gas_price : Result Error ℕ
  pub network_id : Result Error ℕ
  pub signing_hash : ℤ → Transaction → Bytes
  pub signing_hash-IsBytes : (chain : ℤ) (tx : Transaction) → IsBytes (signing_hash chain tx)
  pub with_signature : ℤ → Transaction → Bytes → Result Error Transaction
  pub tx_hash : Transaction → Text
  pub send_transaction : Transaction → Result Error (Unit {0})
  pub marshal_binary : Transaction → Result Error Bytes
  pub unmarshal_binary : Bytes → Result Error Transaction
  pub unmarshal-marshal :
      (tx : Transaction) (b : Bytes) → marshal_binary tx ≡ ok b → unmarshal_binary b ≡ ok tx
  pub marshal-IsBytes : (tx : Transaction) (b : Bytes) → marshal_binary tx ≡ ok b → IsBytes b
  -- gobcy: the hashes to sign of a new transaction, and what it is sent as.
  pub new_btc_tx : Text → Text → ℕ → Bool → Result Error (List Text)
  pub send_btc_tx : List Text → Text → Result Error (Unit {0})

-- `uint64(x)`
abbrev pub uint64 : ℤ → ℕ
uint64 (pos n) = n
uint64 (negsuc n) = two_64 - 1 - n

abbrev pub is_zero : ℤ → Bool
is_zero (pos n) = nat_eq n 0
is_zero (negsuc _) = false

abbrev pub or_default : ℤ → ℤ → ℤ
or_default x d = if is_zero x then d else x

-- types.NewTransaction
abbrev pub new_transaction : ℕ → Bytes → ℕ → ℕ → ℤ → Bytes → Transaction
new_transaction nonce to value gas gas_price payload = record {
  nonce = nonce;
  to = some to;
  value = value;
  gas = gas;
  gas_price = gas_price;
  payload = payload;
  signature = [];
}
