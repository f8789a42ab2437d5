-- ===== src/Client/Tx/Shown.antt =====
-- client/tx.go: what decodeTx shows of the transaction that createTxHash made.
use signature_escrow.Common.{
  ℕ, ◌≡◌, ◌<◌, ◌%◌, refl, sym, ap, ◌∙◌, inl, inr, true, false, not, Bool-cases, none, some, [], ◌∷◌,
  arith, if◌then◌else◌, nat_eq,
}
use mathlib.Core.Option.{get_or}
use signature_escrow.Text.{Text, bytes, is_empty, to_lower, trim_prefix, strip}
use signature_escrow.Text.Hex.{hex_encode, digit, IsBytes, hex_decode-hex_encode}
use signature_escrow.Text.Decimal.{print_decimal}
use signature_escrow.Validation.{Bytes}
use signature_escrow.Act.{ok, Result-cases}
use signature_escrow.Http.{content}
use signature_escrow.Client.Int64.{pos, two_63}
use signature_escrow.Client.Erc20.{erc20_transfer_data, decode_erc20_transfer}
use signature_escrow.Client.Erc20.Roundtrip.{decode_erc20_transfer-erc20_transfer_data}
use signature_escrow.Client.Balance.{is_ethereum, rpc_url}
use signature_escrow.Client.Node.{Node, Transaction, or_default, uint64}
use signature_escrow.Client.Tx.{
  TxHashRequest, TxHashResponse, Decoded, eth_transaction, create_ethereum_tx_hash, create_tx_hash,
  decode_tx, wire_text, shown_transfer, gas_of,
}

-- No hex digit is an `x`.
digit-ne_x : (d : ℕ) → d < 16 → nat_eq b'x' (digit d) ≡ false
digit-ne_x d h = ground arith

strip-hex_encode : (bs : Bytes) → IsBytes bs → strip (bytes "0x") (hex_encode bs) ≡ none
unfolding strip bytes hex_encode
strip-hex_encode [] h = refl
strip-hex_encode (b ∷ bs) (small, h) = ground (arith, digit-ne_x (b % 16) (omega arith))

-- What was encoded has no prefix to trim.
trim_prefix-hex_encode :
    (bs : Bytes) → IsBytes bs → trim_prefix (hex_encode bs) (bytes "0x") ≡ hex_encode bs
unfolding trim_prefix
trim_prefix-hex_encode bs h = ap (λ o. get_or o (hex_encode bs)) (strip-hex_encode bs h)

no_transfer : decode_erc20_transfer [] ≡ none
unfolding decode_erc20_transfer
no_transfer = refl

module _ (node : Node) (ethereum_rpc : Text) where
  decode_tx-wire_text :
      (network : Text) (tx : Transaction) (b : Bytes)
      → node.marshal_binary tx ≡ ok b
      → is_empty (hex_encode b) ≡ false
      → (decode_tx node ethereum_rpc
          (ok (record { network = network; tx_data = hex_encode b }))
          tt).0
        ≡ ok (content (shown_transfer node ethereum_rpc tx (decode_erc20_transfer tx.payload)))
  unfolding decode_tx
  decode_tx-wire_text network tx b e named = ground (
    arith,
    named,
    trim_prefix-hex_encode b (node.marshal-IsBytes tx b e),
    hex_decode-hex_encode b (node.marshal-IsBytes tx b e),
    node.unmarshal-marshal tx b e,
  )

  -- What the acceptor is to see of a request.
  unfoldable pub Shows : TxHashRequest → ℕ → Decoded → Type 0
  Shows req amount d =
      (d.to ≡ node.address_hex (node.hex_to_address req.to))
      × (d.value ≡ print_decimal amount)
      × (d.gas ≡ uint64 (gas_of req))
      × (d.is_erc20 ≡ not (is_empty req.token))
      × (d.token ≡ (
          if is_empty req.token
          then none
          else some (node.address_hex (node.hex_to_address req.token))))

  shown_transaction :
      (req : TxHashRequest) (amount nonce price : ℕ)
      → req.amount ≡ pos amount
      → amount < two_63
      → Shows req amount (
          shown_transfer node ethereum_rpc
            (eth_transaction node ethereum_rpc req nonce price)
            (decode_erc20_transfer (eth_transaction node ethereum_rpc req nonce price).payload))
  unfolding Shows eth_transaction
  shown_transaction req amount nonce price wants fits = elim (Bool-cases (is_empty req.token)) [
    | inl native ↦ (
      ground (arith, native, no_transfer),
      ground (arith, native, wants, no_transfer),
      ground (arith, native, no_transfer),
      ground (arith, native, no_transfer),
      ground (arith, native, no_transfer),
    )
    | inr token ↦
        let back : decode_erc20_transfer (erc20_transfer_data (node.hex_to_address req.to) amount)
            ≡ some (node.hex_to_address req.to, amount) =
          decode_erc20_transfer-erc20_transfer_data (node.hex_to_address req.to) amount
            (node.hex_to_address-length req.to) (omega arith) in
        (
          ground (arith, token, wants, back),
          ground (arith, token, wants, back),
          ground (arith, token, wants, back),
          ground (arith, token, wants, back),
          ground (arith, token, wants, back),
        )
  ]

  created :
      (req : TxHashRequest) (resp : TxHashResponse)
      → is_ethereum (to_lower req.network) ≡ true
      → (create_tx_hash node ethereum_rpc (ok req) tt).0 ≡ ok (content resp)
      → (nonce : ℕ) × (price : ℕ) × (node.pending_nonce_at (node.hex_to_address req.from)
          ≡ ok nonce)
        × (resp.hash
            ≡ hex_encode (
                node.signing_hash
                  (or_default req.chain_id (pos 1))
                  (eth_transaction node ethereum_rpc req nonce price)))
        × (resp.tx_data
            ≡ wire_text node ethereum_rpc
                (node.marshal_binary (eth_transaction node ethereum_rpc req nonce price)))
  unfolding create_tx_hash create_ethereum_tx_hash
  created req resp eth h =
      elim (Result-cases (node.pending_nonce_at (node.hex_to_address req.from))) [
        | inr (x, e) ↦ ground (arith, eth, h, e, Result-cases (node.dial (rpc_url ethereum_rpc)))
        | inl (nonce, e) ↦ elim (Result-cases node.suggest_gas_price) [
          | inr (x, f) ↦
              ground (arith, eth, h, e, f, Result-cases (node.dial (rpc_url ethereum_rpc)))
          | inl (price, f) ↦ (
            nonce,
            price,
            e,
            ground (arith, eth, h, e, f, Result-cases (node.dial (rpc_url ethereum_rpc))),
            ground (arith, eth, h, e, f, Result-cases (node.dial (rpc_url ethereum_rpc))),
          )
        ]
      ]

  -- The tx_data that createTxHash answers for an Ethereum transfer, where it is not empty, is
  -- decoded by decodeTx to the transfer that was asked for: the recipient and the amount of the
  -- request, for a token as for ether, with the token's contract where there is one, and none
  -- otherwise. Conditions: the amount is below 2^63, the node library decodes what it encoded, and
  -- its addresses have twenty bytes.
  pub decode_tx-create_tx_hash :
      (req : TxHashRequest) (resp : TxHashResponse) (amount : ℕ) (network : Text)
      → is_ethereum (to_lower req.network) ≡ true
      → req.amount ≡ pos amount
      → amount < two_63
      → (create_tx_hash node ethereum_rpc (ok req) tt).0 ≡ ok (content resp)
      → is_empty resp.tx_data ≡ false
      → (d : Decoded) × ((decode_tx node ethereum_rpc
            (ok (record { network = network; tx_data = resp.tx_data }))
            tt).0
          ≡ ok (content d))
        × Shows req amount d
  decode_tx-create_tx_hash req resp amount network eth wants fits h named =
      let (nonce, price, _, _, wired) = created req resp eth h in
      let tx : Transaction = eth_transaction node ethereum_rpc req nonce price in
      elim (Result-cases (node.marshal_binary tx)) [
        | inr (x, e) ↦ ground (arith, wired, e, named)
        | inl (b, e) ↦
            let same : resp.tx_data ≡ hex_encode b = ground (arith, wired, e) in
            (
              shown_transfer node ethereum_rpc tx (decode_erc20_transfer tx.payload),
              ap
                    (λ t.
                      (decode_tx node ethereum_rpc (ok (record { network = network; tx_data = t }))
                        tt).0)
                    same
                  ∙ decode_tx-wire_text network tx b e (ap is_empty (sym same) ∙ named),
              shown_transaction req amount nonce price wants fits,
            )
      ]
