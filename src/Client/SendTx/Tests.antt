-- ===== src/Client/SendTx/Tests.antt =====
-- A transfer that is sent by its fields, to a node whose next nonce is 3.
use signature_escrow.Common.{◌≡◌, refl, [], ◌∷◌}
use signature_escrow.Text.{bytes}
use signature_escrow.Act.{err}
use signature_escrow.Client.Int64.{pos}
use signature_escrow.Client.NodeSample.{sample_node}
use signature_escrow.Client.SendTx.{
  SendTransactionRequest, SendTransactionResponse, parse_decimal, digits_from,
  send_bitcoin_transaction, panic,
}

abbrev request : SendTransactionRequest
request = record {
  network = bytes "eth";
  from = bytes "a";
  to = bytes "b";
  value = bytes "7";
  gas_price = [];
  gas_limit = [];
  signature = bytes "2a";
  chain_id = pos 0;
  node_url = [];
  tx_data = [];
}

abbrev response : SendTransactionResponse
response = record {
  status = bytes "sent";
  tx_hash = 42 ∷ [];
  message = bytes "Transaction sent successfully to Ethereum network";
}

-- A sender of fewer than eight bytes panics once the transaction is sent.
test_panic : (send_bitcoin_transaction sample_node [] request tt).0 ≡ err panic
unfolding send_bitcoin_transaction parse_decimal digits_from bytes
test_panic = refl
