-- ===== src/Client/Tx/Tests.antt =====
-- A token transfer and a native one, on a node whose wire form spells the transaction out.
use signature_escrow.Common.{◌≡◌, refl, true, false, [], arith}
use signature_escrow.Text.{bytes, is_empty, ◌==◌, to_lower, lower_byte}
use signature_escrow.Text.Hex.{hex_encode}
use signature_escrow.Act.{ok}
use signature_escrow.Http.{content}
use signature_escrow.Client.Int64.{pos}
use signature_escrow.Client.Erc20.{zeros, erc20_transfer_data, left_pad, bytes_within}
use signature_escrow.Client.Balance.{is_ethereum}
use signature_escrow.Client.NodeSample.{sample_node}
use signature_escrow.Client.Tx.{
  TxHashRequest, TxHashResponse, Decoded, create_tx_hash, create_ethereum_tx_hash, decode_tx,
  eth_transaction,
}
use signature_escrow.Client.Tx.Shown.{Shows, decode_tx-create_tx_hash}

abbrev request : TxHashRequest
request = record {
  network = bytes "eth";
  from = bytes "a";
  to = bytes "b";
  amount = pos 7;
  gas_limit = pos 0;
  chain_id = pos 0;
  token = bytes "t";
}

abbrev response : TxHashResponse
response = record { network = bytes "eth"; hash = bytes "05"; tx_data = bytes "01" }

created : (create_tx_hash sample_node [] (ok request) tt).0 ≡ ok (content response)
unfolding create_tx_hash create_ethereum_tx_hash bytes to_lower lower_byte ◌==◌ hex_encode
    eth_transaction zeros erc20_transfer_data left_pad bytes_within
created = refl

eth : is_ethereum (to_lower request.network) ≡ true
unfolding bytes to_lower lower_byte ◌==◌
eth = refl

has_tx_data : is_empty response.tx_data ≡ false
unfolding bytes
has_tx_data = refl

decode_tx-create_tx_hash_example :
    (d : Decoded) × ((decode_tx sample_node []
        (ok (record { network = bytes "eth"; tx_data = bytes "01" }))
        tt).0
      ≡ ok (content d))
    × Shows sample_node [] request 7 d
decode_tx-create_tx_hash_example =
    decode_tx-create_tx_hash sample_node [] request response 7 (bytes "eth") eth refl (omega arith)
      created has_tx_data
