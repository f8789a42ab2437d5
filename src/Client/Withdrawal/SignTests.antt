-- ===== src/Client/Withdrawal/SignTests.antt =====
-- A co-signature of the one transaction of the sample node, whose hash is the byte 5.
use signature_escrow.Common.{◌≡◌, refl, true, false, some, Option, []}
use signature_escrow.Text.{bytes, ◌==◌, trim_prefix, strip, equal_fold, to_lower, lower_byte}
use signature_escrow.Text.Hex.{hex_encode, hex_decode}
use signature_escrow.Validation.{Bytes}
use signature_escrow.Act.{Result, ok, err}
use signature_escrow.Storage.{Error}
use signature_escrow.Client.Int64.{pos}
use signature_escrow.Client.Node.{Transaction}
use signature_escrow.Client.NodeSample.{sample_node}
use signature_escrow.Client.Sample.{Encoded, sample_store, empty, events_codec}
use signature_escrow.Client.Withdrawal.{
  AcceptWithdrawalTxRequest, State, admit, enter, already_signed,
}
use signature_escrow.Client.Cosign.{load_cosign_history}
use signature_escrow.Storage.{load}
use signature_escrow.Client.Withdrawal.Sign.{
  Mpc, Incomplete, Signed, cosign, cosign_ecdsa, verify_tx_data,
}
use signature_escrow.Client.Withdrawal.Handlers.{accept_withdrawal_tx}
use signature_escrow.Client.Withdrawal.Verified.{accept_withdrawal_tx_verified}

-- The signature of a hash is the hash.
abbrev sample_mpc : Mpc Encoded
sample_mpc = record {
  Config = Unit {0};
  PreSign = Unit {0};
  TaprootConfig = Unit {0};
  Message = Unit {0};
  Signature = Bytes;
  config_unmarshal = λ o. ok tt;
  presign_unmarshal = λ o. ok tt;
  presign_marshal = λ p. err (bytes "cbor");
  taproot_unmarshal = λ b. ok tt;
  online_inc = λ c p h. ok tt;
  online_cosign = λ c p h m. ok h;
  msg_to_hex = λ m. ok [];
  hex_to_msg = λ t. ok tt;
  get_sig_byte = λ s. ok s;
  sig_ethereum = λ s. ok s;
  frost_inc = λ c h. ok tt;
  frost_cosign = λ c h. ok h;
}

abbrev request : AcceptWithdrawalTxRequest
request = record {
  algorithm = bytes "ecdsa";
  name = bytes "eth/1";
  escrow_address = bytes "e";
  my_id = bytes "m";
  another = bytes "n";
  hash_tx = bytes "05";
  to = [];
  amount = [];
  tx_data = bytes "01";
  escrow_id = bytes "w";
}

abbrev start : State sample_store
start = ((λ id. false), empty)

abbrev message : Option (Result Error Incomplete)
message = some (ok (record { inc_sig = []; hash_tx = bytes "05" }))

abbrev signed : Signed
signed = record { complete = bytes "05"; escrow = bytes "05"; hash = bytes "05" }

test_accept :
    (accept_withdrawal_tx sample_store sample_mpc sample_node
      (ok request)
      (ok tt)
      message
      100
      []
      start).0
    ≡ ok signed
unfolding accept_withdrawal_tx admit enter cosign cosign_ecdsa verify_tx_data bytes ◌==◌ hex_decode
    hex_encode trim_prefix strip equal_fold to_lower lower_byte already_signed load_cosign_history
    load
test_accept = refl

ecdsa : (request.algorithm == bytes "ecdsa") ≡ true
unfolding bytes ◌==◌
ecdsa = refl

accept_withdrawal_tx_verified_example :
    (raw : Bytes) × (tx : Transaction) × (config : Unit {0}) × (presign : Unit {0}) × (inc : Unit
      {0})
    × (sig : Bytes) × (hex_decode (trim_prefix request.tx_data (bytes "0x")) ≡ ok raw)
    × (sample_node.unmarshal_binary raw ≡ ok tx)
    × (sample_mpc.online_cosign config presign (sample_node.signing_hash (pos 1) tx) inc ≡ ok sig)
    × (complete : Bytes) × (sample_mpc.sig_ethereum sig ≡ ok complete)
    × (signed.complete ≡ hex_encode complete)
accept_withdrawal_tx_verified_example =
    accept_withdrawal_tx_verified sample_store sample_mpc sample_node request (ok tt) message 100 []
      start signed ecdsa test_accept
