-- ===== src/Client/Sig.antt =====
-- client/sig.go: a signature of the escrow is put into the form of an Ethereum transaction. What
-- mpc/mpccmp makes of the parsed signature is a parameter.
use signature_escrow.Common.{not, some, ◌++◌, nat_eq, length}
use signature_escrow.Text.{Text, bytes}
use signature_escrow.Text.Hex.{hex_encode, hex_decode}
use signature_escrow.Text.Decimal.{print_decimal}
use signature_escrow.Validation.{Bytes}
use signature_escrow.Act.{Result, ◌>>=◌, ◌>>◌}
use signature_escrow.Storage.{Error}
use signature_escrow.Http.{Reply, respond_ok, reject_if, decoded}
use signature_escrow.Client.Balance.{Stateless}
use signature_escrow.Client.Withdrawal.Sign.{server_error, bad_request}

module _ {Signature : Type 0} (from_sig_byte : Bytes → Result Error Signature)
    (sig_ethereum : Signature → Result Error Bytes) where
  unfoldable pub sig_to_ethereum : Result Error Text → Stateless (Reply Text)
  sig_to_ethereum body = do
    signature ← decoded body
    raw ← bad_request (hex_decode signature) (bytes "invalid signature hex: ")
    reject_if (not (nat_eq (length raw) 65)) 400
        (bytes "expected 65-byte CMP signature (33B R + 32B S), got " ++ print_decimal (length raw))
    sig ← bad_request (from_sig_byte raw) (bytes "failed to parse CMP signature: ")
    eth_sig ← server_error (sig_ethereum sig) (bytes "failed to convert: ")
    respond_ok (some (hex_encode eth_sig))
