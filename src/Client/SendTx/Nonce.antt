-- ===== src/Client/SendTx/Nonce.antt =====
-- client/tx.go and client/send_tx.go: the nonce that is signed and the nonce that is sent.
use signature_escrow.Text.{Text}
use signature_escrow.Client.Node.{Node}
