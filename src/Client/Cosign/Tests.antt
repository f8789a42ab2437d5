-- ===== src/Client/Cosign/Tests.antt =====
-- A history that begins empty.
use signature_escrow.Common.{◌≤◌, length, arith}
use signature_escrow.Storage.{load}
use signature_escrow.Client.Sample.{sample_store, empty, events_codec}
use signature_escrow.Client.Cosign.{cosign_history_max, load_cosign_history}

test_empty : length (load_cosign_history sample_store empty) ≤ cosign_history_max
unfolding load_cosign_history load
test_empty = omega arith
