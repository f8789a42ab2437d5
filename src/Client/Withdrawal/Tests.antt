-- ===== src/Client/Withdrawal/Tests.antt =====
-- Requests to co-sign the swap "w".
use signature_escrow.Common.{ℕ, ◌≡◌, ◌≢◌, refl, false, none, some, List, [], ◌∷◌, arith}
use signature_escrow.Text.{Text, bytes, ◌==◌, is_empty}
use signature_escrow.Act.{ok}
use signature_escrow.Storage.{load, save}
use signature_escrow.Client.Sample.{sample_store, empty, events_codec}
use signature_escrow.Client.Cosign.{
  CosignEvent, bounded, dated, load_cosign_history, cosign_history_key,
}
use signature_escrow.Client.Withdrawal.{
  AcceptWithdrawalTxRequest, mark, already_signed, State, enter, admit, finish, outcome_of,
}
use signature_escrow.Client.Withdrawal.Once.{
  HasFields, status_of, Event, begins, ends, run, admit_excludes,
}
use signature_escrow.Client.Withdrawal.Recorded.{recorded_excludes, frost_readmits}

abbrev request : AcceptWithdrawalTxRequest
request = record {
  algorithm = bytes "ecdsa";
  name = bytes "eth/1";
  escrow_address = bytes "e";
  my_id = bytes "m";
  another = bytes "n";
  hash_tx = bytes "h";
  to = [];
  amount = [];
  tx_data = bytes "d";
  escrow_id = bytes "w";
}

abbrev frost_request : AcceptWithdrawalTxRequest
frost_request = record request { algorithm = bytes "frost"; tx_data = [] }

abbrev idle : State sample_store
idle = ((λ id. false), empty)

fields : HasFields request
unfolding bytes ◌==◌
fields = (refl, refl, refl)

frost_fields : HasFields frost_request
unfolding bytes ◌==◌
frost_fields = (refl, refl, refl)

swap_named : is_empty (bytes "w") ≡ false
unfolding bytes
swap_named = refl

test_admit : (admit sample_store (ok request) idle).0 ≡ ok request
unfolding admit enter mark load_cosign_history load already_signed bytes ◌==◌
test_admit = refl

other_swap : bytes "v" ≢ bytes "w"
unfolding bytes
other_swap = λ e. ground (arith, e)

abbrev meanwhile : List Event
meanwhile = begins (ok frost_request) ∷ ends (bytes "v") none ∷ []

admit_excludes_example :
    status_of
      (admit sample_store
        (ok frost_request)
        (run sample_store meanwhile (admit sample_store (ok request) idle).1)).0
    ≡ 409
admit_excludes_example =
    admit_excludes sample_store request frost_request meanwhile idle test_admit swap_named
      (other_swap, tt) frost_fields refl

abbrev account : Text × ℕ
account = (bytes "eth", 1)

abbrev signed_event : CosignEvent
signed_event = record {
  id = [];
  role = bytes "acceptor";
  status = bytes "completed";
  network = bytes "eth";
  index = 1;
  escrow = bytes "e";
  to = [];
  amount = [];
  hash = bytes "h";
  signature = bytes "s";
  tx_data = bytes "d";
  tx_hash = [];
  failure = [];
  escrow_id = bytes "w";
  public_key = [];
  created_at = 0;
}

test_outcome : outcome_of request account (bytes "h") (bytes "s") 5 [] ≡ some (signed_event, 5, [])
unfolding outcome_of bytes ◌==◌
test_outcome = refl

test_taken :
    (save sample_store cosign_history_key
      (bounded (dated signed_event 5 [] ∷ load_cosign_history sample_store empty))
      empty).0
    ≡ ok tt
unfolding save
test_taken = refl

recorded_excludes_example :
    status_of
      (admit sample_store (ok request) (
        run sample_store meanwhile (
          finish sample_store
            (bytes "w")
            (outcome_of request account (bytes "h") (bytes "s") 5 [])
            idle))).0
    ≡ 409
recorded_excludes_example =
    recorded_excludes sample_store request request account (bytes "h") (bytes "s") 5 [] signed_event
      idle meanwhile test_outcome test_taken (omega arith) fields swap_named refl

test_unsigned : already_signed (bytes "w") (load_cosign_history sample_store empty) ≡ false
unfolding load_cosign_history load already_signed
test_unsigned = refl

frost_readmits_example :
    (admit sample_store (ok request) (
      finish sample_store
        (bytes "w")
        (outcome_of frost_request account (bytes "h") (bytes "s") 5 [])
        idle)).0
    ≡ ok request
frost_readmits_example =
    frost_readmits sample_store frost_request request account (bytes "h") (bytes "s") 5 [] idle refl
      test_unsigned fields swap_named refl
