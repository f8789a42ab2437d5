-- ===== src/Server/Index/Tests.antt =====
-- Two ids that are added to an empty index at the same time.
use signature_escrow.Common.{◌≡◌, ◌≢◌, refl, false, [], ◌∷◌, ◌++◌, arith}
use signature_escrow.Text.{Text, bytes}
use signature_escrow.Act.{ok}
use signature_escrow.Storage.{load, save}
use signature_escrow.Server.Sample.{sample_store, empty, ids_codec}
use signature_escrow.Server.Index.{contains, load_ids}
use signature_escrow.Server.Index.Race.{interleaved, write_id, interleaved_loses}

abbrev index : Text
index = bytes "mailbox/inbox/0xb2"

test_empty : load_ids sample_store index empty ≡ ok []
unfolding load_ids load
test_empty = refl

test_interleaved : (interleaved sample_store index (bytes "a") (bytes "b") empty).0 ≡ ok tt
unfolding interleaved write_id load_ids load save contains
test_interleaved = refl

apart : bytes "a" ≢ bytes "b"
unfolding bytes
apart = λ e. ground (arith, e)

absent : (contains [] (bytes "a") ≡ false) × (contains [] (bytes "b") ≡ false)
unfolding contains
absent = (refl, refl)

interleaved_loses_example :
    (load_ids sample_store index (interleaved sample_store index (bytes "a") (bytes "b") empty).1
      ≡ ok ([] ++ bytes "b" ∷ []))
    × (contains ([] ++ bytes "b" ∷ []) (bytes "a") ≡ false)
interleaved_loses_example =
    interleaved_loses sample_store index (bytes "a") (bytes "b") [] empty test_empty absent.0
      absent.1 apart test_interleaved
