-- ===== src/Server/Escrow/Exchange/Tests.antt =====
-- bob and alice exchange two signatures under the id "swap".
use signature_escrow.Common.{◌≡◌, ◌≢◌, refl, false, none, [], ◌∷◌, arith}
use signature_escrow.Text.{Text, bytes, ◌==◌, is_empty}
use signature_escrow.Text.Hex.{hex_decode}
use signature_escrow.Act.{ok}
use signature_escrow.Storage.{load, save}
use signature_escrow.Http.{content}
use signature_escrow.Validation.{validate, frost}
use signature_escrow.Server.Sample.{sample_store, empty, sample_sigs, pollination_codec}
use signature_escrow.Server.Escrow.{
  Flower, pending, complete, get_pollination, put_pollination, escrow, escrow_check,
}
use signature_escrow.Server.Escrow.Release.{Serves}
use signature_escrow.Server.Escrow.Exchange.{
  half, full, after_first, after_second, escrow_completes,
}

abbrev bob : Text
bob = bytes "bob"

abbrev alice : Text
alice = bytes "alice"

abbrev bobs : Flower
bobs = record {
  id = bytes "swap";
  alg = frost;
  pub_key = 2 ∷ [];
  hash = 22 ∷ [];
  sig = 1 ∷ 11 ∷ [];
  depositor = [];
}

abbrev alices : Flower
alices = record {
  id = bytes "swap";
  alg = frost;
  pub_key = 1 ∷ [];
  hash = 11 ∷ [];
  sig = 2 ∷ 22 ∷ [];
  depositor = [];
}

keys_apart : bobs.pub_key ≢ alices.pub_key
keys_apart = λ e. ground (arith, e)

callers_apart : bob ≢ alice
unfolding bytes
callers_apart = λ e. ground (arith, e)

test-Serves : Serves sample_sigs bobs alices × Serves sample_sigs alices bobs
unfolding validate bytes ◌==◌
test-Serves = (refl, refl)

test_fresh : get_pollination sample_store bobs.id empty ≡ ok none
unfolding get_pollination load
test_fresh = refl

test_writes :
    ((put_pollination sample_store bobs.id
        (half sample_store sample_sigs bobs alices bob alice empty)
        empty).0
      ≡ ok tt)
    × ((put_pollination sample_store bobs.id
          (full sample_store sample_sigs bobs alices bob alice empty)
          (after_first sample_store sample_sigs bobs alices bob alice empty)).0
        ≡ ok tt)
unfolding put_pollination save
test_writes = (refl, refl)

test_text :
    (is_empty (bytes "swap") ≡ false)
    × (is_empty (bytes "02") ≡ false)
    × (hex_decode (bytes "02") ≡ ok (2 ∷ []))
unfolding bytes hex_decode
test_text = (refl, refl, refl)

escrow_completes_example :
    (escrow sample_store sample_sigs (ok bobs) bob empty
      ≡ (ok (content pending), after_first sample_store sample_sigs bobs alices bob alice empty))
    × (escrow sample_store sample_sigs
          (ok alices)
          alice
          (after_first sample_store sample_sigs bobs alices bob alice empty)
        ≡ (
          ok (content (complete (1 ∷ 11 ∷ []))),
          after_second sample_store sample_sigs bobs alices bob alice empty,
        ))
    × (escrow_check sample_store sample_sigs
          (ok (bytes "swap", bytes "02"))
          bob
          (after_second sample_store sample_sigs bobs alices bob alice empty)
        ≡ (
          ok (content (complete (2 ∷ 22 ∷ []))),
          after_second sample_store sample_sigs bobs alices bob alice empty,
        ))
escrow_completes_example =
    escrow_completes sample_store sample_sigs bobs alices bob alice empty (bytes "02") test_text.0
      refl keys_apart callers_apart test-Serves.0 test-Serves.1 test_fresh test_writes.0
      test_writes.1 test_text.1 test_text.2
