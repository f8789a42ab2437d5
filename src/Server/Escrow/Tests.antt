-- ===== src/Server/Escrow/Tests.antt =====
-- Two parties, alice and bob, that exchange signatures under the escrow "swap".
use signature_escrow.Common.{◌≡◌, ◌≢◌, refl, ap, inr, ◌⊎◌, arith, some, none, [], ◌∷◌}
use signature_escrow.Text.{Text, bytes, ◌==◌}
use signature_escrow.Text.Hex.{hex_decode}
use signature_escrow.Act.{ok}
use signature_escrow.Storage.{load, save}
use signature_escrow.Storage.Memory.{Values, assign}
use signature_escrow.Http.{content}
use signature_escrow.Validation.{Bytes, validate, frost}
use signature_escrow.Server.Sample.{
  Encoded, pollination, sample_store, empty, with_value, sample_sigs, pollination_codec,
}
use signature_escrow.Server.Escrow.{
  Flower, Pollination, complete, pollinate, add_flower, escrow, escrow_check, get_pollination,
  put_pollination, deposit,
}
use signature_escrow.Server.Escrow.Release.{after_deposit, Holds, Serves, escrow_releases}
use signature_escrow.Server.Escrow.Fairness.{escrow_fair, escrow_check_sound}
use signature_escrow.Server.Escrow.Request.{
  EscrowRequest, validate_pub, decode_pub, decode_hash, decode_sig, parse_escrow_request,
}
use signature_escrow.Server.Escrow.Slots.{Keeps, add_flower-Keeps}

abbrev swap_id : Text
swap_id = bytes "swap"

abbrev alice : Text
alice = bytes "alice"

abbrev bob : Text
bob = bytes "bob"

-- Alice's signature is good for bob's key and hash, and bob's for alice's.
abbrev alice_flower : Flower
alice_flower = record {
  id = swap_id;
  alg = frost;
  pub_key = 1 ∷ [];
  hash = 11 ∷ [];
  sig = 2 ∷ 22 ∷ [];
  depositor = [];
}

abbrev bob_flower : Flower
bob_flower = record {
  id = swap_id;
  alg = frost;
  pub_key = 2 ∷ [];
  hash = 22 ∷ [];
  sig = 1 ∷ 11 ∷ [];
  depositor = bob;
}

abbrev bob_alone : Pollination
bob_alone = record { flower1 = some bob_flower; flower2 = none }

abbrev both : Pollination
both = record {
  flower1 = some bob_flower;
  flower2 = some (record alice_flower { depositor = alice });
}

-- Bob has deposited.
abbrev begun : Values Encoded
begun = with_value swap_id (pollination bob_alone) empty

abbrev answered : Values Encoded
answered = after_deposit sample_store sample_sigs alice_flower alice begun

test_escrow :
    (escrow sample_store sample_sigs (ok alice_flower) alice begun).0
    ≡ ok (content (complete (1 ∷ 11 ∷ [])))
unfolding escrow deposit get_pollination put_pollination load save assign validate pollinate
    add_flower bytes ◌==◌
test_escrow = refl

test_stored_before : get_pollination sample_store swap_id begun ≡ ok (some bob_alone)
unfolding get_pollination load assign bytes ◌==◌
test_stored_before = refl

test_stored : get_pollination sample_store swap_id answered ≡ ok (some both)
unfolding escrow deposit get_pollination put_pollination load save assign validate pollinate
    add_flower bytes ◌==◌
test_stored = refl

keys_differ : bob_flower.pub_key ≢ alice_flower.pub_key
keys_differ = λ e. ground (arith, e)

named : alice ≢ []
unfolding bytes
named = λ e. ground (arith, e)

bob_named : bob ≢ []
unfolding bytes
bob_named = λ e. ground (arith, e)

escrow_releases_example :
    (q : Pollination) × (g : Flower) × (get_pollination sample_store swap_id answered ≡ ok (some q))
    × Holds q (record alice_flower { depositor = alice }) g
    × ((1 ∷ 11 ∷ []) ≡ g.sig)
    × Serves sample_sigs (record alice_flower { depositor = alice }) g
    × Serves sample_sigs g (record alice_flower { depositor = alice })
escrow_releases_example =
    escrow_releases sample_store sample_sigs alice_flower alice begun (1 ∷ 11 ∷ []) test_escrow

escrow_fair_example :
    escrow_check sample_store sample_sigs (ok (swap_id, bytes "02")) bob answered
    ≡ (ok (content (complete (2 ∷ 22 ∷ []))), answered)
unfolding bytes hex_decode
escrow_fair_example =
    escrow_fair sample_store sample_sigs alice_flower alice begun (1 ∷ 11 ∷ []) bob_alone both
      bob_flower (bytes "02") test_escrow named test_stored_before bob_named test_stored
      (inr (refl, keys_differ)) refl refl refl

test_check :
    (escrow_check sample_store sample_sigs (ok (swap_id, bytes "02")) bob answered).0
    ≡ ok (content (complete (2 ∷ 22 ∷ [])))
test_check = ap (λ r. r.0) escrow_fair_example

abbrev alice_sig : Bytes
alice_sig = 2 ∷ 22 ∷ []

escrow_check_sound_example :
    (f : Flower) × (g : Flower) × (get_pollination sample_store swap_id answered
      ≡ ok (some (record { flower1 = some f; flower2 = some g })))
    × Serves sample_sigs f g
    × Serves sample_sigs g f
    × (((f.pub_key ≡ 2 ∷ []) × ((f.depositor ≡ []) ⊎ (f.depositor ≡ bob)) × (alice_sig ≡ g.sig))
        ⊎ ((g.pub_key ≡ 2 ∷ []) × ((g.depositor ≡ []) ⊎ (g.depositor ≡ bob)) × (alice_sig ≡ f.sig))
        ⊎ ((f.pub_key ≢ 2 ∷ []) × (g.pub_key ≢ 2 ∷ []) × (alice_sig ≡ [])))
unfolding bytes hex_decode
escrow_check_sound_example =
    escrow_check_sound sample_store sample_sigs swap_id (bytes "02") (2 ∷ []) bob answered alice_sig
      refl test_check

abbrev alice_named : Flower
alice_named = record alice_flower { depositor = alice }

test_add : add_flower bob_alone alice_named ≡ ok both
unfolding add_flower bytes ◌==◌
test_add = refl

add_flower-Keeps_example :
    Keeps alice_named (some bob_flower) (some bob_flower)
    × Keeps alice_named none (some alice_named)
add_flower-Keeps_example = add_flower-Keeps bob_alone both alice_named test_add

abbrev digits : Text
digits = bytes "0505050505050505050505050505050505050505050505050505050505050505"

abbrev decoded_digits : Bytes
decoded_digits =
    5 ∷ 5 ∷ 5 ∷ 5 ∷ 5 ∷ 5 ∷ 5 ∷ 5 ∷ 5 ∷ 5 ∷ 5 ∷ 5 ∷ 5 ∷ 5 ∷ 5 ∷ 5 ∷ 5 ∷ 5 ∷ 5 ∷ 5 ∷ 5 ∷ 5 ∷ 5 ∷ 5
    ∷ 5 ∷ 5 ∷ 5 ∷ 5 ∷ 5 ∷ 5 ∷ 5 ∷ 5 ∷ []

abbrev request : EscrowRequest
request = record {
  alg = frost;
  id = swap_id;
  pub_hex = digits;
  hash_hex = digits;
  sig_hex = bytes "0A";
}

abbrev parsed : Flower
parsed = record {
  id = swap_id;
  alg = frost;
  pub_key = decoded_digits;
  hash = decoded_digits;
  sig = 10 ∷ [];
  depositor = [];
}

test_parse : parse_escrow_request (ok request) ≡ ok parsed
unfolding parse_escrow_request decode_pub decode_hash decode_sig validate_pub hex_decode bytes ◌==◌
test_parse = refl
