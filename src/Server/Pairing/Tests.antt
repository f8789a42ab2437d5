-- ===== src/Server/Pairing/Tests.antt =====
-- alice asks for a pair with bob, bob accepts it, and alice deletes it.
use signature_escrow.Common.{◌≡◌, ◌⊎◌, refl, true, false, some, none, [], ◌∷◌, List, arith}
use signature_escrow.Text.{
  Text, bytes, to_lower, equal_fold, is_empty, ◌==◌, less, strip, trim_prefix, lower_byte,
}
use signature_escrow.Text.Bytes.{lacks}
use signature_escrow.Act.{ok, err}
use signature_escrow.Storage.{load, save}
use signature_escrow.Storage.Memory.{Values, assign}
use signature_escrow.Http.{content}
use signature_escrow.Server.Index.{
  load_ids, add_to_index, contains, remove_from_index, remove_found, store_filtered, without,
}
use signature_escrow.Server.Sample.{Encoded, sample_store, empty, pair_codec, ids_codec}
use signature_escrow.Server.Pairing.{
  Pair, PairResponse, pair_id, bare_address, pair_status_accepted, pair_status_pending, response_of,
  load_pair, store_pair, create_missing, pair_create, accept_found, pair_accept, delete_pair,
  delete_found, pair_delete,
}
use signature_escrow.Server.Pairing.Create.{after_create}
use signature_escrow.Server.Pairing.Accept.{pair_accept_sound}
use signature_escrow.Server.Pairing.Invariant.{
  IsKeyed, Request, create, accept, delete, serve, serve_all, serve_all-IsKeyed,
}
use signature_escrow.Server.Pairing.Transition.{serve_transition}

abbrev alice : Text
alice = bytes "0xa1"

abbrev bob : Text
bob = bytes "0xB2"

abbrev id : Text
id = bytes "a1_b2"

abbrev asked : Pair
asked = record {
  id = id;
  initiator = alice;
  partner = bytes "0xb2";
  status = pair_status_pending;
  created_at = 100;
}

-- The pair is stored, and alice and bob find it.
abbrev begun : Values Encoded
begun = after_create sample_store bob alice 100 empty

test_create :
    (pair_create sample_store (ok bob) alice 100 empty).0 ≡ ok (content (response_of asked))
unfolding pair_create create_missing load_pair store_pair load save assign add_to_index load_ids
    contains bytes equal_fold to_lower pair_id bare_address trim_prefix strip less ◌==◌ lower_byte
test_create = refl

test_absent : load_pair sample_store asked.id empty ≡ ok none
unfolding load_pair load
test_absent = refl

no_slash : (lacks b'/' alice ≡ true) × (lacks b'/' bob ≡ true) × (lacks b'/' id ≡ true)
unfolding bytes
no_slash = (refl, refl, refl)

test_begun : load_pair sample_store id begun ≡ ok (some asked)
unfolding pair_create create_missing load_pair store_pair load save assign add_to_index load_ids
    contains bytes equal_fold to_lower pair_id bare_address trim_prefix strip less ◌==◌ lower_byte
test_begun = refl

abbrev agreed : PairResponse
agreed = response_of (record asked { status = pair_status_accepted })

test_accept : (pair_accept sample_store (ok id) bob begun).0 ≡ ok (content agreed)
unfolding pair_accept accept_found pair_create create_missing load_pair store_pair load save assign
    add_to_index load_ids contains bytes equal_fold to_lower pair_id bare_address trim_prefix strip
    less ◌==◌ lower_byte
test_accept = refl

pair_accept_sound_example :
    (p : Pair) × (load_pair sample_store id begun ≡ ok (some p))
    × (equal_fold p.partner bob ≡ true)
    × (content agreed ≡ content (response_of (record p { status = pair_status_accepted })))
    × (load_pair sample_store id (pair_accept sample_store (ok id) bob begun).1
        ≡ ok (some (record p { status = pair_status_accepted })))
pair_accept_sound_example =
    pair_accept_sound sample_store id bob begun (λ q e. cc (e, test_begun)) test_accept

test_not_partner : (is_empty id ≡ false) × (equal_fold asked.partner alice ≡ false)
unfolding bytes equal_fold to_lower lower_byte ◌==◌
test_not_partner = (refl, refl)

test_delete : (pair_delete sample_store (ok id) alice begun).0 ≡ ok (content true)
unfolding pair_delete delete_found delete_pair remove_from_index remove_found store_filtered without
    pair_create create_missing load_pair store_pair load save assign add_to_index load_ids contains
    bytes equal_fold to_lower pair_id bare_address trim_prefix strip less ◌==◌ lower_byte
test_delete = refl

abbrev carol : Text
carol = bytes "0xc3"

empty-IsKeyed : IsKeyed sample_store empty
unfolding load_pair load
empty-IsKeyed = record { at = λ j p clean e. absurd (ground (arith, e)) }

abbrev requests : List (Text × Request)
requests =
    (alice, create (ok bob) 100)
    ∷ (bob, accept (ok id))
    ∷ (carol, delete (ok id))
    ∷ (alice, create (err []) 200)
    ∷ []

begun-IsKeyed : IsKeyed sample_store begun
unfolding serve serve_all
begun-IsKeyed =
    serve_all-IsKeyed sample_store ((alice, create (ok bob) 100) ∷ []) empty empty-IsKeyed

test_accepted :
    load_pair sample_store id (serve sample_store bob (accept (ok id)) begun)
    ≡ ok (some (record asked { status = pair_status_accepted }))
unfolding serve pair_accept accept_found pair_create create_missing load_pair store_pair load save
    assign add_to_index load_ids contains bytes equal_fold to_lower pair_id bare_address trim_prefix
    strip less ◌==◌ lower_byte
test_accepted = refl

serve_transition_example :
    (record asked { status = pair_status_accepted } ≡ asked)
    ⊎ ((record asked { status = pair_status_accepted }
          ≡ record asked { status = pair_status_accepted })
        × (equal_fold asked.partner bob ≡ true))
serve_transition_example =
    serve_transition sample_store bob (accept (ok id)) id asked
      (record asked { status = pair_status_accepted }) begun begun-IsKeyed no_slash.2 no_slash.2
      test_begun test_accepted
