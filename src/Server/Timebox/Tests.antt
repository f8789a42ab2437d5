-- ===== src/Server/Timebox/Tests.antt =====
-- alice stores a signature under her pair with bob, who fetches it.
use signature_escrow.Common.{[], ◌∷◌}
use signature_escrow.Text.{Text, bytes}
use signature_escrow.Storage.Memory.{Values}
use signature_escrow.Validation.{Bytes, frost}
use signature_escrow.Server.Sample.{
  Encoded, pair, sample_store, empty, with_value, pair_codec, ids_codec, timebox_codec, sample_sigs,
}
use signature_escrow.Server.Pairing.{Pair, pair_status_accepted, pair_key}
use signature_escrow.Server.Timebox.{TimeboxEntry}
use signature_escrow.Server.Timebox.Post.{after_post}

abbrev alice : Text
alice = bytes "0xa1"

abbrev bob : Text
bob = bytes "0xb2"

abbrev partners : Pair
partners = record {
  id = bytes "a1_b2";
  initiator = alice;
  partner = bob;
  status = pair_status_accepted;
  created_at = 1;
}

abbrev paired : Values Encoded
paired = with_value (pair_key (bytes "a1_b2")) (pair partners) empty

abbrev hash : Bytes
hash =
    5 ∷ 5 ∷ 5 ∷ 5 ∷ 5 ∷ 5 ∷ 5 ∷ 5 ∷ 5 ∷ 5 ∷ 5 ∷ 5 ∷ 5 ∷ 5 ∷ 5 ∷ 5 ∷ 5 ∷ 5 ∷ 5 ∷ 5 ∷ 5 ∷ 5 ∷ 5 ∷ 5
    ∷ 5 ∷ 5 ∷ 5 ∷ 5 ∷ 5 ∷ 5 ∷ 5 ∷ 5 ∷ []

abbrev hash_hex : Text
hash_hex = bytes "0505050505050505050505050505050505050505050505050505050505050505"

abbrev entry : TimeboxEntry
entry = record {
  alg = frost;
  pub_key = 1 ∷ [];
  hash = hash;
  sig = 1 ∷ hash;
  pair_id = bytes "a1_b2";
  created_at = 0;
}

abbrev posted : Values Encoded
posted = after_post sample_store sample_sigs entry alice paired
