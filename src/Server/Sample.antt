-- ===== src/Server/Sample.antt =====
-- A store in memory whose values are encoded as themselves, and verifiers that compute, for the
-- concrete runs of server.
use signature_escrow.Common.{refl, List, ◌++◌, some}
use signature_escrow.Text.{Text, ◌==◌}
use signature_escrow.Act.{ok}
use signature_escrow.Storage.{Storage, Codec}
use signature_escrow.Storage.Memory.{memory, Values, no_values, assign, tagged, malformed}
use signature_escrow.Validation.{Bytes, Signatures}
use signature_escrow.Server.Pairing.{Pair}
use signature_escrow.Server.Mailbox.{Message}
use signature_escrow.Server.Escrow.{Pollination}
use signature_escrow.Server.Timebox.{TimeboxEntry}

pub data Encoded : Type 0 where
  pair : Pair → Encoded
  ids : List Text → Encoded
  message : Message → Encoded
  pollination : Pollination → Encoded
  timebox : TimeboxEntry → Encoded

instance abbrev pub pair_codec : Codec Encoded Pair
pair_codec = tagged pair (λ b. elim b [ pair a ↦ ok a | _ ↦ malformed ]) (λ a. refl)

instance abbrev pub ids_codec : Codec Encoded (List Text)
ids_codec = tagged ids (λ b. elim b [ ids a ↦ ok a | _ ↦ malformed ]) (λ a. refl)

instance abbrev pub message_codec : Codec Encoded Message
message_codec = tagged message (λ b. elim b [ message a ↦ ok a | _ ↦ malformed ]) (λ a. refl)

instance abbrev pub pollination_codec : Codec Encoded Pollination
pollination_codec =
    tagged pollination (λ b. elim b [ pollination a ↦ ok a | _ ↦ malformed ]) (λ a. refl)

instance abbrev pub timebox_codec : Codec Encoded TimeboxEntry
timebox_codec = tagged timebox (λ b. elim b [ timebox a ↦ ok a | _ ↦ malformed ]) (λ a. refl)

abbrev pub sample_store : Storage Encoded
sample_store = memory Encoded

-- Nothing is stored.
abbrev pub empty : Values Encoded
empty = no_values Encoded

abbrev pub with_value : Text → Encoded → Values Encoded → Values Encoded
with_value key v s = assign key (some v) s

-- A signature is good if it is the key, followed by the hash.
abbrev pub sample_sigs : Signatures
sample_sigs = record {
  Point = Bytes;
  Scalar = Bytes;
  unmarshal_point = λ b. ok b;
  unmarshal_scalar = λ b. ok b;
  ecdsa_verify = λ r s key h. (r ++ s) == (key ++ h);
  taproot_verify = λ key s h. s == (key ++ h);
}
