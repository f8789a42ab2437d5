-- ===== src/Client/Sample.antt =====
-- A store in memory for the concrete runs of client.
use signature_escrow.Common.{refl, List}
use signature_escrow.Act.{ok}
use signature_escrow.Storage.{Storage, Codec}
use signature_escrow.Storage.Memory.{memory, Values, no_values, tagged, malformed}
use signature_escrow.Client.Exchange.{Exchange}
use signature_escrow.Client.Cosign.{CosignEvent}
use signature_escrow.Client.Accounts.{AccountMeta}
use signature_escrow.Text.{Text}

pub data Encoded : Type 0 where
  exchanges : List Exchange → Encoded
  events : List CosignEvent → Encoded
  account : AccountMeta → Encoded
  raw : Text → Encoded
  aliases : List (Text × Text) → Encoded

instance abbrev pub exchanges_codec : Codec Encoded (List Exchange)
exchanges_codec = tagged exchanges (λ b. elim b [ exchanges a ↦ ok a | _ ↦ malformed ]) (λ a. refl)

instance abbrev pub events_codec : Codec Encoded (List CosignEvent)
events_codec = tagged events (λ b. elim b [ events a ↦ ok a | _ ↦ malformed ]) (λ a. refl)

instance abbrev pub account_codec : Codec Encoded AccountMeta
account_codec = tagged account (λ b. elim b [ account a ↦ ok a | _ ↦ malformed ]) (λ a. refl)

abbrev pub sample_store : Storage Encoded
sample_store = memory Encoded

-- Nothing is stored.
abbrev pub empty : Values Encoded
empty = no_values Encoded

instance abbrev pub aliases_codec : Codec Encoded (List (Text × Text))
aliases_codec = tagged aliases (λ b. elim b [ aliases a ↦ ok a | _ ↦ malformed ]) (λ a. refl)
