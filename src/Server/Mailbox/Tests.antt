-- ===== src/Server/Mailbox/Tests.antt =====
-- alice sends bob a message under their pair, and bob acknowledges it.
use signature_escrow.Common.{◌≡◌, refl, true, some, none, List}
use signature_escrow.Text.{Text, bytes, to_lower, equal_fold, ◌==◌, strip, trim_prefix, lower_byte}
use signature_escrow.Text.Bytes.{lacks}
use signature_escrow.Text.Decimal.{print_decimal}
use signature_escrow.Act.{ok}
use signature_escrow.Storage.{load, save}
use signature_escrow.Storage.Memory.{Values, assign}
use signature_escrow.Http.{Reply, content, no_content}
use signature_escrow.Server.Index.{
  load_ids, add_to_index, contains, remove_from_index, remove_found, store_filtered, without,
}
use signature_escrow.Server.Index.Listed.{IsUnlisted}
use signature_escrow.Server.Sample.{
  Encoded, pair, sample_store, empty, with_value, pair_codec, ids_codec, message_codec,
}
use signature_escrow.Server.Pairing.{Pair, load_pair, bare_address, pair_status_accepted, pair_key}
use signature_escrow.Server.Mailbox.{
  Message, MailboxSendRequest, message_id, inbox_key, new_message, load_message, store_message,
  delete_message, send_in, mailbox_send, mailbox_pending, mailbox_ack, ack_found,
}
use signature_escrow.Server.Mailbox.Send.{IsIn, mailbox_send_delivers}
use signature_escrow.Server.Mailbox.Ack.{mailbox_ack_removes}

abbrev alice : Text
alice = bytes "0xa1"

abbrev bob : Text
bob = bytes "0xB2"

abbrev partners : Pair
partners = record {
  id = bytes "a1_b2";
  initiator = alice;
  partner = bytes "0xb2";
  status = pair_status_accepted;
  created_at = 1;
}

abbrev paired : Values Encoded
paired = with_value (pair_key (bytes "a1_b2")) (pair partners) empty

abbrev to_bob : MailboxSendRequest
to_bob = record { to = bob; pair_id = bytes "a1_b2"; kind = bytes "offer"; body = bytes "1" }

abbrev id : Text
id = bytes "a1_b2_7"

abbrev sent_message : Message
sent_message = new_message to_bob alice 7

abbrev after_send : Values Encoded
after_send = (mailbox_send sample_store (ok to_bob) alice 7 paired).1

test_partners : load_pair sample_store (bytes "a1_b2") paired ≡ ok (some partners)
unfolding load_pair load assign bytes ◌==◌
test_partners = refl

test_send : (mailbox_send sample_store (ok to_bob) alice 7 paired).0 ≡ ok (content sent_message.id)
unfolding mailbox_send send_in store_message load_pair load save assign add_to_index load_ids
    contains bytes equal_fold to_lower message_id bare_address trim_prefix strip print_decimal ◌==◌
    lower_byte
test_send = refl

no_slash : (lacks b'/' alice ≡ true) × (lacks b'/' (to_lower bob) ≡ true) × (lacks b'/' id ≡ true)
unfolding bytes to_lower lower_byte
no_slash = (refl, refl, refl)

same_bob : to_lower bob ≡ to_lower (to_lower bob)
unfolding bytes to_lower lower_byte
same_bob = refl

mailbox_send_delivers_example :
    (ms : List Message) × (mailbox_pending sample_store bob after_send
      ≡ (ok (content ms), after_send))
    × IsIn sent_message ms
mailbox_send_delivers_example =
    mailbox_send_delivers sample_store to_bob alice 7 paired bob no_slash.0 no_slash.1 same_bob
      test_send

abbrev to_alice : MailboxSendRequest
to_alice = record { to = alice; pair_id = bytes "a1_b2"; kind = bytes "offer"; body = bytes "1" }

test_stored : (store_message sample_store (new_message to_alice alice 8) paired).0 ≡ ok tt
unfolding store_message load save assign add_to_index load_ids contains bytes ◌==◌ to_lower
    message_id bare_address trim_prefix strip print_decimal lower_byte
test_stored = refl

abbrev after_ack : Values Encoded
after_ack = (mailbox_ack sample_store (ok id) bob after_send).1

test_ack : (mailbox_ack sample_store (ok id) bob after_send).0 ≡ ok no_content
unfolding mailbox_ack ack_found delete_message load_message remove_from_index remove_found
    store_filtered without mailbox_send send_in store_message load_pair load save assign
    add_to_index load_ids contains bytes equal_fold to_lower message_id bare_address trim_prefix
    strip print_decimal ◌==◌ lower_byte
test_ack = refl

mailbox_ack_removes_example :
    (m : Message) × (load_message sample_store id after_send ≡ ok (some m))
    × (equal_fold m.to bob ≡ true)
    × (◌≡◌ {A = Reply (Unit {0})} no_content no_content)
    × (load_message sample_store id after_ack ≡ ok none)
    × IsUnlisted sample_store (inbox_key bob) id after_ack
mailbox_ack_removes_example = mailbox_ack_removes sample_store id bob after_send no_slash.2 test_ack
