-- ===== src/Server/Mailbox/Ack.antt =====
-- mailboxAck: who may acknowledge a message, and what is left of it.
use signature_escrow.Common.{◌≡◌, inl, inr, ◌∙◌, true, false, none, some, List, arith}
use signature_escrow.Text.{Text, equal_fold, is_empty}
use signature_escrow.Text.Bytes.{lacks}
use signature_escrow.Act.{ok, Result-cases}
use signature_escrow.Storage.{Storage, Codec, load_of_get, load_of_get_none}
use signature_escrow.Http.{Reply, no_content, status_code}
use signature_escrow.Server.Index.{remove_from_index, get-remove_from_index_ne}
use signature_escrow.Server.Index.Listed.{IsUnlisted, IsUnlisted-remove_from_index}
use signature_escrow.Server.Mailbox.{
  Message, message_key, inbox_key, load_message, delete_message, mailbox_ack,
}
use signature_escrow.Server.Mailbox.Send.{message_key-ne-inbox_key}

module _ {Blob : Type 0} (st : Storage Blob) ⦃message_codec : Codec Blob Message⦄
    ⦃ids_codec : Codec Blob (List Text)⦄ (id caller : Text) (s : st.State) where
  abbrev after_ack : st.State
  after_ack = (mailbox_ack st (ok id) caller s).1

  abbrev removed : st.State
  removed = (st.delete (message_key id) s).1

  mailbox_ack_steps :
      {reply : Reply (Unit {0})} (m : Message)
      → load_message st id s ≡ ok (some m)
      → (mailbox_ack st (ok id) caller s).0 ≡ ok reply
      → (reply ≡ no_content)
        × (equal_fold m.to caller ≡ true)
        × ((st.delete (message_key id) s).0 ≡ ok tt)
        × ((remove_from_index st (inbox_key caller) id removed).0 ≡ ok tt)
        × (after_ack ≡ (remove_from_index st (inbox_key caller) id removed).1)
  unfolding mailbox_ack delete_message
  mailbox_ack_steps m e h = ground arith

  mailbox_ack_found :
      {reply : Reply (Unit {0})}
      → (mailbox_ack st (ok id) caller s).0 ≡ ok reply
      → (is_empty id ≡ false) × (m : Message) × (load_message st id s ≡ ok (some m))
  unfolding mailbox_ack
  mailbox_ack_found h = elim (Result-cases (load_message st id s)) [
    | inl (none, e) ↦ ground (arith, e)
    | inl (some m, e) ↦ (ground (arith, e), m, e)
    | inr (x, e) ↦ ground (arith, e)
  ]

  removed_lem :
      lacks b'/' id ≡ true
      → (st.delete (message_key id) s).0 ≡ ok tt
      → load_message st id (remove_from_index st (inbox_key caller) id removed).1 ≡ ok none
  unfolding load_message
  removed_lem clean gone =
      load_of_get st (message_key id) _ removed (
        get-remove_from_index_ne st (inbox_key caller) id (message_key id) removed
          (message_key-ne-inbox_key id caller clean))
      ∙ load_of_get_none st (message_key id) removed (st.get-delete_self (message_key id) s gone)

  -- An acknowledgement that is answered 204 came from the recipient of a stored message; afterwards
  -- neither the message is stored nor does the recipient's inbox name it. Condition: the id has no
  -- slash.
  pub mailbox_ack_removes :
      {reply : Reply (Unit {0})}
      → lacks b'/' id ≡ true
      → (mailbox_ack st (ok id) caller s).0 ≡ ok reply
      → (m : Message) × (load_message st id s ≡ ok (some m))
        × (equal_fold m.to caller ≡ true)
        × (reply ≡ no_content)
        × (load_message st id after_ack ≡ ok none)
        × IsUnlisted st (inbox_key caller) id after_ack
  mailbox_ack_removes clean h =
      let (full, m, e) = mailbox_ack_found h in
      let (answer, mine, gone, cleared, end) = mailbox_ack_steps m e h in
      (
        m,
        e,
        mine,
        answer,
        rw end (removed_lem clean gone),
        rw end (IsUnlisted-remove_from_index st (inbox_key caller) id removed cleared),
      )

  ack_absent :
      (t : st.State)
      → is_empty id ≡ false
      → load_message st id t ≡ ok none
      → (status_code (mailbox_ack st (ok id) caller t).0 ≡ 404)
        × ((mailbox_ack st (ok id) caller t).1 ≡ t)
  unfolding mailbox_ack
  ack_absent t full e = ground arith

  -- After an acknowledgement that was answered 204, the same request is answered 404, and the
  -- storage stays as it is. Condition: the id has no slash.
  pub mailbox_ack_twice :
      {reply : Reply (Unit {0})}
      → lacks b'/' id ≡ true
      → (mailbox_ack st (ok id) caller s).0 ≡ ok reply
      → (status_code (mailbox_ack st (ok id) caller after_ack).0 ≡ 404)
        × ((mailbox_ack st (ok id) caller after_ack).1 ≡ after_ack)
  mailbox_ack_twice clean h =
      let (m, e, mine, answer, gone, unlisted) = mailbox_ack_removes clean h in
      ack_absent after_ack (mailbox_ack_found h).0 gone

  -- Anyone but the recipient is refused, and the storage is as it was.
  pub mailbox_ack_forbidden :
      (m : Message)
      → is_empty id ≡ false
      → load_message st id s ≡ ok (some m)
      → equal_fold m.to caller ≡ false
      → (status_code (mailbox_ack st (ok id) caller s).0 ≡ 403) × (after_ack ≡ s)
  unfolding mailbox_ack
  mailbox_ack_forbidden m full e other = ground arith
