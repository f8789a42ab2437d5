-- ===== src/Server/Mailbox.antt =====
-- server/mailbox.go: messages between the members of a pair, one inbox index for an address.
pub mod Send
pub mod Ack
mod Tests
use signature_escrow.Common.{
  ℕ, ◌≡◌, Bool, true, false, not, ◌&&◌, ◌||◌, Option, none, some, List, [], ◌∷◌, ◌++◌,
  if◌then◌else◌,
}
use signature_escrow.Text.{Text, bytes, is_empty, to_lower, equal_fold}
use signature_escrow.Text.Decimal.{print_decimal}
use signature_escrow.Act.{Result, ok, err, Act, pure, lift, reads, continue, ◌>>=◌, ◌>>◌}
use signature_escrow.Storage.{Error, Storage, Codec, load, save}
use signature_escrow.Http.{
  HttpError, Reply, respond_ok, respond_error, reject_if, or_respond, decoded,
}
use signature_escrow.Server.Index.{load_ids, add_to_index, remove_from_index}
use signature_escrow.Server.Pairing.{Pair, bare_address, load_pair}

abbrev pub mailbox_prefix : Text
mailbox_prefix = bytes "mailbox/"

-- The body is the raw JSON of the request, which the server does not read.
pub record Message : Type 0 where
  pub id : Text
  pub from : Text
  pub to : Text
  pub pair_id : Text
  pub kind : Text
  pub body : Text
  pub created_at : ℕ

pub record MailboxSendRequest : Type 0 where
  pub to : Text
  pub pair_id : Text
  pub kind : Text
  pub body : Text

unfoldable pub message_id : Text → Text → ℕ → Text
message_id from to ts =
    bare_address from ++ (bytes "_" ++ (bare_address to ++ (bytes "_" ++ print_decimal ts)))

abbrev pub message_key : Text → Text
message_key id = mailbox_prefix ++ id

abbrev pub inbox_key : Text → Text
inbox_key address = mailbox_prefix ++ (bytes "inbox/" ++ to_lower address)

-- The message that mailboxSend stores.
abbrev pub new_message : MailboxSendRequest → Text → ℕ → Message
new_message req from now = record {
  id = message_id from (to_lower req.to) now;
  from = from;
  to = to_lower req.to;
  pair_id = req.pair_id;
  kind = req.kind;
  body = req.body;
  created_at = now;
}

module _ {Blob : Type 0} (st : Storage Blob) ⦃message_codec : Codec Blob Message⦄
    ⦃ids_codec : Codec Blob (List Text)⦄ where
  pub store_message : Message → Act Error st.State (Unit {0})
  store_message msg = do save st (message_key msg.id) msg; add_to_index st (inbox_key msg.to) msg.id

  pub load_message : Text → st.State → Result Error (Option Message)
  load_message id s = load st (message_key id) s

  pub delete_message : Text → Text → Act Error st.State (Unit {0})
  delete_message id recipient = do
    st.delete (message_key id)
    remove_from_index st (inbox_key recipient) id

  -- The loop of mailboxPending: a message that cannot be read is passed over.
  pub pending_messages : List Text → st.State → List Message
  pending_messages [] s = []
  pending_messages (id ∷ ids) s =
      let rest = pending_messages ids s in
      elim (load_message id s) [
        | err e ↦ rest
        | ok found ↦ elim found [ none ↦ rest | some msg ↦ msg ∷ rest ]
      ]

  pub mailbox_pending : Text → Act HttpError st.State (Reply (List Message))
  mailbox_pending caller = do
    ids ← or_respond (reads (load_ids st (inbox_key caller))) 500 (bytes "storage error")
    messages ← reads (λ s. ok (pending_messages ids s))
    respond_ok (some messages)

  ack_found : Text → Text → Option Message → Act HttpError st.State (Reply (Unit {0}))
  ack_found id my_addr none = respond_error 404 (bytes "message not found")
  ack_found id my_addr (some msg) = do
    reject_if (not (equal_fold msg.to my_addr)) 403 (bytes "not your message")
    or_respond (delete_message id my_addr) 500 (bytes "failed to delete message")
    respond_ok none

  pub mailbox_ack : Result Error Text → Text → Act HttpError st.State (Reply (Unit {0}))
  unfolding ack_found
  mailbox_ack body caller = do
    id ← decoded body
    reject_if (is_empty id) 400 (bytes "message id is required")
    msg ← or_respond (reads (load_message id)) 500 (bytes "storage error")
    ack_found id caller msg

  module _ ⦃pair_codec : Codec Blob Pair⦄ where
    send_in : MailboxSendRequest → Text → ℕ → Option Pair → Act HttpError st.State (Reply Text)
    send_in req from now none = respond_error 404 (bytes "pair not found")
    send_in req from now (some pair) = do
      let to = to_lower req.to
      reject_if (not (equal_fold pair.initiator from) && not (equal_fold pair.partner from)) 403
          (bytes "you are not part of this pair")
      reject_if (not (equal_fold pair.initiator to || equal_fold pair.partner to)) 400
          (bytes "recipient is not part of this pair")
      or_respond (store_message (new_message req from now)) 500 (bytes "failed to send message")
      respond_ok (some (message_id from to now))

    -- `now` is `time.Now().UnixNano()`; the reply is the id of the message.
    pub mailbox_send :
        Result Error MailboxSendRequest → Text → ℕ → Act HttpError st.State (Reply Text)
    unfolding send_in
    mailbox_send body from now = do
      req ← decoded body
      reject_if (is_empty req.to || is_empty req.pair_id || is_empty req.kind) 400
          (bytes "to, pair_id and type are required")
      pair ← or_respond (reads (load_pair st req.pair_id)) 500 (bytes "storage error")
      send_in req from now pair
