-- ===== src/Server/Mailbox/Send.antt =====
-- mailboxSend and mailboxPending: who may send, and what the recipient finds.
use signature_escrow.Common.{
  ℕ, ◌≡◌, ◌≢◌, ◌⊎◌, inl, inr, refl, sym, ◌∙◌, true, false, ◌||◌, subst, none, some, List, [], ◌∷◌,
  ◌++◌, arith,
}
use signature_escrow.Text.{Text, bytes, to_lower, equal_fold, equal_fold-to_lower, is_empty, ==_iff}
use signature_escrow.Text.Bytes.{lacks, lacks-append, key_ne}
use signature_escrow.Text.Decimal.{print_decimal, lacks-print_decimal}
use signature_escrow.Act.{ok, Result-cases}
use signature_escrow.Storage.{Storage, Codec, save, load-save_self, load_of_get}
use signature_escrow.Http.{Reply, content}
use signature_escrow.Server.Index.{contains, load_ids, add_to_index, get-add_to_index_ne}
use signature_escrow.Server.Index.Listed.{IsListed, IsListed-add_to_index}
use signature_escrow.Server.Pairing.{Pair, bare_address, load_pair}
use signature_escrow.Server.Pairing.Ids.{lacks-bare_address}
use signature_escrow.Server.Mailbox.{
  Message, MailboxSendRequest, message_id, message_key, inbox_key, mailbox_prefix, new_message,
  store_message, load_message, pending_messages, mailbox_pending, mailbox_send,
}

message_id-lacks :
    (from to : Text) (now : ℕ)
    → lacks b'/' from ≡ true
    → lacks b'/' to ≡ true
    → lacks b'/' (message_id from to now) ≡ true
unfolding message_id bytes
message_id-lacks from to now h k = ground (
  arith,
  lacks-bare_address b'/' from (omega arith) h,
  lacks-bare_address b'/' to (omega arith) k,
  lacks-print_decimal b'/' now (omega arith),
  lacks-append b'/' (bare_address from) (b'_' ∷ (bare_address to ++ b'_' ∷ print_decimal now)),
  lacks-append b'/' (bare_address to) (b'_' ∷ print_decimal now),
)

pub message_key-ne-inbox_key :
    (id address : Text) → lacks b'/' id ≡ true → message_key id ≢ inbox_key address
message_key-ne-inbox_key id address h =
    key_ne mailbox_prefix id (bytes "inbox/") (to_lower address) h (unfold bytes in refl)

-- The message stands in the list.
abbrev pub IsIn : Message → List Message → Type 0
IsIn m [] = ⊥
IsIn m (x ∷ xs) = (m ≡ x) ⊎ IsIn m xs

module _ {Blob : Type 0} (st : Storage Blob) ⦃message_codec : Codec Blob Message⦄
    ⦃ids_codec : Codec Blob (List Text)⦄ where
  pub pending_messages-IsIn :
      (ids : List Text) (id : Text) (m : Message) (s : st.State)
      → contains ids id ≡ true
      → load_message st id s ≡ ok (some m)
      → IsIn m (pending_messages st ids s)
  unfolding pending_messages contains
  pending_messages-IsIn [] id m s h e = cc
  pending_messages-IsIn (x ∷ xs) id m s h e =
      ground (arith, ==_iff x id, pending_messages-IsIn xs id m s)

  pending_read :
      (caller : Text) (ids : List Text) (s : st.State)
      → load_ids st (inbox_key caller) s ≡ ok ids
      → mailbox_pending st caller s ≡ (ok (content (pending_messages st ids s)), s)
  unfolding mailbox_pending
  pending_read caller ids s h = ground arith

  module _ (m : Message) (s : st.State) where
    abbrev saved_state : st.State
    saved_state = (save st (message_key m.id) m s).1

    store_message_steps :
        (store_message st m s).0 ≡ ok tt
        → ((save st (message_key m.id) m s).0 ≡ ok tt)
          × ((add_to_index st (inbox_key m.to) m.id saved_state).0 ≡ ok tt)
          × ((store_message st m s).1 ≡ (add_to_index st (inbox_key m.to) m.id saved_state).1)
    unfolding store_message
    store_message_steps h = ground arith

    pub store_message_lem :
        lacks b'/' m.id ≡ true
        → (store_message st m s).0 ≡ ok tt
        → (load_message st m.id (store_message st m s).1 ≡ ok (some m))
          × IsListed st (inbox_key m.to) m.id (store_message st m s).1
    unfolding load_message
    store_message_lem clean h =
        let (saved, listed, end) = store_message_steps h in
        rw end (
          load_of_get st (message_key m.id) _ saved_state (
                get-add_to_index_ne st (inbox_key m.to) m.id (message_key m.id) saved_state
                  (message_key-ne-inbox_key m.id m.to clean))
              ∙ load-save_self st (message_key m.id) m s saved,
          IsListed-add_to_index st (inbox_key m.to) m.id saved_state listed,
        )

  module _ ⦃pair_codec : Codec Blob Pair⦄ (req : MailboxSendRequest) (from : Text) (now : ℕ)
      (s : st.State) where
    abbrev sent : Message
    sent = new_message req from now

    abbrev after_send : st.State
    after_send = (mailbox_send st (ok req) from now s).1

    -- A message that mailboxSend took came from a member of the stored pair that it names and is
    -- addressed to a member of it; the storage is as storeMessage left it without an error, and the
    -- answer is the message's id.
    pub mailbox_send_sound :
        {reply : Reply Text}
        → (mailbox_send st (ok req) from now s).0 ≡ ok reply
        → (p : Pair) × (load_pair st req.pair_id s ≡ ok (some p))
          × ((equal_fold p.initiator from || equal_fold p.partner from) ≡ true)
          × ((equal_fold p.initiator sent.to || equal_fold p.partner sent.to) ≡ true)
          × (reply ≡ content sent.id)
          × ((store_message st sent s).0 ≡ ok tt)
          × (after_send ≡ (store_message st sent s).1)
    unfolding mailbox_send
    mailbox_send_sound h = elim (Result-cases (load_pair st req.pair_id s)) [
      | inl (none, e) ↦ ground (arith, e)
      | inl (some p, e) ↦ (
        p,
        e,
        ground (arith, e),
        ground (arith, e),
        ground (arith, e),
        ground (arith, e),
        ground (arith, e),
      )
      | inr (x, e) ↦ ground (arith, e)
    ]

    -- A message that mailboxSend took is in the list that mailboxPending answers to its recipient
    -- right afterwards, in any letter case of the recipient's address. Condition: neither address
    -- has a slash.
    pub mailbox_send_delivers :
        (caller : Text) {reply : Reply Text}
        → lacks b'/' from ≡ true
        → lacks b'/' sent.to ≡ true
        → to_lower caller ≡ to_lower sent.to
        → (mailbox_send st (ok req) from now s).0 ≡ ok reply
        → (ms : List Message) × (mailbox_pending st caller after_send
            ≡ (ok (content ms), after_send))
          × IsIn sent ms
    mailbox_send_delivers caller hf ht same h =
        let (p, e, a, b, answer, stored, end) = mailbox_send_sound h in
        let (there, listed) =
          store_message_lem sent s (message_id-lacks from sent.to now hf ht) stored in
        let (ids, readable, named) = listed in
        let mine : load_ids st (inbox_key caller) (store_message st sent s).1 ≡ ok ids =
          subst
            (λ x.
              load_ids st (mailbox_prefix ++ (bytes "inbox/" ++ x)) (store_message st sent s).1
              ≡ ok ids)
            (sym same) readable in
        let found = pending_messages-IsIn ids sent.id sent _ named there in
        rw end (
          pending_messages st ids (store_message st sent s).1,
          pending_read caller ids _ mine,
          found,
        )

    -- A member of the stored pair that sends a message to itself is answered with the message's id
    -- if the storage takes it. Conditions: the request's fields are not empty.
    pub mailbox_send_to_self :
        (p : Pair)
        → is_empty req.to ≡ false
        → is_empty req.pair_id ≡ false
        → is_empty req.kind ≡ false
        → load_pair st req.pair_id s ≡ ok (some p)
        → (equal_fold p.initiator from || equal_fold p.partner from) ≡ true
        → to_lower req.to ≡ to_lower from
        → (store_message st sent s).0 ≡ ok tt
        → (mailbox_send st (ok req) from now s).0 ≡ ok (content sent.id)
    unfolding mailbox_send
    mailbox_send_to_self p a b c e member self stored =
        ground (arith, equal_fold-to_lower p.initiator from, equal_fold-to_lower p.partner from)
