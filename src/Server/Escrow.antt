-- ===== src/Server/Escrow.antt =====
-- server/escrow.go: the two-party exchange of signatures. A flower is one party's key, the hash that
-- it wants signed, and its signature for the other party. `escrowMu` makes each request one step.
pub mod Request
pub mod Slots
pub mod Release
pub mod Fairness
pub mod Order
pub mod Exchange
mod Tests
use signature_escrow.Common.{
  ℕ, ◌≡◌, Bool, true, false, not, ◌&&◌, ◌||◌, Option, none, some, List, [], ◌∷◌, ◌++◌, ltb, nat_eq,
  length, if◌then◌else◌,
}
use signature_escrow.Text.{Text, bytes, ◌==◌, is_empty}
use signature_escrow.Text.Hex.{hex_decode}
use signature_escrow.Act.{Result, ok, err, Act, pure, lift, reads, or_fail, continue, ◌>>=◌, ◌>>◌}
use signature_escrow.Storage.{Error, Storage, Codec, load, save}
use signature_escrow.Http.{HttpError, Reply, respond_ok, respond_error, reject_if, or_respond}
use signature_escrow.Validation.{Bytes, Signatures, validate, ecdsa, frost}

pub record Flower : Type 0 where
  pub id : Text
  pub alg : Text
  pub pub_key : Bytes
  pub hash : Bytes
  pub sig : Bytes
  pub depositor : Text

-- `pollination`, and `pollinationMarshal` that it is stored as.
pub record Pollination : Type 0 where
  pub flower1 : Option Flower
  pub flower2 : Option Flower

abbrev pub new_pollination : Pollination
new_pollination = record { flower1 = none; flower2 = none }

abbrev and_valid : Result Error Bool → Result Error Bool → Result Error Bool
and_valid (err e) _ = err e
and_valid (ok a) (err e) = err e
and_valid (ok a) (ok b) = ok (a && b)

abbrev both_valid : Signatures → Flower → Flower → Result Error Bool
both_valid sigs f1 f2 =
    and_valid (validate sigs f1.alg f1.pub_key f1.hash f2.sig)
      (validate sigs f2.alg f2.pub_key f2.hash f1.sig)

abbrev pollinate_slots : Signatures → Option Flower → Option Flower → Result Error Bool
pollinate_slots sigs (some f1) (some f2) = both_valid sigs f1 f2
pollinate_slots sigs _ _ = ok false

unfoldable pub pollinate : Signatures → Pollination → Result Error Bool
pollinate sigs p = pollinate_slots sigs p.flower1 p.flower2

-- What the loop of addFlower does at one slot: go on, or end with an error or a write.
pub data Visit : Type 0 where
  next : Visit
  refuse : Error → Visit
  write : Visit

abbrev pub visit : Option Flower → Flower → Visit
visit none f = next
visit (some ex) f =
    if not (ex.pub_key == f.pub_key)
    then next
    else if not (is_empty ex.depositor) && not (ex.depositor == f.depositor)
    then refuse (bytes "this escrow slot belongs to another participant")
    else if not (is_empty ex.sig) && not (ex.sig == f.sig)
    then refuse (bytes "a different signature is already deposited for this pub")
    else write

abbrev pub occupied_by : Option Flower → Text → Bool
occupied_by none address = false
occupied_by (some other) address = not (is_empty other.depositor) && other.depositor == address

abbrev pub first_of_two : Option Flower → Option Flower → Option Flower
first_of_two none g = g
first_of_two (some f) g = some f

abbrev pub free_slot : Option Flower → Option Flower → Flower → Result Error Pollination
free_slot none g f = ok (record { flower1 = some f; flower2 = g })
free_slot (some e) none f = ok (record { flower1 = some e; flower2 = some f })
free_slot (some e) (some g) f = err (bytes "escrow already has two participants")

abbrev pub add_new : Pollination → Flower → Result Error Pollination
add_new p f =
    if occupied_by (first_of_two p.flower1 p.flower2) f.depositor
    then err (bytes "one participant cannot occupy both escrow slots")
    else free_slot p.flower1 p.flower2 f

unfoldable pub add_flower : Pollination → Flower → Result Error Pollination
add_flower p f = elim (visit p.flower1 f) [
  | refuse e ↦ err e
  | write ↦ ok (record p { flower1 = some f })
  | next ↦ elim (visit p.flower2 f) [
    | refuse e ↦ err e
    | write ↦ ok (record p { flower2 = some f })
    | next ↦ add_new p f
  ]
]

-- What is answered: the signature travels in base64.
pub data Answer : Type 0 where
  pending : Answer
  complete : Bytes → Answer

-- The `switch` that picks the counterparty's signature; no match leaves it nil.
abbrev counterparty_sig : Option Flower → Option Flower → Bytes → Bytes
counterparty_sig (some f1) (some f2) key =
    if f1.pub_key == key then f2.sig else if f2.pub_key == key then f1.sig else []
counterparty_sig _ _ key = []

abbrev pub their_sig : Pollination → Bytes → Bytes
their_sig p key = counterparty_sig p.flower1 p.flower2 key

abbrev answer_of : Pollination → Bytes → Bool → Answer
answer_of p key pollinated = if pollinated then complete (their_sig p key) else pending

-- A slot that another caller deposited, asked for by its key.
abbrev foreign : Option Flower → Bytes → Text → Bool
foreign none key caller = false
foreign (some f) key caller =
    f.pub_key == key && not (is_empty f.depositor) && not (f.depositor == caller)

abbrev is_full : Option Flower → Option Flower → Bool
is_full (some f) (some g) = true
is_full _ _ = false

abbrev or_pending : Result Error Bool → Bool
or_pending (err e) = false
or_pending (ok b) = b

module _ {Blob : Type 0} (st : Storage Blob) ⦃c : Codec Blob Pollination⦄ where
  -- The id of an escrow is its key in the storage.
  pub get_pollination : Text → st.State → Result Error (Option Pollination)
  get_pollination id s = load st id s

  pub put_pollination : Text → Pollination → Act Error st.State (Unit {0})
  put_pollination id p = save st id p

module _ {Blob : Type 0} (st : Storage Blob) ⦃c : Codec Blob Pollination⦄ (sigs : Signatures) where
  abbrev added : Pollination → Flower → Act HttpError st.State Pollination
  added p f = or_fail (lift (add_flower p f)) (λ e. record { status = 409; message = e })

  deposit : Option Pollination → Flower → Act HttpError st.State (Reply Answer)
  deposit none f = do
    p ← added new_pollination f
    or_respond (put_pollination st f.id p) 500 (bytes "storage error")
    respond_ok (some pending)
  deposit (some old) f = do
    p ← added old f
    or_respond (put_pollination st f.id p) 500 (bytes "storage error")
    pollinated ← or_respond (lift (pollinate sigs p)) 400 (bytes "validation failed")
    respond_ok (some (answer_of p f.pub_key pollinated))

  -- `parsed` is what parseEscrowRequest made of the request.
  pub escrow : Result Error Flower → Text → Act HttpError st.State (Reply Answer)
  unfolding deposit
  escrow parsed caller = do
    flower ← or_fail (lift parsed) (λ e. record { status = 400; message = e })
    let f = record flower { depositor = caller }
    old ← or_respond (reads (get_pollination st f.id)) 500 (bytes "storage error")
    deposit old f

  check_found : Option Pollination → Bytes → Text → Act HttpError st.State (Reply Answer)
  check_found none key caller = respond_ok (some pending)
  check_found (some p) key caller =
      if not (is_full p.flower1 p.flower2) then respond_ok (some pending) else do
        reject_if (foreign p.flower1 key caller || foreign p.flower2 key caller) 403
            (bytes "this escrow slot belongs to another participant")
        respond_ok (some (answer_of p key (or_pending (pollinate sigs p))))

  -- `body` is the id and the key in hexadecimal.
  pub escrow_check : Result Error (Text × Text) → Text → Act HttpError st.State (Reply Answer)
  unfolding check_found
  escrow_check body caller = do
    (id, key_hex) ← or_respond (lift body) 400 (bytes "invalid request")
    reject_if (is_empty id || is_empty key_hex) 400 (bytes "id and pub are required")
    key ← or_respond (lift (hex_decode key_hex)) 400 (bytes "invalid pub hex")
    p ← or_respond (reads (get_pollination st id)) 500 (bytes "storage error")
    check_found p key caller
