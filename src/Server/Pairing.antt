-- ===== src/Server/Pairing.antt =====
-- server/pairing.go: pairs of addresses, their records in the storage and the index of an address.
pub mod Ids
pub mod Stored
pub mod Create
pub mod Accept
pub mod Delete
pub mod Invariant
pub mod Transition
mod Tests
use signature_escrow.Common.{
  ℕ, ◌≡◌, Bool, true, false, not, ◌&&◌, Option, none, some, List, [], ◌∷◌, ◌++◌, if◌then◌else◌,
}
use signature_escrow.Text.{Text, bytes, ◌==◌, is_empty, less, to_lower, equal_fold, trim_prefix}
use signature_escrow.Act.{Result, ok, err, Act, pure, lift, reads, continue, ◌>>=◌, ◌>>◌}
use signature_escrow.Storage.{Error, Storage, Codec, load, save}
use signature_escrow.Http.{
  HttpError, Reply, respond_ok, respond_error, reject_if, or_respond, decoded,
}
use signature_escrow.Server.Index.{load_ids, add_to_index, remove_from_index}

abbrev pub pair_status_pending : Text
pair_status_pending = bytes "pending"

abbrev pub pair_status_accepted : Text
pair_status_accepted = bytes "accepted"

abbrev pub pair_prefix : Text
pair_prefix = bytes "pairs/"

pub record Pair : Type 0 where
  pub id : Text
  pub initiator : Text
  pub partner : Text
  pub status : Text
  pub created_at : ℕ

-- PairCreateResponse and PairAcceptResponse, which have the same fields.
pub record PairResponse : Type 0 where
  pub id : Text
  pub initiator : Text
  pub partner : Text
  pub status : Text

pub record PairPendingResponse : Type 0 where
  pub incoming : List Pair
  pub outgoing : List Pair

-- `strings.ToLower(strings.TrimPrefix(a, "0x"))`
unfoldable pub bare_address : Text → Text
bare_address a = to_lower (trim_prefix a (bytes "0x"))

unfoldable pub pair_id : Text → Text → Text
unfolding bare_address
pair_id a b =
    let a' = bare_address a in
    let b' = bare_address b in
    if less a' b' then a' ++ (bytes "_" ++ b') else b' ++ (bytes "_" ++ a')

abbrev pub pair_key : Text → Text
pair_key id = pair_prefix ++ id

abbrev pub pair_index_key : Text → Text
pair_index_key address = pair_prefix ++ (bytes "by-addr/" ++ to_lower address)

abbrev pub response_of : Pair → PairResponse
response_of p = record {
  id = p.id;
  initiator = p.initiator;
  partner = p.partner;
  status = p.status;
}

-- The pair that pairCreate stores.
abbrev pub new_pair : Text → Text → ℕ → Pair
new_pair initiator partner now = record {
  id = pair_id initiator partner;
  initiator = initiator;
  partner = partner;
  status = pair_status_pending;
  created_at = now;
}

-- One round of the loop of pairPending.
abbrev pub add_pending : Text → Pair → PairPendingResponse → PairPendingResponse
add_pending my_addr p resp =
    if equal_fold p.partner my_addr
    then record resp { incoming = resp.incoming ++ p ∷ [] }
    else record resp { outgoing = resp.outgoing ++ p ∷ [] }

module _ {Blob : Type 0} (st : Storage Blob) ⦃pair_codec : Codec Blob Pair⦄
    ⦃ids_codec : Codec Blob (List Text)⦄ where
  pub store_pair : Pair → Act Error st.State (Unit {0})
  store_pair p = do
    save st (pair_key p.id) p
    add_to_index st (pair_index_key p.initiator) p.id
    add_to_index st (pair_index_key p.partner) p.id

  unfoldable pub load_pair : Text → st.State → Result Error (Option Pair)
  load_pair id s = load st (pair_key id) s

  pub delete_pair : Pair → Act Error st.State (Unit {0})
  delete_pair p = do
    remove_from_index st (pair_index_key p.initiator) p.id
    remove_from_index st (pair_index_key p.partner) p.id
    st.delete (pair_key p.id)

  create_missing : Text → Text → ℕ → Option Pair → Act HttpError st.State (Reply PairResponse)
  create_missing initiator partner now (some existing) = respond_ok (some (response_of existing))
  create_missing initiator partner now none = do
    let pair = new_pair initiator partner now
    or_respond (store_pair pair) 500 (bytes "failed to create pair")
    respond_ok (some (response_of pair))

  -- `body` is `req.Partner`, `caller` the authenticated address, `now` the clock.
  pub pair_create : Result Error Text → Text → ℕ → Act HttpError st.State (Reply PairResponse)
  unfolding create_missing
  pair_create body caller now = do
    requested ← decoded body
    reject_if (is_empty requested) 400 (bytes "partner address is required")
    let partner = to_lower requested
    reject_if (equal_fold caller partner) 400 (bytes "cannot pair with yourself")
    existing ← or_respond (reads (load_pair (pair_id caller partner))) 500 (bytes "storage error")
    create_missing caller partner now existing

  accept_found : Text → Option Pair → Act HttpError st.State (Reply PairResponse)
  accept_found my_addr none = respond_error 404 (bytes "pair not found")
  accept_found my_addr (some pair) = do
    reject_if (not (equal_fold pair.partner my_addr)) 403
        (bytes "only the partner can accept this pair")
    if pair.status == pair_status_accepted then respond_ok (some (response_of pair)) else do
      let accepted = record pair { status = pair_status_accepted }
      encoded ← or_respond (lift (pair_codec.marshal accepted)) 500 (bytes "marshal error")
      or_respond (st.put (pair_key accepted.id) encoded) 500 (bytes "storage error")
      respond_ok (some (response_of accepted))

  pub pair_accept : Result Error Text → Text → Act HttpError st.State (Reply PairResponse)
  unfolding accept_found
  pair_accept body caller = do
    id ← decoded body
    reject_if (is_empty id) 400 (bytes "pair id is required")
    pair ← or_respond (reads (load_pair id)) 500 (bytes "storage error")
    accept_found caller pair

  -- An id whose pair cannot be read is passed over.
  pub pending_loop : Text → List Text → PairPendingResponse → st.State → PairPendingResponse
  pending_loop my_addr [] resp s = resp
  pending_loop my_addr (id ∷ ids) resp s = elim (load_pair id s) [
    | err e ↦ pending_loop my_addr ids resp s
    | ok found ↦ elim found [
      | none ↦ pending_loop my_addr ids resp s
      | some p ↦ pending_loop my_addr ids (add_pending my_addr p resp) s
    ]
  ]

  pub pair_pending : Text → Act HttpError st.State (Reply PairPendingResponse)
  pair_pending caller = do
    ids ← or_respond (reads (load_ids st (pair_index_key caller))) 500 (bytes "storage error")
    resp ← reads (λ s. ok (pending_loop caller ids (record { incoming = []; outgoing = [] }) s))
    respond_ok (some resp)

  delete_found : Text → Option Pair → Act HttpError st.State (Reply Bool)
  delete_found my_addr none = respond_ok (some true)
  delete_found my_addr (some pair) = do
    reject_if (not (equal_fold pair.initiator my_addr) && not (equal_fold pair.partner my_addr)) 403
        (bytes "you are not part of this pair")
    or_respond (delete_pair pair) 500 (bytes "failed to delete pair")
    respond_ok (some true)

  -- The reply is the value of `deleted`.
  pub pair_delete : Result Error Text → Text → Act HttpError st.State (Reply Bool)
  unfolding delete_found
  pair_delete body caller = do
    id ← decoded body
    reject_if (is_empty id) 400 (bytes "pair id is required")
    pair ← or_respond (reads (load_pair id)) 500 (bytes "storage error")
    delete_found caller pair
