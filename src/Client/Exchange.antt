-- ===== src/Client/Exchange.antt =====
-- client/exchange.go: the list of exchanges that a client stores, newest first.
pub mod Lookup
pub mod Unique
mod Tests
use signature_escrow.Common.{
  ℕ, Bool, true, false, not, Option, none, some, List, [], ◌∷◌, if◌then◌else◌,
}
use signature_escrow.Text.{Text, bytes, ◌==◌, is_empty}
use signature_escrow.Text.Hex.{hex_encode}
use signature_escrow.Act.{Result, ok, err, Act, pure, lift, reads, or_fail, continue, ◌>>=◌, ◌>>◌}
use signature_escrow.Storage.{Error, Storage, Codec, load, save}
use signature_escrow.Http.{
  HttpError, Reply, respond_ok, respond_error, reject_if, or_respond, decoded,
}

abbrev pub exchanges_key : Text
exchanges_key = bytes "exchanges/all"

pub record Exchange : Type 0 where
  pub id : Text
  pub address_a : Text
  pub partner_a : Text
  pub status_a : Text
  pub address_b : Text
  pub partner_b : Text
  pub status_b : Text
  pub creator : Text
  pub created_at : ℕ

pub record ExchangeCreateRequest : Type 0 where
  pub address_a : Text
  pub address_b : Text

-- ExchangeUpdateRequest and ExchangeUpsertRequest, which have the same fields.
pub record ExchangeRequest : Type 0 where
  pub id : Text
  pub address_a : Text
  pub partner_a : Text
  pub status_a : Text
  pub address_b : Text
  pub partner_b : Text
  pub status_b : Text
  pub creator : Text

-- `if new != "" { old = new }`
abbrev pub unless_empty : Text → Text → Text
unless_empty new old = if is_empty new then old else new

-- What updateExchange does to the exchange that it finds.
unfoldable pub updated : ExchangeRequest → Exchange → Exchange
updated req e = record e {
  address_a = req.address_a;
  address_b = req.address_b;
  partner_a = unless_empty req.partner_a e.partner_a;
  status_a = unless_empty req.status_a e.status_a;
  partner_b = unless_empty req.partner_b e.partner_b;
  status_b = unless_empty req.status_b e.status_b;
  creator = unless_empty req.creator e.creator;
}

-- What upsertExchange does to the exchange that it finds.
unfoldable pub replaced : ExchangeRequest → Exchange → Exchange
replaced req e = record {
  id = e.id;
  address_a = req.address_a;
  partner_a = req.partner_a;
  status_a = req.status_a;
  address_b = req.address_b;
  partner_b = req.partner_b;
  status_b = req.status_b;
  creator = req.creator;
  created_at = e.created_at;
}

-- The exchange that upsertExchange makes where it finds none.
abbrev pub imported : ExchangeRequest → ℕ → Exchange
imported req now = record {
  id = req.id;
  address_a = req.address_a;
  partner_a = req.partner_a;
  status_a = req.status_a;
  address_b = req.address_b;
  partner_b = req.partner_b;
  status_b = req.status_b;
  creator = req.creator;
  created_at = now;
}

abbrev pub new_exchange : Text → ExchangeCreateRequest → ℕ → Exchange
new_exchange id req now = record {
  id = id;
  address_a = req.address_a;
  partner_a = [];
  status_a = [];
  address_b = req.address_b;
  partner_b = [];
  status_b = [];
  creator = [];
  created_at = now;
}

-- The loop that changes the first exchange with the id and leaves it by `break`.
unfoldable pub change_first : Text → (Exchange → Exchange) → List Exchange → List Exchange
change_first id f [] = []
change_first id f (e ∷ es) =
    let rest = change_first id f es in if e.id == id then f e ∷ es else e ∷ rest

-- What that loop found, already changed.
unfoldable pub found_first : Text → (Exchange → Exchange) → List Exchange → Option Exchange
found_first id f [] = none
found_first id f (e ∷ es) =
    let rest = found_first id f es in if e.id == id then some (f e) else rest

-- The loop of deleteExchange.
unfoldable pub without_id : Text → List Exchange → List Exchange
without_id id [] = []
without_id id (e ∷ es) = let rest = without_id id es in if not (e.id == id) then e ∷ rest else rest

module _ {Blob : Type 0} (st : Storage Blob) ⦃codec : Codec Blob (List Exchange)⦄ where
  abbrev or_none : Result Error (Option (List Exchange)) → Result Error (List Exchange)
  or_none (err e) = err e
  or_none (ok none) = ok []
  or_none (ok (some list)) = ok list

  unfoldable pub load_exchanges : st.State → Result Error (List Exchange)
  load_exchanges s = or_none (load st exchanges_key s)

  unfoldable pub save_exchanges : List Exchange → Act Error st.State (Unit {0})
  save_exchanges list = save st exchanges_key list

  pub list_exchanges : Act HttpError st.State (Reply (List Exchange))
  list_exchanges = do
    list ← or_respond (reads load_exchanges) 500 (bytes "storage error")
    respond_ok (some list)

  -- `req` is what Decode left, since its error is ignored; `drawn` are the bytes of randID.
  pub create_exchange : ExchangeCreateRequest → ℕ → List ℕ → Act HttpError st.State (Reply Exchange)
  create_exchange req now drawn = do
    list ← or_respond (reads load_exchanges) 500 (bytes "storage error")
    let ex = new_exchange (hex_encode drawn) req now
    or_respond (save_exchanges (ex ∷ list)) 500 (bytes "failed to save exchange")
    respond_ok (some ex)

  save_updated : Option Exchange → List Exchange → Act HttpError st.State (Reply Exchange)
  save_updated none list = respond_error 404 (bytes "exchange not found")
  save_updated (some ex) list = do
    or_respond (save_exchanges list) 500 (bytes "failed to save exchange")
    respond_ok (some ex)

  pub update_exchange : Result Error ExchangeRequest → Act HttpError st.State (Reply Exchange)
  unfolding save_updated
  update_exchange body = do
    req ← decoded body
    reject_if (is_empty req.id) 400 (bytes "id is required")
    list ← or_respond (reads load_exchanges) 500 (bytes "storage error")
    save_updated (found_first req.id (updated req) list) (change_first req.id (updated req) list)

  save_upserted :
      Option Exchange
      → ExchangeRequest
      → ℕ
      → List Exchange
      → Act HttpError st.State (Reply Exchange)
  save_upserted (some ex) req now list = do
    or_respond (save_exchanges (change_first req.id (replaced req) list)) 500
        (bytes "failed to save exchange")
    respond_ok (some ex)
  save_upserted none req now list = do
    or_respond (save_exchanges (imported req now ∷ list)) 500 (bytes "failed to save exchange")
    respond_ok (some (imported req now))

  pub upsert_exchange : Result Error ExchangeRequest → ℕ → Act HttpError st.State (Reply Exchange)
  unfolding save_upserted
  upsert_exchange body now = do
    req ← decoded body
    reject_if (is_empty req.id) 400 (bytes "id is required")
    list ← or_respond (reads load_exchanges) 500 (bytes "storage error")
    save_upserted (found_first req.id (replaced req) list) req now list

  -- The reply is the value of `deleted`.
  pub delete_exchange : Result Error Text → Act HttpError st.State (Reply Bool)
  delete_exchange body = do
    id ← decoded body
    reject_if (is_empty id) 400 (bytes "id is required")
    list ← or_respond (reads load_exchanges) 500 (bytes "storage error")
    or_respond (save_exchanges (without_id id list)) 500 (bytes "failed to delete exchange")
    respond_ok (some true)
