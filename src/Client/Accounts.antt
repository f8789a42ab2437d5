-- ===== src/Client/Accounts.antt =====
-- client/accounts.go: the shared accounts that a client keeps. `req.Index` is an `int`, of which the
-- model has the numbers from 0 up.
pub mod Listed
pub mod Delete
mod Tests
use signature_escrow.Common.{
  ℕ, zero, suc, ◌+◌, ◌≡◌, Bool, true, false, not, ◌&&◌, ◌||◌, Option, none, some, List, [], ◌∷◌,
  ◌++◌, nat_eq, if◌then◌else◌,
}
use signature_escrow.Text.{Text, bytes, ◌==◌, is_empty, equal_fold}
use signature_escrow.Text.Decimal.{print_decimal}
use signature_escrow.Act.{
  Result, ok, err, Act, pure, lift, reads, or_fail, continue, attempt, ◌>>=◌, ◌>>◌,
}
use signature_escrow.Storage.{Error, Storage, Codec, load}
use signature_escrow.Http.{
  HttpError, Reply, respond_ok, respond_error, reject_if, or_respond, decoded,
}

pub record AccountMeta : Type 0 where
  pub network : Text
  pub index : ℕ
  pub address : Text
  pub public_key : Text
  pub pair_my_id : Text
  pub pair_other : Text
  pub session_id : Text

pub record AccountGetRequest : Type 0 where
  pub network : Text
  pub index : ℕ

pub record AccountDeleteRequest : Type 0 where
  pub network : Text
  pub index : ℕ
  pub address : Text

-- fmt.Sprintf("accounts/%s/%d", network, index)
unfoldable pub account_base : Text → ℕ → Text
account_base network index = bytes "accounts/" ++ (network ++ (bytes "/" ++ print_decimal index))

abbrev pub meta_key : Text → ℕ → Text
meta_key network index = account_base network index ++ bytes "/meta"

-- The keys that deleteAccount removes, in its order.
unfoldable pub account_keys : Text → List Text
account_keys base =
    (base ++ bytes "/meta")
    ∷ (base ++ bytes "/conf-ecdsa")
    ∷ (base ++ bytes "/presig-ecdsa")
    ∷ (base ++ bytes "/conf-frost")
    ∷ (base ++ bytes "/presig-frost")
    ∷ []

abbrev max_index : ℕ
max_index = 100

abbrev pub both_networks : List Text
both_networks = bytes "eth" ∷ bytes "btc" ∷ []

abbrev pub networks_of : Text → List Text
networks_of network = if is_empty network then both_networks else network ∷ []

module _ {Blob : Type 0} (st : Storage Blob) ⦃codec : Codec Blob AccountMeta⦄ where
  abbrev pub readable : Result Error (Option AccountMeta) → Option AccountMeta
  readable (ok o) = o
  readable (err _) = none

  abbrev pub with_account : Option AccountMeta → List AccountMeta → List AccountMeta
  with_account none rest = rest
  with_account (some a) rest = a ∷ rest

  -- The loop over indices, `n` of them from `i` on; what is not there or cannot be read is passed over.
  unfoldable pub accounts_from : Text → ℕ → ℕ → st.State → List AccountMeta
  accounts_from network zero i s = []
  accounts_from network (suc n) i s =
      with_account (readable (load st (meta_key network i) s)) (accounts_from network n (i + 1) s)

  unfoldable pub accounts_of : List Text → st.State → List AccountMeta
  accounts_of [] s = []
  accounts_of (network ∷ networks) s = accounts_from network max_index 1 s ++ accounts_of networks s

  -- `network` is the query's parameter, "" where there is none.
  unfoldable pub list_accounts : Text → Act HttpError st.State (Reply (List AccountMeta))
  list_accounts network s = respond_ok (some (accounts_of (networks_of network) s)) s

  abbrev unmarshalled : Option Blob → Act HttpError st.State AccountMeta
  unmarshalled none = respond_error 404 (bytes "account not found")
  unmarshalled (some blob) = or_respond (lift (codec.unmarshal blob)) 500 (bytes "unmarshal error")

  -- `Get` and Unmarshal, which fail with different words.
  abbrev found_at : Text → Act HttpError st.State AccountMeta
  found_at key = do o ← or_respond (reads (st.get key)) 500 (bytes "storage error"); unmarshalled o

  unfoldable pub get_account :
      Result Error AccountGetRequest → Act HttpError st.State (Reply AccountMeta)
  get_account body = do
    req ← decoded body
    reject_if (is_empty req.network || nat_eq req.index 0) 400
        (bytes "network and index are required")
    meta ← found_at (meta_key req.network req.index)
    respond_ok (some meta)

  -- The loop of deletes, whose errors are ignored.
  unfoldable pub delete_keys : List Text → st.State → st.State
  delete_keys [] s = s
  delete_keys (k ∷ ks) s = delete_keys ks (st.delete k s).1

  abbrev removes : List Text → Act HttpError st.State (Unit {0})
  removes ks s = (ok tt, delete_keys ks s)

  -- The reply is the address of the account.
  unfoldable pub delete_account :
      Result Error AccountDeleteRequest → Act HttpError st.State (Reply Text)
  delete_account body = do
    req ← decoded body
    reject_if (is_empty req.network || nat_eq req.index 0) 400
        (bytes "network and index are required")
    let base = account_base req.network req.index
    meta ← found_at (base ++ bytes "/meta")
    reject_if (not (is_empty req.address) && not (equal_fold req.address meta.address)) 400
        (bytes "address confirmation does not match this account")
    removes (account_keys base)
    respond_ok (some meta.address)
