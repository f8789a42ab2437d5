-- ===== src/Client/Cosign.antt =====
-- client/cosign_history.go: the history of co-signed transactions, newest first and bounded.
pub mod Bounds
mod Tests
use signature_escrow.Common.{
  ℕ, zero, suc, Bool, true, false, not, ◌&&◌, ◌||◌, Option, none, some, List, [], ◌∷◌, map, ltb,
  nat_eq, length, if◌then◌else◌,
}
use signature_escrow.Text.{Text, bytes, ◌==◌, is_empty}
use signature_escrow.Text.Hex.{hex_encode}
use signature_escrow.Act.{Result, ok, err, Act, pure, lift, continue, ◌>>=◌, ◌>>◌, or_fail}
use signature_escrow.Storage.{Error, Storage, Codec, load, save}
use signature_escrow.Http.{HttpError, Reply, respond_ok, reject_if}

abbrev pub cosign_history_key : Text
cosign_history_key = bytes "cosign-history/all"

abbrev pub cosign_history_max : ℕ
cosign_history_max = 200

-- `public_key` is the field Pub, and `failure` the field Error.
pub record CosignEvent : Type 0 where
  pub id : Text
  pub role : Text
  pub status : Text
  pub network : Text
  pub index : ℕ
  pub escrow : Text
  pub to : Text
  pub amount : Text
  pub hash : Text
  pub signature : Text
  pub tx_data : Text
  pub tx_hash : Text
  pub failure : Text
  pub escrow_id : Text
  pub public_key : Text
  pub created_at : ℕ

-- `list[:n]`, where the list is so long.
unfoldable pub take {ℓ} : {A : Type ℓ} → ℕ → List A → List A
take zero es = []
take (suc n) [] = []
take (suc n) (e ∷ es) = e ∷ take n es

-- An event with the id and the time that recordCosign gives it where it has none.
abbrev pub dated : CosignEvent → ℕ → List ℕ → CosignEvent
dated ev now drawn = record ev {
  id = if is_empty ev.id then hex_encode drawn else ev.id;
  created_at = if nat_eq ev.created_at 0 then now else ev.created_at;
}

abbrev pub bounded : List CosignEvent → List CosignEvent
bounded list = if ltb cosign_history_max (length list) then take cosign_history_max list else list

-- The initiator's event for the hash, if it was not broadcast.
abbrev pub completes : Text → CosignEvent → Bool
completes hash ev =
    ev.hash == hash && ev.role == bytes "initiator" && not (ev.status == bytes "broadcast")

unfoldable pub complete_events : Text → Text → List CosignEvent → List CosignEvent
complete_events hash signature [] = []
complete_events hash signature (ev ∷ evs) =
    let rest = complete_events hash signature evs in
    if completes hash ev
    then record ev { status = bytes "completed"; signature = signature } ∷ rest
    else ev ∷ rest

-- The value of `updated`.
unfoldable pub any_completes : Text → List CosignEvent → Bool
any_completes hash [] = false
any_completes hash (ev ∷ evs) = completes hash ev || any_completes hash evs

module _ {Blob : Type 0} (st : Storage Blob) ⦃codec : Codec Blob (List CosignEvent)⦄ where
  abbrev or_none : Result Error (Option (List CosignEvent)) → List CosignEvent
  or_none (err e) = []
  or_none (ok none) = []
  or_none (ok (some list)) = list

  -- A history that cannot be read is empty.
  unfoldable pub load_cosign_history : st.State → List CosignEvent
  load_cosign_history s = or_none (load st cosign_history_key s)

  -- `_ = c.stor.Put(…)`: an error is passed over.
  unfoldable pub save_history : List CosignEvent → st.State → st.State
  save_history list s = (save st cosign_history_key list s).1

  unfoldable pub record_cosign : CosignEvent → ℕ → List ℕ → st.State → st.State
  record_cosign ev now drawn s =
      save_history (bounded (dated ev now drawn ∷ load_cosign_history s)) s

  complete_found : Text → Text → List CosignEvent → st.State → st.State
  complete_found hash signature list s =
      if any_completes hash list then save_history (complete_events hash signature list) s else s

  -- `body` is the hash and the signature; the reply is the value of `updated`.
  pub complete_cosign : Result Error (Text × Text) → Act HttpError st.State (Reply Bool)
  complete_cosign body = do
    (hash, signature) ← or_fail (lift body) (λ e. record { status = 400; message = e })
    reject_if (is_empty hash || is_empty signature) 400 (bytes "hash and signature are required")
    updated ← λ s. (
      ok (any_completes hash (load_cosign_history s)),
      complete_found hash signature (load_cosign_history s) s,
    )
    respond_ok (some updated)

  pub list_cosign_history : Act HttpError st.State (Reply (List CosignEvent))
  list_cosign_history s = respond_ok (some (load_cosign_history s)) s

  pub clear_cosign_history : Act HttpError st.State (Reply Bool)
  clear_cosign_history s = respond_ok (some true) (st.delete cosign_history_key s).1
