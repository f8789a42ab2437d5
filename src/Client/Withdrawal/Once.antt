-- ===== src/Client/Withdrawal/Once.antt =====
-- A swap that is being co-signed, and further requests for it.
use signature_escrow.Common.{ℕ, ◌≡◌, ◌≢◌, true, false, ◌&&◌, ◌||◌, Option, List, [], ◌∷◌, arith}
use signature_escrow.Text.{Text, bytes, is_empty, ◌==◌, ==_iff, ==_refl}
use signature_escrow.Act.{Result, ok, err}
use signature_escrow.Storage.{Error, Storage, Codec}
use signature_escrow.Http.{HttpError}
use signature_escrow.Client.Cosign.{CosignEvent}
use signature_escrow.Client.Withdrawal.{
  AcceptWithdrawalTxRequest, mark, State, enter, admit, finish,
}

-- A request that passes the checks of its fields.
abbrev pub HasFields : AcceptWithdrawalTxRequest → Type 0
HasFields req =
    ((is_empty req.algorithm
        || is_empty req.name
        || is_empty req.escrow_address
        || is_empty req.my_id
        || is_empty req.another)
      ≡ false)
    × (is_empty req.hash_tx ≡ false)
    × ((req.algorithm == bytes "ecdsa" && is_empty req.tx_data) ≡ false)

abbrev pub status_of : {A : Type 0} → Result HttpError A → ℕ
status_of (ok a) = 200
status_of (err e) = e.status

-- A request begins, or one for a swap ends with what it records.
pub data Event : Type 0 where
  begins : Result Error AcceptWithdrawalTxRequest → Event
  ends : Text → Option (CosignEvent × ℕ × List ℕ) → Event

-- No request for the swap ends.
abbrev pub NoEnd : Text → List Event → Type 0
NoEnd id [] = Unit
NoEnd id (begins body ∷ es) = NoEnd id es
NoEnd id (ends j outcome ∷ es) = (j ≢ id) × NoEnd id es

module _ {Blob : Type 0} (st : Storage Blob) ⦃codec : Codec Blob (List CosignEvent)⦄ where
  unfoldable pub handle : Event → State st → State st
  handle (begins body) w = (admit st body w).1
  handle (ends id outcome) w = finish st id outcome w

  unfoldable pub run : List Event → State st → State st
  run [] w = w
  run (e ∷ es) w = run es (handle e w)

  admit_busy :
      (req : AcceptWithdrawalTxRequest) (w : State st)
      → HasFields req
      → is_empty req.escrow_id ≡ false
      → w.0 req.escrow_id ≡ true
      → status_of (admit st (ok req) w).0 ≡ 409
  unfolding admit enter
  admit_busy req (busy, s) (a, b, c) named h = ground arith

  admit_enters :
      (req : AcceptWithdrawalTxRequest) (w : State st)
      → is_empty req.escrow_id ≡ false
      → (admit st (ok req) w).0 ≡ ok req
      → (admit st (ok req) w).1.0 req.escrow_id ≡ true
  unfolding admit enter mark
  admit_enters req (busy, s) named h = ground (arith, ==_refl req.escrow_id)

  busy-handle :
      (id : Text) (e : Event) (w : State st)
      → NoEnd id (e ∷ [])
      → w.0 id ≡ true
      → (handle e w).0 id ≡ true
  unfolding handle admit enter finish mark
  busy-handle id (begins (err x)) (busy, s) n h = h
  busy-handle id (begins (ok req)) (busy, s) n h = ground (arith, ==_iff req.escrow_id id)
  busy-handle id (ends j outcome) (busy, s) (other, _) h = ground (arith, ==_iff j id)

  busy-run :
      (id : Text) (es : List Event) (w : State st)
      → NoEnd id es
      → w.0 id ≡ true
      → (run es w).0 id ≡ true
  unfolding run
  busy-run id [] w n h = h
  busy-run id (begins body ∷ es) w n h = busy-run id es _ n (busy-handle id (begins body) w tt h)
  busy-run id (ends j outcome ∷ es) w (other, n) h =
      busy-run id es _ n (busy-handle id (ends j outcome) w (other, tt) h)

  -- While a request to co-sign a named swap runs, each further request for the swap with all its
  -- fields is refused with 409, whatever requests begin meanwhile and whatever requests for other
  -- swaps end.
  pub admit_excludes :
      (req again : AcceptWithdrawalTxRequest) (es : List Event) (w : State st)
      → (admit st (ok req) w).0 ≡ ok req
      → is_empty req.escrow_id ≡ false
      → NoEnd req.escrow_id es
      → HasFields again
      → again.escrow_id ≡ req.escrow_id
      → status_of (admit st (ok again) (run es (admit st (ok req) w).1)).0 ≡ 409
  admit_excludes req again es w h named n fields same =
      let marked =
        busy-run req.escrow_id es (admit st (ok req) w).1 n (admit_enters req w named h) in
      admit_busy again (run es (admit st (ok req) w).1) fields (rw same named) (rw same marked)
