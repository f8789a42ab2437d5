-- ===== src/Client/Withdrawal.antt =====
-- client/withdrawal.go, `acceptWithdrawalTx`: who may co-sign, once for each swap. What the handler
-- computes with the other party is an argument: the event that it records, or none.
pub mod Once
pub mod Recorded
pub mod Sign
pub mod Handlers
pub mod Verified
mod Tests
mod SignTests
use signature_escrow.Common.{
  ℕ, Bool, true, false, not, ◌&&◌, ◌||◌, Option, none, some, List, [], ◌∷◌, ◌++◌, if◌then◌else◌,
}
use signature_escrow.Text.{Text, bytes, ◌==◌, is_empty}
use signature_escrow.Act.{Result, ok, err, Act, pure, throw, lift, continue, ◌>>=◌, ◌>>◌, or_fail}
use signature_escrow.Storage.{Error, Storage, Codec}
use signature_escrow.Http.{HttpError, reject_if, respond_error}
use signature_escrow.Client.Cosign.{CosignEvent, load_cosign_history, record_cosign}

pub record AcceptWithdrawalTxRequest : Type 0 where
  pub algorithm : Text
  pub name : Text
  pub escrow_address : Text
  pub my_id : Text
  pub another : Text
  pub hash_tx : Text
  pub to : Text
  pub amount : Text
  pub tx_data : Text
  pub escrow_id : Text

-- The map `cosignBusy`.
abbrev pub Busy : Type 0
Busy = Text → Bool

unfoldable pub mark : Text → Bool → Busy → Busy
mark id b busy j = if id == j then b else busy j

-- An acceptor's event for the swap that was completed.
abbrev pub signs : Text → CosignEvent → Bool
signs escrow_id ev =
    ev.role == bytes "acceptor" && ev.escrow_id == escrow_id && ev.status == bytes "completed"

-- The scan of the history.
unfoldable pub already_signed : Text → List CosignEvent → Bool
already_signed escrow_id [] = false
already_signed escrow_id (ev ∷ evs) = signs escrow_id ev || already_signed escrow_id evs

abbrev pub check_fields : {S : Type 0} → AcceptWithdrawalTxRequest → Act HttpError S (Unit {0})
check_fields req = do
  reject_if
      (is_empty req.algorithm
        || is_empty req.name
        || is_empty req.escrow_address
        || is_empty req.my_id
        || is_empty req.another)
      400 (bytes "alg, name and escrow_address are required")
  reject_if (is_empty req.hash_tx) 400 (bytes "hash_tx is required")
  reject_if (req.algorithm == bytes "ecdsa" && is_empty req.tx_data) 400
      (bytes "tx_data is required: the co-signer must verify what it signs")

-- What the handler records once it has signed: for ECDSA the completed event, for FROST nothing.
-- `signature` is the complete signature, `signed_hash` the hash that the initiator sent.
unfoldable pub outcome_of :
    AcceptWithdrawalTxRequest
    → Text × ℕ
    → Text
    → Text
    → ℕ
    → List ℕ
    → Option (CosignEvent × ℕ × List ℕ)
outcome_of req (network, index) signed_hash signature now drawn =
    if req.algorithm == bytes "ecdsa"
    then some (
      record {
        id = [];
        role = bytes "acceptor";
        status = bytes "completed";
        network = network;
        index = index;
        escrow = req.escrow_address;
        to = req.to;
        amount = req.amount;
        hash = signed_hash;
        signature = signature;
        tx_data = req.tx_data;
        tx_hash = [];
        failure = [];
        escrow_id = req.escrow_id;
        public_key = [];
        created_at = 0;
      },
      now,
      drawn,
    )
    else none

-- The UTF-8 encoding of the dash in the message below.
abbrev em_dash : Text
em_dash = 226 ∷ 128 ∷ 148 ∷ []

module _ {Blob : Type 0} (st : Storage Blob) ⦃codec : Codec Blob (List CosignEvent)⦄ where
  abbrev pub State : Type 0
  State = Busy × st.State

  -- The section under `cosignMu`, for a swap that is named.
  unfoldable pub enter : Text → Act HttpError State (Unit {0})
  enter escrow_id (busy, s) =
      if busy escrow_id
      then respond_error 409
          (bytes "a co-sign for this swap (escrow_id="
            ++ (escrow_id ++ bytes ") is already in progress"))
          (busy, s)
      else if already_signed escrow_id (load_cosign_history st s)
      then respond_error 409
          (bytes "already co-signed once for this swap (escrow_id="
            ++ (escrow_id ++ (bytes ") " ++ em_dash ++ bytes " refusing a second signature")))
          (busy, s)
      else pure tt (mark escrow_id true busy, s)

  -- The handler up to the run of the protocol.
  pub admit : Result Error AcceptWithdrawalTxRequest → Act HttpError State AcceptWithdrawalTxRequest
  admit body = do
    req ←
        or_fail (lift body)
          (λ e. record { status = 400; message = bytes "invalid request body: " ++ e })
    check_fields req
    if is_empty req.escrow_id then pure req else do enter req.escrow_id; pure req

  abbrev recorded : Option (CosignEvent × ℕ × List ℕ) → st.State → st.State
  recorded none s = s
  recorded (some (ev, now, drawn)) s = record_cosign st ev now drawn s

  -- The end of the handler: what it records, and the deferred removal from `cosignBusy`.
  unfoldable pub finish : Text → Option (CosignEvent × ℕ × List ℕ) → State → State
  finish escrow_id outcome (busy, s) =
      (if is_empty escrow_id then busy else mark escrow_id false busy, recorded outcome s)
