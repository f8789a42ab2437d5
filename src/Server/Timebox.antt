-- ===== src/Server/Timebox.antt =====
-- server/timebox.go: a signature that a pair can fetch an hour after it was stored. Times are in
-- nanoseconds.
pub mod Lock
pub mod Post
mod Tests
use signature_escrow.Common.{
  ℕ, ◌+◌, ◌-◌, ◌*◌, ◌/◌, Bool, true, false, not, ◌&&◌, ◌||◌, Option, none, some, List, [], ◌∷◌,
  ◌++◌, ltb, nat_eq, length, if◌then◌else◌,
}
use signature_escrow.Text.{Text, bytes, ◌==◌, is_empty, equal_fold}
use signature_escrow.Text.Hex.{hex_encode, hex_decode}
use signature_escrow.Act.{
  Result, ok, err, Act, pure, lift, reads, throw, or_fail, continue, ◌>>=◌, ◌>>◌,
}
use signature_escrow.Storage.{Error, Storage, Codec, load, save}
use signature_escrow.Http.{HttpError, Reply, respond_ok, respond_error, reject_if, or_respond}
use signature_escrow.Validation.{Bytes, Signatures, validate}
use signature_escrow.Server.Pairing.{Pair, load_pair}
use signature_escrow.Server.Escrow.Request
use signature_escrow.Server.Escrow.Request.{
  fail_if, known_alg, alg_error, decode_pub, decode_hash, decode_sig,
}

abbrev pub second : ℕ
second = 1_000_000_000

-- One hour.
abbrev pub timebox_delay : ℕ
timebox_delay = 60 * 60 * second

pub record TimeboxEntry : Type 0 where
  pub alg : Text
  pub pub_key : Bytes
  pub hash : Bytes
  pub sig : Bytes
  pub pair_id : Text
  pub created_at : ℕ

pub record TimeboxPostRequest : Type 0 where
  pub alg : Text
  pub pair_id : Text
  pub pub_hex : Text
  pub hash_hex : Text
  pub sig_hex : Text

abbrev pub pair_contains : Pair → Text → Bool
pair_contains p address = equal_fold p.initiator address || equal_fold p.partner address

abbrev pub timebox_key : Bytes → Text
timebox_key key = bytes "timebox/" ++ hex_encode key

infixl 10 ◌>>=?◌
abbrev ◌>>=?◌ : {A B : Type 0} → Result Error A → (A → Result Error B) → Result Error B
ok a >>=? f = f a
err e >>=? f = err e

unfoldable pub parse_timebox_post : Result Error TimeboxPostRequest → ℕ → Result Error TimeboxEntry
parse_timebox_post (err e) now = err (bytes "error parsing JSON")
parse_timebox_post (ok req) now =
    fail_if
      (is_empty req.alg
        || is_empty req.pair_id
        || is_empty req.pub_hex
        || is_empty req.hash_hex
        || is_empty req.sig_hex)
      (bytes "alg, pair_id, pub, hash and sig are required")
    >>=? λ _. fail_if (not (known_alg req.alg)) alg_error >>=? λ _.
        decode_pub req.alg req.pub_hex >>=? λ key. decode_hash req.hash_hex >>=? λ hash.
        decode_sig req.sig_hex >>=? λ sig. ok (record {
          alg = req.alg;
          pub_key = key;
          hash = hash;
          sig = sig;
          pair_id = req.pair_id;
          created_at = now;
        })

-- What is answered to a GET.
pub data TimeboxView : Type 0 where
  absent invalid : TimeboxView
  -- the seconds left, and the time from which the signature is there
  locked : ℕ → ℕ → TimeboxView
  ready : Bytes → TimeboxView

-- An error of Validate leaves `valid` false.
abbrev pub is_valid : Result Error Bool → Bool
is_valid (err e) = false
is_valid (ok b) = b

abbrev pub available_at : TimeboxEntry → ℕ
available_at e = e.created_at + timebox_delay

abbrev view_at : ℕ → TimeboxEntry → TimeboxView
view_at now e =
    if ltb now (available_at e)
    then locked ((available_at e - now) / second) (available_at e)
    else ready e.sig

module _ {Blob : Type 0} (st : Storage Blob) ⦃timebox_codec : Codec Blob TimeboxEntry⦄ where
  pub get_timebox : Bytes → st.State → Result Error (Option TimeboxEntry)
  get_timebox key s = load st (timebox_key key) s

  pub put_timebox : TimeboxEntry → Act Error st.State (Unit {0})
  put_timebox e = save st (timebox_key e.pub_key) e

  -- The program declares it and never calls it.
  pub delete_timebox : Bytes → Act Error st.State (Unit {0})
  delete_timebox key = st.delete (timebox_key key)

module _ {Blob : Type 0} (st : Storage Blob) ⦃pair_codec : Codec Blob Pair⦄
    ⦃ids_codec : Codec Blob (List Text)⦄ where
  abbrev member_of : Text → Result Error (Option Pair) → Result Error Pair
  member_of caller (err e) = err (bytes "storage error")
  member_of caller (ok none) = err (bytes "pair not found")
  member_of caller (ok (some p)) =
      if pair_contains p caller then ok p else err (bytes "caller is not a member of this pair")

  unfoldable pub authorize_timebox_access : Text → Text → st.State → Result Error Pair
  authorize_timebox_access caller pair_id s =
      if is_empty pair_id
      then err (bytes "pair_id is required")
      else member_of caller (load_pair st pair_id s)

  module _ ⦃timebox_codec : Codec Blob TimeboxEntry⦄ (sigs : Signatures) where
    -- `parsed` is what parseTimeboxPost made of the request; the reply is `available_at`.
    pub timebox_post : Result Error TimeboxEntry → Text → Act HttpError st.State (Reply ℕ)
    timebox_post parsed caller = do
      e ← or_fail (lift parsed) (λ x. record { status = 400; message = x })
      or_fail (reads (authorize_timebox_access caller e.pair_id))
          (λ x. record { status = 403; message = x })
      valid ←
          or_fail (lift (validate sigs e.alg e.pub_key e.hash e.sig))
            (λ x. record { status = 400; message = bytes "signature validation: " ++ x })
      reject_if (not valid) 400 (bytes "signature does not verify")
      or_respond (put_timebox st e) 500 (bytes "storage error")
      respond_ok (some (available_at e))

    view_found : Bytes → Text → ℕ → Option TimeboxEntry → Act HttpError st.State (Reply TimeboxView)
    view_found hash caller now none = respond_ok (some absent)
    view_found hash caller now (some e) = do
      or_fail (reads (authorize_timebox_access caller e.pair_id))
          (λ x. record { status = 403; message = x })
      respond_ok (
          some (
            if is_valid (validate sigs e.alg e.pub_key hash e.sig) then view_at now e else invalid))

    pub timebox_get : Text → Text → Text → ℕ → Act HttpError st.State (Reply TimeboxView)
    unfolding view_found
    timebox_get pub_hex hash_hex caller now = do
      reject_if (is_empty pub_hex || is_empty hash_hex) 400
          (bytes "pub and hash query params are required")
      key ←
          or_fail (lift (hex_decode pub_hex))
            (λ x. record { status = 400; message = bytes "invalid pub hex: " ++ x })
      hash ←
          or_fail (lift (hex_decode hash_hex))
            (λ x. record { status = 400; message = bytes "invalid hash hex: " ++ x })
      reject_if (not (nat_eq (length hash) 32)) 400
          (Request.wrong_length (bytes "hash must be 32 bytes") (length hash))
      found ← or_respond (reads (get_timebox st key)) 500 (bytes "storage error")
      view_found hash caller now found
