-- ===== src/Http.antt =====
-- server/server.go, `respondOk` and `respondError`: how a handler answers. A request body comes
-- decoded: it is the result of the handler's `json.NewDecoder(r.Body).Decode(&req)`.
use signature_escrow.Common.{ℕ, Option, none, some, Bool, true, false, ◌++◌}
use signature_escrow.Text.{Text, bytes}
use signature_escrow.Act.{Result, ok, err, Act, pure, throw, lift, or_fail}

pub record HttpError : Type 0 where
  pub status : ℕ
  pub message : Text

-- 200 with a body, or 204 with none.
pub data Reply (A : Type 0) : Type 0 where
  content : A → Reply A
  no_content : Reply A

abbrev pub respond_ok : {S A : Type 0} → Option A → Act HttpError S (Reply A)
respond_ok none = pure no_content
respond_ok (some a) = pure (content a)

abbrev pub respond_error : {S A : Type 0} → ℕ → Text → Act HttpError S A
respond_error status message = throw (record { status = status; message = message })

-- `if test { respondError(w, status, message); return }`
abbrev pub reject_if : {S : Type 0} → Bool → ℕ → Text → Act HttpError S (Unit {0})
reject_if true status message = respond_error status message
reject_if false status message = pure tt

-- `if err != nil { respondError(w, status, …); return }` around a call.
abbrev pub or_respond : {S A : Type 0} → Act Text S A → ℕ → Text → Act HttpError S A
or_respond m status message = or_fail m (λ _. record { status = status; message = message })

abbrev pub status_code : {A : Type 0} → Result HttpError (Reply A) → ℕ
status_code (ok (content _)) = 200
status_code (ok no_content) = 204
status_code (err e) = e.status

-- The answer to a body that does not decode.
abbrev pub decoded : {S A : Type 0} → Result Text A → Act HttpError S A
decoded r =
    or_fail (lift r) (λ e. record { status = 400; message = bytes "invalid request: " ++ e })
