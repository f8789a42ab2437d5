-- ===== src/Auth/Nonce.antt =====
-- auth/nonce.go: the store of login nonces. Times are in nanoseconds; the mutex makes each
-- operation one step.
pub mod OneTime
mod Tests
use signature_escrow.Common.{
  ℕ, ◌+◌, ◌*◌, Bool, true, false, not, ◌&&◌, Option, none, some, List, ltb, if◌then◌else◌,
}
use signature_escrow.Text.{Text, to_lower, ◌==◌}
use signature_escrow.Text.Hex.{hex_encode}
use signature_escrow.Act.{Result, ok, err}
use signature_escrow.Storage.{Error}

abbrev pub nonce_ttl : ℕ
nonce_ttl = 5 * 60 * 1_000_000_000

pub record NonceEntry : Type 0 where
  pub nonce : Text
  pub expires_at : ℕ

-- The map `nonces`.
abbrev pub NonceStore : Type 0
NonceStore = Text → Option NonceEntry

unfoldable pub set : Text → NonceEntry → NonceStore → NonceStore
set key e ns j = if key == j then some e else ns j

unfoldable pub delete : Text → NonceStore → NonceStore
delete key ns j = if key == j then none else ns j

-- `drawn` is what `rand.Read` filled the 16 bytes with.
unfoldable pub generate :
    Text → ℕ → Result Error (List ℕ) → NonceStore → Result Error Text × NonceStore
unfolding set
generate address now (err e) ns = (err e, ns)
generate address now (ok drawn) ns =
    let nonce = hex_encode drawn in
    (ok nonce, set (to_lower address) (record { nonce = nonce; expires_at = now + nonce_ttl }) ns)

-- `time.Now().After(entry.expiresAt)`
abbrev pub is_expired : ℕ → NonceEntry → Bool
is_expired now e = ltb e.expires_at now

abbrev matches : ℕ → Text → Option NonceEntry → Bool
matches now nonce none = false
matches now nonce (some e) = if is_expired now e then false else e.nonce == nonce

abbrev consumed : Text → Option NonceEntry → NonceStore → NonceStore
consumed key none ns = ns
consumed key (some e) ns = delete key ns

unfoldable pub verify : Text → Text → ℕ → NonceStore → Bool × NonceStore
unfolding delete
verify address nonce now ns =
    let key = to_lower address in (matches now nonce (ns key), consumed key (ns key) ns)

abbrev unless_expired : ℕ → Option NonceEntry → Option NonceEntry
unless_expired now none = none
unless_expired now (some e) = if is_expired now e then none else some e

unfoldable pub cleanup : ℕ → NonceStore → NonceStore
cleanup now ns key = unless_expired now (ns key)
