-- ===== src/Auth/Nonce/OneTime.antt =====
-- How often and how long a nonce of auth/nonce.go logs its address in.
use signature_escrow.Common.{
  ℕ, ◌+◌, ◌≤◌, ◌≡◌, ◌≢◌, ◌↔◌, true, false, none, some, List, [], ◌∷◌, arith,
}
use signature_escrow.Text.{Text, to_lower, ==_iff, ==_refl}
use signature_escrow.Text.Hex.{hex_encode}
use signature_escrow.Act.{Result, ok, err}
use signature_escrow.Storage.{Error}
use signature_escrow.Auth.Nonce.{NonceEntry, NonceStore, nonce_ttl, generate, verify, cleanup}

-- What happens to the store between two requests of one address.
pub data Event : Type 0 where
  generates : Text → ℕ → Result Error (List ℕ) → Event
  verifies : Text → Text → ℕ → Event
  cleans : ℕ → Event

unfoldable pub handle : Event → NonceStore → NonceStore
handle (generates address now drawn) ns = (generate address now drawn ns).1
handle (verifies address nonce now) ns = (verify address nonce now ns).1
handle (cleans now) ns = cleanup now ns

pub run : List Event → NonceStore → NonceStore
run [] ns = ns
run (e ∷ es) ns = run es (handle e ns)

-- No event gives the address a new nonce.
abbrev pub NoGenerate : Text → List Event → Type 0
NoGenerate key [] = Unit
NoGenerate key (generates address now drawn ∷ es) = (to_lower address ≢ key) × NoGenerate key es
NoGenerate key (verifies address nonce now ∷ es) = NoGenerate key es
NoGenerate key (cleans now ∷ es) = NoGenerate key es

-- No event is about the address, and no clean-up comes later than `limit`.
abbrev pub Apart : Text → ℕ → List Event → Type 0
Apart key limit [] = Unit
Apart key limit (generates address now drawn ∷ es) = (to_lower address ≢ key) × Apart key limit es
Apart key limit (verifies address nonce now ∷ es) = (to_lower address ≢ key) × Apart key limit es
Apart key limit (cleans now ∷ es) = (now ≤ limit) × Apart key limit es

absent-run :
    (key : Text) (es : List Event) (ns : NonceStore)
    → NoGenerate key es
    → ns key ≡ none
    → run es ns key ≡ none
unfolding run handle generate verify cleanup
absent-run key [] ns w h = h
absent-run key (generates address now (ok drawn) ∷ es) ns (other, w) h =
    absent-run key es _ w (ground (arith, ==_iff (to_lower address) key))
absent-run key (generates address now (err e) ∷ es) ns (other, w) h = absent-run key es ns w h
absent-run key (verifies address nonce now ∷ es) ns w h =
    absent-run key es _ w (ground (arith, ==_iff (to_lower address) key))
absent-run key (cleans now ∷ es) ns w h = absent-run key es _ w (ground arith)

verify_absent :
    (address nonce : Text) (now : ℕ) (ns : NonceStore)
    → ns (to_lower address) ≡ none
    → (verify address nonce now ns).0 ≡ false
unfolding verify
verify_absent address nonce now ns h = ground arith

verify_deletes :
    (address nonce : Text) (now : ℕ) (ns : NonceStore)
    → (verify address nonce now ns).1 (to_lower address) ≡ none
unfolding verify
verify_deletes address nonce now ns = ground (arith, ==_refl (to_lower address))

-- After a check of a nonce for an address, whatever its answer, each further check for that address
-- fails, with any nonce and at any time, as long as no nonce is generated for the address between
-- them; other checks, generations for other addresses and clean-ups may come between.
pub verify_once :
    (address nonce again : Text) (t now : ℕ) (es : List Event) (ns : NonceStore)
    → NoGenerate (to_lower address) es
    → (verify address again now (run es (verify address nonce t ns).1)).0 ≡ false
verify_once address nonce again t now es ns w =
    verify_absent address again now (run es (verify address nonce t ns).1) (
      absent-run (to_lower address) es (verify address nonce t ns).1 w
        (verify_deletes address nonce t ns))

kept-run :
    (key : Text) (e : NonceEntry) (es : List Event) (ns : NonceStore)
    → Apart key e.expires_at es
    → ns key ≡ some e
    → run es ns key ≡ some e
unfolding run handle generate verify cleanup
kept-run key e [] ns w h = h
kept-run key e (generates address now (ok drawn) ∷ es) ns (other, w) h =
    kept-run key e es _ w (ground (arith, ==_iff (to_lower address) key))
kept-run key e (generates address now (err x) ∷ es) ns (other, w) h = kept-run key e es ns w h
kept-run key e (verifies address nonce now ∷ es) ns (other, w) h =
    kept-run key e es _ w (ground (arith, ==_iff (to_lower address) key))
kept-run key e (cleans now ∷ es) ns (early, w) h = kept-run key e es _ w (ground arith)

-- The entry that a generated nonce has.
abbrev entry_of : ℕ → List ℕ → NonceEntry
entry_of t drawn = record { nonce = hex_encode drawn; expires_at = t + nonce_ttl }

generate_stores :
    (address : Text) (t : ℕ) (drawn : List ℕ) (ns : NonceStore)
    → (generate address t (ok drawn) ns).1 (to_lower address) ≡ some (entry_of t drawn)
unfolding generate
generate_stores address t drawn ns = ground (arith, ==_refl (to_lower address))

verify_entry :
    (address nonce : Text) (now : ℕ) (e : NonceEntry) (ns : NonceStore)
    → ns (to_lower address) ≡ some e
    → ((verify address nonce now ns).0 ≡ true) ↔ ((now ≤ e.expires_at) × (e.nonce ≡ nonce))
unfolding verify
verify_entry address nonce now e ns h = ground (arith, ==_iff e.nonce nonce)

-- After a nonce was generated for an address, and events that concern other addresses or clean up
-- before it expires, a check succeeds in any letter case of the address exactly if the nonce is the
-- generated one and at most five minutes have passed.
pub generate-verify :
    (address same nonce : Text) (t now : ℕ) (drawn : List ℕ) (es : List Event) (ns : NonceStore)
    → Apart (to_lower address) (t + nonce_ttl) es
    → to_lower same ≡ to_lower address
    → ((verify same nonce now (run es (generate address t (ok drawn) ns).1)).0 ≡ true)
      ↔ ((now ≤ t + nonce_ttl) × (hex_encode drawn ≡ nonce))
generate-verify address same nonce t now drawn es ns w k =
    verify_entry same nonce now (entry_of t drawn) (run es (generate address t (ok drawn) ns).1) (
      rw k (
        kept-run (to_lower address) (entry_of t drawn) es (generate address t (ok drawn) ns).1 w
          (generate_stores address t drawn ns)))

-- A clean-up changes no answer from then on.
pub verify-cleanup :
    (address nonce : Text) (t now : ℕ) (ns : NonceStore)
    → t ≤ now
    → (verify address nonce now (cleanup t ns)).0 ≡ (verify address nonce now ns).0
unfolding verify cleanup
verify-cleanup address nonce t now ns later = ground arith
