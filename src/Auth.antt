-- ===== src/Auth.antt =====
-- auth/auth.go and auth/middleware.go: who signed a login message, and the bearer token of a
-- session. What go-ethereum and golang-jwt compute are parameters.
pub mod Nonce
pub mod Token
pub mod Sample
mod Tests
use signature_escrow.Common.{
  ℕ, zero, suc, ◌-◌, ◌≡◌, sym, subst, inl, inr, arith, Bool-cases, Bool, true, false, not, Option,
  none, some, List, [], ◌∷◌, ◌++◌, leb, nat_eq, length, if◌then◌else◌,
}
use signature_escrow.Text.{Text, bytes, is_empty, to_lower, equal_fold, trim_prefix, ◌==◌}
use signature_escrow.Act.{Result, ok, err, Result-cases}
use signature_escrow.Storage.{Error}

-- github.com/ethereum/go-ethereum: addresses, EIP-191 hashes and the recovery of a public key.
pub record Ethereum : Type 1 where
  pub Address : Type 0
  pub Hash : Type 0
  pub PublicKey : Type 0
  pub is_hex_address : Text → Bool
  pub hex_to_address : Text → Address
  pub address_hex : Address → Text
  pub hexutil_decode : Text → Result Error (List ℕ)
  pub text_hash : Text → Hash
  pub sig_to_pub : Hash → List ℕ → Result Error PublicKey
  pub pubkey_to_address : PublicKey → Address

abbrev pub invalid_signature : Error
invalid_signature = bytes "invalid signature"

abbrev pub invalid_address : Error
invalid_address = bytes "invalid ethereum address"

abbrev pub invalid_token : Error
invalid_token = bytes "invalid token"

-- `if sig[64] >= 27 { sig[64] -= 27 }`: the byte at the position, where the list is so long.
unfoldable pub normalize_v : ℕ → List ℕ → List ℕ
normalize_v n [] = []
normalize_v zero (b ∷ bs) = (if leb 27 b then b - 27 else b) ∷ bs
normalize_v (suc n) (b ∷ bs) = b ∷ normalize_v n bs

-- The message that a wallet signs to log in.
unfoldable pub generate_nonce : Text → Text → Text
generate_nonce address nonce =
    bytes "Sign in to MPC Oven"
    ++ (10 ∷ (bytes "Address: " ++ (address ++ (10 ∷ (bytes "Nonce: " ++ nonce)))))

module _ (eth : Ethereum) where
  open eth use {
    Address, is_hex_address, hex_to_address, address_hex, hexutil_decode, text_hash, sig_to_pub,
    pubkey_to_address,
  }

  unfoldable pub check_recovered : Text → Address → Result Error Address
  check_recovered address recovered =
      if equal_fold (address_hex recovered) (address_hex (hex_to_address address))
      then ok recovered
      else err invalid_signature

  unfoldable pub recover : Text → Text → List ℕ → Result Error Address
  recover address message sig = elim (sig_to_pub (text_hash message) (normalize_v 64 sig)) [
    | err e ↦ err (bytes "recover public key: " ++ e)
    | ok key ↦ check_recovered address (pubkey_to_address key)
  ]

  unfoldable pub check_sig : Text → Text → Result Error (List ℕ) → Result Error Address
  check_sig address message (err e) = err (bytes "decode signature: " ++ e)
  check_sig address message (ok sig) =
      if nat_eq (length sig) 65 then recover address message sig else err invalid_signature

  unfoldable pub verify_signature : Text → Text → Text → Result Error Address
  unfolding check_recovered recover check_sig
  verify_signature address message signature =
      if is_hex_address address
      then check_sig address message (hexutil_decode signature)
      else err invalid_address

  check_recovered_sound :
      (address : Text) (b a : Address)
      → check_recovered address b ≡ ok a
      → (a ≡ b) × (equal_fold (address_hex a) (address_hex (hex_to_address address)) ≡ true)
  unfolding check_recovered
  check_recovered_sound address b a h =
      elim (Bool-cases (equal_fold (address_hex b) (address_hex (hex_to_address address)))) [
        | inl same ↦
            let e : a ≡ b = ground (arith, same) in
            (
              e,
              subst (λ x. equal_fold (address_hex x) (address_hex (hex_to_address address)) ≡ true)
                  (sym e) same,
            )
        | inr other ↦ ground (arith, other)
      ]

  -- VerifySignature accepts a signature only if it decodes to 65 bytes, and the answer is the
  -- address of the public key recovered, with the last byte lowered by 27 where it is at least 27,
  -- from the hash of the message; this address is the given one.
  pub verify_signature_sound :
      (address message signature : Text) (a : Address)
      → verify_signature address message signature ≡ ok a
      → (sig : List ℕ) × (key : eth.PublicKey) × (hexutil_decode signature ≡ ok sig)
        × (length sig ≡ 65)
        × (sig_to_pub (text_hash message) (normalize_v 64 sig) ≡ ok key)
        × (a ≡ pubkey_to_address key)
        × (equal_fold (address_hex a) (address_hex (hex_to_address address)) ≡ true)
  unfolding verify_signature
  verify_signature_sound address message signature a h =
      elim (Result-cases (hexutil_decode signature)) [
        | inr (x, e) ↦ ground (arith, e)
        | inl (sig, e) ↦ elim (Result-cases (sig_to_pub (text_hash message) (normalize_v 64 sig))) [
          | inr (x, f) ↦ ground (arith, e, f)
          | inl (key, f) ↦
              let passed : check_recovered address (pubkey_to_address key) ≡ ok a =
                ground (arith, e, f) in
              let (same, match) = check_recovered_sound address (pubkey_to_address key) a passed in
              (sig, key, e, ground (arith, e), f, same, match)
        ]
      ]
