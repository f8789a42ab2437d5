-- ===== src/Validation.antt =====
-- validation/validation.go: the check of a signature under one of two algorithms. What
-- multi-party-sig computes is a parameter.
use signature_escrow.Common.{
  ℕ, zero, suc, ◌<◌, ◌≡◌, refl, ap, arith, Bool, List, [], ◌∷◌, ◌++◌, ltb, length, if◌then◌else◌,
}
use signature_escrow.Text.{Text, bytes, ◌==◌}
use signature_escrow.Act.{Result, ok, err}
use signature_escrow.Storage.{Error}

-- A `[]byte`; it is compared as a string.
abbrev pub Bytes : Type 0
Bytes = List ℕ

-- A `SignaturesType` is a string.
abbrev pub ecdsa : Text
ecdsa = bytes "ecdsa"

abbrev pub frost : Text
frost = bytes "schnorr"

unfoldable pub alg : Text → Text
alg name = if name == bytes "frost" then frost else if name == bytes "ecdsa" then ecdsa else []

-- Points and scalars of secp256k1, ECDSA and taproot verification.
pub record Signatures : Type 1 where
  pub Point : Type 0
  pub Scalar : Type 0
  pub unmarshal_point : Bytes → Result Error Point
  pub unmarshal_scalar : Bytes → Result Error Scalar
  pub ecdsa_verify : Point → Scalar → Point → Bytes → Bool
  pub taproot_verify : Bytes → Bytes → Bytes → Bool

-- `s[:n]` and `s[n:]`
abbrev pub take : ℕ → Bytes → Bytes
take zero s = []
take (suc n) [] = []
take (suc n) (b ∷ s) = b ∷ take n s

abbrev pub drop : ℕ → Bytes → Bytes
drop zero s = s
drop (suc n) [] = []
drop (suc n) (b ∷ s) = drop n s

pub take_append : (a b : Bytes) → take (length a) (a ++ b) ≡ a
take_append [] b = refl
take_append (x ∷ a) b = ap (λ y. x ∷ y) (take_append a b)

pub drop_append : (a b : Bytes) → drop (length a) (a ++ b) ≡ b
drop_append [] b = refl
drop_append (x ∷ a) b = drop_append a b

infixl 10 ◌>>=◌
abbrev ◌>>=◌ : {A B : Type 0} → Result Error A → (A → Result Error B) → Result Error B
ok a >>= f = f a
err e >>= f = err e

module _ (sigs : Signatures) where
  validate_ecdsa : Bytes → Bytes → Bytes → Result Error Bool
  validate_ecdsa p h s = do
    r ← sigs.unmarshal_point (take 33 s)
    scalar ← sigs.unmarshal_scalar (drop 33 s)
    key ← sigs.unmarshal_point p
    ok (sigs.ecdsa_verify r scalar key h)

  unfoldable pub validate : Text → Bytes → Bytes → Bytes → Result Error Bool
  unfolding validate_ecdsa
  validate alg p h s =
      if alg == ecdsa
      then (if ltb (length s) 64
          then err (bytes "signature size is less than 64")
          else validate_ecdsa p h s)
      else if alg == frost
      then ok (sigs.taproot_verify p s h)
      else err (bytes "unknown alg type")

  validate_short :
      (p h s : Bytes)
      → length s < 64
      → validate ecdsa p h s ≡ err (bytes "signature size is less than 64")
  unfolding validate bytes ◌==◌
  validate_short p h s short = ground arith
