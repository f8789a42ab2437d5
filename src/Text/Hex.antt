-- ===== src/Text/Hex.antt =====
-- encoding/hex: `EncodeToString` and `DecodeString`.
use signature_escrow.Common.{
  ℕ, ◌+◌, ◌-◌, ◌*◌, ◌/◌, ◌%◌, ◌<◌, ◌≡◌, ◌≢◌, inl, inr, Option-cases, refl, sym, ap, ◌∙◌, true, ◌&&◌,
  Option, none, some, List, [], ◌∷◌, arith, leb, ltb, if◌then◌else◌, length,
}
use signature_escrow.Text.{Text, bytes, to_lower, lower_byte, equal_fold, equal_fold_iff}
use signature_escrow.Act.{Result, ok, err, relabel_ok}

-- A digit from 0 to 15.
abbrev pub digit : ℕ → ℕ
digit d = if ltb d 10 then b'0' + d else b'a' + (d - 10)

abbrev digit_value : ℕ → Option ℕ
digit_value c =
    if leb b'0' c && leb c b'9'
    then some (c - b'0')
    else if leb b'a' c && leb c b'f'
    then some (c - b'a' + 10)
    else if leb b'A' c && leb c b'F'
    then some (c - b'A' + 10)
    else none

unfoldable pub hex_encode : List ℕ → Text
hex_encode [] = []
hex_encode (b ∷ bs) = digit (b / 16) ∷ digit (b % 16) ∷ hex_encode bs

-- The bytes of one step of the loop; the first bad digit is the error.
abbrev decode_pair : Option ℕ → Option ℕ → Result Text ℕ
decode_pair none _ = err (bytes "encoding/hex: invalid byte")
decode_pair (some hi) none = err (bytes "encoding/hex: invalid byte")
decode_pair (some hi) (some lo) = ok (hi * 16 + lo)

abbrev decode_odd : Option ℕ → Result Text (List ℕ)
decode_odd none = err (bytes "encoding/hex: invalid byte")
decode_odd (some _) = err (bytes "encoding/hex: odd length hex string")

abbrev prepend : Result Text ℕ → Result Text (List ℕ) → Result Text (List ℕ)
prepend (err e) rest = err e
prepend (ok b) rest = relabel_ok (λ bs. b ∷ bs) rest

unfoldable pub hex_decode : Text → Result Text (List ℕ)
hex_decode [] = ok []
hex_decode (a ∷ []) = decode_odd (digit_value a)
hex_decode (a ∷ b ∷ rest) = prepend (decode_pair (digit_value a) (digit_value b)) (hex_decode rest)

-- Every number of the list is a byte.
abbrev pub IsBytes : List ℕ → Type 0
IsBytes [] = Unit
IsBytes (b ∷ bs) = (b < 256) × IsBytes bs

digit_value-digit : (d : ℕ) → d < 16 → digit_value (digit d) ≡ some d
digit_value-digit d h = ground arith

digit_value-lt : (c d : ℕ) → digit_value c ≡ some d → d < 16
digit_value-lt c d h = ground arith

decode_pair-digit :
    (b : ℕ)
    → b < 256
    → decode_pair (digit_value (digit (b / 16))) (digit_value (digit (b % 16))) ≡ ok b
decode_pair-digit b h =
    rw (digit_value-digit (b / 16) (omega arith), digit_value-digit (b % 16) (omega arith))
      (ap ok (omega arith))

-- Decoding gives back the bytes that were encoded.
pub hex_decode-hex_encode : (bs : List ℕ) → IsBytes bs → hex_decode (hex_encode bs) ≡ ok bs
unfolding hex_decode hex_encode
hex_decode-hex_encode [] h = refl
hex_decode-hex_encode (b ∷ bs) (small, h) =
    rw (decode_pair-digit b small, hex_decode-hex_encode bs h)

decode_pair-lt : (a b v : ℕ) → decode_pair (digit_value a) (digit_value b) ≡ ok v → v < 256
decode_pair-lt a b v h = elim (Option-cases (digit_value a)) [
  | inl p ↦ ground (arith, p)
  | inr (hi, p) ↦ elim (Option-cases (digit_value b)) [
    | inl q ↦ ground (arith, p, q)
    | inr (lo, q) ↦ ground (arith, p, q, digit_value-lt a hi p, digit_value-lt b lo q)
  ]
]

prepend-ok :
    (r : Result Text ℕ) (t : Result Text (List ℕ)) (bs : List ℕ)
    → prepend r t ≡ ok bs
    → (b : ℕ) × (cs : List ℕ) × (r ≡ ok b) × (t ≡ ok cs) × (bs ≡ b ∷ cs)
prepend-ok (err e) t bs h = cc
prepend-ok (ok b) (err e) bs h = cc
prepend-ok (ok b) (ok cs) bs h = (b, cs, refl, refl, ground arith)

decode_odd-ne-ok : (o : Option ℕ) (bs : List ℕ) → decode_odd o ≢ ok bs
decode_odd-ne-ok none bs h = cc
decode_odd-ne-ok (some d) bs h = cc

-- What decodes is bytes, half as many as there were digits.
pub hex_decode-IsBytes :
    (t : Text) (bs : List ℕ) → hex_decode t ≡ ok bs → IsBytes bs × (length t ≡ 2 * length bs)
unfolding hex_decode
hex_decode-IsBytes [] [] h = (tt, omega arith)
hex_decode-IsBytes [] (b ∷ bs) h = cc
hex_decode-IsBytes (a ∷ []) bs h = absurd (decode_odd-ne-ok (digit_value a) bs h)
hex_decode-IsBytes (a ∷ b ∷ rest) bs h =
    let (v, cs, first, others, e) = prepend-ok _ _ bs h in
    let (small, half) = hex_decode-IsBytes rest cs others in
    rw e ((decode_pair-lt a b v first, small), omega (arith, half))

digit_value-lower_byte : (c : ℕ) → digit_value (lower_byte c) ≡ digit_value c
unfolding lower_byte
digit_value-lower_byte c = ground arith

-- Upper and lower case digits are read alike.
pub hex_decode-to_lower : (s : Text) → hex_decode (to_lower s) ≡ hex_decode s
unfolding hex_decode to_lower
hex_decode-to_lower [] = refl
hex_decode-to_lower (a ∷ []) = ap decode_odd (digit_value-lower_byte a)
hex_decode-to_lower (a ∷ b ∷ s) =
    cc (digit_value-lower_byte a, digit_value-lower_byte b, hex_decode-to_lower s)

-- A text that is the encoding of bytes but for its case decodes to them.
pub hex_decode_of_equal_fold :
    (bs : List ℕ) (s : Text)
    → IsBytes bs
    → equal_fold (hex_encode bs) s ≡ true
    → hex_decode s ≡ ok bs
hex_decode_of_equal_fold bs s h same =
    sym (hex_decode-to_lower s)
    ∙ ap hex_decode (sym ((equal_fold_iff (hex_encode bs) s).0 same))
    ∙ hex_decode-to_lower (hex_encode bs)
    ∙ hex_decode-hex_encode bs h
