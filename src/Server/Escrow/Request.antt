-- ===== src/Server/Escrow/Request.antt =====
-- server/escrow.go, `parseEscrowRequest`, and server/timebox.go, `validatePub`: what a request must
-- look like before anything is stored.
use signature_escrow.Common.{
  ℕ, ◌≤◌, ◌≡◌, ◌⊎◌, inl, inr, subst, Bool, true, false, not, ◌||◌, [], ◌∷◌, ◌++◌, arith, ltb,
  nat_eq, length, if◌then◌else◌,
}
use signature_escrow.Text.{Text, bytes, ◌==◌, ==_iff, is_empty}
use signature_escrow.Text.Decimal.{print_decimal}
use signature_escrow.Text.Hex.{hex_decode, hex_encode}
use signature_escrow.Act.{Result, ok, err, Result-cases}
use signature_escrow.Storage.{Error}
use signature_escrow.Validation.{Bytes, take, ecdsa, frost}
use signature_escrow.Server.Escrow.{Flower}

pub record EscrowRequest : Type 0 where
  pub alg : Text
  pub id : Text
  pub pub_hex : Text
  pub hash_hex : Text
  pub sig_hex : Text

abbrev pub max_escrow_id_len : ℕ
max_escrow_id_len = 128

abbrev pub hash_len : ℕ
hash_len = 32

abbrev pub pub_len_ecdsa : ℕ
pub_len_ecdsa = 33

abbrev pub pub_len_frost : ℕ
pub_len_frost = 32

abbrev pub max_sig_len : ℕ
max_sig_len = 128

infixl 10 ◌>>=◌ ◌>>◌
abbrev pub ◌>>=◌ : {A B : Type 0} → Result Error A → (A → Result Error B) → Result Error B
ok a >>= f = f a
err e >>= f = err e

abbrev pub ◌>>◌ : {B : Type 0} → Result Error (Unit {0}) → Result Error B → Result Error B
m >> k = m >>= λ _. k

abbrev pub fail_if : Bool → Error → Result Error (Unit {0})
fail_if true e = err e
fail_if false e = ok tt

abbrev name_hex_error : Text → Result Error Bytes → Result Error Bytes
name_hex_error name (ok b) = ok b
name_hex_error name (err e) = err (bytes "invalid " ++ (name ++ (bytes " hex: " ++ e)))

-- hex.DecodeString of a field of the request, and the error that names the field.
abbrev pub decode_field : Text → Text → Result Error Bytes
decode_field name hex = name_hex_error name (hex_decode hex)

abbrev pub wrong_length : Text → ℕ → Error
wrong_length what n = what ++ (bytes ", got " ++ print_decimal n)

abbrev pub starts_as_point : Bytes → Bool
starts_as_point [] = false
starts_as_point (b ∷ rest) = nat_eq b 2 || nat_eq b 3

unfoldable pub validate_pub : Text → Bytes → Result Error (Unit {0})
validate_pub alg key =
    if alg == ecdsa
    then (if not (nat_eq (length key) pub_len_ecdsa)
        then err
            (wrong_length (bytes "ecdsa pub must be 33 bytes (compressed secp256k1)") (length key))
        else if not (starts_as_point key)
        then err (bytes "ecdsa pub must start with 0x02 or 0x03, got 0x" ++ hex_encode (take 1 key))
        else ok tt)
    else if alg == frost
    then (if not (nat_eq (length key) pub_len_frost)
        then err (wrong_length (bytes "frost pub must be 32 bytes (x-only)") (length key))
        else ok tt)
    else err (bytes "unknown alg: " ++ alg)

-- The hash of a request.
unfoldable pub decode_hash : Text → Result Error Bytes
decode_hash hex = do
  hash ← decode_field (bytes "hash") hex
  fail_if (not (nat_eq (length hash) hash_len))
      (wrong_length (bytes "hash must be 32 bytes") (length hash))
  ok hash

-- The signature of a request.
unfoldable pub decode_sig : Text → Result Error Bytes
decode_sig hex = do
  sig ← decode_field (bytes "sig") hex
  fail_if (ltb max_sig_len (length sig))
      (wrong_length (bytes "sig too long (max 128 bytes)") (length sig))
  ok sig

-- The public key of a request, which must fit the algorithm.
unfoldable pub decode_pub : Text → Text → Result Error Bytes
decode_pub alg hex = do key ← decode_field (bytes "pub") hex; validate_pub alg key; ok key

abbrev pub known_alg : Text → Bool
known_alg alg = alg == ecdsa || alg == frost

-- `alg must be %q or %q`
abbrev pub alg_error : Error
alg_error = bytes "alg must be \"ecdsa\" or \"schnorr\""

-- An empty field leaves the signature nil.
unfoldable pub parse_escrow_request : Result Error EscrowRequest → Result Error Flower
parse_escrow_request (err e) = err (bytes "error parsing JSON")
parse_escrow_request (ok req) = do
  fail_if (is_empty req.alg || is_empty req.id || is_empty req.pub_hex || is_empty req.hash_hex)
      (bytes "alg, id, pub and hash are required")
  fail_if (not (known_alg req.alg)) alg_error
  fail_if (ltb max_escrow_id_len (length req.id)) (bytes "id too long (max 128 chars)")
  key ← decode_pub req.alg req.pub_hex
  hash ← decode_hash req.hash_hex
  sig ← if is_empty req.sig_hex then ok [] else decode_sig req.sig_hex
  ok (record { id = req.id; alg = req.alg; pub_key = key; hash = hash; sig = sig; depositor = [] })

-- The key has the length of its algorithm, and an ECDSA key begins as a compressed point.
abbrev pub IsKeyFor : Text → Bytes → Type 0
IsKeyFor alg key =
    ((alg ≡ ecdsa) × (length key ≡ 33) × (starts_as_point key ≡ true))
    ⊎ ((alg ≡ frost) × (length key ≡ 32))

pub validate_pub_sound :
    (alg : Text) (key : Bytes) → validate_pub alg key ≡ ok tt → IsKeyFor alg key
unfolding validate_pub
validate_pub_sound alg key h = ground (arith, ==_iff alg ecdsa, ==_iff alg frost)

pub decode_pub_sound :
    (alg hex : Text) (key : Bytes)
    → decode_pub alg hex ≡ ok key
    → (hex_decode hex ≡ ok key) × IsKeyFor alg key
unfolding decode_pub
decode_pub_sound alg hex key h = elim (Result-cases (hex_decode hex)) [
  | inr (x, e) ↦ ground (arith, e)
  | inl (k, e) ↦ elim (Result-cases (validate_pub alg k)) [
    | inr (x, f) ↦ ground (arith, e, f)
    | inl (_, f) ↦
        let same : k ≡ key = ground (arith, e, f) in
        (cc (e, same), subst (IsKeyFor alg) same (validate_pub_sound alg k f))
  ]
]

pub decode_hash_sound :
    (hex : Text) (hash : Bytes)
    → decode_hash hex ≡ ok hash
    → (hex_decode hex ≡ ok hash) × (length hash ≡ 32)
unfolding decode_hash
decode_hash_sound hex hash h = elim (Result-cases (hex_decode hex)) [
  | inr (x, e) ↦ ground (arith, e)
  | inl (k, e) ↦ (ground (arith, e), ground (arith, e))
]

pub decode_sig_sound :
    (hex : Text) (sig : Bytes)
    → decode_sig hex ≡ ok sig
    → (hex_decode hex ≡ ok sig) × (length sig ≤ 128)
unfolding decode_sig
decode_sig_sound hex sig h = elim (Result-cases (hex_decode hex)) [
  | inr (x, e) ↦ ground (arith, e)
  | inl (k, e) ↦ (ground (arith, e), ground (arith, e))
]

-- What a parsed request is sure to be.
pub record IsWellFormed (f : Flower) : Type 0 where
  pub key_fits : IsKeyFor f.alg f.pub_key
  pub id_fits : (is_empty f.id ≡ false) × (length f.id ≤ 128)
  pub hash_fits : length f.hash ≡ 32
  pub sig_fits : length f.sig ≤ 128

abbrev sig_of : Text → Result Error Bytes
sig_of hex = if is_empty hex then ok [] else decode_sig hex

sig_of_sound : (hex : Text) (sig : Bytes) → sig_of hex ≡ ok sig → length sig ≤ 128
sig_of_sound [] sig h = ground arith
sig_of_sound (c ∷ t) sig h = (decode_sig_sound (c ∷ t) sig h).1

-- A request that parseEscrowRequest accepts gives a flower whose key has the length of its
-- algorithm, and for ECDSA begins as a compressed point, whose id has 1 to 128 bytes, whose hash
-- has 32 bytes and whose signature has at most 128, and whose key and hash are the decoded fields.
pub parse_escrow_request_sound :
    (req : EscrowRequest) (f : Flower)
    → parse_escrow_request (ok req) ≡ ok f
    → IsWellFormed f
      × (hex_decode req.pub_hex ≡ ok f.pub_key)
      × (hex_decode req.hash_hex ≡ ok f.hash)
unfolding parse_escrow_request
parse_escrow_request_sound req f h = elim (Result-cases (decode_pub req.alg req.pub_hex)) [
  | inr (x, e) ↦ ground (arith, e)
  | inl (key, e) ↦ elim (Result-cases (decode_hash req.hash_hex)) [
    | inr (x, g) ↦ ground (arith, e, g)
    | inl (hash, g) ↦ elim (Result-cases (sig_of req.sig_hex)) [
      | inr (x, k) ↦ ground (arith, e, g, k)
      | inl (sig, k) ↦
          let (key_decoded, key_fits) = decode_pub_sound req.alg req.pub_hex key e in
          let (hash_decoded, hash_fits) = decode_hash_sound req.hash_hex hash g in
          let sig_fits = sig_of_sound req.sig_hex sig k in
          let same : f ≡ record {
            id = req.id;
            alg = req.alg;
            pub_key = key;
            hash = hash;
            sig = sig;
            depositor = [];
          } =
            ground (arith, e, g, k) in
          rw same (
            record {
              key_fits = key_fits;
              id_fits = (ground (arith, e, g, k), ground (arith, e, g, k));
              hash_fits = hash_fits;
              sig_fits = sig_fits;
            },
            key_decoded,
            hash_decoded,
          )
    ]
  ]
]
