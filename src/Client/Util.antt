-- ===== src/Client/Util.antt =====
-- client/util.go: how requests of the client are checked.
use signature_escrow.Common.{
  ℕ, zero, suc, Bool, true, false, not, ◌&&◌, ◌||◌, List, [], ◌∷◌, ◌++◌, ltb, leb, nat_eq, length,
  if◌then◌else◌,
}
use signature_escrow.Text.{Text, bytes, ◌==◌, to_lower, trim_prefix}
use signature_escrow.Act.{Result, ok, err}
use signature_escrow.Storage.{Error}

-- strings.ReplaceAll(s, "-", "")
unfoldable pub without_dashes : Text → Text
without_dashes [] = []
without_dashes (c ∷ s) = let rest = without_dashes s in if nat_eq c b'-' then rest else c ∷ rest

unfoldable pub normalize_party_id : Text → Text
normalize_party_id id = without_dashes (trim_prefix (to_lower id) (bytes "0x"))

-- [0-9a-fA-F]
abbrev is_hex : ℕ → Bool
is_hex c = leb b'0' c && leb c b'9' || leb b'a' c && leb c b'f' || leb b'A' c && leb c b'F'

-- A pattern is matched from its start to its end: `true` is a hex digit, `false` a dash.
abbrev fits : Bool → ℕ → Bool
fits true c = is_hex c
fits false c = nat_eq c b'-'

unfoldable pub matches : List Bool → Text → Bool
matches [] [] = true
matches (_ ∷ _) [] = false
matches [] (_ ∷ _) = false
matches (p ∷ ps) (c ∷ s) = fits p c && matches ps s

abbrev digits : ℕ → List Bool → List Bool
digits zero ps = ps
digits (suc n) ps = true ∷ digits n ps

-- uuidRe
abbrev uuid_pattern : List Bool
uuid_pattern =
    digits 8 (false ∷ digits 4 (false ∷ digits 4 (false ∷ digits 4 (false ∷ digits 12 []))))

unfoldable pub validate_session_id : Text → Result Error (Unit {0})
validate_session_id id =
    if ltb 36 (length id)
    then err (bytes "session_id too long (max 36 characters)")
    else (if matches uuid_pattern id
        then ok tt
        else err (bytes "session_id must be a valid UUID format"))

unfoldable pub validate_network : Text → Result Error (Unit {0})
validate_network network =
    if not (network == bytes "eth") && not (network == bytes "btc")
    then err (bytes "network must be 'eth' or 'btc'")
    else ok tt

unfoldable pub validate_index : ℕ → Result Error (Unit {0})
validate_index index =
    if ltb index 1 || ltb 100 index then err (bytes "index must be between 1 and 100") else ok tt

-- `0x` and forty hex digits
abbrev is_eth_address : Text → Bool
is_eth_address (a ∷ b ∷ s) = nat_eq a b'0' && nat_eq b b'x' && matches (digits 40 []) s
is_eth_address _ = false

unfoldable pub validate_eth_address : Text → Result Error (Unit {0})
validate_eth_address addr =
    if is_eth_address addr then ok tt else err (bytes "invalid ETH address: " ++ addr)
