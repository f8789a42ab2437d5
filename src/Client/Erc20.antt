-- ===== src/Client/Erc20.antt =====
-- client/erc20.go: the call data of an ERC-20 transfer. An amount is a number, and an address its
-- twenty bytes.
pub mod Roundtrip
mod Tests
use signature_escrow.Common.{
  ℕ, zero, suc, ◌+◌, ◌-◌, ◌*◌, ◌/◌, ◌%◌, Bool, true, false, not, Option, none, some, List, [], ◌∷◌,
  ◌++◌, nat_eq, length, if◌then◌else◌,
}
use signature_escrow.Text.{◌==◌}
use signature_escrow.Validation.{Bytes, take, drop}

abbrev pub sel_transfer : Bytes
sel_transfer = 0xa9 ∷ 0x05 ∷ 0x9c ∷ 0xbb ∷ []

-- big.Int.Bytes: big-endian, with no zero in front. Each step divides by 256, so that the number
-- itself is fuel enough.
unfoldable pub bytes_within : ℕ → ℕ → Bytes
bytes_within zero n = []
bytes_within (suc fuel) n =
    let rest = bytes_within fuel (n / 256) in if nat_eq n 0 then [] else rest ++ n % 256 ∷ []

abbrev pub big_bytes : ℕ → Bytes
big_bytes n = bytes_within n n

unfoldable pub value_from : ℕ → Bytes → ℕ
value_from acc [] = acc
value_from acc (b ∷ bs) = value_from (acc * 256 + b) bs

-- big.Int.SetBytes
abbrev pub set_bytes : Bytes → ℕ
set_bytes bs = value_from 0 bs

unfoldable pub zeros : ℕ → Bytes
zeros zero = []
zeros (suc n) = 0 ∷ zeros n

-- common.LeftPadBytes
unfoldable pub left_pad : Bytes → ℕ → Bytes
left_pad b n = zeros (n - length b) ++ b

unfoldable pub erc20_transfer_data : Bytes → ℕ → Bytes
erc20_transfer_data to amount = sel_transfer ++ (left_pad to 32 ++ left_pad (big_bytes amount) 32)

unfoldable pub decode_erc20_transfer : Bytes → Option (Bytes × ℕ)
decode_erc20_transfer payload =
    if not (nat_eq (length payload) 68)
    then none
    else if not (take 4 payload == sel_transfer)
    then none
    else some (take 20 (drop 16 payload), set_bytes (take 32 (drop 36 payload)))
