-- ===== src/Client/Erc20/Roundtrip.antt =====
-- Call data of a transfer, built and read again.
use signature_escrow.Common.{
  ℕ, zero, suc, ◌+◌, ◌-◌, ◌*◌, ◌/◌, ◌%◌, ◌≤◌, ◌<◌, ◌^◌, ◌≡◌, ◌∙◌, refl, sym, ap, inl, inr,
  Bool-cases, some, [], ◌∷◌, ◌++◌, nat_eq, length, length-append, arith,
}
use signature_escrow.Text.{==_refl}
use signature_escrow.Validation.{Bytes, take, drop, take_append, drop_append}
use signature_escrow.Client.Erc20.{
  sel_transfer, bytes_within, big_bytes, value_from, set_bytes, zeros, left_pad,
  erc20_transfer_data, decode_erc20_transfer,
}

-- 256 to the power.
unfoldable pub byte_power : ℕ → ℕ
byte_power zero = 1
byte_power (suc n) = 256 * byte_power n

value_from-append :
    (acc : ℕ) (bs : Bytes) (b : ℕ) → value_from acc (bs ++ b ∷ []) ≡ value_from acc bs * 256 + b
unfolding value_from
value_from-append acc [] b = refl
value_from-append acc (c ∷ bs) b = value_from-append (acc * 256 + c) bs b

value_within : (fuel n : ℕ) → n ≤ fuel → value_from 0 (bytes_within fuel n) ≡ n
unfolding bytes_within
value_within zero n h = unfold value_from in omega (arith, h)
value_within (suc fuel) n h = elim (Bool-cases (nat_eq n 0)) [
  | inl none_left ↦ unfold value_from in ground (arith, none_left)
  | inr more ↦ ground (
    arith,
    more,
    value_within fuel (n / 256),
    value_from-append 0 (bytes_within fuel (n / 256)) (n % 256),
  )
]

length-bytes_within : (fuel n k : ℕ) → n < byte_power k → length (bytes_within fuel n) ≤ k
unfolding bytes_within byte_power
length-bytes_within zero n k h = omega arith
length-bytes_within (suc fuel) n zero h = ground arith
length-bytes_within (suc fuel) n (suc k) h = ground (
  arith,
  length-bytes_within fuel (n / 256) k,
  length-append (bytes_within fuel (n / 256)) (n % 256 ∷ []),
)

length-zeros : (n : ℕ) → length (zeros n) ≡ n
unfolding zeros
length-zeros zero = refl
length-zeros (suc n) = ap suc (length-zeros n)

value_from-zeros : (n : ℕ) (bs : Bytes) → value_from 0 (zeros n ++ bs) ≡ value_from 0 bs
unfolding zeros value_from
value_from-zeros zero bs = refl
value_from-zeros (suc n) bs = value_from-zeros n bs

length-left_pad : (bs : Bytes) → length bs ≤ 32 → length (left_pad bs 32) ≡ 32
unfolding left_pad
length-left_pad bs h =
    omega (arith, h, length-append (zeros (32 - length bs)) bs, length-zeros (32 - length bs))

take_all : (bs : Bytes) → take (length bs) bs ≡ bs
take_all [] = refl
take_all (b ∷ bs) = ap (λ r. b ∷ r) (take_all bs)

byte_power_lem : byte_power 32 ≡ 2 ^ 256
unfolding byte_power
byte_power_lem = refl

-- The selector and the twelve zeros in front of the address.
abbrev prefix : Bytes
prefix = sel_transfer ++ 0 ∷ 0 ∷ 0 ∷ 0 ∷ 0 ∷ 0 ∷ 0 ∷ 0 ∷ 0 ∷ 0 ∷ 0 ∷ 0 ∷ []

take-prefix : (rest : Bytes) → take 4 (prefix ++ rest) ≡ sel_transfer
take-prefix rest = refl

drop-prefix : (rest : Bytes) → drop 16 (prefix ++ rest) ≡ rest
drop-prefix rest = refl

drop-prefix_more : (rest : Bytes) → drop 36 (prefix ++ rest) ≡ drop 20 rest
drop-prefix_more rest = refl

module _ (to : Bytes) (amount : ℕ) where
  abbrev padded : Bytes
  padded = left_pad (big_bytes amount) 32

  layout : length to ≡ 20 → erc20_transfer_data to amount ≡ prefix ++ (to ++ padded)
  unfolding erc20_transfer_data left_pad zeros
  layout h = rw h refl

  length-padded : amount < byte_power 32 → length padded ≡ 32
  length-padded h = length-left_pad (big_bytes amount) (length-bytes_within amount amount 32 h)

  set_bytes-padded : set_bytes padded ≡ amount
  unfolding left_pad
  set_bytes-padded =
      value_from-zeros (32 - length (big_bytes amount)) (big_bytes amount)
      ∙ value_within amount amount (omega arith)

  take-padded : amount < byte_power 32 → take 32 padded ≡ padded
  take-padded h = ap (λ n. take n padded) (sym (length-padded h)) ∙ take_all padded

  -- Decoding the call data that was built for a transfer gives back the address and the amount.
  -- Conditions: the address has twenty bytes, and the amount is below 2^256.
  pub decode_erc20_transfer-erc20_transfer_data :
      length to ≡ 20
      → amount < 2 ^ 256
      → decode_erc20_transfer (erc20_transfer_data to amount) ≡ some (to, amount)
  unfolding decode_erc20_transfer
  decode_erc20_transfer-erc20_transfer_data h fits =
      let small : amount < byte_power 32 = rw byte_power_lem fits in
      let size : length (prefix ++ (to ++ padded)) ≡ 68 = omega (
        arith,
        length-append prefix (to ++ padded),
        length-append to padded,
        h,
        length-padded small,
      ) in
      let address : take 20 (to ++ padded) ≡ to =
        ap (λ n. take n (to ++ padded)) (sym h) ∙ take_append to padded in
      let word : drop 20 (to ++ padded) ≡ padded =
        ap (λ n. drop n (to ++ padded)) (sym h) ∙ drop_append to padded in
      rw
        (
          layout h,
          size,
          take-prefix (to ++ padded),
          drop-prefix (to ++ padded),
          drop-prefix_more (to ++ padded),
          address,
          word,
          take-padded small,
          set_bytes-padded,
          ==_refl sel_transfer,
        )
        refl
