-- ===== src/Server/Pairing/Ids.antt =====
-- The identifier of a pair, and the keys that it stands under in the storage.
use mathlib.Core.List.{append_cancel_left}
use signature_escrow.Common.{ℕ, ◌<◌, ◌≡◌, ◌≢◌, ◌⊎◌, refl, true, ◌∷◌, ◌++◌, arith}
use signature_escrow.Text.{Text, bytes, to_lower, trim_prefix}
use signature_escrow.Text.Order.{less_asymm, less_total}
use signature_escrow.Text.Bytes.{
  lacks, lacks-append, lacks-to_lower, lacks-trim_prefix, join-injective, key_ne,
}
use signature_escrow.Server.Pairing.{bare_address, pair_id, pair_prefix, pair_key, pair_index_key}

-- Both members of a pair compute the same identifier.
pub pair_id_symm : (a b : Text) → pair_id a b ≡ pair_id b a
unfolding pair_id
pair_id_symm a b = ground (
  arith,
  less_asymm (bare_address a) (bare_address b),
  less_total (bare_address a) (bare_address b),
)

-- The identifier does not depend on the letter case of the addresses, nor on their prefix.
pub pair_id_of_bare :
    (a b c d : Text)
    → bare_address a ≡ bare_address c
    → bare_address b ≡ bare_address d
    → pair_id a b ≡ pair_id c d
unfolding pair_id
pair_id_of_bare a b c d h k = ground arith

pub lacks-bare_address :
    (c : ℕ) (a : Text) → c < b'a' → lacks c a ≡ true → lacks c (bare_address a) ≡ true
unfolding bare_address
lacks-bare_address c a h k =
    lacks-to_lower c (trim_prefix a (bytes "0x")) h (lacks-trim_prefix c a (bytes "0x") k)

-- If two pairs of addresses without an underscore have the same id, then they have the same two
-- addresses, up to their order, letter case and prefix.
pub pair_id-injective :
    (a b c d : Text)
    → lacks b'_' a ≡ true
    → lacks b'_' b ≡ true
    → lacks b'_' c ≡ true
    → lacks b'_' d ≡ true
    → pair_id a b ≡ pair_id c d
    → ((bare_address a ≡ bare_address c) × (bare_address b ≡ bare_address d))
      ⊎ ((bare_address a ≡ bare_address d) × (bare_address b ≡ bare_address c))
unfolding pair_id bytes
pair_id-injective a b c d ha hb hc hd e = ground (
  arith,
  join-injective b'_' (bare_address a) (bare_address b) (bare_address c) (bare_address d)
      (lacks-bare_address b'_' a (omega arith) ha) (lacks-bare_address b'_' c (omega arith) hc),
  join-injective b'_' (bare_address a) (bare_address b) (bare_address d) (bare_address c)
      (lacks-bare_address b'_' a (omega arith) ha) (lacks-bare_address b'_' d (omega arith) hd),
  join-injective b'_' (bare_address b) (bare_address a) (bare_address c) (bare_address d)
      (lacks-bare_address b'_' b (omega arith) hb) (lacks-bare_address b'_' c (omega arith) hc),
  join-injective b'_' (bare_address b) (bare_address a) (bare_address d) (bare_address c)
      (lacks-bare_address b'_' b (omega arith) hb) (lacks-bare_address b'_' d (omega arith) hd),
)

lacks-join :
    (x y : Text)
    → lacks b'/' x ≡ true
    → lacks b'/' y ≡ true
    → lacks b'/' (x ++ (bytes "_" ++ y)) ≡ true
unfolding bytes
lacks-join x y h k = ground (arith, lacks-append b'/' x (b'_' ∷ y))

-- Addresses with no slash have an identifier with no slash.
pub pair_id-lacks :
    (a b : Text) → lacks b'/' a ≡ true → lacks b'/' b ≡ true → lacks b'/' (pair_id a b) ≡ true
unfolding pair_id
pair_id-lacks a b h k = ground (
  arith,
  lacks-join (bare_address a) (bare_address b) (lacks-bare_address b'/' a (omega arith) h)
      (lacks-bare_address b'/' b (omega arith) k),
  lacks-join (bare_address b) (bare_address a) (lacks-bare_address b'/' b (omega arith) k)
      (lacks-bare_address b'/' a (omega arith) h),
)

-- The record of a pair never stands under the key of an index.
pub pair_key-ne-pair_index_key :
    (id address : Text) → lacks b'/' id ≡ true → pair_key id ≢ pair_index_key address
pair_key-ne-pair_index_key id address h =
    key_ne pair_prefix id (bytes "by-addr/") (to_lower address) h (unfold bytes in refl)

-- Two identifiers have two keys.
pub pair_key-injective : (id j : Text) → pair_key id ≡ pair_key j → id ≡ j
pair_key-injective id j e = append_cancel_left pair_prefix id j e

pub pair_index_key-injective :
    (a b : Text) → pair_index_key a ≡ pair_index_key b → to_lower a ≡ to_lower b
pair_index_key-injective a b e =
    append_cancel_left (bytes "by-addr/") (to_lower a) (to_lower b)
      (append_cancel_left pair_prefix _ _ e)
