-- ===== src/Client/NodeSample.antt =====
-- A node that computes, for the concrete runs of client. Its wire form tells two transactions apart.
use signature_escrow.Common.{
  ℕ, ◌≡◌, refl, true, false, none, some, Option, Bool, [], ◌∷◌, length, nat_eq, nat_eq_iff, ap, sym,
  subst, ◌&&◌, Bool-cases, inl, inr, arith, if◌then◌else◌,
}
use signature_escrow.Text.{Text, bytes, ◌==◌, ==_iff}
use signature_escrow.Text.Hex.{IsBytes}
use signature_escrow.Validation.{Bytes}
use signature_escrow.Act.{Result, ok, err}
use signature_escrow.Storage.{Error}
use signature_escrow.Client.Erc20.{erc20_transfer_data, zeros}
use signature_escrow.Client.Int64.{ℤ, pos, negsuc}
use signature_escrow.Client.Node.{Node, Transaction, new_transaction}

-- The twenty bytes of an address are its first one and zeros.
abbrev address_of : Text → Bytes
address_of [] = 0 ∷ zeros 19
address_of (c ∷ _) = c ∷ zeros 19

pub address_of-length : (t : Text) → length (address_of t) ≡ 20
unfolding zeros
address_of-length [] = refl
address_of-length (c ∷ t) = refl

-- The transfer of 7 of the token "t" to "b", which is the one transaction that has a wire form.
abbrev pub the_transaction : Transaction
the_transaction =
    new_transaction 3 (address_of (116 ∷ [])) 0 65000 (pos 5)
      (erc20_transfer_data (address_of (98 ∷ [])) 7)

abbrev is_to : Option Bytes → Bytes → Bool
is_to none a = false
is_to (some b) a = b == a

is_to_sound : (o : Option Bytes) (a : Bytes) → is_to o a ≡ true → o ≡ some a
is_to_sound none a h = cc
is_to_sound (some b) a h = ap some ((==_iff b a).0 h)

abbrev is_price : ℤ → ℕ → Bool
is_price (pos n) m = nat_eq n m
is_price (negsuc _) m = false

is_price_sound : (x : ℤ) (m : ℕ) → is_price x m ≡ true → x ≡ pos m
is_price_sound (pos n) m h = ap pos ((nat_eq_iff n m).0 h)
is_price_sound (negsuc n) m h = cc

abbrev is_the_transaction : Transaction → Bool
is_the_transaction tx =
    nat_eq tx.nonce 3
    && is_to tx.to (address_of (116 ∷ []))
    && nat_eq tx.value 0
    && nat_eq tx.gas 65000
    && is_price tx.gas_price 5
    && tx.payload == erc20_transfer_data (address_of (98 ∷ [])) 7
    && tx.signature == []

is_the_transaction_sound : (tx : Transaction) → is_the_transaction tx ≡ true → tx ≡ the_transaction
is_the_transaction_sound tx h =
    let a : nat_eq tx.nonce 3 ≡ true = ground (arith, h) in
    let b : is_to tx.to (address_of (116 ∷ [])) ≡ true = ground (arith, h) in
    let c : nat_eq tx.value 0 ≡ true = ground (arith, h) in
    let d : nat_eq tx.gas 65000 ≡ true = ground (arith, h) in
    let e : is_price tx.gas_price 5 ≡ true = ground (arith, h) in
    let f : (tx.payload == erc20_transfer_data (address_of (98 ∷ [])) 7) ≡ true =
      ground (arith, h) in
    let g : (tx.signature == []) ≡ true = ground (arith, h) in
    cc (
      (nat_eq_iff tx.nonce 3).0 a,
      is_to_sound tx.to (address_of (116 ∷ [])) b,
      (nat_eq_iff tx.value 0).0 c,
      (nat_eq_iff tx.gas 65000).0 d,
      is_price_sound tx.gas_price 5 e,
      (==_iff tx.payload (erc20_transfer_data (address_of (98 ∷ [])) 7)).0 f,
      (==_iff tx.signature []).0 g,
    )

abbrev wire : Transaction → Result Error Bytes
wire tx = if is_the_transaction tx then ok (1 ∷ []) else err (bytes "rlp")

abbrev unwire : Bytes → Result Error Transaction
unwire [] = err (bytes "rlp")
unwire (_ ∷ _) = ok the_transaction

pub unwire-wire : (tx : Transaction) (b : Bytes) → wire tx ≡ ok b → unwire b ≡ ok tx
unwire-wire tx b h = elim (Bool-cases (is_the_transaction tx)) [
  | inl e ↦ let one : b ≡ 1 ∷ [] = ground (arith, h, e) in cc (one, is_the_transaction_sound tx e)
  | inr e ↦ ground (arith, h, e)
]

pub wire-IsBytes : (tx : Transaction) (b : Bytes) → wire tx ≡ ok b → IsBytes b
wire-IsBytes tx b h = elim (Bool-cases (is_the_transaction tx)) [
  | inl e ↦ let one : b ≡ 1 ∷ [] = ground (arith, h, e) in subst IsBytes (sym one) (omega arith, tt)
  | inr e ↦ ground (arith, h, e)
]

-- The last argument of `with_signature` becomes the signature.
abbrev pub sample_node : Node
sample_node = record {
  is_hex_address = λ t. true;
  hex_to_address = address_of;
  hex_to_address-length = address_of-length;
  address_hex = λ a. a;
  dial = λ t. ok tt;
  pending_nonce_at = λ a. ok 3;
  nonce_at = λ a. ok 3;
  suggest_gas_price = ok 5;
  network_id = ok 1;
  signing_hash = λ chain tx. 5 ∷ [];
  signing_hash-IsBytes = λ chain tx. (omega arith, tt);
  with_signature = λ chain tx sig. ok (record tx { signature = sig });
  tx_hash = λ tx. tx.signature;
  send_transaction = λ tx. ok tt;
  marshal_binary = wire;
  unmarshal_binary = unwire;
  unmarshal-marshal = unwire-wire;
  marshal-IsBytes = wire-IsBytes;
  new_btc_tx = λ from to n verify. ok (from ∷ []);
  send_btc_tx = λ h s. ok tt;
}
