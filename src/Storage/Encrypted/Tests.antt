-- ===== src/Storage/Encrypted/Tests.antt =====
-- A cipher that adds its nonce to the value, over a store in memory.
use signature_escrow.Common.{ℕ, zero, suc, ◌≡◌, refl, sym, ap, [], ◌∷◌, ◌++◌, length}
use signature_escrow.Text.{bytes}
use signature_escrow.Act.{Result, ok}
use signature_escrow.Storage.{Error}
use signature_escrow.Storage.Memory.{no_values, memory}
use signature_escrow.Validation.{Bytes, drop, drop_append}
use signature_escrow.Storage.Encrypted.{Aead, Entropy, Value, State, put}

-- The sealed value is the nonce once more, and the value.
abbrev opened : Bytes → Bytes → Result Error Bytes
opened nonce sealed = ok (drop (length nonce) sealed)

opened_lem : (nonce value : Bytes) → length nonce ≡ 2 → opened nonce (nonce ++ value) ≡ ok value
opened_lem nonce value h = ap ok (drop_append nonce value)

abbrev sample_aead : Aead
sample_aead = record {
  nonce_size = 2;
  seal = λ nonce value. nonce ++ value;
  open_sealed = opened;
  open_sealed-seal = opened_lem;
}

abbrev counted : ℕ → ℕ → Bytes
counted zero r = []
counted (suc n) r = r ∷ counted n r

length-counted : (n r : ℕ) → length (counted n r) ≡ n
length-counted zero r = refl
length-counted (suc n) r = ap suc (length-counted n r)

counted_full :
    (n r : ℕ) (b : Bytes) → ◌≡◌ {A = Result Error Bytes} (ok (counted n r)) (ok b) → length b ≡ n
counted_full n r b h = let same : counted n r ≡ b = cc h in rw (sym same) (length-counted n r)

-- Each read fills the slice with the number of the read.
abbrev sample_entropy : Entropy
sample_entropy = record {
  Source = ℕ;
  read = λ n r. (ok (counted n r), suc r);
  read_full = counted_full;
}

abbrev value : Value
value = record { head = 9; tail = 8 ∷ 7 ∷ [] }

abbrev before : State (memory Bytes) sample_aead sample_entropy
before = (no_values Bytes, 5)

abbrev after_put : State (memory Bytes) sample_aead sample_entropy
after_put = (put (memory Bytes) sample_aead sample_entropy (bytes "k") value before).1
