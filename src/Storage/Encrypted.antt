-- ===== src/Storage/Encrypted.antt =====
-- storage/storage.go, `EncryptedStorage`: values are sealed under a fresh nonce before the backend
-- gets them. The AEAD cipher and the random source are parameters.
mod Tests
use signature_escrow.Common.{
  ℕ, ◌≡◌, ◌≢◌, ◌⊎◌, refl, ap, ◌∙◌, inl, inr, Option, none, some, [], ◌∷◌, ◌++◌, true, false,
  Bool-cases, arith, ltb, length, zero, suc, length-append, if◌then◌else◌,
}
use signature_escrow.Text.{Text, bytes}
use signature_escrow.Act.{Result, ok, err, Result-cases, Act, relabel_ok}
use signature_escrow.Storage.{Error, Storage}
use signature_escrow.Validation.{Bytes, take, drop, take_append, drop_append}

-- crypto/cipher: `Open` gives back what `Seal` sealed under the same nonce.
pub record Aead : Type 0 where
  pub nonce_size : ℕ
  pub seal : Bytes → Bytes → Bytes
  pub open_sealed : Bytes → Bytes → Result Error Bytes
  pub open_sealed-seal :
      (nonce value : Bytes)
      → length nonce ≡ nonce_size
      → open_sealed nonce (seal nonce value) ≡ ok value

-- crypto/rand with io.ReadFull, which fills the slice or fails.
pub record Entropy : Type 1 where
  pub Source : Type 0
  pub read : ℕ → Source → Result Error Bytes × Source
  pub read_full : (n : ℕ) (r : Source) (b : Bytes) → (read n r).0 ≡ ok b → length b ≡ n

-- A slice that is not empty. An empty slice and nil are the same to the callers of `Get`, who take
-- both for an absent value.
pub record Value : Type 0 where
  pub head : ℕ
  pub tail : Bytes

abbrev pub to_bytes : Value → Bytes
to_bytes v = v.head ∷ v.tail

abbrev pub of_bytes : Bytes → Option Value
of_bytes [] = none
of_bytes (b ∷ bs) = some (record { head = b; tail = bs })

module _ (backend : Storage Bytes) (gcm : Aead) (rand : Entropy) where
  abbrev State : Type 0
  State = backend.State × rand.Source

  abbrev put_sealed : Text → Value → Result Error Bytes → State → Result Error (Unit {0}) × State
  put_sealed key value (err e) s = (err e, s)
  put_sealed key value (ok nonce) (s, r) =
      let (done, s') = backend.put key (nonce ++ gcm.seal nonce (to_bytes value)) s in
      (done, (s', r))

  unfoldable pub put : Text → Value → Act Error State (Unit {0})
  put key value (s, r) =
      let (nonce, r') = rand.read gcm.nonce_size r in put_sealed key value nonce (s, r')

  abbrev unseal : Result Error (Option Bytes) → Result Error (Option Value)
  unseal (err e) = err e
  unseal (ok none) = ok none
  unseal (ok (some ciphertext)) =
      if ltb (length ciphertext) gcm.nonce_size
      then err (bytes "ciphertext too short")
      else relabel_ok of_bytes
          (gcm.open_sealed (take gcm.nonce_size ciphertext) (drop gcm.nonce_size ciphertext))

  unfoldable pub get : Text → State → Result Error (Option Value)
  get key (s, r) = unseal (backend.get key s)

  unfoldable pub delete : Text → Act Error State (Unit {0})
  delete key (s, r) = let (done, s') = backend.delete key s in (done, (s', r))

  unseal_sealed :
      (nonce : Bytes) (value : Value)
      → length nonce ≡ gcm.nonce_size
      → unseal (ok (some (nonce ++ gcm.seal nonce (to_bytes value)))) ≡ ok (some value)
  unseal_sealed nonce value size = ground (
    arith,
    gcm.open_sealed-seal nonce (to_bytes value),
    take_append nonce (gcm.seal nonce (to_bytes value)),
    drop_append nonce (gcm.seal nonce (to_bytes value)),
    length-append nonce (gcm.seal nonce (to_bytes value)),
  )

  pub get-put_ok :
      (k : Text) (v : Value) (s : State) → (put k v s).0 ≡ ok tt → get k (put k v s).1 ≡ ok (some v)
  unfolding get put
  get-put_ok k v (s, r) h = elim (Result-cases (rand.read gcm.nonce_size r).0) [
    | inr (x, e) ↦ absurd (ground (arith, e))
    | inl (nonce, e) ↦
        let stored =
          backend.get-put_self k (nonce ++ gcm.seal nonce (to_bytes v)) s (ground (arith, e)) in
        rw (e, stored) (unseal_sealed nonce v (rand.read_full gcm.nonce_size r nonce e))
  ]

  pub get-put_failed :
      (k : Text) (v : Value) (s : State) (x : Error)
      → (put k v s).0 ≡ err x
      → get k (put k v s).1 ≡ get k s
  unfolding get put
  get-put_failed k v (s, r) x h = elim (Result-cases (rand.read gcm.nonce_size r).0) [
    | inr (y, e) ↦ rw e refl
    | inl (nonce, e) ↦ rw e (
        ap unseal
          (backend.get-put_err k (nonce ++ gcm.seal nonce (to_bytes v)) s x (ground (arith, e))))
  ]

  pub get-put_other : (k j : Text) (v : Value) (s : State) → j ≢ k → get j (put k v s).1 ≡ get j s
  unfolding get put
  get-put_other k j v (s, r) h = elim (Result-cases (rand.read gcm.nonce_size r).0) [
    | inr (y, e) ↦ rw e refl
    | inl (nonce, e) ↦
        rw e (ap unseal (backend.get-put_ne k j (nonce ++ gcm.seal nonce (to_bytes v)) s h))
  ]

  pub get-delete_failed :
      (k : Text) (s : State) (x : Error)
      → (delete k s).0 ≡ err x
      → (get k (delete k s).1 ≡ get k s) ⊎ (get k (delete k s).1 ≡ ok none)
  unfolding get delete
  get-delete_failed k (s, r) x h = elim (backend.get-delete_err k s x h) [
    | inl e ↦ inl (ap unseal e)
    | inr e ↦ inr (ap unseal e)
  ]

  pub get-delete_ok :
      (k : Text) (s : State) → (delete k s).0 ≡ ok tt → get k (delete k s).1 ≡ ok none
  unfolding get delete
  get-delete_ok k (s, r) h = ap unseal (backend.get-delete_self k s h)

  pub get-delete_other : (k j : Text) (s : State) → j ≢ k → get j (delete k s).1 ≡ get j s
  unfolding get delete
  get-delete_other k j (s, r) h = ap unseal (backend.get-delete_ne k j s h)

  -- EncryptedStorage is a `Storage` of the values that were put in, whatever its backend.
  abbrev pub encrypted : Storage Value
  encrypted = record {
    State = State;
    get = get;
    put = put;
    delete = delete;
    get-put_self = get-put_ok;
    get-put_err = get-put_failed;
    get-put_ne = get-put_other;
    get-delete_self = get-delete_ok;
    get-delete_err = get-delete_failed;
    get-delete_ne = get-delete_other;
  }
