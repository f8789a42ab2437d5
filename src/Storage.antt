-- ===== src/Storage.antt =====
-- storage/storage.go: the interface `Storage` as a record of operations and the laws of a map,
-- and what its clients encode their values with.
pub mod Memory
pub mod Encrypted
pub mod Disk
pub mod File
use signature_escrow.Common.{◌≡◌, ◌≢◌, ap, ◌⊎◌, inl, inr, Option, none, some, arith}
use signature_escrow.Text.{Text}
use signature_escrow.Act.{Result, ok, err, Result-cases, Act, lift, continue, ◌>>=◌, relabel_ok}

-- An `error` of Go is the text that it prints.
abbrev pub Error : Type 0
Error = Text

-- `Get` gives `none` for a key that is not there (`nil, nil` in Go). A `Put` that fails has replaced
-- nothing; a `Delete` that fails may have removed the value or not. The other keys are as they were.
pub record Storage (Blob : Type 0) : Type 1 where
  pub State : Type 0
  pub get : Text → State → Result Error (Option Blob)
  pub put : Text → Blob → Act Error State (Unit {0})
  pub delete : Text → Act Error State (Unit {0})
  pub get-put_self :
      (k : Text) (b : Blob) (s : State) → (put k b s).0 ≡ ok tt → get k (put k b s).1 ≡ ok (some b)
  pub get-put_err :
      (k : Text) (b : Blob) (s : State) (e : Error)
      → (put k b s).0 ≡ err e
      → get k (put k b s).1 ≡ get k s
  pub get-put_ne : (k j : Text) (b : Blob) (s : State) → j ≢ k → get j (put k b s).1 ≡ get j s
  pub get-delete_self :
      (k : Text) (s : State) → (delete k s).0 ≡ ok tt → get k (delete k s).1 ≡ ok none
  pub get-delete_err :
      (k : Text) (s : State) (e : Error)
      → (delete k s).0 ≡ err e
      → (get k (delete k s).1 ≡ get k s) ⊎ (get k (delete k s).1 ≡ ok none)
  pub get-delete_ne : (k j : Text) (s : State) → j ≢ k → get j (delete k s).1 ≡ get j s

-- cbor.Marshal and cbor.Unmarshal at one type: what was encoded is decoded to the same value.
pub record Codec (Blob A : Type 0) : Type 0 where
  pub marshal : A → Result Error Blob
  pub unmarshal : Blob → Result Error A
  pub unmarshal-marshal : (a : A) (b : Blob) → marshal a ≡ ok b → unmarshal b ≡ ok a

module _ {Blob A : Type 0} (st : Storage Blob) ⦃c : Codec Blob A⦄ where
  abbrev decode : Result Error (Option Blob) → Result Error (Option A)
  decode (err e) = err e
  decode (ok none) = ok none
  decode (ok (some b)) = relabel_ok some (c.unmarshal b)

  -- `Get` and, if there is a value, `cbor.Unmarshal`.
  unfoldable pub load : Text → st.State → Result Error (Option A)
  load k s = decode (st.get k s)

  -- `cbor.Marshal` and `Put`.
  unfoldable pub save : Text → A → Act Error st.State (Unit {0})
  save k a = do b ← lift (c.marshal a); st.put k b

  pub load-save_self :
      (k : Text) (a : A) (s : st.State)
      → (save k a s).0 ≡ ok tt
      → load k (save k a s).1 ≡ ok (some a)
  unfolding load save
  load-save_self k a s h = elim (Result-cases (c.marshal a)) [
    | inl (b, e) ↦ ground (arith, st.get-put_self k b s, c.unmarshal-marshal a b)
    | inr (e, q) ↦ ground arith
  ]

  pub get-save_ne :
      (k j : Text) (a : A) (s : st.State) → j ≢ k → st.get j (save k a s).1 ≡ st.get j s
  unfolding save
  get-save_ne k j a s h = elim (Result-cases (c.marshal a)) [
    | inl (b, e) ↦ ground (arith, st.get-put_ne k j b s)
    | inr (e, q) ↦ ground arith
  ]

  -- What is read under a key depends on the store at that key alone.
  pub load_of_get : (k : Text) (s t : st.State) → st.get k s ≡ st.get k t → load k s ≡ load k t
  unfolding load
  load_of_get k s t e = ap decode e

  pub load_of_get_none : (k : Text) (s : st.State) → st.get k s ≡ ok none → load k s ≡ ok none
  unfolding load
  load_of_get_none k s e = ap decode e

  -- Whether it fails or not, a save leaves the old value or the new one.
  pub load-save_cases :
      (k : Text) (a : A) (s : st.State)
      → (load k (save k a s).1 ≡ ok (some a)) ⊎ (load k (save k a s).1 ≡ load k s)
  unfolding load save
  load-save_cases k a s = elim (Result-cases (c.marshal a)) [
    | inl (b, e) ↦ elim (Result-cases (st.put k b s).0) [
      | inl (_, done) ↦ ground (arith, e, done, st.get-put_self k b s, c.unmarshal-marshal a b)
      | inr (x, failed) ↦ ground (arith, e, failed, st.get-put_err k b s x)
    ]
    | inr (e, q) ↦ ground arith
  ]

  pub load-delete_cases :
      (k : Text) (s : st.State)
      → (load k (st.delete k s).1 ≡ ok none) ⊎ (load k (st.delete k s).1 ≡ load k s)
  unfolding load
  load-delete_cases k s = elim (Result-cases (st.delete k s).0) [
    | inl (_, done) ↦ ground (arith, done, st.get-delete_self k s)
    | inr (x, failed) ↦ ground (arith, failed, st.get-delete_err k s x)
  ]
