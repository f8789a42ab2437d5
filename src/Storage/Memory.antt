-- ===== src/Storage/Memory.antt =====
-- A store that keeps its values in memory and never fails: the map that `Storage` describes.
use signature_escrow.Common.{◌≡◌, ◌≢◌, refl, inl, Option, none, some, arith, if◌then◌else◌}
use signature_escrow.Text.{Text, bytes, ◌==◌, ==_iff, ==_refl}
use signature_escrow.Act.{Result, ok, err}
use signature_escrow.Storage.{Error, Storage, Codec}

abbrev pub Values : Type 0 → Type 0
Values Blob = Text → Option Blob

module _ {Blob : Type 0} where
  unfoldable pub assign : Text → Option Blob → Values Blob → Values Blob
  assign k v m j = if k == j then v else m j

  pub assign_self : (k : Text) (v : Option Blob) (m : Values Blob) → assign k v m k ≡ v
  unfolding assign
  assign_self k v m = ground (arith, ==_refl k)

  pub assign_ne : (k j : Text) (v : Option Blob) (m : Values Blob) → j ≢ k → assign k v m j ≡ m j
  unfolding assign
  assign_ne k j v m h = ground (arith, ==_iff k j)

-- No operation of the store fails.
pub no_failure : {X : Type 0} {e : Error} → ◌≡◌ {A = Result Error (Unit {0})} (ok tt) (err e) → X
no_failure h = cc

module _ (Blob : Type 0) where
  -- Nothing is stored.
  abbrev pub no_values : Values Blob
  no_values k = none

  abbrev pub memory : Storage Blob
  memory = record {
    State = Values Blob;
    get = λ k m. ok (m k);
    put = λ k b m. (ok tt, assign k (some b) m);
    delete = λ k m. (ok tt, assign k none m);
    get-put_self = λ k b m h. rw (assign_self k (some b) m) refl;
    get-put_err = λ k b m e h. no_failure h;
    get-put_ne = λ k j b m h. rw (assign_ne k j (some b) m h) refl;
    get-delete_self = λ k m h. rw (assign_self k none m) refl;
    get-delete_err = λ k m e h. inl (no_failure h);
    get-delete_ne = λ k j m h. rw (assign_ne k j none m h) refl;
  }

-- The error of a value of another type.
abbrev pub malformed : {A : Type 0} → Result Error A
malformed = err (bytes "cbor: cannot unmarshal")

-- A codec that puts the values into one alternative of a data type.
module _ {Blob A : Type 0} where
  pub tagged_lem :
      (wrap : A → Blob) (unwrap : Blob → Result Error A)
      → ((a : A) → unwrap (wrap a) ≡ ok a)
      → (a : A) (b : Blob) → ◌≡◌ {A = Result Error Blob} (ok (wrap a)) (ok b)
      → unwrap b ≡ ok a
  tagged_lem wrap unwrap h a b e = cc (e, h a)

  abbrev pub tagged :
      (wrap : A → Blob) (unwrap : Blob → Result Error A)
      → ((a : A) → unwrap (wrap a) ≡ ok a)
      → Codec Blob A
  tagged wrap unwrap h = record {
    marshal = λ a. ok (wrap a);
    unmarshal = unwrap;
    unmarshal-marshal = tagged_lem wrap unwrap h;
  }
