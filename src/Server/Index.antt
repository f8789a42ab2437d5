-- ===== src/Server/Index.antt =====
-- The index lists of server/pairing.go and server/mailbox.go: one stored list of ids for a key.
pub mod Listed
pub mod Race
mod Tests
use signature_escrow.Common.{
  ◌≡◌, ◌≢◌, refl, Bool, true, false, not, ◌&&◌, ◌||◌, Option, none, some, List, [], ◌∷◌, ◌++◌,
  arith, if◌then◌else◌, inl, inr,
}
use signature_escrow.Text.{Text, ◌==◌, ==_iff, ==_refl}
use signature_escrow.Act.{Result, ok, err, Result-cases, Act, pure, lift, reads, continue, ◌>>=◌}
use signature_escrow.Storage.{
  Error, Storage, Codec, load, save, load-save_self, get-save_ne, load_of_get, load_of_get_none,
}

-- The loop `for _, id := range ids { if id == pairID { return nil } }`.
unfoldable pub contains : List Text → Text → Bool
contains [] id = false
contains (x ∷ xs) id = x == id || contains xs id

-- The loop of removeFromIndex, which keeps the ids that differ.
unfoldable pub without : List Text → Text → List Text
without [] id = []
without (x ∷ xs) id = let rest = without xs id in if x == id then rest else x ∷ rest

pub contains-append :
    (xs ys : List Text) (id : Text) → contains (xs ++ ys) id ≡ (contains xs id || contains ys id)
unfolding contains
contains-append [] ys id = refl
contains-append (x ∷ xs) ys id = ground (arith, contains-append xs ys id)

pub contains-without :
    (xs : List Text) (id j : Text) → contains (without xs id) j ≡ (contains xs j && not (id == j))
unfolding contains without
contains-without [] id j = refl
contains-without (x ∷ xs) id j =
    ground (arith, contains-without xs id j, ==_iff x id, ==_iff x j, ==_iff id j)

-- The new list of addToIndex.
abbrev pub with_id : List Text → Text → List Text
with_id ids id = if contains ids id then ids else ids ++ id ∷ []

pub contains-with_id :
    (ids : List Text) (id j : Text) → contains (with_id ids id) j ≡ (contains ids j || id == j)
unfolding contains
contains-with_id ids id j = ground (arith, contains-append ids (id ∷ []) j, ==_iff id j)

module _ {Blob : Type 0} (st : Storage Blob) ⦃ids_codec : Codec Blob (List Text)⦄ where
  abbrev or_empty : Result Error (Option (List Text)) → Result Error (List Text)
  or_empty (err e) = err e
  or_empty (ok none) = ok []
  or_empty (ok (some ids)) = ok ids

  -- loadIndex and loadInbox, at the key that each of them builds.
  unfoldable pub load_ids : Text → st.State → Result Error (List Text)
  load_ids key s = or_empty (load st key s)

  unfoldable pub add_to_index : Text → Text → Act Error st.State (Unit {0})
  add_to_index key id = do
    ids ← reads (load_ids key)
    if contains ids id then pure tt else save st key (ids ++ id ∷ [])

  unfoldable pub store_filtered : Text → List Text → Act Error st.State (Unit {0})
  store_filtered key [] = st.delete key
  store_filtered key (x ∷ xs) = save st key (x ∷ xs)

  unfoldable pub remove_found : Text → Text → Option (List Text) → Act Error st.State (Unit {0})
  remove_found key id none = pure tt
  remove_found key id (some ids) = store_filtered key (without ids id)

  unfoldable pub remove_from_index : Text → Text → Act Error st.State (Unit {0})
  unfolding store_filtered remove_found
  remove_from_index key id = do found ← reads (load st key); remove_found key id found

  pub load_ids_of_get :
      (k : Text) (s t : st.State) → st.get k s ≡ st.get k t → load_ids k s ≡ load_ids k t
  unfolding load_ids
  load_ids_of_get k s t e = ground (arith, load_of_get {A = List Text} st k s t e)

  pub load_ids-add_to_index :
      (key id : Text) (s : st.State) (ids : List Text)
      → load_ids key s ≡ ok ids
      → (add_to_index key id s).0 ≡ ok tt
      → load_ids key (add_to_index key id s).1 ≡ ok (with_id ids id)
  unfolding load_ids add_to_index
  load_ids-add_to_index key id s ids h k = ground (arith, load-save_self st key (ids ++ id ∷ []) s)

  pub get-add_to_index_ne :
      (key id j : Text) (s : st.State) → j ≢ key → st.get j (add_to_index key id s).1 ≡ st.get j s
  unfolding load_ids add_to_index
  get-add_to_index_ne key id j s h = elim (Result-cases (load_ids key s)) [
    | inl (ids, e) ↦ ground (arith, e, get-save_ne st key j (ids ++ id ∷ []) s h)
    | inr (x, e) ↦ ground (arith, e)
  ]

  -- addToIndex returns without an error only from a readable index.
  pub add_to_index_readable :
      (key id : Text) (s : st.State)
      → (add_to_index key id s).0 ≡ ok tt
      → (ids : List Text) × (load_ids key s ≡ ok ids)
  unfolding add_to_index
  add_to_index_readable key id s h = elim (Result-cases (load_ids key s)) [
    | inl p ↦ p
    | inr (x, e) ↦ ground (arith, e)
  ]

  load_ids-store_filtered :
      (key : Text) (ids : List Text) (s : st.State)
      → (store_filtered key ids s).0 ≡ ok tt
      → load_ids key (store_filtered key ids s).1 ≡ ok ids
  unfolding store_filtered load_ids
  load_ids-store_filtered key [] s h =
      ground (
        arith,
        load_of_get_none {A = List Text} st key (st.delete key s).1,
        st.get-delete_self key s,
      )
  load_ids-store_filtered key (x ∷ xs) s h = ground (arith, load-save_self st key (x ∷ xs) s)

  get-store_filtered_ne :
      (key j : Text) (ids : List Text) (s : st.State)
      → j ≢ key
      → st.get j (store_filtered key ids s).1 ≡ st.get j s
  unfolding store_filtered
  get-store_filtered_ne key j [] s h = st.get-delete_ne key j s h
  get-store_filtered_ne key j (x ∷ xs) s h = get-save_ne st key j (x ∷ xs) s h

  pub load_ids-remove_from_index :
      (key id : Text) (s : st.State) (ids : List Text)
      → load_ids key s ≡ ok ids
      → (remove_from_index key id s).0 ≡ ok tt
      → load_ids key (remove_from_index key id s).1 ≡ ok (without ids id)
  unfolding remove_from_index load_ids without
  load_ids-remove_from_index key id s ids h k =
      ground (arith, load_ids-store_filtered key (without ids id) s)

  pub get-remove_from_index_ne :
      (key id j : Text) (s : st.State)
      → j ≢ key
      → st.get j (remove_from_index key id s).1 ≡ st.get j s
  unfolding remove_from_index
  get-remove_from_index_ne key id j s h = elim (Result-cases (load {A = List Text} st key s)) [
    | inl (none, e) ↦ ground (arith, e)
    | inl (some ids, e) ↦ ground (arith, e, get-store_filtered_ne key j (without ids id) s h)
    | inr (x, e) ↦ ground (arith, e)
  ]

  pub remove_from_index_readable :
      (key id : Text) (s : st.State)
      → (remove_from_index key id s).0 ≡ ok tt
      → (ids : List Text) × (load_ids key s ≡ ok ids)
  unfolding remove_from_index load_ids
  remove_from_index_readable key id s h = elim (Result-cases (load_ids key s)) [
    | inl p ↦ p
    | inr (x, e) ↦ ground (arith, e)
  ]
