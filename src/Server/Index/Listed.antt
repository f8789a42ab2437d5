-- ===== src/Server/Index/Listed.antt =====
-- Which ids an index names, through the writes to it and to other indices.
use signature_escrow.Common.{◌≡◌, sym, ◌∙◌, subst, inl, inr, true, false, Bool-cases, List, arith}
use signature_escrow.Text.{Text, ◌==◌, ==_iff, ==_refl}
use signature_escrow.Act.{ok}
use signature_escrow.Storage.{Storage, Codec}
use signature_escrow.Server.Index.{
  contains, contains-with_id, with_id, without, contains-without, load_ids, add_to_index,
  remove_from_index, load_ids_of_get, load_ids-add_to_index, get-add_to_index_ne,
  add_to_index_readable, load_ids-remove_from_index, get-remove_from_index_ne,
  remove_from_index_readable,
}

module _ {Blob : Type 0} (st : Storage Blob) ⦃ids_codec : Codec Blob (List Text)⦄ where
  -- The index is readable and names the id.
  abbrev pub IsListed : Text → Text → st.State → Type 0
  IsListed key id s = (ids : List Text) × (load_ids st key s ≡ ok ids) × (contains ids id ≡ true)

  -- The index is readable and does not name the id.
  abbrev pub IsUnlisted : Text → Text → st.State → Type 0
  IsUnlisted key id s = (ids : List Text) × (load_ids st key s ≡ ok ids) × (contains ids id ≡ false)

  pub IsListed-add_to_index :
      (key id : Text) (s : st.State)
      → (add_to_index st key id s).0 ≡ ok tt
      → IsListed key id (add_to_index st key id s).1
  IsListed-add_to_index key id s h =
      let (ids, e) = add_to_index_readable st key id s h in
      (
        with_id ids id,
        load_ids-add_to_index st key id s ids e h,
        ground (arith, contains-with_id ids id id, ==_refl id),
      )

  pub IsUnlisted-remove_from_index :
      (key id : Text) (s : st.State)
      → (remove_from_index st key id s).0 ≡ ok tt
      → IsUnlisted key id (remove_from_index st key id s).1
  IsUnlisted-remove_from_index key id s h =
      let (ids, e) = remove_from_index_readable st key id s h in
      (
        without ids id,
        load_ids-remove_from_index st key id s ids e h,
        ground (arith, contains-without ids id id, ==_refl id),
      )

  -- No addition to an index takes an id off an index.
  pub IsListed-kept :
      (key id other j : Text) (s : st.State)
      → (add_to_index st other j s).0 ≡ ok tt
      → IsListed key id s
      → IsListed key id (add_to_index st other j s).1
  IsListed-kept key id other j s h (ids, e, c) = elim (Bool-cases (key == other)) [
    | inl same ↦
        let k : key ≡ other = (==_iff _ _).0 same in
        let e' : load_ids st other s ≡ ok ids = subst (λ x. load_ids st x s ≡ ok ids) k e in
        (
          with_id ids j,
          subst (λ x. load_ids st x (add_to_index st other j s).1 ≡ ok (with_id ids j)) (sym k)
              (load_ids-add_to_index st other j s ids e' h),
          ground (arith, contains-with_id ids j id),
        )
    | inr differ ↦ (
      ids,
      load_ids_of_get st key (add_to_index st other j s).1 s
            (get-add_to_index_ne st other j key s (λ k. cc (differ, (==_iff _ _).1 k)))
          ∙ e,
      c,
    )
  ]

  -- No removal from an index brings an id into an index.
  pub IsUnlisted-kept :
      (key id other j : Text) (s : st.State)
      → (remove_from_index st other j s).0 ≡ ok tt
      → IsUnlisted key id s
      → IsUnlisted key id (remove_from_index st other j s).1
  IsUnlisted-kept key id other j s h (ids, e, c) = elim (Bool-cases (key == other)) [
    | inl same ↦
        let k : key ≡ other = (==_iff _ _).0 same in
        let e' : load_ids st other s ≡ ok ids = subst (λ x. load_ids st x s ≡ ok ids) k e in
        (
          without ids j,
          subst (λ x. load_ids st x (remove_from_index st other j s).1 ≡ ok (without ids j)) (sym k)
              (load_ids-remove_from_index st other j s ids e' h),
          ground (arith, contains-without ids j id),
        )
    | inr differ ↦ (
      ids,
      load_ids_of_get st key (remove_from_index st other j s).1 s
            (get-remove_from_index_ne st other j key s (λ k. cc (differ, (==_iff _ _).1 k)))
          ∙ e,
      c,
    )
  ]

  pub IsUnlisted-of_get :
      (key id : Text) (s t : st.State)
      → st.get key t ≡ st.get key s
      → IsUnlisted key id s
      → IsUnlisted key id t
  IsUnlisted-of_get key id s t same (ids, e, c) = (ids, load_ids_of_get st key t s same ∙ e, c)
