-- ===== src/Client/Accounts/Delete.antt =====
-- client/accounts.go: what deleteAccount removes, and whether it was confirmed.
use signature_escrow.Common.{
  ℕ, ◌≡◌, ◌≢◌, refl, sym, ap, subst, ◌∙◌, ◌⊎◌, inl, inr, false, none, some, Option-cases, List, [],
  ◌∷◌, ◌++◌, nat_eq, arith,
}
use signature_escrow.Text.{Text, Text-cases, bytes, is_empty, equal_fold, equal_fold_iff}
use signature_escrow.Act.{ok, err, Result-cases}
use signature_escrow.Storage.{Error, Storage, Codec, load}
use signature_escrow.Http.{content}
use signature_escrow.Client.Accounts.{
  AccountMeta, AccountDeleteRequest, account_base, account_keys, delete_keys, delete_account,
}

-- The text is none of the list.
unfoldable pub NoneOf : Text → List Text → Type 0
NoneOf j [] = Unit {0}
NoneOf j (k ∷ ks) = (j ≢ k) × NoneOf j ks

module _ {Blob : Type 0} (st : Storage Blob) ⦃codec : Codec Blob AccountMeta⦄ where
  -- Nothing is stored under any of the keys.
  unfoldable pub AllGone : List Text → st.State → Type 0
  AllGone [] s = Unit {0}
  AllGone (k ∷ ks) s = (st.get k s ≡ ok none) × AllGone ks s

  get-delete_keys_ne :
      (j : Text) (ks : List Text) (s : st.State)
      → NoneOf j ks
      → st.get j (delete_keys st ks s) ≡ st.get j s
  unfolding delete_keys NoneOf
  get-delete_keys_ne j [] s far = refl
  get-delete_keys_ne j (k ∷ ks) s far =
      get-delete_keys_ne j ks (st.delete k s).1 far.1 ∙ st.get-delete_ne k j s far.0

  -- What is gone stays gone.
  get-delete_keys_gone :
      (j : Text) (ks : List Text) (s : st.State)
      → ((k : Text) (t : st.State) → (st.delete k t).0 ≡ ok tt)
      → st.get j s ≡ ok none
      → st.get j (delete_keys st ks s) ≡ ok none
  unfolding delete_keys
  get-delete_keys_gone j [] s calm gone = gone
  get-delete_keys_gone j (k ∷ ks) s calm gone =
      get-delete_keys_gone j ks (st.delete k s).1 calm (elim (Text-cases j k) [
        | inl e ↦ cc (e, st.get-delete_self k s (calm k s))
        | inr ne ↦ st.get-delete_ne k j s ne ∙ gone
      ])

  delete_keys-AllGone :
      (ks : List Text) (s : st.State)
      → ((k : Text) (t : st.State) → (st.delete k t).0 ≡ ok tt)
      → AllGone ks (delete_keys st ks s)
  unfolding delete_keys AllGone
  delete_keys-AllGone [] s calm = tt
  delete_keys-AllGone (k ∷ ks) s calm = (
    get-delete_keys_gone k ks (st.delete k s).1 calm (st.get-delete_self k s (calm k s)),
    delete_keys-AllGone ks (st.delete k s).1 calm,
  )

  -- What comes of a `Get` and Unmarshal.
  fetch-cases :
      (key : Text) (s : st.State)
      → ((x : Error) × (st.get key s ≡ err x))
        ⊎ (st.get key s ≡ ok none)
        ⊎ ((blob : Blob) × (x : Error) × (st.get key s ≡ ok (some blob))
            × (codec.unmarshal blob ≡ err x))
        ⊎ ((blob : Blob) × (m : AccountMeta) × (st.get key s ≡ ok (some blob))
            × (codec.unmarshal blob ≡ ok m))
  fetch-cases key s = elim (Result-cases (st.get key s)) [
    | inr failed ↦ inl failed
    | inl (o, e) ↦ elim (Option-cases o) [
      | inl e' ↦ inr (inl (ground (arith, e, e')))
      | inr (blob, e') ↦ elim (Result-cases (codec.unmarshal blob)) [
        | inr (x, f) ↦ inr (inr (inl (blob, x, ground (arith, e, e'), f)))
        | inl (m, f) ↦ inr (inr (inr (blob, m, ground (arith, e, e'), f)))
      ]
    ]
  ]

  module _ (network : Text) (index : ℕ) (address : Text) where
    abbrev key : Text
    key = account_base network index ++ bytes "/meta"

    abbrev pub the_request : AccountDeleteRequest
    the_request = record { network = network; index = index; address = address }

    -- Whatever is answered, only the account's keys are deleted, and with 200 they are.
    delete_account-state :
        (s : st.State)
        → ((delete_account st (ok the_request) s).1 ≡ s)
          ⊎ ((delete_account st (ok the_request) s).1
              ≡ delete_keys st (account_keys (account_base network index)) s)
    unfolding delete_account
    delete_account-state s = ground (arith, fetch-cases key s)

    delete_account-done :
        (a : Text) (s : st.State)
        → (delete_account st (ok the_request) s).0 ≡ ok (content a)
        → (delete_account st (ok the_request) s).1
          ≡ delete_keys st (account_keys (account_base network index)) s
    unfolding delete_account
    delete_account-done a s h = ground (arith, fetch-cases key s)

    -- After a delete of an account that was answered 200 nothing is stored under its five keys, and
    -- what is stored under each other key is as it was. Condition: the storage takes each delete.
    pub delete_account_removes :
        (a : Text) (s : st.State)
        → ((k : Text) (t : st.State) → (st.delete k t).0 ≡ ok tt)
        → (delete_account st (ok the_request) s).0 ≡ ok (content a)
        → AllGone
            (account_keys (account_base network index))
            (delete_account st (ok the_request) s).1
          × ((j : Text)
              → NoneOf j (account_keys (account_base network index))
              → st.get j (delete_account st (ok the_request) s).1 ≡ st.get j s)
    delete_account_removes a s calm h =
        let e = delete_account-done a s h in
        (
          subst (AllGone (account_keys (account_base network index))) (sym e)
              (delete_keys-AllGone _ s calm),
          λ j far. ap (st.get j) e ∙ get-delete_keys_ne j _ s far,
        )

    module _ (m : AccountMeta) (s : st.State) where
      pub delete_account_confirms :
          is_empty network ≡ false
          → nat_eq index 0 ≡ false
          → load st key s ≡ ok (some m)
          → is_empty address ≡ false
          → equal_fold address m.address ≡ false
          → delete_account st (ok the_request) s ≡ (
            err (record {
              status = 400;
              message = bytes "address confirmation does not match this account";
            }),
            s,
          )
      unfolding delete_account load
      delete_account_confirms named counted here given other =
          ground (arith, fetch-cases key s, here)

  -- A request to delete a stored account that names no address is answered, and leaves the storage,
  -- just as the request that confirms the account's own address.
  pub delete_account_unconfirmed :
      (network : Text) (index : ℕ) (m : AccountMeta) (s : st.State)
      → load st (account_base network index ++ bytes "/meta") s ≡ ok (some m)
      → delete_account st (ok (the_request network index [])) s
        ≡ delete_account st (ok (the_request network index m.address)) s
  unfolding delete_account load
  delete_account_unconfirmed network index m s here = ground (
    arith,
    fetch-cases (account_base network index ++ bytes "/meta") s,
    here,
    (equal_fold_iff m.address m.address).1 refl,
  )
