-- ===== src/Client/Exchange/Lookup.antt =====
-- The list of exchanges as a map from ids.
use signature_escrow.Common.{
  ℕ, ◌≡◌, ◌⊎◌, Option-cases, refl, inl, inr, Bool, Option, none, some, List, [], ◌∷◌, arith,
  if◌then◌else◌,
}
use signature_escrow.Text.{Text, ◌==◌, ==_iff}
use signature_escrow.Act.{ok}
use signature_escrow.Storage.{Storage, Codec, load-save_self}
use signature_escrow.Http.{Reply, content}
use signature_escrow.Client.Exchange.{
  Exchange, ExchangeRequest, updated, replaced, imported, change_first, found_first, without_id,
  load_exchanges, save_exchanges, update_exchange, upsert_exchange, delete_exchange, exchanges_key,
}

-- The first exchange with the id.
unfoldable pub lookup : Text → List Exchange → Option Exchange
lookup id [] = none
lookup id (e ∷ es) = let rest = lookup id es in if e.id == id then some e else rest

abbrev pub mapped : (Exchange → Exchange) → Option Exchange → Option Exchange
mapped f none = none
mapped f (some e) = some (f e)

lookup_id : (id : Text) (es : List Exchange) (e : Exchange) → lookup id es ≡ some e → e.id ≡ id
unfolding lookup
lookup_id id [] e h = cc
lookup_id id (x ∷ es) e h = ground (arith, ==_iff x.id id, lookup_id id es e)

pub found_first-lookup :
    (id : Text) (f : Exchange → Exchange) (es : List Exchange)
    → found_first id f es ≡ mapped f (lookup id es)
unfolding found_first lookup
found_first-lookup id f [] = refl
found_first-lookup id f (e ∷ es) = ground (arith, found_first-lookup id f es)

module _ (f : Exchange → Exchange) (same_id : (e : Exchange) → (f e).id ≡ e.id) where
  pub lookup-change_first :
      (id j : Text) (es : List Exchange)
      → lookup j (change_first id f es) ≡ (if j == id then mapped f (lookup id es) else lookup j es)
  unfolding lookup change_first
  lookup-change_first id j [] = ground arith
  lookup-change_first id j (e ∷ es) =
      ground
        (arith, lookup-change_first id j es, same_id e, ==_iff e.id id, ==_iff e.id j, ==_iff j id)

pub lookup-without_id :
    (id j : Text) (es : List Exchange)
    → lookup j (without_id id es) ≡ (if j == id then none else lookup j es)
unfolding lookup without_id
lookup-without_id id j [] = ground arith
lookup-without_id id j (e ∷ es) =
    ground (arith, lookup-without_id id j es, ==_iff e.id id, ==_iff e.id j, ==_iff j id)

pub updated_id : (req : ExchangeRequest) (e : Exchange) → (updated req e).id ≡ e.id
unfolding updated
updated_id req e = refl

pub replaced_id : (req : ExchangeRequest) (e : Exchange) → (replaced req e).id ≡ e.id
unfolding replaced
replaced_id req e = refl

module _ {Blob : Type 0} (st : Storage Blob) ⦃codec : Codec Blob (List Exchange)⦄
    (s : st.State) where
  saved_list :
      (list : List Exchange)
      → (save_exchanges st list s).0 ≡ ok tt
      → load_exchanges st (save_exchanges st list s).1 ≡ ok list
  unfolding load_exchanges save_exchanges
  saved_list list h = ground (arith, load-save_self st exchanges_key list s h)

  upsert_steps :
      (req : ExchangeRequest) (now : ℕ) (ex : Exchange) (list : List Exchange)
      → load_exchanges st s ≡ ok list
      → (upsert_exchange st (ok req) now s).0 ≡ ok (content ex)
      → ((lookup req.id list ≡ none)
          × (ex ≡ imported req now)
          × ((save_exchanges st (ex ∷ list) s).0 ≡ ok tt)
          × ((upsert_exchange st (ok req) now s).1 ≡ (save_exchanges st (ex ∷ list) s).1))
        ⊎ ((old : Exchange) × (lookup req.id list ≡ some old)
            × (ex ≡ replaced req old)
            × ((save_exchanges st (change_first req.id (replaced req) list) s).0 ≡ ok tt)
            × ((upsert_exchange st (ok req) now s).1
                ≡ (save_exchanges st (change_first req.id (replaced req) list) s).1))
  unfolding upsert_exchange
  upsert_steps req now ex list e h = elim (Option-cases (lookup req.id list)) [
    | inl absent ↦
        let none_found = found_first-lookup req.id (replaced req) list in
        inl (ground (arith, e, h, absent, none_found))
    | inr (old, there) ↦
        let one_found = found_first-lookup req.id (replaced req) list in
        inr (
          old,
          there,
          ground (arith, e, h, there, one_found),
          ground (arith, e, h, there, one_found),
          ground (arith, e, h, there, one_found),
        )
  ]

  -- An upsert that is answered 200 stored under its id the answered exchange: the request's, which
  -- keeps the time at which it was made if the id was there; what is stored under each other id is
  -- as it was.
  pub upsert_exchange_stores :
      (req : ExchangeRequest) (now : ℕ) (ex : Exchange) (list : List Exchange) (j : Text)
      → load_exchanges st s ≡ ok list
      → (upsert_exchange st (ok req) now s).0 ≡ ok (content ex)
      → (((lookup req.id list ≡ none) × (ex ≡ imported req now))
          ⊎ ((old : Exchange) × (lookup req.id list ≡ some old) × (ex ≡ replaced req old)))
        × (after : List Exchange) × (load_exchanges st (upsert_exchange st (ok req) now s).1
            ≡ ok after)
        × (lookup j after ≡ (if j == req.id then some ex else lookup j list))
  unfolding lookup
  upsert_exchange_stores req now ex list j e h = elim (upsert_steps req now ex list e h) [
    | inl (absent, new, saved, end) ↦ (
      inl (absent, new),
      ex ∷ list,
      rw end (saved_list (ex ∷ list) saved),
      ground (arith, new, ==_iff req.id j, ==_iff j req.id),
    )
    | inr (old, there, new, saved, end) ↦ (
      inr (old, there, new),
      change_first req.id (replaced req) list,
      rw end (saved_list (change_first req.id (replaced req) list) saved),
      ground
          (arith, there, new, lookup-change_first (replaced req) (replaced_id req) req.id j list),
    )
  ]

  update_steps :
      (req : ExchangeRequest) (ex : Exchange) (list : List Exchange)
      → load_exchanges st s ≡ ok list
      → (update_exchange st (ok req) s).0 ≡ ok (content ex)
      → (old : Exchange) × (lookup req.id list ≡ some old)
        × (ex ≡ updated req old)
        × ((save_exchanges st (change_first req.id (updated req) list) s).0 ≡ ok tt)
        × ((update_exchange st (ok req) s).1
            ≡ (save_exchanges st (change_first req.id (updated req) list) s).1)
  unfolding update_exchange
  update_steps req ex list e h =
      let found = found_first-lookup req.id (updated req) list in
      elim (Option-cases (lookup req.id list)) [
        | inl absent ↦ absurd (ground (arith, e, h, absent, found))
        | inr (old, there) ↦ (
          old,
          there,
          ground (arith, e, h, there, found),
          ground (arith, e, h, there, found),
          ground (arith, e, h, there, found),
        )
      ]

  -- An update that is answered 200 found an exchange with its id, and stored under it the answered
  -- one: with the two addresses of the request and those of its other fields that are not empty;
  -- what is stored under each other id is as it was.
  pub update_exchange_stores :
      (req : ExchangeRequest) (ex : Exchange) (list : List Exchange) (j : Text)
      → load_exchanges st s ≡ ok list
      → (update_exchange st (ok req) s).0 ≡ ok (content ex)
      → (old : Exchange) × (lookup req.id list ≡ some old)
        × (ex ≡ updated req old)
        × (after : List Exchange) × (load_exchanges st (update_exchange st (ok req) s).1 ≡ ok after)
        × (lookup j after ≡ (if j == req.id then some ex else lookup j list))
  update_exchange_stores req ex list j e h =
      let (old, there, new, saved, end) = update_steps req ex list e h in
      (
        old,
        there,
        new,
        change_first req.id (updated req) list,
        rw end (saved_list (change_first req.id (updated req) list) saved),
        ground
            (arith, there, new, lookup-change_first (updated req) (updated_id req) req.id j list),
      )

  delete_steps :
      (id : Text) (list : List Exchange) {reply : Reply Bool}
      → load_exchanges st s ≡ ok list
      → (delete_exchange st (ok id) s).0 ≡ ok reply
      → ((save_exchanges st (without_id id list) s).0 ≡ ok tt)
        × ((delete_exchange st (ok id) s).1 ≡ (save_exchanges st (without_id id list) s).1)
  unfolding delete_exchange
  delete_steps id list e h = ground arith

  -- After a delete that is answered 200 no exchange has the id, and what stands under the other ids
  -- is as it was.
  pub delete_exchange_removes :
      (id : Text) (list : List Exchange) (j : Text) {reply : Reply Bool}
      → load_exchanges st s ≡ ok list
      → (delete_exchange st (ok id) s).0 ≡ ok reply
      → (after : List Exchange) × (load_exchanges st (delete_exchange st (ok id) s).1 ≡ ok after)
        × (lookup j after ≡ (if j == id then none else lookup j list))
  delete_exchange_removes id list j e h =
      let (saved, end) = delete_steps id list e h in
      (
        without_id id list,
        rw end (saved_list (without_id id list) saved),
        lookup-without_id id j list,
      )
