-- ===== src/Client/Exchange/Unique.antt =====
-- The ids in the stored list of exchanges.
use signature_escrow.Common.{
  ℕ, ◌≡◌, ◌⊎◌, refl, inl, inr, Bool-cases, Option-cases, none, List, [], ◌∷◌, arith, not,
  if◌then◌else◌,
}
use signature_escrow.Text.{Text, ◌==◌, ==_iff, is_empty}
use signature_escrow.Act.{Result, ok, err, Result-cases}
use signature_escrow.Storage.{Error, Storage, Codec, load-save_cases}
use signature_escrow.Client.Exchange.{
  Exchange, ExchangeRequest, updated, replaced, imported, change_first, found_first, without_id,
  load_exchanges, save_exchanges, update_exchange, upsert_exchange, delete_exchange, exchanges_key,
}
use signature_escrow.Client.Exchange.Lookup.{
  lookup, lookup-change_first, lookup-without_id, found_first-lookup, updated_id, replaced_id,
}

-- No two exchanges of the list have the same id.
abbrev pub IsUnique : List Exchange → Type 0
IsUnique [] = Unit
IsUnique (e ∷ es) = (lookup e.id es ≡ none) × IsUnique es

module _ (f : Exchange → Exchange) (same_id : (e : Exchange) → (f e).id ≡ e.id) where
  absent-change_first :
      (id j : Text) (es : List Exchange)
      → lookup j es ≡ none
      → lookup j (change_first id f es) ≡ none
  absent-change_first id j es h = ground (arith, lookup-change_first f same_id id j es, ==_iff j id)

  change_first_cons :
      (id : Text) (e : Exchange) (es : List Exchange)
      → change_first id f (e ∷ es) ≡ (if e.id == id then f e ∷ es else e ∷ change_first id f es)
  unfolding change_first
  change_first_cons id e es = refl

  change_first_nil : (id : Text) → change_first id f [] ≡ []
  unfolding change_first
  change_first_nil id = refl

  change_first-IsUnique :
      (id : Text) (es : List Exchange) → IsUnique es → IsUnique (change_first id f es)
  change_first-IsUnique id [] h = rw (change_first_nil id) tt
  change_first-IsUnique id (e ∷ es) (new, h) = elim (Bool-cases (e.id == id)) [
    | inl here ↦ rw (change_first_cons id e es, here, same_id e) (new, h)
    | inr there ↦
        rw (change_first_cons id e es, there)
          (absent-change_first id e.id es new, change_first-IsUnique id es h)
  ]

without_id_cons :
    (id : Text) (e : Exchange) (es : List Exchange)
    → without_id id (e ∷ es) ≡ (if not (e.id == id) then e ∷ without_id id es else without_id id es)
unfolding without_id
without_id_cons id e es = refl

without_id_nil : (id : Text) → without_id id [] ≡ []
unfolding without_id
without_id_nil id = refl

without_id-IsUnique : (id : Text) (es : List Exchange) → IsUnique es → IsUnique (without_id id es)
without_id-IsUnique id [] h = rw (without_id_nil id) tt
without_id-IsUnique id (e ∷ es) (new, h) = elim (Bool-cases (e.id == id)) [
  | inl here ↦ rw (without_id_cons id e es, here) (without_id-IsUnique id es h)
  | inr there ↦
      rw (without_id_cons id e es, there)
        (ground (arith, lookup-without_id id e.id es), without_id-IsUnique id es h)
]

-- The requests that name an exchange, with what their bodies decode to.
pub data Request : Type 0 where
  update : Result Error ExchangeRequest → Request
  upsert : Result Error ExchangeRequest → ℕ → Request
  delete : Result Error Text → Request

module _ {Blob : Type 0} (st : Storage Blob) ⦃codec : Codec Blob (List Exchange)⦄ where
  unfoldable pub serve : Request → st.State → st.State
  serve (update body) s = (update_exchange st body s).1
  serve (upsert body now) s = (upsert_exchange st body now s).1
  serve (delete body) s = (delete_exchange st body s).1

  -- The stored list names no id twice, where it is readable.
  pub record HasUnique (s : st.State) : Type 0 where
    pub at : (list : List Exchange) → load_exchanges st s ≡ ok list → IsUnique list

  save-HasUnique :
      (list : List Exchange) (s : st.State)
      → IsUnique list
      → HasUnique s
      → HasUnique (save_exchanges st list s).1
  unfolding load_exchanges save_exchanges
  save-HasUnique list s u h = record {
    at = λ after e. elim (load-save_cases st exchanges_key list s) [
      | inl new ↦ ground (arith, e, new, u)
      | inr old ↦ h.at after (ground (arith, e, old))
    ];
  }

  -- A request leaves the state, or saves a list that is made from the stored one.
  update_writes :
      (req : ExchangeRequest) (s : st.State)
      → ((update_exchange st (ok req) s).1 ≡ s)
        ⊎ ((list : List Exchange) × (load_exchanges st s ≡ ok list)
            × ((update_exchange st (ok req) s).1
                ≡ (save_exchanges st (change_first req.id (updated req) list) s).1))
  unfolding update_exchange
  update_writes req s = elim (Result-cases (load_exchanges st s)) [
    | inr (x, e) ↦ inl (ground (arith, e))
    | inl (list, e) ↦ elim (Option-cases (found_first req.id (updated req) list)) [
      | inl absent ↦ inl (ground (arith, e, absent))
      | inr (ex, there) ↦ elim (Bool-cases (is_empty req.id)) [
        | inl bare ↦ inl (ground (arith, bare))
        | inr full ↦ inr (list, e, ground (arith, e, there, full))
      ]
    ]
  ]

  upsert_writes :
      (req : ExchangeRequest) (now : ℕ) (s : st.State)
      → ((upsert_exchange st (ok req) now s).1 ≡ s)
        ⊎ ((list : List Exchange) × (load_exchanges st s ≡ ok list)
            × (((lookup req.id list ≡ none)
                  × ((upsert_exchange st (ok req) now s).1
                      ≡ (save_exchanges st (imported req now ∷ list) s).1))
                ⊎ ((upsert_exchange st (ok req) now s).1
                    ≡ (save_exchanges st (change_first req.id (replaced req) list) s).1)))
  unfolding upsert_exchange
  upsert_writes req now s = elim (Result-cases (load_exchanges st s)) [
    | inr (x, e) ↦ inl (ground (arith, e))
    | inl (list, e) ↦ elim (Bool-cases (is_empty req.id)) [
      | inl bare ↦ inl (ground (arith, bare))
      | inr full ↦
          let found = found_first-lookup req.id (replaced req) list in
          elim (Option-cases (lookup req.id list)) [
            | inl absent ↦ inr (list, e, inl (absent, ground (arith, e, absent, full, found)))
            | inr (ex, there) ↦ inr (list, e, inr (ground (arith, e, there, full, found)))
          ]
    ]
  ]

  delete_writes :
      (id : Text) (s : st.State)
      → ((delete_exchange st (ok id) s).1 ≡ s)
        ⊎ ((list : List Exchange) × (load_exchanges st s ≡ ok list)
            × ((delete_exchange st (ok id) s).1 ≡ (save_exchanges st (without_id id list) s).1))
  unfolding delete_exchange
  delete_writes id s = elim (Result-cases (load_exchanges st s)) [
    | inr (x, e) ↦ inl (ground (arith, e))
    | inl (list, e) ↦ elim (Bool-cases (is_empty id)) [
      | inl bare ↦ inl (ground (arith, bare))
      | inr full ↦ inr (list, e, ground (arith, e, full))
    ]
  ]

  -- If no two stored exchanges have one id, then it is so after an update, an upsert or a delete,
  -- whatever its answer, and also where the storage fails.
  pub serve-HasUnique : (r : Request) (s : st.State) → HasUnique s → HasUnique (serve r s)
  unfolding serve
  serve-HasUnique (update (ok req)) s h = elim (update_writes req s) [
    | inl same ↦ rw same h
    | inr (list, e, saved) ↦ rw saved (
        save-HasUnique (change_first req.id (updated req) list) s
          (change_first-IsUnique (updated req) (updated_id req) req.id list (h.at list e)) h)
  ]
  serve-HasUnique (upsert (ok req) now) s h = elim (upsert_writes req now s) [
    | inl same ↦ rw same h
    | inr (list, e, inl (absent, saved)) ↦
        rw saved (save-HasUnique (imported req now ∷ list) s (absent, h.at list e) h)
    | inr (list, e, inr saved) ↦ rw saved (
        save-HasUnique (change_first req.id (replaced req) list) s
          (change_first-IsUnique (replaced req) (replaced_id req) req.id list (h.at list e)) h)
  ]
  serve-HasUnique (delete (ok id)) s h = elim (delete_writes id s) [
    | inl same ↦ rw same h
    | inr (list, e, saved) ↦
        rw saved
          (save-HasUnique (without_id id list) s (without_id-IsUnique id list (h.at list e)) h)
  ]
  serve-HasUnique (update (err x)) s h = unfold update_exchange in h
  serve-HasUnique (upsert (err x) now) s h = unfold upsert_exchange in h
  serve-HasUnique (delete (err x)) s h = unfold delete_exchange in h
