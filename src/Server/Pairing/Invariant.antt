-- ===== src/Server/Pairing/Invariant.antt =====
-- The ids that the records of server/pairing.go stand under, through sequences of requests.
use signature_escrow.Common.{
  ℕ, ◌≡◌, ◌⊎◌, inl, inr, sym, ◌∙◌, true, Bool-cases, not, ◌&&◌, ◌||◌, none, some, List, [], ◌∷◌,
  arith, subst,
}
use signature_escrow.Text.{Text, to_lower, ==_iff, ◌==◌, equal_fold, is_empty}
use signature_escrow.Text.Bytes.{lacks}
use signature_escrow.Act.{Result, ok, err, Result-cases}
use signature_escrow.Storage.{
  Error, Storage, Codec, load, save, load-save_cases, load-delete_cases, load_of_get,
}
use signature_escrow.Server.Index.{add_to_index, remove_from_index, get-remove_from_index_ne}
use signature_escrow.Server.Pairing.{
  Pair, pair_status_accepted, pair_key, pair_index_key, new_pair, store_pair, load_pair,
  delete_pair, pair_create, pair_accept, pair_delete,
}
use signature_escrow.Server.Pairing.Ids.{pair_key-ne-pair_index_key, pair_key-injective}
use signature_escrow.Server.Pairing.Stored.{load_pair-save_ne, load_pair-add_to_index}

-- The requests that write, with what their bodies decode to.
pub data Request : Type 0 where
  create : Result Error Text → ℕ → Request
  accept delete : Result Error Text → Request

module _ {Blob : Type 0} (st : Storage Blob) ⦃pair_codec : Codec Blob Pair⦄
    ⦃ids_codec : Codec Blob (List Text)⦄ where
  pub record IsKeyed (s : st.State) : Type 0 where
    pub at :
        (id : Text) (p : Pair) → lacks b'/' id ≡ true → load_pair st id s ≡ ok (some p) → p.id ≡ id

  IsKeyed-save : (p : Pair) (s : st.State) → IsKeyed s → IsKeyed (save st (pair_key p.id) p s).1
  unfolding load_pair
  IsKeyed-save p s h = record {
    at = λ id q clean e. elim (Bool-cases (id == p.id)) [
      | inl same ↦
          let k : id ≡ p.id = (==_iff id p.id).0 same in
          let e' : load st (pair_key p.id) (save st (pair_key p.id) p s).1 ≡ ok (some q) =
            subst (λ x. load st (pair_key x) (save st (pair_key p.id) p s).1 ≡ ok (some q)) k e in
          elim (load-save_cases st (pair_key p.id) p s) [
            | inl new ↦ cc (k, e', new)
            | inr old ↦ h.at id q clean (cc (k, e', old))
          ]
      | inr other ↦
          h.at id q clean
            (sym (load_pair-save_ne st id p.id p s (λ k. cc (other, (==_iff id p.id).1 k))) ∙ e)
    ];
  }

  IsKeyed-add_to_index :
      (address j : Text) (s : st.State)
      → IsKeyed s
      → IsKeyed (add_to_index st (pair_index_key address) j s).1
  IsKeyed-add_to_index address j s h = record {
    at = λ id q clean e. h.at id q clean (sym (load_pair-add_to_index st id address j s clean) ∙ e);
  }

  IsKeyed-remove_from_index :
      (address j : Text) (s : st.State)
      → IsKeyed s
      → IsKeyed (remove_from_index st (pair_index_key address) j s).1
  unfolding load_pair
  IsKeyed-remove_from_index address j s h = record {
    at = λ id q clean e. h.at id q clean (
        sym (
          load_of_get st (pair_key id) _ s (
            get-remove_from_index_ne st (pair_index_key address) j (pair_key id) s
              (pair_key-ne-pair_index_key id address clean)))
        ∙ e);
  }

  IsKeyed-delete : (j : Text) (s : st.State) → IsKeyed s → IsKeyed (st.delete (pair_key j) s).1
  unfolding load_pair
  IsKeyed-delete j s h = record {
    at = λ id q clean e. elim (Bool-cases (id == j)) [
      | inl same ↦
          let k : id ≡ j = (==_iff id j).0 same in
          let e' : load st (pair_key j) (st.delete (pair_key j) s).1 ≡ ok (some q) =
            subst (λ x. load st (pair_key x) (st.delete (pair_key j) s).1 ≡ ok (some q)) k e in
          elim (load-delete_cases {A = Pair} st (pair_key j) s) [
            | inl gone ↦ cc (e', gone)
            | inr old ↦ h.at id q clean (cc (k, e', old))
          ]
      | inr other ↦ h.at id q clean (
          sym (
            load_of_get st (pair_key id) _ s (
              st.get-delete_ne (pair_key j) (pair_key id) s
                (λ k. cc (other, (==_iff id j).1 (pair_key-injective id j k)))))
          ∙ e)
    ];
  }

  IsKeyed-store_pair : (p : Pair) (s : st.State) → IsKeyed s → IsKeyed (store_pair st p s).1
  unfolding store_pair
  IsKeyed-store_pair p s h =
      let saved = IsKeyed-save p s h in
      let first = IsKeyed-add_to_index p.initiator p.id _ saved in
      let second = IsKeyed-add_to_index p.partner p.id _ first in ground arith

  IsKeyed-delete_pair : (p : Pair) (s : st.State) → IsKeyed s → IsKeyed (delete_pair st p s).1
  unfolding delete_pair
  IsKeyed-delete_pair p s h =
      let first = IsKeyed-remove_from_index p.initiator p.id s h in
      let second = IsKeyed-remove_from_index p.partner p.id _ first in
      let gone = IsKeyed-delete p.id _ second in ground arith

  module _ (caller : Text) (now : ℕ) (s : st.State) where
    -- Each handler writes by one of the functions above, or not at all.
    pair_create_writes :
        (requested : Text)
        → ((pair_create st (ok requested) caller now s).1 ≡ s)
          ⊎ ((pair_create st (ok requested) caller now s).1
              ≡ (store_pair st (new_pair caller (to_lower requested) now) s).1)
    unfolding pair_create
    pair_create_writes requested = ground arith

    pair_accept_writes :
        (id : Text)
        → ((pair_accept st (ok id) caller s).1 ≡ s)
          ⊎ ((p : Pair) × ((pair_accept st (ok id) caller s).1 ≡ (save st (pair_key p.id) p s).1))
    unfolding pair_accept save
    pair_accept_writes id = elim (Result-cases (load_pair st id s)) [
      | inl (none, e) ↦ inl (ground (arith, e))
      | inl (some p, e) ↦
          elim (Bool-cases (
            equal_fold p.partner caller
            && not (p.status == pair_status_accepted)
            && not (is_empty id))) [
              | inl writes ↦ inr (record p { status = pair_status_accepted }, ground (arith, e))
              | inr quiet ↦ inl (ground (arith, e))
            ]
      | inr (x, e) ↦ inl (ground (arith, e))
    ]

    pub pair_delete_writes :
        (id : Text)
        → ((pair_delete st (ok id) caller s).1 ≡ s)
          ⊎ ((p : Pair) × ((pair_delete st (ok id) caller s).1 ≡ (delete_pair st p s).1))
    unfolding pair_delete
    pair_delete_writes id = elim (Result-cases (load_pair st id s)) [
      | inl (none, e) ↦ inl (ground (arith, e))
      | inl (some p, e) ↦
          elim (Bool-cases
            ((equal_fold p.initiator caller || equal_fold p.partner caller) && not (is_empty id))) [
              | inl writes ↦ inr (p, ground (arith, e))
              | inr quiet ↦ inl (ground (arith, e))
            ]
      | inr (x, e) ↦ inl (ground (arith, e))
    ]

  -- The state after a request of an authenticated caller.
  unfoldable pub serve : Text → Request → st.State → st.State
  serve caller (create body now) s = (pair_create st body caller now s).1
  serve caller (accept body) s = (pair_accept st body caller s).1
  serve caller (delete body) s = (pair_delete st body caller s).1

  serve-IsKeyed :
      (caller : Text) (r : Request) (s : st.State) → IsKeyed s → IsKeyed (serve caller r s)
  unfolding serve
  serve-IsKeyed caller (create (ok requested) now) s h =
      elim (pair_create_writes caller now s requested) [
        | inl same ↦ rw same h
        | inr stored ↦ rw stored (IsKeyed-store_pair (new_pair caller (to_lower requested) now) s h)
      ]
  serve-IsKeyed caller (accept (ok id)) s h = elim (pair_accept_writes caller 0 s id) [
    | inl same ↦ rw same h
    | inr (p, saved) ↦ rw saved (IsKeyed-save p s h)
  ]
  serve-IsKeyed caller (delete (ok id)) s h = elim (pair_delete_writes caller 0 s id) [
    | inl same ↦ rw same h
    | inr (p, gone) ↦ rw gone (IsKeyed-delete_pair p s h)
  ]
  serve-IsKeyed caller (create (err e) now) s h = unfold pair_create in h
  serve-IsKeyed caller (accept (err e)) s h = unfold pair_accept in h
  serve-IsKeyed caller (delete (err e)) s h = unfold pair_delete in h

  -- Requests of several callers, one after the other.
  unfoldable pub serve_all : List (Text × Request) → st.State → st.State
  serve_all [] s = s
  serve_all ((caller, r) ∷ rest) s = serve_all rest (serve caller r s)

  pub serve_all-IsKeyed :
      (requests : List (Text × Request)) (s : st.State) → IsKeyed s → IsKeyed (serve_all requests s)
  unfolding serve_all
  serve_all-IsKeyed [] s h = h
  serve_all-IsKeyed ((caller, r) ∷ rest) s h =
      serve_all-IsKeyed rest (serve caller r s) (serve-IsKeyed caller r s h)
