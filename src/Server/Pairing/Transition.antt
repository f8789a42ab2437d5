-- ===== src/Server/Pairing/Transition.antt =====
-- What one request of server/pairing.go does to the record of a pair.
use signature_escrow.Common.{
  ◌≡◌, ◌≢◌, ◌⊎◌, inl, inr, ◌∙◌, true, Bool-cases, none, some, List, arith, ℕ,
}
use signature_escrow.Text.{Text, to_lower, ==_iff, ◌==◌, equal_fold}
use signature_escrow.Text.Bytes.{lacks}
use signature_escrow.Act.{ok, err, Result-cases}
use signature_escrow.Storage.{Storage, Codec, save, load-save_cases, load-delete_cases, load_of_get}
use signature_escrow.Server.Index.{remove_from_index, get-remove_from_index_ne}
use signature_escrow.Server.Pairing.{
  Pair, pair_status_accepted, pair_key, pair_index_key, pair_id, new_pair, store_pair, load_pair,
  delete_pair, pair_create, pair_accept, pair_delete,
}
use signature_escrow.Server.Pairing.Ids.{pair_key-ne-pair_index_key, pair_key-injective}
use signature_escrow.Server.Pairing.Stored.{load_pair-save_ne, load_pair-store_pair_ne}
use signature_escrow.Server.Pairing.Accept.{accepted}
use signature_escrow.Server.Pairing.Invariant.{
  IsKeyed, Request, create, accept, delete, serve, pair_delete_writes,
}

-- The id that an accept request reads from its body has no slash.
abbrev pub HasCleanId : Request → Type 0
HasCleanId (accept (ok id)) = lacks b'/' id ≡ true
HasCleanId _ = Unit

module _ {Blob : Type 0} (st : Storage Blob) ⦃pair_codec : Codec Blob Pair⦄
    ⦃ids_codec : Codec Blob (List Text)⦄ where
  create_writes :
      (requested caller : Text) (now : ℕ) (s : st.State)
      → ((pair_create st (ok requested) caller now s).1 ≡ s)
        ⊎ ((load_pair st (pair_id caller (to_lower requested)) s ≡ ok none)
            × ((pair_create st (ok requested) caller now s).1
                ≡ (store_pair st (new_pair caller (to_lower requested) now) s).1))
  unfolding pair_create
  create_writes requested caller now s = ground arith

  accept_writes :
      (id caller : Text) (p : Pair) (s : st.State)
      → load_pair st id s ≡ ok (some p)
      → ((pair_accept st (ok id) caller s).1 ≡ s)
        ⊎ ((equal_fold p.partner caller ≡ true)
            × ((pair_accept st (ok id) caller s).1
                ≡ (save st (pair_key p.id) (accepted st id caller s p) s).1))
  unfolding pair_accept save
  accept_writes id caller p s e = ground arith

  accept_absent :
      (id caller : Text) (s : st.State)
      → ((p : Pair) → load_pair st id s ≢ ok (some p))
      → (pair_accept st (ok id) caller s).1 ≡ s
  unfolding pair_accept
  accept_absent id caller s h = elim (Result-cases (load_pair st id s)) [
    | inl (none, e) ↦ ground (arith, e)
    | inl (some p, e) ↦ absurd (h p e)
    | inr (x, e) ↦ ground (arith, e)
  ]

  -- The record is as it was, or it was accepted by a caller who is its partner.
  abbrev pub IsStep : Text → Pair → Pair → Type 0
  IsStep caller p q =
      (q ≡ p)
      ⊎ ((q ≡ record p { status = pair_status_accepted }) × (equal_fold p.partner caller ≡ true))

  IsStep-of_same :
      (caller id : Text) (p q : Pair) (s t : st.State)
      → t ≡ s
      → load_pair st id s ≡ ok (some p)
      → load_pair st id t ≡ ok (some q)
      → IsStep caller p q
  IsStep-of_same caller id p q s t same e f = ground arith

  serve_create-IsStep :
      (caller requested : Text) (now : ℕ) (id : Text) (p q : Pair) (s : st.State)
      → lacks b'/' id ≡ true
      → load_pair st id s ≡ ok (some p)
      → load_pair st id (pair_create st (ok requested) caller now s).1 ≡ ok (some q)
      → IsStep caller p q
  serve_create-IsStep caller requested now id p q s clean e f =
      elim (create_writes requested caller now s) [
        | inl same ↦ IsStep-of_same caller id p q s _ same e f
        | inr (absent, stored) ↦
            let other : id ≢ pair_id caller (to_lower requested) = λ k. cc (k, e, absent) in
            inl (
              cc (
                f,
                stored,
                e,
                load_pair-store_pair_ne st (new_pair caller (to_lower requested) now) s id clean
                    other,
              ))
      ]

  serve_accept-IsStep :
      (caller j id : Text) (p q : Pair) (s : st.State)
      → IsKeyed st s
      → lacks b'/' j ≡ true
      → load_pair st id s ≡ ok (some p)
      → load_pair st id (pair_accept st (ok j) caller s).1 ≡ ok (some q)
      → IsStep caller p q
  unfolding load_pair
  serve_accept-IsStep caller j id p q s keyed clean e f = elim (Result-cases (load_pair st j s)) [
    | inl (none, r) ↦
        IsStep-of_same caller id p q s _ (accept_absent j caller s (λ o k. cc (r, k))) e f
    | inr (x, r) ↦
        IsStep-of_same caller id p q s _ (accept_absent j caller s (λ o k. cc (r, k))) e f
    | inl (some o, r) ↦ elim (accept_writes j caller o s r) [
      | inl same ↦ IsStep-of_same caller id p q s _ same e f
      | inr (allowed, saved) ↦ elim (Bool-cases (id == j)) [
        | inl here ↦
            let k : id ≡ j = (==_iff id j).0 here in
            let oj : o.id ≡ j = keyed.at j o clean r in
            elim (load-save_cases st (pair_key o.id) (accepted st j caller s o) s) [
              | inl new ↦ inr (cc (k, oj, new, f, saved, e, r), cc (k, e, r, allowed))
              | inr old ↦ inl (cc (k, oj, old, f, saved, e, r))
            ]
        | inr other ↦ inl (
            cc (
              f,
              saved,
              e,
              load_pair-save_ne st id o.id (accepted st j caller s o) s
                  (λ k. cc (other, (==_iff id j).1 (k ∙ keyed.at j o clean r))),
            ))
      ]
    ]
  ]

  load_pair-remove_from_index :
      (id address j : Text) (s : st.State)
      → lacks b'/' id ≡ true
      → load_pair st id (remove_from_index st (pair_index_key address) j s).1 ≡ load_pair st id s
  unfolding load_pair
  load_pair-remove_from_index id address j s clean = load_of_get st (pair_key id) _ s (
      get-remove_from_index_ne st (pair_index_key address) j (pair_key id) s
        (pair_key-ne-pair_index_key id address clean))

  load_pair-delete :
      (id j : Text) (s : st.State)
      → (load_pair st id (st.delete (pair_key j) s).1 ≡ ok none)
        ⊎ (load_pair st id (st.delete (pair_key j) s).1 ≡ load_pair st id s)
  unfolding load_pair
  load_pair-delete id j s = elim (Bool-cases (id == j)) [
    | inl same ↦
        let k : id ≡ j = (==_iff id j).0 same in
        elim (load-delete_cases {A = Pair} st (pair_key j) s) [
          | inl gone ↦ inl (cc (k, gone))
          | inr old ↦ inr (cc (k, old))
        ]
    | inr other ↦ inr (
        load_of_get st (pair_key id) _ s (
          st.get-delete_ne (pair_key j) (pair_key id) s
            (λ k. cc (other, (==_iff id j).1 (pair_key-injective id j k)))))
  ]

  -- Deleting any pair leaves the record of this one, or nothing.
  load_pair-delete_pair :
      (id : Text) (p : Pair) (s : st.State)
      → lacks b'/' id ≡ true
      → (load_pair st id (delete_pair st p s).1 ≡ ok none)
        ⊎ (load_pair st id (delete_pair st p s).1 ≡ load_pair st id s)
  unfolding delete_pair
  load_pair-delete_pair id p s clean =
      let one = (remove_from_index st (pair_index_key p.initiator) p.id s).1 in
      let two = (remove_from_index st (pair_index_key p.partner) p.id one).1 in
      ground (
        arith,
        load_pair-remove_from_index id p.initiator p.id s clean,
        load_pair-remove_from_index id p.partner p.id one clean,
        load_pair-delete id p.id two,
      )

  serve_delete-IsStep :
      (caller j id : Text) (p q : Pair) (s : st.State)
      → lacks b'/' id ≡ true
      → load_pair st id s ≡ ok (some p)
      → load_pair st id (pair_delete st (ok j) caller s).1 ≡ ok (some q)
      → IsStep caller p q
  serve_delete-IsStep caller j id p q s clean e f = elim (pair_delete_writes st caller 0 s j) [
    | inl same ↦ IsStep-of_same caller id p q s _ same e f
    | inr (o, gone) ↦ ground (arith, load_pair-delete_pair id o s clean)
  ]

  -- Whatever a create, accept or delete request of any caller does, a pair that is stored under an
  -- id before and after it is the same record, except that its status may have become accepted, and
  -- then the caller is its partner. Conditions: each record stands under its own id, and the id and
  -- an id to accept have no slash.
  pub serve_transition :
      (caller : Text) (r : Request) (id : Text) (p q : Pair) (s : st.State)
      → IsKeyed st s
      → HasCleanId r
      → lacks b'/' id ≡ true
      → load_pair st id s ≡ ok (some p)
      → load_pair st id (serve st caller r s) ≡ ok (some q)
      → IsStep caller p q
  unfolding serve
  serve_transition caller (create (ok requested) now) id p q s keyed c clean e f =
      serve_create-IsStep caller requested now id p q s clean e f
  serve_transition caller (accept (ok j)) id p q s keyed c clean e f =
      serve_accept-IsStep caller j id p q s keyed c e f
  serve_transition caller (delete (ok j)) id p q s keyed c clean e f =
      serve_delete-IsStep caller j id p q s clean e f
  serve_transition caller (create (err x) now) id p q s keyed c clean e f =
      inl (unfold pair_create in cc (e, f))
  serve_transition caller (accept (err x)) id p q s keyed c clean e f =
      inl (unfold pair_accept in cc (e, f))
  serve_transition caller (delete (err x)) id p q s keyed c clean e f =
      inl (unfold pair_delete in cc (e, f))
