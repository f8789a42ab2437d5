-- ===== src/Server/Pairing/Accept.antt =====
-- pairAccept: who may accept a pair, and what it leaves in the storage.
use signature_escrow.Common.{◌≡◌, inl, inr, true, false, Bool-cases, subst, none, some, List, arith}
use signature_escrow.Text.{Text, is_empty, equal_fold, ==_iff, ◌==◌}
use signature_escrow.Act.{ok, Result-cases}
use signature_escrow.Storage.{Storage, Codec, load, load-save_self, save}
use signature_escrow.Http.{Reply, content, status_code}
use signature_escrow.Server.Pairing.{
  Pair, PairResponse, pair_status_accepted, response_of, load_pair, pair_accept, pair_key,
}

module _ {Blob : Type 0} (st : Storage Blob) ⦃pair_codec : Codec Blob Pair⦄
    ⦃ids_codec : Codec Blob (List Text)⦄ (id caller : Text) (s : st.State) where
  abbrev pub accepted : Pair → Pair
  accepted p = record p { status = pair_status_accepted }

  -- Where the pair was pending, its record was written anew.
  pair_accept_writes :
      {reply : Reply PairResponse} (p : Pair)
      → load_pair st id s ≡ ok (some p)
      → (p.status == pair_status_accepted) ≡ false
      → (pair_accept st (ok id) caller s).0 ≡ ok reply
      → ((save st (pair_key p.id) (accepted p) s).0 ≡ ok tt)
        × ((pair_accept st (ok id) caller s).1 ≡ (save st (pair_key p.id) (accepted p) s).1)
  unfolding pair_accept save
  pair_accept_writes p e pending h = ground arith

  pair_accept_stays :
      {reply : Reply PairResponse} (p : Pair)
      → load_pair st id s ≡ ok (some p)
      → p.status ≡ pair_status_accepted
      → (pair_accept st (ok id) caller s).0 ≡ ok reply
      → (pair_accept st (ok id) caller s).1 ≡ s
  unfolding pair_accept
  pair_accept_stays p e done h = ground (arith, ==_iff p.status pair_status_accepted)

  load_pair-pair_accept :
      {reply : Reply PairResponse} (p : Pair)
      → load_pair st id s ≡ ok (some p)
      → (pair_accept st (ok id) caller s).0 ≡ ok reply
      → p.id ≡ id
      → load_pair st id (pair_accept st (ok id) caller s).1 ≡ ok (some (accepted p))
  unfolding load_pair
  load_pair-pair_accept p e h k = elim (Bool-cases (p.status == pair_status_accepted)) [
    | inl done ↦
        let same = (==_iff p.status pair_status_accepted).0 done in
        cc (pair_accept_stays p e same h, e, same)
    | inr pending ↦
        let (saved, end) = pair_accept_writes p e pending h in
        rw end (
          subst
            (λ x.
              load st (pair_key x) (save st (pair_key p.id) (accepted p) s).1
              ≡ ok (some (accepted p)))
            k (load-save_self st (pair_key p.id) (accepted p) s saved))
  ]

  -- Where the record at the id carries that id, an accept request that is answered 200 came from
  -- the partner of the stored pair, is answered with that pair as accepted, and this is the pair
  -- that is stored afterwards.
  pub pair_accept_sound :
      {reply : Reply PairResponse}
      → ((q : Pair) → load_pair st id s ≡ ok (some q) → q.id ≡ id)
      → (pair_accept st (ok id) caller s).0 ≡ ok reply
      → (p : Pair) × (load_pair st id s ≡ ok (some p))
        × (equal_fold p.partner caller ≡ true)
        × (reply ≡ content (response_of (accepted p)))
        × (load_pair st id (pair_accept st (ok id) caller s).1 ≡ ok (some (accepted p)))
  unfolding pair_accept
  pair_accept_sound keyed h = elim (Result-cases (load_pair st id s)) [
    | inl (none, e) ↦ ground (arith, e)
    | inl (some p, e) ↦ (
      p,
      e,
      ground (arith, e),
      ground (arith, e, ==_iff p.status pair_status_accepted),
      load_pair-pair_accept p e h (keyed p e),
    )
    | inr (x, e) ↦ ground (arith, e)
  ]

  -- Anyone but the partner is refused, and the storage is as it was.
  pub pair_accept_forbidden :
      (p : Pair)
      → is_empty id ≡ false
      → load_pair st id s ≡ ok (some p)
      → equal_fold p.partner caller ≡ false
      → (status_code (pair_accept st (ok id) caller s).0 ≡ 403)
        × ((pair_accept st (ok id) caller s).1 ≡ s)
  unfolding pair_accept
  pair_accept_forbidden p full e other = ground arith
