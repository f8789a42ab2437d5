-- ===== src/Server/Pairing/Delete.antt =====
-- pairDelete: who may delete a pair, and what is left of it.
use signature_escrow.Common.{◌≡◌, sym, true, false, ◌||◌, Bool, subst, none, some, List, arith}
use signature_escrow.Text.{Text, is_empty, equal_fold}
use signature_escrow.Text.Bytes.{lacks}
use signature_escrow.Act.{ok}
use signature_escrow.Storage.{Storage, Codec, load_of_get_none}
use signature_escrow.Http.{Reply, status_code}
use signature_escrow.Server.Index.{remove_from_index}
use signature_escrow.Server.Index.Listed.{
  IsUnlisted, IsUnlisted-remove_from_index, IsUnlisted-kept, IsUnlisted-of_get,
}
use signature_escrow.Server.Pairing.{
  Pair, pair_key, pair_index_key, load_pair, delete_pair, pair_delete,
}
use signature_escrow.Server.Pairing.Ids.{pair_key-ne-pair_index_key}

module _ {Blob : Type 0} (st : Storage Blob) ⦃pair_codec : Codec Blob Pair⦄
    ⦃ids_codec : Codec Blob (List Text)⦄ where
  -- A delete of a record leaves the indices alone.
  IsUnlisted-delete :
      (address id : Text) (s : st.State)
      → lacks b'/' id ≡ true
      → IsUnlisted st (pair_index_key address) id s
      → IsUnlisted st (pair_index_key address) id (st.delete (pair_key id) s).1
  IsUnlisted-delete address id s clean h =
      IsUnlisted-of_get st (pair_index_key address) id s _
        (st.get-delete_ne (pair_key id) (pair_index_key address) s
          (λ k. pair_key-ne-pair_index_key id address clean (sym k)))
        h

  module _ (p : Pair) (s : st.State) where
    abbrev unlisted_once : st.State
    unlisted_once = (remove_from_index st (pair_index_key p.initiator) p.id s).1

    abbrev unlisted_twice : st.State
    unlisted_twice = (remove_from_index st (pair_index_key p.partner) p.id unlisted_once).1

    delete_pair_steps :
        (delete_pair st p s).0 ≡ ok tt
        → ((remove_from_index st (pair_index_key p.initiator) p.id s).0 ≡ ok tt)
          × ((remove_from_index st (pair_index_key p.partner) p.id unlisted_once).0 ≡ ok tt)
          × ((st.delete (pair_key p.id) unlisted_twice).0 ≡ ok tt)
          × ((delete_pair st p s).1 ≡ (st.delete (pair_key p.id) unlisted_twice).1)
    unfolding delete_pair
    delete_pair_steps h = ground arith

    -- Nothing is left of the pair.
    pub delete_pair_lem :
        lacks b'/' p.id ≡ true
        → (delete_pair st p s).0 ≡ ok tt
        → (load_pair st p.id (delete_pair st p s).1 ≡ ok none)
          × IsUnlisted st (pair_index_key p.initiator) p.id (delete_pair st p s).1
          × IsUnlisted st (pair_index_key p.partner) p.id (delete_pair st p s).1
    unfolding load_pair
    delete_pair_lem clean h =
        let (first, second, gone, end) = delete_pair_steps h in
        let one = IsUnlisted-remove_from_index st (pair_index_key p.initiator) p.id s first in
        let two =
          IsUnlisted-remove_from_index st (pair_index_key p.partner) p.id unlisted_once second in
        rw end (
          load_of_get_none st (pair_key p.id) _
              (st.get-delete_self (pair_key p.id) unlisted_twice gone),
          IsUnlisted-delete p.initiator p.id unlisted_twice clean (
              IsUnlisted-kept st (pair_index_key p.initiator) p.id (pair_index_key p.partner) p.id
                unlisted_once second one),
          IsUnlisted-delete p.partner p.id unlisted_twice clean two,
        )

  pair_delete_steps :
      (id caller : Text) (p : Pair) (s : st.State) {reply : Reply Bool}
      → load_pair st id s ≡ ok (some p)
      → (pair_delete st (ok id) caller s).0 ≡ ok reply
      → ((delete_pair st p s).0 ≡ ok tt)
        × ((pair_delete st (ok id) caller s).1 ≡ (delete_pair st p s).1)
        × ((equal_fold p.initiator caller || equal_fold p.partner caller) ≡ true)
  unfolding pair_delete
  pair_delete_steps id caller p s e h = ground arith

  -- A delete request that is answered 200 for a stored pair came from one of its members;
  -- afterwards the record is gone, and the index of neither member names it. Condition: the record
  -- carries its id, which has no slash.
  pub pair_delete_removes :
      (id caller : Text) (p : Pair) (s : st.State) {reply : Reply Bool}
      → lacks b'/' id ≡ true
      → load_pair st id s ≡ ok (some p)
      → p.id ≡ id
      → (pair_delete st (ok id) caller s).0 ≡ ok reply
      → (load_pair st id (pair_delete st (ok id) caller s).1 ≡ ok none)
        × IsUnlisted st (pair_index_key p.initiator) id (pair_delete st (ok id) caller s).1
        × IsUnlisted st (pair_index_key p.partner) id (pair_delete st (ok id) caller s).1
        × ((equal_fold p.initiator caller || equal_fold p.partner caller) ≡ true)
  pair_delete_removes id caller p s clean e k h =
      let (stored, end, member) = pair_delete_steps id caller p s e h in
      let (gone, one, two) =
        delete_pair_lem p s (subst (λ x. lacks b'/' x ≡ true) (sym k) clean) stored in
      let at_id =
        subst
          (λ x.
            (load_pair st x (delete_pair st p s).1 ≡ ok none)
            × IsUnlisted st (pair_index_key p.initiator) x (delete_pair st p s).1
            × IsUnlisted st (pair_index_key p.partner) x (delete_pair st p s).1)
          k (gone, one, two) in
      rw end (at_id.0, at_id.1, at_id.2, member)

  -- A stranger is refused, and the storage is as it was.
  pub pair_delete_forbidden :
      (id caller : Text) (p : Pair) (s : st.State)
      → is_empty id ≡ false
      → load_pair st id s ≡ ok (some p)
      → equal_fold p.initiator caller ≡ false
      → equal_fold p.partner caller ≡ false
      → (status_code (pair_delete st (ok id) caller s).0 ≡ 403)
        × ((pair_delete st (ok id) caller s).1 ≡ s)
  unfolding pair_delete
  pair_delete_forbidden id caller p s full e h k = ground arith
