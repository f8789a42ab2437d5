-- ===== src/Server/Pairing/Create.antt =====
-- pairCreate: what a request leaves in the storage.
use signature_escrow.Common.{ℕ, ◌≡◌, true, false, none, some, List, arith}
use signature_escrow.Text.{Text, to_lower, is_empty, equal_fold}
use signature_escrow.Text.Bytes.{lacks, lacks-to_lower}
use signature_escrow.Act.{ok}
use signature_escrow.Storage.{Storage, Codec}
use signature_escrow.Http.{Reply, content}
use signature_escrow.Server.Index.Listed.{IsListed}
use signature_escrow.Server.Pairing.{
  pair_index_key, Pair, PairResponse, new_pair, response_of, store_pair, load_pair, pair_create,
}
use signature_escrow.Server.Pairing.Ids.{pair_id-lacks}
use signature_escrow.Server.Pairing.Stored.{load_pair-store_pair, store_pair-IsListed}

module _ {Blob : Type 0} (st : Storage Blob) ⦃pair_codec : Codec Blob Pair⦄
    ⦃ids_codec : Codec Blob (List Text)⦄ (requested caller : Text) (now : ℕ) (s : st.State) where
  abbrev pub created : Pair
  created = new_pair caller (to_lower requested) now

  abbrev pub after_create : st.State
  after_create = (pair_create st (ok requested) caller now s).1

  -- A request that went through stored the pair, unless there was one already.
  pair_create_steps :
      {reply : Reply PairResponse}
      → load_pair st created.id s ≡ ok none
      → (pair_create st (ok requested) caller now s).0 ≡ ok reply
      → (reply ≡ content (response_of created))
        × ((store_pair st created s).0 ≡ ok tt)
        × (after_create ≡ (store_pair st created s).1)
        × (is_empty requested ≡ false)
        × (equal_fold caller (to_lower requested) ≡ false)
  unfolding pair_create
  pair_create_steps e h = ground arith

  -- Where no pair of the caller and the partner is stored and neither address has a slash, a create
  -- request that is answered 200 stored the pair and put its id into the index of both addresses,
  -- and is answered with the pair.
  pub pair_create_stores :
      {reply : Reply PairResponse}
      → lacks b'/' caller ≡ true
      → lacks b'/' requested ≡ true
      → load_pair st created.id s ≡ ok none
      → (pair_create st (ok requested) caller now s).0 ≡ ok reply
      → (reply ≡ content (response_of created))
        × (load_pair st created.id after_create ≡ ok (some created))
        × IsListed st (pair_index_key caller) created.id after_create
        × IsListed st (pair_index_key (to_lower requested)) created.id after_create
  pair_create_stores hc hr e h =
      let (answer, stored, end, full, other) = pair_create_steps e h in
      let clean =
        pair_id-lacks caller (to_lower requested) hc
          (lacks-to_lower b'/' requested (omega arith) hr) in
      let (mine, theirs) = store_pair-IsListed st created s stored in
      (answer, rw end (load_pair-store_pair st created s clean stored), rw end mine, rw end theirs)

  -- A second request for a pair answers with the pair that is there and writes nothing.
  pub pair_create_idempotent :
      (existing : Pair)
      → is_empty requested ≡ false
      → equal_fold caller (to_lower requested) ≡ false
      → load_pair st created.id s ≡ ok (some existing)
      → pair_create st (ok requested) caller now s ≡ (ok (content (response_of existing)), s)
  unfolding pair_create
  pair_create_idempotent existing full other e = ground arith
