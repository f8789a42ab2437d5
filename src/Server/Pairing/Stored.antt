-- ===== src/Server/Pairing/Stored.antt =====
-- What storePair and deletePair leave in the storage.
use signature_escrow.Common.{◌≡◌, ◌≢◌, ◌∙◌, true, some, List, arith}
use signature_escrow.Text.{Text}
use signature_escrow.Text.Bytes.{lacks}
use signature_escrow.Act.{ok}
use signature_escrow.Storage.{Storage, Codec, save, load-save_self, get-save_ne, load_of_get}
use signature_escrow.Server.Index.{add_to_index, get-add_to_index_ne}
use signature_escrow.Server.Index.Listed.{IsListed, IsListed-add_to_index, IsListed-kept}
use signature_escrow.Server.Pairing.{Pair, pair_key, pair_index_key, store_pair, load_pair}
use signature_escrow.Server.Pairing.Ids.{pair_key-ne-pair_index_key, pair_key-injective}

module _ {Blob : Type 0} (st : Storage Blob) ⦃pair_codec : Codec Blob Pair⦄
    ⦃ids_codec : Codec Blob (List Text)⦄ where
  pub load_pair-add_to_index :
      (id address j : Text) (s : st.State)
      → lacks b'/' id ≡ true
      → load_pair st id (add_to_index st (pair_index_key address) j s).1 ≡ load_pair st id s
  unfolding load_pair
  load_pair-add_to_index id address j s h = load_of_get st (pair_key id) _ s (
      get-add_to_index_ne st (pair_index_key address) j (pair_key id) s
        (pair_key-ne-pair_index_key id address h))

  pub load_pair-save_ne :
      (id j : Text) (p : Pair) (s : st.State)
      → id ≢ j
      → load_pair st id (save st (pair_key j) p s).1 ≡ load_pair st id s
  unfolding load_pair
  load_pair-save_ne id j p s h =
      load_of_get st (pair_key id) _ s
        (get-save_ne st (pair_key j) (pair_key id) p s (λ e. h (pair_key-injective id j e)))

  module _ (p : Pair) (s : st.State) where
    abbrev recorded : st.State
    recorded = (save st (pair_key p.id) p s).1

    abbrev listed_once : st.State
    listed_once = (add_to_index st (pair_index_key p.initiator) p.id recorded).1

    -- The three writes went well.
    store_pair_steps :
        (store_pair st p s).0 ≡ ok tt
        → ((save st (pair_key p.id) p s).0 ≡ ok tt)
          × ((add_to_index st (pair_index_key p.initiator) p.id recorded).0 ≡ ok tt)
          × ((add_to_index st (pair_index_key p.partner) p.id listed_once).0 ≡ ok tt)
          × ((store_pair st p s).1
              ≡ (add_to_index st (pair_index_key p.partner) p.id listed_once).1)
    unfolding store_pair
    store_pair_steps h = ground arith

    pub load_pair-store_pair :
        lacks b'/' p.id ≡ true
        → (store_pair st p s).0 ≡ ok tt
        → load_pair st p.id (store_pair st p s).1 ≡ ok (some p)
    unfolding load_pair
    load_pair-store_pair h k =
        let (saved, first, second, end) = store_pair_steps k in
        rw end (
          load_pair-add_to_index p.id p.partner p.id listed_once h
          ∙ load_pair-add_to_index p.id p.initiator p.id recorded h
          ∙ load-save_self st (pair_key p.id) p s saved)

    -- Both members find the pair in their index.
    pub store_pair-IsListed :
        (store_pair st p s).0 ≡ ok tt
        → IsListed st (pair_index_key p.initiator) p.id (store_pair st p s).1
          × IsListed st (pair_index_key p.partner) p.id (store_pair st p s).1
    store_pair-IsListed k =
        let (saved, first, second, end) = store_pair_steps k in
        rw end (
          IsListed-kept st (pair_index_key p.initiator) p.id (pair_index_key p.partner) p.id
              listed_once second
              (IsListed-add_to_index st (pair_index_key p.initiator) p.id recorded first),
          IsListed-add_to_index st (pair_index_key p.partner) p.id listed_once second,
        )

    -- The records of other pairs stay, also where a write fails.
    pub load_pair-store_pair_ne :
        (id : Text)
        → lacks b'/' id ≡ true
        → id ≢ p.id
        → load_pair st id (store_pair st p s).1 ≡ load_pair st id s
    unfolding store_pair
    load_pair-store_pair_ne id clean other = ground (
      arith,
      load_pair-save_ne id p.id p s other,
      load_pair-add_to_index id p.initiator p.id recorded clean,
      load_pair-add_to_index id p.partner p.id listed_once clean,
    )
