-- ===== src/Server/Index/Race.antt =====
-- Two requests that add an id to one index at the same time: nothing makes the reading and the
-- writing of addToIndex one step.
use signature_escrow.Common.{◌≡◌, ◌≢◌, refl, false, List, [], ◌∷◌, ◌++◌, arith, if◌then◌else◌}
use signature_escrow.Text.{Text, ==_iff}
use signature_escrow.Act.{ok, Act, pure, reads, ◌>>=◌, ◌>>◌}
use signature_escrow.Storage.{Error, Storage, Codec, save, load-save_self}
use signature_escrow.Server.Index.{contains, contains-append, load_ids, add_to_index}
use signature_escrow.Server.Index.Listed.{IsListed, IsListed-add_to_index, IsListed-kept}

module _ {Blob : Type 0} (st : Storage Blob) ⦃ids_codec : Codec Blob (List Text)⦄ where
  -- addToIndex after it has read the ids.
  unfoldable pub write_id : Text → Text → List Text → Act Error st.State (Unit {0})
  write_id key id ids = if contains ids id then pure tt else save st key (ids ++ id ∷ [])

  -- One request after the other.
  unfoldable pub in_turn : Text → Text → Text → Act Error st.State (Unit {0})
  in_turn key a b = do add_to_index st key a; add_to_index st key b

  -- Both requests read before either writes.
  unfoldable pub interleaved : Text → Text → Text → Act Error st.State (Unit {0})
  interleaved key a b = do
    ids_a ← reads (load_ids st key)
    ids_b ← reads (load_ids st key)
    write_id key a ids_a
    write_id key b ids_b

  -- addToIndex is a reading, and then a writing.
  pub add_to_index-write_id :
      (key id : Text) (s : st.State)
      → add_to_index st key id s ≡ (reads (load_ids st key) >>= write_id key id) s
  unfolding add_to_index write_id
  add_to_index-write_id key id s = refl

  load_ids-save :
      (key : Text) (ids : List Text) (s : st.State)
      → (save st key ids s).0 ≡ ok tt
      → load_ids st key (save st key ids s).1 ≡ ok ids
  unfolding load_ids
  load_ids-save key ids s h = ground (arith, load-save_self st key ids s h)

  module _ (key a b : Text) (ids : List Text) (s : st.State) where
    abbrev first_written : st.State
    first_written = (save st key (ids ++ a ∷ []) s).1

    interleaved_steps :
        load_ids st key s ≡ ok ids
        → contains ids a ≡ false
        → contains ids b ≡ false
        → (interleaved key a b s).0 ≡ ok tt
        → ((save st key (ids ++ b ∷ []) first_written).0 ≡ ok tt)
          × ((interleaved key a b s).1 ≡ (save st key (ids ++ b ∷ []) first_written).1)
    unfolding interleaved write_id
    interleaved_steps e ha hb h = ground arith

    -- If two requests that add two ids to one index both read it before either writes it, and both
    -- writes succeed, then the index holds the second id and not the first. Conditions: the index
    -- was readable, held neither id, and the ids differ.
    pub interleaved_loses :
        load_ids st key s ≡ ok ids
        → contains ids a ≡ false
        → contains ids b ≡ false
        → a ≢ b
        → (interleaved key a b s).0 ≡ ok tt
        → (load_ids st key (interleaved key a b s).1 ≡ ok (ids ++ b ∷ []))
          × (contains (ids ++ b ∷ []) a ≡ false)
    unfolding contains
    interleaved_loses e ha hb apart h =
        let (stored, end) = interleaved_steps e ha hb h in
        (
          rw end (load_ids-save key (ids ++ b ∷ []) first_written stored),
          ground (arith, contains-append ids (b ∷ []) a, ==_iff b a),
        )

    in_turn_steps :
        (in_turn key a b s).0 ≡ ok tt
        → ((add_to_index st key a s).0 ≡ ok tt)
          × ((add_to_index st key b (add_to_index st key a s).1).0 ≡ ok tt)
          × ((in_turn key a b s).1 ≡ (add_to_index st key b (add_to_index st key a s).1).1)
    unfolding in_turn
    in_turn_steps h = ground arith

    -- One after the other, both are listed.
    pub in_turn-IsListed :
        (in_turn key a b s).0 ≡ ok tt
        → IsListed st key a (in_turn key a b s).1 × IsListed st key b (in_turn key a b s).1
    in_turn-IsListed h =
        let (one, two, end) = in_turn_steps h in
        rw end (
          IsListed-kept st key a key b (add_to_index st key a s).1 two
              (IsListed-add_to_index st key a s one),
          IsListed-add_to_index st key b (add_to_index st key a s).1 two,
        )
