-- ===== src/Server/Escrow/Exchange.antt =====
-- The whole exchange of two parties: two deposits and a poll.
mod Tests
use signature_escrow.Common.{
  ◌≡◌, ◌≢◌, refl, sym, inl, inr, true, false, Option, none, some, List, [], arith,
}
use signature_escrow.Text.{Text, ◌==◌, ==_iff, ==_refl, is_empty}
use signature_escrow.Text.Hex.{hex_decode}
use signature_escrow.Act.{ok}
use signature_escrow.Storage.{Storage, Codec, load-save_self}
use signature_escrow.Http.{content}
use signature_escrow.Validation.{Signatures, validate}
use signature_escrow.Server.Escrow.{
  Flower, Pollination, new_pollination, add_flower, pollinate, their_sig, pending, complete,
  get_pollination, put_pollination, escrow, escrow_check,
}
use signature_escrow.Server.Escrow.Release.{Holds, Serves, pollinate_of_Serves}
use signature_escrow.Server.Escrow.Fairness.{check_complete}

module _ {Blob : Type 0} (st : Storage Blob) ⦃c : Codec Blob Pollination⦄ (sigs : Signatures)
    (f g : Flower) (a b : Text) (s : st.State) where
  abbrev pub flower_a : Flower
  flower_a = record f { depositor = a }

  abbrev pub flower_b : Flower
  flower_b = record g { depositor = b }

  abbrev pub half : Pollination
  half = record { flower1 = some flower_a; flower2 = none }

  abbrev pub full : Pollination
  full = record { flower1 = some flower_a; flower2 = some flower_b }

  abbrev pub after_first : st.State
  after_first = (put_pollination st f.id half s).1

  abbrev pub after_second : st.State
  after_second = (put_pollination st f.id full after_first).1

  first_deposit :
      get_pollination st f.id s ≡ ok none
      → (put_pollination st f.id half s).0 ≡ ok tt
      → escrow st sigs (ok f) a s ≡ (ok (content pending), after_first)
  unfolding escrow add_flower
  first_deposit fresh stored = ground arith

  stored_half :
      (put_pollination st f.id half s).0 ≡ ok tt
      → get_pollination st f.id after_first ≡ ok (some half)
  unfolding get_pollination put_pollination
  stored_half h = load-save_self st f.id half s h

  stored_full :
      (put_pollination st f.id full after_first).0 ≡ ok tt
      → get_pollination st f.id after_second ≡ ok (some full)
  unfolding get_pollination put_pollination
  stored_full h = load-save_self st f.id full after_first h

  added : f.pub_key ≢ g.pub_key → a ≢ b → add_flower half flower_b ≡ ok full
  unfolding add_flower
  added k d = ground (arith, ==_iff f.pub_key g.pub_key, ==_iff a b)

  second_deposit :
      g.id ≡ f.id
      → f.pub_key ≢ g.pub_key
      → a ≢ b
      → Serves sigs flower_a flower_b
      → Serves sigs flower_b flower_a
      → (put_pollination st f.id half s).0 ≡ ok tt
      → (put_pollination st f.id full after_first).0 ≡ ok tt
      → escrow st sigs (ok g) b after_first ≡ (ok (content (complete f.sig)), after_second)
  unfolding escrow
  second_deposit same k d x y one two =
      let there = stored_half one in
      let into = added k d in
      let valid = pollinate_of_Serves sigs full flower_a flower_b (inl refl) x y in
      ground (arith, ==_iff f.pub_key g.pub_key, ==_refl g.pub_key)

  -- Two parties with two keys, each of which brings a signature that verifies under the other's key
  -- and hash, deposit under an id that nothing is stored under, and the storage takes both writes:
  -- then the first is answered pending, the second is answered complete with the first one's
  -- signature, and the first one's poll is then answered complete with the second one's signature.
  -- Conditions: the two callers differ, and the id and the key's text are not empty.
  pub escrow_completes :
      (key_hex : Text)
      → is_empty f.id ≡ false
      → g.id ≡ f.id
      → f.pub_key ≢ g.pub_key
      → a ≢ b
      → Serves sigs flower_a flower_b
      → Serves sigs flower_b flower_a
      → get_pollination st f.id s ≡ ok none
      → (put_pollination st f.id half s).0 ≡ ok tt
      → (put_pollination st f.id full after_first).0 ≡ ok tt
      → is_empty key_hex ≡ false
      → hex_decode key_hex ≡ ok f.pub_key
      → (escrow st sigs (ok f) a s ≡ (ok (content pending), after_first))
        × (escrow st sigs (ok g) b after_first ≡ (ok (content (complete f.sig)), after_second))
        × (escrow_check st sigs (ok (f.id, key_hex)) a after_second
            ≡ (ok (content (complete g.sig)), after_second))
  escrow_completes key_hex named same k d x y fresh one two asked decoded =
      let valid = pollinate_of_Serves sigs full flower_a flower_b (inl refl) x y in
      (
        first_deposit fresh one,
        second_deposit same k d x y one two,
        check_complete st sigs f.id key_hex f.pub_key a after_second full flower_b flower_a named
            asked decoded (stored_full two) (inr (refl, k)) (λ e. k (sym e)) valid refl refl,
      )
