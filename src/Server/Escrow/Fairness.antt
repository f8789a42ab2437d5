-- ===== src/Server/Escrow/Fairness.antt =====
-- escrowCheck: what a poll is answered, and to whom, also after the other party was answered.
use signature_escrow.Common.{
  ◌≡◌, ◌≢◌, ◌⊎◌, inl, inr, refl, sym, subst, true, false, none, some, [], arith,
}
use signature_escrow.Text.{Text, ==_iff, is_empty}
use signature_escrow.Text.Hex.{hex_decode}
use signature_escrow.Act.{ok, Result-cases}
use signature_escrow.Storage.{Storage, Codec}
use signature_escrow.Http.{content}
use signature_escrow.Validation.{Bytes, Signatures}
use signature_escrow.Server.Escrow.{
  Flower, Pollination, pollinate, complete, get_pollination, escrow, escrow_check,
}
use signature_escrow.Server.Escrow.Slots.{IsSound, add_flower-IsSound, is_empty_iff}
use signature_escrow.Server.Escrow.Release.{
  Holds, Serves, pollinated_full, deposited, after_deposit, escrow_stored,
}

module _ {Blob : Type 0} (st : Storage Blob) ⦃c : Codec Blob Pollination⦄ (sigs : Signatures)
    (id key_hex : Text) (key : Bytes) (caller : Text) (s : st.State) where
  -- The depositor of a flower is answered with the signature that the other flower brought.
  pub check_complete :
      (q : Pollination) (f g : Flower)
      → is_empty id ≡ false
      → is_empty key_hex ≡ false
      → hex_decode key_hex ≡ ok key
      → get_pollination st id s ≡ ok (some q)
      → Holds q f g
      → f.pub_key ≢ g.pub_key
      → pollinate sigs q ≡ ok true
      → key ≡ g.pub_key
      → caller ≡ g.depositor
      → escrow_check st sigs (ok (id, key_hex)) caller s ≡ (ok (content (complete f.sig)), s)
  unfolding escrow_check
  check_complete q f g a b d there (inl e) apart valid k own =
      ground (arith, ==_iff f.pub_key key, ==_iff g.pub_key key, ==_iff g.depositor caller)
  check_complete q f g a b d there (inr (e, _)) apart valid k own =
      ground (arith, ==_iff f.pub_key key, ==_iff g.pub_key key, ==_iff g.depositor caller)

  -- A poll that is answered complete found an escrow of two flowers whose signatures verify for
  -- each other, and either the caller asked for a flower that it deposited, or that names no
  -- depositor, and got the signature of the other flower, or the key is of neither flower and the
  -- answer is the empty signature.
  pub escrow_check_sound :
      (sig : Bytes)
      → hex_decode key_hex ≡ ok key
      → (escrow_check st sigs (ok (id, key_hex)) caller s).0 ≡ ok (content (complete sig))
      → (f : Flower) × (g : Flower) × (get_pollination st id s
          ≡ ok (some (record { flower1 = some f; flower2 = some g })))
        × Serves sigs f g
        × Serves sigs g f
        × (((f.pub_key ≡ key) × ((f.depositor ≡ []) ⊎ (f.depositor ≡ caller)) × (sig ≡ g.sig))
            ⊎ ((g.pub_key ≡ key) × ((g.depositor ≡ []) ⊎ (g.depositor ≡ caller)) × (sig ≡ f.sig))
            ⊎ ((f.pub_key ≢ key) × (g.pub_key ≢ key) × (sig ≡ [])))
  unfolding escrow_check
  escrow_check_sound sig d h = elim (Result-cases (get_pollination st id s)) [
    | inr (x, e) ↦ absurd (ground (arith, e))
    | inl (none, e) ↦ absurd (ground (arith, e))
    | inl (some q, e) ↦ elim (Result-cases (pollinate sigs q)) [
      | inr (x, v) ↦ absurd (ground (arith, e, v))
      | inl (false, v) ↦ absurd (ground (arith, e, v))
      | inl (true, v) ↦
          let (f, g, full1, full2, x, y) = pollinated_full sigs q v in
          (
            f,
            g,
            ground (arith, e),
            x,
            y,
            ground (
              arith,
              e,
              v,
              ==_iff f.pub_key key,
              ==_iff g.pub_key key,
              ==_iff f.depositor caller,
              ==_iff g.depositor caller,
              is_empty_iff f.depositor,
              is_empty_iff g.depositor,
            ),
          )
    ]
  ]

keys_apart :
    (q : Pollination) (f g : Flower)
    → Holds q f g
    → IsSound q.flower1 q.flower2
    → f.pub_key ≢ g.pub_key
keys_apart q f g (inl e) h = (subst (λ r. IsSound r.flower1 r.flower2) e h).2
keys_apart q f g (inr (e, k)) h = λ x. k (sym x)

module _ {Blob : Type 0} (st : Storage Blob) ⦃c : Codec Blob Pollination⦄ (sigs : Signatures)
    (parsed : Flower) (caller : Text) (s : st.State) where
  -- If a deposit is answered complete, the counterparty that then polls escrowCheck for its own key
  -- is answered complete with the signature that was deposited, and the storage stays as it is.
  -- Conditions: the caller is authenticated, the stored escrow was sound (two keys of two named
  -- depositors), both flowers are in the stored escrow, and the id and the key's hexadecimal text
  -- are not empty.
  pub escrow_fair :
      (sig : Bytes) (old q : Pollination) (g : Flower) (key_hex : Text)
      → (escrow st sigs (ok parsed) caller s).0 ≡ ok (content (complete sig))
      → caller ≢ []
      → get_pollination st parsed.id s ≡ ok (some old)
      → IsSound old.flower1 old.flower2
      → get_pollination st parsed.id (after_deposit st sigs parsed caller s) ≡ ok (some q)
      → Holds q (deposited st sigs parsed caller s) g
      → is_empty parsed.id ≡ false
      → is_empty key_hex ≡ false
      → hex_decode key_hex ≡ ok g.pub_key
      → escrow_check st sigs
          (ok (parsed.id, key_hex))
          g.depositor
          (after_deposit st sigs parsed caller s)
        ≡ (ok (content (complete parsed.sig)), after_deposit st sigs parsed caller s)
  escrow_fair sig old q g key_hex h named there sound after held a b d =
      let (placed, valid) = escrow_stored st sigs parsed caller s sig old q h there after in
      let apart =
        keys_apart q (deposited st sigs parsed caller s) g held
          (add_flower-IsSound old q (deposited st sigs parsed caller s) named sound placed) in
      check_complete st sigs parsed.id key_hex g.pub_key g.depositor
        (after_deposit st sigs parsed caller s) q (deposited st sigs parsed caller s) g a b d after
        held apart valid refl refl
