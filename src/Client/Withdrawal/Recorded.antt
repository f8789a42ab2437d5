-- ===== src/Client/Withdrawal/Recorded.antt =====
-- A swap whose co-sign was recorded, for as long as the history holds the event.
use signature_escrow.Common.{
  ℕ, zero, suc, ◌+◌, ◌≤◌, ◌<◌, ◌≡◌, refl, inl, inr, Bool-cases, true, false, none, some, List, [],
  ◌∷◌, arith, length, ltb, ap,
}
use signature_escrow.Text.{Text, bytes, is_empty, ◌==◌, ==_refl}
use signature_escrow.Act.{Result, ok, err}
use signature_escrow.Storage.{Error, Storage, Codec, save, load-save_self}
use signature_escrow.Client.Cosign.{
  CosignEvent, take, bounded, dated, cosign_history_key, load_cosign_history, save_history,
  record_cosign,
}
use signature_escrow.Client.Cosign.Bounds.{load-save_history}
use signature_escrow.Client.Withdrawal.{
  AcceptWithdrawalTxRequest, Busy, mark, outcome_of, signs, already_signed, State, enter, admit,
  finish,
}
use signature_escrow.Client.Withdrawal.Once.{HasFields, status_of, Event, begins, ends, handle, run}

take-take : {A : Type 0} (n m : ℕ) (es : List A) → n ≤ m → take n (take m es) ≡ take n es
unfolding take
take-take zero m es h = refl
take-take (suc n) zero es h = absurd (omega (arith, h))
take-take (suc n) (suc m) [] h = refl
take-take (suc n) (suc m) (e ∷ es) h = ap (λ r. e ∷ r) (take-take n m es (omega (arith, h)))

take-bounded : (n : ℕ) (es : List CosignEvent) → n ≤ 200 → take n (bounded es) ≡ take n es
take-bounded n es h = elim (Bool-cases (ltb 200 (length es))) [
  | inl long ↦ rw long (take-take n 200 es h)
  | inr short ↦ rw short refl
]

-- The swap was co-signed by one of the newest `n` events.
abbrev pub SignedWithin : ℕ → Text → List CosignEvent → Type 0
SignedWithin n id es = already_signed id (take n es) ≡ true

signed_suc :
    (n : ℕ) (id : Text) (es : List CosignEvent) → SignedWithin n id es → SignedWithin (suc n) id es
unfolding take already_signed
signed_suc zero id es h = cc
signed_suc (suc n) id [] h = cc
signed_suc (suc n) id (e ∷ es) h = ground (arith, signed_suc n id es)

signed_all :
    (n : ℕ) (id : Text) (es : List CosignEvent) → SignedWithin n id es → already_signed id es ≡ true
unfolding take already_signed
signed_all zero id es h = cc
signed_all (suc n) id [] h = cc
signed_all (suc n) id (e ∷ es) h = ground (arith, signed_all n id es)

signed_after :
    (n : ℕ) (id : Text) (e : CosignEvent) (es : List CosignEvent)
    → SignedWithin n id es
    → SignedWithin (suc n) id (e ∷ es)
unfolding take already_signed
signed_after n id e es h = ground (arith, h)

signed_now :
    (id : Text) (e : CosignEvent) (es : List CosignEvent)
    → signs id e ≡ true
    → SignedWithin 1 id (e ∷ es)
unfolding take already_signed
signed_now id e es h = ground (arith, h)

outcome_signs :
    (req : AcceptWithdrawalTxRequest) (account : Text × ℕ) (hash signature : Text) (now : ℕ)
    (drawn : List ℕ) (ev : CosignEvent)
    → outcome_of req account hash signature now drawn ≡ some (ev, now, drawn)
    → signs req.escrow_id (dated ev now drawn) ≡ true
unfolding outcome_of
outcome_signs req account hash signature now drawn ev made =
    ground (arith, ==_refl (bytes "acceptor"), ==_refl req.escrow_id, ==_refl (bytes "completed"))

frost_ecdsa : (bytes "frost" == bytes "ecdsa") ≡ false
unfolding bytes ◌==◌
frost_ecdsa = refl

-- How many of the events record something.
abbrev pub recorded_in : List Event → ℕ
recorded_in [] = 0
recorded_in (begins body ∷ es) = recorded_in es
recorded_in (ends id none ∷ es) = recorded_in es
recorded_in (ends id (some ev) ∷ es) = suc (recorded_in es)

module _ {Blob : Type 0} (st : Storage Blob) ⦃codec : Codec Blob (List CosignEvent)⦄ where
  signed_record :
      (n : ℕ) (id : Text) (ev : CosignEvent) (now : ℕ) (drawn : List ℕ) (s : st.State)
      → n < 200
      → SignedWithin n id (load_cosign_history st s)
      → SignedWithin (suc n) id (load_cosign_history st (record_cosign st ev now drawn s))
  unfolding record_cosign
  signed_record n id ev now drawn s small h =
      let old = load_cosign_history st s in
      let new = dated ev now drawn ∷ old in
      elim (load-save_history st (bounded new) s) [
        | inl stored ↦
            rw (stored, take-bounded (suc n) new (omega (arith, small)))
              (signed_after n id (dated ev now drawn) old h)
        | inr kept ↦ rw kept (signed_suc n id old h)
      ]

  admit_keeps :
      (body : Result Error AcceptWithdrawalTxRequest) (w : State st) → (admit st body w).1.1 ≡ w.1
  unfolding admit enter
  admit_keeps (err e) (busy, s) = refl
  admit_keeps (ok req) (busy, s) = ground arith

  signed-run :
      (n : ℕ) (id : Text) (es : List Event) (w : State st)
      → n + recorded_in es ≤ 200
      → SignedWithin n id (load_cosign_history st w.1)
      → already_signed id (load_cosign_history st (run st es w).1) ≡ true
  unfolding run handle finish
  signed-run n id [] w small h = signed_all n id (load_cosign_history st w.1) h
  signed-run n id (begins body ∷ es) w small h =
      signed-run n id es (handle st (begins body) w) small (rw (admit_keeps body w) h)
  signed-run n id (ends j none ∷ es) (busy, s) small h = signed-run n id es _ small h
  signed-run n id (ends j (some (ev, now, drawn)) ∷ es) (busy, s) small h =
      signed-run (suc n) id es _ (omega (arith, small))
        (signed_record n id ev now drawn s (omega (arith, small)) h)

  admit_signed :
      (req : AcceptWithdrawalTxRequest) (w : State st)
      → HasFields req
      → is_empty req.escrow_id ≡ false
      → already_signed req.escrow_id (load_cosign_history st w.1) ≡ true
      → status_of (admit st (ok req) w).0 ≡ 409
  unfolding admit enter
  admit_signed req (busy, s) (a, b, c) named h = ground arith

  signed_finish :
      (id : Text) (ev : CosignEvent) (now : ℕ) (drawn : List ℕ) (busy : Busy) (s : st.State)
      → signs id (dated ev now drawn) ≡ true
      → (save st cosign_history_key (bounded (dated ev now drawn ∷ load_cosign_history st s)) s).0
        ≡ ok tt
      → SignedWithin 1 id
          (load_cosign_history st (finish st id (some (ev, now, drawn)) (busy, s)).1)
  unfolding finish record_cosign save_history load_cosign_history
  signed_finish id ev now drawn busy s good stored =
      let new = dated ev now drawn ∷ load_cosign_history st s in
      let taken : load_cosign_history st (record_cosign st ev now drawn s) ≡ bounded new =
        ground (arith, load-save_self st cosign_history_key (bounded new) s stored) in
      rw (taken, take-bounded 1 new (omega arith))
        (signed_now id (dated ev now drawn) (load_cosign_history st s) good)

  -- After an ECDSA co-sign of a named swap whose event the storage took, each further request for
  -- the swap with all its fields is refused with 409, whatever requests begin and end meanwhile, as
  -- long as they record at most 199 events.
  pub recorded_excludes :
      (req again : AcceptWithdrawalTxRequest) (account : Text × ℕ) (hash signature : Text) (now : ℕ)
      (drawn : List ℕ) (ev : CosignEvent) (w : State st) (es : List Event)
      → outcome_of req account hash signature now drawn ≡ some (ev, now, drawn)
      → (save st cosign_history_key
          (bounded (dated ev now drawn ∷ load_cosign_history st w.1))
          w.1).0
        ≡ ok tt
      → recorded_in es ≤ 199
      → HasFields again
      → is_empty req.escrow_id ≡ false
      → again.escrow_id ≡ req.escrow_id
      → status_of
          (admit st (ok again) (
            run st es
              (finish st req.escrow_id (outcome_of req account hash signature now drawn) w))).0
        ≡ 409
  recorded_excludes req again account hash signature now drawn ev (busy, s) es made stored few
        fields named same =
      let within =
        signed_finish req.escrow_id ev now drawn busy s
          (outcome_signs req account hash signature now drawn ev made) stored in
      rw made (
        admit_signed again _ fields (rw same named) (
          rw same (
            signed-run 1 req.escrow_id es
              (finish st req.escrow_id (some (ev, now, drawn)) (busy, s)) (omega (arith, few))
              within)))

  -- After a FROST co-sign of a named swap has ended, the next request for the swap with all its
  -- fields is admitted, if the history shows no completed co-sign of the swap: a FROST co-sign
  -- records nothing.
  pub frost_readmits :
      (req again : AcceptWithdrawalTxRequest) (account : Text × ℕ) (hash signature : Text) (now : ℕ)
      (drawn : List ℕ) (w : State st)
      → req.algorithm ≡ bytes "frost"
      → already_signed req.escrow_id (load_cosign_history st w.1) ≡ false
      → HasFields again
      → is_empty req.escrow_id ≡ false
      → again.escrow_id ≡ req.escrow_id
      → (admit st
          (ok again)
          (finish st req.escrow_id (outcome_of req account hash signature now drawn) w)).0
        ≡ ok again
  unfolding admit enter finish mark outcome_of
  frost_readmits req again account hash signature now drawn (busy, s) frost fresh (a, b, c) named
        same =
      ground (arith, frost_ecdsa, ==_refl req.escrow_id)
