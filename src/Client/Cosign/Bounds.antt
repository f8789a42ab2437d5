-- ===== src/Client/Cosign/Bounds.antt =====
-- How long the history gets, and how long an event stays in it.
use signature_escrow.Common.{ℕ, zero, suc, ◌≤◌, ◌≡◌, ◌⊎◌, refl, List, [], ◌∷◌, arith, length}
use signature_escrow.Text.{Text}
use signature_escrow.Act.{Result, ok, err}
use signature_escrow.Storage.{Error, Storage, Codec, load-save_cases, load-delete_cases}
use signature_escrow.Client.Cosign.{
  CosignEvent, take, bounded, dated, cosign_history_key, cosign_history_max, complete_events,
  complete_found, load_cosign_history, save_history, record_cosign, complete_cosign,
  clear_cosign_history,
}

length-take : {A : Type 0} (n : ℕ) (es : List A) → length (take n es) ≤ n
unfolding take
length-take zero es = omega arith
length-take (suc n) [] = omega arith
length-take (suc n) (e ∷ es) = omega (arith, length-take n es)

length-bounded : (es : List CosignEvent) → length (bounded es) ≤ cosign_history_max
length-bounded es = ground (arith, length-take 200 es)

length-complete_events :
    (hash signature : Text) (es : List CosignEvent)
    → length (complete_events hash signature es) ≡ length es
unfolding complete_events
length-complete_events hash signature [] = refl
length-complete_events hash signature (e ∷ es) =
    ground (arith, length-complete_events hash signature es)

-- What changes the history, with what the requests' bodies decode to.
pub data Event : Type 0 where
  records : CosignEvent → ℕ → List ℕ → Event
  completed : Result Error (Text × Text) → Event
  cleared : Event

module _ {Blob : Type 0} (st : Storage Blob) ⦃codec : Codec Blob (List CosignEvent)⦄ where
  unfoldable pub handle : Event → st.State → st.State
  handle (records ev now drawn) s = record_cosign st ev now drawn s
  handle (completed body) s = (complete_cosign st body s).1
  handle cleared s = (clear_cosign_history st s).1

  unfoldable pub run : List Event → st.State → st.State
  run [] s = s
  run (e ∷ es) s = run es (handle e s)

  pub load-save_history :
      (list : List CosignEvent) (s : st.State)
      → (load_cosign_history st (save_history st list s) ≡ list)
        ⊎ (load_cosign_history st (save_history st list s) ≡ load_cosign_history st s)
  unfolding load_cosign_history save_history
  load-save_history list s = ground (arith, load-save_cases st cosign_history_key list s)

  bounded-cleared :
      (s : st.State)
      → length (load_cosign_history st s) ≤ cosign_history_max
      → length (load_cosign_history st (st.delete cosign_history_key s).1) ≤ cosign_history_max
  unfolding load_cosign_history
  bounded-cleared s h =
      ground (arith, load-delete_cases {A = List CosignEvent} st cosign_history_key s)

  bounded-handle :
      (e : Event) (s : st.State)
      → length (load_cosign_history st s) ≤ cosign_history_max
      → length (load_cosign_history st (handle e s)) ≤ cosign_history_max
  unfolding handle record_cosign complete_cosign complete_found clear_cosign_history
  bounded-handle (records ev now drawn) s h = ground (
    arith,
    load-save_history (bounded (dated ev now drawn ∷ load_cosign_history st s)) s,
    length-bounded (dated ev now drawn ∷ load_cosign_history st s),
  )
  bounded-handle (completed (err x)) s h = h
  bounded-handle (completed (ok (hash, signature))) s h = ground (
    arith,
    load-save_history (complete_events hash signature (load_cosign_history st s)) s,
    length-complete_events hash signature (load_cosign_history st s),
  )
  bounded-handle cleared s h = bounded-cleared s h

  -- If the history has at most 200 events, then it has at most 200 after any sequence of
  -- recordings, completions and clearings, also where the storage fails.
  pub run_bounded :
      (es : List Event) (s : st.State)
      → length (load_cosign_history st s) ≤ cosign_history_max
      → length (load_cosign_history st (run es s)) ≤ cosign_history_max
  unfolding run
  run_bounded [] s h = h
  run_bounded (e ∷ es) s h = run_bounded es (handle e s) (bounded-handle e s h)
