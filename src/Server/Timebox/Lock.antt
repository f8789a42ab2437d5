-- ===== src/Server/Timebox/Lock.antt =====
-- timeboxGet: when a signature is handed out, and to whom.
use signature_escrow.Common.{◌≡◌, inl, inr, true, none, some, List, arith}
use signature_escrow.Text.{Text}
use signature_escrow.Act.{ok, Result-cases}
use signature_escrow.Storage.{Storage, Codec}
use signature_escrow.Server.Pairing.{Pair, load_pair}
use signature_escrow.Server.Timebox.{pair_contains, authorize_timebox_access}

module _ {Blob : Type 0} (st : Storage Blob) ⦃pair_codec : Codec Blob Pair⦄
    ⦃ids_codec : Codec Blob (List Text)⦄ where
  -- Who passes authorizeTimeboxAccess is one of the two addresses of the stored pair.
  pub authorized_member :
      (caller id : Text) (p : Pair) (s : st.State)
      → authorize_timebox_access st caller id s ≡ ok p
      → (load_pair st id s ≡ ok (some p)) × (pair_contains p caller ≡ true)
  unfolding authorize_timebox_access
  authorized_member caller id p s h = elim (Result-cases (load_pair st id s)) [
    | inr (x, e) ↦ absurd (ground (arith, e))
    | inl (none, e) ↦ absurd (ground (arith, e))
    | inl (some q, e) ↦ (ground (arith, e), ground (arith, e))
  ]
