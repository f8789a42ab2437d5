-- ===== src/Client/Withdrawal/Verified.antt =====
-- client/withdrawal.go, `acceptWithdrawalTx`: what the co-signer signs.
use signature_escrow.Common.{
  ℕ, ◌≡◌, sym, ap, ◌∙◌, subst, inl, inr, true, false, not, Option, List, arith, if◌then◌else◌,
}
use signature_escrow.Text.{Text, bytes, ◌==◌, is_empty, trim_prefix, equal_fold}
use signature_escrow.Text.Hex.{hex_encode, hex_decode, hex_decode_of_equal_fold}
use signature_escrow.Validation.{Bytes}
use signature_escrow.Act.{Result, ok, err, Act, pure, bind-ok, pure-ok, Result-cases}
use signature_escrow.Storage.{Error, Storage, Codec}
use signature_escrow.Http.{HttpError}
use signature_escrow.Client.Int64.{pos}
use signature_escrow.Client.Node.{Node, Transaction}
use signature_escrow.Client.Cosign.{CosignEvent}
use signature_escrow.Client.Withdrawal.{AcceptWithdrawalTxRequest, State, Busy, admit, enter}
use signature_escrow.Client.Withdrawal.Sign.{
  Mpc, Incomplete, Signed, server_error, bad_request, fetched, account_key, cosign, cosign_ecdsa,
  verify_tx_data, awaited, answered-ok,
}
use signature_escrow.Client.Withdrawal.Handlers.{ended, signs, accept_withdrawal_tx}

ok-injective : {A : Type 0} {a b : A} → ◌≡◌ {A = Result Error A} (ok a) (ok b) → a ≡ b
ok-injective h = cc

module _ {Blob : Type 0} (st : Storage Blob) (mpc : Mpc Blob) (node : Node) where
  -- What a verified transaction text says of the hash.
  verify_tx_data-ok :
      {S : Type 0} (tx_data hash_tx : Text) (s : S) (u : Unit {0})
      → (verify_tx_data st mpc node tx_data hash_tx s).0 ≡ ok u
      → (raw : Bytes) × (tx : Transaction) × (hex_decode (trim_prefix tx_data (bytes "0x"))
          ≡ ok raw)
        × (node.unmarshal_binary raw ≡ ok tx)
        × (hex_decode hash_tx ≡ ok (node.signing_hash (pos 1) tx))
  unfolding verify_tx_data
  verify_tx_data-ok tx_data hash_tx s u h =
      elim (Result-cases (hex_decode (trim_prefix tx_data (bytes "0x")))) [
        | inr (x, e) ↦ ground (arith, h, e)
        | inl (raw, e) ↦ elim (Result-cases (node.unmarshal_binary raw)) [
          | inr (x, f) ↦ ground (arith, h, e, f)
          | inl (tx, f) ↦
              let same : equal_fold (hex_encode (node.signing_hash (pos 1) tx)) hash_tx ≡ true =
                ground (arith, h, e, f) in
              (
                raw,
                tx,
                e,
                f,
                hex_decode_of_equal_fold _ hash_tx (node.signing_hash-IsBytes (pos 1) tx) same,
              )
        ]
      ]

  pub cosign_ecdsa_verified :
      (req : AcceptWithdrawalTxRequest) (received : Option (Result Error Incomplete)) (s : st.State)
      (r : Signed)
      → is_empty req.tx_data ≡ false
      → (cosign_ecdsa st mpc node req received s).0 ≡ ok r
      → (raw : Bytes) × (tx : Transaction) × (config : mpc.Config) × (presign : mpc.PreSign)
        × (inc : mpc.Message) × (sig : mpc.Signature) × (hex_decode
              (trim_prefix req.tx_data (bytes "0x"))
            ≡ ok raw)
        × (node.unmarshal_binary raw ≡ ok tx)
        × (mpc.online_cosign config presign (node.signing_hash (pos 1) tx) inc ≡ ok sig)
        × (complete : Bytes) × (mpc.sig_ethereum sig ≡ ok complete)
        × (r.complete ≡ hex_encode complete)
  unfolding cosign_ecdsa
  cosign_ecdsa_verified req received s r given h =
      let (msg, _, h) = bind-ok (awaited st mpc node received) _ s r h in
      let s1 : st.State = (awaited st mpc node received s).1 in
      let check : Act HttpError st.State (Unit {0}) =
        if not (is_empty req.tx_data)
        then verify_tx_data st mpc node req.tx_data msg.hash_tx
        else pure tt in
      let (u, checked, h) = bind-ok check _ s1 r h in
      let s2 : st.State = (check s1).1 in
      let (raw, tx, e, f, hashed) =
        verify_tx_data-ok req.tx_data msg.hash_tx s1 u (ground (arith, given, checked)) in
      let (conf, _, h) =
        bind-ok
          (fetched st mpc node (account_key st mpc node req.name (bytes "/conf-ecdsa"))
            (bytes "config"))
          _ s2 r h in
      let (config, _, h) =
        bind-ok (server_error (mpc.config_unmarshal conf) (bytes "failed to unmarshal config: ")) _
          s2 r h in
      let (pre, _, h) =
        bind-ok
          (fetched st mpc node (account_key st mpc node req.name (bytes "/presig-ecdsa"))
            (bytes "presign"))
          _ s2 r h in
      let (presign, _, h) =
        bind-ok (server_error (mpc.presign_unmarshal pre) (bytes "failed to unmarshal presign: ")) _
          s2 r h in
      let (hash, decoded, h) =
        bind-ok (bad_request (hex_decode msg.hash_tx) (bytes "invalid hash format: ")) _ s2 r h in
      let (inc, _, h) =
        bind-ok
          (server_error (mpc.hex_to_msg msg.inc_sig) (bytes "failed to convert hex to message: ")) _
          s2 r h in
      let (sig, signed, h) =
        bind-ok
          (server_error (mpc.online_cosign config presign hash inc)
            (bytes "failed to complete signature: "))
          _ s2 r h in
      let (_, _, h) =
        bind-ok
          (server_error (mpc.get_sig_byte sig) (bytes "failed to get escrow signature bytes: ")) _
          s2 r h in
      let (complete, whole, h) =
        bind-ok (server_error (mpc.sig_ethereum sig) (bytes "failed to get signature bytes: ")) _ s2
          r h in
      let same : hash ≡ node.signing_hash (pos 1) tx =
        ok-injective (sym (answered-ok _ _ s2 hash decoded) ∙ hashed) in
      (
        raw,
        tx,
        config,
        presign,
        inc,
        sig,
        e,
        f,
        ap (λ x. mpc.online_cosign config presign x inc) (sym same) ∙ answered-ok _ _ s2 sig signed,
        complete,
        answered-ok _ _ s2 complete whole,
        sym (ap (λ (x : Signed). x.complete) (pure-ok _ r s2 h)),
      )

module _ {Blob : Type 0} (st : Storage Blob) ⦃codec : Codec Blob (List CosignEvent)⦄
    (mpc : Mpc Blob) (node : Node) where
  ended-ok :
      (req : AcceptWithdrawalTxRequest) (now : ℕ) (drawn : List ℕ) (busy : Busy)
      (o : Result HttpError Signed) (s : st.State) (r : Signed)
      → (ended st mpc node req now drawn busy (o, s)).0 ≡ ok r
      → o ≡ ok r
  ended-ok req now drawn busy (ok x) s r h = h
  ended-ok req now drawn busy (err e) s r h = cc

  -- Who is admitted is the caller, and an ECDSA request has a transaction.
  admit_has_tx_data :
      (req req' : AcceptWithdrawalTxRequest) (c : State st)
      → (req.algorithm == bytes "ecdsa") ≡ true
      → (admit st (ok req) c).0 ≡ ok req'
      → (req' ≡ req) × (is_empty req.tx_data ≡ false)
  unfolding admit enter
  admit_has_tx_data req req' c ecdsa h = (ground (arith, ecdsa, h), ground (arith, ecdsa, h))

  cosign_ecdsa_of :
      (req : AcceptWithdrawalTxRequest) (setup : Result Error (Unit {0}))
      (received : Option (Result Error Incomplete)) (s : st.State) (r : Signed)
      → (req.algorithm == bytes "ecdsa") ≡ true
      → (cosign st mpc node req setup received s).0 ≡ ok r
      → (cosign_ecdsa st mpc node req received s).0 ≡ ok r
  unfolding cosign
  cosign_ecdsa_of req (ok _) received s r ecdsa h = ground (arith, ecdsa, h)
  cosign_ecdsa_of req (err e) received s r ecdsa h = ground (arith, ecdsa, h)

  -- The complete signature that an ECDSA accept is answered with is the one that the protocol made
  -- of the hash, on chain 1, of the transaction that the request's own tx_data decodes to, whatever
  -- hash the initiator's message names.
  pub accept_withdrawal_tx_verified :
      (req : AcceptWithdrawalTxRequest) (setup : Result Error (Unit {0}))
      (received : Option (Result Error Incomplete)) (now : ℕ) (drawn : List ℕ) (c : State st)
      (r : Signed)
      → (req.algorithm == bytes "ecdsa") ≡ true
      → (accept_withdrawal_tx st mpc node (ok req) setup received now drawn c).0 ≡ ok r
      → (raw : Bytes) × (tx : Transaction) × (config : mpc.Config) × (presign : mpc.PreSign)
        × (inc : mpc.Message) × (sig : mpc.Signature) × (hex_decode
              (trim_prefix req.tx_data (bytes "0x"))
            ≡ ok raw)
        × (node.unmarshal_binary raw ≡ ok tx)
        × (mpc.online_cosign config presign (node.signing_hash (pos 1) tx) inc ≡ ok sig)
        × (complete : Bytes) × (mpc.sig_ethereum sig ≡ ok complete)
        × (r.complete ≡ hex_encode complete)
  unfolding accept_withdrawal_tx
  accept_withdrawal_tx_verified req setup received now drawn c r ecdsa h =
      let (req', admitted, h) =
        bind-ok (admit st (ok req)) (λ q. signs st mpc node q setup received now drawn) c r h in
      let (same, given) = admit_has_tx_data req req' c ecdsa admitted in
      let ran : (signs st mpc node req setup received now drawn (admit st (ok req) c).1).0 ≡ ok r =
        subst (λ q. (signs st mpc node q setup received now drawn (admit st (ok req) c).1).0 ≡ ok r)
          same h in
      let s : st.State = (admit st (ok req) c).1.1 in
      let (out, s') = cosign st mpc node req setup received s in
      cosign_ecdsa_verified st mpc node req received s r given (
        cosign_ecdsa_of req setup received s r ecdsa
          (ended-ok req now drawn (admit st (ok req) c).1.0 out s' r ran))
