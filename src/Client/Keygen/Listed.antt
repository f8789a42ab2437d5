-- ===== src/Client/Keygen/Listed.antt =====
-- client/keygen_ecdsa.go, client/keygen_frost.go and client/accounts.go: a generated key is listed.
use signature_escrow.Common.{ℕ, ◌≤◌, ◌<◌, ◌≡◌, sym, ap, subst, ◌∙◌, some, [], ◌++◌, arith}
use signature_escrow.Text.{Text, bytes}
use signature_escrow.Validation.{Bytes}
use signature_escrow.Act.{Result, ok, bind-leads}
use signature_escrow.Storage.{Storage, Codec, save, load, load-save_self}
use signature_escrow.Http.{HttpError, Reply, content}
use signature_escrow.Client.Accounts.{AccountMeta, account_base, meta_key}
use signature_escrow.Client.Util.{validate_network, validate_index}
use signature_escrow.Client.Withdrawal.Sign.{answered-ok, bad_request, server_error}
use signature_escrow.Client.Keygen.{
  KeygenRequest, KeygenResponse, EcdsaRun, FrostRun, or_eth, or_one, meta_of, response_of,
  keygen_ecdsa, keygen_frost, check_parties, stores,
}

validate_index-ok : (i : ℕ) (u : Unit {0}) → validate_index i ≡ ok u → (1 ≤ i) × (i < 101)
unfolding validate_index
validate_index-ok i u h = (ground (arith, h), ground (arith, h))

module _ {Blob : Type 0} (st : Storage Blob) ⦃codec : Codec Blob AccountMeta⦄ where
  -- The account of a reply is stored, under an index that is listed.
  unfoldable pub IsStored : Text → KeygenResponse → st.State → Type 0
  IsStored network resp s =
      (m : AccountMeta) × (m.address ≡ resp.address)
      × (m.index ≡ resp.index)
      × (1 ≤ resp.index)
      × (resp.index < 101)
      × (load st (meta_key network resp.index) s ≡ ok (some m))

  IsStored-at_end :
      (req : KeygenRequest) (network address : Text) (public_key : Bytes) (resp : KeygenResponse)
      (u : Unit {0}) (t : st.State)
      → ((k : Text) (m : AccountMeta) (t : st.State) → (save st k m t).0 ≡ ok tt)
      → validate_index (or_one req.index) ≡ ok u
      → ◌≡◌ {A = Result HttpError (Reply KeygenResponse)}
          (ok (content (response_of req (meta_of req network address public_key))))
          (ok (content resp))
      → IsStored network resp
          (save st
            (meta_key network (or_one req.index))
            (meta_of req network address public_key)
            t).1
  unfolding IsStored
  IsStored-at_end req network address public_key resp u t calm valid e =
      let (low, high) = validate_index-ok (or_one req.index) u valid in
      let at : resp.index ≡ or_one req.index = cc (e) in
      let m : AccountMeta = meta_of req network address public_key in
      (
        m,
        cc (e),
        cc (e),
        subst (λ i. 1 ≤ i) (sym at) low,
        subst (λ i. i < 101) (sym at) high,
        ap (λ i. load st (meta_key network i) (save st (meta_key network (or_one req.index)) m t).1)
              at
            ∙ load-save_self st (meta_key network (or_one req.index)) m t (calm _ m t),
      )

  pub keygen_frost_listed :
      (req : KeygenRequest) (run : FrostRun Blob) (s : st.State) (resp : KeygenResponse)
      → ((k : Text) (m : AccountMeta) (t : st.State) → (save st k m t).0 ≡ ok tt)
      → (keygen_frost st (ok req) run s).0 ≡ ok (content resp)
      → IsStored (bytes "btc") resp (keygen_frost st (ok req) run s).1
  unfolding keygen_frost
  keygen_frost_listed req run s resp calm h =
      let Q : st.State → Type 0 = IsStored (bytes "btc") resp in
      let c : Reply KeygenResponse = content resp in
      bind-leads Q c (check_parties req) _
        (λ _ _ _ s h.
          bind-leads Q c (bad_request (validate_index (or_one req.index)) []) _
            (λ u s2 valid s h.
              bind-leads Q c (server_error run.network (bytes "network setup failed: ")) _
                (λ _ _ _ s h.
                  bind-leads Q c (server_error run.keygen (bytes "FROST keygen failed: ")) _
                    (λ _ _ _ s h.
                      bind-leads Q c (server_error run.address (bytes "failed to get address: ")) _
                        (λ address _ _ s h.
                          bind-leads Q c
                            (server_error run.public_key (bytes "failed to get public key: ")) _
                            (λ public_key _ _ s h.
                              bind-leads Q c
                                (server_error run.config (bytes "failed to marshal config: ")) _
                                (λ config _ _ s h.
                                  bind-leads Q c
                                    (stores st
                                      (account_base (bytes "btc") (or_one req.index)
                                        ++ bytes "/conf-frost")
                                      config (bytes "failed to save config: "))
                                    _
                                    (λ _ _ _ s h.
                                      IsStored-at_end req (bytes "btc") address public_key resp u s
                                        calm
                                        (answered-ok (validate_index (or_one req.index)) _ s2 u
                                          valid)
                                        h)
                                    s h)
                                s h)
                            s h)
                        s h)
                    s h)
                s h)
            s h)
        s h

  -- After an ECDSA key generation that was answered 200, an account with the address of the reply
  -- is stored under the reply's index, which lies between 1 and 100, of the request's network, or
  -- of eth where it names none. Condition: the storage takes the metadata.
  pub keygen_ecdsa_listed :
      (req : KeygenRequest) (run : EcdsaRun Blob) (s : st.State) (resp : KeygenResponse)
      → ((k : Text) (m : AccountMeta) (t : st.State) → (save st k m t).0 ≡ ok tt)
      → (keygen_ecdsa st (ok req) run s).0 ≡ ok (content resp)
      → IsStored (or_eth req.network) resp (keygen_ecdsa st (ok req) run s).1
  unfolding keygen_ecdsa
  keygen_ecdsa_listed req run s resp calm h =
      let Q : st.State → Type 0 = IsStored (or_eth req.network) resp in
      let c : Reply KeygenResponse = content resp in
      bind-leads Q c (check_parties req) _
        (λ _ _ _ s h.
          bind-leads Q c (bad_request (validate_network (or_eth req.network)) []) _
            (λ _ _ _ s h.
              bind-leads Q c (bad_request (validate_index (or_one req.index)) []) _
                (λ u s2 valid s h.
                  bind-leads Q c (server_error run.network (bytes "network setup failed: ")) _
                    (λ _ _ _ s h.
                      bind-leads Q c (server_error run.keygen (bytes "ECDSA keygen failed: ")) _
                        (λ _ _ _ s h.
                          bind-leads Q c
                            (server_error run.presign_network (bytes "network setup failed: ")) _
                            (λ _ _ _ s h.
                              bind-leads Q c
                                (server_error run.presign (bytes "ECDSA presign failed: ")) _
                                (λ _ _ _ s h.
                                  bind-leads Q c
                                    (server_error run.address (bytes "failed to get address: ")) _
                                    (λ address _ _ s h.
                                      bind-leads Q c
                                        (server_error run.public_key
                                          (bytes "failed to get public key: "))
                                        _
                                        (λ public_key _ _ s h.
                                          bind-leads Q c
                                            (server_error run.config
                                              (bytes "failed to marshal config: "))
                                            _
                                            (λ config _ _ s h.
                                              bind-leads Q c
                                                (server_error run.presignature
                                                  (bytes "failed to marshal presign: "))
                                                _
                                                (λ presignature _ _ s h.
                                                  bind-leads Q c
                                                    (stores st
                                                      (account_base (or_eth req.network)
                                                          (or_one req.index)
                                                        ++ bytes "/conf-ecdsa")
                                                      config (bytes "failed to save config: "))
                                                    _
                                                    (λ _ _ _ s h.
                                                      bind-leads Q c
                                                        (stores st
                                                          (account_base (or_eth req.network)
                                                            (or_one req.index)
                                                            ++ bytes "/presig-ecdsa")
                                                          presignature
                                                          (bytes "failed to save presign: "))
                                                        _
                                                        (λ _ _ _ s h.
                                                          IsStored-at_end req (or_eth req.network)
                                                            address public_key resp u s calm
                                                            (answered-ok
                                                            (validate_index (or_one req.index)) _ s2
                                                            u valid)
                                                            h)
                                                        s h)
                                                    s h)
                                                s h)
                                            s h)
                                        s h)
                                    s h)
                                s h)
                            s h)
                        s h)
                    s h)
                s h)
            s h)
        s h
