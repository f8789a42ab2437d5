-- ===== src/Client/Owner/Binding.antt =====
-- client/auth.go: the binding of a client to its owner, through its logins.
use signature_escrow.Common.{
  ℕ, zero, suc, ◌+◌, ◌≡◌, ◌≢◌, refl, ap, ◌∙◌, inl, inr, true, false, Bool-cases, List, [], ◌∷◌,
  arith,
}
use signature_escrow.Text.{Text, bytes, is_empty, ==_iff}
use signature_escrow.Act.{Result, ok, err, Result-cases}
use signature_escrow.Storage.{Error, Storage, Codec, load_of_get}
use signature_escrow.Http.{content}
use signature_escrow.Auth.{Ethereum, generate_nonce, verify_signature}
use signature_escrow.Auth.Token.{Jwt, generate_token}
use signature_escrow.Client.Accounts.{
  AccountMeta, account_base, meta_key, accounts_from, accounts_of, both_networks,
}
use signature_escrow.Client.Owner.{
  RawText, LoginRequest, LoginResponse, norm_addr, owner_key, first_identity, owner_of,
  key_identity, stored_owner, owner, bind_owner, admit, auth_nonce, auth_login, client_token_ttl,
  State,
}
use signature_escrow.Client.Owner.Address.{norm_addr_idem}

-- A request for a nonce or to log in.
pub data Attempt : Type 0 where
  asks : Result Error Text → ℕ → Result Error (List ℕ) → Attempt
  logs_in : Result Error LoginRequest → ℕ → Attempt

abbrev head : Text → ℕ
head [] = 0
head (c ∷ _) = c

is_empty_nil : (t : Text) → is_empty t ≡ true → t ≡ []
is_empty_nil [] h = refl
is_empty_nil (_ ∷ _) h = cc

meta_key-ne_owner : (network : Text) (i : ℕ) → meta_key network i ≢ owner_key
unfolding account_base bytes
meta_key-ne_owner network i h = let e : ◌≡◌ {A = ℕ} 97 99 = ap head h in omega arith

module _ {Blob : Type 0} (st : Storage Blob) ⦃codec : Codec Blob AccountMeta⦄
    (raw : RawText Blob) where
  accounts_from-same :
      (network : Text) (n i : ℕ) (s t : st.State)
      → ((k : Text) → k ≢ owner_key → st.get k s ≡ st.get k t)
      → accounts_from st network n i s ≡ accounts_from st network n i t
  unfolding accounts_from
  accounts_from-same network zero i s t same = refl
  accounts_from-same network (suc n) i s t same = cc (
    load_of_get st (meta_key network i) s t (same _ (meta_key-ne_owner network i)),
    accounts_from-same network n (i + 1) s t same,
  )

  accounts_of-same :
      (networks : List Text) (s t : st.State)
      → ((k : Text) → k ≢ owner_key → st.get k s ≡ st.get k t)
      → accounts_of st networks s ≡ accounts_of st networks t
  unfolding accounts_of
  accounts_of-same [] s t same = refl
  accounts_of-same (network ∷ networks) s t same =
      cc (accounts_from-same network 100 1 s t same, accounts_of-same networks s t same)

  -- Binding an owner touches no key material.
  key_identity-bind_owner :
      (addr : Text) (s : st.State)
      → key_identity st raw (bind_owner st raw addr s).1 ≡ key_identity st raw s
  unfolding key_identity bind_owner
  key_identity-bind_owner addr s = ap first_identity (
      accounts_of-same both_networks _ s
        (λ k ne. st.get-put_ne owner_key k (raw.of_text (norm_addr addr)) s ne))

  stored_owner-bind_owner :
      (addr : Text) (s : st.State)
      → (bind_owner st raw addr s).0 ≡ ok tt
      → stored_owner st raw (bind_owner st raw addr s).1 ≡ norm_addr addr
  unfolding stored_owner bind_owner
  stored_owner-bind_owner addr s h =
      ap (owner_of st raw) (st.get-put_self owner_key (raw.of_text (norm_addr addr)) s h)
      ∙ ap norm_addr (raw.to_text-of_text (norm_addr addr))
      ∙ norm_addr_idem addr

  owner-bind_owner :
      (addr : Text) (s : st.State)
      → owner st raw s ≡ []
      → (bind_owner st raw addr s).0 ≡ ok tt
      → owner st raw (bind_owner st raw addr s).1 ≡ norm_addr addr
  unfolding owner
  owner-bind_owner addr s unowned h =
      ground (arith, unowned, key_identity-bind_owner addr s, stored_owner-bind_owner addr s h)

  -- An admitted signer is the owner afterwards.
  owner-admit :
      (signer : Text) (s : st.State) (u : Unit {0})
      → (admit st raw signer s).0 ≡ ok u
      → norm_addr signer ≡ signer
      → owner st raw (admit st raw signer s).1 ≡ signer
  unfolding admit
  owner-admit signer s u h normal = elim (Bool-cases (is_empty (owner st raw s))) [
    | inr owned ↦ ground (arith, owned, h, ==_iff signer (owner st raw s))
    | inl unowned ↦ elim (Result-cases (bind_owner st raw signer s).0) [
      | inl (v, e) ↦ ground (
        arith,
        unowned,
        e,
        owner-bind_owner signer s (is_empty_nil (owner st raw s) unowned) e,
        normal,
      )
      | inr (x, e) ↦ ground (arith, unowned, e, h)
    ]
  ]

  -- An owner stays the owner, whoever tries to log in.
  admit_keeps :
      (signer : Text) (s : st.State)
      → is_empty (owner st raw s) ≡ false
      → (admit st raw signer s).1 ≡ s
  unfolding admit
  admit_keeps signer s owned = ground (arith, owned)

  module _ (eth : Ethereum) (jwt : Jwt) (secret : Text) where
    pub auth_login_binds :
        (req : LoginRequest) (now : ℕ) (c : State st raw) (resp : LoginResponse)
        → (auth_login st raw eth jwt secret (ok req) now c).0 ≡ ok (content resp)
        → owner st raw (auth_login st raw eth jwt secret (ok req) now c).1.store
          ≡ norm_addr resp.address
    unfolding auth_login
    auth_login_binds req now c resp h =
        elim (Result-cases
          (verify_signature eth req.address (generate_nonce req.address req.nonce) req.signature)) [
            | inr (x, e) ↦ ground (arith, e)
            | inl (a, e) ↦
                let signer : Text = norm_addr (eth.address_hex a) in
                elim (Result-cases (admit st raw signer c.store).0) [
                  | inr (x, g) ↦ ground (arith, e, g)
                  | inl (u, g) ↦ ground (
                    arith,
                    e,
                    g,
                    Result-cases (generate_token jwt eth a secret client_token_ttl now),
                    owner-admit signer c.store u g (norm_addr_idem (eth.address_hex a)),
                  )
                ]
          ]

    login_keeps :
        (body : Result Error LoginRequest) (now : ℕ) (c : State st raw)
        → is_empty (owner st raw c.store) ≡ false
        → (auth_login st raw eth jwt secret body now c).1.store ≡ c.store
    unfolding auth_login
    login_keeps (err x) now c owned = refl
    login_keeps (ok req) now c owned =
        elim (Result-cases
          (verify_signature eth req.address (generate_nonce req.address req.nonce) req.signature)) [
            | inr (x, e) ↦ ground (arith, e)
            | inl (a, e) ↦ ground (
              arith,
              e,
              admit_keeps (norm_addr (eth.address_hex a)) c.store owned,
              Result-cases (admit st raw (norm_addr (eth.address_hex a)) c.store).0,
            )
          ]

    -- Requests one after the other, each at its time.
    unfoldable pub attempts : List Attempt → State st raw → State st raw
    attempts [] c = c
    attempts (asks body now drawn ∷ more) c = attempts more (auth_nonce st raw body now drawn c).1
    attempts (logs_in body now ∷ more) c =
        attempts more (auth_login st raw eth jwt secret body now c).1

    nonce_keeps :
        (body : Result Error Text) (now : ℕ) (drawn : Result Error (List ℕ)) (c : State st raw)
        → (auth_nonce st raw body now drawn c).1.store ≡ c.store
    unfolding auth_nonce
    nonce_keeps (err x) now drawn c = refl
    nonce_keeps (ok address) now drawn c = ground arith

    pub attempts_keep :
        (tries : List Attempt) (c : State st raw)
        → is_empty (owner st raw c.store) ≡ false
        → (attempts tries c).store ≡ c.store
    unfolding attempts
    attempts_keep [] c owned = refl
    attempts_keep (asks body now drawn ∷ more) c owned =
        let same = nonce_keeps body now drawn c in
        attempts_keep more _ (ap (λ s. is_empty (owner st raw s)) same ∙ owned) ∙ same
    attempts_keep (logs_in body now ∷ more) c owned =
        let same = login_keeps body now c owned in
        attempts_keep more _ (ap (λ s. is_empty (owner st raw s)) same ∙ owned) ∙ same
