-- ===== src/Client/Accounts/Listed.antt =====
-- client/accounts.go: which accounts are listed.
use signature_escrow.Common.{
  Bool-cases, nat_eq, nat_eq_iff, ℕ, zero, suc, ◌+◌, ◌≤◌, ◌<◌, ◌≡◌, ◌↔◌, refl, sym, ap, subst, ◌∙◌,
  ◌⊎◌, inl, inr, Option, none, some, List, [], ◌∷◌, ◌++◌, arith,
}
use signature_escrow.Text.{Text}
use signature_escrow.Act.{Result, ok, err}
use signature_escrow.Storage.{Error, Storage, Codec, load}
use signature_escrow.Http.{content}
use signature_escrow.Client.Accounts.{
  AccountMeta, meta_key, readable, with_account, accounts_from, accounts_of, list_accounts,
  networks_of,
}

-- The list has the value.
unfoldable pub Has : {A : Type 0} → A → List A → Type 0
Has a [] = ⊥
Has a (x ∷ xs) = (x ≡ a) ⊎ Has a xs

Has-append : {A : Type 0} (a : A) (xs ys : List A) → Has a (xs ++ ys) ↔ (Has a xs ⊎ Has a ys)
unfolding Has
Has-append a [] ys = (λ h. inr h, λ h. elim h [ inl x ↦ absurd x | inr y ↦ y ])
Has-append a (x ∷ xs) ys = (
  (λ h. elim h [
    | inl e ↦ inl (inl e)
    | inr more ↦ elim ((Has-append a xs ys).0 more) [ inl l ↦ inl (inr l) | inr r ↦ inr r ]
  ]),
  (λ h. elim h [
    | inl l ↦ elim l [ inl e ↦ inl e | inr more ↦ inr ((Has-append a xs ys).1 (inl more)) ]
    | inr r ↦ inr ((Has-append a xs ys).1 (inr r))
  ]),
)

le-cases : (i j : ℕ) → i ≤ j → (i ≡ j) ⊎ (i + 1 ≤ j)
le-cases i j h = elim (Bool-cases (nat_eq i j)) [
  | inl e ↦ inl ((nat_eq_iff i j).0 e)
  | inr e ↦ inr (ground (arith, e))
]

module _ {Blob : Type 0} (st : Storage Blob) ⦃codec : Codec Blob AccountMeta⦄ (m : AccountMeta)
    (s : st.State) where
  -- The account is stored under an index of a range of `n`.
  abbrev pub StoredFrom : Text → ℕ → ℕ → Type 0
  StoredFrom network n i =
      (j : ℕ) × (i ≤ j) × (j < i + n) × (load st (meta_key network j) s ≡ ok (some m))

  with_account-Has :
      (o : Option AccountMeta) (rest : List AccountMeta)
      → Has m (with_account st o rest) ↔ ((o ≡ some m) ⊎ Has m rest)
  unfolding Has
  with_account-Has none rest = (λ h. inr h, λ h. elim h [ inl e ↦ cc (e) | inr more ↦ more ])
  with_account-Has (some a) rest = (
    (λ h. elim h [ inl e ↦ inl (ap some e) | inr more ↦ inr more ]),
    (λ h. elim h [ inl e ↦ inl (cc (e)) | inr more ↦ inr more ]),
  )

  readable-some : (r : Result Error (Option AccountMeta)) → readable st r ≡ some m → r ≡ ok (some m)
  readable-some (ok o) e = ap ok e
  readable-some (err _) e = cc (e)

  accounts_from-StoredFrom :
      (network : Text) (n i : ℕ) → Has m (accounts_from st network n i s) → StoredFrom network n i
  unfolding accounts_from Has
  accounts_from-StoredFrom network zero i h = absurd h
  accounts_from-StoredFrom network (suc n) i h =
      let r : Result Error (Option AccountMeta) = load st (meta_key network i) s in
      elim ((with_account-Has (readable st r) (accounts_from st network n (i + 1) s)).0 h) [
        | inl e ↦ (i, omega arith, omega arith, readable-some r e)
        | inr more ↦
            let (j, l, u, e) = accounts_from-StoredFrom network n (i + 1) more in
            (j, omega arith, omega arith, e)
      ]

  StoredFrom-accounts_from :
      (network : Text) (n i : ℕ) → StoredFrom network n i → Has m (accounts_from st network n i s)
  unfolding accounts_from Has
  StoredFrom-accounts_from network zero i (j, l, u, e) = absurd (omega arith)
  StoredFrom-accounts_from network (suc n) i (j, l, u, e) =
      let r : Result Error (Option AccountMeta) = load st (meta_key network i) s in
      (with_account-Has (readable st r) (accounts_from st network n (i + 1) s)).1
        (elim (le-cases i j l) [
          | inl same ↦ inl (ap (readable st) (ap (λ x. load st (meta_key network x) s) same ∙ e))
          | inr less ↦
              inr (StoredFrom-accounts_from network n (i + 1) (j, omega arith, omega arith, e))
        ])

  accounts_of_iff :
      (networks : List Text)
      → Has m (accounts_of st networks s)
        ↔ ((network : Text) × Has network networks × StoredFrom network 100 1)
  unfolding accounts_of Has
  accounts_of_iff [] = (λ h. absurd h, λ h. absurd h.1)
  accounts_of_iff (network ∷ networks) =
      (there (accounts_of_iff networks).0, back (accounts_of_iff networks).1)
    where
      there :
          (Has m (accounts_of st networks s)
            → ((net : Text) × Has net networks × StoredFrom net 100 1))
          → Has m (accounts_of st (network ∷ networks) s)
          → ((net : Text) × Has net (network ∷ networks) × StoredFrom net 100 1)
      there later h =
          elim ((Has-append m (accounts_from st network 100 1 s) (accounts_of st networks s)).0 h) [
            | inl here ↦ (network, inl refl, accounts_from-StoredFrom network 100 1 here)
            | inr more ↦ let (net, among, at) = later more in (net, inr among, at)
          ]

      back :
          (((net : Text) × Has net networks × StoredFrom net 100 1)
            → Has m (accounts_of st networks s))
          → ((net : Text) × Has net (network ∷ networks) × StoredFrom net 100 1)
          → Has m (accounts_of st (network ∷ networks) s)
      back rest (net, among, at) =
          (Has-append m (accounts_from st network 100 1 s) (accounts_of st networks s)).1
            (elim among [
              | inl e ↦ inl (
                  StoredFrom-accounts_from network 100 1
                    (subst (λ x. StoredFrom x 100 1) (sym e) at))
              | inr later ↦ inr (rest (net, later, at))
            ])

  -- listAccounts answers with a list that holds an account exactly if it is stored and can be read
  -- under one of the indices 1 to 100 of the network of the query, or of both networks where the
  -- query names none; the storage stays as it is.
  pub list_accounts_iff :
      (network : Text)
      → (list : List AccountMeta) × (list_accounts st network s ≡ (ok (content list), s))
        × (Has m list ↔ ((net : Text) × Has net (networks_of network) × StoredFrom net 100 1))
  unfolding list_accounts
  list_accounts_iff network =
      (accounts_of st (networks_of network) s, refl, accounts_of_iff (networks_of network))
