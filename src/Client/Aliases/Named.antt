-- ===== src/Client/Aliases/Named.antt =====
-- client/aliases.go: which name an address has after it was set or deleted.
use signature_escrow.Common.{
  ◌≡◌, ap, inl, inr, false, Bool-cases, none, some, [], ◌∷◌, arith, if◌then◌else◌,
}
use signature_escrow.Text.{Text, ◌==◌, ==_iff, is_empty}
use signature_escrow.Text.Space.{trim_space}
use signature_escrow.Act.{ok}
use signature_escrow.Storage.{Storage, Codec, save, load-save_self}
use signature_escrow.Client.Aliases.{
  or_none, Aliases, AliasRequest, aliases_key, key_of, without, named, lookup, load_aliases,
  save_aliases, set_alias,
}

lookup-without :
    (a j : Text) (m : Aliases) → lookup j (without a m) ≡ (if j == a then none else lookup j m)
unfolding lookup without
lookup-without a j [] = ground arith
lookup-without a j ((b, n) ∷ m) =
    ground (arith, lookup-without a j m, ==_iff b a, ==_iff b j, ==_iff j a)

lookup-named :
    (a n j : Text) (m : Aliases) → lookup j (named a n m) ≡ (if j == a then some n else lookup j m)
unfolding lookup
lookup-named a n j m = ground (arith, lookup-without a j m, ==_iff a j, ==_iff j a)

module _ {Blob : Type 0} (st : Storage Blob) ⦃codec : Codec Blob Aliases⦄ where
  -- Saved aliases are loaded, where the store does not fail.
  load_aliases-save_aliases :
      (m : Aliases) (s : st.State)
      → (save st aliases_key m s).0 ≡ ok tt
      → load_aliases st (save_aliases st m s) ≡ m
  unfolding load_aliases save_aliases
  load_aliases-save_aliases m s h = ap (or_none st) (load-save_self st aliases_key m s h)

  -- After setAlias with an address the stored aliases give it, in lower case, the name without the
  -- white space around it, or none where nothing is left of the name; each other address has the
  -- name that it had. Condition: the storage takes the aliases.
  pub set_alias_names :
      (req : AliasRequest) (s : st.State)
      → is_empty (key_of req.address) ≡ false
      → ((m : Aliases) → (save st aliases_key m s).0 ≡ ok tt)
      → (j : Text)
      → lookup j (load_aliases st (set_alias st (ok req) s).1) ≡ (
          if j == key_of req.address
          then (if is_empty (trim_space req.name) then none else some (trim_space req.name))
          else lookup j (load_aliases st s))
  unfolding set_alias
  set_alias_names req s given calm j = elim (Bool-cases (is_empty (trim_space req.name))) [
    | inl e ↦ ground (
      arith,
      given,
      e,
      load_aliases-save_aliases (without (key_of req.address) (load_aliases st s)) s (calm _),
      lookup-without (key_of req.address) j (load_aliases st s),
    )
    | inr e ↦ ground (
      arith,
      given,
      e,
      load_aliases-save_aliases
          (named (key_of req.address) (trim_space req.name) (load_aliases st s)) s (calm _),
      lookup-named (key_of req.address) (trim_space req.name) j (load_aliases st s),
    )
  ]
