-- ===== src/Client/Aliases.antt =====
-- client/aliases.go: the names that a client gives to addresses, a map that is stored as a whole.
pub mod Named
mod Tests
use signature_escrow.Common.{
  ◌≡◌, Bool, true, false, Option, none, some, List, [], ◌∷◌, if◌then◌else◌,
}
use signature_escrow.Text.{Text, bytes, ◌==◌, is_empty, to_lower}
use signature_escrow.Text.Space.{trim_space}
use signature_escrow.Act.{Result, ok, err, Act, lift, or_fail, continue, ◌>>=◌, ◌>>◌}
use signature_escrow.Storage.{Error, Storage, Codec, load, save}
use signature_escrow.Http.{HttpError, Reply, respond_ok, reject_if}

abbrev pub aliases_key : Text
aliases_key = bytes "aliases/all"

-- A Go map, as the list of its entries.
abbrev pub Aliases : Type 0
Aliases = List (Text × Text)

-- `delete(m, addr)`
unfoldable pub without : Text → Aliases → Aliases
without addr [] = []
without addr ((a, n) ∷ m) = let rest = without addr m in if a == addr then rest else (a, n) ∷ rest

-- `m[addr] = name`
abbrev pub named : Text → Text → Aliases → Aliases
named addr name m = (addr, name) ∷ without addr m

-- `m[addr]`
unfoldable pub lookup : Text → Aliases → Option Text
lookup addr [] = none
lookup addr ((a, n) ∷ m) = let rest = lookup addr m in if a == addr then some n else rest

pub record AliasRequest : Type 0 where
  pub address : Text
  pub name : Text

abbrev pub key_of : Text → Text
key_of address = to_lower (trim_space address)

module _ {Blob : Type 0} (st : Storage Blob) ⦃codec : Codec Blob Aliases⦄ where
  abbrev pub or_none : Result Error (Option Aliases) → Aliases
  or_none (err _) = []
  or_none (ok none) = []
  or_none (ok (some m)) = m

  -- Aliases that cannot be read are none.
  unfoldable pub load_aliases : st.State → Aliases
  load_aliases s = or_none (load st aliases_key s)

  -- Errors are passed over.
  unfoldable pub save_aliases : Aliases → st.State → st.State
  save_aliases m s = (save st aliases_key m s).1

  unfoldable pub list_aliases : Act HttpError st.State (Reply Aliases)
  list_aliases s = respond_ok (some (load_aliases s)) s

  abbrev saves : (Aliases → Aliases) → Act HttpError st.State (Reply Bool)
  saves f s = respond_ok (some true) (save_aliases (f (load_aliases s)) s)

  abbrev renamed : Text → Text → Aliases → Aliases
  renamed addr name m = if is_empty name then without addr m else named addr name m

  unfoldable pub set_alias : Result Error AliasRequest → Act HttpError st.State (Reply Bool)
  set_alias body = do
    req ← or_fail (lift body) (λ e. record { status = 400; message = e })
    reject_if (is_empty (key_of req.address)) 400 (bytes "address is required")
    saves (renamed (key_of req.address) (trim_space req.name))

  unfoldable pub delete_alias : Result Error Text → Act HttpError st.State (Reply Bool)
  delete_alias body = do
    address ← or_fail (lift body) (λ e. record { status = 400; message = e })
    saves (without (key_of address))
