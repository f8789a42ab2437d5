-- ===== src/Client/Aliases/Tests.antt =====
-- The alias "Ann" of one address, given twice, and the run of set_alias_names.
use signature_escrow.Common.{◌≡◌, refl, false, none, some, if◌then◌else◌}
use signature_escrow.Text.{bytes, is_empty, ◌==◌, to_lower}
use signature_escrow.Text.Space.{trim_space, trim_left, trim_right}
use signature_escrow.Act.{ok}
use signature_escrow.Storage.{save}
use signature_escrow.Client.Sample.{sample_store, empty, aliases_codec}
use signature_escrow.Client.Aliases.{AliasRequest, key_of, lookup, load_aliases, set_alias}
use signature_escrow.Client.Aliases.Named.{set_alias_names}

abbrev ann : AliasRequest
ann = record { address = bytes "0xAB"; name = bytes "Ann" }

given : is_empty (key_of ann.address) ≡ false
unfolding bytes to_lower trim_space trim_left trim_right
given = refl

set_alias_names_example :
    lookup (bytes "0xab") (load_aliases sample_store (set_alias sample_store (ok ann) empty).1) ≡ (
      if bytes "0xab" == key_of ann.address
      then (if is_empty (trim_space ann.name) then none else some (trim_space ann.name))
      else lookup (bytes "0xab") (load_aliases sample_store empty))
unfolding save
set_alias_names_example = set_alias_names sample_store ann empty given (λ m. refl) (bytes "0xab")
