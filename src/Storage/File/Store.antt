-- ===== src/Storage/File/Store.antt =====
-- storage/storage.go: `FileStorage`, the interface `Storage` over the file backend.
use signature_escrow.Common.{Option, none, some}
use signature_escrow.Text.{Text}
use signature_escrow.Act.{Act, pure, ◌>>=◌}
use signature_escrow.Storage.{Error}
use signature_escrow.Storage.Disk.{Node, Host}
use signature_escrow.Storage.File
use signature_escrow.Storage.File.{EntryFormat, Entry, FileBackend, Context}

abbrev value_of : Option Entry → Option Text
value_of none = none
value_of (some e) = some e.value

module _ (host : Host) (json : EntryFormat) (b : FileBackend) where
  unfoldable pub put : Context → Text → Text → Act Error Node (Unit {0})
  put ctx k v = File.put host json b ctx (record { key = k; value = v })

  unfoldable pub get : Context → Text → Act Error Node (Option Text)
  get ctx k = do e ← File.get host json b ctx k; pure (value_of e)

  unfoldable pub delete : Context → Text → Act Error Node (Unit {0})
  delete ctx k = File.delete host json b ctx k
