-- ===== src/Storage/File/Refines.antt =====
-- storage/file/file.go, storage/storage.go: the file storage against the map that its clients see.
use signature_escrow.Common.{◌≡◌, ◌≢◌, Option, none, some, ◌++◌}
use signature_escrow.Text.{Text}
use signature_escrow.Act.{Result, ok, err}
use signature_escrow.Storage.Memory.{Values}
use signature_escrow.Storage.Disk.{Errno, not_exist, Node, Host}
use signature_escrow.Storage.Disk.Frame.{sees, Seen, content}
use signature_escrow.Storage.File.{EntryFormat, FileBackend, file_of}
use signature_escrow.Storage.File.Paths.{IsClean}
use signature_escrow.Storage.File.Keeps.{All, Keeps}
use signature_escrow.Storage.File.Store
use signature_escrow.Storage.File.Run.{Command, Step, execute}

module _ (host : Host) (json : EntryFormat) (b : FileBackend) where
  abbrev seen_as : Option Text → Result Errno Seen
  seen_as none = err not_exist
  seen_as (some v) = ok (content (json.encode v))

  module _ (Keys : Text → Type 0) (clean : (k : Text) → Keys k → IsClean k)
      (apart : (j k : Text) → Keys j → Keys k → All (λ r. j ≢ k ++ r) host.suffixes) where
    -- What is on the disk is what is in the map, at these keys.
    unfoldable pub Holds : Values Text → Node → Type 0
    Holds m s = (j : Text) → Keys j → sees (file_of host json b j) s ≡ seen_as (m j)

    -- What a command does on the disk is a step of the map.
    Follows : Values Text → Node → Command → Type 0
    Follows m s c =
        (m' : Values Text) × Step m c (execute host json b c s).0 m'
        × Holds m' (execute host json b c s).1
