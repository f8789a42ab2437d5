-- ===== src/Storage/File/Tests.antt =====
-- The file storage on a small disk.
use signature_escrow.Common.{◌≡◌, ◌≢◌, refl, ◌⊎◌, none, some, List, [], ◌∷◌}
use signature_escrow.Text.{Text, bytes, strip, ◌==◌}
use signature_escrow.Act.{Result, ok, err}
use signature_escrow.Storage.{Error}
use signature_escrow.Storage.Disk.{
  directory, end, Host, mkdir_all, find, create_at, node_at, write_at, erase, remove_at, rename_at,
}
use signature_escrow.Storage.File.{
  EntryFormat, FileBackend, dir_of, base_of, names_of, cleanup_from, cleanup_logical_path,
  create_temp, expand_path, validate_path,
}
use signature_escrow.Storage.File.Store
use signature_escrow.Storage.File
use signature_escrow.Text.Split.{contains, split, take_words}
use signature_escrow.Storage.File.Run.{Command, put, get, delete, Answer, done, found, execute_all}

-- A line is a quote and the value.
abbrev unquote : Text → Result Error Text
unquote [] = err (bytes "EOF")
unquote (_ ∷ v) = ok v

quoted_ne : (v : Text) → ◌≢◌ {A = Text} (b'"' ∷ v) []
quoted_ne v h = cc

abbrev plain_format : EntryFormat
plain_format = record {
  encode = λ v. b'"' ∷ v;
  decode = unquote;
  decode-encode = λ v. refl;
  encode-ne = quoted_ne;
}

abbrev calm_host : Host
calm_host = record { refuse = λ _ _. none; partial = λ t. t; suffixes = bytes "7" ∷ [] }

abbrev sample_backend : FileBackend
sample_backend = record { path = bytes "data" ∷ [] }

abbrev sample_commands : List Command
sample_commands =
    put (bytes "a/b") (bytes "x")
    ∷ put (bytes "c") (bytes "y")
    ∷ get (bytes "a/b")
    ∷ delete (bytes "a/b")
    ∷ get (bytes "a/b")
    ∷ get (bytes "c")
    ∷ []

-- Two values are put, read and one of them deleted.
sample_run :
    (execute_all calm_host plain_format sample_backend sample_commands (directory end)).0
    ≡ done (ok tt)
      ∷ done (ok tt)
      ∷ found (ok (some (bytes "x")))
      ∷ done (ok tt)
      ∷ found (ok none)
      ∷ found (ok (some (bytes "y")))
      ∷ []
unfolding execute_all signature_escrow.Storage.File.Run.execute Store.put Store.get Store.delete
    File.put File.get File.delete File.put_internal File.get_internal File.delete_internal contains
    bytes strip mkdir_all dir_of names_of split ◌==◌ find create_at node_at write_at base_of erase
    remove_at rename_at cleanup_from cleanup_logical_path create_temp expand_path validate_path
    take_words
sample_run = refl

abbrev SampleKey : Text → Type 0
SampleKey k = (k ≡ bytes "a/b") ⊎ (k ≡ bytes "c")
