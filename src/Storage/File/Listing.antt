-- ===== src/Storage/File/Listing.antt =====
-- storage/file/file.go: `List`.
use signature_escrow.Common.{List, [], ◌∷◌, ◌++◌, nat_eq, if◌then◌else◌}
use signature_escrow.Text.{Text, bytes}
use signature_escrow.Text.Order.{sort}
use signature_escrow.Act.{Result, Act, ok, err, pure, throw, ◌>>=◌, ◌>>◌, or_fail, attempt}
use signature_escrow.Storage.{Error}
use signature_escrow.Storage.Disk.{
  FilePath, Errno, not_exist, Node, file, directory, Entries, end, entry, not_directory, stat,
  open_file, read, Host, look,
}
use signature_escrow.Storage.File.{FileBackend, Context, names, describe, stop, validate_path}

-- `name[1:]` behind an underscore
abbrev without_mark : Text → Text
without_mark [] = []
without_mark (c ∷ name) = if nat_eq c b'_' then name else c ∷ name

abbrev listed : Text → Node → Text
listed name (directory _) = name ++ bytes "/"
listed name (file _) = without_mark name

module _ (host : Host) (b : FileBackend) where
  unfoldable pub list_names : FilePath → Entries → Act Error Node (List Text)
  list_names p end = pure []
  list_names p (entry name _ es) = do
    fi ← or_fail (look host stat (p ++ name ∷ [])) describe
    rest ← list_names p es
    pure (listed name fi ∷ rest)

  abbrev read_names : Context → FilePath → Result Errno Node → Act Error Node (List Text)
  read_names ctx p (ok (directory es)) = do ns ← list_names p es; stop ctx.done; pure (sort ns)
  read_names ctx p (ok (file _)) = throw (describe not_directory)
  read_names ctx p (err e) = throw (describe e)

  abbrev opened : Context → FilePath → Result Errno Node → Act Error Node (List Text)
  opened ctx p (ok _) = attempt (look host read p) >>= read_names ctx p
  opened ctx p (err not_exist) = pure []
  opened ctx p (err e) = throw (describe e)

  unfoldable pub list_internal : Context → Text → Act Error Node (List Text)
  unfolding validate_path
  list_internal ctx prefix = do
    validate_path prefix
    attempt (look host open_file (b.path ++ names prefix)) >>= opened ctx (b.path ++ names prefix)

  unfoldable pub list : Context → Text → Act Error Node (List Text)
  list ctx prefix = do stop ctx.acquire; list_internal ctx prefix
