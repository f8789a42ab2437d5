-- ===== src/Storage/File.antt =====
-- storage/file/file.go: the backend that keeps each value in a file of its own. A configured path
-- with `..` is not modelled, and the size of a directory is taken not to be 0.
pub mod Paths
pub mod Keeps
pub mod Get
pub mod Put
pub mod Delete
pub mod Listing
pub mod Store
pub mod Run
pub mod Refines
pub mod Refuses
mod Tests
use signature_escrow.Common.{
  ◌≡◌, ◌≢◌, Option, none, some, Bool, true, false, not, ◌&&◌, ℕ, zero, suc, ◌-◌, List, [], ◌∷◌,
  ◌++◌, if◌then◌else◌, length,
}
use signature_escrow.Text.{Text, bytes, ◌==◌, is_empty}
use signature_escrow.Text.Split.{split, contains, take_words}
use signature_escrow.Act.{
  Result, ok, err, Act, pure, throw, lift, ◌>>=◌, ◌>>◌, continue, or_fail, attempt,
}
use signature_escrow.Storage.{Error}
use signature_escrow.Storage.Disk.{
  FilePath, Errno, not_exist, not_directory, is_directory, exist, refused, not_empty, Node, file,
  directory, Entries, end, entry, mkdir_all, remove_at, write_at, create_at, rename_at, Call, stat,
  open_file, read, remove, mkdir, create, chmod, write, rename, Host, change, changed, look,
}

-- encoding/json and jsonutil at `fileEntry`: a value is encoded to a line that is not empty.
pub record EntryFormat : Type 0 where
  pub encode : Text → Text
  pub decode : Text → Result Error Text
  pub decode-encode : (v : Text) → decode (encode v) ≡ ok v
  pub encode-ne : (v : Text) → encode v ≢ []

-- physical.Entry
pub record Entry : Type 0 where
  pub key : Text
  pub value : Text

pub record FileBackend : Type 0 where
  pub path : FilePath

-- A request's context: what waiting for a permit answers, and what `ctx.Done` has at the `select`.
pub record Context : Type 0 where
  pub acquire : Option Error
  pub done : Option Error

abbrev pub is_name : Text → Bool
is_name w = not (is_empty w) && not (w == bytes ".")

-- filepath.Join of parts without `..`: the names that filepath.Clean leaves of them.
unfoldable pub names_of : List Text → FilePath
names_of [] = []
names_of (w ∷ ws) = let rest = names_of ws in if is_name w then w ∷ rest else rest

abbrev pub names : Text → FilePath
names k = names_of (split b'/' k)

abbrev from_conf : Option Text → Result Error FileBackend
from_conf none = err (bytes "'path' must be set")
from_conf (some p) = ok (record { path = names p })

unfoldable pub new_file_backend : (Text → Option Text) → Result Error FileBackend
new_file_backend conf = from_conf (conf (bytes "path"))

abbrev pub describe : Errno → Error
describe not_exist = bytes "no such file or directory"
describe not_directory = bytes "not a directory"
describe is_directory = bytes "is a directory"
describe not_empty = bytes "directory not empty"
describe exist = bytes "file exists"
describe (refused e) = e

-- filepath.Dir and filepath.Base
unfoldable pub dir_of : FilePath → FilePath
dir_of [] = []
dir_of (_ ∷ []) = []
dir_of (c ∷ d ∷ p) = c ∷ dir_of (d ∷ p)

unfoldable pub base_of : FilePath → Text
base_of [] = bytes "/"
base_of (c ∷ []) = c
base_of (c ∷ d ∷ p) = base_of (d ∷ p)

abbrev pub stop : Option Error → Act Error Node (Unit {0})
stop none = pure tt
stop (some e) = throw e

unfoldable pub validate_path : Text → Act Error Node (Unit {0})
validate_path k =
    if contains k (bytes "..")
    then throw (bytes "path cannot contain parent references")
    else pure tt

module _ (host : Host) (json : EntryFormat) (b : FileBackend) where
  unfoldable pub expand_path : Text → FilePath × Text
  expand_path k = let full = b.path ++ names k in (dir_of full, bytes "_" ++ base_of full)

  abbrev pub file_of : Text → FilePath
  file_of k = let (path, key) = expand_path k in path ++ key ∷ []

  abbrev unless_missing : Result Errno (Unit {0}) → Result Error (Unit {0})
  unless_missing (ok u) = ok u
  unless_missing (err not_exist) = ok tt
  unless_missing (err e) = err (describe e)

  abbrev after_read :
      FilePath → Act Error Node (Unit {0}) → Result Errno Node → Act Error Node (Unit {0})
  after_read p rest (ok (directory end)) =
      or_fail (change host remove p (remove_at p)) describe >> rest
  after_read p rest (ok (directory (entry _ _ _))) = rest
  after_read p rest (ok (file _)) = throw (describe not_directory)
  after_read p rest (err e) = throw (describe e)

  abbrev after_open :
      FilePath → Act Error Node (Unit {0}) → Result Errno Node → Act Error Node (Unit {0})
  after_open p rest (ok _) = attempt (look host read p) >>= after_read p rest
  after_open p rest (err not_exist) = pure tt
  after_open p rest (err e) = throw (describe e)

  -- The directories above a path that is gone, the lowest first, as long as they hold nothing.
  unfoldable pub cleanup_from : ℕ → List Text → Act Error Node (Unit {0})
  cleanup_from zero nodes = pure tt
  cleanup_from (suc i) nodes =
      let p = b.path ++ names_of (take_words (suc i) nodes) in
      attempt (look host open_file p) >>= after_open p (cleanup_from i nodes)

  unfoldable pub cleanup_logical_path : Text → Act Error Node (Unit {0})
  cleanup_logical_path k = let nodes = split b'/' k in cleanup_from (length nodes - 1) nodes

  unfoldable pub delete_internal : Context → Text → Act Error Node (Unit {0})
  unfolding cleanup_logical_path validate_path
  delete_internal ctx k = if is_empty k then pure tt else do
    validate_path k
    stop ctx.done
    r ← attempt (change host remove (file_of k) (remove_at (file_of k)))
    lift (unless_missing r)
    cleanup_logical_path k

  unfoldable pub delete : Context → Text → Act Error Node (Unit {0})
  delete ctx k = do stop ctx.acquire; delete_internal ctx k

  abbrev pub decoded : Context → Text → Result Errno Node → Act Error Node (Option Entry)
  decoded ctx k (ok (file t)) = do
    v ← lift (json.decode t)
    stop ctx.done
    pure (some (record { key = k; value = v }))
  decoded ctx k (ok (directory _)) = throw (describe is_directory)
  decoded ctx k (err e) = throw (describe e)

  abbrev pub opened : Context → Text → Result Errno Node → Act Error Node (Option Entry)
  opened ctx k (ok _) = attempt (look host read (file_of k)) >>= decoded ctx k
  opened ctx k (err not_exist) = pure none
  opened ctx k (err e) = throw (describe e)

  abbrev pub present : Context → Text → Act Error Node (Option Entry)
  present ctx k = attempt (look host open_file (file_of k)) >>= opened ctx k

  -- A file of size 0 is removed, and is no value.
  abbrev pub stated : Context → Text → Result Errno Node → Act Error Node (Option Entry)
  stated ctx k (ok (file [])) = do
    _ ← attempt (change host remove (file_of k) (remove_at (file_of k)))
    pure none
  stated ctx k (ok (file (_ ∷ _))) = present ctx k
  stated ctx k (ok (directory _)) = present ctx k
  stated ctx k (err _) = present ctx k

  unfoldable pub get_internal : Context → Text → Act Error Node (Option Entry)
  unfolding validate_path
  get_internal ctx k = do validate_path k; attempt (look host stat (file_of k)) >>= stated ctx k

  unfoldable pub get : Context → Text → Act Error Node (Option Entry)
  get ctx k = do stop ctx.acquire; get_internal ctx k

  abbrev pub tried :
      FilePath → Act Error Node FilePath → Result Errno (Unit {0}) → Act Error Node FilePath
  tried p again (ok _) = pure p
  tried p again (err exist) = again
  tried p again (err e) = throw (describe e)

  -- os.CreateTemp: the first name that is free.
  unfoldable pub create_temp : FilePath → Text → List Text → Act Error Node FilePath
  create_temp path key [] = throw (describe exist)
  create_temp path key (r ∷ rs) =
      let p = path ++ (key ++ r) ∷ [] in
      attempt (change host create p (create_at p)) >>= tried p (create_temp path key rs)

  abbrev broken : Node → Errno → Result Errno Node → Result Errno (Unit {0}) × Node
  broken n e (ok m) = (err e, m)
  broken n e (err x) = (err x, n)

  abbrev pub written : Option Text → FilePath → Text → Act Errno Node (Unit {0})
  written none p t n = changed n (write_at p t n)
  written (some e) p t n = broken n (refused e) (write_at p (host.partial t) n)

  abbrev pub discard : FilePath → Result Errno Node → Act Error Node (Unit {0})
  discard p (ok (file [])) = attempt (change host remove p (remove_at p)) >>= λ _. pure tt
  discard p _ = pure tt

  -- What was encoded goes to its place by a rename; after a failed write an empty file is removed.
  abbrev pub encoded : FilePath → FilePath → Result Errno (Unit {0}) → Act Error Node (Unit {0})
  encoded temp full (ok _) = or_fail (change host rename temp (rename_at temp full)) describe
  encoded temp full (err e) = do
    r ← attempt (look host stat temp)
    discard temp r
    throw (describe e)

  unfoldable pub put_internal : Context → Entry → Act Error Node (Unit {0})
  unfolding validate_path create_temp expand_path
  put_internal ctx e = do
    validate_path e.key
    let (path, key) = expand_path e.key
    stop ctx.done
    or_fail (change host mkdir path (mkdir_all path)) describe
    temp ← create_temp path key host.suffixes
    or_fail (look host chmod temp) describe
    r ← attempt (written (host.refuse write temp) temp (json.encode e.value))
    encoded temp (path ++ key ∷ []) r

  unfoldable pub put : Context → Entry → Act Error Node (Unit {0})
  put ctx e = do stop ctx.acquire; put_internal ctx e
