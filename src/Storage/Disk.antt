-- ===== src/Storage/Disk.antt =====
-- What storage/file/file.go uses of package `os`: a tree of directories and files, and the calls
-- that read and change it. A path is the list of its names from the top.
pub mod Frame
pub mod Rename
pub mod Missing
use signature_escrow.Common.{
  ◌≡◌, Option, none, some, Bool, true, false, List, [], ◌∷◌, ◌++◌, if◌then◌else◌,
}
use signature_escrow.Text.{Text, ◌==◌, is_empty}
use signature_escrow.Act.{Result, ok, err, Act}

abbrev pub FilePath : Type 0
FilePath = List Text

-- The errors of the calls; `refused` is whatever else the host answers (permissions, a full disk).
pub data Errno : Type 0 where
  not_exist : Errno
  not_directory : Errno
  is_directory : Errno
  not_empty : Errno
  exist : Errno
  refused : Text → Errno

mutual
  pub data Node : Type 0 where
    file : Text → Node
    directory : Entries → Node

  pub data Entries : Type 0 where
    end : Entries
    entry : Text → Node → Entries → Entries

unfoldable pub find : Text → Entries → Result Errno Node
find c end = err not_exist
find c (entry d n es) = if d == c then ok n else find c es

unfoldable pub erase : Text → Entries → Entries
erase c end = end
erase c (entry d n es) = let rest = erase c es in if d == c then rest else entry d n rest

abbrev pub bind : Text → Node → Entries → Entries
bind c n es = entry c n (erase c es)

abbrev pub in_directory : (Entries → Result Errno Entries) → Node → Result Errno Node
in_directory f (file _) = err not_directory
in_directory f (directory es) = elim (f es) [ ok fs ↦ ok (directory fs) | err e ↦ err e ]

-- The node that a path leads to.
unfoldable pub node_at : FilePath → Node → Result Errno Node
node_at [] n = ok n
node_at (c ∷ p) (file _) = err not_directory
node_at (c ∷ p) (directory es) = elim (find c es) [ ok n ↦ node_at p n | err e ↦ err e ]

abbrev pub rebound : Text → Entries → Result Errno Node → Result Errno Node
rebound c es (ok n) = ok (directory (bind c n es))
rebound c es (err e) = err e

-- A change below the entry of a name.
abbrev pub below : Text → Entries → (Node → Result Errno Node) → Result Errno Node
below c es f = elim (find c es) [ ok n ↦ rebound c es (f n) | err e ↦ err e ]

abbrev pub found_or_new : Result Errno Node → Node
found_or_new (ok n) = n
found_or_new (err _) = directory end

-- os.MkdirAll
unfoldable pub mkdir_all : FilePath → Node → Result Errno Node
mkdir_all _ (file _) = err not_directory
mkdir_all [] (directory es) = ok (directory es)
mkdir_all (c ∷ p) (directory es) = rebound c es (mkdir_all p (found_or_new (find c es)))

abbrev pub removed : Text → Entries → Result Errno Node → Result Errno Node
removed c es (ok (directory (entry _ _ _))) = err not_empty
removed c es (ok (directory end)) = ok (directory (erase c es))
removed c es (ok (file _)) = ok (directory (erase c es))
removed c es (err e) = err e

-- os.Remove: a file, or a directory that holds nothing.
unfoldable pub remove_at : FilePath → Node → Result Errno Node
remove_at [] n = err is_directory
remove_at (c ∷ p) (file _) = err not_directory
remove_at (c ∷ []) (directory es) = removed c es (find c es)
remove_at (c ∷ d ∷ p) (directory es) = below c es (λ n. remove_at (d ∷ p) n)

abbrev pub replaced : Text → Text → Entries → Result Errno Node → Result Errno Node
replaced t c es (ok (directory _)) = err is_directory
replaced t c es (ok (file _)) = ok (directory (bind c (file t) es))
replaced t c es (err _) = ok (directory (bind c (file t) es))

-- A file with this content under the path, in place of a file that is there.
unfoldable pub write_at : FilePath → Text → Node → Result Errno Node
write_at [] t n = err is_directory
write_at (c ∷ p) t (file _) = err not_directory
write_at (c ∷ []) t (directory es) = replaced t c es (find c es)
write_at (c ∷ d ∷ p) t (directory es) = below c es (λ n. write_at (d ∷ p) t n)

-- os.OpenFile with O_CREATE and O_EXCL: an empty file where there was nothing.
abbrev pub created : FilePath → Node → Result Errno Node → Result Errno Node
created p n (ok _) = err exist
created p n (err not_exist) = write_at p [] n
created p n (err e) = err e

unfoldable pub create_at : FilePath → Node → Result Errno Node
create_at p n = created p n (node_at p n)

abbrev pub moved_to : FilePath → Text → Result Errno Node → Result Errno Node
moved_to q t (ok n) = write_at q t n
moved_to q t (err e) = err e

abbrev pub moved : FilePath → FilePath → Node → Result Errno Node → Result Errno Node
moved p q n (ok (file t)) = moved_to q t (remove_at p n)
moved p q n (ok (directory _)) = err is_directory
moved p q n (err e) = err e

-- os.Rename of a file.
unfoldable pub rename_at : FilePath → FilePath → Node → Result Errno Node
rename_at p q n = moved p q n (node_at p n)

pub data Call : Type 0 where
  stat : Call
  open_file : Call
  read : Call
  remove : Call
  mkdir : Call
  create : Call
  chmod : Call
  write : Call
  rename : Call

-- The host that the program runs on: the calls it refuses and with what error, what a failing write
-- leaves in the file, and the random parts that os.CreateTemp tries.
pub record Host : Type 0 where
  pub refuse : Call → FilePath → Option Text
  pub partial : Text → Text
  pub suffixes : List Text

abbrev pub changed : Node → Result Errno Node → Result Errno (Unit {0}) × Node
changed n (ok m) = (ok tt, m)
changed n (err e) = (err e, n)

module _ (host : Host) where
  abbrev unless {ℓ} : {A : Type ℓ} → Option Text → (Node → A) → (Errno → Node → A) → Node → A
  unless none act fail n = act n
  unless (some e) act fail n = fail (refused e) n

  -- A call that changes the tree, or is refused.
  abbrev pub change : Call → FilePath → (Node → Result Errno Node) → Act Errno Node (Unit {0})
  change call p f = unless (host.refuse call p) (λ n. changed n (f n)) (λ e n. (err e, n))

  -- A call that looks at the node of a path.
  abbrev pub look : Call → FilePath → Act Errno Node Node
  look call p = unless (host.refuse call p) (λ n. (node_at p n, n)) (λ e n. (err e, n))
