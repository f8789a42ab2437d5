-- ===== src/Storage/File/Run.antt =====
-- storage/storage.go: sequences of calls of the file storage, and what they may do to a map.
use signature_escrow.Common.{Option, none, some, List, [], ◌∷◌}
use signature_escrow.Text.{Text}
use signature_escrow.Act.{Result, ok, err}
use signature_escrow.Storage.{Error}
use signature_escrow.Storage.Memory.{Values, assign}
use signature_escrow.Storage.Disk.{Node, Host}
use signature_escrow.Storage.File.{EntryFormat, FileBackend}
use signature_escrow.Storage.File.Get.{background}
use signature_escrow.Storage.File.Store

pub data Command : Type 0 where
  put : Text → Text → Command
  get : Text → Command
  delete : Text → Command

pub data Answer : Type 0 where
  done : Result Error (Unit {0}) → Answer
  found : Result Error (Option Text) → Answer

abbrev pub key_of : Command → Text
key_of (put k v) = k
key_of (get k) = k
key_of (delete k) = k

-- What a command may answer and do, seen as a map: a `Put` that fails has replaced nothing, and a
-- `Delete` that fails may have removed the value or not.
pub data Step : Values Text → Command → Answer → Values Text → Type 0 where
  stored : {m : Values Text} (k v : Text) → Step m (put k v) (done (ok tt)) (assign k (some v) m)
  not_stored : {m : Values Text} (k v : Text) (e : Error) → Step m (put k v) (done (err e)) m
  got : {m : Values Text} (k : Text) → Step m (get k) (found (ok (m k))) m
  deleted : {m : Values Text} (k : Text) → Step m (delete k) (done (ok tt)) (assign k none m)
  not_deleted : {m : Values Text} (k : Text) (e : Error) → Step m (delete k) (done (err e)) m
  half_deleted :
      {m : Values Text} (k : Text) (e : Error) → Step m (delete k) (done (err e)) (assign k none m)

-- Steps one after the other.
pub data Steps : Values Text → List Command → List Answer → Values Text → Type 0 where
  no_step : {m : Values Text} → Steps m [] [] m
  step :
      {m m' m'' : Values Text} {c : Command} {cs : List Command} {a : Answer}
      {answers : List Answer}
      → Step m c a m'
      → Steps m' cs answers m''
      → Steps m (c ∷ cs) (a ∷ answers) m''

module _ (host : Host) (json : EntryFormat) (b : FileBackend) where
  -- The commands as the file storage runs them.
  unfoldable pub execute : Command → Node → Answer × Node
  execute (put k v) s = let (r, s') = Store.put host json b background k v s in (done r, s')
  execute (get k) s = let (r, s') = Store.get host json b background k s in (found r, s')
  execute (delete k) s = let (r, s') = Store.delete host json b background k s in (done r, s')

  unfoldable pub execute_all : List Command → Node → List Answer × Node
  execute_all [] s = ([], s)
  execute_all (c ∷ cs) s =
      let (a, s') = execute c s in let (answers, s'') = execute_all cs s' in (a ∷ answers, s'')
