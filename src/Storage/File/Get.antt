-- ===== src/Storage/File/Get.antt =====
-- storage/file/file.go, storage/storage.go: what `Get` makes of what there is under its key.
use signature_escrow.Common.{◌≡◌, none, some, false, arith}
use signature_escrow.Text.{Text, bytes}
use signature_escrow.Text.Split.{contains}
use signature_escrow.Act.{Result, ok, err}
use signature_escrow.Storage.Disk.{
  FilePath, Errno, not_exist, Node, file, directory, node_at, stat, open_file, read, Host,
}
use signature_escrow.Storage.Disk.Frame.{sees, content, seen}
use signature_escrow.Storage.File.{
  EntryFormat, Entry, FileBackend, Context, stop, validate_path, file_of, stated, opened, decoded,
  get_internal, present,
}
use signature_escrow.Storage.File
use signature_escrow.Storage.File.Store

-- A request that is not given up.
abbrev pub background : Context
background = record { acquire = none; done = none }

-- The host lets the program read its files.
unfoldable pub IsReadable : Host → Type 0
IsReadable host =
    (p : FilePath)
    → (host.refuse open_file p ≡ none) × (host.refuse read p ≡ none) × (host.refuse stat p ≡ none)

seen_content : (r : Result Errno Node) (t : Text) → seen r ≡ ok (content t) → r ≡ ok (file t)
seen_content (ok (file u)) t e = ground arith
seen_content (ok (directory _)) t e = cc
seen_content (err x) t e = cc

seen_missing : (r : Result Errno Node) → seen r ≡ err not_exist → r ≡ err not_exist
seen_missing (ok (file u)) e = cc
seen_missing (ok (directory _)) e = cc
seen_missing (err x) e = ground arith

module _ (host : Host) (json : EntryFormat) (b : FileBackend) (k : Text) (s : Node) where
  pub get_of_content :
      (v : Text)
      → IsReadable host
      → contains k (bytes "..") ≡ false
      → sees (file_of host json b k) s ≡ ok (content (json.encode v))
      → Store.get host json b background k s ≡ (ok (some v), s)
  unfolding Store.get File.get get_internal validate_path IsReadable
  get_of_content v readable plain here =
      let p : FilePath = file_of host json b k in
      ground (
        arith,
        readable p,
        seen_content (node_at p s) (json.encode v) here,
        json.encode-ne v,
        json.decode-encode v,
      )

  pub get_of_missing :
      IsReadable host
      → contains k (bytes "..") ≡ false
      → sees (file_of host json b k) s ≡ err not_exist
      → Store.get host json b background k s ≡ (ok none, s)
  unfolding Store.get File.get get_internal validate_path IsReadable
  get_of_missing readable plain here =
      let p : FilePath = file_of host json b k in
      ground (arith, readable p, seen_missing (node_at p s) here)
