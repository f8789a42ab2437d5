-- ===== src/Storage/File/Refuses.antt =====
-- storage/file/file.go: `validatePath` at every operation.
use signature_escrow.Text.{Text, bytes}
use signature_escrow.Storage.{Error}
use signature_escrow.Storage.File
use signature_escrow.Storage.File.Store

abbrev pub parent_references : Error
parent_references = bytes "path cannot contain parent references"
