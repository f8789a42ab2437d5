-- ===== src/Storage/Disk/Missing.antt =====
-- package os: what the error for a missing path says of the tree.
use signature_escrow.Common.{◌≡◌, inl, inr, [], ◌∷◌, arith}
use signature_escrow.Text.{Text}
use signature_escrow.Act.{Result, ok, err, Result-cases}
use signature_escrow.Storage.Disk.{
  FilePath, Errno, not_exist, Node, file, directory, Entries, end, entry, find, node_at, remove_at,
  removed,
}
use signature_escrow.Storage.Disk.Frame.{sees}

removed_missing :
    (c : Text) (es : Entries) (r : Result Errno Node)
    → removed c es r ≡ err not_exist
    → r ≡ err not_exist
removed_missing c es (ok (file _)) e = cc
removed_missing c es (ok (directory end)) e = cc
removed_missing c es (ok (directory (entry _ _ _))) e = cc
removed_missing c es (err x) e = ground arith

-- os.Remove answers that there is nothing only where there is nothing.
pub remove_at_missing :
    (p : FilePath) (n : Node) → remove_at p n ≡ err not_exist → sees p n ≡ err not_exist
unfolding remove_at node_at
remove_at_missing [] n e = cc
remove_at_missing (c ∷ []) (file _) e = cc
remove_at_missing (c ∷ _ ∷ _) (file _) e = cc
remove_at_missing (c ∷ []) (directory es) e = ground (arith, removed_missing c es (find c es) e)
remove_at_missing (c ∷ d ∷ p) (directory es) e = elim (Result-cases (find c es)) [
  | inl (a, e') ↦ elim (Result-cases (remove_at (d ∷ p) a)) [
    | inl (m, e'') ↦ ground (arith, e, e', e'')
    | inr (x, e'') ↦ ground (arith, e, e', e'', remove_at_missing (d ∷ p) a)
  ]
  | inr (x, e') ↦ ground (arith, e, e')
]
