-- ===== src/Storage/Disk/Rename.antt =====
-- package os: what creating and renaming a file leaves alone, and that a rename takes the content along.
use signature_escrow.Common.{◌≡◌, refl, ◌∙◌, inl, inr, [], arith}
use signature_escrow.Text.{Text}
use signature_escrow.Act.{Result, ok, err, Result-cases}
use signature_escrow.Storage.Disk.{
  FilePath, Errno, not_exist, not_directory, is_directory, not_empty, exist, refused, Node, file,
  directory, node_at, remove_at, write_at, create_at, rename_at, created, moved,
}
use signature_escrow.Storage.Disk.Frame.{
  sees, content, NoPrefix, write_at-sees_ne, write_at-sees_self, remove_at-sees_ne,
}

created-write_at :
    (p : FilePath) (n m : Node) (r : Result Errno Node)
    → created p n r ≡ ok m
    → write_at p [] n ≡ ok m
created-write_at p n m (ok _) e = cc
created-write_at p n m (err not_exist) e = e
created-write_at p n m (err not_directory) e = cc
created-write_at p n m (err is_directory) e = cc
created-write_at p n m (err not_empty) e = cc
created-write_at p n m (err exist) e = cc
created-write_at p n m (err (refused _)) e = cc

pub create_at-sees_ne :
    (p q : FilePath) (n m : Node) → NoPrefix p q → create_at p n ≡ ok m → sees q m ≡ sees q n
unfolding create_at
create_at-sees_ne p q n m far e =
    write_at-sees_ne p q [] n m far (created-write_at p n m (node_at p n) e)

-- The steps of a rename: the file that was there, the tree without it, and the write.
Moved : FilePath → FilePath → Node → Result Errno Node → Node → Type 0
Moved p q n r m =
    (t : Text) × (a : Node) × (r ≡ ok (file t)) × (remove_at p n ≡ ok a) × (write_at q t a ≡ ok m)

moved-steps :
    (p q : FilePath) (n m : Node) (r : Result Errno Node) → moved p q n r ≡ ok m → Moved p q n r m
unfolding Moved
moved-steps p q n m (ok (file t)) e = elim (Result-cases (remove_at p n)) [
  | inl (a, e') ↦ (t, a, refl, e', ground (arith, e, e'))
  | inr (x, e') ↦ ground (arith, e, e')
]
moved-steps p q n m (ok (directory _)) e = cc
moved-steps p q n m (err _) e = cc

pub rename_at-sees_ne :
    (p p' q : FilePath) (n m : Node)
    → NoPrefix p q
    → NoPrefix p' q
    → rename_at p p' n ≡ ok m
    → sees q m ≡ sees q n
unfolding rename_at Moved
rename_at-sees_ne p p' q n m far far' e =
    let (t, a, _, gone, back) = moved-steps p p' n m (node_at p n) e in
    write_at-sees_ne p' q t a m far' back ∙ remove_at-sees_ne p q n a far gone

pub rename_at-sees_self :
    (p p' : FilePath) (t : Text) (n m : Node)
    → sees p n ≡ ok (content t)
    → rename_at p p' n ≡ ok m
    → sees p' m ≡ ok (content t)
unfolding rename_at Moved
rename_at-sees_self p p' t n m here e =
    let (u, a, was, _, back) = moved-steps p p' n m (node_at p n) e in
    write_at-sees_self p' u a m back ∙ cc (here, was)
