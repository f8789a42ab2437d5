-- ===== src/Storage/File/Delete.antt =====
-- storage/file/file.go: what `Delete` leaves under its own key, and under the others.
use signature_escrow.Common.{
  ◌≡◌, ◌≢◌, refl, ◌∙◌, ◌⊎◌, inl, inr, Option-cases, ℕ, zero, suc, ◌-◌, length, List, [], ◌∷◌, ◌++◌,
  arith,
}
use signature_escrow.Text.{Text}
use signature_escrow.Text.Split.{split, take_words}
use signature_escrow.Act.{Result, ok, err, Act, lift, ◌>>=◌, attempt, Result-cases}
use signature_escrow.Storage.{Error}
use signature_escrow.Storage.Disk.{
  FilePath, Errno, not_exist, not_directory, is_directory, not_empty, exist, refused, Node, file,
  directory, end, entry, node_at, remove_at, Call, read, open_file, remove, Host, change, look,
}
use signature_escrow.Storage.Disk.Frame.{
  sees, NoPrefix, remove_at-sees_ne, remove_at-sees_self, remove_at-sees_empty,
}
use signature_escrow.Storage.Disk.Missing.{remove_at_missing}
use signature_escrow.Storage.File.{
  EntryFormat, FileBackend, Context, stop, validate_path, file_of, names_of, after_read, after_open,
  cleanup_from, cleanup_logical_path, unless_missing, delete_internal, delete,
}
use signature_escrow.Storage.File.Keeps.{
  KeepsOnError, KeepsOnError-change, Keeps, Keeps-bind, Keeps-attempt, Keeps-look, Keeps-change,
  change-sees, Keeps-pure, Keeps-lift, Keeps-throw, Keeps-stop, Keeps-validate_path, Leaves,
  Leaves-bind,
}

look-node_at :
    (host : Host) (call : Call) (p : FilePath) (s n : Node)
    → (look host call p s).0 ≡ ok n
    → node_at p (look host call p s).1 ≡ ok n
look-node_at host call p s n e = elim (Option-cases (host.refuse call p)) [
  | inl e' ↦ ground (arith, e, e')
  | inr (x, e') ↦ ground (arith, e, e')
]

module _ (host : Host) (json : EntryFormat) (b : FileBackend) (q : FilePath) where
  after_read-sees :
      (p : FilePath) (rest : Act Error Node (Unit {0})) (r : Result Errno Node) (s : Node)
      → q ≢ p
      → Keeps q rest
      → ((n : Node) → r ≡ ok n → node_at p s ≡ ok n)
      → sees q (after_read host json b p rest r s).1 ≡ sees q s
  unfolding Keeps
  after_read-sees p rest (ok (file _)) s ne keep here = refl
  after_read-sees p rest (err e) s ne keep here = refl
  after_read-sees p rest (ok (directory (entry _ _ _))) s ne keep here = keep s
  after_read-sees p rest (ok (directory end)) s ne keep here =
      let same =
        change-sees host q remove p (remove_at p) s
          (λ m. remove_at-sees_empty p q s m (here (directory end) refl) ne) in
      elim (Result-cases (change host remove p (remove_at p) s).0) [
        | inl (u, e) ↦ ground (arith, e, keep (change host remove p (remove_at p) s).1, same)
        | inr (x, e) ↦ ground (arith, e, same)
      ]

  read-Keeps :
      (p : FilePath) (rest : Act Error Node (Unit {0}))
      → q ≢ p
      → Keeps q rest
      → Keeps q (attempt (look host read p) >>= after_read host json b p rest)
  unfolding Keeps
  read-Keeps p rest ne keep s =
      after_read-sees p rest (look host read p s).0 (look host read p s).1 ne keep
        (look-node_at host read p s)
      ∙ Keeps-look host q read p s

  after_open-Keeps :
      (p : FilePath) (rest : Act Error Node (Unit {0})) (r : Result Errno Node)
      → q ≢ p
      → Keeps q rest
      → Keeps q (after_open host json b p rest r)
  after_open-Keeps p rest (ok _) ne keep = read-Keeps p rest ne keep
  after_open-Keeps p rest (err not_exist) ne keep = Keeps-pure q tt
  after_open-Keeps p rest (err not_directory) ne keep = Keeps-throw (Unit {0}) q _
  after_open-Keeps p rest (err is_directory) ne keep = Keeps-throw (Unit {0}) q _
  after_open-Keeps p rest (err not_empty) ne keep = Keeps-throw (Unit {0}) q _
  after_open-Keeps p rest (err exist) ne keep = Keeps-throw (Unit {0}) q _
  after_open-Keeps p rest (err (refused _)) ne keep = Keeps-throw (Unit {0}) q _

  cleanup_from-Keeps :
      (i : ℕ) (nodes : List Text)
      → ((j : ℕ) → q ≢ b.path ++ names_of (take_words (suc j) nodes))
      → Keeps q (cleanup_from host json b i nodes)
  unfolding cleanup_from
  cleanup_from-Keeps zero nodes ne = Keeps-pure q tt
  cleanup_from-Keeps (suc i) nodes ne =
      let p : FilePath = b.path ++ names_of (take_words (suc i) nodes) in
      Keeps-bind q (attempt (look host open_file p))
        (after_open host json b p (cleanup_from host json b i nodes))
        (Keeps-attempt Error q _ (Keeps-look host q open_file p))
        (λ r. after_open-Keeps p _ r (ne i) (cleanup_from-Keeps i nodes ne))

  cleanup-Keeps :
      (k : Text)
      → ((j : ℕ) → q ≢ b.path ++ names_of (take_words (suc j) (split b'/' k)))
      → Keeps q (cleanup_logical_path host json b k)
  unfolding cleanup_logical_path
  cleanup-Keeps k ne = cleanup_from-Keeps (length (split b'/' k) - 1) (split b'/' k) ne

  pub delete-Keeps :
      (ctx : Context) (k : Text)
      → NoPrefix (file_of host json b k) q
      → ((j : ℕ) → q ≢ b.path ++ names_of (take_words (suc j) (split b'/' k)))
      → Keeps q (delete host json b ctx k)
  unfolding delete delete_internal
  delete-Keeps ctx [] far ne =
      Keeps-bind q (stop ctx.acquire) _ (Keeps-stop q ctx.acquire) (λ _. Keeps-pure q tt)
  delete-Keeps ctx (c ∷ k) far ne =
      let p : FilePath = file_of host json b (c ∷ k) in
      Keeps-bind q (stop ctx.acquire) _ (Keeps-stop q ctx.acquire) (λ _.
        Keeps-bind q (validate_path (c ∷ k)) _ (Keeps-validate_path q (c ∷ k)) (λ _.
          Keeps-bind q (stop ctx.done) _ (Keeps-stop q ctx.done) (λ _.
            Keeps-bind q (attempt (change host remove p (remove_at p))) _
              (Keeps-attempt Error q _
                (Keeps-change host q remove p _ (λ n m. remove_at-sees_ne p q n m far)))
              (λ r.
                Keeps-bind q (lift (unless_missing host json b r)) _ (Keeps-lift q _)
                  (λ _. cleanup-Keeps (c ∷ k) ne)))))

  -- An answer that is no error: the file is gone, or there was none.
  change-removes :
      (u : Unit {0}) (s : Node)
      → unless_missing host json b (change host remove q (remove_at q) s).0 ≡ ok u
      → sees q (change host remove q (remove_at q) s).1 ≡ err not_exist
  change-removes u s e = elim (Option-cases (host.refuse remove q)) [
    | inl e' ↦ elim (Result-cases (remove_at q s)) [
      | inl (m, e'') ↦ ground (arith, e', e'', remove_at-sees_self q s m e'')
      | inr (x, e'') ↦ ground (arith, e, e', e'', remove_at_missing q s)
    ]
    | inr (x, e') ↦ ground (arith, e, e')
  ]

  Leaves-removal :
      (k : Text)
      → ((j : ℕ) → q ≢ b.path ++ names_of (take_words (suc j) (split b'/' k)))
      → Leaves q (err not_exist) (
          attempt (change host remove q (remove_at q)) >>= λ r.
          lift (unless_missing host json b r) >>= λ _. cleanup_logical_path host json b k)
  unfolding Leaves Keeps
  Leaves-removal k ne s a done =
      let s' : Node = (change host remove q (remove_at q) s).1 in
      elim (Result-cases (unless_missing host json b (change host remove q (remove_at q) s).0)) [
        | inl (u, e) ↦ ground (arith, e, cleanup-Keeps k ne s', change-removes u s e)
        | inr (x, e) ↦ ground (arith, e, done)
      ]

-- The file of the key is gone, and stays gone while the directories above it are cleaned up.
pub delete-Leaves :
    (host : Host) (json : EntryFormat) (b : FileBackend) (ctx : Context) (c : ℕ) (k : Text)
    → ((j : ℕ)
        → file_of host json b (c ∷ k)
          ≢ b.path ++ names_of (take_words (suc j) (split b'/' (c ∷ k))))
    → Leaves (file_of host json b (c ∷ k)) (err not_exist) (delete host json b ctx (c ∷ k))
unfolding delete delete_internal
delete-Leaves host json b ctx c k ne =
    let p : FilePath = file_of host json b (c ∷ k) in
    Leaves-bind p _ (stop ctx.acquire) _ (λ _.
      Leaves-bind p _ (validate_path (c ∷ k)) _
        (λ _. Leaves-bind p _ (stop ctx.done) _ (λ _. Leaves-removal host json b p (c ∷ k) ne)))

-- Whether it fails or not, `Delete` leaves the file as it was or gone.
module _ (host : Host) (json : EntryFormat) (b : FileBackend) (q : FilePath) where
  abbrev KeepsOrGone : Act Error Node (Unit {0}) → Type 0
  KeepsOrGone m = (s : Node) → (sees q (m s).1 ≡ sees q s) ⊎ (sees q (m s).1 ≡ err not_exist)

  KeepsOrGone-bind :
      {A : Type 0} (m : Act Error Node A) (f : A → Act Error Node (Unit {0}))
      → Keeps q m
      → ((a : A) → KeepsOrGone (f a))
      → KeepsOrGone (m >>= f)
  unfolding Keeps
  KeepsOrGone-bind m f h k s = elim (Result-cases (m s).0) [
    | inl (a, e) ↦ ground (arith, e, h s, k a (m s).1)
    | inr (x, e) ↦ ground (arith, e, h s)
  ]

  unless_missing-err :
      (r : Result Errno (Unit {0})) (x : Error)
      → unless_missing host json b r ≡ err x
      → (e : Errno) × (r ≡ err e)
  unless_missing-err (ok _) x h = cc
  unless_missing-err (err e) x h = (e, refl)

  KeepsOrGone-removal :
      (k : Text)
      → ((j : ℕ) → q ≢ b.path ++ names_of (take_words (suc j) (split b'/' k)))
      → KeepsOrGone (
          attempt (change host remove q (remove_at q)) >>= λ r.
          lift (unless_missing host json b r) >>= λ _. cleanup_logical_path host json b k)
  unfolding Keeps KeepsOnError
  KeepsOrGone-removal k ne s =
      let s' : Node = (change host remove q (remove_at q) s).1 in
      elim (Result-cases (unless_missing host json b (change host remove q (remove_at q) s).0)) [
        | inl (u, e) ↦ inr (
            ground
              (arith, e, cleanup-Keeps host json b q k ne s', change-removes host json b q u s e))
        | inr (x, e) ↦
            let (e', failed) = unless_missing-err (change host remove q (remove_at q) s).0 x e in
            inl (ground (arith, e, KeepsOnError-change host q remove q (remove_at q) s e' failed))
      ]

pub delete-cases :
    (host : Host) (json : EntryFormat) (b : FileBackend) (ctx : Context) (k : Text) (s : Node)
    → ((j : ℕ) → file_of host json b k ≢ b.path ++ names_of (take_words (suc j) (split b'/' k)))
    → (sees (file_of host json b k) (delete host json b ctx k s).1 ≡ sees (file_of host json b k) s)
      ⊎ (sees (file_of host json b k) (delete host json b ctx k s).1 ≡ err not_exist)
unfolding delete delete_internal Keeps
delete-cases host json b ctx [] s ne =
    inl (Keeps-bind _ (stop ctx.acquire) _ (Keeps-stop _ ctx.acquire) (λ _. Keeps-pure _ tt) s)
delete-cases host json b ctx (c ∷ k) s ne =
    let q : FilePath = file_of host json b (c ∷ k) in
    KeepsOrGone-bind host json b q (stop ctx.acquire) _ (Keeps-stop q ctx.acquire)
      (λ _.
        KeepsOrGone-bind host json b q (validate_path (c ∷ k)) _ (Keeps-validate_path q (c ∷ k))
          (λ _.
            KeepsOrGone-bind host json b q (stop ctx.done) _ (Keeps-stop q ctx.done)
              (λ _. KeepsOrGone-removal host json b q (c ∷ k) ne)))
      s
