-- ===== src/Storage/Disk/Frame.antt =====
-- package os: which paths the calls leave alone, and what they leave at their own path.
use signature_escrow.Common.{◌≡◌, ◌≢◌, refl, sym, ap, ◌∙◌, inl, inr, [], ◌∷◌, arith}
use signature_escrow.Text.{Text, ==_iff, ==_refl, Text-cases}
use signature_escrow.Act.{Result, ok, err, Result-cases}
use signature_escrow.Storage.Disk.{
  FilePath, Errno, not_exist, Node, file, directory, Entries, end, entry, find, erase, bind, below,
  replaced, removed, found_or_new, node_at, mkdir_all, remove_at, write_at,
}

-- What a program that opens the path gets to see: the content of a file, or that it is a directory.
pub data Seen : Type 0 where
  content : Text → Seen
  a_directory : Seen

abbrev pub seen : Result Errno Node → Result Errno Seen
seen (ok (file t)) = ok (content t)
seen (ok (directory _)) = ok a_directory
seen (err e) = err e

abbrev pub sees : FilePath → Node → Result Errno Seen
sees p n = seen (node_at p n)

-- The first path is no beginning of the second.
unfoldable pub NoPrefix : FilePath → FilePath → Type 0
NoPrefix [] q = ⊥
NoPrefix (c ∷ p) [] = Unit {0}
NoPrefix (c ∷ p) (d ∷ q) = d ≡ c → NoPrefix p q

pub find-erase_ne : (c d : Text) (es : Entries) → d ≢ c → find d (erase c es) ≡ find d es
unfolding find erase
find-erase_ne c d end h = refl
find-erase_ne c d (entry x n es) h = ground (arith, find-erase_ne c d es h, ==_iff x c, ==_iff x d)

pub find-erase_self : (c : Text) (es : Entries) → find c (erase c es) ≡ err not_exist
unfolding find erase
find-erase_self c end = refl
find-erase_self c (entry x n es) = ground (arith, find-erase_self c es, ==_iff x c)

pub find-bind_ne : (c d : Text) (n : Node) (es : Entries) → d ≢ c → find d (bind c n es) ≡ find d es
unfolding find
find-bind_ne c d n es h = ground (arith, find-erase_ne c d es h, ==_iff c d)

pub find-bind_self : (c : Text) (n : Node) (es : Entries) → find c (bind c n es) ≡ ok n
unfolding find
find-bind_self c n es = ground (arith, ==_refl c)

through : FilePath → Result Errno Node → Result Errno Seen
unfolding node_at
through q (ok n) = sees q n
through q (err e) = err e

sees-step :
    (d : Text) (q : FilePath) (es : Entries) → sees (d ∷ q) (directory es) ≡ through q (find d es)
unfolding node_at through
sees-step d q es = ground (arith, Result-cases (find d es))

-- What lies behind a name depends on the entry of that name alone.
sees-bind_ne :
    (c d : Text) (q : FilePath) (m : Node) (es : Entries)
    → d ≢ c
    → sees (d ∷ q) (directory (bind c m es)) ≡ sees (d ∷ q) (directory es)
sees-bind_ne c d q m es h =
    sees-step d q (bind c m es) ∙ ap (through q) (find-bind_ne c d m es h) ∙ sym (sees-step d q es)

sees_of_find :
    (c : Text) (q : FilePath) (n : Node) (es : Entries)
    → find c es ≡ ok n
    → sees (c ∷ q) (directory es) ≡ sees q n
unfolding through
sees_of_find c q n es e = sees-step c q es ∙ ap (through q) e

sees-bind_self :
    (c : Text) (q : FilePath) (m : Node) (es : Entries)
    → sees (c ∷ q) (directory (bind c m es)) ≡ sees q m
sees-bind_self c q m es = sees_of_find c q m (bind c m es) (find-bind_self c m es)

-- A change below a name, as two nodes and the change between them.
Below : Text → Entries → (Node → Result Errno Node) → Node → Type 0
Below c es f m =
    (a : Node) × (b : Node) × (find c es ≡ ok a) × (f a ≡ ok b) × (m ≡ directory (bind c b es))

below-cases :
    (c : Text) (es : Entries) (f : Node → Result Errno Node) (m : Node)
    → below c es f ≡ ok m
    → Below c es f m
unfolding Below
below-cases c es f m h = elim (Result-cases (find c es)) [
  | inl (a, e) ↦ elim (Result-cases (f a)) [
    | inl (b, e') ↦ (a, b, e, e', ground arith)
    | inr (x, e') ↦ ground arith
  ]
  | inr (x, e) ↦ ground arith
]

-- What a change below a name leaves as it was, given what it leaves there.
sees-Below :
    (c d : Text) (q : FilePath) (es : Entries) (f : Node → Result Errno Node) (m : Node)
    → Below c es f m
    → (d ≡ c → (a b : Node) → find c es ≡ ok a → f a ≡ ok b → sees q b ≡ sees q a)
    → sees (d ∷ q) m ≡ sees (d ∷ q) (directory es)
unfolding Below
sees-Below c d q es f m (a, b, e, e', done) same = elim (Text-cases d c) [
  | inl h ↦ cc (h, done, sees-bind_self c q b es, same h a b e e', sees_of_find c q a es e)
  | inr h ↦ cc (done, sees-bind_ne c d q b es h)
]

-- A node that is bound in place of the old one, where both look the same.
sees_of_bind :
    (c d : Text) (q : FilePath) (es : Entries) (b : Node) (m : Node)
    → m ≡ directory (bind c b es)
    → (d ≡ c → sees q b ≡ through q (find c es))
    → sees (d ∷ q) m ≡ sees (d ∷ q) (directory es)
sees_of_bind c d q es b m done same = elim (Text-cases d c) [
  | inl h ↦ cc (h, done, sees-bind_self c q b es, same h, sees-step c q es)
  | inr h ↦ cc (done, sees-bind_ne c d q b es h)
]

replaced-bind :
    (t : Text) (c : Text) (es : Entries) (m : Node) (r : Result Errno Node)
    → replaced t c es r ≡ ok m
    → m ≡ directory (bind c (file t) es)
replaced-bind t c es m (ok (file _)) e = ground arith
replaced-bind t c es m (ok (directory _)) e = cc
replaced-bind t c es m (err _) e = ground arith

sees_top :
    (es : Entries) (c : Text) (f : Node → Result Errno Node) (m : Node)
    → Below c es f m
    → sees [] m ≡ sees [] (directory es)
unfolding Below node_at
sees_top es c f m (a, b, e, e', done) = cc (done)

pub write_at-sees_ne :
    (p q : FilePath) (t : Text) (n m : Node)
    → NoPrefix p q
    → write_at p t n ≡ ok m
    → sees q m ≡ sees q n
unfolding write_at NoPrefix node_at
write_at-sees_ne [] q t n m far e = absurd far
write_at-sees_ne (c ∷ []) q t (file _) m far e = cc
write_at-sees_ne (c ∷ _ ∷ _) q t (file _) m far e = cc
write_at-sees_ne (c ∷ []) [] t (directory es) m far e = cc (replaced-bind t c es m _ e)
write_at-sees_ne (c ∷ x ∷ p) [] t (directory es) m far e =
    sees_top es c _ m (below-cases c es _ m e)
write_at-sees_ne (c ∷ []) (d ∷ q) t (directory es) m far e =
    sees_of_bind c d q es (file t) m (replaced-bind t c es m _ e) (λ h. absurd (far h))
write_at-sees_ne (c ∷ x ∷ p) (d ∷ q) t (directory es) m far e =
    sees-Below c d q es _ m (below-cases c es _ m e)
      (λ h a b here' e'. write_at-sees_ne (x ∷ p) q t a b (far h) e')

pub write_at-sees_self :
    (p : FilePath) (t : Text) (n m : Node) → write_at p t n ≡ ok m → sees p m ≡ ok (content t)
unfolding write_at Below node_at
write_at-sees_self [] t n m e = cc
write_at-sees_self (c ∷ []) t (file _) m e = cc
write_at-sees_self (c ∷ _ ∷ _) t (file _) m e = cc
write_at-sees_self (c ∷ []) t (directory es) m e =
    ap (sees (c ∷ [])) (replaced-bind t c es m _ e) ∙ sees-bind_self c [] (file t) es
write_at-sees_self (c ∷ x ∷ p) t (directory es) m e =
    let (_, b, _, e', done) = below-cases c es _ m e in
    ap (sees (c ∷ x ∷ p)) done ∙ sees-bind_self c (x ∷ p) b es ∙ write_at-sees_self (x ∷ p) t _ b e'

removed-erase :
    (c : Text) (es : Entries) (m : Node) (r : Result Errno Node)
    → removed c es r ≡ ok m
    → m ≡ directory (erase c es)
removed-erase c es m (ok (file _)) e = ground arith
removed-erase c es m (ok (directory end)) e = ground arith
removed-erase c es m (ok (directory (entry _ _ _))) e = cc
removed-erase c es m (err _) e = cc

sees-erase_ne :
    (c d : Text) (q : FilePath) (es : Entries)
    → d ≢ c
    → sees (d ∷ q) (directory (erase c es)) ≡ sees (d ∷ q) (directory es)
sees-erase_ne c d q es h =
    sees-step d q (erase c es) ∙ ap (through q) (find-erase_ne c d es h) ∙ sym (sees-step d q es)

sees-erase_self :
    (c : Text) (q : FilePath) (es : Entries) → sees (c ∷ q) (directory (erase c es)) ≡ err not_exist
unfolding through
sees-erase_self c q es = sees-step c q (erase c es) ∙ ap (through q) (find-erase_self c es)

-- An entry that is erased, where nothing was to be seen behind its name.
sees_of_erase :
    (c d : Text) (q : FilePath) (es : Entries) (m : Node)
    → m ≡ directory (erase c es)
    → (d ≡ c → sees (d ∷ q) (directory es) ≡ err not_exist)
    → sees (d ∷ q) m ≡ sees (d ∷ q) (directory es)
sees_of_erase c d q es m done gone = elim (Text-cases d c) [
  | inl h ↦ cc (h, done, sees-erase_self c q es, gone h)
  | inr h ↦ cc (done, sees-erase_ne c d q es h)
]

pub remove_at-sees_ne :
    (p q : FilePath) (n m : Node) → NoPrefix p q → remove_at p n ≡ ok m → sees q m ≡ sees q n
unfolding remove_at NoPrefix node_at
remove_at-sees_ne [] q n m far e = absurd far
remove_at-sees_ne (c ∷ []) q (file _) m far e = cc
remove_at-sees_ne (c ∷ _ ∷ _) q (file _) m far e = cc
remove_at-sees_ne (c ∷ []) [] (directory es) m far e = cc (removed-erase c es m _ e)
remove_at-sees_ne (c ∷ x ∷ p) [] (directory es) m far e = sees_top es c _ m (below-cases c es _ m e)
remove_at-sees_ne (c ∷ []) (d ∷ q) (directory es) m far e =
    sees_of_erase c d q es m (removed-erase c es m _ e) (λ h. absurd (far h))
remove_at-sees_ne (c ∷ x ∷ p) (d ∷ q) (directory es) m far e =
    sees-Below c d q es _ m (below-cases c es _ m e)
      (λ h a b here' e'. remove_at-sees_ne (x ∷ p) q a b (far h) e')

pub remove_at-sees_self :
    (p : FilePath) (n m : Node) → remove_at p n ≡ ok m → sees p m ≡ err not_exist
unfolding remove_at Below
remove_at-sees_self [] n m e = cc
remove_at-sees_self (c ∷ []) (file _) m e = cc
remove_at-sees_self (c ∷ _ ∷ _) (file _) m e = cc
remove_at-sees_self (c ∷ []) (directory es) m e =
    ap (sees (c ∷ [])) (removed-erase c es m _ e) ∙ sees-erase_self c [] es
remove_at-sees_self (c ∷ x ∷ p) (directory es) m e =
    let (_, b, _, e', done) = below-cases c es _ m e in
    ap (sees (c ∷ x ∷ p)) done ∙ sees-bind_self c (x ∷ p) b es ∙ remove_at-sees_self (x ∷ p) _ b e'

node_at_of_find :
    (c : Text) (p : FilePath) (n : Node) (es : Entries)
    → find c es ≡ ok n
    → node_at (c ∷ p) (directory es) ≡ node_at p n
unfolding node_at
node_at_of_find c p n es e = ground (arith, e)

empty_below :
    (c d : Text) (q : FilePath) (es : Entries)
    → node_at (c ∷ []) (directory es) ≡ ok (directory end)
    → sees (c ∷ d ∷ q) (directory es) ≡ err not_exist
unfolding node_at find
empty_below c d q es h = elim (Result-cases (find c es)) [
  | inl (a, e) ↦ ground (arith, e, h)
  | inr (x, e) ↦ ground (arith, e, h)
]

-- Removing an empty directory takes nothing away from the paths below it.
pub remove_at-sees_empty :
    (p q : FilePath) (n m : Node)
    → node_at p n ≡ ok (directory end)
    → q ≢ p
    → remove_at p n ≡ ok m
    → sees q m ≡ sees q n
unfolding remove_at node_at
remove_at-sees_empty [] q n m here ne e = cc
remove_at-sees_empty (c ∷ []) q (file _) m here ne e = cc
remove_at-sees_empty (c ∷ _ ∷ _) q (file _) m here ne e = cc
remove_at-sees_empty (c ∷ []) [] (directory es) m here ne e = cc (removed-erase c es m _ e)
remove_at-sees_empty (c ∷ x ∷ p) [] (directory es) m here ne e =
    sees_top es c _ m (below-cases c es _ m e)
remove_at-sees_empty (c ∷ []) (d ∷ []) (directory es) m here ne e =
    sees_of_erase c d [] es m (removed-erase c es m _ e) (λ h. ground arith)
remove_at-sees_empty (c ∷ []) (d ∷ y ∷ q) (directory es) m here ne e =
    sees_of_erase c d (y ∷ q) es m (removed-erase c es m _ e)
      (λ h. cc (h, empty_below c y q es here))
remove_at-sees_empty (c ∷ x ∷ p) (d ∷ q) (directory es) m here ne e =
    sees-Below c d q es _ m (below-cases c es _ m e) (λ h a b here' e'.
      remove_at-sees_empty (x ∷ p) q a b (sym (node_at_of_find c (x ∷ p) a es here') ∙ here)
        (λ k. ne (cc (h, k))) e')

find_err : (c : Text) (es : Entries) (x : Errno) → find c es ≡ err x → x ≡ not_exist
unfolding find
find_err c end x e = ground arith
find_err c (entry d n es) x e = ground (arith, find_err c es x)

-- A directory that is made where there was nothing holds nothing.
sees_of_new :
    (p q : FilePath) (c : Text) (es : Entries)
    → NoPrefix q p
    → sees q (found_or_new (find c es)) ≡ through q (find c es)
unfolding NoPrefix node_at find through
sees_of_new p [] c es far = absurd far
sees_of_new p (y ∷ q) c es far = elim (Result-cases (find c es)) [
  | inl (a, e) ↦ ground (arith, e)
  | inr (x, e) ↦ ground (arith, e, find_err c es x e)
]

pub mkdir_all-sees :
    (p q : FilePath) (n m : Node) → NoPrefix q p → mkdir_all p n ≡ ok m → sees q m ≡ sees q n
unfolding mkdir_all NoPrefix node_at
mkdir_all-sees p [] n m far e = absurd far
mkdir_all-sees [] (d ∷ q) (file _) m far e = cc
mkdir_all-sees (c ∷ p) (d ∷ q) (file _) m far e = cc
mkdir_all-sees [] (d ∷ q) (directory es) m far e = ground arith
mkdir_all-sees (c ∷ p) (d ∷ q) (directory es) m far e =
    elim (Result-cases (mkdir_all p (found_or_new (find c es)))) [
      | inl (b, e') ↦
          sees_of_bind c d q es b m (ground (arith, e, e'))
            (λ h. mkdir_all-sees p q _ b (far (sym h)) e' ∙ sees_of_new p q c es (far (sym h)))
      | inr (x, e') ↦ ground (arith, e, e')
    ]
