-- ===== src/Storage/File/Keeps.antt =====
-- storage/file/file.go: which paths a sequence of calls leaves alone, one call at a time.
use signature_escrow.Common.{
  ◌≡◌, refl, inl, inr, Option, none, some, Option-cases, Bool-cases, List, [], ◌∷◌, arith,
}
use signature_escrow.Text.{Text, bytes}
use signature_escrow.Text.Split.{contains}
use signature_escrow.Act.{
  Result, ok, err, Act, pure, throw, lift, ◌>>=◌, or_fail, attempt, Result-cases,
}
use signature_escrow.Storage.{Error}
use signature_escrow.Storage.Disk.{FilePath, Errno, Node, Call, Host, change, look}
use signature_escrow.Storage.Disk.Frame.{Seen, sees}
use signature_escrow.Storage.File.{stop, validate_path}

-- A property of every member of a list.
unfoldable pub All : {A : Type 0} → (A → Type 0) → List A → Type 0
All P [] = Unit {0}
All P (x ∷ xs) = P x × All P xs

pub All-map :
    {A : Type 0} (P Q : A → Type 0) (xs : List A) → ((x : A) → P x → Q x) → All P xs → All Q xs
unfolding All
All-map P Q [] f h = tt
All-map P Q (x ∷ xs) f h = (f x h.0, All-map P Q xs f h.1)

-- What is seen under the path is the same before and after, whatever is answered.
unfoldable pub Keeps : {E A : Type 0} → FilePath → Act E Node A → Type 0
Keeps q m = (s : Node) → sees q (m s).1 ≡ sees q s

-- The same, if the answer is an error.
unfoldable pub KeepsOnError : {E A : Type 0} → FilePath → Act E Node A → Type 0
KeepsOnError {E = E} q m = (s : Node) (e : E) → (m s).0 ≡ err e → sees q (m s).1 ≡ sees q s

module _ {E A B : Type 0} (q : FilePath) where
  -- What follows a call needs to keep the path for the answers that the call can give.
  pub Keeps-bind_of :
      (m : Act E Node A) (f : A → Act E Node B)
      → Keeps q m
      → ((a : A) (s : Node) → (m s).0 ≡ ok a → Keeps q (f a))
      → Keeps q (m >>= f)
  unfolding Keeps
  Keeps-bind_of m f h k s = elim (Result-cases (m s).0) [
    | inl (a, e) ↦ ground (arith, e, h s, k a s e (m s).1)
    | inr (x, e) ↦ ground (arith, e, h s)
  ]

  pub KeepsOnError-bind_of :
      (m : Act E Node A) (f : A → Act E Node B)
      → Keeps q m
      → ((a : A) (s : Node) → (m s).0 ≡ ok a → KeepsOnError q (f a))
      → KeepsOnError q (m >>= f)
  unfolding Keeps KeepsOnError
  KeepsOnError-bind_of m f h k s x failed = elim (Result-cases (m s).0) [
    | inl (a, e) ↦ ground (arith, e, failed, h s, k a s e (m s).1 x)
    | inr (x, e) ↦ ground (arith, e, h s)
  ]

  pub Keeps-bind :
      (m : Act E Node A) (f : A → Act E Node B)
      → Keeps q m
      → ((a : A) → Keeps q (f a))
      → Keeps q (m >>= f)
  Keeps-bind m f h k = Keeps-bind_of m f h (λ a _ _. k a)

  pub KeepsOnError-bind :
      (m : Act E Node A) (f : A → Act E Node B)
      → Keeps q m
      → ((a : A) → KeepsOnError q (f a))
      → KeepsOnError q (m >>= f)
  KeepsOnError-bind m f h k = KeepsOnError-bind_of m f h (λ a _ _. k a)

pub Keeps-KeepsOnError :
    {E A : Type 0} (q : FilePath) (m : Act E Node A) → Keeps q m → KeepsOnError q m
unfolding Keeps KeepsOnError
Keeps-KeepsOnError q m h s e _ = h s

pub Keeps-attempt :
    {E A : Type 0} (F : Type 0) (q : FilePath) (m : Act E Node A)
    → Keeps q m
    → Keeps {E = F} q (attempt m)
unfolding Keeps
Keeps-attempt F q m h s = h s

pub KeepsOnError-or_fail :
    {E F A : Type 0} (q : FilePath) (m : Act E Node A) (f : E → F)
    → KeepsOnError q m
    → KeepsOnError q (or_fail m f)
unfolding KeepsOnError
KeepsOnError-or_fail q m f h s x failed = elim (Result-cases (m s).0) [
  | inl (a, e) ↦ ground (arith, e, failed)
  | inr (y, e) ↦ h s y e
]

pub Keeps-or_fail :
    {E F A : Type 0} (q : FilePath) (m : Act E Node A) (f : E → F)
    → Keeps q m
    → Keeps q (or_fail m f)
unfolding Keeps
Keeps-or_fail q m f h s = h s

module _ (host : Host) (q : FilePath) where
  pub Keeps-look : (call : Call) (p : FilePath) → Keeps q (look host call p)
  unfolding Keeps
  Keeps-look call p s = elim (Option-cases (host.refuse call p)) [
    | inl e ↦ ground (arith, e)
    | inr (x, e) ↦ ground (arith, e)
  ]

  pub change-sees :
      (call : Call) (p : FilePath) (f : Node → Result Errno Node) (s : Node)
      → ((m : Node) → f s ≡ ok m → sees q m ≡ sees q s)
      → sees q (change host call p f s).1 ≡ sees q s
  change-sees call p f s h = elim (Option-cases (host.refuse call p)) [
    | inl e ↦ elim (Result-cases (f s)) [
      | inl (m, e') ↦ ground (arith, e, e', h m)
      | inr (x, e') ↦ ground (arith, e, e')
    ]
    | inr (x, e) ↦ ground (arith, e)
  ]

  pub Keeps-change :
      (call : Call) (p : FilePath) (f : Node → Result Errno Node)
      → ((n m : Node) → f n ≡ ok m → sees q m ≡ sees q n)
      → Keeps q (change host call p f)
  unfolding Keeps
  Keeps-change call p f h s = change-sees call p f s (h s)

  -- A change that fails has changed nothing.
  pub KeepsOnError-change :
      (call : Call) (p : FilePath) (f : Node → Result Errno Node)
      → KeepsOnError q (change host call p f)
  unfolding KeepsOnError
  KeepsOnError-change call p f s x failed = elim (Option-cases (host.refuse call p)) [
    | inl e ↦ elim (Result-cases (f s)) [
      | inl (m, e') ↦ ground (arith, e, e', failed)
      | inr (x, e') ↦ ground (arith, e, e')
    ]
    | inr (x, e) ↦ ground (arith, e)
  ]

-- What is seen under the path once the call has answered without an error.
unfoldable pub Leaves : {A : Type 0} → FilePath → Result Errno Seen → Act Error Node A → Type 0
Leaves {A = A} q c m = (s : Node) (a : A) → (m s).0 ≡ ok a → sees q (m s).1 ≡ c

pub Leaves-bind :
    {A B : Type 0} (q : FilePath) (c : Result Errno Seen) (m : Act Error Node A)
    (f : A → Act Error Node B)
    → ((a : A) → Leaves q c (f a))
    → Leaves q c (m >>= f)
unfolding Leaves
Leaves-bind q c m f h s b done = elim (Result-cases (m s).0) [
  | inl (a, e) ↦ ground (arith, e, done, h a (m s).1 b)
  | inr (x, e) ↦ ground (arith, e, done)
]

pub Keeps-stop : (q : FilePath) (o : Option Error) → Keeps q (stop o)
unfolding Keeps
Keeps-stop q none s = refl
Keeps-stop q (some e) s = refl

pub Keeps-validate_path : (q : FilePath) (k : Text) → Keeps q (validate_path k)
unfolding Keeps validate_path
Keeps-validate_path q k s = ground (arith, Bool-cases (contains k (bytes "..")))

pub Keeps-throw : {E : Type 0} (A : Type 0) (q : FilePath) (e : E) → Keeps {A = A} q (throw e)
unfolding Keeps
Keeps-throw A q e s = refl

pub Keeps-lift : {E A : Type 0} (q : FilePath) (r : Result E A) → Keeps q (lift r)
unfolding Keeps
Keeps-lift q r s = refl

pub Keeps-pure : {A : Type 0} (q : FilePath) (a : A) → Keeps {E = Error} q (pure a)
unfolding Keeps
Keeps-pure q a s = refl
