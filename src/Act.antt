-- ===== src/Act.antt =====
-- Go functions that return `(value, error)` and change a store. What was written before an error
-- stays written, so the state comes back beside the error too.
use signature_escrow.Common.{◌≡◌, refl, sym, ap, subst, ◌∙◌, Bool, true, false, ◌⊎◌, inl, inr}

pub data Result {ℓ κ} (E : Type ℓ) (A : Type κ) : Type (ℓ ⊔ κ) where
  ok : A → Result E A
  err : E → Result E A

abbrev pub Act {ℓ} : Type ℓ → Type ℓ → Type ℓ → Type ℓ
Act E S A = S → Result E A × S

module _ {ℓ} {E S A : Type ℓ} where
  abbrev pub pure : A → Act E S A
  pure a s = (ok a, s)

  abbrev pub throw : E → Act E S A
  throw e s = (err e, s)

  abbrev pub lift : Result E A → Act E S A
  lift r s = (r, s)

  -- A read of the state that may fail.
  abbrev pub reads : (S → Result E A) → Act E S A
  reads f s = (f s, s)

module _ {ℓ} {E S A B : Type ℓ} where
  abbrev pub continue : Result E A → (A → Act E S B) → Act E S B
  continue (ok a) f s = f a s
  continue (err e) f s = (err e, s)

  infixl 10 ◌>>=◌ ◌>>◌
  abbrev pub ◌>>=◌ : Act E S A → (A → Act E S B) → Act E S B
  ◌>>=◌ m f s = let (r, s') = m s in continue r f s'

  abbrev pub ◌>>◌ : Act E S A → Act E S B → Act E S B
  m >> k = m >>= λ _. k

abbrev pub guard {ℓ} : {E S : Type ℓ} → Bool → E → Act E S (Unit {ℓ})
guard true e = pure tt
guard false e = throw e

abbrev relabel {ℓ} : {E F A : Type ℓ} → (E → F) → Result E A → Result F A
relabel f (ok a) = ok a
relabel f (err e) = err (f e)

abbrev pub relabel_ok {ℓ} : {E A B : Type ℓ} → (A → B) → Result E A → Result E B
relabel_ok f (ok a) = ok (f a)
relabel_ok f (err e) = err e

-- `if err != nil { … }` around a call: the error becomes the caller's.
abbrev pub or_fail {ℓ} : {E F S A : Type ℓ} → Act E S A → (E → F) → Act F S A
or_fail m f s = let (r, s') = m s in (relabel f r, s')

pub Result-cases {ℓ} :
    {E A : Type ℓ} (r : Result E A) → ((a : A) × (r ≡ ok a)) ⊎ ((e : E) × (r ≡ err e))
Result-cases (ok a) = inl (a, refl)
Result-cases (err e) = inr (e, refl)

-- A call whose error the caller looks at.
abbrev pub attempt {ℓ} : {E F S A : Type ℓ} → Act E S A → Act F S (Result E A)
attempt m s = let (r, s') = m s in (ok r, s')

err-ok {ℓ κ} : {E : Type ℓ} {A : Type κ} (e : E) (a : A) → ◌≡◌ {A = Result E A} (err e) (ok a) → ⊥
err-ok e a h = cc

relabel-ok {ℓ} :
    {E F A : Type ℓ} (f : E → F) (r : Result E A) (a : A) → relabel f r ≡ ok a → r ≡ ok a
relabel-ok f (ok b) a h = cc
relabel-ok f (err e) a h = absurd (err-ok (f e) a h)

-- A sequence that has an answer had one at its first call, and then at the rest.
pub bind-ok {ℓ} :
    {E S A B : Type ℓ} (m : Act E S A) (f : A → Act E S B) (s : S) (b : B)
    → ((m >>= f) s).0 ≡ ok b
    → (a : A) × ((m s).0 ≡ ok a) × ((f a (m s).1).0 ≡ ok b)
bind-ok m f s b h = elim (Result-cases (m s).0) [
  | inl (a, e) ↦ (a, e, ap (λ r. (continue r f (m s).1).0) (sym e) ∙ h)
  | inr (x, e) ↦ absurd (err-ok x b (ap (λ r. (continue r f (m s).1).0) (sym e) ∙ h))
]

pub pure-ok {ℓ} : {E S A : Type ℓ} (a b : A) (s : S) → (pure {E = E} a s).0 ≡ ok b → a ≡ b
pure-ok a b s h = cc

pub or_fail-ok {ℓ} :
    {E F S A : Type ℓ} (m : Act E S A) (f : E → F) (s : S) (a : A)
    → (or_fail m f s).0 ≡ ok a
    → (m s).0 ≡ ok a
or_fail-ok m f s a h = relabel-ok f (m s).0 a h

-- What holds after a sequence that has an answer, if it holds after the rest at each answer of the
-- first call.
pub bind-leads {ℓ κ} :
    {E S A B : Type ℓ} (Q : S → Type κ) (b : B) (m : Act E S A) (f : A → Act E S B)
    → ((a : A) (s : S) → (m s).0 ≡ ok a → (t : S) → (f a t).0 ≡ ok b → Q (f a t).1)
    → (s : S) → ((m >>= f) s).0 ≡ ok b
    → Q ((m >>= f) s).1
bind-leads Q b m f k s h = elim (Result-cases (m s).0) [
  | inl (a, e) ↦
      subst (λ r. Q (continue r f (m s).1).1) (sym e)
        (k a s e (m s).1 (ap (λ r. (continue r f (m s).1).0) (sym e) ∙ h))
  | inr (x, e) ↦ absurd (err-ok x b (ap (λ r. (continue r f (m s).1).0) (sym e) ∙ h))
]
