-- ===== src/Text/Bytes.antt =====
-- Texts without a given byte, and how such texts are told apart once they are joined.
use mathlib.Core.Option.{get_or}
use mathlib.Core.List.{append_cancel_left}
use signature_escrow.Common.{
  ap, false, ◌≢◌, ℕ, ◌<◌, ◌≡◌, refl, inl, inr, some, Option-cases, Bool, true, ◌&&◌, not, [], ◌∷◌,
  ◌++◌, arith, nat_eq,
}
use signature_escrow.Text.{Text, to_lower, strip, trim_prefix}

-- `b` does not occur in the text.
abbrev pub lacks : ℕ → Text → Bool
lacks b [] = true
lacks b (c ∷ s) = not (nat_eq c b) && lacks b s

-- Texts that lack a separator are read back from their join.
pub join-injective :
    (sep : ℕ) (a b c d : Text)
    → lacks sep a ≡ true
    → lacks sep c ≡ true
    → a ++ sep ∷ b ≡ c ++ sep ∷ d
    → (a ≡ c) × (b ≡ d)
join-injective sep [] b [] d h k e = ground arith
join-injective sep [] b (y ∷ c) d h k e = ground arith
join-injective sep (x ∷ a) b [] d h k e = ground arith
join-injective sep (x ∷ a) b (y ∷ c) d h k e = ground (arith, join-injective sep a b c d)

pub lacks-append : (b : ℕ) (s t : Text) → lacks b (s ++ t) ≡ (lacks b s && lacks b t)
lacks-append b [] t = refl
lacks-append b (c ∷ s) t = ground (arith, lacks-append b s t)

-- A byte below the lower case letters comes into a text by no lower-casing.
pub lacks-to_lower : (b : ℕ) (s : Text) → b < b'a' → lacks b s ≡ true → lacks b (to_lower s) ≡ true
unfolding to_lower
lacks-to_lower b [] h k = refl
lacks-to_lower b (c ∷ s) h k = ground (arith, lacks-to_lower b s h)

lacks-strip : (b : ℕ) (p s r : Text) → strip p s ≡ some r → lacks b s ≡ true → lacks b r ≡ true
unfolding strip
lacks-strip b [] s r e h = ground arith
lacks-strip b (x ∷ p) [] r e h = cc
lacks-strip b (x ∷ p) (c ∷ s) r e h = ground (arith, lacks-strip b p s r)

pub lacks-trim_prefix : (b : ℕ) (s p : Text) → lacks b s ≡ true → lacks b (trim_prefix s p) ≡ true
unfolding trim_prefix
lacks-trim_prefix b s p h = elim (Option-cases (strip p s)) [
  | inl e ↦ rw e h
  | inr (r, e) ↦ rw e (lacks-strip b p s r e h)
]

-- Behind a common prefix, a text with no slash differs from one that begins with a slash's part.
pub key_ne :
    (pre id part rest : Text)
    → lacks b'/' id ≡ true
    → lacks b'/' part ≡ false
    → pre ++ id ≢ pre ++ (part ++ rest)
key_ne pre id part rest h k e =
    let same = append_cancel_left pre id (part ++ rest) e in
    ground (arith, lacks-append b'/' part rest, ap (lacks b'/') same)

pub strip-append : (p s : Text) → strip p (p ++ s) ≡ some s
unfolding strip
strip-append [] s = refl
strip-append (c ∷ p) s = ground (arith, strip-append p s)

-- Trimming takes off exactly the prefix that is there.
pub trim_prefix-append : (p s : Text) → trim_prefix (p ++ s) p ≡ s
unfolding trim_prefix
trim_prefix-append p s = ap (λ o. get_or o (p ++ s)) (strip-append p s)
