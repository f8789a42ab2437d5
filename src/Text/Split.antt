-- ===== src/Text/Split.antt =====
-- What the program uses of strings.Contains and strings.Split.
use signature_escrow.Common.{
  Option, none, some, ℕ, zero, suc, ◌≡◌, refl, Bool, true, false, List, [], ◌∷◌, ◌++◌, arith,
  nat_eq, nat_eq_iff, if◌then◌else◌,
}
use signature_escrow.Text.{Text, strip}

abbrev found : Option Text → Bool
found none = false
found (some _) = true

-- strings.Contains(s, sub)
unfoldable pub contains : Text → Text → Bool
contains [] sub = found (strip sub [])
contains (c ∷ s) sub = let rest = contains s sub in if found (strip sub (c ∷ s)) then true else rest

abbrev extend : ℕ → List Text → List Text
extend c [] = (c ∷ []) ∷ []
extend c (w ∷ ws) = (c ∷ w) ∷ ws

-- strings.Split(s, string(b)) for one byte `b`: there is always a first part.
unfoldable pub split : ℕ → Text → List Text
split b [] = [] ∷ []
split b (c ∷ s) = let parts = split b s in if nat_eq c b then [] ∷ parts else extend c parts

-- strings.Join(ws, string(b))
unfoldable pub join : ℕ → List Text → Text
join b [] = []
join b (w ∷ []) = w
join b (w ∷ v ∷ ws) = w ++ b ∷ join b (v ∷ ws)

-- ws[:n]
unfoldable pub take_words : ℕ → List Text → List Text
take_words zero ws = []
take_words (suc n) [] = []
take_words (suc n) (w ∷ ws) = w ∷ take_words n ws

join-extend : (b c : ℕ) (ws : List Text) → join b (extend c ws) ≡ c ∷ join b ws
unfolding join
join-extend b c [] = refl
join-extend b c (w ∷ []) = refl
join-extend b c (w ∷ v ∷ ws) = refl

join-empty : (b : ℕ) (s : Text) → join b ([] ∷ split b s) ≡ b ∷ join b (split b s)
unfolding join split
join-empty b [] = refl
join-empty b (c ∷ s) = elim (split b s) [ [] ↦ ground arith | _ ∷ _ ↦ ground arith ]

pub join-split : (b : ℕ) (s : Text) → join b (split b s) ≡ s
unfolding split join
join-split b [] = refl
join-split b (c ∷ s) =
    ground (arith, join-split b s, join-extend b c (split b s), join-empty b s, nat_eq_iff c b)
