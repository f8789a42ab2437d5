-- ===== src/Text/Order.antt =====
-- The order of texts.
use signature_escrow.Common.{◌≡◌, refl, true, false, List, [], ◌∷◌, arith, if◌then◌else◌}
use signature_escrow.Text.{Text, less}

pub less_asymm : (s t : Text) → less s t ≡ true → less t s ≡ false
unfolding less
less_asymm [] [] h = refl
less_asymm [] (b ∷ t) h = refl
less_asymm (a ∷ s) [] h = cc
less_asymm (a ∷ s) (b ∷ t) h = ground (arith, less_asymm s t)

pub less_total : (s t : Text) → less s t ≡ false → less t s ≡ false → s ≡ t
unfolding less
less_total [] [] h k = refl
less_total [] (b ∷ t) h k = cc
less_total (a ∷ s) [] h k = cc
less_total (a ∷ s) (b ∷ t) h k = ground (arith, less_total s t)

abbrev insert : Text → List Text → List Text
insert s [] = s ∷ []
insert s (t ∷ ts) = let rest = insert s ts in if less t s then t ∷ rest else s ∷ t ∷ ts

-- sort.Strings
unfoldable pub sort : List Text → List Text
sort [] = []
sort (s ∷ ts) = insert s (sort ts)
