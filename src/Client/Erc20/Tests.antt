-- ===== src/Client/Erc20/Tests.antt =====
-- A transfer of 1000 to the address of twenty bytes 7.
use signature_escrow.Common.{◌≡◌, refl, [], ◌∷◌}
use signature_escrow.Validation.{Bytes}
use signature_escrow.Client.Erc20.{bytes_within}

abbrev to : Bytes
to = 7 ∷ 7 ∷ 7 ∷ 7 ∷ 7 ∷ 7 ∷ 7 ∷ 7 ∷ 7 ∷ 7 ∷ 7 ∷ 7 ∷ 7 ∷ 7 ∷ 7 ∷ 7 ∷ 7 ∷ 7 ∷ 7 ∷ 7 ∷ []

test_bytes : bytes_within 3 1000 ≡ 3 ∷ 232 ∷ []
unfolding bytes_within
test_bytes = refl
