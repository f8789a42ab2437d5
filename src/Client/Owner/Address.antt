-- ===== src/Client/Owner/Address.antt =====
-- client/auth.go: `normAddr` has nothing left to do on its own answers.
use signature_escrow.Common.{◌≡◌, refl, sym, ap, ◌∙◌, ◌⊎◌, inl, inr, ◌∷◌, ◌++◌, arith}
use signature_escrow.Text.{Text, bytes, to_lower, to_lower_idem, lower_byte, strip}
use signature_escrow.Text.Space.{
  trim_space, trim_space-to_lower, trim_space_idem, trim_space-behind,
}
use signature_escrow.Client.Owner.{norm_addr, prefixed}

trimmed_lower : (a : Text) → to_lower (trim_space (to_lower a)) ≡ trim_space (to_lower a)
trimmed_lower a = sym (trim_space-to_lower (to_lower a)) ∙ ap trim_space (to_lower_idem a)

norm_of_trimmed :
    (a : Text) → trim_space (to_lower (trim_space (to_lower a))) ≡ trim_space (to_lower a)
norm_of_trimmed a = ap trim_space (trimmed_lower a) ∙ trim_space_idem (to_lower a)

behind_0x :
    (a : Text)
    → trim_space (to_lower (bytes "0x" ++ trim_space (to_lower a)))
      ≡ bytes "0x" ++ trim_space (to_lower a)
unfolding bytes to_lower lower_byte
behind_0x a =
    ap (λ t. trim_space (b'0' ∷ b'x' ∷ t)) (trimmed_lower a)
    ∙ trim_space-behind b'0' b'x' (to_lower a) refl refl

prefixed_0x : (t : Text) → prefixed (bytes "0x" ++ t) ≡ bytes "0x" ++ t
unfolding bytes strip
prefixed_0x t = refl

prefixed-cases : (t : Text) → (prefixed t ≡ t) ⊎ (prefixed t ≡ bytes "0x" ++ t)
prefixed-cases t = ground (arith)

pub norm_addr_idem : (a : Text) → norm_addr (norm_addr a) ≡ norm_addr a
unfolding norm_addr
norm_addr_idem a = elim (prefixed-cases (trim_space (to_lower a))) [
  | inl e ↦ cc (e, norm_of_trimmed a)
  | inr e ↦ cc (e, behind_0x a, prefixed_0x (trim_space (to_lower a)))
]
