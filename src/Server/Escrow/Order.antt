-- ===== src/Server/Escrow/Order.antt =====
-- addFlower and the order in which two parties deposit. The abstract view of an escrow forgets
-- which slot holds which flower.
use mathlib.Core.Quot
use mathlib.Core.Quot.{Quot}
use signature_escrow.Common.{◌≡◌, ◌≢◌, ◌⊎◌, ◌↔◌, inl, true, some, arith}
use signature_escrow.Text.{==_iff}
use signature_escrow.Act.{Result, ok, err}
use signature_escrow.Storage.{Error}
use signature_escrow.Validation.{Signatures}
use signature_escrow.Server.Escrow.{Flower, Pollination, add_flower, pollinate, visit, write}
use signature_escrow.Server.Escrow.Release.{pollinated_full, pollinate_of_Serves}

abbrev pub swap : Pollination → Pollination
swap p = record { flower1 = p.flower2; flower2 = p.flower1 }

-- The same flowers, in the same slots or in exchanged ones.
abbrev pub SameFlowers : Pollination → Pollination → Type 0
SameFlowers p q = (q ≡ p) ⊎ (q ≡ swap p)

-- An escrow without the order of its slots.
abbrev pub Unordered : Type 0
Unordered = Quot SameFlowers

pub unordered : Pollination → Unordered
unordered = Quot.mk

-- Two deposits one after the other, if neither is refused.
abbrev both_added : Result Error Pollination → Flower → Result Error Pollination
both_added (err e) g = err e
both_added (ok q) g = add_flower q g

unfoldable pub deposit_two : Pollination → Flower → Flower → Result Error Pollination
deposit_two p f g = both_added (add_flower p f) g

-- Where both slots are taken and each of the two parties may write its own slot, their two deposits
-- leave the same escrow in either order.
pub redeposit_comm :
    (a b f g : Flower)
    → a.pub_key ≢ b.pub_key
    → f.pub_key ≡ a.pub_key
    → g.pub_key ≡ b.pub_key
    → visit (some a) f ≡ write
    → visit (some b) g ≡ write
    → (deposit_two (record { flower1 = some a; flower2 = some b }) f g
        ≡ ok (record { flower1 = some f; flower2 = some g }))
      × (deposit_two (record { flower1 = some a; flower2 = some b }) g f
          ≡ ok (record { flower1 = some f; flower2 = some g }))
unfolding deposit_two add_flower
redeposit_comm a b f g k fa gb v w = ground (
  arith,
  ==_iff a.pub_key f.pub_key,
  ==_iff a.pub_key g.pub_key,
  ==_iff b.pub_key g.pub_key,
  ==_iff b.pub_key f.pub_key,
  ==_iff f.pub_key g.pub_key,
  ==_iff g.pub_key f.pub_key,
)

-- Release does not depend on the slots either.
pub pollinate-swap :
    (sigs : Signatures) (p : Pollination)
    → (pollinate sigs p ≡ ok true) ↔ (pollinate sigs (swap p) ≡ ok true)
unfolding pollinate
pollinate-swap sigs p = (one p, one (swap p))
  where
    one : (q : Pollination) → pollinate sigs q ≡ ok true → pollinate sigs (swap q) ≡ ok true
    one q h =
        let (f, g, full1, full2, x, y) = pollinated_full sigs q h in
        pollinate_of_Serves sigs (swap q) g f (inl (ground arith)) y x
