-- ===== src/Server/Session/Tests.antt =====
-- The session "s", which is cancelled or claimed at time 100.
use signature_escrow.Common.{◌≡◌, refl, none, true, false, [], ◌∷◌, arith, List}
use signature_escrow.Text.{Text, bytes}
use signature_escrow.Server.Session.{Registry, claim, cancel, prune}
use signature_escrow.Server.Session.Exclusion.{
  Event, claims, cancels, run, Within, cancel_excludes_claim,
}

abbrev no_sessions : Registry
no_sessions id = none

abbrev session : Text
session = bytes "s"

abbrev meanwhile : List Event
meanwhile = cancels session 200 ∷ claims session 300 ∷ claims (bytes "t") 300 ∷ []

within : Within 100 meanwhile
within = (omega arith, omega arith, (omega arith, omega arith, (omega arith, omega arith, tt)))

test_cancel : (cancel session 100 no_sessions).0 ≡ true
unfolding cancel prune
test_cancel = refl

test_claim : (claim session 100 no_sessions).0 ≡ true
unfolding claim prune
test_claim = refl

cancel_excludes_claim_example :
    (claim session 400 (run meanwhile (cancel session 100 no_sessions).1)).0 ≡ false
cancel_excludes_claim_example =
    cancel_excludes_claim session 100 400 meanwhile no_sessions test_cancel within (omega arith)
