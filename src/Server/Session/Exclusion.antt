-- ===== src/Server/Session/Exclusion.antt =====
-- Claims and cancels of one keygen session, among all that the registry of server/session.go is asked.
use signature_escrow.Common.{
  ℕ, ◌+◌, ◌≤◌, ◌<◌, ◌≡◌, true, false, Option, none, some, List, [], ◌∷◌, arith,
}
use signature_escrow.Text.{Text, ==_iff, ==_refl}
use signature_escrow.Server.Session.{
  Status, claimed, cancelled, SessionEntry, Registry, session_ttl, claim, cancel,
}

pub data Event : Type 0 where
  claims cancels : Text → ℕ → Event

abbrev pub time_of : Event → ℕ
time_of (claims id now) = now
time_of (cancels id now) = now

unfoldable pub handle : Event → Registry → Registry
handle (claims id now) r = (claim id now r).1
handle (cancels id now) r = (cancel id now r).1

pub run : List Event → Registry → Registry
run [] r = r
run (e ∷ es) r = run es (handle e r)

-- Every event happens from `t` on, and while an entry of `t` lives.
abbrev pub Within : ℕ → List Event → Type 0
Within t [] = Unit
Within t (e ∷ es) = (t ≤ time_of e) × (time_of e ≤ t + session_ttl) × Within t es

-- The entry has the status, since `t` or later.
abbrev pub Since : Status → ℕ → Option SessionEntry → Type 0
Since status t none = ⊥
Since status t (some e) = (e.status ≡ status) × (t ≤ e.at)

module _ (id : Text) (status : Status) (t : ℕ) where
  settled-handle :
      (ev : Event) (r : Registry)
      → t ≤ time_of ev
      → time_of ev ≤ t + session_ttl
      → Since status t (r id)
      → Since status t (handle ev r id)
  unfolding handle claim cancel
  settled-handle (claims j now) r after alive h = ground (arith, ==_iff j id)
  settled-handle (cancels j now) r after alive h = ground (arith, ==_iff j id)

  settled-run :
      (es : List Event) (r : Registry)
      → Within t es
      → Since status t (r id)
      → Since status t (run es r id)
  unfolding run
  settled-run [] r w h = h
  settled-run (e ∷ es) r (after, alive, w) h =
      settled-run es (handle e r) w (settled-handle e r after alive h)

claim_settles :
    (id : Text) (t : ℕ) (r : Registry)
    → (claim id t r).0 ≡ true
    → Since claimed t ((claim id t r).1 id)
unfolding claim
claim_settles id t r h = ground (arith, ==_refl id)

cancel_settles :
    (id : Text) (t : ℕ) (r : Registry)
    → (cancel id t r).0 ≡ true
    → Since cancelled t ((cancel id t r).1 id)
unfolding cancel
cancel_settles id t r h = ground (arith, ==_refl id)

claim_refused :
    (id : Text) (t now : ℕ) (r : Registry)
    → Since cancelled t (r id)
    → now ≤ t + session_ttl
    → (claim id now r).0 ≡ false
unfolding claim
claim_refused id t now r h alive = ground arith

cancel_refused :
    (id : Text) (t now : ℕ) (r : Registry)
    → Since claimed t (r id)
    → now ≤ t + session_ttl
    → (cancel id now r).0 ≡ false
unfolding cancel
cancel_refused id t now r h alive = ground arith

-- After a cancel of a session was answered true, a claim of it within fifteen minutes is answered
-- false, whatever claims and cancels of any sessions come between, at times within those fifteen
-- minutes.
pub cancel_excludes_claim :
    (id : Text) (t now : ℕ) (es : List Event) (r : Registry)
    → (cancel id t r).0 ≡ true
    → Within t es
    → now ≤ t + session_ttl
    → (claim id now (run es (cancel id t r).1)).0 ≡ false
cancel_excludes_claim id t now es r h w alive =
    claim_refused id t now (run es (cancel id t r).1)
      (settled-run id cancelled t es (cancel id t r).1 w (cancel_settles id t r h)) alive

-- After a claim of a session was answered true, a cancel of it within fifteen minutes is answered
-- false, whatever claims and cancels of any sessions come between, at times within those fifteen
-- minutes.
pub claim_excludes_cancel :
    (id : Text) (t now : ℕ) (es : List Event) (r : Registry)
    → (claim id t r).0 ≡ true
    → Within t es
    → now ≤ t + session_ttl
    → (cancel id now (run es (claim id t r).1)).0 ≡ false
claim_excludes_cancel id t now es r h w alive =
    cancel_refused id t now (run es (claim id t r).1)
      (settled-run id claimed t es (claim id t r).1 w (claim_settles id t r h)) alive

-- The exclusion ends with the entry: a claim more than fifteen minutes after the cancel goes through.
pub claim_after_ttl :
    (id : Text) (t now : ℕ) (r : Registry)
    → (cancel id t r).0 ≡ true
    → t + session_ttl < now
    → (claim id now (cancel id t r).1).0 ≡ true
unfolding claim cancel
claim_after_ttl id t now r h late = ground (arith, ==_refl id)
