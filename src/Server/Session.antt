-- ===== src/Server/Session.antt =====
-- server/session.go: the registry of keygen sessions, in which a partner claims a session and an
-- initiator cancels one. Times are in nanoseconds; the mutex makes each operation one step.
pub mod Exclusion
mod Tests
use signature_escrow.Common.{ℕ, ◌+◌, ◌*◌, Bool, true, false, Option, none, some, ltb, if◌then◌else◌}
use signature_escrow.Text.{Text, bytes, is_empty, ◌==◌}
use signature_escrow.Act.{Result, ok, err, pure, lift, reads, continue, ◌>>=◌, ◌>>◌}
use signature_escrow.Storage.{Error}
use signature_escrow.Http.{HttpError, Reply, respond_ok, reject_if, decoded}
use signature_escrow.Act.{Act}

-- The two values that the program gives the field `status`.
pub data Status : Type 0 where
  claimed cancelled : Status

pub record SessionEntry : Type 0 where
  pub status : Status
  pub at : ℕ

-- The map `m`.
abbrev pub Registry : Type 0
Registry = Text → Option SessionEntry

abbrev pub session_ttl : ℕ
session_ttl = 15 * 60 * 1_000_000_000

-- `v.at.Before(cutoff)`, the cutoff written on the other side
abbrev pub is_stale : ℕ → SessionEntry → Bool
is_stale now e = ltb (e.at + session_ttl) now

unfoldable pub prune : ℕ → Registry → Registry
prune now r id = elim (r id) [ none ↦ none | some e ↦ if is_stale now e then none else some e ]

unfoldable pub set : Text → SessionEntry → Registry → Registry
set id e r j = if id == j then some e else r j

abbrev pub is_cancelled : Status → Bool
is_cancelled cancelled = true
is_cancelled claimed = false

abbrev pub is_claimed : Status → Bool
is_claimed claimed = true
is_claimed cancelled = false

abbrev pub has_status : (Status → Bool) → Option SessionEntry → Bool
has_status test none = false
has_status test (some e) = test e.status

-- Each operation gives its answer and the registry that it leaves.
unfoldable pub claim : Text → ℕ → Registry → Bool × Registry
unfolding prune set
claim id now r =
    let pruned = prune now r in
    if has_status is_cancelled (pruned id)
    then (false, pruned)
    else (true, set id (record { status = claimed; at = now }) pruned)

unfoldable pub cancel : Text → ℕ → Registry → Bool × Registry
unfolding prune set
cancel id now r =
    let pruned = prune now r in
    if has_status is_claimed (pruned id)
    then (false, pruned)
    else (true, set id (record { status = cancelled; at = now }) pruned)

abbrev answer : (Registry → Bool × Registry) → Act HttpError Registry Bool
answer f r = let (b, r') = f r in (ok b, r')

-- The reply is the value of `ok`.
pub session_claim : Result Error Text → Text → ℕ → Act HttpError Registry (Reply Bool)
session_claim body caller now = do
  reject_if (is_empty caller) 401 (bytes "unauthorized")
  id ← decoded body
  reject_if (is_empty id) 400 (bytes "session_id is required")
  done ← answer (claim id now)
  respond_ok (some done)

pub session_cancel : Result Error Text → Text → ℕ → Act HttpError Registry (Reply Bool)
session_cancel body caller now = do
  reject_if (is_empty caller) 401 (bytes "unauthorized")
  id ← decoded body
  reject_if (is_empty id) 400 (bytes "session_id is required")
  done ← answer (cancel id now)
  respond_ok (some done)
