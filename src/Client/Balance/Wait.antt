-- ===== src/Client/Balance/Wait.antt =====
-- client/balance.go: the loops that wait for a balance. The ticks of the timer are a list of what the
-- node answers at each, and the list ends where the context is done.
use signature_escrow.Common.{
  ℕ, ◌≡◌, ◌⊎◌, Bool, true, false, not, ◌||◌, some, List, [], ◌∷◌, ◌++◌, if◌then◌else◌,
}
use signature_escrow.Text.{Text, bytes, is_empty}
use signature_escrow.Act.{Result, ok, err, pure, lift, or_fail, ◌>>=◌, ◌>>◌}
use signature_escrow.Storage.{Error}
use signature_escrow.Http.{Reply, respond_ok, reject_if, decoded}
use signature_escrow.Client.Int64.{ℤ, pos, int64, leb_int, is_positive}
use signature_escrow.Client.Balance.{
  Chains, Checked, Stateless, requires, failing, by_network, rpc_url,
}

pub record BalanceWaitRequest : Type 0 where
  pub network : Text
  pub address : Text
  pub expected : ℤ
  pub timeout_sec : ℤ

pub record BalanceWaitResponse : Type 0 where
  pub network : Text
  pub address : Text
  pub balance : ℤ
  pub expected : ℤ
  pub is_sufficient : Bool
  pub timed_out : Bool

-- `TimeoutSec` with its default, in seconds.
unfoldable pub timeout_of : ℤ → ℤ
timeout_of sec = if is_positive sec then sec else pos 300

abbrev pub no_balance : BalanceWaitRequest → BalanceWaitResponse
no_balance req = record {
  network = req.network;
  address = req.address;
  balance = pos 0;
  expected = req.expected;
  is_sufficient = false;
  timed_out = false;
}

-- The loop: an answer that failed is passed over, and the last balance is kept in the response.
unfoldable pub poll : ℤ → List (Result Error ℕ) → BalanceWaitResponse → BalanceWaitResponse
poll expected [] r = record r { timed_out = true }
poll expected (err _ ∷ ticks) r = poll expected ticks r
poll expected (ok b ∷ ticks) r =
    let later = poll expected ticks (record r { balance = int64 b }) in
    if leb_int expected (int64 b)
    then record r { balance = int64 b; is_sufficient = true }
    else later

module _ (chains : Chains) (ethereum_rpc : Text) where
  unfoldable pub wait_for_ethereum_balance :
      BalanceWaitRequest → List (Result Error ℕ) → Checked BalanceWaitResponse
  wait_for_ethereum_balance req ticks = do
    requires (chains.is_hex_address req.address) (bytes "invalid Ethereum address: " ++ req.address)
    failing (chains.dial (rpc_url ethereum_rpc)) (bytes "failed to connect to Ethereum client: ")
    pure (poll req.expected ticks (no_balance req))

  unfoldable pub wait_for_bitcoin_balance :
      BalanceWaitRequest → List (Result Error ℕ) → Checked BalanceWaitResponse
  wait_for_bitcoin_balance req ticks = do
    or_fail (lift (chains.decode_address req.address))
        (λ _. bytes "invalid Bitcoin address: " ++ req.address)
    pure (poll req.expected ticks (no_balance req))

  abbrev waited : Checked BalanceWaitResponse → Stateless (Reply BalanceWaitResponse)
  waited m = do r ← or_fail m (λ e. record { status = 500; message = e }); respond_ok (some r)

  -- `ticks` has what the node answers within the given time.
  unfoldable pub wait_for_balance :
      Result Error BalanceWaitRequest
      → (ℤ → List (Result Error ℕ))
      → Stateless (Reply BalanceWaitResponse)
  wait_for_balance body ticks = do
    req ← decoded body
    reject_if (is_empty req.network || is_empty req.address || not (is_positive req.expected)) 400
        (bytes "network, address and expected amount are required")
    by_network req.network
        (waited (wait_for_ethereum_balance req (ticks (timeout_of req.timeout_sec))))
        (waited (wait_for_bitcoin_balance req (ticks (timeout_of req.timeout_sec))))

-- One of the answers reaches what is expected.
unfoldable pub Reaches : ℤ → List (Result Error ℕ) → Type 0
Reaches expected [] = ⊥
Reaches expected (err _ ∷ ticks) = Reaches expected ticks
Reaches expected (ok b ∷ ticks) = (leb_int expected (int64 b) ≡ true) ⊎ Reaches expected ticks
