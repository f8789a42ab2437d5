-- ===== src/Client/Balance.antt =====
-- client/balance.go, and erc20BalanceOf of client/erc20.go: the balance of an address on its chain.
-- The chains' nodes are parameters.
pub mod Wait
mod Tests
use signature_escrow.Common.{
  ℕ, ◌<◌, ◌≤◌, ◌≡◌, leb, ltb, inl, inr, Bool-cases, arith, Bool, true, false, not, ◌&&◌, ◌||◌,
  Option, none, some, List, [], ◌∷◌, ◌++◌, if◌then◌else◌,
}
use signature_escrow.Text.{Text, bytes, ◌==◌, is_empty, to_lower}
use signature_escrow.Validation.{Bytes}
use signature_escrow.Act.{Result, ok, err, Act, pure, throw, lift, or_fail, continue, ◌>>=◌, ◌>>◌}
use signature_escrow.Storage.{Error}
use signature_escrow.Http.{HttpError, Reply, content, respond_ok, respond_error, reject_if, decoded}
use signature_escrow.Client.Erc20.{set_bytes, left_pad}
use signature_escrow.Client.Int64.{
  two_63, two_64, int64_small, int64_large, ℤ, pos, int64, leb_int, is_negative, is_positive,
}

-- ethclient, gobcy and btcutil. `get_addr_bal` gives `none` where the time is up first.
pub record Chains : Type 0 where
  pub is_hex_address : Text → Bool
  pub address_bytes : Text → Bytes
  pub dial : Text → Result Error (Unit {0})
  pub balance_at : Bytes → Result Error ℕ
  pub call_contract : Bytes → Bytes → Result Error Bytes
  pub decode_address : Text → Result Error (Unit {0})
  pub get_addr_bal : Text → Option (Result Error ℕ)

pub record BalanceCheckRequest : Type 0 where
  pub network : Text
  pub address : Text
  pub expected : ℤ
  pub token : Text

pub record BalanceCheckResponse : Type 0 where
  pub network : Text
  pub address : Text
  pub balance : ℤ
  pub expected : ℤ
  pub is_sufficient : Bool

abbrev pub is_ethereum : Text → Bool
is_ethereum network = network == bytes "ethereum" || network == bytes "eth"

abbrev pub is_bitcoin : Text → Bool
is_bitcoin network = network == bytes "bitcoin" || network == bytes "btc"

abbrev pub unsupported : Text → HttpError
unsupported network = record { status = 400; message = bytes "unsupported network: " ++ network }

-- `c.env.EthereumRPC` or the public node.
abbrev pub rpc_url : Text → Text
rpc_url configured =
    if is_empty configured then bytes "https://ethereum-rpc.publicnode.com" else configured

abbrev pub sel_balance_of : Bytes
sel_balance_of = 0x70 ∷ 0xa0 ∷ 0x82 ∷ 0x31 ∷ []

-- Handlers that keep no state.
abbrev pub Stateless : Type 0 → Type 0
Stateless A = Act HttpError (Unit {0}) A

abbrev pub Checked : Type 0 → Type 0
Checked A = Act Error (Unit {0}) A

abbrev pub requires : Bool → Error → Checked (Unit {0})
requires true e = pure tt
requires false e = throw e

abbrev pub failing : {A : Type 0} → Result Error A → Text → Checked A
failing r message = or_fail (lift r) (λ e. message ++ e)

abbrev pub answered : {A : Type 0} → Text → Checked A → Stateless (Reply A)
answered message m = do
  a ← or_fail m (λ e. record { status = 500; message = message ++ e })
  respond_ok (some a)

-- `switch strings.ToLower(network)`
abbrev pub by_network : {A : Type 0} → Text → Stateless A → Stateless A → Stateless A
by_network network eth btc =
    if is_ethereum (to_lower network)
    then eth
    else (if is_bitcoin (to_lower network) then btc else throw (unsupported network))

module _ (chains : Chains) (ethereum_rpc : Text) where
  abbrev pub amount_of : Result Error Bytes → Result Error ℕ
  amount_of (err e) = err (bytes "balanceOf call: " ++ e)
  amount_of (ok []) = ok 0
  amount_of (ok (b ∷ bs)) = ok (set_bytes (b ∷ bs))

  unfoldable pub erc20_balance_of : Bytes → Bytes → Result Error ℕ
  erc20_balance_of token holder =
      amount_of (chains.call_contract token (sel_balance_of ++ left_pad holder 32))

  -- `balance.Int64()` against what is expected.
  unfoldable pub compared : BalanceCheckRequest → ℕ → BalanceCheckResponse
  compared req balance = record {
    network = req.network;
    address = req.address;
    balance = int64 balance;
    expected = req.expected;
    is_sufficient = leb_int req.expected (int64 balance);
  }

  abbrev token_balance : BalanceCheckRequest → Checked ℕ
  token_balance req = do
    requires (chains.is_hex_address req.token)
        (bytes "invalid token contract address: " ++ req.token)
    failing (erc20_balance_of (chains.address_bytes req.token) (chains.address_bytes req.address))
        (bytes "failed to get balance: ")

  unfoldable pub balance_of : BalanceCheckRequest → Checked ℕ
  balance_of req =
      if not (is_empty req.token)
      then token_balance req
      else failing (chains.balance_at (chains.address_bytes req.address))
          (bytes "failed to get balance: ")

  unfoldable pub check_ethereum_balance : BalanceCheckRequest → Checked BalanceCheckResponse
  check_ethereum_balance req = do
    requires (chains.is_hex_address req.address) (bytes "invalid Ethereum address: " ++ req.address)
    failing (chains.dial (rpc_url ethereum_rpc)) (bytes "failed to connect to Ethereum client: ")
    balance ← balance_of req
    pure (compared req balance)

  abbrev in_time : Option (Result Error ℕ) → Checked ℕ
  in_time none = throw (bytes "timeout getting Bitcoin balance")
  in_time (some r) = failing r (bytes "failed to get Bitcoin balance: ")

  unfoldable pub check_bitcoin_balance : BalanceCheckRequest → Checked BalanceCheckResponse
  check_bitcoin_balance req = do
    or_fail (lift (chains.decode_address req.address))
        (λ _. bytes "invalid Bitcoin address: " ++ req.address)
    balance ← in_time (chains.get_addr_bal req.address)
    pure (compared req balance)

  unfoldable pub check_balance :
      Result Error BalanceCheckRequest → Stateless (Reply BalanceCheckResponse)
  check_balance body = do
    req ← decoded body
    reject_if (is_empty req.network || is_empty req.address || is_negative req.expected) 400
        (bytes "network and address are required; expected must be >= 0")
    by_network req.network
        (answered (bytes "failed to check balance: ") (check_ethereum_balance req))
        (answered (bytes "failed to check balance: ") (check_bitcoin_balance req))

  -- A check of an Ethereum balance that the node answers is answered with a reply that says
  -- sufficient exactly if the balance is at least the expected amount and below 2^63 wei.
  -- Conditions: the balance is below 2^64, the request is complete and names no token, and the
  -- address is one.
  pub check_balance_sufficient :
      (req : BalanceCheckRequest) (balance expected : ℕ)
      → is_ethereum (to_lower req.network) ≡ true
      → is_empty req.network ≡ false
      → is_empty req.address ≡ false
      → is_empty req.token ≡ true
      → req.expected ≡ pos expected
      → chains.is_hex_address req.address ≡ true
      → chains.dial (rpc_url ethereum_rpc) ≡ ok tt
      → chains.balance_at (chains.address_bytes req.address) ≡ ok balance
      → balance < two_64
      → (resp : BalanceCheckResponse) × ((check_balance (ok req) tt).0 ≡ ok (content resp))
        × (resp.is_sufficient ≡ leb expected balance && ltb balance two_63)
  unfolding check_balance check_ethereum_balance balance_of compared leb_int
  check_balance_sufficient req balance expected eth named addressed native wants hex up answer
        below =
      (
        compared req balance,
        ground (arith, eth, named, addressed, native, wants, hex, up, answer),
        elim (Bool-cases (ltb balance two_63)) [
          | inl small ↦ ground (arith, wants, small, int64_small balance (ground (arith, small)))
          | inr large ↦
              ground (arith, wants, large, int64_large balance (ground (arith, large)) below)
        ],
      )
