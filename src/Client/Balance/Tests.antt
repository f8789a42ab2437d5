-- ===== src/Client/Balance/Tests.antt =====
-- An account with ten ether, and one that is paid while the client waits.
use signature_escrow.Common.{ℕ, ltb, ◌&&◌, arith, ◌≡◌, refl, true, false, none, List, [], ◌∷◌, leb}
use signature_escrow.Text.{bytes, is_empty, ◌==◌, to_lower, lower_byte}
use signature_escrow.Act.{Result, ok, err}
use signature_escrow.Storage.{Error}
use signature_escrow.Http.{content}
use signature_escrow.Client.Int64.{pos, two_63}
use signature_escrow.Client.Balance.{
  Chains, BalanceCheckRequest, BalanceCheckResponse, is_ethereum, check_balance,
  check_balance_sufficient,
}
use signature_escrow.Client.Balance.Wait.{BalanceWaitRequest}

abbrev ten_ether : ℕ
ten_ether = 10_000_000_000_000_000_000

abbrev sample_chains : Chains
sample_chains = record {
  is_hex_address = λ t. true;
  address_bytes = λ t. t;
  dial = λ t. ok tt;
  balance_at = λ a. ok ten_ether;
  call_contract = λ t d. ok [];
  decode_address = λ t. ok tt;
  get_addr_bal = λ t. none;
}

abbrev request : BalanceCheckRequest
request = record { network = bytes "ETH"; address = bytes "0xab"; expected = pos 5; token = [] }

eth : is_ethereum (to_lower request.network) ≡ true
unfolding bytes to_lower lower_byte ◌==◌
eth = refl

named : is_empty request.network ≡ false
unfolding bytes
named = refl

addressed : is_empty request.address ≡ false
unfolding bytes
addressed = refl

check_balance_sufficient_example :
    (resp : BalanceCheckResponse) × ((check_balance sample_chains [] (ok request) tt).0
      ≡ ok (content resp))
    × (resp.is_sufficient ≡ leb 5 ten_ether && ltb ten_ether two_63)
check_balance_sufficient_example =
    check_balance_sufficient sample_chains [] request ten_ether 5 eth named addressed refl refl refl
      refl refl (omega arith)

abbrev ticks : List (Result Error ℕ)
ticks = err (bytes "EOF") ∷ ok 3 ∷ ok 7 ∷ ok 9 ∷ []

abbrev waiting : BalanceWaitRequest
waiting = record {
  network = bytes "eth";
  address = bytes "0xab";
  expected = pos 5;
  timeout_sec = pos 60;
}
