-- ===== src/Client.antt =====
-- Package client: what a user's own client keeps in its storage.
pub mod Exchange
pub mod Cosign
pub mod Withdrawal
pub mod Erc20
pub mod Accounts
pub mod Owner
pub mod Int64
pub mod Balance
pub mod Node
pub mod NodeSample
pub mod Util
pub mod Keygen
pub mod Aliases
pub mod Sig
pub mod Tx
pub mod SendTx
pub mod Sample
