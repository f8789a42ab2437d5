-- ===== src/Lib.antt =====
-- signature-escrow: the host server of a two-party signing service, its clients and their storage.
--
-- Two users, known by their Ethereum addresses, log in by signing a nonce, agree on a pair, send
-- each other messages, claim or cancel a session of key generation, and exchange signatures:
-- through the escrow, which releases each party's signature to the other only when both are valid,
-- or through the timebox, which hands a signature out an hour after it was stored. All of that is
-- kept in one key-value storage, but for the sessions and the nonces, which are in memory. Each
-- user runs a client, which is bound to the first owner that logs in to it and keeps the user's
-- accounts, exchanges, aliases and the history of co-signed transactions in a storage of its own;
-- it asks nodes for balances, makes, signs and sends transactions, and co-signs withdrawals with the
-- other party.
--
-- Parts and files:
--   Common, Text, Act      shared names; strings as lists of bytes with the functions of Go's package
--                          strings, hexadecimal and decimal text; and functions that return a value
--                          or an error and change a state
--   Storage                storage/storage.go: the interface `Storage` as a record of operations and
--                          laws; Storage/Encrypted is EncryptedStorage over any backend, and
--                          Storage/Memory a map
--   Storage/Disk           the calls of Go's package os that the file backend makes, over a tree of
--                          directories and files; a host can refuse each call
--   Storage/File           storage/file/file.go: FileBackend; Storage/File/Listing has List, and
--                          Storage/File/Store is FileStorage of storage/storage.go
--   Http                   server/server.go: replies and errors with their status codes
--   Validation             validation/validation.go
--   Auth                   auth/auth.go (VerifySignature, GenerateNonce); Auth/Token has the token and
--                          auth/middleware.go, Auth/Nonce is auth/nonce.go
--   Server/Index           the lists of ids in server/pairing.go and server/mailbox.go
--   Server/Pairing         server/pairing.go: pairCreate, pairAccept, pairPending, pairDelete
--   Server/Mailbox         server/mailbox.go: mailboxSend, mailboxPending, mailboxAck
--   Server/Session         server/session.go: claim, cancel and their handlers
--   Server/Login           server/auth.go: authNonce, authLogin
--   Server/Escrow          server/escrow.go: addFlower, pollinate, escrow, escrowCheck
--   Server/Timebox         server/timebox.go: timeboxPost, timeboxGet
--   Client/Exchange        client/exchange.go: the list of exchanges
--   Client/Cosign          client/cosign_history.go: the history of co-signed transactions
--   Client/Erc20           client/erc20.go: the call data of a transfer
--   Client/Withdrawal      client/withdrawal.go: who may co-sign in acceptWithdrawalTx; its module Sign
--                          has the co-signing, and Handlers sendWithdrawalTx, acceptWithdrawalTx,
--                          rotateECDSAPresign and parseAccountName of client/cosign_history.go
--   Client/Accounts        client/accounts.go: listAccounts, getAccount, deleteAccount
--   Client/Owner           client/auth.go: the login of a client, its owner and ownerGuard
--   Client/Aliases         client/aliases.go: the names of addresses
--   Client/Balance         client/balance.go: checkBalance, and waitForBalance in Client/Balance/Wait;
--                          erc20BalanceOf of client/erc20.go
--   Client/Tx              client/tx.go: createTxHash, decodeTx, gasPrice
--   Client/SendTx          client/send_tx.go: sendTransaction
--   Client/Sig             client/sig.go: sigToEthereum
--   Client/Keygen          client/keygen_ecdsa.go and client/keygen_frost.go
--   Client/Util            client/util.go: the checks of requests
--   Client/Node            what the client uses of go-ethereum and of the BlockCypher API
--   Client/Int64           the signed integers of 64 bits
-- The modules below each of these hold the proofs and are named for what they show; the modules Tests
-- run the code on concrete inputs, with the stand-ins of Server/Sample, Client/Sample and Auth/Sample.
--
-- How the code is read. A handler is a function of the decoded body, the caller's address (which
-- the middleware took from the token), the clock and the state, and gives the reply or the error
-- together with the state that it leaves; what was written before an error stays written. A request
-- is one step: the escrow, the sessions and the nonces hold a lock for it, while the pairs, the
-- mailbox and the timebox do not. Of the interleavings inside their requests, Server/Index/Race has
-- that of two additions to one index; the others are not modelled. The name of a definition is the
-- Go name in snake case, and early returns are `reject_if` and `or_respond`. Times are numbers of
-- nanoseconds. A map of Go is a function from keys to optional values. Storage keys are texts,
-- values are whatever the codec of their type gives; a slice that is empty and nil are the same.
--
-- Parameters: a storage with the laws of a map (Storage/File has what the program stores into, with
-- the calls that the host refuses and the random names of its temporary files), the answers of a
-- node and of the BlockCypher API, the results of the MPC protocols, codecs that decode what they
-- encoded (cbor), the points and scalars of multi-party-sig, go-ethereum's addresses, hashes and
-- key recovery, golang-jwt's signing and parsing, an AEAD cipher whose Open undoes Seal, and a
-- random source that fills a slice or fails. Bodies arrive decoded, since JSON is encoding/json's.
--
-- Loops are structural recursion on the list that they run over, or on the number of indices that
-- are left. A wait for a balance runs over the node's answers until the timeout, and os.CreateTemp
-- over the random names that it draws. Only the decimal text and the big-endian bytes of a number
-- count down fuel, at least the number itself, which is enough as each step divides by ten or by 256.
--
-- Not modelled: the gRPC relay, the runs of the MPC protocols, the transactional file backend (its
-- Transaction is a call of a library), the routers and the start of the program, logging, the text
-- form of times and of base64, and a sign in the text of a number.
pub mod Common
pub mod Text
pub mod Act
pub mod Storage
pub mod Http
pub mod Auth
pub mod Validation
pub mod Server
pub mod Client
