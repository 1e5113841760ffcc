-- ===== src/Lib.antt =====
-- A model of the packages of cemp-mobile, an end-to-end encrypted messenger whose messages are cells
-- on the CKB chain, with proofs about the parts that keep its state and judge its inputs.
--
-- The parts. The database package holds the rows that survive a crash: messages with their state
-- machine, worker leases, wallet balances, the journal of outgoing transactions and the watched
-- outpoints. The ckb package limits rates, waits for transactions and resumes a journalled one;
-- its life cycle takes a sent message from its receipt to the reclaim of its cell.
-- The core package decodes and validates what comes from the chain and judges a contact's profile.
-- The sync package runs workers under leases, counts their failures and picks an endpoint. The lora,
-- secure-vault, images and ui packages stand at the edges: a gateway's answers, the vault that keeps
-- the seed under a password, image manifests and the capacity they free, the composer and the bubble of a message. They meet in
-- the tables: the engine takes leases of Database/Leases.antt, the composer writes the messages of
-- Database/Messages.antt, a reclaim moves the balances of Database/Balances.antt.
--
-- The files, each with the source that it follows:
--   Prelude.antt                        library names, lists, tests, results
--   Core/Bytes.antt, Core/Codec.antt    packages/cemp-core/src/codec/codecs.ts
--   Core/Validate.antt                  packages/cemp-core/src/codec/validate.ts
--   Core/ProfileTrust.antt              packages/cemp-core/src/profile-trust.ts
--   Database/Table.antt                 the SQL statements that the repositories use
--   Database/Errors.antt                packages/cemp-database/src/errors.ts
--   Database/MessageStates.antt         packages/cemp-database/src/message-states.ts
--   Database/Messages.antt              packages/cemp-database/src/repositories/messages.ts
--   Database/Leases.antt                packages/cemp-database/src/repositories/worker-leases.ts
--   Database/Balances.antt              packages/cemp-database/src/repositories/balances.ts
--   Database/OutgoingTransactions.antt  packages/cemp-database/src/repositories/outgoing-transactions.ts
--   Database/WatchedOutpoints.antt      packages/cemp-database/src/repositories/watched-outpoints.ts
--   Ckb/RateLimit.antt                  packages/cemp-ckb/src/rate-limit.ts
--   Ckb/Discovery.antt                  packages/cemp-ckb/src/discovery.ts
--   Ckb/Monitor.antt                    packages/cemp-ckb/src/monitor.ts
--   Ckb/SpentMessage.antt               the regular expression of the same file
--   Ckb/Lifecycle.antt                  packages/cemp-ckb/src/lifecycle.ts, over
--                                       packages/cemp-database/src/repositories/publication-store.ts
--   Sync/Endpoints.antt                 packages/cemp-sync/src/endpoints.ts
--   Sync/Retry.antt                     packages/cemp-sync/src/retry.ts
--   Sync/Engine.antt                    packages/cemp-sync/src/engine.ts
--   Lora/Transport.antt                 packages/cemp-lora/src/transport.ts
--   Vault/Payload.antt, Vault/File.antt packages/cemp-secure-vault/src/format.ts
--   Vault/Kdf.antt, Vault/Errors.antt   packages/cemp-secure-vault/src/kdf.ts and errors.ts
--   Vault/Machine.antt                  packages/cemp-secure-vault/src/vault.ts
--   Images/Manifest.antt                packages/cemp-images/src/manifest.ts and codec.ts
--   Images/Reclaim.antt                 packages/cemp-images/src/reclaim.ts and capacity.ts
--   Ui/Bubble.antt, Ui/Composer.antt    packages/cemp-ui/src/bubble.ts and composer.ts
-- The modules below a file hold its proofs; those called Examples run them on concrete data.
--
-- How the code is read. A table is the list of its rows in the order of their ids, a repository's
-- method a function from the table to a result and the table; a transaction that throws leaves the
-- table as it was. Names are the source's in another spelling (`transitionState` is
-- `transition_state`). Times and random bytes are arguments. A list of repository calls stands for any
-- interleaving of the engines, whose transactions SQLite runs one after another. The rate limiter's
-- methods are no transactions: they are sequences of awaited calls of the store, and calls that overlap
-- are not covered by its bound. Shannon amounts are BigInt in the source and do not wrap, but for the
-- fee's own statement, which SQLite computes on 64-bit integers. Tokens of the rate limiter and delays
-- are exact fractions, without the rounding of floats. A method of the vault or of the response life
-- cycle is a function from its fields and its storage to a value or an error and the fields and
-- storage after it, which are kept when it throws; a call of the chain client may throw where its
-- answer is one; one call of a method ends before the next begins. No definition needs fuel: each loop
-- runs over a list.
--
-- Not modelled: the chain client and its RPC, building and signing transactions, the ciphers and the
-- Molecule library (the decoders are parameters), the vault's mnemonic quiz, the publisher and the
-- background workers, SQL text and migrations, screens and native code.
pub mod Prelude
pub mod Core
pub mod Database
pub mod Ckb
pub mod Sync
pub mod Lora
pub mod Vault
pub mod Images
pub mod Ui
