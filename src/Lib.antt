-- ===== src/Lib.antt =====
-- zbag, a desktop and command-line wallet for Zcash: the core of its engine (crates/zbag-engine).
--
-- The engine builds, proves and broadcasts transactions in background jobs, keeps what could not be
-- broadcast in a queue on disk, retries it on a schedule with failover between lightwalletd servers,
-- and asks for a fresh password before it spends. A wallet's database opens with a key that is
-- stored wrapped under the password. Swaps are quoted and watched at an outside service. The parts
-- here, and how they interact:
--
--   Broadcast    crates/zbag-engine/src/broadcast.rs: the class of an error message, the retry
--                budget, the schedule and its jitter. Used by RetryQueue, Retry and Jobs.
--   RetryQueue   the records of the queue, in tx_service.rs (`apply_retry_policy`,
--                `normalize_queued_broadcast_meta`, `queue_broadcast`,
--                `update_queued_broadcast_error`) and job_service.rs (`queue_broadcast_for_retry`);
--                Scan: the scan of the directory and the list of what is due. Policy, Writes,
--                Scan/Kept and Scan/Due hold the proofs.
--   GrpcUrl      grpc_url.rs: which endpoints are valid.
--   Servers      db/server_meta.rs, server_resolver.rs and `try_failover_server` of tx_service.rs:
--                the table of servers, the endpoint that is used, the failover.
--   Retry        `retry_broadcast` of tx_service.rs: the loop that sends, fails over and records.
--   Jobs         crates/zbag-core/src/domain/job.rs and job_service.rs: Types and Progress are the
--                records, Service the operations under the mutex, Send the task of a send job.
--   Reauth       reauth.rs: the tokens of a fresh password check.
--   Proposals    tx_service.rs: proposals and signing requests that wait for their execution;
--                Account: `resolve_wallet_account_uuid` and account_key_source.rs; Prepare: what
--                `prepare_send` checks, and in Prepare/Send the operation, which uses SendRules;
--                Confirm: the loop of `confirm_send` over its transactions, and in Confirm/Run the
--                operation, which uses SendRules, Broadcast and RetryQueue. The other children hold
--                proofs.
--   SendRules    tx_service.rs: what may be sent, and by which account.
--   Sync         sync_service.rs: the adaptive size of the download batches (Batch), the starts and
--                stops of a sync and the guards of its blocking scans (Starts), how often balances
--                are told (Throttle), the task that `start_sync` spawns (Task: Batches is its loop
--                over the batches of a range, Machine its steps), the download task and the channel
--                between it and the scan (Pipeline), and what `update` makes of a progress,
--                `with_eta` (Progress). Batch/Sizes, Starts/Guards, Task/Paced, Task/Caught,
--                Task/Steady, Pipeline/Joined, Pipeline/Order and Progress/Percent hold proofs.
--   Encryption   encryption.rs, and the encrypted phrase of wallet_manager.rs (Mnemonic): the
--                parameters that are accepted, the wrapped key. Used by Wallets. Accepted and
--                Wrapping hold proofs.
--   Wallets      wallet_manager.rs: the manager's record, the key of a password, in Session the
--                loading, unlocking, locking and leaving of a wallet, and in Creation the new,
--                restored and imported ones; Access: reauthentication,
--                tokens and the seed phrase; Backup: the challenge that proves a backup; Retries:
--                the tasks that retry a queued broadcast; Context: what an operation takes out of
--                the mutex; Status: `compute_wallet_status`, and in Status/Observers what changes
--                the status and `maybe_emit_wallet_status`, which tells it. Status/Synced puts them
--                behind the task of Sync. Session/Machine and Session/Runs relate the manager to the
--                session of three states in Session/Sealed; the other children hold proofs.
--   Birthday     birthday.rs: the height of a date, from checkpoints or from the average block time.
--   Swap         swap_service.rs and db/swap_meta.rs: the states of a swap; Amounts: decimal amounts
--                to smallest units; Polling: the task that watches a swap; Refresh: a refresh on
--                demand and its guard; Quotes: the quotes that are kept and the start of a swap;
--                Quotes/Assets: the decimals of an asset and the request for a quote; Confirmed: the
--                search for the payment of a swap in the wallet's transactions. The other children
--                hold proofs.
--   Base         shared types, texts, maps and lemmas. Examples holds concrete runs.
--
-- A method of a service becomes a function from its state, and from the answers of what it calls, to
-- the new state and the result. A `HashMap` is an association list with one operation per method; a
-- `Uuid` is a number; a `String` is the list of its code points; an `i64` is an integer with the
-- saturation written out, a `u32` a number with the saturation written out. The state behind a mutex
-- changes in one step for each time that the lock is held. `&mut WalletManager` is the record
-- `Manager`, and a method returns the manager as it left it with its `Result`. A refresh of a swap,
-- which holds no lock while it asks the service, is two steps (`begin_refresh`, `finish_refresh`).
-- The task that watches a swap goes through a list of rounds (`Round`), one for each turn of its
-- loop. The task of a sync is at a place where it looks around, and `step` takes the place and the
-- answer that it finds there to the next place and to what it does on the way, a list of effects; a
-- worker on a blocking thread that failed is the answer `none`. The two sides of the channel take
-- turns in any order, so that they are a relation of steps. In `Swap.Amounts` an unchecked sum
-- wraps, as it does in a release build.
--
-- Bounds and fuel: the loop of `retry_broadcast` runs on fuel. Each round adds one to the attempt
-- count and goes on only below 7 attempts, so that fuel for what is left of 7 is enough. The decimal
-- digits of a number run on fuel too: 10 for a `u32`, 20 for a `u64` and 39 for a `u128`, which are
-- the digits of the largest ones. All other loops follow the structure of a list or of a number.
--
-- Parameters, for code that is not in the repository: `to_lowercase` of the standard library,
-- `Url::parse`, the gRPC relay, the probe of a server, the clock, the draws of the random numbers
-- and of ids, what a send job learns from the wallet database and the prover (the record `SendEnv`),
-- base64, Argon2id and XChaCha20-Poly1305 (the record `Crypto`), whether a database opens with a key
-- (`opens_db` of the record `World`), the answers of the swap service, and the rows of the view
-- `v_transactions` of zcash_client_sqlite (`opens` of Swap.Confirmed), the transparent totals that
-- the same library has of a wallet (`summary` of Wallets.Status), what `prepare_send` asks of the
-- zcash libraries and reads in the wallet's database (the record `Outside`), what `confirm_send`
-- learns from the prover, the database, the relay and the file system (the record `Confirming`), and
-- whether a tokio task ends (`joined` of Sync.Task.Batches). `eta` of Sync.Progress stands for the
-- remaining time, which the source takes from floating-point rates. No theorem assumes anything of
-- them, save where its statement says so. `scanned`, `resolved`, `due`, `retry` and `send` stand for
-- calls of other parts, which have their own modules.
--
-- Not modelled: the accounts of a new wallet, the abort of a send job by `cancel_job`, the calls of `maybe_emit_wallet_status`
-- at the end of other operations, the balances and addresses, the shield job, the cache of blocks,
-- the scan of a batch with its rewind, the memos that a sync adds, the tree sizes at a birthday, the
-- Tor and HTTP clients, the SQL tables besides those of servers and swaps, the command line, the
-- application's commands and its TypeScript views. These are I/O around libraries, or parts that the
-- model does not reach yet. Log lines are left out everywhere, and so are the fee field of a quote,
-- a constant, a clock before 1970 in a failover (`commit_failover`), and failures of the
-- application's own database, save in `confirm_send`, in the start of a swap and in the creation of wallets.
pub mod Base
pub mod Birthday
pub mod Broadcast
pub mod RetryQueue
pub mod Encryption
pub mod GrpcUrl
pub mod Servers
pub mod Retry
pub mod Jobs
pub mod Reauth
pub mod Proposals
pub mod SendRules
pub mod Swap
pub mod Sync
pub mod Wallets
pub mod Examples
