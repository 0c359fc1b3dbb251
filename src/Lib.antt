-- ===== src/Lib.antt =====
-- The TypeScript and JavaScript of PayStream: the SDK (sdk/src), the hooks of the dashboard
-- (demo/src), and what decides in the server (api) and in the services beside it (services).
--
-- PayStream streams salaries on the Stellar network. The SDK builds calls of the stream contract,
-- has the network simulate them, and submits what the wallet has signed. The dashboard's hooks keep
-- the state that the pages show; they call the SDK and the wallet, and two of them count a stream's
-- claimable amount up between two polls. The server lets requests in by a token or an API key and
-- keeps approvals, templates and idempotency keys; the services calculate balances, record
-- snapshots of streams and migrate stream data.
--
-- Which file models which part:
--   Prelude        tests, lists, integers and dictionaries, and the names that all modules share
--   Js             the runtime: errors, `async` functions as state passing with a result that may
--                  be an error (Js/Async), values of unknown type (Js/Value), `Number` of an integer
--                  (Js/Double), doubles by their operations (Js/Float)
--   Sdk/Types, Sdk/Convert, Sdk/Requests, Sdk/Client
--                  sdk/src/types.ts, convert.ts and client.ts: `buildTx` is `build_tx`,
--                  `simulateRead` is `simulate_read`, `submitTransaction` is `submit_transaction`
--   Sdk/Abi        the signatures of contracts/stream/src/lib.rs that the client calls, and the
--                  struct `StreamParams` of types.rs; the order of keys that the host takes is a
--                  parameter
--   Sdk/Freighter  sdk/src/freighter.ts
--   Sdk/Poll       sdk/src/poll.ts, as a state machine
--   Demo/Counter   demo/src/useClaimableCounter.ts and useBalanceTicker.ts, and `claimable_amount`
--                  of contracts/stream/src/storage.rs
--   Demo/Employer, Demo/Stats   demo/src/useEmployerDashboard.ts
--   Demo/Employee  demo/src/useEmployeeDashboard.ts
--   Demo/PayStream demo/src/usePayStream.ts
--   Demo/Auth      demo/src/useAuth.ts
--   Demo/Balance   demo/src/useTokenBalance.ts, as a state machine
--   Demo/History   demo/src/useTransactionHistory.ts
--   Demo/Templates, Demo/Toasts, Demo/Csv, Demo/Validation
--                  demo/src/useStreamTemplates.ts, Toast.tsx, csvExport.ts, streamFormValidation.ts
--   Services/Balance, Services/Periods
--                  services/balance/balance.js
--   Services/Snapshot   services/snapshot/snapshotStore.js, over a storage that is an interface
--   Services/Migration  services/migration/migrationRunner.js; `migrate` and `rollback` in Runner
--   Services/Indexer    services/indexer/src/index.js: the cursor, the queue and the worker
--   Services/Notification
--                  services/notification/src/index.js: the messages, and in Poll the deliveries and
--                  the poll
--   Api/AuthLimiter     api/middleware/authRateLimiter.js
--   Api/ApiKeys, Api/Auth
--                  api/services/apiKeyService.js and api/middleware/auth.js, which calls it
--   Api/Workflow   the approvals of api/services/streamWorkflowService.js
--   Api/Templates  api/services/templateService.js
--   Api/Idempotency     api/middleware/idempotency.js, with the table of
--                  services/indexer/src/migrate.js
--   Samples        the parameters by small concrete functions, for the tests
--
-- Names are those of the source in snake case. A hook is a record of its states, with the state
-- `world` of all that lies outside; a function of it runs from its call to its end. Only the poller,
-- the balance and the counters are modelled event by event.
--
-- Parameters: the Stellar SDK and the RPC server (Sdk/Platform), the wallet extension, the service
-- that issues tokens, the server of the history, JSON, dates and doubles, the JWT library, the hash
-- functions, what a JSONB column makes of a body, what the random generator and the clock give, and the steps of the migrations.
--
-- Fuel: the confirmation loop has the 20 rounds that the source gives it. The loop of
-- `exportAllHistory` has none in the source, and takes fuel, of which the number of pages is enough.
-- So does the loop of `buildPeriods`, for which the number of seconds is enough.
-- `Number` halves at most 971 times, which is enough below 2^1024.
--
-- Numbers: times and amounts of the server and the services are natural numbers, and paused seconds
-- are integers; the doubles of JavaScript are exact for them below 2^53.
--
-- Not modelled: rendering, the contracts but for what is named above, the routes of the server, the
-- queries that fail, the delays and logs, the backend's queue and the other services.
pub mod Prelude
pub mod Js
pub mod Sdk
pub mod Demo
pub mod Services
pub mod Api
pub mod Samples
