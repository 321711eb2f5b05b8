-- ===== src/Lib.antt =====
-- goipay: a payment processor for crypto currencies, behind gRPC services and a PostgreSQL database.
--
-- The program. `CreateInvoice` (internal/handler/v1/invoice.go) passes a request on to
-- `PaymentProcessor` (internal/processor/main.go), which finds the processor of the coin. That
-- processor, `baseCryptoProcessor` (internal/processor/base.go), takes a free address of the user or
-- derives a new one, stores the invoice and watches it: an entry of the map of pending invoices, a
-- pointer to the invoice and a timer. The listener of the coin (internal/listener) polls the daemon
-- and broadcasts blocks and transactions; for each of these the processor starts a goroutine per
-- pending invoice, which finds out what the transaction pays, records it, and confirms or expires
-- the invoice. The user services (internal/handler/v1/user.go) register users and their keys.
--
-- The files, and the code that they model.
--   Base: shared names; Base/Word and Base/Float are Go's fixed-width integers and float64.
--   Error: the errors of all packages, and results.
--   Coin, Coin/Mapping: the enumerations of internal/db/models.go and internal/pb/v1, and their
--     conversions in internal/util/mapping.go. Coin/RoundTrip: their laws.
--   Db/Models: the rows of internal/db/models.go and the tables. Db/Session: a transaction.
--     Db/Invoices, Db/Addresses, Db/Users, Db/CryptoData, Db/XmrData: the statements of
--     internal/db/*.sql.go, with the constraints of the schema. Db/InvoiceLaws, Db/Indices: laws.
--     Db/Scan: the `Scan` and `Value` methods of internal/db/models.go.
--     Db/Ledger, Db/Ledger/Queries: what the statements may do to the table of invoices.
--   SyncMap: internal/util/sync.go, with SyncMap/Refines.
--   Listener/Executor: internal/listener/base.go; Listener/Tx, Listener/Network and Listener/Client:
--     the clients of the coins, in the other files of internal/listener. Listener/Blocks,
--     Listener/Pool, Listener/Confirmations: their theorems.
--   Processor/Tokens, Processor/Verify: what a transaction pays (eth_base.go, btc.go, ltc.go of
--     internal/processor), with Processor/Payments; Processor/Monero: the same for xmr.go, with
--     Processor/Scanned. Processor/Address: the next address of a user.
--   Processor/Create: `createInvoice`, with Processor/Created, Processor/HdAddress and
--     Processor/Derived.
--     Processor/State: the state that the goroutines share; Processor/Confirm and
--     Processor/Lifecycle: the goroutines, with Processor/Settled, Processor/Confirmed,
--     Processor/Mempool, Processor/Paid, Processor/Revived, Processor/Stale and
--     Processor/Again. Processor/Steps:
--     those goroutines in every order, with Processor/Keeps, Processor/Cells, Processor/Owned,
--     Processor/Live, Processor/Lost, Processor/Linked with its Pointers and Reached, and, on the
--     table of invoices, Processor/Ledger with its Handlers, Steps, Created and Reached.
--     Processor/Dispatch: the goroutines that `load` starts for blocks and transactions.
--   Processor/Manager: internal/processor/main.go, with Processor/Routing, Processor/Watching and
--     Processor/Restart. Processor/SetUp: how each processor is made, with Processor/Configured;
--     Processor/Load: the end of NewPaymentProcessor and load, which reloads and starts them.
--     Processor/Subscribers: the channels of changed invoices. Processor/Pipeline: the processor
--     together with them, with Processor/Told and its Goroutines, Bodies, Steps and Readers.
--     Processor/Resume, with its Runs and Restarts: the cached height, and the listener that each
--     start begins there.
--   Handler/Users, Handler/Invoices: internal/handler/v1, with Handler/Registered,
--     Handler/Keys and Handler/Requests. Handler/Stream: `InvoiceStatusStream`.
--   App/Config, App/Credentials, App/Interceptors, App/Start: internal/app, with App/Served.
--   App/Main: cmd/server.
--   Tests: the theorems at concrete inputs.
--
-- How state is modelled. The tables are lists of rows; a statement is a function on them that
-- returns a row, finds none or violates a constraint. A transaction carries the tables as it sees
-- them and the failures of the connection that the outside has in store, one for each call; after
-- an error every later statement fails and the commit rolls back. A goroutine runs from its start
-- to its end in one step; the goroutines that it starts are kept as a list of tasks, which
-- `Processor.Steps.Step` runs in any order. Where a transaction waits for a row that another holds
-- for ever, the goroutine hangs and its rows stay locked. A coin's own handlers are fields of a
-- record that the processor's definitions take.
--
-- Bounds and fuel. Machine integers are natural numbers with the wrap-around written out; a signed
-- one is its bit pattern. A float64 is its bit pattern, with the comparisons defined on it. The loop
-- of `syncBlock` runs on fuel: one more than the number of blocks to the daemon's height, which is
-- enough since each round moves one block up or stops. All other loops are structural.
--
-- Parameters. Rounding arithmetic on float64, the libraries for keys, addresses, UUIDs, YAML and
-- certificates, the file system, the daemons' answers, the clocks, new UUIDs, rows that other
-- transactions lock, and the order in which Go goes through a map.
--
-- Not modelled. The logger but for its level, the pool of database connections, the migrations, and
-- the sockets of the gRPC server: input and output. The generated code of internal/pb beyond its
-- types. The mocks and the tests. Channels, tickers and timers: the orders in which they fire are
-- arguments or steps. The statements of two goroutines do not interleave, but for the transaction
-- that `expireInvoice` opens within another. The handler of Monero transactions may end the program,
-- and the record of a coin's handlers has no place for that: it is modelled on its own, and not as a
-- step of the goroutines.
pub mod Base
pub mod Error
pub mod Coin
pub mod Db
pub mod Listener
pub mod SyncMap
pub mod Processor
pub mod Handler
pub mod App
pub mod Tests
