-- ===== src/Lib.antt =====
-- Monomer: an OP stack rollup node for Cosmos SDK applications.
--
-- The rollup node drives Monomer over the engine API (engine/engine.go). A payload's transactions
-- are turned into application transactions (adapters.go) and the builder (builder/builder.go) makes
-- a block of them and of those that wait in the mempool (mempool/mempool.go); the block is stored
-- in the local database (monomerdb/localdb/localdb.go), from which the APIs read and which is
-- rolled back when the rollup node asks for it.
--
-- Modules:
--   Prelude: shared names; Prelude/Outcome has the results of Go calls: a value, an error, or a
--     panic. Errors keep what errors.Is can see of them.
--   Bytes: byte strings with their order, Bytes/BigEndian: encoding/binary on 64 bits and
--     big.Int.Bytes.
--   KvStore: the interface of the databases below (cometbft-db and pebble): lookups, ranges in key
--     order, and batches; KvStore/Laws says what a batch leaves at a key, KvStore/Sorted what it
--     leaves in a range, KvStore/Memory is an instance that keeps the entries in a list.
--   Mempool: mempool/mempool.go. Pool.Enqueue is enqueue (its tail in enqueue_body and link_new),
--     Pool.Dequeue is dequeue, Pool.Len is len. Mempool/Chain relates a database to the list of
--     transactions it holds; Mempool/Enqueue and Mempool/Dequeue show that the operations refine a
--     queue; Mempool/Repeat is about a transaction that is enqueued twice.
--   Block: the data of monomer.go.
--   LocalDb: monomerdb/localdb. LocalDb/Keys has the buckets, LocalDb/Write has AppendBlock and
--     UpdateLabels, LocalDb/Lookup the reads, LocalDb/Rollback the rollback; the modules below them
--     prove what these do.
--   Adapters: adapters.go, with the round trip in Adapters/RoundTrip.
--   Builder: builder/builder.go. Builder/World has the parts of the Builder; Builder/Withdrawals is
--     parseWithdrawalMessages and what it calls, Builder/Drain the loop over the pool,
--     Builder/Results the loop over the results, Builder/Build is Build and publishEvents,
--     Builder/Reorg is Rollback. Prelude/Stateful chains calls that change a state: what was
--     changed before an error stays changed.
--   Engine: engine/engine.go. Engine/Attributes is PayloadAttributes and its ID (monomer.go),
--     Engine/Api is ForkchoiceUpdatedV3, Engine/Payloads is GetPayloadV3 and NewPayloadV3;
--     Engine/Handover, Engine/Once, Engine/Labels and Engine/Accepted are about how the calls
--     follow one another. A call is a step on the state of the engine. The API holds its lock for
--     writing, except in GetPayloadV3, which takes it for reading: that two calls of GetPayloadV3
--     overlap is left out.
--   Rollup: x/rollup. Rollup/Messages has the checks of msgs.go and params.go in x/rollup/types.
--     Rollup/Sdk states what the module takes from the Cosmos SDK: the bank of
--     types/expected_keepers.go, its store and its formats. Rollup/Keeper is keeper/keeper.go,
--     genesis.go and grpc_query.go, Rollup/Abi and Rollup/Deposits are keeper/deposits.go and
--     ApplyUserDeposit, Rollup/Withdrawals is keeper/withdrawals.go and the other handlers of
--     msg_server.go, by these names; Rollup/Books says what the calls of the bank do to the books,
--     Deposits/Credits, Deposits/Keeps, Deposits/Bridged and Deposits/Applied who gains by a
--     deposit, Withdrawals/Burns and Withdrawals/Handlers who loses by a withdrawal,
--     Rollup/RoundTrip puts both together. Rollup/Gas and Rollup/Ante are x/rollup/tx. A handler is
--     a step on the store, the bank and the events; that the Cosmos SDK undoes the steps of a
--     message that failed is not part of the model, and the theorems are about messages that
--     succeed.
--   Genesis: genesis/genesis.go, Genesis.Commit; Genesis/First is what can be read afterwards, with
--     LocalDb/Write/Labels.
--   Comet: comet/comet.go. Comet/Paginate is paginate and the loop that copies a page, Comet/Search
--     is TxAPI with its Search and ByHash, Comet/Api is BroadcastTxAPI, StatusAPI and BlockAPI,
--     Comet/Abci is ABCI. The transaction index with its query language, CheckTx of the application
--     and CometBFT's hashes are parameters; sort.Slice is a sort by insertion, since it promises no
--     order among equal results. Comet/Subscribe is SubscriberAPI over a parameter for CometBFT's
--     event bus: the goroutine of a subscription is a function of the turns of its select.
--     Comet/Included follows a transaction from a client into a block.
--   Txstore: app/peptide/txstore/txstore.go. Txstore/Ranges is about the keys of a height,
--     Txstore/Effect and Txstore/Rollback about RollbackToHeight; Bytes/Decimal is fmt's %d. The
--     indexer of CometBFT is a parameter.
--   Eth: eth/eth.go, eth/block_id.go and eth/api_backend.go; Eth/Reads is what clients are told.
--     go-ethereum's form of a block, its state and its numbers for the names of blocks are
--     parameters.
--   Node: node/node.go, prepareBlockStoreAndApp; Node/Start is what a start leaves behind, on
--     blocks and without any. Node/Reached has the states that a node goes through as a relation,
--     with the chain of headers in each of them; LocalDb/Linked, Genesis/Linked and
--     Builder/Build/Leaves are what each call does to that chain. The height of the application is
--     an argument, since it is what the application reports.
--   Environment: environment/environment.go; the goroutines are functions on the state, and the
--     order in which they end is a parameter. Environment/Close compares the loop of Close with a
--     plain recursion.
--   Evm: evm/evm.go, evm/executer.go, contracts/predeploys.go and the two executers of bindings,
--     over go-ethereum's EVM and ABI as a parameter. Evm/Interface makes of them the EVM that the
--     builder takes as a parameter, Evm/Provider states what the contracts do, Evm/Root follows the
--     hash of the application through a block.
--   Url: e2e/url/url.go, with Go's rules for the host and port of a URL; Url/Again is what parsing
--     a parsed URL gives.
--   Tests: encodings, a database and runs of the code.
--
-- The state of the pool and of the block store is the database alone; each operation takes it and
-- returns it with its result. A batch is the list of its writes, which are applied at once when it
-- is committed; a commit that fails leaves the database as it was. The hypothesis IsReliable says
-- that no call of the database fails; KvStore/Memory meets it. An error of closing a batch, a
-- snapshot or a value is part of a result where the code makes it one.
--
-- Parameters of the model are the databases, JSON (encoding/json), CBOR, SHA-256, CometBFT's
-- transaction hash, of which only the length of 32 bytes is used, go-ethereum's transactions and
-- the protobuf encoding of the deposits. In the builder the application, the transaction store, the
-- event bus and the EVM with its two contracts are parameters; Evm fills the latter. Loops are
-- recursion on lists, but for the loop of Build over the mempool and the loop of RollbackToHeight
-- over the heights, which take fuel: more than the pool has transactions is enough for the one, and
-- more than there are heights to go for the other.
--
-- Not modelled: the servers, overlapping calls, metrics and configuration, calls that are only
-- forwarded, the copy of go-ethereum's API, the generator and the sample application, generated
-- code, and the contracts.
pub mod Adapters
pub mod Block
pub mod Builder
pub mod Bytes
pub mod Comet
pub mod Engine
pub mod Environment
pub mod Eth
pub mod Evm
pub mod Genesis
pub mod KvStore
pub mod LocalDb
pub mod Mempool
pub mod Node
pub mod Prelude
pub mod Rollup
pub mod Tests
pub mod Txstore
pub mod Url
