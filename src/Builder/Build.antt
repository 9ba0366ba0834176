-- ===== src/Builder/Build.antt =====
-- builder/builder.go: `Build`
pub mod Keeps
pub mod Leaves
pub mod Extends
use monomer.Prelude.{
  String, ℕ, suc, ◌+◌, ◌%◌, ◌^◌, ◌≡◌, refl, Bool, true, false, Option, none, some, List, [], ◌∷◌,
  length, map, Result, ok, err, panic, failing,
}
use monomer.Prelude.Stateful.{Step, ◌>>=◌, ◌>>◌, pure, reading, on}
use monomer.Bytes.{Bytes}
use monomer.Bytes.BigEndian.{u64_mod}
use monomer.Block.{Header, Block, zero_hash}
use monomer.Block.Hash.{CometHeader, header_to_comet, make_block}
use monomer.LocalDb.Lookup.{head_header}
use monomer.LocalDb.Write.{append_block}
use monomer.Builder.Withdrawals.{ExecTxResult, store_app_hash_in_evm, parse_withdrawal_messages}
use monomer.Builder.World.{
  World, BuilderState, Payload, FinalizeRequest, FinalizeResponse, TxResult, Published, event_tx,
  new_block_events, new_block, new_block_header,
}
use monomer.Builder.Results.{index_results}
use monomer.Builder.Drain.{drain}

abbrev pub failing_at {ℓ κ} : {S : Type ℓ} {A : Type κ} → String → Step S A → Step S A
failing_at m step s = let (r, s') = step s in (failing m r, s')

module _ (W : World) where
  -- The calls on one part of the builder.
  abbrev pub on_app {κ} : {A : Type κ} → Step W.app.State A → Step (BuilderState W) A
  on_app = on (λ s. s.app) (λ s t. record s { app = t })

  abbrev pub on_blocks {κ} : {A : Type κ} → Step W.block_db.Db A → Step (BuilderState W) A
  on_blocks = on (λ s. s.block_store) (λ s t. record s { block_store = t })

  abbrev pub on_txs {κ} : {A : Type κ} → Step W.tx_store.State A → Step (BuilderState W) A
  on_txs = on (λ s. s.tx_store) (λ s t. record s { tx_store = t })

  abbrev pub on_bus {κ} : {A : Type κ} → Step W.event_bus.State A → Step (BuilderState W) A
  on_bus = on (λ s. s.event_bus) (λ s t. record s { event_bus = t })

  abbrev pub on_disk {κ} : {A : Type κ} → Step W.evm.Disk A → Step (BuilderState W) A
  on_disk = on (λ s. s.eth_statedb) (λ s t. record s { eth_statedb = t })

  -- The header of the block to build, before its state root and hash are known.
  unfoldable pub next_header : Payload → Header → Header
  next_header p current = record {
    chain_id = W.chain_id;
    height = (current.height + 1) % u64_mod;
    time = p.timestamp;
    parent_hash = current.hash;
    state_root = zero_hash;
    parent_beacon_root = p.parent_beacon_root;
    gas_limit = p.gas_limit;
    hash = zero_hash;
    coinbase = p.coinbase;
  }

  -- The transactions of the block: those of the payload, then everything that waits in the pool.
  unfoldable pub take_txs : ℕ → Payload → W.pool_db.Db → Option (Result (List Bytes) × W.pool_db.Db)
  take_txs fuel p d = elim p.no_tx_pool [
    | true ↦ some (ok p.injected_transactions, d)
    | false ↦ drain W.pool_db W.tx_codec fuel p.injected_transactions d
  ]

  -- `publishEvents`
  unfoldable pub publish : Published → Step (BuilderState W) (Unit {0})
  publish e = on_bus (W.event_bus.publish e)

  unfoldable pub publish_txs : List TxResult → Step (BuilderState W) (Unit {0})
  publish_txs [] = pure tt
  publish_txs (r ∷ rs) = do failing_at "publish tx event" (publish (event_tx r)); publish_txs rs

  unfoldable pub publish_events :
      List TxResult → Block → FinalizeResponse → Step (BuilderState W) (Unit {0})
  publish_events results block resp = do
    publish_txs results
    failing_at "publish new block events event"
        (publish (new_block_events block.header.height resp.events (length block.txs)))
    failing_at "publish new block event" (publish (new_block block resp block.header.hash))
    failing_at "publish new block header event"
        (publish (new_block_header (header_to_comet block.header)))

  -- `Build` up to the state root: the application runs the transactions, and the EVM state takes the
  -- app hash and the withdrawals.
  unfoldable pub execute :
      Header
      → Header
      → List Bytes
      → Step (BuilderState W) (Bytes × List TxResult × FinalizeResponse)
  execute current header txs = do
    app_hash ← failing_at "info" (reading (λ s. W.app.info s.app))
    resp ← failing_at "finalize block" (
        on_app (
          W.app.finalize_block (record {
            txs = txs;
            hash = W.comet_hash (record (header_to_comet header) { app_hash = app_hash });
            height = header.height;
            time = header.time;
          })))
    failing_at "commit" (on_app W.app.commit)
    eth_state ←
        failing_at "create ethereum state"
          (reading (λ s. W.evm.new_state s.eth_statedb current.state_root))
    eth_state ←
        failing_at "store app hash in EVM"
          (reading (λ s. store_app_hash_in_evm W.formats W.evm header resp.app_hash eth_state))
    (results, eth_state) ←
        reading (λ s. index_results W.formats W.evm header 0 txs resp.tx_results eth_state)
    root ← failing_at "commit ethereum state" (on_disk (W.evm.commit_state eth_state header.height))
    pure (root, results, record resp { tx_results = map (λ r. r.result) results })

  -- `Build` from the transaction index on.
  unfoldable pub finish : List TxResult → FinalizeResponse → Block → Step (BuilderState W) Block
  finish results resp block = do
    failing_at "add tx results" (on_txs (W.tx_store.add results))
    failing_at "publish events" (publish_events results block resp)
    pure block

  -- `Build` from the block store on.
  unfoldable pub store_block :
      List TxResult → FinalizeResponse → Block → Step (BuilderState W) Block
  store_block results resp block = do
    failing_at "append block" (on_blocks (append_block W.block_db W.block_codec block))
    finish results resp block

  -- `Build` from the state root on.
  unfoldable pub build_block :
      Header → List Bytes → Bytes × List TxResult × FinalizeResponse → Step (BuilderState W) Block
  build_block header txs (root, results, resp) = do
    block ← failing_at "make block" (
        reading
          (λ s. make_block W.eth_codec W.eth_block_hash (record header { state_root = root }) txs))
    store_block results resp block

  -- `Build` from the new header on.
  unfoldable pub build_after : Payload → List Bytes → Header → Step (BuilderState W) Block
  build_after p txs current = do
    executed ← execute current (next_header p current) txs
    build_block (next_header p current) txs executed

  -- `Build` from the head of the chain on.
  unfoldable pub build_on : Payload → List Bytes → Step (BuilderState W) Block
  build_on p txs = do
    current ←
        failing_at "header by height"
          (reading (λ s. head_header W.block_db W.block_codec s.block_store))
    build_after p txs current

  -- `Build`; `none` when the fuel for the loop over the pool is used up.
  unfoldable pub build : ℕ → Payload → BuilderState W → Option (Result Block × BuilderState W)
  build fuel p s = elim (take_txs fuel p s.mempool) [
    | none ↦ none
    | some (ok txs, d) ↦ some (build_on p txs (record s { mempool = d }))
    | some (err e, d) ↦ some (err e, record s { mempool = d })
    | some (panic m, d) ↦ some (panic m, record s { mempool = d })
  ]
