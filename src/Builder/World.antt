-- ===== src/Builder/World.antt =====
-- builder/builder.go: the `Builder`, with what it is made of.
use monomer.Prelude.{ℕ, Bool, Option, List, Result}
use monomer.Bytes.{Bytes}
use monomer.KvStore.{KvStore}
use monomer.Mempool.{TxCodec}
use monomer.LocalDb.Keys.{BlockCodec}
use monomer.Adapters.{EthCodec}
use monomer.Block.{Block}
use monomer.Block.Hash.{EthHeader, CometHeader}
use monomer.Builder.Withdrawals.{Event, ExecTxResult, Formats, Evm}

pub record Payload : Type 0 where
  pub injected_transactions : List Bytes
  pub gas_limit : ℕ
  pub timestamp : ℕ
  pub no_tx_pool : Bool
  pub parent_beacon_root : Option Bytes
  pub coinbase : Bytes

-- ABCI's `RequestFinalizeBlock`, `ResponseFinalizeBlock` and `TxResult`, as far as they are used.
pub record FinalizeRequest : Type 0 where
  pub txs : List Bytes
  pub hash : Bytes
  pub height : ℕ
  pub time : ℕ

pub record FinalizeResponse : Type 0 where
  pub tx_results : List ExecTxResult
  pub app_hash : Bytes
  pub events : List Event

pub record TxResult : Type 0 where
  pub height : ℕ
  pub index : ℕ
  pub tx : Bytes
  pub result : ExecTxResult

-- `monomer.Application`: the calls that the builder makes.
pub record Application : Type 1 where
  pub State : Type 0
  pub info : State → Result Bytes
  pub finalize_block : FinalizeRequest → State → Result FinalizeResponse × State
  pub commit : State → Result (Unit {0}) × State
  pub rollback_to_height : ℕ → State → Result (Unit {0}) × State

-- `txstore.TxStore`: the calls that the builder makes.
pub record TxStore : Type 1 where
  pub State : Type 0
  pub add : List TxResult → State → Result (Unit {0}) × State
  pub rollback_to_height : (target current : ℕ) → State → Result (Unit {0}) × State

-- What goes over CometBFT's event bus.
pub data Published : Type 0 where
  event_tx : TxResult → Published
  new_block_events : (height : ℕ) → List Event → (num_txs : ℕ) → Published
  new_block : Block → FinalizeResponse → (block_hash : Bytes) → Published
  new_block_header : CometHeader → Published

pub record EventBus : Type 1 where
  pub State : Type 0
  pub publish : Published → State → Result (Unit {0}) × State

-- The parts of one node.
pub record World : Type 1 where
  pub pool_db : KvStore
  pub tx_codec : TxCodec
  pub block_db : KvStore
  pub block_codec : BlockCodec
  pub eth_codec : EthCodec
  pub eth_block_hash : EthHeader → List eth_codec.Tx → Bytes
  pub comet_hash : CometHeader → Bytes
  pub formats : Formats
  pub evm : Evm
  pub app : Application
  pub tx_store : TxStore
  pub event_bus : EventBus
  pub chain_id : ℕ

-- What a `Builder` points to.
pub record BuilderState (W : World) : Type 0 where
  pub mempool : W.pool_db.Db
  pub app : W.app.State
  pub block_store : W.block_db.Db
  pub tx_store : W.tx_store.State
  pub event_bus : W.event_bus.State
  pub eth_statedb : W.evm.Disk
