-- ===== src/Engine/Payloads.antt =====
-- engine/engine.go: `GetPayloadV3` and `NewPayloadV3`, and V1 and V2, which call them.
use monomer.Prelude.{
  ℕ, Bool, true, false, Option, none, some, List, [], ◌∷◌, Error, coded, is_not_found,
  generic_server_error, invalid_params, Result, ok, err, panic, if◌then◌else◌, ◌>>=◌,
}
use monomer.Bytes.{Bytes, bytes_eq}
use monomer.Block.{Block}
use monomer.LocalDb.Lookup.{db_header_by_hash, head_header}
use monomer.Adapters.{adapt_cosmos_txs_to_eth_txs}
use monomer.Builder.World.{World, BuilderState, Payload}
use monomer.Builder.Build.{build}
use monomer.Engine.Attributes.{PayloadAttributes, payload_id}
use monomer.Engine.Api.{
  EngineState, PayloadStatus, status_valid, status_invalid_block_hash, server_error,
}

-- `eth.ExecutionPayload`
pub record ExecutionPayload : Type 0 where
  pub parent_hash : Bytes
  pub block_number : ℕ
  pub block_hash : Bytes
  pub fee_recipient : Bytes
  pub timestamp : ℕ
  pub prev_randao : Bytes
  pub withdrawals : Option (List Bytes)
  pub transactions : List Bytes
  pub gas_limit : ℕ
  pub state_root : Bytes

-- `NewPayloadV3` returns a status with an error for a block that it does not know.
pub record NewPayloadAnswer : Type 0 where
  pub status : Option PayloadStatus
  pub error : Option Error

abbrev pub builder_payload : PayloadAttributes → Payload
builder_payload a = record {
  injected_transactions = a.cosmos_txs;
  gas_limit = a.gas_limit;
  timestamp = a.timestamp;
  no_tx_pool = a.no_tx_pool;
  parent_beacon_root = a.parent_beacon_block_root;
  coinbase = a.suggested_fee_recipient;
}

abbrev pub execution_payload : PayloadAttributes → Block → List Bytes → ExecutionPayload
execution_payload a block txs = record {
  parent_hash = a.parent_hash;
  block_number = a.height;
  block_hash = block.header.hash;
  fee_recipient = a.suggested_fee_recipient;
  timestamp = a.timestamp;
  prev_randao = a.prev_randao;
  withdrawals = a.withdrawals;
  transactions = txs;
  gas_limit = a.gas_limit;
  state_root = block.header.state_root;
}

module _ (W : World) (marshal_binary : W.eth_codec.Tx → Result Bytes) (sha256 : Bytes → Bytes) where
  -- The loop over the transactions of the block.
  unfoldable pub marshal_txs : List W.eth_codec.Tx → Result (List Bytes)
  marshal_txs [] = ok []
  marshal_txs (tx ∷ txs) = do
    b ← server_error "marshal tx binary" (marshal_binary tx)
    bs ← marshal_txs txs
    ok (b ∷ bs)

  unfoldable pub payload_txs : Block → Result (List Bytes)
  payload_txs block = do
    txs ←
        server_error "convert cosmos txs to eth txs"
          (adapt_cosmos_txs_to_eth_txs W.eth_codec block.txs)
    marshal_txs txs

  -- The payload is forgotten once it is handed out.
  unfoldable pub hand_out :
      PayloadAttributes
      → Block
      → Result (List Bytes)
      → EngineState W
      → Result ExecutionPayload × EngineState W
  hand_out a block (ok txs) s =
      (ok (execution_payload a block txs), record s { current_payload_attributes = none })
  hand_out a block (err e) s = (err e, s)
  hand_out a block (panic m) s = (panic m, s)

  -- From the call of the builder on; an error of it is a panic.
  unfoldable pub seal :
      PayloadAttributes → Result Block → EngineState W → Result ExecutionPayload × EngineState W
  seal a (ok block) s = hand_out a block (payload_txs block) s
  seal a (err e) s = (panic "build block", s)
  seal a (panic m) s = (panic m, s)

  unfoldable pub after_build :
      PayloadAttributes
      → Option (Result Block × BuilderState W)
      → EngineState W
      → Option (Result ExecutionPayload × EngineState W)
  after_build a none s = none
  after_build a (some (r, b)) s = some (seal a r (record s { builder = b }))

  unfoldable pub build_payload :
      ℕ → PayloadAttributes → EngineState W → Option (Result ExecutionPayload × EngineState W)
  build_payload fuel a s = after_build a (build W fuel (builder_payload a) s.builder) s

  -- The check of the id.
  unfoldable pub build_if :
      Bool
      → ℕ
      → PayloadAttributes
      → EngineState W
      → Option (Result ExecutionPayload × EngineState W)
  build_if false fuel a s = some (err (coded invalid_params "payload is not current"), s)
  build_if true fuel a s = build_payload fuel a s

  unfoldable pub get_current :
      Option PayloadAttributes
      → ℕ
      → Bytes
      → EngineState W
      → Option (Result ExecutionPayload × EngineState W)
  get_current none fuel id s = some (err (coded invalid_params "payload not found"), s)
  get_current (some a) fuel id s = build_if (bytes_eq id (payload_id sha256 a)) fuel a s

  -- `GetPayloadV3`
  unfoldable pub get_payload :
      ℕ → Bytes → EngineState W → Option (Result ExecutionPayload × EngineState W)
  get_payload fuel id s = get_current s.current_payload_attributes fuel id s

  abbrev pub refused : Option PayloadStatus → Error → Result NewPayloadAnswer
  refused status e = ok (record { status = status; error = some e })

  -- `NewPayloadV3`, which reads the block store alone.
  unfoldable pub new_payload : (block_hash : Bytes) → EngineState W → Result NewPayloadAnswer
  new_payload block_hash s =
      elim (db_header_by_hash W.block_db W.block_codec block_hash s.builder.block_store) [
        | panic m ↦ panic m
        | err e ↦
            if is_not_found e
            then refused (some status_invalid_block_hash) (coded invalid_params "block not found")
            else refused none (coded generic_server_error "header by hash")
        | ok h ↦ elim (head_header W.block_db W.block_codec s.builder.block_store) [
          | panic m ↦ panic m
          | err e ↦ refused none (coded generic_server_error "head header")
          | ok head ↦ ok (record { status = some (status_valid head.hash); error = none })
        ]
      ]
