-- ===== src/Engine/Api.antt =====
-- engine/engine.go
use monomer.Prelude.{
  ℕ, ◌+◌, ◌%◌, ltb, leb, Bool, true, false, Option, none, some, String, List, [], ◌∷◌, Error, coded,
  is_not_found, generic_server_error, invalid_forkchoice_state, invalid_payload_attributes, Result,
  ok, err, panic, if◌then◌else◌,
}
use monomer.Prelude.Stateful.{Step, ◌>>=◌, ◌>>◌, pure, reading, on}
use monomer.Bytes.{Bytes}
use monomer.Bytes.BigEndian.{u64_mod}
use monomer.Block.{Header}
use monomer.LocalDb.Lookup.{db_header_by_hash, height, head_header}
use monomer.LocalDb.Write.{update_labels}
use monomer.Adapters.{adapt_payload_txs_to_cosmos_txs}
use monomer.Builder.World.{World, BuilderState}
use monomer.Builder.Reorg.{builder_rollback}
use monomer.Engine.Attributes.{PayloadAttributes, payload_id, is_empty}

-- `eth.ForkchoiceState` and `eth.PayloadAttributes`
pub record Forkchoice : Type 0 where
  pub head_hash : Bytes
  pub safe_hash : Bytes
  pub finalized_hash : Bytes

pub record EthAttributes : Type 0 where
  pub timestamp : ℕ
  pub prev_randao : Bytes
  pub suggested_fee_recipient : Bytes
  pub withdrawals : Option (List Bytes)
  pub parent_beacon_block_root : Option Bytes
  pub transactions : List Bytes
  pub no_tx_pool : Bool
  pub gas_limit : Option ℕ

pub data PayloadStatus : Type 0 where
  status_valid : (latest_valid_hash : Bytes) → PayloadStatus
  status_invalid : (latest_valid_hash : Bytes) (validation_error : String) → PayloadStatus
  status_invalid_block_hash : PayloadStatus

-- `eth.ForkchoiceUpdatedResult`
pub record Updated : Type 0 where
  pub payload_status : PayloadStatus
  pub id : Option Bytes

-- `if err != nil { return nil, engine.Code.With(…) }`
abbrev pub with_code {ℓ} : {A : Type ℓ} → (Error → Error) → Result A → Result A
with_code f (ok a) = ok a
with_code f (err e) = err (f e)
with_code f (panic m) = panic m

abbrev pub server_error {ℓ} : {A : Type ℓ} → String → Result A → Result A
server_error m = with_code (λ e. coded generic_server_error m)

abbrev pub server_error_at {ℓ κ} : {S : Type ℓ} {A : Type κ} → String → Step S A → Step S A
server_error_at m step s = let (r, s') = step s in (server_error m r, s')

-- A hash that is not stored is answered by `missing`.
abbrev pub missing_or : Error → Error → Error
missing_or missing e =
    if is_not_found e then missing else coded generic_server_error "get header by hash"

-- The state of the engine: the builder it points to, and the payload that was asked for last.
pub record EngineState (W : World) : Type 0 where
  pub builder : BuilderState W
  pub current_payload_attributes : Option PayloadAttributes

module _ (W : World) (check_tx : Bytes → Step W.app.State (Option String))
    (sha256 : Bytes → Bytes) where
  abbrev pub on_builder {κ} : {A : Type κ} → Step (BuilderState W) A → Step (EngineState W) A
  on_builder = on (λ s. s.builder) (λ s b. record s { builder = b })

  unfoldable pub find_header : Error → Bytes → Step (EngineState W) Header
  find_header missing hash = reading (λ s.
      with_code (missing_or missing)
        (db_header_by_hash W.block_db W.block_codec hash s.builder.block_store))

  -- A header that is not above the head.
  unfoldable pub not_above : String → Header → Header → Step (EngineState W) (Unit {0})
  not_above m head h =
      reading
        (λ s. if ltb head.height h.height then err (coded invalid_forkchoice_state m) else ok tt)

  -- The checks at the beginning of `ForkchoiceUpdatedV3`.
  unfoldable pub check_forkchoice : Forkchoice → Step (EngineState W) Header
  check_forkchoice fcs = do
    head ← find_header (coded invalid_forkchoice_state "head block not found") fcs.head_hash
    safe ← find_header (coded invalid_forkchoice_state "safe block not found") fcs.safe_hash
    not_above "safe block comes after head block" head safe
    finalized ←
        find_header (coded invalid_payload_attributes "finalized block not found")
          fcs.finalized_hash
    not_above "finalized block comes after head block" head finalized
    pure head

  -- The chain goes back to the head, if that is below its height.
  unfoldable pub reorg : Forkchoice → Header → Step (EngineState W) (Unit {0})
  reorg fcs head = do
    h ←
        server_error_at "get height"
          (reading (λ s. height W.block_db W.block_codec s.builder.block_store))
    elim (ltb head.height h) [
      | true ↦
          server_error_at "rollback"
            (on_builder (builder_rollback W fcs.head_hash fcs.safe_hash fcs.finalized_hash))
      | false ↦ pure tt
    ]

  unfoldable pub label : Forkchoice → Step (EngineState W) (Unit {0})
  label fcs = server_error_at "update labels" (
      on (λ s. s.builder.block_store)
        (λ s d. record s { builder = record s.builder { block_store = d } })
        (update_labels W.block_db W.block_codec fcs.head_hash fcs.safe_hash fcs.finalized_hash))

  abbrev pub unless_refused :
      Option String → Step (EngineState W) (Option String) → Step (EngineState W) (Option String)
  unless_refused none rest = rest
  unless_refused (some m) rest = pure (some m)

  -- The loop over the transactions: the log of the first one that is refused.
  unfoldable pub check_txs : List Bytes → Step (EngineState W) (Option String)
  check_txs [] = pure none
  check_txs (tx ∷ txs) = do
    log ← server_error_at "CheckTx" (
        on (λ s. s.builder.app) (λ s a. record s { builder = record s.builder { app = a } })
          (check_tx tx))
    unless_refused log (check_txs txs)

  -- The checks of the gas limit and of the adapted transactions.
  unfoldable pub gas_and_txs : Option ℕ → Result (List Bytes) → Result (ℕ × List Bytes)
  gas_and_txs none adapted = err (coded invalid_payload_attributes "gas limit not provided")
  gas_and_txs (some g) (err e) =
      err (coded invalid_payload_attributes "convert payload attributes txs to cosmos txs")
  gas_and_txs (some g) (panic m) = panic m
  gas_and_txs (some g) (ok txs) =
      if is_empty txs
      then err (coded invalid_payload_attributes "L1 Attributes tx not found")
      else ok (g, txs)

  -- The checks of the payload attributes, and their transactions.
  unfoldable pub check_attributes : EthAttributes → Header → Result (ℕ × List Bytes)
  check_attributes pa parent =
      if leb pa.timestamp parent.time
      then err (coded invalid_payload_attributes "timestamp too small")
      else gas_and_txs pa.gas_limit (adapt_payload_txs_to_cosmos_txs W.eth_codec pa.transactions)

  abbrev pub attributes_of :
      Forkchoice → EthAttributes → Header → ℕ → List Bytes → PayloadAttributes
  attributes_of fcs pa parent g txs = record {
    timestamp = pa.timestamp;
    prev_randao = pa.prev_randao;
    suggested_fee_recipient = pa.suggested_fee_recipient;
    withdrawals = pa.withdrawals;
    no_tx_pool = pa.no_tx_pool;
    gas_limit = g;
    parent_beacon_block_root = pa.parent_beacon_block_root;
    parent_hash = fcs.head_hash;
    height = (parent.height + 1) % u64_mod;
    cosmos_txs = txs;
  }

  -- `e.currentPayloadAttributes = …`, and the answer.
  unfoldable pub keep_attributes : Forkchoice → PayloadAttributes → Step (EngineState W) Updated
  keep_attributes fcs a s = (
    ok (record { payload_status = status_valid fcs.head_hash; id = some (payload_id sha256 a) }),
    record s { current_payload_attributes = some a },
  )

  -- The end of `ForkchoiceUpdatedV3`, with what `CheckTx` said.
  unfoldable pub answer_payload :
      Forkchoice → PayloadAttributes → Option String → Step (EngineState W) Updated
  answer_payload fcs a (some log) =
      pure (record { payload_status = status_invalid fcs.head_hash log; id = none })
  answer_payload fcs a none = keep_attributes fcs a

  unfoldable pub check_payload :
      Forkchoice → EthAttributes → Header → ℕ × List Bytes → Step (EngineState W) Updated
  check_payload fcs pa parent (g, txs) = do
    log ← check_txs txs
    answer_payload fcs (attributes_of fcs pa parent g txs) log

  unfoldable pub with_parent : Forkchoice → EthAttributes → Header → Step (EngineState W) Updated
  with_parent fcs pa parent = do
    checked ← reading (λ s. check_attributes pa parent)
    check_payload fcs pa parent checked

  unfoldable pub start_payload : Forkchoice → EthAttributes → Step (EngineState W) Updated
  start_payload fcs pa = do
    parent ←
        server_error_at "get head header"
          (reading (λ s. head_header W.block_db W.block_codec s.builder.block_store))
    with_parent fcs pa parent

  -- `ForkchoiceUpdatedV3` after the labels: without attributes there is nothing to build.
  unfoldable pub answer : Forkchoice → Option EthAttributes → Step (EngineState W) Updated
  answer fcs none = pure (record { payload_status = status_valid fcs.head_hash; id = none })
  answer fcs (some pa) = start_payload fcs pa

  unfoldable pub label_and_answer : Forkchoice → Option EthAttributes → Step (EngineState W) Updated
  label_and_answer fcs pa = do label fcs; answer fcs pa

  unfoldable pub apply_forkchoice :
      Forkchoice → Option EthAttributes → Header → Step (EngineState W) Updated
  apply_forkchoice fcs pa head = do reorg fcs head; label_and_answer fcs pa

  -- `ForkchoiceUpdatedV3`, and V1 and V2, which call it.
  unfoldable pub forkchoice_updated :
      Forkchoice → Option EthAttributes → Step (EngineState W) Updated
  forkchoice_updated fcs pa = do head ← check_forkchoice fcs; apply_forkchoice fcs pa head
