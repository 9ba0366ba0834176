-- ===== src/Genesis.antt =====
-- genesis/genesis.go: the first block of a chain.
pub mod First
pub mod Linked
use monomer.Prelude.{ℕ, List, [], ◌∷◌, none, String, Result, ok, err, panic, failing, panicking}
use monomer.Prelude.Stateful.{Step, ◌>>=◌, ◌>>◌, reading, pure}
use monomer.Bytes.{Bytes}
use monomer.Block.{Header, Block, zeros, zero_hash}
use monomer.Block.Hash.{header_to_comet, make_block}
use monomer.LocalDb.Write.{append_block, update_labels}
use monomer.Builder.World.{World, BuilderState, FinalizeRequest}
use monomer.Builder.Build.{failing_at, on_app, on_blocks, on_disk}

-- `Genesis`; the state of the application is what `json.Marshal` makes of it.
pub record Genesis : Type 0 where
  pub time : ℕ
  pub chain_id : ℕ
  pub app_state : Result Bytes

-- ABCI's `RequestInitChain`
pub record InitChainRequest : Type 0 where
  pub chain_id : ℕ
  pub app_state_bytes : Bytes
  pub time : ℕ
  pub initial_height : ℕ

abbrev pub default_gas_limit : ℕ
default_gas_limit = 30000000

-- The header of the first block, but for its hash.
abbrev pub genesis_header : Genesis → Bytes → Header
genesis_header g root = record {
  chain_id = g.chain_id;
  height = 1;
  time = g.time;
  parent_hash = zero_hash;
  state_root = root;
  parent_beacon_root = none;
  gas_limit = default_gas_limit;
  hash = zero_hash;
  coinbase = zeros 20;
}

-- What the genesis takes from elsewhere: the application's `InitChain`, the state of an empty trie, and the
-- contracts that `contracts.Predeploy` puts into it.
module _ (W : World) (init_chain : InitChainRequest → Step W.app.State (Unit {0}))
    (empty_root : Bytes) (predeploy : W.evm.State → W.evm.State) where
  -- `Commit` up to the state root: the application starts, and runs a first block with no transactions.
  unfoldable pub start_chain : Genesis → Step (BuilderState W) Bytes
  start_chain g = do
    app_state ← reading (λ (s : BuilderState W). failing "marshal app state" g.app_state)
    failing_at "init chain" (
        on_app W (
          init_chain (record {
            chain_id = g.chain_id;
            app_state_bytes = app_state;
            time = g.time;
            initial_height = 1;
          })))
    app_hash ← failing_at "info" (reading (λ (s : BuilderState W). W.app.info s.app))
    failing_at "finalize block" (
        on_app W (
          W.app.finalize_block (record {
            txs = [];
            hash =
                W.comet_hash
                  (record (header_to_comet (genesis_header g zero_hash)) { app_hash = app_hash });
            height = 1;
            time = g.time;
          })))
    failing_at "commit" (on_app W W.app.commit)
    eth_state ←
        failing_at "create ethereum state"
          (reading (λ (s : BuilderState W). W.evm.new_state s.eth_statedb empty_root))
    failing_at "commit ethereum genesis state"
        (on_disk W (W.evm.commit_state (predeploy eth_state) 1))

  abbrev panicking_at : String → Step (BuilderState W) (Unit {0}) → Step (BuilderState W) (Unit {0})
  panicking_at m step s = let (r, s') = step s in (panicking m r, s')

  -- `Commit` from the block on: it is stored, and all three labels are its hash; that the labels cannot be
  -- written is a panic.
  unfoldable pub store_genesis : Block → Step (BuilderState W) (Unit {0})
  store_genesis block = do
    failing_at "append block" (on_blocks W (append_block W.block_db W.block_codec block))
    panicking_at "update labels" (
        on_blocks W (
          update_labels W.block_db W.block_codec block.header.hash block.header.hash
            block.header.hash))

  -- `Commit`
  unfoldable pub commit_genesis : Genesis → Step (BuilderState W) (Unit {0})
  commit_genesis g = do
    root ← start_chain g
    block ← reading (λ (s : BuilderState W).
        failing "make block" (make_block W.eth_codec W.eth_block_hash (genesis_header g root) []))
    store_genesis block
