-- ===== src/Node.antt =====
-- node/node.go: `prepareBlockStoreAndApp`, which brings the block store and the application to one height
-- before a node serves.
pub mod Start
pub mod Reached
use monomer.Prelude.{
  ℕ, ◌+◌, ◌%◌, ltb, ◌==◌, failure, is_not_found, Result, ok, err, panic, if◌then◌else◌,
}
use monomer.Prelude.Stateful.{Step, ◌>>=◌, ◌>>◌, pure, reading}
use monomer.Bytes.{Bytes}
use monomer.Bytes.BigEndian.{u64_mod}
use monomer.LocalDb.Lookup.{height}
use monomer.Builder.World.{World, BuilderState}
use monomer.Builder.Build.{failing_at, on_app}
use monomer.Genesis.{Genesis, InitChainRequest, commit_genesis}

-- A block store without a height is at height 0.
unfoldable pub stored_height : Result ℕ → Result ℕ
stored_height (ok h) = ok h
stored_height (err e) = if is_not_found e then ok 0 else err (failure "get height")
stored_height (panic m) = panic m

-- The height in the application's answer to `Info`, as a `uint64`, and what the genesis takes.
module _ (W : World) (info_height : W.app.State → Result ℕ)
    (init_chain : InitChainRequest → Step W.app.State (Unit {0})) (empty_root : Bytes)
    (predeploy : W.evm.State → W.evm.State) where
  -- An application that is one block ahead is rolled back; any other difference is an error.
  unfoldable pub ensure_heights : (app_height store_height : ℕ) → Step (BuilderState W) (Unit {0})
  ensure_heights app_height store_height =
      if app_height == (store_height + 1) % u64_mod
      then failing_at "rollback app" (on_app W (W.app.rollback_to_height store_height))
      else if ltb store_height app_height
      then reading (λ (s : BuilderState W). err (failure "app height is too far ahead"))
      else if ltb app_height store_height
      then reading (λ (s : BuilderState W). err (failure "app height is behind"))
      else pure tt

  unfoldable pub commit_if_new : Genesis → ℕ → Step (BuilderState W) (Unit {0})
  commit_if_new g store_height =
      if store_height == 0
      then failing_at "commit genesis" (commit_genesis W init_chain empty_root predeploy g)
      else pure tt

  -- `prepareBlockStoreAndApp`
  unfoldable pub prepare_block_store_and_app : Genesis → Step (BuilderState W) (Unit {0})
  prepare_block_store_and_app g = do
    store_height ←
        reading
          (λ (s : BuilderState W). stored_height (height W.block_db W.block_codec s.block_store))
    app_height ← failing_at "info" (reading (λ (s : BuilderState W). info_height s.app))
    ensure_heights app_height store_height
    commit_if_new g store_height
