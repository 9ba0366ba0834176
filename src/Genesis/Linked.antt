-- ===== src/Genesis/Linked.antt =====
-- The block store after the genesis, as a chain of one header.
use mathlib.Core.Path.{subst⁻¹}
use monomer.Prelude.{◌≡◌, ap, ◌∙◌, [], ok, ok_of_failing}
use monomer.Prelude.Stateful.{Step, ok_of_continue}
use monomer.Bytes.{Bytes}
use monomer.KvStore.{IsReliable}
use monomer.Block.{Block}
use monomer.Block.Hash.{make_block_lem}
use monomer.LocalDb.Linked.{IsLinked}
use monomer.LocalDb.Linked.Writes.{append_block-first, update_labels-Linked}
use monomer.Builder.World.{World, BuilderState}
use monomer.Genesis.{Genesis, InitChainRequest, genesis_header, store_genesis, commit_genesis}
use monomer.Genesis.First.{start_chain-blocks}

module _ (W : World) (init_chain : InitChainRequest → Step W.app.State (Unit {0}))
    (empty_root : Bytes) (predeploy : W.evm.State → W.evm.State) (B : IsReliable W.block_db) where
  store_genesis-Linked :
      (block : Block) (s : BuilderState W)
      → W.block_db.entries s.block_store ≡ []
      → block.header.height ≡ 1
      → (store_genesis W init_chain empty_root predeploy block s).0 ≡ ok tt
      → IsLinked W.block_db W.block_codec B
          (store_genesis W init_chain empty_root predeploy block s).1.block_store
          1
  unfolding store_genesis
  store_genesis-Linked block s empty first h =
      let (done, appended, eq, h1) = ok_of_continue _ _ tt h in
      let hash = block.header.hash in
      subst⁻¹ (λ d. IsLinked W.block_db W.block_codec B d 1) (ap (λ r. r.1.block_store) eq)
        (update_labels-Linked W.block_db W.block_codec B hash hash hash _ 1
          (append_block-first W.block_db W.block_codec B block s.block_store first empty))

  pub commit_genesis-Linked :
      (g : Genesis) (s : BuilderState W)
      → W.block_db.entries s.block_store ≡ []
      → (commit_genesis W init_chain empty_root predeploy g s).0 ≡ ok tt
      → IsLinked W.block_db W.block_codec B
          (commit_genesis W init_chain empty_root predeploy g s).1.block_store
          1
  unfolding commit_genesis
  commit_genesis-Linked g s empty h =
      let (root, started, eq1, h1) = ok_of_continue _ _ tt h in
      let (block, made, eq2, h2) = ok_of_continue _ _ tt h1 in
      let (hash, is) =
        make_block_lem W.eth_codec W.eth_block_hash (genesis_header g root) [] block
          (ok_of_failing _ _ block made) in
      subst⁻¹ (λ d. IsLinked W.block_db W.block_codec B d 1) (ap (λ r. r.1.block_store) (eq1 ∙ eq2))
        (store_genesis-Linked block _
          (ap W.block_db.entries (start_chain-blocks W init_chain empty_root predeploy g s) ∙ empty)
          (ap (λ (x : Block). x.header.height) is) h2)
