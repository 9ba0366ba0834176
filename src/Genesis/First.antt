-- ===== src/Genesis/First.antt =====
-- The block store after the genesis.
use mathlib.Core.Path.{subst⁻¹}
use monomer.Prelude.{◌≡◌, refl, ap, ◌∙◌, some, List, [], arith, length, Result, ok, ok_of_failing}
use monomer.Prelude.Stateful.{Step, continue, ok_of_continue, keeps_on}
use monomer.Bytes.{Bytes}
use monomer.Bytes.BigEndian.{put_uint64}
use monomer.KvStore.{IsReliable, lookup, select}
use monomer.KvStore.Sorted.{IsSorted}
use monomer.Block.{Block, zero_hash}
use monomer.Block.Hash.{EthHeader, make_block_lem, make_block-hash}
use monomer.LocalDb.Keys.{height_key, label_key, Label}
use monomer.LocalDb.Keys.Ranges.{tx_range}
use monomer.LocalDb.Lookup.{db_header_by_label}
use monomer.LocalDb.Lookup.Stored.{IsStored}
use monomer.LocalDb.Write.Append.{Reads, append_block-Stored, Stored-Reads}
use monomer.LocalDb.Write.Labels.{update_labels-Stored, db_header_by_label-ok}
use monomer.LocalDb.Rollback.Effect.{label_value}
use monomer.Builder.World.{World, BuilderState}
use monomer.Genesis.{
  Genesis, InitChainRequest, genesis_header, start_chain, store_genesis, commit_genesis,
  default_gas_limit,
}

-- What is read of the first block, where a genesis has left the block store.
module _ (W : World) (B : IsReliable W.block_db) where
  abbrev pub Founded : Genesis → Label → BuilderState W → Type 0
  Founded g l s =
      (block : Block) × (block.header.height ≡ 1)
      × (block.header.chain_id ≡ g.chain_id)
      × (block.header.time ≡ g.time)
      × (block.header.gas_limit ≡ default_gas_limit)
      × (block.header.parent_hash ≡ zero_hash)
      × (block.txs ≡ [])
      × Reads W.block_db W.block_codec B block (ok tt, s.block_store)
      × (db_header_by_label W.block_db W.block_codec l s.block_store ≡ ok block.header)

module _ (W : World) (init_chain : InitChainRequest → Step W.app.State (Unit {0}))
    (empty_root : Bytes) (predeploy : W.evm.State → W.evm.State) where
  abbrev pub blocks : BuilderState W → W.block_db.Db
  blocks s = s.block_store

  then_keeps :
      {A B : Type 0} (t : W.block_db.Db) (p : Result A × BuilderState W)
      (f : A → Step (BuilderState W) B)
      → blocks p.1 ≡ t
      → ((a : A) (s : BuilderState W) → blocks s ≡ t → blocks (f a s).1 ≡ t)
      → blocks (continue p f).1 ≡ t
  then_keeps = keeps_on blocks

  -- Starting the application writes no block.
  pub start_chain-blocks :
      (g : Genesis) (s : BuilderState W)
      → blocks (start_chain W init_chain empty_root predeploy g s).1 ≡ blocks s
  unfolding start_chain
  start_chain-blocks g s = then_keeps (blocks s) _ _ refl (λ a s1 e1.
      then_keeps (blocks s) _ _ e1 (λ b s2 e2. then_keeps (blocks s) _ _ e2 (λ c s3 e3.
        then_keeps (blocks s) _ _ e3 (λ d s4 e4.
          then_keeps (blocks s) _ _ e4 (λ f s5 e5. then_keeps (blocks s) _ _ e5 (λ x s6 e6. e6))))))

  module _ (B : IsReliable W.block_db) where
    label_values : (hash : Bytes) (l : Label) → label_value hash hash hash l ≡ hash
    label_values hash Label.unsafe = refl
    label_values hash Label.safe = refl
    label_values hash Label.finalized = refl

    -- The block store after `store_genesis`.
    abbrev Labelled : Block → W.block_db.Db → Type 0
    Labelled block d =
        (b : Bytes) × IsStored W.block_db W.block_codec B d block b
        × (lookup height_key (W.block_db.entries d) ≡ some (put_uint64 block.header.height))
        × ((l : Label) → lookup (label_key l) (W.block_db.entries d) ≡ some block.header.hash)

    store_genesis-Labelled :
        (block : Block) (s : BuilderState W)
        → W.block_db.entries (blocks s) ≡ []
        → block.header.height ≡ 1
        → block.txs ≡ []
        → (store_genesis W init_chain empty_root predeploy block s).0 ≡ ok tt
        → Labelled block (blocks (store_genesis W init_chain empty_root predeploy block s).1)
    unfolding store_genesis select
    store_genesis-Labelled block s empty first none_in h =
        let (done, appended, eq, h1) = ok_of_continue _ _ tt h in
        let (done', b, stored, top) =
          append_block-Stored W.block_db W.block_codec B block (blocks s) (omega (arith, first))
            (rw none_in (omega arith)) (subst⁻¹ IsSorted empty tt)
            (ap (select (tx_range block.header.height)) empty) in
        let (done'', stored', top', labels) =
          update_labels-Stored W.block_db W.block_codec B block.header.hash block.header.hash
            block.header.hash _ block b stored top in
        subst⁻¹ (λ d. Labelled block d) (ap (λ r. blocks r.1) eq)
          (b, stored', top', λ l. labels l ∙ ap some (label_values block.header.hash l))

    abbrev Found : Block → Label → W.block_db.Db → Type 0
    Found block l d =
        Reads W.block_db W.block_codec B block (ok tt, d)
        × (db_header_by_label W.block_db W.block_codec l d ≡ ok block.header)

    -- After a genesis on an empty block store, the first block is the one that every read returns, by its
    -- height and by its hash and as the head, and each of the three labels finds its header. It has height
    -- 1, the chain id and the time of the genesis, the default gas limit and no transactions; if no call of
    -- the database fails and go-ethereum's hashes have 32 bytes.
    pub commit_genesis-Reads :
        (sized : (eth : EthHeader) (txs : List W.eth_codec.Tx)
          → length (W.eth_block_hash eth txs) ≡ 32)
        (g : Genesis) (s : BuilderState W) (l : Label)
        → W.block_db.entries s.block_store ≡ []
        → (commit_genesis W init_chain empty_root predeploy g s).0 ≡ ok tt
        → Founded W B g l (commit_genesis W init_chain empty_root predeploy g s).1
    unfolding commit_genesis
    commit_genesis-Reads sized g s l empty h =
        let (root, started, eq1, h1) = ok_of_continue _ _ tt h in
        let (block, made, eq2, h2) = ok_of_continue _ _ tt h1 in
        let made = ok_of_failing _ _ block made in
        let (hash, is) =
          make_block_lem W.eth_codec W.eth_block_hash (genesis_header g root) [] block made in
        let (eth, eth_txs, hashed) =
          make_block-hash W.eth_codec W.eth_block_hash (genesis_header g root) [] block made in
        let (b, stored, top, labels) =
          store_genesis-Labelled block _ (ap W.block_db.entries (start_chain-blocks g s) ∙ empty)
            (ap (λ (x : Block). x.header.height) is) (ap (λ (x : Block). x.txs) is) h2 in
        let at_end = ap (λ r. blocks r.1) (eq1 ∙ eq2) in
        let (found, labelled) =
          subst⁻¹ (λ d. Found block l d) at_end
            (
              Stored-Reads W.block_db W.block_codec B block b _ (ok tt) refl stored top,
              db_header_by_label-ok W.block_db W.block_codec B l _ block b stored (labels l)
                  (ap length hashed ∙ sized eth eth_txs),
            ) in
        (
          block,
          ap (λ (x : Block). x.header.height) is,
          ap (λ (x : Block). x.header.chain_id) is,
          ap (λ (x : Block). x.header.time) is,
          ap (λ (x : Block). x.header.gas_limit) is,
          ap (λ (x : Block). x.header.parent_hash) is,
          ap (λ (x : Block). x.txs) is,
          found,
          labelled,
        )
