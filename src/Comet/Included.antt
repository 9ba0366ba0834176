-- ===== src/Comet/Included.antt =====
-- From a client's broadcast to the block that the client reads.
use native.Mathlib.Nat.{mod-eq_of_lt}
use mathlib.Core.Path.{subst}
use monomer.Prelude.{
  ℕ, ◌+◌, ◌%◌, ◌<◌, ◌≡◌, refl, ap, sym, ◌∙◌, ◌==◌, ==_iff, pos, true, false, some, List, [], ◌∷◌,
  ◌++◌, arith, length, length-append, ok, if◌then◌else◌,
}
use monomer.Prelude.Stateful.{Step}
use monomer.Bytes.{Bytes}
use monomer.Bytes.BigEndian.{u64_mod}
use monomer.KvStore.{IsReliable, select}
use monomer.KvStore.Sorted.{IsSorted}
use monomer.Mempool.Chain.{Represents, IsFresh}
use monomer.Block.{Header, Block}
use monomer.LocalDb.Keys.Ranges.{tx_range}
use monomer.LocalDb.Lookup.{head_header, block_by_height}
use monomer.Builder.World.{World, BuilderState, Payload}
use monomer.Builder.Build.{build}
use monomer.Builder.Build.Extends.{build-Extended, taken, left_over}
use monomer.Comet.Api.{
  CheckTxResponse, CometBlock, ResultBlock, broadcast_tx, broadcast_result, broadcast_tx-pool,
  rpc_block, rpc_block_by_height, to_comet_like_block, uint64_of,
}

module _ (W : World) (check_tx : Bytes → Step W.app.State CheckTxResponse)
    (comet_block_hash : CometBlock → Bytes) where
  -- The node after a client's broadcast: the application and the pool have changed.
  abbrev pub broadcasted : Bytes → BuilderState W → BuilderState W
  broadcasted tx s =
      let (a, d) = (broadcast_tx W.pool_db W.tx_codec check_tx tx (s.app, s.mempool)).1 in
      record s { app = a; mempool = d }

  -- The block that a client is given at the height of `b`.
  abbrev pub Served : Block → List Bytes → BuilderState W → Type 0
  Served b txs s =
      (found : ResultBlock) × (rpc_block_by_height W.block_db W.block_codec W.comet_hash
          comet_block_hash (pos b.header.height) s.block_store
        ≡ ok found)
      × (found.block.txs ≡ txs)

  module _ (P : IsReliable W.pool_db) (B : IsReliable W.block_db) where
    served :
        (b : Block) (s : BuilderState W)
        → b.header.height < u64_mod
        → block_by_height W.block_db W.block_codec b.header.height s.block_store ≡ ok b
        → Served b b.txs s
    unfolding rpc_block_by_height rpc_block uint64_of
    served b s fits reads =
        let same : b.header.height % u64_mod ≡ b.header.height = mod-eq_of_lt fits in
        (
          rpc_block W.block_db W.block_codec W.comet_hash comet_block_hash (to_comet_like_block b),
          rw (same, reads) refl,
          refl,
        )

    -- A transaction that a client broadcasts, that the application accepts and that is new to the pool is in
    -- the next block that is built with the pool in use, behind the transactions of the payload and those
    -- that waited before it; the client reads it there by the height of the block, and the pool is empty.
    -- No call of the two databases fails, the fuel is more than the transactions that wait, the block
    -- store holds its entries in order and no transaction of the next height, and heights and the number
    -- of transactions fit 64 bits.
    pub broadcast_tx-build :
        (tx : Bytes) (r : CheckTxResponse) (p : Payload) (waiting : List Bytes) (fuel : ℕ)
        (current : Header) (s s' : BuilderState W) (b : Block)
        → (check_tx tx s.app).0 ≡ ok r
        → r.code ≡ 0
        → Represents W.pool_db W.tx_codec s.mempool waiting
        → IsFresh W.tx_codec tx waiting
        → length waiting + 1 < fuel
        → p.no_tx_pool ≡ false
        → head_header W.block_db W.block_codec s.block_store ≡ ok current
        → current.height + 2 < u64_mod
        → length (p.injected_transactions ++ (waiting ++ tx ∷ [])) < u64_mod
        → IsSorted (W.block_db.entries s.block_store)
        → select (tx_range (current.height + 1)) (W.block_db.entries s.block_store) ≡ []
        → build W fuel p (broadcasted tx s) ≡ some (ok b, s')
        → ((broadcast_tx W.pool_db W.tx_codec check_tx tx (s.app, s.mempool)).0
            ≡ ok (broadcast_result W.pool_db W.tx_codec check_tx tx r))
          × (b.header.height ≡ current.height + 1)
          × Served b (p.injected_transactions ++ (waiting ++ tx ∷ [])) s'
          × Represents W.pool_db W.tx_codec s'.mempool []
    broadcast_tx-build tx r p waiting fuel current s s' b checked fine is fresh enough in_use
          at_head fits few sorted free built =
        let after = waiting ++ tx ∷ [] in
        let longer : length after ≡ length waiting + 1 = length-append waiting (tx ∷ []) in
        let all_longer = length-append p.injected_transactions after in
        let (answered, pool, _) =
          broadcast_tx-pool W.pool_db W.tx_codec check_tx P tx s.app s.mempool waiting r checked is
            fresh (omega (arith, few, longer, all_longer)) in
        let passed : (r.code == 0) ≡ true = (==_iff r.code 0).1 fine in
        let queued : Represents W.pool_db W.tx_codec (broadcasted tx s).mempool after =
          subst
            (λ ok'.
              Represents W.pool_db W.tx_codec (broadcasted tx s).mempool
                (if ok' then after else waiting))
            passed pool in
        let all = ap (λ no_pool. taken no_pool p.injected_transactions after) in_use in
        let extended =
          build-Extended W P B p after fuel current (broadcasted tx s) s' b queued
            (omega (arith, enough, longer)) at_head fits
            (subst (λ xs. length xs < u64_mod) (sym all) few) sorted free built in
        let (_, _, _, _, read, _) = extended.reads in
        let small : b.header.height < u64_mod = omega (arith, extended.height, fits) in
        (
          answered,
          extended.height,
          subst (λ xs. Served b xs s') (extended.txs ∙ all) (served b s' small read),
          subst (λ no_pool. Represents W.pool_db W.tx_codec s'.mempool (left_over no_pool after))
              in_use extended.pool,
        )
