-- ===== src/Builder/Build/Extends.antt =====
-- What a block that was built is, and what it leaves in the pool and the block store.
use monomer.Prelude.{
  some_injective, ℕ, ◌+◌, ◌<◌, ◌≡◌, refl, ap, ◌∙◌, sym, Bool, true, false, Option, some, List, [],
  ◌++◌, arith, length, Result, ok,
}
use monomer.Bytes.{Bytes}
use monomer.Bytes.BigEndian.{u64_mod}
use monomer.Block.{Header, Block}
use monomer.Block.Hash.{make_block_lem}
use monomer.KvStore.{IsReliable, select}
use monomer.KvStore.Sorted.{IsSorted}
use monomer.Mempool.Chain.{Represents}
use monomer.LocalDb.Keys.Ranges.{tx_range}
use monomer.LocalDb.Lookup.{head_header}
use monomer.LocalDb.Write.Append.{Reads, append_block-Reads}
use monomer.Builder.World.{World, BuilderState, Payload}
use monomer.Builder.Drain.{drain, drain-pool}
use monomer.Builder.Build.{take_txs, build, build_on, next_header}
use monomer.Builder.Build.Keeps.{Made, Stores, build_on-Stores}

-- The transactions that a payload takes, and those that it leaves.
abbrev pub taken : Bool → List Bytes → List Bytes → List Bytes
taken true injected waiting = injected
taken false injected waiting = injected ++ waiting

abbrev pub left_over : Bool → List Bytes → List Bytes
left_over true waiting = waiting
left_over false waiting = []

module _ (W : World) (P : IsReliable W.pool_db) (B : IsReliable W.block_db) where
  -- The block on top of the one that was the head: the block store reads it back, and the pool is left
  -- with what was not taken.
  pub record Extended (p : Payload) (current : Header) (waiting : List Bytes) (s : BuilderState W)
      (b : Block) : Type 0 where
    pub height : b.header.height ≡ current.height + 1
    pub parent : b.header.parent_hash ≡ current.hash
    pub time : b.header.time ≡ p.timestamp
    pub gas_limit : b.header.gas_limit ≡ p.gas_limit
    pub txs : b.txs ≡ taken p.no_tx_pool p.injected_transactions waiting
    pub reads : Reads W.block_db W.block_codec B b (ok tt, s.block_store)
    pub pool : Represents W.pool_db W.tx_codec s.mempool (left_over p.no_tx_pool waiting)

  -- What the builder takes.
  abbrev Took :
      Bool → List Bytes → List Bytes → Option (Result (List Bytes) × W.pool_db.Db) → Type 0
  Took no_pool injected waiting out =
      (d : W.pool_db.Db) × (out ≡ some (ok (taken no_pool injected waiting), d))
      × Represents W.pool_db W.tx_codec d (left_over no_pool waiting)

  take_txs-Took :
      (p : Payload) (waiting : List Bytes) (d : W.pool_db.Db) (fuel : ℕ)
      → Represents W.pool_db W.tx_codec d waiting
      → length waiting < fuel
      → Took p.no_tx_pool p.injected_transactions waiting (take_txs W fuel p d)
  unfolding take_txs
  take_txs-Took p waiting d fuel is enough = go p.no_tx_pool
    where
      go :
          (no_pool : Bool)
          → Took no_pool p.injected_transactions waiting (elim no_pool [
            | true ↦ some (ok p.injected_transactions, d)
            | false ↦ drain W.pool_db W.tx_codec fuel p.injected_transactions d
          ])
      go true = (d, refl, is)
      go false = drain-pool W.pool_db W.tx_codec P d waiting p.injected_transactions fuel is enough

  build-eq :
      (p : Payload) (txs : List Bytes) (fuel : ℕ) (s : BuilderState W) (d : W.pool_db.Db)
      → take_txs W fuel p s.mempool ≡ some (ok txs, d)
      → build W fuel p s ≡ some (build_on W p txs (record s { mempool = d }))
  unfolding build
  build-eq p txs fuel s d e = ground (arith, e)

  -- `Build` ends, if no call of the databases fails and the fuel for its loop is more than the transactions
  -- that wait.
  pub build-ends :
      (p : Payload) (waiting : List Bytes) (fuel : ℕ) (s : BuilderState W)
      → Represents W.pool_db W.tx_codec s.mempool waiting
      → length waiting < fuel
      → (out : Result Block × BuilderState W) × (build W fuel p s ≡ some out)
  build-ends p waiting fuel s is enough =
      let (d, e, left) = take_txs-Took p waiting s.mempool fuel is enough in
      (_, build-eq p _ fuel s d e)

  -- A block that was made on the head, and stored.
  Made-Extended :
      (p : Payload) (waiting : List Bytes) (current : Header) (root : Bytes) (s s' : BuilderState W)
      (d : W.pool_db.Db) (b : Block)
      → Represents W.pool_db W.tx_codec d (left_over p.no_tx_pool waiting)
      → current.height + 2 < u64_mod
      → length (taken p.no_tx_pool p.injected_transactions waiting) < u64_mod
      → IsSorted (W.block_db.entries s.block_store)
      → select (tx_range (current.height + 1)) (W.block_db.entries s.block_store) ≡ []
      → Made W (next_header W p current) (taken p.no_tx_pool p.injected_transactions waiting) root b
      → Stores W b (record s { mempool = d }) s'
      → Extended p current waiting s' b
  unfolding next_header
  Made-Extended p waiting current root s s' d b left fits few sorted empty made (stored, there) =
      let (hash, is) = make_block_lem W.eth_codec W.eth_block_hash _ _ b made in
      let at_height : b.header.height ≡ current.height + 1 =
        ap (λ x. x.header.height) is ∙ omega arith in
      let has_txs = ap (λ x. x.txs) is in
      let r =
        append_block-Reads W.block_db W.block_codec B b s.block_store (omega (arith, at_height))
          (rw has_txs few) sorted (rw at_height empty) in
      record {
        height = at_height;
        parent = ap (λ x. x.header.parent_hash) is;
        time = ap (λ x. x.header.time) is;
        gas_limit = ap (λ x. x.header.gas_limit) is;
        txs = has_txs;
        reads = rw (ap (λ x. x.0) there) (refl, r.1, r.2, r.3, r.4, r.5);
        pool = rw (ap (λ x. x.1) there) left;
      }

  -- A block that `Build` returns stands on the head of the chain: its height is the next one, its parent
  -- the head, its time and gas limit those of the payload, and its transactions those of the payload
  -- and, unless the payload says not to, all that waited in the pool, in order. Every read of the block
  -- store returns the block, and the pool is left with what was not taken. No call of the two databases
  -- fails, the fuel is more than the transactions that wait, the block store holds its entries in order
  -- and no transaction of the next height, and heights and the number of transactions fit 64 bits.
  pub build-Extended :
      (p : Payload) (waiting : List Bytes) (fuel : ℕ) (current : Header) (s s' : BuilderState W)
      (b : Block)
      → Represents W.pool_db W.tx_codec s.mempool waiting
      → length waiting < fuel
      → head_header W.block_db W.block_codec s.block_store ≡ ok current
      → current.height + 2 < u64_mod
      → length (taken p.no_tx_pool p.injected_transactions waiting) < u64_mod
      → IsSorted (W.block_db.entries s.block_store)
      → select (tx_range (current.height + 1)) (W.block_db.entries s.block_store) ≡ []
      → build W fuel p s ≡ some (ok b, s')
      → Extended p current waiting s' b
  build-Extended p waiting fuel current s s' b is enough at_head fits few sorted empty built =
      let (d, e, left) = take_txs-Took p waiting s.mempool fuel is enough in
      let out = some_injective _ _ (sym (build-eq p _ fuel s d e) ∙ built) in
      let (root, made, stored) =
        build_on-Stores W p _ current b (record s { mempool = d }) at_head (ap (λ r. r.0) out) in
      Made-Extended p waiting current root s s' d b left fits few sorted empty made
        (stored.0, sym (ap (λ r. (r.1.block_store, r.1.mempool)) out) ∙ stored.1)
