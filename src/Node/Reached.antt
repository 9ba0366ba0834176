-- ===== src/Node/Reached.antt =====
-- node/node.go, builder/builder.go and genesis/genesis.go: the states that a node goes through, and the chain of headers in
-- each of them.
use mathlib.Core.Path.{subst⁻¹}
use monomer.Prelude.{
  ℕ, ◌+◌, ◌<◌, ◌≡◌, ◌≢◌, refl, ap, ◌∙◌, sym, ◌%◌, ◌⊎◌, inl, inr, false, ◌==◌, some, [], List, arith,
  Result, ok, ok_injective,
}
use monomer.Prelude.Stateful.{Step, holds_on}
use monomer.Bytes.{Bytes}
use monomer.Bytes.BigEndian.{u64_mod, put_uint64}
use monomer.KvStore.{IsReliable, lookup, select}
use monomer.Block.{Header, Block}
use monomer.Block.Hash.{make_block_lem}
use monomer.Mempool.{enqueue}
use monomer.LocalDb.Keys.{hash_key}
use monomer.LocalDb.Lookup.{height, db_header_by_height}
use monomer.LocalDb.Write.{update_labels}
use monomer.LocalDb.Rollback.{rollback}
use monomer.LocalDb.Rollback.Ops.{Decode, headers_from}
use monomer.LocalDb.Rollback.Chain.{first_after}
use monomer.LocalDb.Linked.{IsLinked, head_header-top}
use monomer.LocalDb.Linked.Writes.{append_block-Linked, update_labels-Linked, rollback-Linked}
use monomer.Builder.World.{World, BuilderState, Payload}
use monomer.Builder.Build.{build, next_header}
use monomer.Builder.Build.Leaves.{Leaves, build-Leaves}
use monomer.Builder.Reorg.{builder_rollback, rollback_stores}
use monomer.LocalDb.Lookup.Stored.{height-ok}
use monomer.Node.{stored_height, prepare_block_store_and_app, commit_if_new}
use monomer.Node.Start.{ensure_heights-blocks}
use monomer.Genesis.{Genesis, InitChainRequest, commit_genesis}
use monomer.Genesis.Linked.{commit_genesis-Linked}

module _ (W : World) where
  -- What `Rollback` leaves in the block store, whatever it returns.
  rollback-blocks :
      (u sf f : Bytes) (s : BuilderState W)
      → let d' = (builder_rollback W u sf f s).1.block_store in
        (d' ≡ s.block_store) ⊎ (d' ≡ (rollback W.block_db W.block_codec u sf f s.block_store).1)
  unfolding builder_rollback rollback_stores
  rollback-blocks u sf f s =
      let P : BuilderState W → Type 0 = λ t.
        (t.block_store ≡ s.block_store)
        ⊎ (t.block_store ≡ (rollback W.block_db W.block_codec u sf f s.block_store).1) in
      holds_on P _ _ (inl refl) (λ current _. holds_on P _ _ (inl refl) (λ header _.
        holds_on P _ _ (inr refl) (λ _ _. holds_on P _ _ (inr refl) (λ _ _. inr refl))))

  module _ (B : IsReliable W.block_db) (info_height : W.app.State → Result ℕ)
      (init_chain : InitChainRequest → Step W.app.State (Unit {0})) (empty_root : Bytes)
      (predeploy : W.evm.State → W.evm.State) where
    -- The states that a node reaches, whatever its calls return after the genesis.
    pub data Reaches : BuilderState W → Type 0 where
      commits_genesis :
          (g : Genesis) (s : BuilderState W)
          → W.block_db.entries s.block_store ≡ []
          → (commit_genesis W init_chain empty_root predeploy g s).0 ≡ ok tt
          → Reaches (commit_genesis W init_chain empty_root predeploy g s).1
      restarts :
          (g : Genesis) (s : BuilderState W)
          → Reaches s
          → Reaches
              (prepare_block_store_and_app W info_height init_chain empty_root predeploy g s).1
      enqueues :
          (tx : Bytes) (s : BuilderState W)
          → Reaches s
          → Reaches (record s { mempool = (enqueue W.pool_db W.tx_codec tx s.mempool).1 })
      builds :
          (fuel : ℕ) (p : Payload) (n : ℕ) (s s' : BuilderState W) (r : Result Block)
          → build W fuel p s ≡ some (r, s')
          → height W.block_db W.block_codec s.block_store ≡ ok n
          → n + 2 < u64_mod
          → Reaches s
          → Reaches s'
      labels :
          (u sf f : Bytes) (s : BuilderState W)
          → Reaches s
          → Reaches (record s {
            block_store = (update_labels W.block_db W.block_codec u sf f s.block_store).1;
          })
      rolls_back :
          (u sf f : Bytes) (s : BuilderState W) (x : Header) (hs : List Header)
          → x.height + 1 < u64_mod
          → db_header_by_height W.block_db W.block_codec x.height s.block_store ≡ ok x
          → lookup (hash_key u) (W.block_db.entries s.block_store) ≡ some (put_uint64 x.height)
          → Decode W.block_codec
              (select
                (headers_from (first_after W.block_db W.block_codec B x.height))
                (W.block_db.entries s.block_store))
              hs
          → Reaches s
          → Reaches (builder_rollback W u sf f s).1

    abbrev Linked : W.block_db.Db → ℕ → Type 0
    Linked = IsLinked W.block_db W.block_codec B

    abbrev pub HasChain : BuilderState W → Type 0
    HasChain s = (n : ℕ) × IsLinked W.block_db W.block_codec B s.block_store n

    -- With blocks in the store, the genesis is not committed again.
    commit_if_new-old :
        (g : Genesis) (h : ℕ) (s : BuilderState W)
        → h ≢ 0
        → commit_if_new W info_height init_chain empty_root predeploy g h s ≡ (ok tt, s)
    unfolding commit_if_new
    commit_if_new-old g h s ne = let old : (h == 0) ≡ false = ground (arith, ne) in rw old refl

    restart-HasChain :
        (g : Genesis) (s : BuilderState W)
        → HasChain s
        → HasChain (prepare_block_store_and_app W info_height init_chain empty_root predeploy g s).1
    unfolding prepare_block_store_and_app stored_height
    restart-HasChain g s (n, l) =
        let at_top =
          height-ok W.block_db W.block_codec B s.block_store n (omega (arith, l.in_u64)) l.top in
        let P : BuilderState W → Type 0 = λ t. Linked t.block_store n in
        let ensured = λ (a h : ℕ).
          subst⁻¹ (λ d. Linked d n)
            (ensure_heights-blocks W info_height init_chain empty_root predeploy B a h s) l in
        (
          n,
          holds_on P _ _ l (λ h read.
              let same = ok_injective n h (sym (ap stored_height at_top) ∙ read) in
              let not_new : h ≢ 0 = λ e. omega (arith, e, same, l.not_empty) in
              holds_on P _ _ l (λ a told.
                holds_on P _ _ (ensured a h)
                  (λ _ _. subst⁻¹ (λ r. P r.1) (commit_if_new-old g h _ not_new) (ensured a h)))),
        )

    build-HasChain :
        (p : Payload) (n : ℕ) (d d' : W.block_db.Db)
        → Leaves W p d d'
        → n + 2 < u64_mod
        → Linked d n
        → (m : ℕ) × Linked d' m
    unfolding next_header
    build-HasChain p n d d' (inl same) fits l = (n, subst⁻¹ (λ x. Linked x n) same l)
    build-HasChain p n d d' (inr (current, at_head, (b, root, txs, made, there))) fits l =
        let (x, read, at) = l.has n l.not_empty (omega arith) in
        let top = head_header-top W.block_db W.block_codec B d n x l.top read in
        let same : current ≡ x = ok_injective current x (sym at_head ∙ top) in
        let (hash, is) = make_block_lem W.eth_codec W.eth_block_hash _ _ b made in
        let height : b.header.height ≡ n + 1 =
          ap (λ (y : Block). y.header.height) is
          ∙ ap (λ (y : Header). (y.height + 1) % u64_mod) same
          ∙ omega (arith, at, fits) in
        let parent =
          ap (λ (y : Block). y.header.parent_hash) is ∙ ap (λ (y : Header). y.hash) same in
        (
          n + 1,
          subst⁻¹ (λ x. Linked x (n + 1)) there
              (append_block-Linked W.block_db W.block_codec B b d n x l read height fits parent),
        )

    rollback-HasChain :
        (u sf f : Bytes) (s : BuilderState W) (n : ℕ) (x : Header)
        → Linked s.block_store n
        → Linked (rollback W.block_db W.block_codec u sf f s.block_store).1 x.height
        → HasChain (builder_rollback W u sf f s).1
    rollback-HasChain u sf f s n x before after = elim (rollback-blocks u sf f s) [
      | inl e ↦ (n, subst⁻¹ (λ d. Linked d n) e before)
      | inr e ↦ (x.height, subst⁻¹ (λ d. Linked d x.height) e after)
    ]

    -- Whatever a node has done since its genesis, its headers are a chain: there is one at each height from 1 to the
    -- height of the store and no other, each has its own height, and its parent is the hash of the one
    -- below. What it has done is any number of restarts, transactions for the pool, builds of a block, labels
    -- and rollbacks, whether these returned an error or not, as long as no call of the block store's
    -- database fails, the height after the next one fits 64 bits, and a rollback goes to a header that
    -- is stored under its hash, with headers above it that can be decoded.
    pub Reaches-HasChain : (s : BuilderState W) → Reaches s → HasChain s
    Reaches-HasChain _ (commits_genesis g s empty done) =
        (1, commit_genesis-Linked W init_chain empty_root predeploy B g s empty done)
    Reaches-HasChain _ (restarts g s r) = restart-HasChain g s (Reaches-HasChain s r)
    Reaches-HasChain _ (enqueues tx s r) = Reaches-HasChain s r
    Reaches-HasChain _ (builds fuel p n s s' result built at_height fits r) =
        let (m, l) = Reaches-HasChain s r in
        let at_top =
          height-ok W.block_db W.block_codec B s.block_store m (omega (arith, l.in_u64)) l.top in
        let same = ok_injective m n (sym at_top ∙ at_height) in
        build-HasChain p m _ _ (build-Leaves W fuel p s s' result built) (omega (arith, same, fits))
          l
    Reaches-HasChain _ (labels u sf f s r) =
        let (n, l) = Reaches-HasChain s r in
        (n, update_labels-Linked W.block_db W.block_codec B u sf f s.block_store n l)
    Reaches-HasChain _ (rolls_back u sf f s x hs small at at_hash dec r) =
        let (n, l) = Reaches-HasChain s r in
        rollback-HasChain u sf f s n x l (
          rollback-Linked W.block_db W.block_codec B s.block_store n x.height u sf f hs x l small at
            at_hash dec)
