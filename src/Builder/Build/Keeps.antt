-- ===== src/Builder/Build/Keeps.antt =====
-- What the steps of `Build` leave alone, and what a call that returns a block went through.
use monomer.Prelude.{
  ◌≡◌, refl, ap, ◌∙◌, sym, List, [], ◌∷◌, Result, ok, ok_of_failing, ok_injective,
}
use monomer.Prelude.Stateful.{Step, continue, ok_of_continue, Keeps, keeps_on}
use monomer.Bytes.{Bytes}
use monomer.Block.{Header, Block}
use monomer.Builder.World.{World, BuilderState, Payload, FinalizeResponse, TxResult}
use monomer.Builder.Build.{
  append_block, make_block, head_header, execute, publish, publish_txs, publish_events, build_on,
  build_after, build_block, store_block, finish, next_header,
}

module _ (W : World) where
  -- What the steps of the application, the EVM and the stores behind leave alone.
  abbrev pub stores : BuilderState W → W.block_db.Db × W.pool_db.Db
  stores s = (s.block_store, s.mempool)

  -- The next call leaves them alone.
  then_keeps :
      {A B : Type 0} (t : W.block_db.Db × W.pool_db.Db) (p : Result A × BuilderState W)
      (f : A → Step (BuilderState W) B)
      → stores p.1 ≡ t
      → ((a : A) (s : BuilderState W) → stores s ≡ t → stores (f a s).1 ≡ t)
      → stores (continue p f).1 ≡ t
  then_keeps = keeps_on stores

  publish_txs-Keeps : (rs : List TxResult) → Keeps stores (publish_txs W rs)
  unfolding publish_txs publish
  publish_txs-Keeps [] s = refl
  publish_txs-Keeps (r ∷ rs) s =
      then_keeps (stores s) _ _ refl (λ u s1 e. publish_txs-Keeps rs s1 ∙ e)

  publish_events-Keeps :
      (rs : List TxResult) (b : Block) (resp : FinalizeResponse)
      → Keeps stores (publish_events W rs b resp)
  unfolding publish_events publish
  publish_events-Keeps rs b resp s = then_keeps (stores s) _ _ (publish_txs-Keeps rs s) (λ u s e.
      then_keeps (stores s) _ _ refl (λ u s' e'. then_keeps (stores s') _ _ refl (λ u s e. e) ∙ e')
      ∙ e)

  pub execute-Keeps :
      (current header : Header) (txs : List Bytes) → Keeps stores (execute W current header txs)
  unfolding execute
  execute-Keeps current header txs s = then_keeps (stores s) _ _ refl (λ a s e.
      then_keeps (stores s) _ _ refl (λ a s e.
        then_keeps (stores s) _ _ refl (λ a s e.
          then_keeps (stores s) _ _ refl (λ a s e.
            then_keeps (stores s) _ _ refl (λ a s e.
              then_keeps (stores s) _ _ refl
                (λ a s e. then_keeps (stores s) _ _ refl (λ root s e. e) ∙ e)
              ∙ e)
            ∙ e)
          ∙ e)
        ∙ e)
      ∙ e)

  pub finish-Keeps :
      (rs : List TxResult) (resp : FinalizeResponse) (b : Block) → Keeps stores (finish W rs resp b)
  unfolding finish
  finish-Keeps rs resp b s =
      then_keeps (stores s) _ _ refl
        (λ u s e. then_keeps (stores s) _ _ (publish_events-Keeps rs b resp s) (λ u s e. e) ∙ e)

  -- It returns the block that it was given.
  finish-returns :
      (rs : List TxResult) (resp : FinalizeResponse) (b b' : Block) (s : BuilderState W)
      → (finish W rs resp b s).0 ≡ ok b'
      → b ≡ b'
  unfolding finish
  finish-returns rs resp b b' s h =
      let (u, a, eq, h) = ok_of_continue _ _ b' h in
      let (v, c, eq', h) = ok_of_continue _ _ b' h in ok_injective b b' h

  -- The block is stored, and the rest leaves it alone.
  abbrev pub Stores : Block → BuilderState W → BuilderState W → Type 0
  Stores b s s' =
      ((append_block W.block_db W.block_codec b s.block_store).0 ≡ ok tt)
      × (stores s' ≡ ((append_block W.block_db W.block_codec b s.block_store).1, s.mempool))

  store_block-Stores :
      (rs : List TxResult) (resp : FinalizeResponse) (b b' : Block) (s : BuilderState W)
      → (store_block W rs resp b s).0 ≡ ok b'
      → (b ≡ b') × Stores b s (store_block W rs resp b s).1
  unfolding store_block
  store_block-Stores rs resp b b' s h =
      let (u, stored, eq, rest) = ok_of_continue _ _ b' h in
      (
        finish-returns rs resp b b' _ rest,
        (
          ok_of_failing "append block" _ tt stored,
          ap (λ r. stores r.1) eq ∙ finish-Keeps rs resp b _,
        ),
      )

  abbrev pub Made : Header → List Bytes → Bytes → Block → Type 0
  Made header txs root b =
      make_block W.eth_codec W.eth_block_hash (record header { state_root = root }) txs ≡ ok b

  build_block-Stores :
      (header : Header) (txs : List Bytes) (x : Bytes × List TxResult × FinalizeResponse)
      (b : Block) (s : BuilderState W)
      → (build_block W header txs x s).0 ≡ ok b
      → Made header txs x.0 b × Stores b s (build_block W header txs x s).1
  unfolding build_block
  build_block-Stores header txs (root, rs, resp) b s h =
      let (block, made, eq, rest) = ok_of_continue _ _ b h in
      let (same, stored) = store_block-Stores rs resp block b s rest in
      rw (sym same)
        (ok_of_failing "make block" _ block made, (stored.0, ap (λ r. stores r.1) eq ∙ stored.1))

  Stores-ext :
      (b : Block) (s t s' : BuilderState W) → stores s ≡ stores t → Stores b s s' → Stores b t s'
  Stores-ext b s t s' e (stored, left) =
      let blocks : s.block_store ≡ t.block_store = ap (λ x. x.0) e in
      let pool : s.mempool ≡ t.mempool = ap (λ x. x.1) e in
      (rw (sym blocks) stored, rw (sym blocks, sym pool) left)

  build_after-Stores :
      (p : Payload) (txs : List Bytes) (current : Header) (b : Block) (s : BuilderState W)
      → (build_after W p txs current s).0 ≡ ok b
      → (root : Bytes) × Made (next_header W p current) txs root b
        × Stores b s (build_after W p txs current s).1
  unfolding build_after
  build_after-Stores p txs current b s h =
      let (x, ran, eq, rest) = ok_of_continue _ _ b h in
      let (made, stored) = build_block-Stores (next_header W p current) txs x b _ rest in
      let kept = execute-Keeps current (next_header W p current) txs s in
      let after_s =
        build_block W (next_header W p current) txs x
          (execute W current (next_header W p current) txs s).1 in
      let there =
        Stores-ext b (execute W current (next_header W p current) txs s).1 s after_s.1 kept
          stored in
      (x.0, made, (there.0, ap (λ r. stores r.1) eq ∙ there.1))

  pub build_on-Stores :
      (p : Payload) (txs : List Bytes) (current : Header) (b : Block) (s : BuilderState W)
      → head_header W.block_db W.block_codec s.block_store ≡ ok current
      → (build_on W p txs s).0 ≡ ok b
      → (root : Bytes) × Made (next_header W p current) txs root b
        × Stores b s (build_on W p txs s).1
  unfolding build_on
  build_on-Stores p txs current b s at_head h =
      let (x, read, eq, rest) = ok_of_continue _ _ b h in
      let same =
        ok_injective x current (sym (ok_of_failing "header by height" _ x read) ∙ at_head) in
      let (root, made, (stored, left)) =
        build_after-Stores p txs current b s
          (ap (λ c. (build_after W p txs c s).0) (sym same) ∙ rest) in
      (
        root,
        made,
        (
          stored,
          ap (λ r. stores r.1) eq ∙ (ap (λ c. stores (build_after W p txs c s).1) same ∙ left),
        ),
      )
