-- ===== src/Builder/Build/Leaves.antt =====
-- What `Build` leaves in the block store, whatever it returns.
use mathlib.Core.Path.{subst}
use monomer.Prelude.{
  ◌≡◌, ◌⊎◌, inl, inr, refl, ap, ◌∙◌, sym, ℕ, Option, none, some, List, Result, ok, err, panic,
  some_injective, ok_of_failing,
}
use monomer.Prelude.Stateful.{holds_on}
use monomer.Bytes.{Bytes}
use monomer.Block.{Header, Block}
use monomer.LocalDb.Lookup.{head_header}
use monomer.LocalDb.Write.{append_block}
use monomer.Builder.World.{World, BuilderState, Payload, FinalizeResponse, TxResult}
use monomer.Builder.Build.{
  execute, build_on, build_after, build_block, store_block, next_header, take_txs, build,
}
use monomer.Builder.Build.Keeps.{Made, execute-Keeps, finish-Keeps}

module _ (W : World) where
  abbrev blocks : BuilderState W → W.block_db.Db
  blocks s = s.block_store

  -- The block store is as it was, or has one more block, made on the header that was the head.
  abbrev pub Appended : Payload → Header → W.block_db.Db → W.block_db.Db → Type 0
  Appended p current d d' =
      (b : Block) × (root : Bytes) × (txs : List Bytes) × Made W (next_header W p current) txs root
        b
      × (d' ≡ (append_block W.block_db W.block_codec b d).1)

  abbrev pub Leaves : Payload → W.block_db.Db → W.block_db.Db → Type 0
  Leaves p d d' =
      (d' ≡ d)
      ⊎ ((current : Header) × (head_header W.block_db W.block_codec d ≡ ok current)
          × Appended p current d d')

  build_block-Leaves :
      (p : Payload) (current : Header) (txs : List Bytes)
      (x : Bytes × List TxResult × FinalizeResponse) (s : BuilderState W)
      → head_header W.block_db W.block_codec (blocks s) ≡ ok current
      → Leaves p (blocks s) (blocks (build_block W (next_header W p current) txs x s).1)
  unfolding build_block store_block
  build_block-Leaves p current txs (root, rs, resp) s at_head =
      holds_on (λ t. Leaves p (blocks s) (blocks t)) _ _ (inl refl)
        (λ b made.
          let there : (d' : W.block_db.Db)
              → d' ≡ (append_block W.block_db W.block_codec b (blocks s)).1
              → Leaves p (blocks s) d' =
            λ d' e.
              inr (current, at_head, (b, root, txs, ok_of_failing "make block" _ b made, e)) in
          holds_on (λ t. Leaves p (blocks s) (blocks t)) _ _ (there _ refl)
            (λ u stored. there _ (ap (λ r. r.0) (finish-Keeps W rs resp b _))))

  build_on-Leaves :
      (p : Payload) (txs : List Bytes) (s : BuilderState W)
      → Leaves p (blocks s) (blocks (build_on W p txs s).1)
  unfolding build_on build_after
  build_on-Leaves p txs s =
      holds_on (λ t. Leaves p (blocks s) (blocks t)) _ _ (inl refl)
        (λ current read.
          let at_head = ok_of_failing "header by height" _ current read in
          let kept = ap (λ r. r.0) (execute-Keeps W current (next_header W p current) txs s) in
          holds_on (λ t. Leaves p (blocks s) (blocks t)) _ _ (inl kept)
            (λ x ran.
              subst
                (λ d. Leaves p d (
                  blocks
                    (build_block W (next_header W p current) txs x
                      (execute W current (next_header W p current) txs s).1).1))
                kept
                (build_block-Leaves p current txs x _
                  (ap (head_header W.block_db W.block_codec) kept ∙ at_head))))

  pub build-Leaves :
      (fuel : ℕ) (p : Payload) (s s' : BuilderState W) (r : Result Block)
      → build W fuel p s ≡ some (r, s')
      → Leaves p (blocks s) (blocks s')
  unfolding build
  build-Leaves fuel p s s' r built = go (take_txs W fuel p s.mempool) built
    where
      unchanged :
          (out : Result Block) (d : W.pool_db.Db)
          → ◌≡◌ {A = Result Block × BuilderState W} (out, record s { mempool = d }) (r, s')
          → Leaves p (blocks s) (blocks s')
      unchanged out d e = inl (ap (λ x. blocks x.1) (sym e))

      go :
          (taken : Option (Result (List Bytes) × W.pool_db.Db))
          → elim taken [
            | none ↦ none
            | some (ok txs, d) ↦ some (build_on W p txs (record s { mempool = d }))
            | some (err e, d) ↦ some (err e, record s { mempool = d })
            | some (panic m, d) ↦ some (panic m, record s { mempool = d })
          ]
            ≡ some (r, s')
          → Leaves p (blocks s) (blocks s')
      go none e = absurd cc
      go (some (ok txs, d)) e =
          subst (λ x. Leaves p (blocks s) (blocks x.1)) (some_injective _ _ e)
            (build_on-Leaves p txs (record s { mempool = d }))
      go (some (err x, d)) e = unchanged (err x) d (some_injective _ _ e)
      go (some (panic m, d)) e = unchanged (panic m) d (some_injective _ _ e)
