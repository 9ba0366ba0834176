-- ===== src/Builder/Reorg.antt =====
-- builder/builder.go: `Rollback`
use monomer.Prelude.{some, ℕ, ◌+◌, ◌<◌, ◌≡◌, refl, ap, ◌∙◌, List, ok, failing}
use monomer.Prelude.Stateful.{Step, continue_ok, ◌>>=◌, ◌>>◌, reading}
use monomer.Bytes.{Bytes}
use monomer.Bytes.BigEndian.{u64_mod, put_uint64}
use monomer.Block.{Header}
use monomer.KvStore.{IsReliable, lookup, select}
use monomer.LocalDb.Keys.{hash_key}
use monomer.LocalDb.Lookup.{height, db_header_by_hash}
use monomer.LocalDb.Rollback.{rollback}
use monomer.LocalDb.Rollback.Ops.{Decode, headers_from}
use monomer.LocalDb.Rollback.Chain.{RolledBack, first_after, rollback-RolledBack}
use monomer.Builder.World.{World, BuilderState}
use monomer.Builder.Build.{failing_at, on_app, on_blocks, on_txs}

module _ (W : World) where
  -- The stores behind the block store, in order.
  unfoldable pub rollback_stores : (target current : ℕ) → Step (BuilderState W) (Unit {0})
  rollback_stores target current = do
    failing_at "rollback tx store" (on_txs W (W.tx_store.rollback_to_height target current))
    failing_at "rollback app" (on_app W (W.app.rollback_to_height target))

  -- `Builder.Rollback`
  unfoldable pub builder_rollback :
      (unsafe_hash safe_hash finalized_hash : Bytes) → Step (BuilderState W) (Unit {0})
  builder_rollback unsafe_hash safe_hash finalized_hash = do
    current ← failing_at "get height" (reading (λ s. height W.block_db W.block_codec s.block_store))
    header ←
        failing_at "get unsafe header"
          (reading (λ s. db_header_by_hash W.block_db W.block_codec unsafe_hash s.block_store))
    failing_at "rollback block store"
        (on_blocks W (rollback W.block_db W.block_codec unsafe_hash safe_hash finalized_hash))
    rollback_stores header.height current

  -- The block store is rolled back, the transaction store from the height it had, and the application.
  pub record AllRolledBack (B : IsReliable W.block_db) (s : BuilderState W) (current n : ℕ)
      (hs : List Header) (u sf f : Bytes) (s' : BuilderState W) : Type 0 where
    pub blocks : RolledBack W.block_db W.block_codec B s.block_store n hs u sf f s'.block_store
    pub txs : s'.tx_store ≡ (W.tx_store.rollback_to_height n current s.tx_store).1
    pub application : s'.app ≡ (W.app.rollback_to_height n s.app).1

  -- `Rollback` to a stored block rolls all three back to its height, the transaction store from the height
  -- that the chain had: if the database does not fail and the other two do not, the stored height of the
  -- block is the one in its header, the next height fits 64 bits and the headers that go can be decoded.
  pub builder_rollback-AllRolledBack :
      (B : IsReliable W.block_db) (s : BuilderState W) (current : ℕ) (h : Header) (hs : List Header)
      (u sf f : Bytes)
      → height W.block_db W.block_codec s.block_store ≡ ok current
      → db_header_by_hash W.block_db W.block_codec u s.block_store ≡ ok h
      → h.height + 1 < u64_mod
      → lookup (hash_key u) (W.block_db.entries s.block_store) ≡ some (put_uint64 h.height)
      → Decode W.block_codec
          (select
            (headers_from (first_after W.block_db W.block_codec B h.height))
            (W.block_db.entries s.block_store))
          hs
      → (W.tx_store.rollback_to_height h.height current s.tx_store).0 ≡ ok tt
      → (W.app.rollback_to_height h.height s.app).0 ≡ ok tt
      → ((builder_rollback u sf f s).0 ≡ ok tt)
        × AllRolledBack B s current h.height hs u sf f (builder_rollback u sf f s).1
  unfolding builder_rollback rollback_stores
  builder_rollback-AllRolledBack B s current h hs u sf f at_height at_header small at_hash dec
        txs_ok app_ok =
      let (done, rolled) =
        rollback-RolledBack W.block_db W.block_codec B s.block_store u sf f h.height hs small
          at_hash dec in
      let chain =
        continue_ok _ _ current (ap (failing "get height") at_height)
        ∙ (continue_ok _ _ h (ap (failing "get unsafe header") at_header)
            ∙ (continue_ok _ _ tt (ap (failing "rollback block store") done)
                ∙ continue_ok _ _ tt (ap (failing "rollback tx store") txs_ok))) in
      (
        ap (λ r. r.0) chain ∙ ap (failing "rollback app") app_ok,
        rw (ap (λ r. r.1) chain) (record { blocks = rolled; txs = refl; application = refl }),
      )
