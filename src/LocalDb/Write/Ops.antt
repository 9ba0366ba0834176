-- ===== src/LocalDb/Write/Ops.antt =====
-- The batches of the block store when the database does not fail.
use mathlib.Core.List.{append_assoc, append-nil}
use monomer.Prelude.{ℕ, ◌+◌, ◌≡◌, refl, ap, sym, List, [], ◌∷◌, ◌++◌, arith, ok, wrap_close_err}
use monomer.Bytes.{Bytes}
use monomer.Bytes.BigEndian.{put_uint64}
use monomer.KvStore.{KvStore, IsReliable, Op, put, lookup, apply}
use monomer.KvStore.Batch.{add_op-ok, write_sync-ok}
use monomer.KvStore.Laws.{after}
use monomer.Block.{Block}
use monomer.LocalDb.Keys.{
  height_key, header_key, hash_key, height_and_index, tx_key, tx_hash_key, label_key, Label,
  BlockCodec,
}
use monomer.LocalDb.Write.{commit, update, append_txs, append_ops, append_block, label_ops}

module _ (C : BlockCodec) where
  abbrev pub tx_puts : ℕ → ℕ → List Bytes → List Op
  tx_puts h i [] = []
  tx_puts h i (tx ∷ txs) =
      put (tx_key h i) tx
      ∷ put (tx_hash_key (C.tx_hash tx)) (height_and_index h i)
      ∷ tx_puts h (i + 1) txs

  abbrev pub block_puts : Block → Bytes → List Op
  block_puts block b =
      put (header_key block.header.height) b
      ∷ put (hash_key block.header.hash) (put_uint64 block.header.height)
      ∷ put height_key (put_uint64 block.header.height)
      ∷ tx_puts block.header.height 0 block.txs

abbrev pub label_puts : (unsafe_hash safe_hash finalized_hash : Bytes) → List Op
label_puts u s f =
    put (label_key Label.unsafe) u
    ∷ put (label_key Label.safe) s
    ∷ put (label_key Label.finalized) f
    ∷ []

module _ (S : KvStore) (C : BlockCodec) (R : IsReliable S) where
  append_txs-ok :
      (h i : ℕ) (txs : List Bytes) (batch : List Op)
      → append_txs S C h i txs batch ≡ ok (batch ++ tx_puts C h i txs)
  unfolding append_txs
  append_txs-ok h i [] batch = ap ok (sym (append-nil batch))
  append_txs-ok h i (tx ∷ txs) batch =
      rw
        (
          add_op-ok S R batch (put (tx_key h i) tx),
          add_op-ok S R (batch ++ put (tx_key h i) tx ∷ [])
              (put (tx_hash_key (C.tx_hash tx)) (height_and_index h i)),
          append_txs-ok h (i + 1) txs,
        )
        (simp append_assoc)

  append_ops-ok : (block : Block) (b : Bytes) → append_ops S C block b ≡ ok (block_puts C block b)
  unfolding append_ops
  append_ops-ok block b = rw (add_op-ok S R, add_op-ok S R, add_op-ok S R, append_txs-ok) refl

  pub label_ops-ok :
      (u s f : Bytes) (batch : List Op) → label_ops S C u s f batch ≡ ok (batch ++ label_puts u s f)
  unfolding label_ops
  label_ops-ok u s f batch = rw (add_op-ok S R, add_op-ok S R, add_op-ok S R) (simp append_assoc)

  -- A batch that was filled is committed.
  pub update-ok :
      (ops : List Op) (d : S.Db)
      → (d' : S.Db) × (update S C (ok ops) d ≡ (ok tt, d'))
        × ((k : Bytes) → lookup k (S.entries d') ≡ after ops k (lookup k (S.entries d)))
        × (S.entries d' ≡ apply ops (S.entries d))
  unfolding update commit wrap_close_err
  update-ok ops d =
      let (d', wrote, reads, holds) = write_sync-ok S R d ops in
      (d', rw (wrote, R.closes d') refl, reads, holds)

  pub append_block-ok :
      (block : Block) (d : S.Db)
      → (b : Bytes) × (C.marshal block.header ≡ ok b)
        × (append_block S C block d ≡ update S C (ok (block_puts C block b)) d)
  unfolding append_block
  append_block-ok block d =
      let (b, encoded) = C.marshal_works block.header in
      (b, encoded, ground (arith, encoded, append_ops-ok block b))
