-- ===== src/LocalDb/Write.antt =====
-- monomerdb/localdb/localdb.go: `AppendBlock`, `UpdateLabels` and the commit of a batch.
pub mod Ops
pub mod Append
pub mod Labels
use monomer.Prelude.{
  ℕ, ◌+◌, String, List, [], ◌∷◌, Result, ok, err, panic, ◌>>=◌, failing, wrap_close_err,
}
use monomer.Bytes.{Bytes}
use monomer.Bytes.BigEndian.{put_uint64}
use monomer.KvStore.{KvStore, Op, put}
use monomer.KvStore.Batch.{add_op, write_sync}
use monomer.Block.{Block}
use monomer.LocalDb.Keys.{
  Label, label_key, height_key, header_key, hash_key, height_and_index, tx_key, tx_hash_key,
  BlockCodec,
}

module _ (S : KvStore) (C : BlockCodec) where
  open S use {Db, get, iterate, close}
  open C use {tx_hash, marshal, unmarshal}

  abbrev pub set : String → List Op → Bytes → Bytes → Result (List Op)
  set what batch k v = failing what (add_op S batch (put k v))

  -- The batch that a callback filled is committed, if it returned no error.
  unfoldable pub commit : Result (List Op) → Db → Result (Unit {0}) × Db
  commit (ok batch) d = let (wrote, d') = write_sync S d batch in (failing "commit" wrote, d')
  commit (err e) d = (err e, d)
  commit (panic m) d = (panic m, d)

  -- `DB.update` and `DB.updateIndexed`: the batch is closed on every path.
  unfoldable pub update : Result (List Op) → Db → Result (Unit {0}) × Db
  update filled d = let (r, d') = commit filled d in (wrap_close_err r (close d'), d')

  -- The loop of `AppendBlock` from index `i` on.
  unfoldable pub append_txs : ℕ → ℕ → List Bytes → List Op → Result (List Op)
  append_txs h i [] batch = ok batch
  append_txs h i (tx ∷ txs) batch = do
    batch ← set "set tx by height and index" batch (tx_key h i) tx
    batch ←
        set "set tx height and index by hash" batch (tx_hash_key (tx_hash tx))
          (height_and_index h i)
    append_txs h (i + 1) txs batch

  unfoldable pub append_ops : Block → Bytes → Result (List Op)
  append_ops block header_bytes = do
    batch ← set "set block by height" [] (header_key block.header.height) header_bytes
    batch ←
        set "set height by hash" batch (hash_key block.header.hash) (put_uint64 block.header.height)
    batch ← set "set height" batch height_key (put_uint64 block.header.height)
    append_txs block.header.height 0 block.txs batch

  -- `DB.AppendBlock`
  unfoldable pub append_block : Block → Db → Result (Unit {0}) × Db
  append_block block d = elim (failing "marshal header into cbor" (marshal block.header)) [
    | ok header_bytes ↦ update (append_ops block header_bytes) d
    | err e ↦ (err e, d)
    | panic m ↦ (panic m, d)
  ]

  -- `updateLabels`
  unfoldable pub label_ops :
      (unsafe_hash safe_hash finalized_hash : Bytes) → List Op → Result (List Op)
  label_ops unsafe_hash safe_hash finalized_hash batch = do
    batch ← set "set unsafe hash by label" batch (label_key Label.unsafe) unsafe_hash
    batch ← set "set safe hash by label" batch (label_key Label.safe) safe_hash
    set "set finalized hash by label" batch (label_key Label.finalized) finalized_hash

  -- `DB.UpdateLabels`
  unfoldable pub update_labels :
      (unsafe_hash safe_hash finalized_hash : Bytes) → Db → Result (Unit {0}) × Db
  update_labels unsafe_hash safe_hash finalized_hash =
      update (label_ops unsafe_hash safe_hash finalized_hash [])
