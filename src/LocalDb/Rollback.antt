-- ===== src/LocalDb/Rollback.antt =====
-- monomerdb/localdb/localdb.go: `Rollback`.
pub mod Ops
pub mod Effect
pub mod Chain
use monomer.Prelude.{◌+◌, ◌%◌, List, [], ◌∷◌, Result, ok, ◌>>=◌, failing, wrapping, wrap_close_err}
use monomer.Bytes.{Bytes}
use monomer.Bytes.BigEndian.{u64_mod, put_uint64, uint64}
use monomer.KvStore.{KvStore, Entries, Op, remove, remove_range}
use monomer.KvStore.Batch.{add_op}
use monomer.LocalDb.Keys.{
  bucket_byte, bucket_header_by_height, bucket_tx_by_height_and_index,
  bucket_tx_height_and_index_by_hash, key, next_bucket, height_key, hash_key, tx_hash_key,
  BlockCodec,
}
use monomer.LocalDb.Write.{set, label_ops, update}
use monomer.LocalDb.Lookup.{get_value}

module _ (S : KvStore) (C : BlockCodec) where
  open S use {Db, get, iterate, close}
  open C use {tx_hash, marshal, unmarshal}

  -- The loop of `Rollback` over the headers that go.
  unfoldable pub delete_headers : Entries → List Op → Result (List Op)
  delete_headers [] batch = ok batch
  delete_headers ((k, v) ∷ es) batch = do
    header ← failing "unmarshal header from cbor" (unmarshal v)
    batch ← failing "delete height by hash" (add_op S batch (remove (hash_key header.hash)))
    delete_headers es batch

  -- The loop over the transactions that go.
  unfoldable pub delete_txs : Entries → List Op → Result (List Op)
  delete_txs [] batch = ok batch
  delete_txs ((k, tx) ∷ es) batch = do
    batch ←
        failing "delete tx height and index by hash"
          (add_op S batch (remove (tx_hash_key (tx_hash tx))))
    delete_txs es batch

  -- The end of `Rollback`. The range that is deleted starts in the bucket of the hashes, and its
  -- bound is the eight bytes of a number.
  unfoldable pub rollback_end : Bytes → List Op → Result (List Op)
  rollback_end first batch = failing "delete range of txs" (
      add_op S batch (
        remove_range (key bucket_tx_height_and_index_by_hash first)
          (put_uint64 (bucket_byte bucket_tx_height_and_index_by_hash + 1))))

  -- From the iterator over the transactions on; it is closed on every path.
  unfoldable pub rollback_txs :
      (unsafe_hash safe_hash finalized_hash : Bytes) → Db → Bytes → List Op → Result (List Op)
  rollback_txs unsafe_hash safe_hash finalized_hash d first batch = do
    txs ← failing "new bucketTxByHeightAndIndex iterator" (
        iterate d batch (key bucket_tx_by_height_and_index first)
          (next_bucket bucket_tx_by_height_and_index))
    wrap_close_err
        (do
          batch ← delete_txs txs batch
          batch ← rollback_end first batch
          failing "update labels" (label_ops S C unsafe_hash safe_hash finalized_hash batch))
        (close d)

  -- From the iterator over the headers on.
  unfoldable pub rollback_headers :
      (unsafe_hash safe_hash finalized_hash : Bytes) → Db → Bytes → List Op → Result (List Op)
  rollback_headers unsafe_hash safe_hash finalized_hash d first batch = do
    headers ←
        failing "new bucketHeaderByHeight iterator" (
          iterate d batch (key bucket_header_by_height first) (next_bucket bucket_header_by_height))
    wrap_close_err
        (do
          batch ← delete_headers headers batch
          batch ← failing "delete range of headers" (
              add_op S batch (
                remove_range (key bucket_header_by_height first)
                  (next_bucket bucket_header_by_height)))
          rollback_txs unsafe_hash safe_hash finalized_hash d first batch)
        (close d)

  -- The callback of `Rollback`.
  unfoldable pub rollback_ops :
      (unsafe_hash safe_hash finalized_hash : Bytes) → Db → Result (List Op)
  rollback_ops unsafe_hash safe_hash finalized_hash d = do
    height_bytes ← wrapping "get height by hash" (get_value S C (d, []) (hash_key unsafe_hash))
    wrap_close_err
        (do
          unsafe_height ← uint64 height_bytes
          batch ← set S C "set height" [] height_key height_bytes
          rollback_headers unsafe_hash safe_hash finalized_hash d
              (put_uint64 ((unsafe_height + 1) % u64_mod)) batch)
        (close d)

  -- `DB.Rollback`
  unfoldable pub rollback :
      (unsafe_hash safe_hash finalized_hash : Bytes) → Db → Result (Unit {0}) × Db
  rollback unsafe_hash safe_hash finalized_hash d =
      update S C (rollback_ops unsafe_hash safe_hash finalized_hash d) d
