-- ===== src/Tests/Blocks.antt =====
-- The block store on a database in memory: two blocks, and a rollback to the first.
use monomer.Prelude.{ℕ, ◌+◌, ◌≡◌, refl, ok, none, some, List, [], ◌∷◌, arith, wrap_close_err}
use monomer.Bytes.{Bytes, bytes_eq, bytes_lt}
use monomer.Bytes.BigEndian.{put_uint64}
use monomer.KvStore.{Entries, lookup, insert, select, apply_op, apply}
use monomer.KvStore.Batch.{add_op, write_sync}
use monomer.KvStore.Memory.{memory, memory-IsReliable}
use monomer.Block.{Block}
use monomer.LocalDb.Keys.{hash_key}
use monomer.LocalDb.Lookup.{txs_in_range}
use monomer.LocalDb.Write.{append_block, append_ops, append_txs, update, commit}
use monomer.LocalDb.Write.Append.{append_block-Reads, Reads}
use monomer.LocalDb.Rollback.{rollback}
use monomer.LocalDb.Rollback.Ops.{Decode, headers_from}
use monomer.LocalDb.Rollback.Chain.{
  rollback-RolledBack, rollback-keeps_txs, RolledBack, first_after, txs_at,
}
use monomer.Tests.Codecs.{block_codec, pad}

abbrev pub block : ℕ → List Bytes → Block
block h txs = record {
  header = record {
    chain_id = 901;
    height = h;
    time = 100 + h;
    parent_hash = pad 32 (h ∷ []);
    state_root = pad 32 [];
    parent_beacon_root = none;
    gas_limit = 30000000;
    hash = pad 32 ((h + 1) ∷ []);
    coinbase = pad 20 [];
  };
  txs = txs;
}

abbrev pub block_1 : Block
block_1 = block 1 ((b'x' ∷ []) ∷ [])

abbrev pub block_2 : Block
block_2 = block 2 ((b'y' ∷ []) ∷ (b'z' ∷ []) ∷ [])

abbrev pub no_entries : Entries
no_entries = []

abbrev pub with_1 : Entries
with_1 = (append_block memory block_codec block_1 no_entries).1

abbrev pub with_1_2 : Entries
with_1_2 = (append_block memory block_codec block_2 with_1).1

append_block-Reads_example :
    Reads memory block_codec memory-IsReliable block_1
      (append_block memory block_codec block_1 no_entries)
unfolding select
append_block-Reads_example =
    append_block-Reads memory block_codec memory-IsReliable block_1 no_entries (omega arith)
      (omega arith) tt refl

-- Rolling back to the first block, which becomes the unsafe, safe and finalized one.
abbrev pub hash_1 : Bytes
hash_1 = block_1.header.hash

pub with_1_2-hash : lookup (hash_key hash_1) with_1_2 ≡ some (put_uint64 1)
unfolding lookup append_block append_ops append_txs update commit wrap_close_err add_op write_sync
    apply apply_op insert bytes_eq bytes_lt put_uint64
with_1_2-hash = refl

pub with_1_2-Decode :
    Decode block_codec
      (select (headers_from (first_after memory block_codec memory-IsReliable 1)) with_1_2)
      (block_2.header ∷ [])
unfolding lookup append_block append_ops append_txs update commit wrap_close_err add_op write_sync
    apply apply_op insert select bytes_eq bytes_lt put_uint64
with_1_2-Decode = (refl, tt)

rollback-RolledBack_example :
    ((rollback memory block_codec hash_1 hash_1 hash_1 with_1_2).0 ≡ ok tt)
    × RolledBack memory block_codec memory-IsReliable with_1_2 1
        (block_2.header ∷ [])
        hash_1
        hash_1
        hash_1
        (rollback memory block_codec hash_1 hash_1 hash_1 with_1_2).1
rollback-RolledBack_example =
    rollback-RolledBack memory block_codec memory-IsReliable with_1_2 hash_1 hash_1 hash_1 1
      (block_2.header ∷ []) (omega arith) with_1_2-hash with_1_2-Decode

rollback-keeps_txs_example :
    txs_at memory block_codec memory-IsReliable 2
      (rollback memory block_codec hash_1 hash_1 hash_1 with_1_2).1
    ≡ txs_at memory block_codec memory-IsReliable 2 with_1_2
rollback-keeps_txs_example =
    rollback-keeps_txs memory block_codec memory-IsReliable with_1_2 hash_1 hash_1 hash_1 1 2
      (block_2.header ∷ []) (omega arith) with_1_2-hash with_1_2-Decode

-- The transactions of the block that went are there.
txs_at_2 :
    txs_at memory block_codec memory-IsReliable 2 with_1_2 ≡ ok ((b'y' ∷ []) ∷ (b'z' ∷ []) ∷ [])
unfolding txs_in_range append_block append_ops append_txs update commit wrap_close_err add_op
    write_sync apply apply_op insert select bytes_eq bytes_lt put_uint64
txs_at_2 = refl
