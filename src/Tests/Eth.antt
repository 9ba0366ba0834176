-- ===== src/Tests/Eth.antt =====
-- Ethereum's clients, on a database with one block.
use monomer.Prelude.{List, ℕ, refl, some, [], ◌∷◌, arith, ok, false}
use monomer.Bytes.{Bytes}
use monomer.KvStore.Memory.{memory, memory-IsReliable}
use monomer.LocalDb.Keys.{Label}
use monomer.LocalDb.Write.{append_block, update_labels}
use monomer.LocalDb.Lookup.Stored.{IsStored}
use monomer.Block.Hash.{EthHeader}
use monomer.Eth.{EthApi, BlockNumbers}
use monomer.Eth.Reads.{SameBlock, get_block-SameBlock, Unknown, get_block-Unknown}
use monomer.Tests.Codecs.{block_codec, put_header}
use monomer.Tests.Payloads.{eth_codec}
use monomer.Tests.Blocks.{with_1, block_1, hash_1}
use monomer.KvStore.{Entries}

abbrev block_hash : EthHeader → List eth_codec.Tx → Bytes
block_hash h txs = []

-- A client is told the number of the block.
abbrev api : EthApi eth_codec
api = record {
  RpcBlock = ℕ;
  StateDb = Bytes;
  marshal_block = λ (h, txs) full_tx. ok h.number;
  new_state = λ root. ok (some root);
}

-- The numbers are the 64 bits of negative ones.
abbrev numbers : BlockNumbers
numbers = record {
  latest = 18446744073709551614;
  earliest = 18446744073709551611;
  pending = 18446744073709551615;
  safe = 18446744073709551612;
  finalized = 18446744073709551613;
}

abbrev labelled : Entries
labelled = (update_labels memory block_codec hash_1 hash_1 hash_1 with_1).1

labelled-IsStored :
    IsStored memory block_codec memory-IsReliable labelled block_1 (put_header block_1.header)
unfolding monomer.KvStore.lookup monomer.KvStore.select update_labels monomer.LocalDb.Write.update
    monomer.LocalDb.Write.commit monomer.LocalDb.Write.label_ops monomer.KvStore.Batch.add_op
    monomer.KvStore.Batch.write_sync monomer.KvStore.apply monomer.KvStore.apply_op
    monomer.KvStore.insert append_block monomer.LocalDb.Write.append_ops
    monomer.LocalDb.Write.append_txs monomer.Bytes.bytes_eq monomer.Bytes.bytes_lt
    monomer.Bytes.BigEndian.put_uint64
labelled-IsStored = record {
  decodes = refl;
  at_height = refl;
  at_hash = refl;
  its_txs = refl;
  in_u64 = omega arith;
}

get_block-SameBlock_example :
    SameBlock memory block_codec eth_codec block_hash api Label.safe false numbers labelled block_1
unfolding monomer.KvStore.lookup monomer.KvStore.select update_labels monomer.LocalDb.Write.update
    monomer.LocalDb.Write.commit monomer.LocalDb.Write.label_ops monomer.KvStore.Batch.add_op
    monomer.KvStore.Batch.write_sync monomer.KvStore.apply monomer.KvStore.apply_op
    monomer.KvStore.insert append_block monomer.LocalDb.Write.append_ops
    monomer.LocalDb.Write.append_txs monomer.Bytes.bytes_eq monomer.Bytes.bytes_lt
    monomer.Bytes.BigEndian.put_uint64
get_block-SameBlock_example =
    get_block-SameBlock memory block_codec eth_codec block_hash api numbers memory-IsReliable
      Label.safe false labelled block_1 (put_header block_1.header) labelled-IsStored refl refl refl
      refl

get_block-Unknown_example :
    Unknown memory block_codec eth_codec block_hash api (3 ∷ []) 5 Label.safe false with_1
unfolding monomer.KvStore.lookup monomer.KvStore.select update_labels monomer.LocalDb.Write.update
    monomer.LocalDb.Write.commit monomer.LocalDb.Write.label_ops monomer.KvStore.Batch.add_op
    monomer.KvStore.Batch.write_sync monomer.KvStore.apply monomer.KvStore.apply_op
    monomer.KvStore.insert append_block monomer.LocalDb.Write.append_ops
    monomer.LocalDb.Write.append_txs monomer.Bytes.bytes_eq monomer.Bytes.bytes_lt
    monomer.Bytes.BigEndian.put_uint64
get_block-Unknown_example =
    get_block-Unknown memory block_codec eth_codec block_hash api memory-IsReliable (3 ∷ []) 5
      Label.safe false with_1 refl refl refl
