-- ===== src/Tests/Comet.antt =====
-- Requests of CometBFT's clients.
use mathlib.Core.List.{Perm}
use monomer.Prelude.{
  ◌^◌, ◌-◌, ℕ, ◌+◌, ◌≡◌, refl, pos, none, some, String, List, [], ◌∷◌, map, length, Result, ok,
  arith,
}
use monomer.Bytes.{Bytes, bytes_eq}
use monomer.Bytes.BigEndian.{put_uint64}
use monomer.KvStore.Memory.{memory, memory-IsReliable}
use monomer.Builder.World.{TxResult}
use monomer.Comet.Paginate.{
  page_size, num_pages, paginate, page_of, pages_to, pages_to-all, paginate-empty, take, drop,
}
use monomer.Comet.Search.{
  ResultTx, TxIndex, order_of, int64_rank, InOrder, sort, result_tx, search_txs, search_txs-page,
}
use monomer.Comet.Api.{
  CometBlock, to_comet_like_block, CheckTxResponse, rpc_status, rpc_status-block,
  rpc_block_by_height, rpc_block_by_hash, ResultBlock, SyncInfo,
}
use monomer.Tests.Codecs.{block_codec, put_header}
use monomer.LocalDb.Write.{append_block}
use monomer.LocalDb.Lookup.Stored.{IsStored}
use monomer.Block.Hash.{CometHeader}
use monomer.Tests.Blocks.{with_1, block_1}

-- Three results of a query on pages of two.
pages_to-all_example :
    pages_to {A = ℕ} (some (pos 2)) (7 ∷ 8 ∷ 9 ∷ []) (num_pages 3 (page_size (some (pos 2))))
    ≡ ok (7 ∷ 8 ∷ 9 ∷ [])
pages_to-all_example = pages_to-all {A = ℕ} (some (pos 2)) (7 ∷ 8 ∷ 9 ∷ [])

abbrev tx_result : ℕ → ℕ → TxResult
tx_result h i = record {
  height = h;
  index = i;
  tx = h ∷ i ∷ [];
  result = record { code = 0; data_bytes = []; events = [] };
}

abbrev index : TxIndex
index = record {
  State = List TxResult;
  Query = String;
  new_query = λ t. ok t;
  get = λ hash s. ok none;
  search = λ q s. ok s;
  tx_hash = λ tx. tx;
}

-- One of them has height -1.
abbrev stored_txs : List TxResult
stored_txs = tx_result 1 0 ∷ tx_result (2 ^ 64 - 1) 5 ∷ tx_result 2 0 ∷ tx_result 1 1 ∷ []

search_txs-page_example :
    (q : String) × (results : List TxResult) × (sorted : List TxResult) × (skip : ℕ) × (count : ℕ)
    × (ok "tx.height > 0" ≡ ok q)
    × (ok stored_txs ≡ ok results)
    × Perm sorted results
    × InOrder "desc" sorted
    × (4 ≡ length sorted)
    × (paginate none (some (pos 3)) 4 ≡ ok (skip, count))
    × (map (result_tx index) (tx_result 2 0 ∷ tx_result 1 1 ∷ tx_result 1 0 ∷ [])
        ≡ map (result_tx index) (take count (drop skip sorted)))
unfolding search_txs order_of monomer.Comet.Search.page_of_results paginate
    monomer.Comet.Paginate.page_num monomer.Comet.Paginate.page_at num_pages sort
    monomer.Comet.Search.insert monomer.Comet.Search.before int64_rank page_size
    monomer.Comet.Paginate.copy_page monomer.Comet.Paginate.item
search_txs-page_example =
    search_txs-page index "tx.height > 0" none (some (pos 3)) "desc" stored_txs
      (map (result_tx index) (tx_result 2 0 ∷ tx_result 1 1 ∷ tx_result 1 0 ∷ [])) 4 refl

abbrev fine : CheckTxResponse
fine = record { code = 0; log = ""; codespace = "" }

abbrev check : Bytes → ℕ → Result CheckTxResponse × ℕ
check tx n = (ok fine, n + 1)

with_1-IsStored :
    IsStored memory block_codec memory-IsReliable with_1 block_1 (put_header block_1.header)
unfolding append_block monomer.KvStore.lookup monomer.LocalDb.Write.update
    monomer.LocalDb.Write.commit monomer.LocalDb.Write.append_ops monomer.KvStore.Batch.add_op
    monomer.LocalDb.Write.append_txs monomer.KvStore.Batch.write_sync monomer.KvStore.apply
    monomer.KvStore.apply_op monomer.KvStore.insert bytes_eq monomer.Bytes.bytes_lt put_uint64
    monomer.KvStore.select
with_1-IsStored = record {
  decodes = refl;
  at_height = refl;
  at_hash = refl;
  its_txs = refl;
  in_u64 = omega arith;
}

abbrev comet_hash : CometHeader → Bytes
comet_hash h = h.height ∷ []

abbrev block_hash : CometBlock → Bytes
block_hash b = []

abbrev start : CometBlock
start = to_comet_like_block block_1

rpc_status-block_example :
    (status : SyncInfo) × (found : ResultBlock) × (rpc_status memory block_codec comet_hash
        block_hash start with_1
      ≡ ok status)
    × (rpc_block_by_height memory block_codec comet_hash block_hash (pos 1) with_1 ≡ ok found)
    × (rpc_block_by_hash memory block_codec comet_hash block_hash block_1.header.hash with_1
        ≡ ok found)
    × (found.block.txs ≡ block_1.txs)
    × (found.block.header.height ≡ status.latest_block_height)
    × (found.block.header.time ≡ status.latest_block_time)
    × (found.block.header.app_hash ≡ status.latest_app_hash)
unfolding append_block monomer.KvStore.lookup monomer.LocalDb.Write.update
    monomer.LocalDb.Write.commit monomer.LocalDb.Write.append_ops monomer.KvStore.Batch.add_op
    monomer.LocalDb.Write.append_txs monomer.KvStore.Batch.write_sync monomer.KvStore.apply
    monomer.KvStore.apply_op monomer.KvStore.insert bytes_eq monomer.Bytes.bytes_lt
rpc_status-block_example =
    rpc_status-block memory block_codec comet_hash block_hash memory-IsReliable start with_1 block_1
      (put_header block_1.header) with_1-IsStored refl refl
