-- ===== src/Tests/Broadcast.antt =====
-- A transaction that a client sends while another waits, and the block that has both.
use monomer.Prelude.{ℕ, ◌≡◌, refl, [], ◌∷◌, ◌++◌, arith, Result, ok, some, wrap_close_err}
use monomer.Bytes.{Bytes, bytes_eq, bytes_lt}
use monomer.Block.{Block, new_block}
use monomer.KvStore.Memory.{memory, memory-IsReliable}
use monomer.Mempool.Chain.{Represents}
use monomer.Builder.World.{BuilderState}
use monomer.Comet.Api.{CometBlock, CheckTxResponse, broadcast_tx, broadcast_result, enqueue_checked}
use monomer.Comet.Included.{broadcasted, Served, broadcast_tx-build}
use monomer.Prelude.Stateful.{continue}
use monomer.Bytes.BigEndian.{uint64, be_value, put_uint64, first_bytes, big_bytes}
use monomer.KvStore.{lookup, insert, select, apply_op, apply}
use monomer.Builder.Withdrawals.{
  store_withdrawals, store_app_hash_in_evm, parse_withdrawal_messages,
}
use monomer.KvStore.Batch.{add_op, write_sync}
use monomer.Mempool.{
  len, update_len, elem, put_elem, link_tail, link_new, enqueue_body, enqueue, head_elem,
  unlink_head, dequeue_batch, dequeue_head, dequeue,
}
use monomer.LocalDb.Write.{commit, update, append_txs, append_ops, append_block}
use monomer.LocalDb.Lookup.{
  get_value, header_by_height, header_by_hash, header_by_label, get_height, txs_in_range,
  view_block_by_height, txs_of, height, head_header, head_block, db_header_by_hash,
  db_header_by_label, db_header_by_height, block_by_height, block_by_hash, block_by_label,
}
use monomer.LocalDb.Keys.{to_hash}
use monomer.Block.Hash.{header_to_eth, header_to_comet, block_to_eth, set_header, make_block}
use monomer.Adapters.{
  set_l1_attributes, leading_deposits, non_deposits, adapt_after_l1,
  adapt_payload_txs_to_cosmos_txs, adapt_non_deposit_cosmos_tx_to_eth_tx, user_deposit_txs,
  l1_attributes_bytes, adapt_cosmos_txs_to_eth_txs,
}
use monomer.Builder.Results.{index_results}
use monomer.Builder.Drain.{drain}
use monomer.Builder.Build.{
  next_header, take_txs, publish, publish_txs, publish_events, execute, finish, store_block,
  build_block, build_after, build_on, build,
}
use monomer.Tests.Codecs.{tx_codec}
use monomer.Tests.Pool.{tx_a, tx_b, with_a, enqueue_a}
use monomer.Tests.Blocks.{block_1}
use monomer.Tests.Payloads.{cosmos_txs}
use monomer.Tests.Building.{
  world, start, payload_2, block_2, with_1-head, with_1-IsSorted, with_1-free,
}

abbrev fine : CheckTxResponse
fine = record { code = 0; log = ""; codespace = "" }

abbrev check : Bytes → ℕ → Result CheckTxResponse × ℕ
check tx n = (ok fine, n)

abbrev block_hash : CometBlock → Bytes
block_hash b = []

abbrev sent : BuilderState world
sent = broadcasted world check block_hash tx_b start

abbrev block_with_both : Block
block_with_both = record block_2 { txs = cosmos_txs ++ (tx_a ∷ tx_b ∷ []) }

abbrev built : BuilderState world
built =
    (build_on world payload_2 (cosmos_txs ++ (tx_a ∷ tx_b ∷ [])) (record sent {
      mempool = (dequeue memory tx_codec (dequeue memory tx_codec sent.mempool).1).1;
    })).1

builds : build world 3 payload_2 sent ≡ some (ok block_with_both, built)
unfolding broadcast_tx enqueue_checked lookup insert select apply_op apply add_op write_sync
    bytes_eq bytes_lt put_uint64 first_bytes big_bytes len update_len elem put_elem link_tail
    link_new enqueue_body enqueue head_elem unlink_head dequeue_batch dequeue_head dequeue commit
    update append_txs append_ops append_block get_value header_by_height header_by_hash
    header_by_label get_height txs_in_range view_block_by_height txs_of height head_header
    head_block db_header_by_hash db_header_by_label db_header_by_height block_by_height
    block_by_hash block_by_label to_hash new_block header_to_eth header_to_comet block_to_eth
    set_header make_block set_l1_attributes leading_deposits non_deposits adapt_after_l1
    adapt_payload_txs_to_cosmos_txs adapt_non_deposit_cosmos_tx_to_eth_tx user_deposit_txs
    l1_attributes_bytes adapt_cosmos_txs_to_eth_txs store_app_hash_in_evm store_withdrawals
    parse_withdrawal_messages index_results drain next_header take_txs publish publish_txs
    publish_events execute finish store_block build_block build_after build_on build wrap_close_err
    continue uint64 be_value
builds = refl

broadcast_tx-build_example :
    ((broadcast_tx memory tx_codec check tx_b (1, with_a)).0
      ≡ ok (broadcast_result memory tx_codec check tx_b fine))
    × ◌≡◌ {A = ℕ} 2 2
    × Served world check block_hash block_with_both (cosmos_txs ++ (tx_a ∷ tx_b ∷ [])) built
    × Represents memory tx_codec built.mempool []
unfolding bytes_eq
broadcast_tx-build_example =
    broadcast_tx-build world check block_hash memory-IsReliable memory-IsReliable tx_b fine
      payload_2 (tx_a ∷ []) 3 block_1.header start built block_with_both refl refl enqueue_a.1
      (refl, tt) (omega arith) refl with_1-head (omega arith) (omega arith) with_1-IsSorted
      with_1-free builds
