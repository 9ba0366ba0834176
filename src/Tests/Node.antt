-- ===== src/Tests/Node.antt =====
-- A node that starts, on databases in memory.
use monomer.Prelude.{wrap_close_err, is_not_found, ℕ, ◌≡◌, refl, [], ◌∷◌, arith, Result, ok, ◌⊎◌}
use monomer.Prelude.Stateful.{Step}
use monomer.KvStore.Memory.{memory, memory-IsReliable}
use monomer.LocalDb.Keys.{Label}
use monomer.LocalDb.Lookup.{height}
use monomer.Builder.World.{BuilderState}
use monomer.Genesis.{InitChainRequest, start_chain, store_genesis, commit_genesis}
use monomer.Genesis.First.{Founded}
use monomer.Node.{stored_height, ensure_heights, commit_if_new, prepare_block_store_and_app}
use monomer.Node.Start.{Resumed, prepare-Resumed, prepare-Founded}
use monomer.LocalDb.Lookup.{db_header_by_label}
use monomer.Prelude.Stateful.{continue}
use monomer.Block.{new_block}
use monomer.Bytes.{bytes_eq, bytes_lt}
use monomer.Bytes.BigEndian.{uint64, be_value, put_uint64, first_bytes, big_bytes}
use monomer.KvStore.{lookup, insert, select, apply_op, apply}
use monomer.Builder.Withdrawals.{
  store_withdrawals, store_app_hash_in_evm, parse_withdrawal_messages,
}
use monomer.KvStore.Batch.{add_op, write_sync}
use monomer.Mempool.{
  len, update_len, elem, put_elem, link_tail, link_new, enqueue_body, enqueue, head_elem,
  unlink_head, dequeue_batch, dequeue_head, dequeue,
}
use monomer.LocalDb.Write.{
  commit, update, append_txs, append_ops, append_block, label_ops, update_labels,
}
use monomer.LocalDb.Lookup.{
  get_value, header_by_height, header_by_hash, header_by_label, get_height, txs_in_range,
  view_block_by_height, txs_of, height, head_header, head_block, db_header_by_hash,
  db_header_by_label, db_header_by_height, block_by_height, block_by_hash, block_by_label,
}
use monomer.LocalDb.Keys.{to_hash}
use monomer.Block.Hash.{header_to_eth, header_to_comet, block_to_eth, set_header, make_block}
use monomer.Adapters.{
  set_l1_attributes, leading_deposits, non_deposits, adapt_after_l1,
  adapt_payload_txs_to_cosmos_txs, adapt_non_deposit_cosmos_tx_to_eth_tx, user_deposit_txs,
  l1_attributes_bytes, adapt_cosmos_txs_to_eth_txs,
}
use monomer.Builder.Results.{index_results}
use monomer.Builder.Drain.{drain}
use monomer.Builder.Build.{
  next_header, take_txs, publish, publish_txs, publish_events, execute, finish, store_block,
  build_block, build_after, build_on, build,
}
use monomer.Tests.Codecs.{length-pad, block_codec}
use monomer.Tests.Blocks.{with_1}
use monomer.Tests.Building.{world, start}
use monomer.Tests.Genesis.{genesis, nothing_yet}

abbrev info_height : ℕ → Result ℕ
info_height n = ok n

abbrev init_chain : InitChainRequest → Step ℕ (Unit {0})
init_chain r s = (ok tt, s)

-- The application has committed a block that the block store does not have.
abbrev one_ahead : BuilderState world
one_ahead = record start { app = 2 }

with_1-height : height memory block_codec with_1 ≡ ok 1
unfolding commit_genesis start_chain store_genesis label_ops update_labels lookup insert select
    apply_op apply add_op write_sync bytes_eq bytes_lt put_uint64 first_bytes big_bytes len
    update_len elem put_elem link_tail link_new enqueue_body enqueue head_elem unlink_head
    dequeue_batch dequeue_head dequeue commit update append_txs append_ops append_block get_value
    header_by_height header_by_hash header_by_label get_height txs_in_range view_block_by_height
    txs_of height head_header head_block db_header_by_hash db_header_by_label db_header_by_height
    block_by_height block_by_hash block_by_label to_hash new_block header_to_eth header_to_comet
    block_to_eth set_header make_block set_l1_attributes leading_deposits non_deposits
    adapt_after_l1 adapt_payload_txs_to_cosmos_txs adapt_non_deposit_cosmos_tx_to_eth_tx
    user_deposit_txs l1_attributes_bytes adapt_cosmos_txs_to_eth_txs store_app_hash_in_evm
    store_withdrawals parse_withdrawal_messages index_results drain next_header take_txs publish
    publish_txs publish_events execute finish store_block build_block build_after build_on build
    wrap_close_err continue uint64 be_value
with_1-height = refl

prepare-Resumed_example :
    Resumed world info_height init_chain []
      (λ s. s)
      2
      1
      one_ahead
      (prepare_block_store_and_app world info_height init_chain [] (λ s. s) genesis one_ahead)
prepare-Resumed_example =
    prepare-Resumed world info_height init_chain [] (λ s. s) genesis one_ahead 2 1 with_1-height
      refl (omega arith) (omega arith)

abbrev first_lost : BuilderState world
first_lost = record nothing_yet { app = 1 }

starts :
    (prepare_block_store_and_app world info_height init_chain [] (λ s. s) genesis first_lost).0
    ≡ ok tt
unfolding prepare_block_store_and_app stored_height ensure_heights commit_if_new is_not_found
    commit_genesis start_chain store_genesis label_ops update_labels lookup insert select apply_op
    apply add_op write_sync bytes_eq bytes_lt put_uint64 first_bytes big_bytes len update_len elem
    put_elem link_tail link_new enqueue_body enqueue head_elem unlink_head dequeue_batch
    dequeue_head dequeue commit update append_txs append_ops append_block get_value header_by_height
    header_by_hash header_by_label get_height txs_in_range view_block_by_height txs_of height
    head_header head_block db_header_by_hash db_header_by_label db_header_by_height block_by_height
    block_by_hash block_by_label to_hash new_block header_to_eth header_to_comet block_to_eth
    set_header make_block set_l1_attributes leading_deposits non_deposits adapt_after_l1
    adapt_payload_txs_to_cosmos_txs adapt_non_deposit_cosmos_tx_to_eth_tx user_deposit_txs
    l1_attributes_bytes adapt_cosmos_txs_to_eth_txs store_app_hash_in_evm store_withdrawals
    parse_withdrawal_messages index_results drain next_header take_txs publish publish_txs
    publish_events execute finish store_block build_block build_after build_on build wrap_close_err
    continue uint64 be_value
starts = refl

prepare-Founded_example :
    ((◌≡◌ {A = ℕ} 1 0) ⊎ (◌≡◌ {A = ℕ} 1 1))
    × Founded world memory-IsReliable genesis Label.safe
        (prepare_block_store_and_app world info_height init_chain [] (λ s. s) genesis first_lost).1
prepare-Founded_example =
    prepare-Founded world info_height init_chain [] (λ s. s) memory-IsReliable
      (λ eth txs. length-pad 32 (eth.number ∷ [])) genesis first_lost 1 Label.safe refl refl starts
