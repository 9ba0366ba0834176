-- ===== src/Tests/Genesis.antt =====
-- The first block of a chain, on databases in memory.
use monomer.Prelude.{wrap_close_err, ◌≡◌, refl, [], ◌∷◌, ok}
use monomer.LocalDb.Lookup.{db_header_by_label}
use monomer.Builder.World.{BuilderState}
use monomer.Genesis.{store_genesis, start_chain, Genesis, commit_genesis}
use monomer.Prelude.Stateful.{continue}
use monomer.Block.{new_block}
use monomer.Bytes.{bytes_eq, bytes_lt}
use monomer.Bytes.BigEndian.{uint64, be_value, put_uint64, first_bytes, big_bytes}
use monomer.KvStore.{lookup, insert, select, apply_op, apply}
use monomer.Builder.Withdrawals.{
  store_withdrawals, store_app_hash_in_evm, parse_withdrawal_messages,
}
use monomer.KvStore.Batch.{add_op, write_sync}
use monomer.Mempool.{
  len, update_len, elem, put_elem, link_tail, link_new, enqueue_body, enqueue, head_elem,
  unlink_head, dequeue_batch, dequeue_head, dequeue,
}
use monomer.LocalDb.Write.{
  commit, update, append_txs, append_ops, append_block, label_ops, update_labels,
}
use monomer.LocalDb.Lookup.{
  get_value, header_by_height, header_by_hash, header_by_label, get_height, txs_in_range,
  view_block_by_height, txs_of, height, head_header, head_block, db_header_by_hash,
  db_header_by_label, db_header_by_height, block_by_height, block_by_hash, block_by_label,
}
use monomer.LocalDb.Keys.{to_hash}
use monomer.Block.Hash.{header_to_eth, header_to_comet, block_to_eth, set_header, make_block}
use monomer.Adapters.{
  set_l1_attributes, leading_deposits, non_deposits, adapt_after_l1,
  adapt_payload_txs_to_cosmos_txs, adapt_non_deposit_cosmos_tx_to_eth_tx, user_deposit_txs,
  l1_attributes_bytes, adapt_cosmos_txs_to_eth_txs,
}
use monomer.Builder.Results.{index_results}
use monomer.Builder.Drain.{drain}
use monomer.Builder.Build.{
  next_header, take_txs, publish, publish_txs, publish_events, execute, finish, store_block,
  build_block, build_after, build_on, build,
}
use monomer.Tests.Building.{world}

abbrev pub genesis : Genesis
genesis = record { time = 7; chain_id = 901; app_state = ok (1 ∷ []) }

abbrev pub nothing_yet : BuilderState world
nothing_yet = record {
  mempool = [];
  app = 0;
  block_store = [];
  tx_store = 0;
  event_bus = 0;
  eth_statedb = tt;
}

abbrev pub committed : BuilderState world
committed = (commit_genesis world (λ r s. (ok tt, s)) [] (λ s. s) genesis nothing_yet).1

pub genesis-ok :
    (commit_genesis world (λ r s. (ok tt, s)) [] (λ s. s) genesis nothing_yet).0 ≡ ok tt
unfolding commit_genesis start_chain store_genesis label_ops update_labels lookup insert select
    apply_op apply add_op write_sync bytes_eq bytes_lt put_uint64 first_bytes big_bytes len
    update_len elem put_elem link_tail link_new enqueue_body enqueue head_elem unlink_head
    dequeue_batch dequeue_head dequeue commit update append_txs append_ops append_block get_value
    header_by_height header_by_hash header_by_label get_height txs_in_range view_block_by_height
    txs_of height head_header head_block db_header_by_hash db_header_by_label db_header_by_height
    block_by_height block_by_hash block_by_label to_hash new_block header_to_eth header_to_comet
    block_to_eth set_header make_block set_l1_attributes leading_deposits non_deposits
    adapt_after_l1 adapt_payload_txs_to_cosmos_txs adapt_non_deposit_cosmos_tx_to_eth_tx
    user_deposit_txs l1_attributes_bytes adapt_cosmos_txs_to_eth_txs store_app_hash_in_evm
    store_withdrawals parse_withdrawal_messages index_results drain next_header take_txs publish
    publish_txs publish_events execute finish store_block build_block build_after build_on build
    wrap_close_err continue uint64 be_value
genesis-ok = refl
