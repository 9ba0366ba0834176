-- ===== src/Tests/Reached.antt =====
-- A node that has committed its genesis, was sent a transaction, and has built a block.
use monomer.Prelude.{none, arith, some, wrap_close_err, ◌≡◌, refl, [], ◌∷◌, ok}
use monomer.LocalDb.Lookup.{db_header_by_label}
use monomer.Builder.World.{BuilderState}
use monomer.Genesis.{store_genesis, start_chain, commit_genesis}
use monomer.Prelude.Stateful.{continue}
use monomer.Block.{new_block}
use monomer.Bytes.{bytes_eq, bytes_lt}
use monomer.Bytes.BigEndian.{uint64, be_value, put_uint64, first_bytes, big_bytes}
use monomer.KvStore.{lookup, insert, select, apply_op, apply}
use monomer.Builder.Withdrawals.{
  store_withdrawals, store_app_hash_in_evm, parse_withdrawal_messages,
}
use monomer.KvStore.Batch.{add_op, write_sync}
use monomer.Mempool.{
  len, update_len, elem, put_elem, link_tail, link_new, enqueue_body, enqueue, head_elem,
  unlink_head, dequeue_batch, dequeue_head, dequeue,
}
use monomer.LocalDb.Write.{
  commit, update, append_txs, append_ops, append_block, label_ops, update_labels,
}
use monomer.LocalDb.Lookup.{
  get_value, header_by_height, header_by_hash, header_by_label, get_height, txs_in_range,
  view_block_by_height, txs_of, height, head_header, head_block, db_header_by_hash,
  db_header_by_label, db_header_by_height, block_by_height, block_by_hash, block_by_label,
}
use monomer.LocalDb.Keys.{to_hash}
use monomer.Block.Hash.{header_to_eth, header_to_comet, block_to_eth, set_header, make_block}
use monomer.Adapters.{
  set_l1_attributes, leading_deposits, non_deposits, adapt_after_l1,
  adapt_payload_txs_to_cosmos_txs, adapt_non_deposit_cosmos_tx_to_eth_tx, user_deposit_txs,
  l1_attributes_bytes, adapt_cosmos_txs_to_eth_txs,
}
use monomer.Builder.Results.{index_results}
use monomer.Builder.Drain.{drain}
use monomer.Builder.Build.{
  next_header, take_txs, publish, publish_txs, publish_events, execute, finish, store_block,
  build_block, build_after, build_on, build,
}
use monomer.Tests.Building.{world, payload_2}
use monomer.Tests.Pool.{tx_a}
use monomer.Tests.Codecs.{tx_codec, pad}
use monomer.Tests.Payloads.{cosmos_txs}
use monomer.Prelude.{◌++◌, arith, some}
use monomer.Tests.Genesis.{genesis, nothing_yet, committed, genesis-ok}
use monomer.Node.Reached.{restarts, commits_genesis, enqueues, builds, HasChain, Reaches-HasChain}
use monomer.KvStore.Memory.{memory, memory-IsReliable}
use monomer.Block.{Block}
use monomer.Node.{prepare_block_store_and_app}
use monomer.Tests.Codecs.{block_codec}
use monomer.Prelude.{ℕ, Result}

abbrev waiting : BuilderState world
waiting = record committed { mempool = (enqueue memory tx_codec tx_a committed.mempool).1 }

abbrev second : Block
second = record {
  header = record {
    chain_id = 901;
    height = 2;
    time = 200;
    parent_hash = pad 32 (1 ∷ []);
    state_root = pad 32 [];
    parent_beacon_root = none;
    gas_limit = 30000000;
    hash = pad 32 (2 ∷ []);
    coinbase = pad 20 [];
  };
  txs = cosmos_txs ++ tx_a ∷ [];
}

abbrev with_second : BuilderState world
with_second =
    (build_on world payload_2 (cosmos_txs ++ tx_a ∷ [])
      (record waiting { mempool = (dequeue memory tx_codec waiting.mempool).1 })).1

build-second : build world 2 payload_2 waiting ≡ some (ok second, with_second)
unfolding commit_genesis start_chain store_genesis label_ops update_labels lookup insert select
    apply_op apply add_op write_sync bytes_eq bytes_lt put_uint64 first_bytes big_bytes len
    update_len elem put_elem link_tail link_new enqueue_body enqueue head_elem unlink_head
    dequeue_batch dequeue_head dequeue commit update append_txs append_ops append_block get_value
    header_by_height header_by_hash header_by_label get_height txs_in_range view_block_by_height
    txs_of height head_header head_block db_header_by_hash db_header_by_label db_header_by_height
    block_by_height block_by_hash block_by_label to_hash new_block header_to_eth header_to_comet
    block_to_eth set_header make_block set_l1_attributes leading_deposits non_deposits
    adapt_after_l1 adapt_payload_txs_to_cosmos_txs adapt_non_deposit_cosmos_tx_to_eth_tx
    user_deposit_txs l1_attributes_bytes adapt_cosmos_txs_to_eth_txs store_app_hash_in_evm
    store_withdrawals parse_withdrawal_messages index_results drain next_header take_txs publish
    publish_txs publish_events execute finish store_block build_block build_after build_on build
    wrap_close_err continue uint64 be_value
build-second = refl

committed-height : height memory block_codec committed.block_store ≡ ok 1
unfolding commit_genesis start_chain store_genesis label_ops update_labels lookup insert select
    apply_op apply add_op write_sync bytes_eq bytes_lt put_uint64 first_bytes big_bytes len
    update_len elem put_elem link_tail link_new enqueue_body enqueue head_elem unlink_head
    dequeue_batch dequeue_head dequeue commit update append_txs append_ops append_block get_value
    header_by_height header_by_hash header_by_label get_height txs_in_range view_block_by_height
    txs_of height head_header head_block db_header_by_hash db_header_by_label db_header_by_height
    block_by_height block_by_hash block_by_label to_hash new_block header_to_eth header_to_comet
    block_to_eth set_header make_block set_l1_attributes leading_deposits non_deposits
    adapt_after_l1 adapt_payload_txs_to_cosmos_txs adapt_non_deposit_cosmos_tx_to_eth_tx
    user_deposit_txs l1_attributes_bytes adapt_cosmos_txs_to_eth_txs store_app_hash_in_evm
    store_withdrawals parse_withdrawal_messages index_results drain next_header take_txs publish
    publish_txs publish_events execute finish store_block build_block build_after build_on build
    wrap_close_err continue uint64 be_value
committed-height = refl

-- The application tells its height when the node starts again.
abbrev told : ℕ → Result ℕ
told n = ok n

abbrev started_again : BuilderState world
started_again =
    (prepare_block_store_and_app world told (λ r s. (ok tt, s)) [] (λ s. s) genesis with_second).1

Reaches-HasChain_example :
    HasChain world memory-IsReliable told (λ r s. (ok tt, s)) [] (λ s. s) started_again
Reaches-HasChain_example =
    Reaches-HasChain world memory-IsReliable told (λ r s. (ok tt, s)) [] (λ s. s) started_again
      (restarts genesis with_second (
        builds 2 payload_2 1 waiting with_second (ok second) build-second committed-height
          (omega arith)
          (enqueues tx_a committed (commits_genesis genesis nothing_yet refl genesis-ok))))
