-- ===== src/Tests/Accepted.antt =====
-- The payload of the engine's run, given back to it.
use monomer.Prelude.{◌≡◌, refl, none, some, [], ◌∷◌, arith, ok, wrap_close_err}
use monomer.KvStore.Memory.{memory-IsReliable}
use monomer.Prelude.Stateful.{continue}
use monomer.Bytes.{bytes_eq, bytes_lt}
use monomer.Block.{new_block}
use monomer.LocalDb.Keys.{to_hash}
use monomer.Engine.Attributes.{txs_preimage, id_preimage, payload_id}
use monomer.Engine.Api.{
  EngineState, status_valid, find_header, not_above, check_forkchoice, reorg, label, check_txs,
  gas_and_txs, check_attributes, keep_attributes, answer_payload, check_payload, with_parent,
  start_payload, answer, label_and_answer, apply_forkchoice, forkchoice_updated,
}
use monomer.Engine.Payloads.{
  marshal_txs, payload_txs, hand_out, seal, after_build, build_payload, build_if, get_current,
  get_payload, new_payload,
}
use monomer.KvStore.{lookup, insert, select, apply_op, apply}
use monomer.KvStore.Batch.{add_op, write_sync}
use monomer.Bytes.BigEndian.{be_value, put_uint64, first_bytes, uint64, big_bytes}
use monomer.Mempool.{
  len, update_len, elem, put_elem, link_tail, link_new, enqueue_body, enqueue, head_elem,
  unlink_head, dequeue_batch, dequeue_head, dequeue,
}
use monomer.LocalDb.Write.{
  commit, update, append_txs, append_ops, append_block, update_labels, label_ops,
}
use monomer.LocalDb.Lookup.{
  get_value, header_by_height, header_by_hash, header_by_label, get_height, txs_in_range,
  view_block_by_height, txs_of, height, head_header, head_block, db_header_by_hash,
  db_header_by_label, db_header_by_height, block_by_height, block_by_hash, block_by_label,
}
use monomer.Block.Hash.{header_to_eth, header_to_comet, block_to_eth, set_header, make_block}
use monomer.Adapters.{
  set_l1_attributes, leading_deposits, non_deposits, adapt_after_l1,
  adapt_payload_txs_to_cosmos_txs, adapt_non_deposit_cosmos_tx_to_eth_tx, user_deposit_txs,
  l1_attributes_bytes, adapt_cosmos_txs_to_eth_txs,
}
use monomer.Builder.Withdrawals.{
  store_app_hash_in_evm, store_withdrawals, parse_withdrawal_messages,
}
use monomer.Builder.Results.{index_results}
use monomer.Builder.Drain.{drain}
use monomer.Builder.Build.{
  next_header, take_txs, publish, publish_txs, publish_events, execute, finish, store_block,
  build_block, build_after, build_on, build,
}
use monomer.Engine.Accepted.{new_payload-get_payload}
use monomer.Tests.Pool.{tx_a, enqueue_a}
use monomer.Tests.Blocks.{block_1}
use monomer.Tests.Building.{world, start, with_1-head, with_1-IsSorted, with_1-free}
use monomer.Tests.Rpc.{sha256, marshal_binary, kept, sealed, after_seal}

abbrev asking : EngineState world
asking = record { builder = start; current_payload_attributes = some kept }

abbrev done : EngineState world
done = after_seal (get_payload world marshal_binary sha256 2 (payload_id sha256 kept) asking)

hands_out :
    get_payload world marshal_binary sha256 2 (payload_id sha256 kept) asking
    ≡ some (ok sealed, done)
unfolding wrap_close_err continue lookup insert select apply_op apply add_op write_sync bytes_eq
    bytes_lt be_value put_uint64 first_bytes uint64 big_bytes len update_len elem put_elem link_tail
    link_new enqueue_body enqueue head_elem unlink_head dequeue_batch dequeue_head dequeue commit
    update append_txs append_ops append_block update_labels label_ops get_value header_by_height
    header_by_hash header_by_label get_height txs_in_range view_block_by_height txs_of height
    head_header head_block db_header_by_hash db_header_by_label db_header_by_height block_by_height
    block_by_hash block_by_label to_hash new_block header_to_eth header_to_comet block_to_eth
    set_header make_block set_l1_attributes leading_deposits non_deposits adapt_after_l1
    adapt_payload_txs_to_cosmos_txs adapt_non_deposit_cosmos_tx_to_eth_tx user_deposit_txs
    l1_attributes_bytes adapt_cosmos_txs_to_eth_txs store_app_hash_in_evm store_withdrawals
    parse_withdrawal_messages index_results drain next_header take_txs publish publish_txs
    publish_events execute finish store_block build_block build_after build_on build find_header
    not_above check_forkchoice reorg label check_txs gas_and_txs check_attributes keep_attributes
    answer_payload check_payload with_parent start_payload answer label_and_answer apply_forkchoice
    forkchoice_updated marshal_txs payload_txs hand_out seal after_build build_payload build_if
    get_current get_payload new_payload txs_preimage id_preimage payload_id
hands_out = refl

new_payload-get_payload_example :
    new_payload world marshal_binary sha256 sealed.block_hash done
    ≡ ok (record { status = some (status_valid sealed.block_hash); error = none })
new_payload-get_payload_example =
    new_payload-get_payload world marshal_binary sha256 memory-IsReliable memory-IsReliable kept
      (tx_a ∷ []) 2 block_1.header (payload_id sha256 kept) asking done sealed refl enqueue_a.1
      (omega arith) with_1-head (omega arith) (omega arith) with_1-IsSorted with_1-free hands_out
