-- ===== src/Tests/Rpc.antt =====
-- The engine on one block and one transaction in the pool.
use monomer.Prelude.{
  ℕ, ◌≡◌, refl, false, Option, none, some, String, [], ◌∷◌, ◌++◌, arith, coded, invalid_params,
  invalid_payload_attributes, Result, ok, err, wrap_close_err,
}
use monomer.Prelude.Stateful.{Step, continue}
use monomer.Bytes.{Bytes, bytes_eq, bytes_lt}
use monomer.Block.{new_block}
use monomer.KvStore.Memory.{memory, memory-IsReliable}
use monomer.Builder.World.{Payload}
use monomer.LocalDb.Keys.{Label, label_key, hash_key, to_hash}
use monomer.LocalDb.Rollback.Effect.{label_value}
use monomer.Engine.Attributes.{
  PayloadAttributes, payload_id-same_txs, txs_preimage, id_preimage, payload_id,
}
use monomer.Engine.Api.{
  EngineState, Forkchoice, EthAttributes, Updated, status_valid, attributes_of, find_header,
  not_above, check_forkchoice, reorg, label, check_txs, gas_and_txs, check_attributes,
  keep_attributes, answer_payload, check_payload, with_parent, start_payload, answer,
  label_and_answer, apply_forkchoice, forkchoice_updated,
}
use monomer.Engine.Payloads.{
  ExecutionPayload, execution_payload, marshal_txs, payload_txs, hand_out, seal, after_build,
  build_payload, build_if, get_current, get_payload, new_payload,
}
use monomer.Engine.Handover.{Kept, Asked, get_payload-forkchoice_updated}
use monomer.Engine.Once.{get_payload-once}
use monomer.Engine.Labels.{forkchoice_updated-labels, forkchoice_updated-missing_finalized}
use monomer.Tests.Codecs.{pad, block_codec}
use monomer.Tests.Pool.{tx_a}
use monomer.Tests.Blocks.{block_1, hash_1}
use monomer.Tests.Payloads.{payload, cosmos_txs}
use monomer.Tests.Building.{world, start, block_2}
use monomer.KvStore.{lookup, insert, select, apply_op, apply}
use monomer.KvStore.Batch.{add_op, write_sync}
use monomer.Bytes.BigEndian.{be_value, put_uint64, first_bytes, uint64, big_bytes}
use monomer.Mempool.{
  len, update_len, elem, put_elem, link_tail, link_new, enqueue_body, enqueue, head_elem,
  unlink_head, dequeue_batch, dequeue_head, dequeue,
}
use monomer.LocalDb.Write.{
  commit, update, append_txs, append_ops, append_block, update_labels, label_ops,
}
use monomer.LocalDb.Lookup.{
  get_value, header_by_height, header_by_hash, header_by_label, get_height, txs_in_range,
  view_block_by_height, txs_of, height, head_header, head_block, db_header_by_hash,
  db_header_by_label, db_header_by_height, block_by_height, block_by_hash, block_by_label,
}
use monomer.Block.Hash.{header_to_eth, header_to_comet, block_to_eth, set_header, make_block}
use monomer.Adapters.{
  set_l1_attributes, leading_deposits, non_deposits, adapt_after_l1,
  adapt_payload_txs_to_cosmos_txs, adapt_non_deposit_cosmos_tx_to_eth_tx, user_deposit_txs,
  l1_attributes_bytes, adapt_cosmos_txs_to_eth_txs,
}
use monomer.Builder.Withdrawals.{
  store_app_hash_in_evm, store_withdrawals, parse_withdrawal_messages,
}
use monomer.Builder.Results.{index_results}
use monomer.Builder.Drain.{drain}
use monomer.Builder.Build.{
  next_header, take_txs, publish, publish_txs, publish_events, execute, finish, store_block,
  build_block, build_after, build_on, build,
}

abbrev pub accept : Bytes → Step ℕ (Option String)
accept tx s = (ok none, s)

abbrev pub sha256 : Bytes → Bytes
sha256 b = pad 32 b

abbrev pub marshal_binary : Bytes → Result Bytes
marshal_binary tx = ok tx

abbrev pub idle : EngineState world
idle = record { builder = start; current_payload_attributes = none }

abbrev pub to_hash_1 : Forkchoice
to_hash_1 = record { head_hash = hash_1; safe_hash = hash_1; finalized_hash = hash_1 }

abbrev pub asked : EthAttributes
asked = record {
  timestamp = 200;
  prev_randao = pad 32 [];
  suggested_fee_recipient = pad 20 [];
  withdrawals = some [];
  parent_beacon_block_root = none;
  transactions = payload;
  no_tx_pool = false;
  gas_limit = some 30000000;
}

abbrev pub kept : PayloadAttributes
kept = attributes_of world accept sha256 to_hash_1 asked block_1.header 30000000 cosmos_txs

abbrev waiting : EngineState world
waiting = (forkchoice_updated world accept sha256 to_hash_1 (some asked) idle).1

abbrev updated : Updated
updated = record { payload_status = status_valid hash_1; id = some (payload_id sha256 kept) }

asked_for :
    forkchoice_updated world accept sha256 to_hash_1 (some asked) idle ≡ (ok updated, waiting)
unfolding wrap_close_err continue lookup insert select apply_op apply add_op write_sync bytes_eq
    bytes_lt be_value put_uint64 first_bytes uint64 big_bytes len update_len elem put_elem link_tail
    link_new enqueue_body enqueue head_elem unlink_head dequeue_batch dequeue_head dequeue commit
    update append_txs append_ops append_block update_labels label_ops get_value header_by_height
    header_by_hash header_by_label get_height txs_in_range view_block_by_height txs_of height
    head_header head_block db_header_by_hash db_header_by_label db_header_by_height block_by_height
    block_by_hash block_by_label to_hash new_block header_to_eth header_to_comet block_to_eth
    set_header make_block set_l1_attributes leading_deposits non_deposits adapt_after_l1
    adapt_payload_txs_to_cosmos_txs adapt_non_deposit_cosmos_tx_to_eth_tx user_deposit_txs
    l1_attributes_bytes adapt_cosmos_txs_to_eth_txs store_app_hash_in_evm store_withdrawals
    parse_withdrawal_messages index_results drain next_header take_txs publish publish_txs
    publish_events execute finish store_block build_block build_after build_on build find_header
    not_above check_forkchoice reorg label check_txs gas_and_txs check_attributes keep_attributes
    answer_payload check_payload with_parent start_payload answer label_and_answer apply_forkchoice
    forkchoice_updated marshal_txs payload_txs hand_out seal after_build build_payload build_if
    get_current get_payload new_payload txs_preimage id_preimage payload_id
asked_for = refl

get_payload-forkchoice_updated_example :
    (a : PayloadAttributes) × (p : Payload) × Kept world accept sha256 asked
      (payload_id sha256 kept)
      a
      waiting
    × Asked world accept sha256 asked p
    × (get_payload world marshal_binary sha256 2 (payload_id sha256 kept) waiting
        ≡ build_payload world marshal_binary sha256 2 a waiting)
    × (build_payload world marshal_binary sha256 2 a waiting
        ≡ after_build world marshal_binary sha256 a (build world 2 p waiting.builder) waiting)
get_payload-forkchoice_updated_example =
    get_payload-forkchoice_updated world accept marshal_binary sha256 2 to_hash_1 asked idle waiting
      updated (payload_id sha256 kept) asked_for refl

forkchoice_updated-labels_example :
    lookup (label_key Label.safe) (memory.entries waiting.builder.block_store)
    ≡ some (label_value hash_1 hash_1 hash_1 Label.safe)
forkchoice_updated-labels_example =
    forkchoice_updated-labels world accept sha256 memory-IsReliable to_hash_1 (some asked) idle
      waiting updated Label.safe asked_for

-- The payload that comes out.
abbrev pub sealed : ExecutionPayload
sealed = execution_payload kept block_2 (payload ++ (2 ∷ tx_a) ∷ [])

abbrev pub after_seal : Option (Result ExecutionPayload × EngineState world) → EngineState world
after_seal none = idle
after_seal (some (r, s)) = s

abbrev served : EngineState world
served = after_seal (get_payload world marshal_binary sha256 2 (payload_id sha256 kept) waiting)

handed_out :
    get_payload world marshal_binary sha256 2 (payload_id sha256 kept) waiting
    ≡ some (ok sealed, served)
unfolding wrap_close_err continue lookup insert select apply_op apply add_op write_sync bytes_eq
    bytes_lt be_value put_uint64 first_bytes uint64 big_bytes len update_len elem put_elem link_tail
    link_new enqueue_body enqueue head_elem unlink_head dequeue_batch dequeue_head dequeue commit
    update append_txs append_ops append_block update_labels label_ops get_value header_by_height
    header_by_hash header_by_label get_height txs_in_range view_block_by_height txs_of height
    head_header head_block db_header_by_hash db_header_by_label db_header_by_height block_by_height
    block_by_hash block_by_label to_hash new_block header_to_eth header_to_comet block_to_eth
    set_header make_block set_l1_attributes leading_deposits non_deposits adapt_after_l1
    adapt_payload_txs_to_cosmos_txs adapt_non_deposit_cosmos_tx_to_eth_tx user_deposit_txs
    l1_attributes_bytes adapt_cosmos_txs_to_eth_txs store_app_hash_in_evm store_withdrawals
    parse_withdrawal_messages index_results drain next_header take_txs publish publish_txs
    publish_events execute finish store_block build_block build_after build_on build find_header
    not_above check_forkchoice reorg label check_txs gas_and_txs check_attributes keep_attributes
    answer_payload check_payload with_parent start_payload answer label_and_answer apply_forkchoice
    forkchoice_updated marshal_txs payload_txs hand_out seal after_build build_payload build_if
    get_current get_payload new_payload txs_preimage id_preimage payload_id
handed_out = refl

get_payload-once_example :
    get_payload world marshal_binary sha256 2 (payload_id sha256 kept) served
    ≡ some (err (coded invalid_params "payload not found"), served)
get_payload-once_example =
    get_payload-once world marshal_binary sha256 2 2 (payload_id sha256 kept)
      (payload_id sha256 kept) waiting served sealed handed_out

abbrev unknown_finalized : Forkchoice
unknown_finalized = record {
  head_hash = hash_1;
  safe_hash = hash_1;
  finalized_hash = pad 32 (99 ∷ []);
}

hash_1-header : db_header_by_hash memory block_codec hash_1 start.block_store ≡ ok block_1.header
unfolding wrap_close_err continue lookup insert select apply_op apply add_op write_sync bytes_eq
    bytes_lt be_value put_uint64 first_bytes uint64 big_bytes len update_len elem put_elem link_tail
    link_new enqueue_body enqueue head_elem unlink_head dequeue_batch dequeue_head dequeue commit
    update append_txs append_ops append_block update_labels label_ops get_value header_by_height
    header_by_hash header_by_label get_height txs_in_range view_block_by_height txs_of height
    head_header head_block db_header_by_hash db_header_by_label db_header_by_height block_by_height
    block_by_hash block_by_label to_hash new_block header_to_eth header_to_comet block_to_eth
    set_header make_block set_l1_attributes leading_deposits non_deposits adapt_after_l1
    adapt_payload_txs_to_cosmos_txs adapt_non_deposit_cosmos_tx_to_eth_tx user_deposit_txs
    l1_attributes_bytes adapt_cosmos_txs_to_eth_txs store_app_hash_in_evm store_withdrawals
    parse_withdrawal_messages index_results drain next_header take_txs publish publish_txs
    publish_events execute finish store_block build_block build_after build_on build find_header
    not_above check_forkchoice reorg label check_txs gas_and_txs check_attributes keep_attributes
    answer_payload check_payload with_parent start_payload answer label_and_answer apply_forkchoice
    forkchoice_updated marshal_txs payload_txs hand_out seal after_build build_payload build_if
    get_current get_payload new_payload txs_preimage id_preimage payload_id
hash_1-header = refl

unknown-missing : lookup (hash_key unknown_finalized.finalized_hash) start.block_store ≡ none
unfolding wrap_close_err continue lookup insert select apply_op apply add_op write_sync bytes_eq
    bytes_lt be_value put_uint64 first_bytes uint64 big_bytes len update_len elem put_elem link_tail
    link_new enqueue_body enqueue head_elem unlink_head dequeue_batch dequeue_head dequeue commit
    update append_txs append_ops append_block update_labels label_ops get_value header_by_height
    header_by_hash header_by_label get_height txs_in_range view_block_by_height txs_of height
    head_header head_block db_header_by_hash db_header_by_label db_header_by_height block_by_height
    block_by_hash block_by_label to_hash new_block header_to_eth header_to_comet block_to_eth
    set_header make_block set_l1_attributes leading_deposits non_deposits adapt_after_l1
    adapt_payload_txs_to_cosmos_txs adapt_non_deposit_cosmos_tx_to_eth_tx user_deposit_txs
    l1_attributes_bytes adapt_cosmos_txs_to_eth_txs store_app_hash_in_evm store_withdrawals
    parse_withdrawal_messages index_results drain next_header take_txs publish publish_txs
    publish_events execute finish store_block build_block build_after build_on build find_header
    not_above check_forkchoice reorg label check_txs gas_and_txs check_attributes keep_attributes
    answer_payload check_payload with_parent start_payload answer label_and_answer apply_forkchoice
    forkchoice_updated marshal_txs payload_txs hand_out seal after_build build_payload build_if
    get_current get_payload new_payload txs_preimage id_preimage payload_id
unknown-missing = refl

forkchoice_updated-missing_finalized_example :
    forkchoice_updated world accept sha256 unknown_finalized none idle
    ≡ (err (coded invalid_payload_attributes "finalized block not found"), idle)
forkchoice_updated-missing_finalized_example =
    forkchoice_updated-missing_finalized world accept sha256 memory-IsReliable unknown_finalized
      none idle block_1.header block_1.header hash_1-header hash_1-header (omega arith)
      unknown-missing

payload_id-same_txs_example :
    payload_id sha256 (record kept { cosmos_txs = tx_a ∷ [] })
    ≡ payload_id sha256 (record kept { cosmos_txs = (b'b' ∷ []) ∷ tx_a ∷ [] })
payload_id-same_txs_example = payload_id-same_txs sha256 kept tx_a (b'b' ∷ []) [] (tx_a ∷ []) refl
