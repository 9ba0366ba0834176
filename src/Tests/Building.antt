-- ===== src/Tests/Building.antt =====
-- The builder on databases in memory, with an application that accepts everything.
use monomer.Prelude.{
  ℕ, suc, ◌+◌, ◌≡◌, refl, true, false, none, some, String, List, [], ◌++◌, ◌∷◌, map, arith, Result,
  ok, wrap_close_err,
}
use monomer.Prelude.Stateful.{continue}
use monomer.Bytes.{bytes_eq, bytes_lt}
use monomer.Bytes.BigEndian.{uint64, be_value, put_uint64, first_bytes, big_bytes}
use monomer.Block.{Block, new_block}
use monomer.KvStore.{lookup, insert, select, apply_op, apply}
use monomer.KvStore.Memory.{memory, memory-IsReliable}
use monomer.Builder.Withdrawals.{
  parse_attribute, parse_attributes, parse_withdrawal_event_attributes, append_attribute,
  find_event, initiate_found, store_withdrawal_msg_in_evm, Attribute, Event, ExecTxResult, Formats,
  Evm, store_withdrawals, store_app_hash_in_evm, parse_withdrawal_messages,
}
use monomer.Builder.Withdrawals.First.{store_withdrawals-first, Initiates}
use monomer.Builder.World.{World, BuilderState, Payload}
use monomer.Tests.Codecs.{tx_codec, block_codec, pad}
use monomer.Tests.Payloads.{eth_codec, cosmos_txs}
use monomer.KvStore.Batch.{add_op, write_sync}
use monomer.Mempool.{
  len, update_len, elem, put_elem, link_tail, link_new, enqueue_body, enqueue, head_elem,
  unlink_head, dequeue_batch, dequeue_head, dequeue,
}
use monomer.LocalDb.Write.{commit, update, append_txs, append_ops, append_block}
use monomer.LocalDb.Lookup.{
  get_value, header_by_height, header_by_hash, header_by_label, get_height, txs_in_range,
  view_block_by_height, txs_of, height, head_header, head_block, db_header_by_hash,
  db_header_by_label, db_header_by_height, block_by_height, block_by_hash, block_by_label,
}
use monomer.LocalDb.Keys.{to_hash}
use monomer.Block.Hash.{header_to_eth, header_to_comet, block_to_eth, set_header, make_block}
use monomer.Adapters.{
  set_l1_attributes, leading_deposits, non_deposits, adapt_after_l1,
  adapt_payload_txs_to_cosmos_txs, adapt_non_deposit_cosmos_tx_to_eth_tx, user_deposit_txs,
  l1_attributes_bytes, adapt_cosmos_txs_to_eth_txs,
}
use monomer.Builder.Results.{index_results}
use monomer.Builder.Drain.{drain}
use monomer.Builder.Build.{
  next_header, take_txs, publish, publish_txs, publish_events, execute, finish, store_block,
  build_block, build_after, build_on, build,
}
use monomer.Tests.Pool.{with_a, tx_a, enqueue_a}
use monomer.Builder.Reorg.{builder_rollback, AllRolledBack, builder_rollback-AllRolledBack}
use monomer.Tests.Blocks.{
  hash_1, with_1_2, with_1_2-hash, with_1_2-Decode, block_2 as block_2', with_1, block_1,
  no_entries,
}
use monomer.KvStore.Sorted.{IsSorted}
use monomer.LocalDb.Keys.Ranges.{tx_range}
use monomer.Builder.Build.Extends.{Extended, build-Extended, build-ends}

abbrev pub formats : Formats
formats = record {
  is_hex_address = λ s. true;
  hex_to_address = λ s. pad 20 [];
  account_from_bech32 = λ s. ok [];
  bytes_to_address = λ b. pad 20 b;
  decode_big = λ s. ok 1;
  encode_big = λ n. "0x0";
  decode_hex = λ s. ok [];
  message_types = λ b. ok [];
}

-- The state counts the withdrawals.
abbrev pub evm : Evm
evm = record {
  Disk = Unit {0};
  State = ℕ;
  Vm = Unit {0};
  RootProvider = Unit {0};
  MessagePasser = Unit {0};
  new_state = λ d root. ok 0;
  new_evm = λ s h. ok tt;
  new_root_provider = λ vm. ok tt;
  set_root = λ p root s. ok s;
  new_message_passer = λ vm. ok tt;
  message_nonce = λ p s. ok s;
  initiate_withdrawal = λ p w s. ok (suc s);
  commit_state = λ s h d. (ok (pad 32 (s ∷ [])), d);
}

abbrev pub world : World
world = record {
  pool_db = memory;
  tx_codec = tx_codec;
  block_db = memory;
  block_codec = block_codec;
  eth_codec = eth_codec;
  eth_block_hash = λ h txs. pad 32 (h.number ∷ []);
  comet_hash = λ h. pad 32 [];
  formats = formats;
  evm = evm;
  app = record {
    State = ℕ;
    info = λ s. ok [];
    finalize_block = λ r s. (
      ok (record {
        tx_results = map (λ t. record { code = 0; data_bytes = []; events = [] }) r.txs;
        app_hash = [];
        events = [];
      }),
      s,
    );
    commit = λ s. (ok tt, s + 1);
    rollback_to_height = λ h s. (ok tt, h);
  };
  tx_store = record {
    State = ℕ;
    add = λ rs s. (ok tt, s);
    rollback_to_height = λ target current s. (ok tt, target);
  };
  event_bus = record { State = ℕ; publish = λ e s. (ok tt, s + 1) };
  chain_id = 901;
}

-- One block and one transaction in the pool.
abbrev pub start : BuilderState world
start = record {
  mempool = with_a;
  app = 1;
  block_store = with_1;
  tx_store = 1;
  event_bus = 0;
  eth_statedb = tt;
}

abbrev pub payload_2 : Payload
payload_2 = record {
  injected_transactions = cosmos_txs;
  gas_limit = 30000000;
  timestamp = 200;
  no_tx_pool = false;
  parent_beacon_root = none;
  coinbase = pad 20 [];
}

abbrev pub block_2 : Block
block_2 = record {
  header = record {
    chain_id = 901;
    height = 2;
    time = 200;
    parent_hash = block_1.header.hash;
    state_root = pad 32 [];
    parent_beacon_root = none;
    gas_limit = 30000000;
    hash = pad 32 (2 ∷ []);
    coinbase = pad 20 [];
  };
  txs = cosmos_txs ++ tx_a ∷ [];
}

abbrev pub after_2 : BuilderState world
after_2 =
    (build_on world payload_2 (cosmos_txs ++ tx_a ∷ [])
      (record start { mempool = (dequeue memory tx_codec with_a).1 })).1

build_2 : build world 2 payload_2 start ≡ some (ok block_2, after_2)
unfolding lookup insert select apply_op apply add_op write_sync bytes_eq bytes_lt put_uint64
    first_bytes big_bytes len update_len elem put_elem link_tail link_new enqueue_body enqueue
    head_elem unlink_head dequeue_batch dequeue_head dequeue commit update append_txs append_ops
    append_block get_value header_by_height header_by_hash header_by_label get_height txs_in_range
    view_block_by_height txs_of height head_header head_block db_header_by_hash db_header_by_label
    db_header_by_height block_by_height block_by_hash block_by_label to_hash new_block header_to_eth
    header_to_comet block_to_eth set_header make_block set_l1_attributes leading_deposits
    non_deposits adapt_after_l1 adapt_payload_txs_to_cosmos_txs
    adapt_non_deposit_cosmos_tx_to_eth_tx user_deposit_txs l1_attributes_bytes
    adapt_cosmos_txs_to_eth_txs store_app_hash_in_evm store_withdrawals parse_withdrawal_messages
    index_results drain next_header take_txs publish publish_txs publish_events execute finish
    store_block build_block build_after build_on build wrap_close_err continue uint64 be_value
build_2 = refl

pub with_1-head : head_header memory block_codec with_1 ≡ ok block_1.header
unfolding lookup insert select apply_op apply add_op write_sync bytes_eq bytes_lt put_uint64
    first_bytes big_bytes len update_len elem put_elem link_tail link_new enqueue_body enqueue
    head_elem unlink_head dequeue_batch dequeue_head dequeue commit update append_txs append_ops
    append_block get_value header_by_height header_by_hash header_by_label get_height txs_in_range
    view_block_by_height txs_of height head_header head_block db_header_by_hash db_header_by_label
    db_header_by_height block_by_height block_by_hash block_by_label to_hash new_block header_to_eth
    header_to_comet block_to_eth set_header make_block set_l1_attributes leading_deposits
    non_deposits adapt_after_l1 adapt_payload_txs_to_cosmos_txs
    adapt_non_deposit_cosmos_tx_to_eth_tx user_deposit_txs l1_attributes_bytes
    adapt_cosmos_txs_to_eth_txs store_app_hash_in_evm store_withdrawals parse_withdrawal_messages
    index_results drain next_header take_txs publish publish_txs publish_events execute finish
    store_block build_block build_after build_on build wrap_close_err continue uint64 be_value
with_1-head = refl

pub with_1-IsSorted : IsSorted with_1
unfolding lookup insert select apply_op apply add_op write_sync bytes_eq bytes_lt put_uint64
    first_bytes big_bytes len update_len elem put_elem link_tail link_new enqueue_body enqueue
    head_elem unlink_head dequeue_batch dequeue_head dequeue commit update append_txs append_ops
    append_block get_value header_by_height header_by_hash header_by_label get_height txs_in_range
    view_block_by_height txs_of height head_header head_block db_header_by_hash db_header_by_label
    db_header_by_height block_by_height block_by_hash block_by_label to_hash new_block header_to_eth
    header_to_comet block_to_eth set_header make_block set_l1_attributes leading_deposits
    non_deposits adapt_after_l1 adapt_payload_txs_to_cosmos_txs
    adapt_non_deposit_cosmos_tx_to_eth_tx user_deposit_txs l1_attributes_bytes
    adapt_cosmos_txs_to_eth_txs store_app_hash_in_evm store_withdrawals parse_withdrawal_messages
    index_results drain next_header take_txs publish publish_txs publish_events execute finish
    store_block build_block build_after build_on build wrap_close_err continue uint64 be_value
with_1-IsSorted = (
  (refl, (refl, (refl, (refl, tt)))),
  ((refl, (refl, (refl, tt))), ((refl, (refl, tt)), ((refl, tt), (tt, tt)))),
)

pub with_1-free : select (tx_range 2) with_1 ≡ []
unfolding lookup insert select apply_op apply add_op write_sync bytes_eq bytes_lt put_uint64
    first_bytes big_bytes len update_len elem put_elem link_tail link_new enqueue_body enqueue
    head_elem unlink_head dequeue_batch dequeue_head dequeue commit update append_txs append_ops
    append_block get_value header_by_height header_by_hash header_by_label get_height txs_in_range
    view_block_by_height txs_of height head_header head_block db_header_by_hash db_header_by_label
    db_header_by_height block_by_height block_by_hash block_by_label to_hash new_block header_to_eth
    header_to_comet block_to_eth set_header make_block set_l1_attributes leading_deposits
    non_deposits adapt_after_l1 adapt_payload_txs_to_cosmos_txs
    adapt_non_deposit_cosmos_tx_to_eth_tx user_deposit_txs l1_attributes_bytes
    adapt_cosmos_txs_to_eth_txs store_app_hash_in_evm store_withdrawals parse_withdrawal_messages
    index_results drain next_header take_txs publish publish_txs publish_events execute finish
    store_block build_block build_after build_on build wrap_close_err continue uint64 be_value
with_1-free = refl

build-Extended_example :
    Extended world memory-IsReliable memory-IsReliable payload_2 block_1.header
      (tx_a ∷ [])
      after_2
      block_2
build-Extended_example =
    build-Extended world memory-IsReliable memory-IsReliable payload_2 (tx_a ∷ []) 2 block_1.header
      start after_2 block_2 enqueue_a.1 (omega arith) with_1-head (omega arith) (omega arith)
      with_1-IsSorted with_1-free build_2

build-ends_example :
    (out : Result Block × BuilderState world) × (build world 2 payload_2 start ≡ some out)
build-ends_example =
    build-ends world memory-IsReliable memory-IsReliable payload_2 (tx_a ∷ []) 2 start enqueue_a.1
      (omega arith)

-- Two blocks, and a rollback to the first.
abbrev pub two_blocks : BuilderState world
two_blocks = record {
  mempool = no_entries;
  app = 2;
  block_store = with_1_2;
  tx_store = 2;
  event_bus = 0;
  eth_statedb = tt;
}

two_blocks-height : height memory block_codec with_1_2 ≡ ok 2
unfolding lookup insert select apply_op apply add_op write_sync bytes_eq bytes_lt put_uint64
    first_bytes big_bytes len update_len elem put_elem link_tail link_new enqueue_body enqueue
    head_elem unlink_head dequeue_batch dequeue_head dequeue commit update append_txs append_ops
    append_block get_value header_by_height header_by_hash header_by_label get_height txs_in_range
    view_block_by_height txs_of height head_header head_block db_header_by_hash db_header_by_label
    db_header_by_height block_by_height block_by_hash block_by_label to_hash new_block header_to_eth
    header_to_comet block_to_eth set_header make_block set_l1_attributes leading_deposits
    non_deposits adapt_after_l1 adapt_payload_txs_to_cosmos_txs
    adapt_non_deposit_cosmos_tx_to_eth_tx user_deposit_txs l1_attributes_bytes
    adapt_cosmos_txs_to_eth_txs store_app_hash_in_evm store_withdrawals parse_withdrawal_messages
    index_results drain next_header take_txs publish publish_txs publish_events execute finish
    store_block build_block build_after build_on build wrap_close_err continue uint64 be_value
two_blocks-height = refl

two_blocks-header : db_header_by_hash memory block_codec hash_1 with_1_2 ≡ ok block_1.header
unfolding lookup insert select apply_op apply add_op write_sync bytes_eq bytes_lt put_uint64
    first_bytes big_bytes len update_len elem put_elem link_tail link_new enqueue_body enqueue
    head_elem unlink_head dequeue_batch dequeue_head dequeue commit update append_txs append_ops
    append_block get_value header_by_height header_by_hash header_by_label get_height txs_in_range
    view_block_by_height txs_of height head_header head_block db_header_by_hash db_header_by_label
    db_header_by_height block_by_height block_by_hash block_by_label to_hash new_block header_to_eth
    header_to_comet block_to_eth set_header make_block set_l1_attributes leading_deposits
    non_deposits adapt_after_l1 adapt_payload_txs_to_cosmos_txs
    adapt_non_deposit_cosmos_tx_to_eth_tx user_deposit_txs l1_attributes_bytes
    adapt_cosmos_txs_to_eth_txs store_app_hash_in_evm store_withdrawals parse_withdrawal_messages
    index_results drain next_header take_txs publish publish_txs publish_events execute finish
    store_block build_block build_after build_on build wrap_close_err continue uint64 be_value
two_blocks-header = refl

builder_rollback-AllRolledBack_example :
    ((builder_rollback world hash_1 hash_1 hash_1 two_blocks).0 ≡ ok tt)
    × AllRolledBack world memory-IsReliable two_blocks 2 1
        (block_2'.header ∷ [])
        hash_1
        hash_1
        hash_1
        (builder_rollback world hash_1 hash_1 hash_1 two_blocks).1
builder_rollback-AllRolledBack_example =
    builder_rollback-AllRolledBack world memory-IsReliable two_blocks 2 block_1.header
      (block_2'.header ∷ []) hash_1 hash_1 hash_1 two_blocks-height two_blocks-header (omega arith)
      with_1_2-hash with_1_2-Decode refl refl

-- A transaction with two withdrawals, whose result has an event for each.
abbrev pub event : String → List Attribute → Event
event target as_told = record {
  event_type = "withdrawal_initiated";
  attributes = record { name = "target"; value = target } ∷ as_told;
}

abbrev pub nonce_0 : Attribute
nonce_0 = record { name = "nonce"; value = "0x0" }

abbrev pub transfer : Event
transfer = record { event_type = "transfer"; attributes = [] }

abbrev pub result_of : Event → ExecTxResult
result_of e = record { code = 0; data_bytes = []; events = transfer ∷ e ∷ event "0x02" [] ∷ [] }

abbrev pub two_messages : List String
two_messages = "/rollup.v1.MsgInitiateWithdrawal" ∷ "/rollup.v1.MsgInitiateWithdrawal" ∷ []

two_withdrawals :
    store_withdrawals formats evm block_1.header two_messages (result_of (event "0x01" [])) 0
    ≡ ok (result_of (event "0x01" (nonce_0 ∷ nonce_0 ∷ [])), 2)
unfolding store_withdrawals store_withdrawal_msg_in_evm initiate_found find_event append_attribute
    parse_withdrawal_event_attributes parse_attributes parse_attribute
two_withdrawals = refl

store_withdrawals-first_example :
    (e : Event) × ((result_of (event "0x01" (nonce_0 ∷ nonce_0 ∷ []))).events
      ≡ transfer ∷ e ∷ event "0x02" [] ∷ [])
    × Initiates formats evm block_1.header 2 (event "0x01" []) 0 e 2
store_withdrawals-first_example =
    store_withdrawals-first formats evm block_1.header two_messages (result_of (event "0x01" []))
      (result_of (event "0x01" (nonce_0 ∷ nonce_0 ∷ []))) 0 2 (transfer ∷ []) (event "0x02" [] ∷ [])
      (event "0x01" []) refl (refl, tt) refl two_withdrawals
