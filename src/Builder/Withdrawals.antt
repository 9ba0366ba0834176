-- ===== src/Builder/Withdrawals.antt =====
-- builder/builder.go: withdrawals of a transaction, stored in the EVM state of the chain.
pub mod First
use monomer.Prelude.{
  ℕ, zero, suc, ◌==◌, ◌||◌, Bool, true, false, Option, none, some, String, List, [], ◌∷◌, ◌++◌,
  Result, ok, err, panic, failure, ◌>>=◌, failing, if◌then◌else◌, same_text,
}
use monomer.Bytes.{Bytes}
use monomer.Block.{Header}

-- Of ABCI's `EventAttribute`, `Event` and `ExecTxResult`, what the builder reads or writes, and the data.
pub record Attribute : Type 0 where
  pub name : String
  pub value : String

pub record Event : Type 0 where
  pub event_type : String
  pub attributes : List Attribute

pub record ExecTxResult : Type 0 where
  pub code : ℕ
  pub data_bytes : Bytes
  pub events : List Event

-- `crossdomain.Withdrawal`; a field that is not set is nil.
pub record Withdrawal : Type 0 where
  pub sender : Option Bytes
  pub target : Option Bytes
  pub amount : Option ℕ
  pub gas_limit : Option ℕ
  pub call_data : Bytes

-- The formats of addresses and numbers, from go-ethereum and the Cosmos SDK, and the messages of a
-- transaction, by their type URLs.
pub record Formats : Type 0 where
  pub is_hex_address : String → Bool
  pub hex_to_address : String → Bytes
  pub account_from_bech32 : String → Result Bytes
  pub bytes_to_address : Bytes → Bytes
  pub decode_big : String → Result ℕ
  pub encode_big : ℕ → String
  pub decode_hex : String → Result Bytes
  pub message_types : Bytes → Result (List String)

-- The EVM state, which is read from a disk by its root and committed to it, and the calls of the two
-- contracts on it.
pub record Evm : Type 1 where
  pub Disk : Type 0
  pub State : Type 0
  pub Vm : Type 0
  pub RootProvider : Type 0
  pub MessagePasser : Type 0
  pub new_state : Disk → Bytes → Result State
  pub new_evm : State → Header → Result Vm
  pub new_root_provider : Vm → Result RootProvider
  pub set_root : RootProvider → Bytes → State → Result State
  pub new_message_passer : Vm → Result MessagePasser
  pub message_nonce : MessagePasser → State → Result ℕ
  pub initiate_withdrawal : MessagePasser → Withdrawal → State → Result State
  pub commit_state : State → ℕ → Disk → Result Bytes × Disk

-- `rolluptypes.EventTypeWithdrawalInitiated`
abbrev pub withdrawal_initiated : String
withdrawal_initiated = "withdrawal_initiated"

abbrev pub is_withdrawal : Event → Bool
is_withdrawal e = same_text e.event_type withdrawal_initiated

-- The type URLs of the three withdrawal messages.
abbrev pub is_withdrawal_type : String → Bool
is_withdrawal_type url =
    same_text url "/rollup.v1.MsgInitiateWithdrawal"
    || (same_text url "/rollup.v1.MsgInitiateFeeWithdrawal"
        || same_text url "/rollup.v1.MsgInitiateERC20Withdrawal")

-- The event that the loop of `storeWithdrawalMsgInEVM` stops at.
unfoldable pub find_event : List Event → Option Event
find_event [] = none
find_event (e ∷ es) = if is_withdrawal e then some e else find_event es

abbrev pub with_attribute : Attribute → Event → Event
with_attribute a e = record { event_type = e.event_type; attributes = e.attributes ++ a ∷ [] }

-- `event.Attributes = append(…)` through the pointer to that event.
unfoldable pub append_attribute : Attribute → List Event → List Event
append_attribute a [] = []
append_attribute a (e ∷ es) =
    if is_withdrawal e then with_attribute a e ∷ es else e ∷ append_attribute a es

module _ (F : Formats) where
  open F use {
    is_hex_address, hex_to_address, account_from_bech32, bytes_to_address, decode_big, encode_big,
    decode_hex, message_types,
  }

  unfoldable pub parse_sender : String → Result Bytes
  parse_sender v = if is_hex_address v then ok (hex_to_address v) else (do
    account ← failing "convert sender to cosmos address" (account_from_bech32 v)
    ok (bytes_to_address account))

  -- The `switch` on the key of an attribute.
  unfoldable pub parse_attribute : Attribute → Withdrawal → Result Withdrawal
  parse_attribute a w =
      if same_text a.name "sender"
      then (do sender ← parse_sender a.value; ok (record w { sender = some sender }))
      else if same_text a.name "target"
      then ok (record w { target = some (hex_to_address a.value) })
      else if same_text a.name "value"
      then (do v ← failing "decode value" (decode_big a.value); ok (record w { amount = some v }))
      else if same_text a.name "gas_limit"
      then (do
        g ← failing "decode gas limit" (decode_big a.value)
        ok (record w { gas_limit = some g }))
      else if same_text a.name "data"
      then (do d ← failing "decode data" (decode_hex a.value); ok (record w { call_data = d }))
      else ok w

  unfoldable pub parse_attributes : List Attribute → Withdrawal → Result Withdrawal
  parse_attributes [] w = ok w
  parse_attributes (a ∷ rest) w = do w ← parse_attribute a w; parse_attributes rest w

  abbrev pub empty_withdrawal : Withdrawal
  empty_withdrawal = record {
    sender = none;
    target = none;
    amount = none;
    gas_limit = none;
    call_data = [];
  }

  -- `parseWithdrawalEventAttributes`
  unfoldable pub parse_withdrawal_event_attributes : Event → Result Withdrawal
  parse_withdrawal_event_attributes e = parse_attributes e.attributes empty_withdrawal

  module _ (V : Evm) (header : Header) where
    open V use {
      State, MessagePasser, new_evm, new_root_provider, set_root, new_message_passer, message_nonce,
      initiate_withdrawal,
    }

    abbrev pub nonce_attribute : ℕ → Attribute
    nonce_attribute n = record { name = "nonce"; value = encode_big n }

    -- `storeAppHashInEVM`
    unfoldable pub store_app_hash_in_evm : Bytes → State → Result State
    store_app_hash_in_evm app_hash s = do
      vm ← failing "new EVM" (new_evm s header)
      executer ← failing "new L2ApplicationStateRootProviderExecuter" (new_root_provider vm)
      failing "set L2ApplicationStateRoot" (set_root executer app_hash s)

    -- `storeWithdrawalMsgInEVM` from the loop over the events on.
    unfoldable pub initiate_found :
        Option Event → MessagePasser → ℕ → ExecTxResult → State → Result (ExecTxResult × State)
    initiate_found none executer nonce r s = err (failure "withdrawal event not found")
    initiate_found (some event) executer nonce r s = do
      w ← failing "parse withdrawal attributes" (parse_withdrawal_event_attributes event)
      s' ← failing "initiate withdrawal" (initiate_withdrawal executer w s)
      ok (record r { events = append_attribute (nonce_attribute nonce) r.events }, s')

    -- `storeWithdrawalMsgInEVM`
    unfoldable pub store_withdrawal_msg_in_evm :
        ExecTxResult → State → Result (ExecTxResult × State)
    store_withdrawal_msg_in_evm r s = do
      vm ← failing "new EVM" (new_evm s header)
      executer ← failing "new L2ToL1MessagePasserExecuter" (new_message_passer vm)
      nonce ← failing "get message nonce" (message_nonce executer s)
      initiate_found (find_event r.events) executer nonce r s

    -- The loop over the messages of a transaction.
    unfoldable pub store_withdrawals :
        List String → ExecTxResult → State → Result (ExecTxResult × State)
    store_withdrawals [] r s = ok (r, s)
    store_withdrawals (url ∷ urls) r s =
        if is_withdrawal_type url
        then (do
          (r', s') ← failing "store withdrawal msg in EVM" (store_withdrawal_msg_in_evm r s)
          store_withdrawals urls r' s')
        else store_withdrawals urls r s

    -- `parseWithdrawalMessages`: a transaction that cannot be decoded is left alone.
    unfoldable pub parse_withdrawal_messages :
        Bytes → ExecTxResult → State → Result (ExecTxResult × State)
    parse_withdrawal_messages tx r s =
        if r.code == 0
        then elim (message_types tx) [
          | ok urls ↦ store_withdrawals urls r s
          | err e ↦ ok (r, s)
          | panic m ↦ panic m
        ]
        else ok (r, s)
