-- ===== src/Tests/Deposits.antt =====
-- Deposits and withdrawals against a bank in memory.
use monomer.Prelude.{
  ℕ, zero, suc, ◌+◌, ◌-◌, ◌^◌, ◌<◌, ◌≤◌, ◌≡◌, refl, ap, sym, ◌∙◌, ltb, Bool, true, false, Option,
  none, some, String, List, [], ◌∷◌, ◌++◌, arith, failure, Result, ok, err, if◌then◌else◌,
  same_text, pos, ◌>>=◌,
}
use monomer.Bytes.{bytes_eq, Bytes}
use monomer.Bytes.BigEndian.{be_value}
use monomer.Builder.Withdrawals.{Event, Formats, find_event, parse_withdrawal_event_attributes}
use monomer.Rollup.Messages.{Params, int, MsgInitiateWithdrawal}
use monomer.Rollup.Sdk.{Abi, DepositTx, RelayMessageArgs, FinalizeBridgeErc20Args, part, coins_of}
use monomer.Rollup.Keeper.{
  KeeperState, new_event, attribute, wei, set_params, set_params-read, get_params, export_genesis,
  query_params, get_l1_block_info,
}
use monomer.Rollup.Books.{coins, nothing, no_coins, Shifts}
use monomer.Rollup.Deposits.{mint_erc20, mint_eth, apply_user_deposit}
use monomer.Rollup.Deposits.Applied.{Applied, apply_user_deposit-Applied}
use monomer.Rollup.Withdrawals.{
  burn_erc20, initiate_withdrawal, initiate_fee_withdrawal, update_params,
}
use monomer.Rollup.Withdrawals.Handlers.{
  IsReadable, initiate_withdrawal-parsed, initiate_fee_withdrawal-empties,
}
use monomer.Rollup.RoundTrip.{burn_erc20-mint_erc20}
use monomer.Tests.Ledger.{
  sdk, sdk-IsLedger, sdk-IsStore, Ledger, account_of_text, decode_small, decode-encode_small, tally,
  tally-encode_hex, encode_hex,
}

-- Alice has 5, the fee collector 500000.
abbrev start : KeeperState sdk
start = record {
  store = ("params", 1 ∷ []) ∷ [];
  bank = record {
    balances = λ a d. if bytes_eq a (10 ∷ []) then 5 else if bytes_eq a (2 ∷ []) then 500000 else 0;
    supplies = λ d. 500005;
  };
  events = [];
}

abbrev readable : Formats
readable = record {
  is_hex_address = λ s. false;
  hex_to_address = λ s. 30 ∷ [];
  account_from_bech32 = account_of_text;
  bytes_to_address = λ b. b;
  decode_big = decode_small;
  encode_big = λ n. "0x1";
  decode_hex = tally 0;
  message_types = λ b. ok [];
}

readable-IsReadable : IsReadable sdk readable
readable-IsReadable = record {
  decode-encode_big = λ n t small. decode-encode_small n t;
  decode-encode_hex = tally-encode_hex;
  reads_account = λ t a h. (refl, h);
}

-- A message that bridges one token to Bob.
abbrev to_bob : FinalizeBridgeErc20Args
to_bob = record {
  remote_token = 30 ∷ [];
  local_token = 31 ∷ [];
  from_address = 10 ∷ [];
  to_address = 11 ∷ [];
  amount = int 1;
  extra_data = [];
}

abbrev relay_to_bob : RelayMessageArgs
relay_to_bob = record {
  nonce = int 0;
  sender = 10 ∷ [];
  target = 32 ∷ [];
  value = int 0;
  min_gas_limit = int 0;
  message = record { used = 9 ∷ 10 ∷ 11 ∷ 12 ∷ []; spare = [] };
}

abbrev abi : Abi
abi = record {
  relay_message = record {
    id = 1 ∷ 2 ∷ 3 ∷ 4 ∷ [];
    unpack = λ b. ok relay_to_bob;
    pack = λ a. ok [];
  };
  finalize_bridge_eth = record {
    id = 5 ∷ 6 ∷ 7 ∷ 8 ∷ [];
    unpack = λ b. err (failure "unpack");
    pack = λ a. ok [];
  };
  finalize_bridge_erc20 = record {
    id = 9 ∷ 10 ∷ 11 ∷ 12 ∷ [];
    unpack = λ b. ok to_bob;
    pack = λ a. ok [];
  };
}

-- A transaction from the aliased messenger, with what it mints and what it transfers, that carries the
-- message.
abbrev deposits : DepositTx
deposits = record {
  Tx = ℕ × ℕ;
  unmarshal_binary = λ b. ok (1, 0);
  is_system_tx = λ t. false;
  to_address = λ t. some (11 ∷ []);
  sender = λ n time t. ok (21 ∷ []);
  mint = λ t. some t.0;
  value = λ t. t.1;
  tx_data = λ t. some (record { used = 1 ∷ 2 ∷ 3 ∷ 4 ∷ []; spare = [] });
}

abbrev withdrawal : MsgInitiateWithdrawal
withdrawal = record {
  sender = "alice";
  target = "0x01";
  value = int 1;
  gas_limit = 1 ∷ [];
  call_data = 3 ∷ 4 ∷ [];
}

-- Bob has the token then.
bob-bridged :
    (apply_user_deposit sdk abi deposits [] start).1.bank.balances (11 ∷ []) "erc20/Ab" ≡ 1
unfolding apply_user_deposit monomer.Prelude.Stateful.continue get_l1_block_info
    monomer.Rollup.Deposits.process_l1_user_deposit_txs monomer.Rollup.Deposits.process_recipient
    bytes_eq mint_eth monomer.Tests.Ledger.mint monomer.Rollup.Deposits.set_amount
    monomer.Rollup.Deposits.distribute_eth monomer.Rollup.Deposits.transfer_eth
    monomer.Rollup.Deposits.send_eth monomer.Tests.Ledger.move get_params
    monomer.Rollup.Deposits.cross_domain_events monomer.Rollup.Keeper.emit_events
    monomer.Rollup.Deposits.relayed_events monomer.Rollup.Deposits.process_cross_domain_message
    monomer.Rollup.Deposits.process_bridge_message
    monomer.Rollup.Deposits.process_finalize_bridge_erc20 monomer.Rollup.Deposits.mint_erc20
    monomer.Rollup.Abi.unpack_inputs_into_interface monomer.Rollup.Abi.selector
    monomer.Rollup.Abi.after_selector monomer.Rollup.Abi.drop_bytes
    monomer.Rollup.Abi.get_erc20_denom monomer.Bytes.BigEndian.first_bytes
bob-bridged = refl

apply_user_deposit-Applied_example :
    (tx : ℕ × ℕ) × (to : Bytes) × (ok (1, 0) ≡ ok tx)
    × (false ≡ false)
    × (some (11 ∷ []) ≡ some to)
    × Applied sdk sdk-IsLedger abi deposits tx to start
        (apply_user_deposit sdk abi deposits [] start).1
unfolding apply_user_deposit monomer.Prelude.Stateful.continue get_l1_block_info
    monomer.Rollup.Deposits.process_l1_user_deposit_txs monomer.Rollup.Deposits.process_recipient
    bytes_eq mint_eth monomer.Tests.Ledger.mint monomer.Rollup.Deposits.set_amount
    monomer.Rollup.Deposits.distribute_eth monomer.Rollup.Deposits.transfer_eth
    monomer.Rollup.Deposits.send_eth monomer.Tests.Ledger.move get_params
    monomer.Rollup.Deposits.cross_domain_events monomer.Rollup.Keeper.emit_events
    monomer.Rollup.Deposits.relayed_events monomer.Rollup.Deposits.process_cross_domain_message
    monomer.Rollup.Deposits.process_bridge_message
    monomer.Rollup.Deposits.process_finalize_bridge_erc20 monomer.Rollup.Deposits.mint_erc20
    monomer.Rollup.Abi.unpack_inputs_into_interface monomer.Rollup.Abi.selector
    monomer.Rollup.Abi.after_selector monomer.Rollup.Abi.drop_bytes
    monomer.Rollup.Abi.get_erc20_denom monomer.Bytes.BigEndian.first_bytes
apply_user_deposit-Applied_example =
    apply_user_deposit-Applied sdk sdk-IsLedger abi deposits [] start refl

one_fits : (n : ℕ) → int 1 ≡ int n → n < 2 ^ 256
one_fits n e = ground (arith, e)

initiate_withdrawal-parsed_example :
    (addr : Bytes) × (n : ℕ) × (e : Event) × (account_of_text "alice" ≡ ok addr)
    × (int 1 ≡ int n)
    × (find_event (initiate_withdrawal sdk withdrawal start).1.events ≡ some e)
    × (parse_withdrawal_event_attributes readable e
        ≡ ok (record {
          sender = some addr;
          target = some (30 ∷ []);
          amount = some n;
          gas_limit = some (be_value (1 ∷ []));
          call_data = 3 ∷ 4 ∷ [];
        }))
    × Shifts sdk nothing
        (part addr (coins wei n))
        no_coins
        (coins_of (coins wei n))
        start
        (initiate_withdrawal sdk withdrawal start).1
unfolding find_event initiate_withdrawal monomer.Prelude.Stateful.continue
    monomer.Rollup.Withdrawals.burn_eth monomer.Rollup.Withdrawals.burn monomer.Tests.Ledger.move
    bytes_eq monomer.Tests.Ledger.burn be_value monomer.Rollup.Keeper.emit_events
initiate_withdrawal-parsed_example =
    initiate_withdrawal-parsed sdk sdk-IsLedger readable readable-IsReadable withdrawal start refl
      one_fits (omega arith) refl

initiate_fee_withdrawal-empties_example :
    (p : Params) × (collector : Bytes) × (get_params sdk start.store ≡ ok p)
    × (some (2 ∷ []) ≡ some collector)
    × (p.min_fee_withdrawal_amount ≤ start.bank.balances collector wei)
    × ((initiate_fee_withdrawal sdk start).1.bank.balances collector wei ≡ 0)
    × ((initiate_fee_withdrawal sdk start).1.bank.balances (10 ∷ []) wei
          + part collector (coins wei (start.bank.balances collector wei)) (10 ∷ []) wei
        ≡ start.bank.balances (10 ∷ []) wei)
    × ((initiate_fee_withdrawal sdk start).1.bank.supplies wei
          + coins_of (coins wei (start.bank.balances collector wei)) wei
        ≡ start.bank.supplies wei)
unfolding bytes_eq initiate_fee_withdrawal monomer.Prelude.Stateful.continue get_params
    monomer.Rollup.Withdrawals.withdraw_fees monomer.Tests.Ledger.move monomer.Tests.Ledger.burn
    monomer.Rollup.Keeper.emit_events
initiate_fee_withdrawal-empties_example =
    initiate_fee_withdrawal-empties sdk sdk-IsLedger start (10 ∷ []) wei refl

burn_erc20-mint_erc20_example :
    ((burn_erc20 sdk
          (10 ∷ [])
          "0xAb"
          (int 1)
          (mint_erc20 sdk "alice" "0xAb" (int 1) start).1).1.bank.balances
        (10 ∷ [])
        "erc20/Ab"
      ≡ start.bank.balances (10 ∷ []) "erc20/Ab")
    × ((burn_erc20 sdk
            (10 ∷ [])
            "0xAb"
            (int 1)
            (mint_erc20 sdk "alice" "0xAb" (int 1) start).1).1.bank.supplies
          "erc20/Ab"
        ≡ start.bank.supplies "erc20/Ab")
unfolding bytes_eq mint_erc20 monomer.Prelude.Stateful.continue monomer.Rollup.Abi.get_erc20_denom
    monomer.Tests.Ledger.mint monomer.Tests.Ledger.move burn_erc20 monomer.Rollup.Withdrawals.burn
    monomer.Tests.Ledger.burn
burn_erc20-mint_erc20_example =
    burn_erc20-mint_erc20 sdk sdk-IsLedger "alice" "0xAb" (10 ∷ []) (int 1) start
      (new_event "mint_erc20" (
        attribute "l1_deposit_tx_type" "l1_user_deposit"
        ∷ attribute "to_address" "alice"
        ∷ attribute "erc20_address" "0xAb"
        ∷ attribute "value" "0x1"
        ∷ []))
      (10 ∷ []) "erc20/Ab" refl refl refl
