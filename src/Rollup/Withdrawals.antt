-- ===== src/Rollup/Withdrawals.antt =====
-- x/rollup/keeper/withdrawals.go and msg_server.go: the ETH, tokens and fees that withdrawals burn, and the
-- other handlers of messages.
pub mod Burns
pub mod Handlers
use monomer.Prelude.{
  ℕ, ltb, not, Bool, true, false, Option, none, some, String, List, [], ◌∷◌, Error, failure,
  wrapped, Result, ok, err, panic, failing, ◌>>=◌ as bind_result, if◌then◌else◌, same_text,
}
use monomer.Prelude.Stateful.{Step, ◌>>=◌, ◌>>◌, pure, reading}
use monomer.Bytes.{Bytes}
use monomer.Builder.Withdrawals.{Event}
use monomer.Bytes.BigEndian.{be_value}
use monomer.Adapters.{L1BlockInfo}
use monomer.Rollup.Messages.{
  int, BigInt, Params, MsgInitiateWithdrawal, MsgInitiateErc20Withdrawal, validate_params,
}
use monomer.Rollup.Sdk.{Sdk, Coins, Slice, Abi}
use monomer.Rollup.Keeper.{
  KeeperState, Handler, lift, in_bank, in_store, mapping, attribute, new_event, wrap_error,
  get_params, set_params, set_l1_block_info, emit_events, module_name, wei,
}
use monomer.Rollup.Abi.{get_erc20_denom}

-- `authtypes.FeeCollectorName`, and the addresses of the two contracts of the OP stack's L2
abbrev pub fee_collector_name : String
fee_collector_name = "fee_collector"

abbrev pub l2_standard_bridge : String
l2_standard_bridge = "0x4200000000000000000000000000000000000010"

abbrev pub l2_cross_domain_messenger : String
l2_cross_domain_messenger = "0x4200000000000000000000000000000000000007"

abbrev pub or_failing : {A : Type 0} → Error → Option A → Result A
or_failing e none = err e
or_failing e (some a) = ok a

module _ (S : Sdk) where
  open S use {
    Store, Bank, new_coins, burn_coins, account_to_module, module_to_module, balance,
    module_address, account_from_bech32, address_string, hex_to_address, is_hex_address, encode_big,
    encode_hex,
  }

  -- `burnETH` and `burnERC20` after the coins are made
  unfoldable pub burn : String → Bytes → Coins → Handler S (Unit {0})
  burn m addr c = do
    in_bank S (
        mapping (failing "failed to send withdrawal coins from user account to rollup module")
          (account_to_module addr module_name c))
    in_bank S (mapping (failing m) (burn_coins module_name c))

  -- `burnETH`
  unfoldable pub burn_eth : Bytes → BigInt → Handler S (Unit {0})
  burn_eth addr amount = do
    c ← lift S (new_coins wei amount)
    burn "failed to burn withdrawal coins from rollup module" addr c

  -- `burnERC20`
  unfoldable pub burn_erc20 : Bytes → String → BigInt → Handler S (Unit {0})
  burn_erc20 addr erc20_addr amount = do
    denom ← lift S (get_erc20_denom erc20_addr)
    c ← lift S (new_coins denom amount)
    burn "failed to burn ERC-20 coins from the rollup module" addr c

  -- `SetL1Attributes`; a message without block info is a nil pointer.
  unfoldable pub set_l1_attributes : Option L1BlockInfo → Handler S (Unit {0})
  set_l1_attributes none s = (panic "nil pointer dereference", s)
  set_l1_attributes (some info) s =
      in_store S (mapping (failing "set l1 block info") (set_l1_block_info S info)) s

  abbrev pub params : String → Handler S Params
  params sentinel =
      reading
        (λ (k : KeeperState S). wrap_error sentinel "failed to get params" (get_params S k.store))

  abbrev pub account : String → Handler S Bytes
  account sender = lift S (
      wrap_error "invalid sender address" "failed to create cosmos address for sender"
        (account_from_bech32 sender))

  -- The event that the builder turns into a withdrawal on L1.
  abbrev pub withdrawal_event : String → String → String → String → String → Event
  withdrawal_event sender target value gas call_data = new_event "withdrawal_initiated" (
      attribute "sender" sender
      ∷ attribute "target" target
      ∷ attribute "value" value
      ∷ attribute "gas_limit" gas
      ∷ attribute "data" call_data
      ∷ [])

  abbrev pub initiated_events : MsgInitiateWithdrawal → String → String → List Event
  initiated_events msg value_hex gas_hex =
      withdrawal_event msg.sender msg.target value_hex gas_hex (encode_hex msg.call_data)
      ∷ new_event "burn_eth" (
          attribute "l2_withdrawal_tx" "withdrawal_initiated"
          ∷ attribute "from_address" msg.sender
          ∷ attribute "value" value_hex
          ∷ [])
      ∷ []

  -- `InitiateWithdrawal`
  unfoldable pub initiate_withdrawal : MsgInitiateWithdrawal → Handler S (Unit {0})
  initiate_withdrawal msg = do
    addr ← account msg.sender
    mapping (wrap_error "failed to burn ETH" "failed to burn ETH for cosmosAddress")
        (burn_eth addr msg.value)
    value_hex ← lift S (encode_big msg.value)
    gas_hex ← lift S (encode_big (int (be_value msg.gas_limit)))
    emit_events S (initiated_events msg value_hex gas_hex)

  -- The two packed calls of a withdrawal of tokens: `finalizeBridgeERC20` on L1, in a message of the
  -- bridge.
  unfoldable pub pack_relay_message : Abi → MsgInitiateErc20Withdrawal → Params → Result Bytes
  pack_relay_message A msg p =
      bind_result
        (wrap_error "failed to initiate ERC-20 withdrawal" "failed to pack finalizeBridgeERC20" (
          A.finalize_bridge_erc20.pack (record {
            remote_token = hex_to_address msg.token_address;
            local_token = hex_to_address msg.token_address;
            from_address = hex_to_address msg.sender;
            to_address = hex_to_address msg.target;
            amount = msg.value;
            extra_data = msg.extra_data;
          })))
        (λ call. wrap_error "failed to initiate ERC-20 withdrawal" "failed to pack relayMessage" (
          A.relay_message.pack (record {
            nonce = int 0;
            sender = hex_to_address l2_standard_bridge;
            target = hex_to_address p.l1_standard_bridge;
            value = int 0;
            min_gas_limit = int 0;
            message = record { used = call; spare = [] };
          })))

  -- `InitiateERC20Withdrawal`; the two ABIs are constants that parse.
  unfoldable pub initiate_erc20_withdrawal : Abi → MsgInitiateErc20Withdrawal → Handler S (Unit {0})
  initiate_erc20_withdrawal A msg = do
    addr ← account msg.sender
    mapping (wrap_error "failed to initiate ERC-20 withdrawal" "failed to burn ERC-20")
        (burn_erc20 addr msg.token_address msg.value)
    p ← params "failed to initiate ERC-20 withdrawal"
    relay_message ← lift S (pack_relay_message A msg p)
    value_hex ← lift S (encode_big msg.value)
    zero_hex ← lift S (encode_big (int 0))
    gas_hex ← lift S (encode_big (int (be_value msg.gas_limit)))
    emit_events S (
        withdrawal_event l2_cross_domain_messenger p.l1_cross_domain_messenger zero_hex gas_hex
          (encode_hex relay_message)
        ∷ new_event "burn_erc20" (
            attribute "l2_withdrawal_tx" "withdrawal_initiated"
            ∷ attribute "from_address" msg.sender
            ∷ attribute "erc20_address" msg.token_address
            ∷ attribute "value" value_hex
            ∷ [])
        ∷ [])

  -- `InitiateFeeWithdrawal` from the balance of the fee collector on
  unfoldable pub withdraw_fees : Params → Bytes → ℕ → Handler S (Unit {0})
  withdraw_fees p collector fees = do
    lift S (
        if ltb fees p.min_fee_withdrawal_amount
        then err (
            wrapped "fee collector balance is below the minimum withdrawal amount"
              (failure "failed to initiate fee withdrawal"))
        else ok tt)
    c ← lift S (new_coins wei (int fees))
    in_bank S (
        mapping
          (wrap_error "failed to initiate fee withdrawal"
            "failed to send withdrawn fees from fee collector account to rollup module")
          (module_to_module fee_collector_name module_name c))
    in_bank S (
        mapping
          (wrap_error "failed to initiate fee withdrawal"
            "failed to burn withdrawn fees from rollup module")
          (burn_coins module_name c))
    value_hex ← lift S (encode_big (int fees))
    gas_hex ← lift S (encode_big (int p.fee_withdrawal_gas_limit))
    emit_events S (
        withdrawal_event (address_string collector) p.l1_fee_recipient value_hex gas_hex "0x"
        ∷ new_event "burn_eth" (
            attribute "l2_fee_withdrawal_tx" "withdrawal_initiated"
            ∷ attribute "from_address" (address_string collector)
            ∷ attribute "value" value_hex
            ∷ [])
        ∷ [])

  -- `InitiateFeeWithdrawal`
  unfoldable pub initiate_fee_withdrawal : Handler S (Unit {0})
  initiate_fee_withdrawal = do
    p ← params "failed to initiate fee withdrawal"
    collector ← lift S (
        or_failing
          (wrapped "failed to get fee collector address"
            (failure "failed to initiate fee withdrawal"))
          (module_address fee_collector_name))
    fees ← reading (λ (k : KeeperState S). ok (balance collector wei k.bank))
    withdraw_fees p collector fees

  -- `UpdateParams`
  unfoldable pub update_params : Bytes → String → Params → Handler S (Unit {0})
  update_params authority sender p = do
    lift S (
        if same_text (address_string authority) sender
        then ok tt
        else err (wrapped "invalid authority" (failure "failed to update params")))
    lift S
        (wrap_error "failed to update params" "validate params" (validate_params is_hex_address p))
    in_store S (mapping (wrap_error "failed to update params" "set params") (set_params S p))
