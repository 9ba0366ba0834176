-- ===== src/Rollup/Deposits.antt =====
-- x/rollup/keeper/deposits.go: the ETH and the tokens that deposits from L1 mint.
pub mod Credits
pub mod Keeps
pub mod Bridged
pub mod Applied
use monomer.Prelude.{
  ℕ, zero, suc, ◌-◌, ltb, ◌==◌, Bool, true, false, not, ◌&&◌, Option, none, some, String, List, [],
  ◌∷◌, ◌++◌, failure, length, Result, ok, err, panic, failing, if◌then◌else◌,
}
use monomer.Prelude.Stateful.{Step, ◌>>=◌, ◌>>◌, pure, reading}
use monomer.Rollup.Abi.{selector, unpack_inputs_into_interface, get_erc20_denom}
use Prim.Native.String.{len, slice, ◌++◌ as append_text}
use monomer.Bytes.{Bytes, bytes_eq}
use monomer.Bytes.BigEndian.{first_bytes}
use monomer.Adapters.{L1BlockInfo}
use monomer.Builder.Withdrawals.{Event}
use monomer.Rollup.Messages.{BigInt, Params, int}
use monomer.Rollup.Sdk.{
  Sdk, Coins, Slice, Method, Abi, DepositTx, RelayMessageArgs, FinalizeBridgeEthArgs,
  FinalizeBridgeErc20Args,
}
use monomer.Rollup.Keeper.{
  KeeperState, Handler, lift, in_bank, mapping, attribute, new_event, wrap_error, get_params,
  get_l1_block_info, emit_events, module_name, wei,
}

-- An integer that is not set is a nil pointer to whoever compares it.
unfoldable pub set_amount : Option ℕ → Result ℕ
set_amount none = panic "nil pointer dereference"
set_amount (some n) = ok n

abbrev pub big : Option ℕ → BigInt
big none = none
big (some n) = int n

module _ (S : Sdk) where
  open S use {
    Store, Bank, new_coins, mint_coins, module_to_account, account_from_bech32, bech32_encode,
    checksum_hex, hex_to_address, apply_l1_to_l2_alias, encode_big,
  }

  -- The steps of `mintETH` and `mintERC20` that concern the bank.
  abbrev pub mint : String → Coins → Handler S (Unit {0})
  mint m c = in_bank S (mapping (failing m) (mint_coins module_name c))

  abbrev pub pay : String → Bytes → Coins → Handler S (Unit {0})
  pay m to c = in_bank S (mapping (failing m) (module_to_account module_name to c))

  abbrev pub account : String → Handler S Bytes
  account a = lift S (failing "account address from bech32" (account_from_bech32 a))

  unfoldable pub send_eth : Bytes → ℕ → Handler S (Unit {0})
  send_eth to n = do
    c ← lift S (new_coins wei (int n))
    pay "failed to send ETH deposit coins from rollup module to user account" to c

  unfoldable pub transfer_eth : Bytes → ℕ → Handler S (Unit {0})
  transfer_eth to n s = if n == 0 then (ok tt, s) else send_eth to n s

  -- `mintETH` after its comparison
  unfoldable pub distribute_eth : String → String → ℕ → ℕ → Handler S Event
  distribute_eth mint_addr recipient_addr minted transferred = do
    recipient ← account recipient_addr
    transfer_eth recipient transferred
    minter ← account mint_addr
    transfer_eth minter (minted - transferred)
    mint_hex ← lift S (encode_big (int (minted - transferred)))
    value_hex ← lift S (encode_big (int transferred))
    pure (
        new_event "mint_eth" (
          attribute "l1_deposit_tx_type" "l1_user_deposit"
          ∷ attribute "mint_address" mint_addr
          ∷ attribute "mint" mint_hex
          ∷ attribute "to_address" recipient_addr
          ∷ attribute "value" value_hex
          ∷ []))

  -- `mintETH`
  unfoldable pub mint_eth : String → String → Option ℕ → ℕ → Handler S Event
  mint_eth mint_addr recipient_addr mint_amount transfer_amount = do
    c ← lift S (new_coins wei (big mint_amount))
    mint "failed to mint ETH deposit coins to the rollup module" c
    minted ← lift S (set_amount mint_amount)
    lift S (
        if ltb minted transfer_amount
        then err (failure "transfer amount is greater than mint amount")
        else ok tt)
    distribute_eth mint_addr recipient_addr minted transfer_amount

  -- `mintERC20`
  unfoldable pub mint_erc20 : String → String → BigInt → Handler S Event
  mint_erc20 user_addr erc20_addr amount = do
    denom ← lift S (get_erc20_denom erc20_addr)
    c ← lift S (new_coins denom amount)
    mint "failed to mint ERC-20 deposit coins to the rollup module" c
    user ← account user_addr
    pay "failed to send ERC-20 deposit coins from rollup module to user account" user c
    value_hex ← lift S (encode_big amount)
    pure (
        new_event "mint_erc20" (
          attribute "l1_deposit_tx_type" "l1_user_deposit"
          ∷ attribute "to_address" user_addr
          ∷ attribute "erc20_address" erc20_addr
          ∷ attribute "value" value_hex
          ∷ []))

  abbrev pub cosmos_address : Bytes → Handler S String
  cosmos_address a = lift S (failing "evm to cosmos address" (bech32_encode a))

  module _ (A : Abi) where
    open A use {relay_message, finalize_bridge_eth, finalize_bridge_erc20}

    -- `processFinalizeBridgeETH`
    unfoldable pub process_finalize_bridge_eth : Slice → Handler S Event
    process_finalize_bridge_eth message = do
      args ← lift S (
          failing "failed to unpack relay message into finalizeBridgeETH interface"
            (unpack_inputs_into_interface finalize_bridge_eth message))
      to ← cosmos_address args.to_address
      mapping (failing "failed to mint ETH") (mint_eth to to (some args.amount) args.amount)

    -- `processFinalizeBridgeERC20`
    unfoldable pub process_finalize_bridge_erc20 : Slice → Handler S Event
    process_finalize_bridge_erc20 message = do
      args ← lift S (
          failing "failed to unpack relay message into finalizeBridgeERC20 interface"
            (unpack_inputs_into_interface finalize_bridge_erc20 message))
      to ← cosmos_address args.to_address
      mapping (failing "failed to mint ERC-20 token")
          (mint_erc20 to (checksum_hex args.remote_token) args.amount)

    abbrev pub answering : String → Handler S Event → Handler S (Option Event)
    answering m step = do e ← mapping (failing m) step; pure (some e)

    -- The messages of the L1StandardBridge, by their selector; any other one is left alone.
    unfoldable pub process_bridge_message : Bytes → Slice → Handler S (Option Event)
    process_bridge_message id message s =
        if bytes_eq id finalize_bridge_eth.id
        then answering "failed to process finalizeBridgeETH method"
            (process_finalize_bridge_eth message) s
        else if bytes_eq id finalize_bridge_erc20.id
        then answering "failed to process finalizeBridgeERC20 method"
            (process_finalize_bridge_erc20 message) s
        else (ok none, s)

    -- `processCrossDomainMessage`; the two ABIs are constants that parse.
    unfoldable pub process_cross_domain_message : Slice → Handler S (Option Event)
    process_cross_domain_message tx_data = do
      args ← lift S (
          failing "failed to unpack tx data into relayMessage interface"
            (unpack_inputs_into_interface relay_message tx_data))
      id ← lift S (selector args.message)
      process_bridge_message id args.message

    module _ (T : DepositTx) where
      open T use {Tx, unmarshal_binary, is_system_tx, to_address, sender, value, tx_data}

      -- The cross domain message of a deposit, if it comes from the aliased L1CrossDomainMessenger.
      unfoldable pub relayed_events : Slice → Handler S (List Event)
      relayed_events input = do
        e ←
            mapping (wrap_error "invalid L1 txs" "failed to parse or execute cross domain message")
              (process_cross_domain_message input)
        pure (elim e [ none ↦ [] | some x ↦ x ∷ [] ])

      abbrev pub from_messenger : Bytes → Params → Bool
      from_messenger from params =
          bytes_eq from (apply_l1_to_l2_alias (hex_to_address params.l1_cross_domain_messenger))

      unfoldable pub cross_domain_events : Bytes → Params → Option Slice → Handler S (List Event)
      cross_domain_events from params none s = (ok [], s)
      cross_domain_events from params (some input) s =
          if from_messenger from params then relayed_events input s else (ok [], s)

      -- `processL1UserDepositTxs` from the check of the recipient on
      unfoldable pub process_recipient : Option Bytes → Tx → L1BlockInfo → Handler S (List Event)
      process_recipient none tx info s = (err (failure "contract creation is not supported"), s)
      process_recipient (some to) tx info s =
          (do
            from ← lift S (
                wrap_error "invalid L1 txs" "failed to get sender address"
                  (sender info.number info.time tx))
            mint_addr ← cosmos_address from
            recipient_addr ← cosmos_address to
            mint_event ←
                mapping (wrap_error "failed to mint ETH" "failed to mint ETH for cosmosAddress")
                  (mint_eth mint_addr recipient_addr (T.mint tx) (value tx))
            params ← reading (λ (k : KeeperState S).
                wrap_error "params" "failed to get params" (get_params S k.store))
            more ← cross_domain_events from params (tx_data tx)
            pure (mint_event ∷ more))
            s

      -- `processL1UserDepositTxs`
      unfoldable pub process_l1_user_deposit_txs : Bytes → L1BlockInfo → Handler S (List Event)
      process_l1_user_deposit_txs tx_bytes info = do
        tx ← lift S (failing "unmarshal binary deposit tx" (unmarshal_binary tx_bytes))
        lift S
            (if is_system_tx tx then err (failure "deposit tx must not be a system tx") else ok tt)
        process_recipient (to_address tx) tx info

      -- `ApplyUserDeposit`
      unfoldable pub apply_user_deposit : Bytes → Handler S (Unit {0})
      apply_user_deposit tx_bytes = do
        info ←
            reading
              (λ (k : KeeperState S). failing "get l1 block info" (get_l1_block_info S k.store))
        events ←
            mapping (wrap_error "failed to process L1 user deposit txs" "err")
              (process_l1_user_deposit_txs tx_bytes info)
        emit_events S events
