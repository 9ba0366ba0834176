-- ===== src/Rollup/Messages.antt =====
-- x/rollup/types/msgs.go and params.go: what the messages and parameters are checked for.
use monomer.Prelude.{
  ℤ, pos, ℕ, ◌%◌, ◌≡◌, refl, ltb, Bool, not, ◌||◌, Option, none, some, String, ◌∷◌, arith, length,
  Result, ok, err, failure, failing, wrapping, if◌then◌else◌, ◌>>=◌, ◌>>◌,
}
use monomer.Bytes.{Bytes}
use monomer.Bytes.BigEndian.{u64_mod, be_value}

-- `params.TxGas` and `params.MaxGasLimit`
abbrev pub min_tx_gas_limit : ℕ
min_tx_gas_limit = 21000

abbrev pub max_tx_gas_limit : ℕ
max_tx_gas_limit = 9223372036854775807

-- The transactions of user deposits, from the OP fork of go-ethereum.
pub record DepositCodec : Type 1 where
  pub Tx : Type 0
  pub unmarshal_binary : Bytes → Result Tx
  pub is_deposit_tx : Tx → Bool
  pub is_system_tx : Tx → Bool

-- `sdkmath.Int` and `*big.Int`; `none` is one that is not set.
abbrev pub BigInt : Type 0
BigInt = Option ℤ

abbrev pub int : ℕ → BigInt
int n = some (pos n)

pub record MsgInitiateWithdrawal : Type 0 where
  pub sender : String
  pub target : String
  pub value : BigInt
  pub gas_limit : Bytes
  pub call_data : Bytes

pub record MsgInitiateErc20Withdrawal : Type 0 where
  pub sender : String
  pub target : String
  pub token_address : String
  pub value : BigInt
  pub gas_limit : Bytes
  pub extra_data : Bytes

pub record Params : Type 0 where
  pub l1_fee_recipient : String
  pub l1_cross_domain_messenger : String
  pub l1_standard_bridge : String
  pub min_fee_withdrawal_amount : ℕ
  pub fee_withdrawal_gas_limit : ℕ

-- `DefaultParams`
abbrev pub default_params : Params
default_params = record {
  l1_fee_recipient = "0x000000000000000000000000000000000000dEaD";
  l1_cross_domain_messenger = "0x3d609De69E066F85C38AC274e3EeC251EcfDeAa1";
  l1_standard_bridge = "0x9D34A2610Ea283f6d9AE29f9Cad82e00c4d38507";
  min_fee_withdrawal_amount = 400000;
  fee_withdrawal_gas_limit = 400000;
}

-- `MsgApplyUserDeposit.ValidateBasic`; a transaction that is nil is `none`.
unfoldable pub validate_user_deposit : (D : DepositCodec) → Option Bytes → Result (Unit {0})
validate_user_deposit D none = err (failure "tx is nil")
validate_user_deposit D (some b) = do
  tx ← failing "unmarshal binary deposit tx" (D.unmarshal_binary b)
  if not (D.is_deposit_tx tx)
      then err (failure "tx is not a deposit tx")
      else if D.is_system_tx tx
      then err (failure "tx must not be a system tx")
      else ok tt

-- `new(big.Int).SetBytes(b).Uint64()`: the low 64 bits.
unfoldable pub gas_limit_of : Bytes → ℕ
gas_limit_of b = be_value b % u64_mod

unfoldable pub check_gas_limit : ℕ → Result (Unit {0})
check_gas_limit g =
    if ltb g min_tx_gas_limit || ltb max_tx_gas_limit g
    then err (failure "gas limit must be in range")
    else ok tt

module _ (is_hex_address : String → Bool) where
  unfoldable pub check_address : String → String → Result (Unit {0})
  check_address m a = if is_hex_address a then ok tt else err (failure m)

  -- `MsgInitiateWithdrawal.ValidateBasic`
  unfoldable pub validate_withdrawal : MsgInitiateWithdrawal → Result (Unit {0})
  validate_withdrawal m = do
    check_address "invalid Ethereum address" m.target
    check_gas_limit (gas_limit_of m.gas_limit)

  -- `MsgInitiateERC20Withdrawal.ValidateBasic`
  unfoldable pub validate_erc20_withdrawal : MsgInitiateErc20Withdrawal → Result (Unit {0})
  validate_erc20_withdrawal m = do
    check_address "invalid target address" m.target
    check_address "invalid token address" m.token_address
    check_gas_limit (gas_limit_of m.gas_limit)

  -- `Params.Validate`
  unfoldable pub validate_params : Params → Result (Unit {0})
  validate_params p = do
    wrapping "validate L1 fee recipient address"
        (check_address "validate ethereum address" p.l1_fee_recipient)
    wrapping "validate L1 cross domain messenger address"
        (check_address "validate ethereum address" p.l1_cross_domain_messenger)
    wrapping "validate L1 standard bridge address"
        (check_address "validate ethereum address" p.l1_standard_bridge)

  gas_limit_of-prefix : (x : ℕ) (g : Bytes) → length g ≡ 8 → gas_limit_of (x ∷ g) ≡ gas_limit_of g
  unfolding gas_limit_of be_value
  gas_limit_of-prefix x g h = rw h (omega arith)

  -- A byte in front of a gas limit of eight bytes changes nothing for `ValidateBasic`, neither for a
  -- withdrawal of ETH nor of a token: the check reads the low 64 bits, so a limit far above the maximum
  -- passes when these are in range.
  pub validate_withdrawal-prefix :
      (m : MsgInitiateWithdrawal) (n : MsgInitiateErc20Withdrawal) (x y : ℕ)
      → length m.gas_limit ≡ 8
      → length n.gas_limit ≡ 8
      → (validate_withdrawal (record m { gas_limit = x ∷ m.gas_limit }) ≡ validate_withdrawal m)
        × (validate_erc20_withdrawal (record n { gas_limit = y ∷ n.gas_limit })
            ≡ validate_erc20_withdrawal n)
  unfolding validate_withdrawal validate_erc20_withdrawal
  validate_withdrawal-prefix m n x y h k =
      (rw (gas_limit_of-prefix x m.gas_limit h) refl, rw (gas_limit_of-prefix y n.gas_limit k) refl)
