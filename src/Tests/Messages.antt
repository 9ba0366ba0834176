-- ===== src/Tests/Messages.antt =====
-- Messages of the rollup module.
use monomer.Prelude.{◌≡◌, refl, true, String, [], ◌∷◌, Bool}
use monomer.Bytes.BigEndian.{put_uint64}
use monomer.Rollup.Messages.{
  int, MsgInitiateWithdrawal, MsgInitiateErc20Withdrawal, validate_withdrawal,
  validate_erc20_withdrawal, validate_withdrawal-prefix,
}

abbrev hex : String → Bool
hex s = true

abbrev withdrawal : MsgInitiateWithdrawal
withdrawal = record {
  sender = "alice";
  target = "0x01";
  value = int 1;
  gas_limit = put_uint64 21000;
  call_data = [];
}

abbrev token_withdrawal : MsgInitiateErc20Withdrawal
token_withdrawal = record {
  sender = "alice";
  target = "0x01";
  token_address = "0x02";
  value = int 1;
  gas_limit = put_uint64 30000;
  extra_data = [];
}

validate_withdrawal-prefix_example :
    (validate_withdrawal hex (record withdrawal { gas_limit = 1 ∷ withdrawal.gas_limit })
      ≡ validate_withdrawal hex withdrawal)
    × (validate_erc20_withdrawal hex
          (record token_withdrawal { gas_limit = 1 ∷ token_withdrawal.gas_limit })
        ≡ validate_erc20_withdrawal hex token_withdrawal)
unfolding put_uint64
validate_withdrawal-prefix_example =
    validate_withdrawal-prefix hex withdrawal token_withdrawal 1 1 refl refl
