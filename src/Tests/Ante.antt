-- ===== src/Tests/Ante.antt =====
-- Transactions before the ante handler, and the gas of their bytes.
use monomer.Prelude.{
  ℕ, suc, ◌+◌, ◌-◌, ◌*◌, ◌≤◌, ◌<◌, ◌≡◌, ◌⊎◌, refl, ltb, Bool, true, false, Option, none, some,
  String, List, [], ◌∷◌, failure, Result, ok, err, panic, if◌then◌else◌, All, length,
}
use monomer.Bytes.{Bytes}
use monomer.Bytes.BigEndian.{u64_mod}
use monomer.Adapters.{L1BlockInfo}
use monomer.Rollup.Gas.{
  metered, consume_gas, l1_gas_used, l1_gas_used-lem, l1_data_cost, l1_data_cost-floor, scaled_fee,
  zeroes, others,
}
use monomer.Rollup.Ante.{
  AnteSdk, Msg, other_msg, auth_tx, is_deposit_msg, ante_handle, ante_handle-charges,
}
use monomer.Tests.Ledger.{zero_info}

-- A transaction is the list of its messages; its bytes are three; the meter is the gas that is left.
abbrev sdk : AnteSdk
sdk = record {
  AuthTx = List Msg;
  Meter = ℕ;
  Store = L1BlockInfo;
  auth_decode = λ b. err (failure "errUnknownField");
  auth_msgs = λ t. t;
  rlp_encode = λ t. ok (0 ∷ 1 ∷ 2 ∷ []);
  consume = λ n m. if ltb m n then panic "out of gas" else ok (m - n);
  get_l1_block_info = λ s. ok s;
  auth_ante = λ t simulate c. (ok tt, c);
}

abbrev prices : L1BlockInfo
prices = record zero_info { base_fee = 1 ∷ []; base_fee_scalar = 1000000 }

abbrev transfer : List Msg
transfer = other_msg "/cosmos.bank.v1beta1.MsgSend" ∷ []

ante_handle-charges_example :
    All (λ m. is_deposit_msg m ≡ false) transfer
    × (ok (tt {0}) ≡ ok tt)
    × (info : L1BlockInfo) × (bz : Bytes) × (cost : ℕ) × (ok prices ≡ ok info)
    × (ok (0 ∷ 1 ∷ 2 ∷ []) ≡ ok bz)
    × (l1_data_cost info bz ≡ ok cost)
    × (consume_gas sdk.consume cost (metered 5000)
        ≡ ok (ante_handle sdk (auth_tx transfer) false (metered 5000, prices)).1.0)
unfolding is_deposit_msg ante_handle monomer.Rollup.Ante.has_deposit_msg
    monomer.Rollup.Ante.ante_ordinary monomer.Prelude.Stateful.continue
    monomer.Rollup.Ante.l1_data_ante_handler l1_data_cost l1_gas_used
    monomer.Rollup.Gas.add_byte_costs scaled_fee monomer.Bytes.BigEndian.be_value
    monomer.Rollup.Ante.charge consume_gas
ante_handle-charges_example = ante_handle-charges sdk transfer false (metered 5000, prices) refl

l1_gas_used-lem_example :
    (l1_gas_used (0 ∷ 7 ∷ []) ≡ 1088 + (4 * 1 + 16 * 1))
    × (1088 + 4 * 2 ≤ l1_gas_used (0 ∷ 7 ∷ []))
    × (l1_gas_used (0 ∷ 7 ∷ []) ≤ 1088 + 16 * 2)
l1_gas_used-lem_example = l1_gas_used-lem (0 ∷ 7 ∷ [])

l1_data_cost-floor_example :
    ((cost : ℕ) × (l1_data_cost prices [] ≡ ok cost)
      × (cost * 16000000 ≤ l1_gas_used [] * scaled_fee prices)
      × (l1_gas_used [] * scaled_fee prices < cost * 16000000 + 16000000)
      × (cost < u64_mod))
    ⊎ ((l1_data_cost prices [] ≡ err (failure "l1 data cost overflow"))
        × (u64_mod * 16000000 ≤ l1_gas_used [] * scaled_fee prices))
l1_data_cost-floor_example = l1_data_cost-floor prices []
