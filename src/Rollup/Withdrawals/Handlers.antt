-- ===== src/Rollup/Withdrawals/Handlers.antt =====
-- What the handlers of the messages promise: withdrawals of ETH that the builder can read, fees, and
-- parameters.
use monomer.Prelude.{
  ℕ, ◌+◌, ◌^◌, ◌<◌, ◌≤◌, ◌≡◌, refl, ap, sym, ◌∙◌, String, ok, err, arith, same_text, Error, Bool,
  true, false, Option, some, none, List, [], ◌∷◌, ◌++◌, if◌then◌else◌, ok_injective,
}
use mathlib.Core.Path.{subst}
use monomer.Prelude.Stateful.{ok_of_continue}
use monomer.Bytes.{Bytes, bytes_eq_refl}
use monomer.Bytes.BigEndian.{be_value}
use monomer.Builder.Withdrawals.{
  Event, Formats, find_event, parse_withdrawal_event_attributes, parse_attributes, parse_attribute,
  parse_sender,
}
use monomer.Rollup.Messages.{Params, int, MsgInitiateWithdrawal, validate_params}
use monomer.Rollup.Sdk.{Sdk, IsLedger, IsStore, part, coins_of}
use monomer.Rollup.Keeper.{
  ok_of_wrap_error, KeeperState, module_name, wei, emit_events, attribute, new_event, get_params,
  get_l1_block_info, set_params-read,
}
use monomer.Rollup.Books.{Shifts, shifts_at, shifts_in, coins, nothing, no_coins}
use monomer.Rollup.Withdrawals.{
  initiated_events, burn_eth, or_failing, initiate_withdrawal, initiate_fee_withdrawal,
  update_params, withdrawal_event, fee_collector_name,
}
use monomer.Rollup.Withdrawals.Burns.{burn_eth-events, burn_eth-Shifts, withdraw_fees-Shifts}

module _ (S : Sdk) where
  some_of : (e : Error) (o : Option Bytes) (a : Bytes) → or_failing e o ≡ ok a → o ≡ some a
  some_of e none a h = cc
  some_of e (some b) a h = cc

  is_authority : (b : Bool) (e : Error) → (if b then ok (tt {0}) else err e) ≡ ok tt → b ≡ true
  is_authority true e h = refl
  is_authority false e h = cc

  emptied :
      (L : IsLedger S) (collector : Bytes) (fees : ℕ) (s s' : KeeperState S)
      → L.module_account fee_collector_name ≡ collector
      → fees ≡ S.balance collector wei s.bank
      → (a : Bytes) (d : String)
      → Shifts S nothing
          (part (L.module_account fee_collector_name) (coins wei fees))
          no_coins
          (coins_of (coins wei fees))
          s
          s'
      → (S.balance collector wei s'.bank ≡ 0)
        × (S.balance a d s'.bank + part collector (coins wei (S.balance collector wei s.bank)) a d
            ≡ S.balance a d s.bank)
        × (S.supply d s'.bank + coins_of (coins wei (S.balance collector wei s.bank)) d
            ≡ S.supply d s.bank)
  emptied L collector fees s s' here all a d p =
      let at = λ (a : Bytes) (d : String).
        ap (λ x. part x (coins wei fees) a d) here
        ∙ ap (λ n. part collector (coins wei n) a d) all in
      let whole : part collector (coins wei (S.balance collector wei s.bank)) collector wei
          ≡ S.balance collector wei s.bank =
        rw (bytes_eq_refl collector) refl in
      (
        omega (arith, p.balances collector wei, at collector wei, whole),
        omega (arith, p.balances a d, at a d),
        omega (arith, p.supplies d, ap (λ n. coins_of (coins wei n) d) all),
      )

  -- After a withdrawal of fees that succeeds: the fee collector had at least the minimum amount
  -- of the stored parameters, and now has no ETH; what it had is destroyed, and no other account changes.
  pub initiate_fee_withdrawal-empties :
      (L : IsLedger S) (s : KeeperState S) (a : Bytes) (d : String)
      → (initiate_fee_withdrawal S s).0 ≡ ok tt
      → (p : Params) × (collector : Bytes) × (get_params S s.store ≡ ok p)
        × (S.module_address fee_collector_name ≡ some collector)
        × (p.min_fee_withdrawal_amount ≤ S.balance collector wei s.bank)
        × (S.balance collector wei (initiate_fee_withdrawal S s).1.bank ≡ 0)
        × (S.balance a d (initiate_fee_withdrawal S s).1.bank
              + part collector (coins wei (S.balance collector wei s.bank)) a d
            ≡ S.balance a d s.bank)
        × (S.supply d (initiate_fee_withdrawal S s).1.bank
              + coins_of (coins wei (S.balance collector wei s.bank)) d
            ≡ S.supply d s.bank)
  unfolding initiate_fee_withdrawal
  initiate_fee_withdrawal-empties L s a d h =
      let (p, read, eq1, h1) = ok_of_continue _ _ tt h in
      let (collector, found, eq2, h2) = ok_of_continue _ _ tt h1 in
      let (fees, asked, eq3, h3) = ok_of_continue _ _ tt h2 in
      let here = some_of _ _ collector found in
      let (enough, q) = withdraw_fees-Shifts S L p collector fees s h3 in
      let all = sym (ok_injective _ fees asked) in
      let at_end = shifts_at S q (ap (λ r. r.1) (eq1 ∙ (eq2 ∙ eq3))) in
      let (left, balances, supplies) =
        emptied L collector fees s _ (L.module_address_account fee_collector_name collector here)
          all a d at_end in
      (
        p,
        collector,
        ok_of_wrap_error _ _ _ p read,
        here,
        subst (λ n. p.min_fee_withdrawal_amount ≤ n) all enough,
        left,
        balances,
        supplies,
      )

  -- `UpdateParams` that succeeds was sent by the authority with parameters that are valid, and these are
  -- the ones that are read then; the L1 block info, the bank and the events are as before; if the store
  -- keeps what it is given.
  pub update_params-read :
      (K : IsStore S) (authority : Bytes) (sender : String) (p : Params) (s : KeeperState S)
      → (update_params S authority sender p s).0 ≡ ok tt
      → (same_text (S.address_string authority) sender ≡ true)
        × (validate_params S.is_hex_address p ≡ ok tt)
        × (get_params S (update_params S authority sender p s).1.store ≡ ok p)
        × (get_l1_block_info S (update_params S authority sender p s).1.store
            ≡ get_l1_block_info S s.store)
        × ((update_params S authority sender p s).1.bank ≡ s.bank)
        × ((update_params S authority sender p s).1.events ≡ s.events)
  unfolding update_params
  update_params-read K authority sender p s h =
      let (done, allowed, eq1, h1) = ok_of_continue _ _ tt h in
      let (done', valid, eq2, h2) = ok_of_continue _ _ tt h1 in
      let eq = ap (λ r. r.1) (eq1 ∙ eq2) in
      let (there, exported, queried, other) =
        set_params-read S K p s.store (ok_of_wrap_error _ _ _ tt h2) in
      (
        is_authority (same_text (S.address_string authority) sender) _ allowed,
        ok_of_wrap_error _ _ _ tt valid,
        ap (λ k. get_params S k.store) eq ∙ there,
        ap (λ k. get_l1_block_info S k.store) eq ∙ other,
        ap (λ k. k.bank) eq,
        ap (λ k. k.events) eq,
      )

  -- The formats that the builder reads withdrawals with, where they undo the ones of this module: an
  -- account in bech32 is no hexadecimal address.
  pub record IsReadable (F : Formats) : Type 0 where
    pub decode-encode_big :
        (n : ℕ) (t : String) → n < 2 ^ 256 → S.encode_big (int n) ≡ ok t → F.decode_big t ≡ ok n
    pub decode-encode_hex : (b : Bytes) → F.decode_hex (S.encode_hex b) ≡ ok b
    pub reads_account :
        (t : String) (a : Bytes)
        → S.account_from_bech32 t ≡ ok a
        → (F.is_hex_address t ≡ false) × (F.account_from_bech32 t ≡ ok a)

  withdrawal_event-parsed :
      (F : Formats) (R : IsReadable F) (sender target value_hex gas_hex : String)
      (addr call_data : Bytes) (n g : ℕ)
      → n < 2 ^ 256
      → g < 2 ^ 256
      → S.account_from_bech32 sender ≡ ok addr
      → S.encode_big (int n) ≡ ok value_hex
      → S.encode_big (int g) ≡ ok gas_hex
      → parse_withdrawal_event_attributes F
          (withdrawal_event S sender target value_hex gas_hex (S.encode_hex call_data))
        ≡ ok (record {
          sender = some (F.bytes_to_address addr);
          target = some (F.hex_to_address target);
          amount = some n;
          gas_limit = some g;
          call_data = call_data;
        })
  unfolding parse_withdrawal_event_attributes parse_attributes parse_attribute parse_sender
  withdrawal_event-parsed F R sender target value_hex gas_hex addr call_data n g small_n small_g
        reads is_value is_gas =
      let (not_hex, account) = R.reads_account sender addr reads in
      rw
        (
          not_hex,
          account,
          R.decode-encode_big n value_hex small_n is_value,
          R.decode-encode_big g gas_hex small_g is_gas,
          R.decode-encode_hex call_data,
        )
        refl

  find_event-append :
      (es rest : List Event)
      → find_event es ≡ none
      → find_event (es ++ new_event "message" (attribute "module" module_name ∷ []) ∷ rest)
        ≡ find_event rest
  unfolding find_event
  find_event-append [] rest h = refl
  find_event-append (x ∷ es) rest h = ground (arith, find_event-append es rest)

  -- `InitiateWithdrawal` that succeeds destroys the value, out of the sender's account, and the event that
  -- the builder finds then, in a transaction that had none before, reads as the withdrawal of this message:
  -- its sender, target, value, data and gas limit; if the value and the gas limit fit 256 bits, the bank
  -- keeps its books, and the formats of the builder undo the ones of the module, of numbers up to 256
  -- bits only.
  pub initiate_withdrawal-parsed :
      (L : IsLedger S) (F : Formats) (R : IsReadable F) (msg : MsgInitiateWithdrawal)
      (s : KeeperState S)
      → find_event s.events ≡ none
      → ((n : ℕ) → msg.value ≡ int n → n < 2 ^ 256)
      → be_value msg.gas_limit < 2 ^ 256
      → (initiate_withdrawal S msg s).0 ≡ ok tt
      → (addr : Bytes) × (n : ℕ) × (e : Event) × (S.account_from_bech32 msg.sender ≡ ok addr)
        × (msg.value ≡ int n)
        × (find_event (initiate_withdrawal S msg s).1.events ≡ some e)
        × (parse_withdrawal_event_attributes F e
            ≡ ok (record {
              sender = some (F.bytes_to_address addr);
              target = some (F.hex_to_address msg.target);
              amount = some n;
              gas_limit = some (be_value msg.gas_limit);
              call_data = msg.call_data;
            }))
        × Shifts S nothing
            (part addr (coins wei n))
            no_coins
            (coins_of (coins wei n))
            s
            (initiate_withdrawal S msg s).1
  unfolding initiate_withdrawal emit_events find_event
  initiate_withdrawal-parsed L F R msg s fresh fits gas_fits h =
      let (addr, read, eq1, h1) = ok_of_continue _ _ tt h in
      let (done, burned, eq2, h2) = ok_of_continue _ _ tt h1 in
      let (value_hex, is_value, eq3, h3) = ok_of_continue _ _ tt h2 in
      let (gas_hex, is_gas, eq4, h4) = ok_of_continue _ _ tt h3 in
      let (n, is_amount, q) =
        burn_eth-Shifts S L addr msg.value s (ok_of_wrap_error _ _ _ tt burned) in
      let account = ok_of_wrap_error _ _ _ addr read in
      let eq = ap (λ r. r.1) (eq1 ∙ (eq2 ∙ (eq3 ∙ eq4))) in
      let found =
        ap (λ k. find_event k.events) eq
        ∙ find_event-append (burn_eth S addr msg.value s).1.events
            (initiated_events S msg value_hex gas_hex)
            (ap find_event (burn_eth-events S L addr msg.value s) ∙ fresh) in
      (
        addr,
        n,
        withdrawal_event S msg.sender msg.target value_hex gas_hex (S.encode_hex msg.call_data),
        account,
        is_amount,
        found,
        withdrawal_event-parsed F R msg.sender msg.target value_hex gas_hex addr msg.call_data n
            (be_value msg.gas_limit) (fits n is_amount) gas_fits account
            (ap S.encode_big (sym is_amount) ∙ is_value) is_gas,
        shifts_in S q (ap (λ k. k.bank) eq),
      )
