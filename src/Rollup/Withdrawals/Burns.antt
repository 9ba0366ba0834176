-- ===== src/Rollup/Withdrawals/Burns.antt =====
-- What the withdrawals burn, and from whom.
use monomer.Prelude.{ℕ, ◌+◌, ◌≤◌, ◌≡◌, refl, ap, ◌∙◌, String, ok, arith, ok_of_failing}
use monomer.Prelude.Stateful.{keeps_on, ok_of_continue}
use monomer.Bytes.{Bytes}
use monomer.Rollup.Messages.{Params, BigInt, int, MsgInitiateErc20Withdrawal}
use monomer.Rollup.Sdk.{Sdk, IsLedger, Coins, part, coins_of, Abi}
use monomer.Rollup.Abi.{get_erc20_denom}
use monomer.Rollup.Keeper.{ok_of_wrap_error, KeeperState, wei, emit_events}
use monomer.Rollup.Books.{
  Shifts, then_shifts, shifts_at, shifts_in, coins, nothing, no_coins, rollup_account,
  collect-Shifts, burn-Shifts, move-Shifts, new_coins-ok, new_coins-int,
}
use monomer.Rollup.Books.{enough}
use monomer.Rollup.Withdrawals.{
  burn, burn_eth, burn_erc20, initiate_erc20_withdrawal, withdraw_fees, fee_collector_name,
}

module _ (S : Sdk) (L : IsLedger S) where
  burnt :
      (addr : Bytes) (c c' : Coins) (s s' : KeeperState S)
      → c ≡ c'
      → Shifts S
          (λ a d. part (rollup_account S L) c a d + nothing a d)
          (λ a d. part addr c a d + part (rollup_account S L) c a d)
          (λ d. no_coins d + no_coins d)
          (λ d. no_coins d + coins_of c d)
          s
          s'
      → Shifts S nothing (part addr c') no_coins (coins_of c') s s'
  burnt addr c c' s s' e p = record {
    balances = λ a d. omega (arith, p.balances a d, ap (λ x. part addr x a d) e);
    supplies = λ d. omega (arith, p.supplies d, ap (λ x. coins_of x d) e);
  }

  burn-lem :
      (m : String) (addr : Bytes) (c c' : Coins) (s : KeeperState S)
      → c ≡ c'
      → (burn S m addr c s).0 ≡ ok tt
      → Shifts S nothing (part addr c') no_coins (coins_of c') s (burn S m addr c s).1
  unfolding burn
  burn-lem m addr c c' s e h =
      let (done, collected, eq, burned) = ok_of_continue _ _ tt h in
      let first = collect-Shifts S L addr c s (ok_of_failing _ _ tt collected) in
      let second = burn-Shifts S L c _ (ok_of_failing _ _ tt burned) in
      shifts_at S (burnt addr c c' s _ e (then_shifts S first second)) (ap (λ r. r.1) eq)

  -- `burnETH` that succeeds destroys the amount, out of the account.
  pub burn_eth-Shifts :
      (addr : Bytes) (amount : BigInt) (s : KeeperState S)
      → (burn_eth S addr amount s).0 ≡ ok tt
      → (n : ℕ) × (amount ≡ int n)
        × Shifts S nothing
            (part addr (coins wei n))
            no_coins
            (coins_of (coins wei n))
            s
            (burn_eth S addr amount s).1
  unfolding burn_eth
  burn_eth-Shifts addr amount s h =
      let (c, made, eq, h1) = ok_of_continue _ _ tt h in
      let (same, is_amount) = new_coins-ok S L wei amount c made in
      (
        c.amount,
        is_amount,
        shifts_at S (burn-lem _ addr c (coins wei c.amount) s same h1) (ap (λ r. r.1) eq),
      )

  pub burn_erc20-Shifts :
      (addr : Bytes) (token : String) (amount : BigInt) (s : KeeperState S)
      → (burn_erc20 S addr token amount s).0 ≡ ok tt
      → (denom : String) × (n : ℕ) × (get_erc20_denom token ≡ ok denom)
        × (amount ≡ int n)
        × Shifts S nothing
            (part addr (coins denom n))
            no_coins
            (coins_of (coins denom n))
            s
            (burn_erc20 S addr token amount s).1
  unfolding burn_erc20
  burn_erc20-Shifts addr token amount s h =
      let (denom, named, eq1, h1) = ok_of_continue _ _ tt h in
      let (c, made, eq2, h2) = ok_of_continue _ _ tt h1 in
      let (same, is_amount) = new_coins-ok S L denom amount c made in
      (
        denom,
        c.amount,
        named,
        is_amount,
        shifts_at S (burn-lem _ addr c (coins denom c.amount) s same h2)
            (ap (λ r. r.1) (eq1 ∙ eq2)),
      )

  -- A token withdrawal that succeeds destroys the amount of the token, out of the sender's account, and
  -- nothing else changes the books.
  pub initiate_erc20_withdrawal-Shifts :
      (A : Abi) (msg : MsgInitiateErc20Withdrawal) (s : KeeperState S)
      → (initiate_erc20_withdrawal S A msg s).0 ≡ ok tt
      → (addr : Bytes) × (denom : String) × (n : ℕ) × (S.account_from_bech32 msg.sender ≡ ok addr)
        × (get_erc20_denom msg.token_address ≡ ok denom)
        × (msg.value ≡ int n)
        × Shifts S nothing
            (part addr (coins denom n))
            no_coins
            (coins_of (coins denom n))
            s
            (initiate_erc20_withdrawal S A msg s).1
  unfolding initiate_erc20_withdrawal emit_events
  initiate_erc20_withdrawal-Shifts A msg s h =
      let (addr, read, eq1, h1) = ok_of_continue _ _ tt h in
      let (done, burned, eq2, h2) = ok_of_continue _ _ tt h1 in
      let (p, stored, eq3, h3) = ok_of_continue _ _ tt h2 in
      let (message, packed, eq4, h4) = ok_of_continue _ _ tt h3 in
      let (value_hex, text, eq5, h5) = ok_of_continue _ _ tt h4 in
      let (zero_hex, text', eq6, h6) = ok_of_continue _ _ tt h5 in
      let (gas_hex, text'', eq7, h7) = ok_of_continue _ _ tt h6 in
      let (denom, n, named, is_amount, q) =
        burn_erc20-Shifts addr msg.token_address msg.value s (ok_of_wrap_error _ _ _ tt burned) in
      (
        addr,
        denom,
        n,
        ok_of_wrap_error _ _ _ addr read,
        named,
        is_amount,
        shifts_in S q (ap (λ r. r.1.bank) (eq1 ∙ (eq2 ∙ (eq3 ∙ (eq4 ∙ (eq5 ∙ (eq6 ∙ eq7))))))),
      )

  -- The books after a withdrawal of fees.
  pub withdraw_fees-Shifts :
      (p : Params) (collector : Bytes) (fees : ℕ) (s : KeeperState S)
      → (withdraw_fees S p collector fees s).0 ≡ ok tt
      → (p.min_fee_withdrawal_amount ≤ fees)
        × Shifts S nothing
            (part (L.module_account fee_collector_name) (coins wei fees))
            no_coins
            (coins_of (coins wei fees))
            s
            (withdraw_fees S p collector fees s).1
  unfolding withdraw_fees emit_events
  withdraw_fees-Shifts p collector fees s h =
      let (done, checked, eq1, h1) = ok_of_continue _ _ tt h in
      let (c, made, eq2, h2) = ok_of_continue _ _ tt h1 in
      let (done', moved, eq3, h3) = ok_of_continue _ _ tt h2 in
      let (done'', burned, eq4, h4) = ok_of_continue _ _ tt h3 in
      let (value_hex, text, eq5, h5) = ok_of_continue _ _ tt h4 in
      let (gas_hex, text', eq6, h6) = ok_of_continue _ _ tt h5 in
      let first = move-Shifts S L fee_collector_name c s (ok_of_wrap_error _ _ _ tt moved) in
      let second = burn-Shifts S L c _ (ok_of_wrap_error _ _ _ tt burned) in
      (
        enough fees p.min_fee_withdrawal_amount _ checked,
        shifts_in S
            (burnt (L.module_account fee_collector_name) c (coins wei fees) s _
              (new_coins-int S L wei fees c made) (then_shifts S first second))
            (ap (λ r. r.1.bank) (eq1 ∙ (eq2 ∙ (eq3 ∙ (eq4 ∙ (eq5 ∙ eq6)))))),
      )

  -- Burning emits no event.
  pub burn_eth-events :
      (addr : Bytes) (amount : BigInt) (s : KeeperState S)
      → (burn_eth S addr amount s).1.events ≡ s.events
  unfolding burn_eth burn
  burn_eth-events addr amount s =
      keeps_on {S = KeeperState S} (λ k. k.events) s.events _ _ refl
        (λ c s1 e1. keeps_on {S = KeeperState S} (λ k. k.events) s.events _ _ e1 (λ done s2 e2. e2))
