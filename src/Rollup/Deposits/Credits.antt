-- ===== src/Rollup/Deposits/Credits.antt =====
-- Who is credited by a deposit, and by how much.
use monomer.Prelude.{
  same_text, ◌&&◌, Bool, ℕ, ◌+◌, ◌-◌, ◌≤◌, ◌≡◌, refl, ap, sym, ◌∙◌, ◌==◌, ==_iff, String, ok, arith,
  Bool-cases, true, false, ok_of_failing, ok_injective, if◌then◌else◌, Option, some, none,
}
use mathlib.Core.Path.{subst}
use monomer.Prelude.Stateful.{ok_of_continue}
use monomer.Bytes.{bytes_eq, Bytes}
use monomer.Builder.Withdrawals.{Event}
use monomer.Rollup.Messages.{BigInt, int}
use monomer.Rollup.Sdk.{Sdk, IsLedger, Coins, part, coins_of}
use monomer.Rollup.Keeper.{KeeperState, wei}
use monomer.Rollup.Books.{
  enough, Shifts, then_shifts, shifts_at, coins, nothing, no_coins, rollup_account, new_coins-int,
  new_coins-ok, mint-Shifts, pay-Shifts,
}
use monomer.Rollup.Deposits.{
  send_eth, transfer_eth, distribute_eth, mint_eth, mint_erc20, set_amount, big,
}
use monomer.Rollup.Abi.{get_erc20_denom}

module _ (S : Sdk) (L : IsLedger S) where
  no_part : (to a : Bytes) (d : String) (n : ℕ) → n ≡ 0 → part to (coins wei n) a d ≡ 0
  no_part to a d n h = ground (arith, h)

  send_eth-Shifts :
      (to : Bytes) (n : ℕ) (s : KeeperState S)
      → (send_eth S to n s).0 ≡ ok tt
      → Shifts S
          (part to (coins wei n))
          (part (rollup_account S L) (coins wei n))
          no_coins
          no_coins
          s
          (send_eth S to n s).1
  unfolding send_eth
  send_eth-Shifts to n s h =
      let (c, made, eq, sent) = ok_of_continue _ _ tt h in
      subst
        (λ x.
          Shifts S (part to x) (part (rollup_account S L) x) no_coins no_coins s
            (send_eth S to n s).1)
        (new_coins-int S L wei n c made)
        (shifts_at S (pay-Shifts S L to c s (ok_of_failing _ _ tt sent)) (ap (λ r. r.1) eq))

  transfer_eth-Shifts :
      (to : Bytes) (n : ℕ) (s : KeeperState S)
      → (transfer_eth S to n s).0 ≡ ok tt
      → Shifts S
          (part to (coins wei n))
          (part (rollup_account S L) (coins wei n))
          no_coins
          no_coins
          s
          (transfer_eth S to n s).1
  unfolding transfer_eth
  transfer_eth-Shifts to n s = go (n == 0) refl
    where
      go :
          (b : Bool)
          → (n == 0) ≡ b
          → (if b then (ok tt, s) else send_eth S to n s).0 ≡ ok tt
          → Shifts S
              (part to (coins wei n))
              (part (rollup_account S L) (coins wei n))
              no_coins
              no_coins
              s
              (if b then (ok tt, s) else send_eth S to n s).1
      go true e h = record {
        balances = λ a d. ground (
          arith,
          no_part to a d n ((==_iff n 0).0 e),
          no_part (rollup_account S L) a d n ((==_iff n 0).0 e),
        );
        supplies = λ d. refl;
      }
      go false e h = send_eth-Shifts to n s h

  -- The transfer of a deposit is the recipient's, the rest is the minter's.
  abbrev pub credit : Bytes → Bytes → ℕ → ℕ → Bytes → String → ℕ
  credit minter recipient minted t a d =
      part recipient (coins wei t) a d + part minter (coins wei (minted - t)) a d

  distribute_eth-Shifts :
      (ma ra : String) (minted t : ℕ) (s : KeeperState S) (e : Event)
      → (distribute_eth S ma ra minted t s).0 ≡ ok e
      → (minter : Bytes) × (recipient : Bytes) × (S.account_from_bech32 ma ≡ ok minter)
        × (S.account_from_bech32 ra ≡ ok recipient)
        × Shifts S
            (credit minter recipient minted t)
            (credit (rollup_account S L) (rollup_account S L) minted t)
            no_coins
            no_coins
            s
            (distribute_eth S ma ra minted t s).1
  unfolding distribute_eth
  distribute_eth-Shifts ma ra minted t s e h =
      let (recipient, read, eq1, h1) = ok_of_continue _ _ e h in
      let (done, paid1, eq2, h2) = ok_of_continue _ _ e h1 in
      let (minter, read', eq3, h3) = ok_of_continue _ _ e h2 in
      let (done', paid2, eq4, h4) = ok_of_continue _ _ e h3 in
      let (mint_hex, text, eq5, h5) = ok_of_continue _ _ e h4 in
      let (value_hex, text', eq6, h6) = ok_of_continue _ _ e h5 in
      let first = transfer_eth-Shifts recipient t s paid1 in
      let second = transfer_eth-Shifts minter (minted - t) _ paid2 in
      (
        minter,
        recipient,
        ok_of_failing _ _ minter read',
        ok_of_failing _ _ recipient read,
        shifts_at S (then_shifts S first second)
            (ap (λ r. r.1) (eq1 ∙ (eq2 ∙ (eq3 ∙ (eq4 ∙ (eq5 ∙ eq6)))))),
      )

  split_part :
      (x : Bytes) (minted t : ℕ) (a : Bytes) (d : String)
      → t ≤ minted
      → credit x x minted t a d ≡ part x (coins wei minted) a d
  split_part x minted t a d le = ground (arith, Bool-cases (bytes_eq x a && same_text wei d))

  -- The account of the module keeps none of the coins that it made.
  settle :
      (minted : ℕ) (minter recipient : Bytes) (t : ℕ) (c : Coins) (s s' : KeeperState S)
      → t ≤ minted
      → c ≡ coins wei minted
      → Shifts S
          (λ a d. part (rollup_account S L) c a d + credit minter recipient minted t a d)
          (λ a d. nothing a d + credit (rollup_account S L) (rollup_account S L) minted t a d)
          (λ d. coins_of c d + no_coins d)
          (λ d. no_coins d + no_coins d)
          s
          s'
      → Shifts S
          (credit minter recipient minted t)
          nothing
          (coins_of (coins wei minted))
          no_coins
          s
          s'
  settle minted minter recipient t c s s' le same p = record {
    balances = λ a d.
        let whole = split_part (rollup_account S L) minted t a d le in
        let these = ap (λ x. part (rollup_account S L) x a d) same in
        omega (arith, p.balances a d, whole, these);
    supplies = λ d. let these = ap (λ x. coins_of x d) same in omega (arith, p.supplies d, these);
  }

  set_amount-ok : (m : Option ℕ) (n : ℕ) → set_amount m ≡ ok n → m ≡ some n
  unfolding set_amount
  set_amount-ok none n h = cc
  set_amount-ok (some k) n h = ap some (ok_injective k n h)

  -- `mintETH` that succeeds makes what was minted, and all of it goes to the two accounts.
  pub mint_eth-Shifts :
      (ma ra : String) (m : Option ℕ) (t : ℕ) (s : KeeperState S) (e : Event)
      → (mint_eth S ma ra m t s).0 ≡ ok e
      → (minted : ℕ) × (minter : Bytes) × (recipient : Bytes) × (m ≡ some minted)
        × (t ≤ minted)
        × (S.account_from_bech32 ma ≡ ok minter)
        × (S.account_from_bech32 ra ≡ ok recipient)
        × Shifts S
            (credit minter recipient minted t)
            nothing
            (coins_of (coins wei minted))
            no_coins
            s
            (mint_eth S ma ra m t s).1
  unfolding mint_eth
  mint_eth-Shifts ma ra m t s e h =
      let (c, made, eq1, h1) = ok_of_continue _ _ e h in
      let (done, minted_coins, eq2, h2) = ok_of_continue _ _ e h1 in
      let (minted, amount, eq3, h3) = ok_of_continue _ _ e h2 in
      let (done', checked, eq4, h4) = ok_of_continue _ _ e h3 in
      let (minter, recipient, is_minter, is_recipient, shared) =
        distribute_eth-Shifts ma ra minted t _ e h4 in
      let is_some = set_amount-ok m minted amount in
      let same =
        new_coins-int S L wei minted c (ap (λ k. S.new_coins wei (big k)) (sym is_some) ∙ made) in
      let first = mint-Shifts S L c s (ok_of_failing _ _ tt minted_coins) in
      let le = enough minted t _ checked in
      (
        minted,
        minter,
        recipient,
        is_some,
        le,
        is_minter,
        is_recipient,
        shifts_at S (settle minted minter recipient t c s _ le same (then_shifts S first shared))
            (ap (λ r. r.1) (eq1 ∙ (eq2 ∙ (eq3 ∙ eq4)))),
      )

  settle_erc20 :
      (user : Bytes) (c : Coins) (denom : String) (s s' : KeeperState S)
      → c ≡ coins denom c.amount
      → Shifts S
          (λ a d. part (rollup_account S L) c a d + part user c a d)
          (λ a d. nothing a d + part (rollup_account S L) c a d)
          (λ d. coins_of c d + no_coins d)
          (λ d. no_coins d + no_coins d)
          s
          s'
      → Shifts S
          (part user (coins denom c.amount))
          nothing
          (coins_of (coins denom c.amount))
          no_coins
          s
          s'
  settle_erc20 user c denom s s' same p = record {
    balances =
        λ a d. let these = ap (λ x. part user x a d) same in omega (arith, p.balances a d, these);
    supplies = λ d. let these = ap (λ x. coins_of x d) same in omega (arith, p.supplies d, these);
  }

  -- `mintERC20` that succeeds makes its coins for the user, under the denomination of the token.
  pub mint_erc20-Shifts :
      (ua token : String) (amount : BigInt) (s : KeeperState S) (e : Event)
      → (mint_erc20 S ua token amount s).0 ≡ ok e
      → (denom : String) × (user : Bytes) × (n : ℕ) × (get_erc20_denom token ≡ ok denom)
        × (S.account_from_bech32 ua ≡ ok user)
        × (amount ≡ int n)
        × Shifts S
            (part user (coins denom n))
            nothing
            (coins_of (coins denom n))
            no_coins
            s
            (mint_erc20 S ua token amount s).1
  unfolding mint_erc20
  mint_erc20-Shifts ua token amount s e h =
      let (denom, named, eq1, h1) = ok_of_continue _ _ e h in
      let (c, made, eq2, h2) = ok_of_continue _ _ e h1 in
      let (done, minted, eq3, h3) = ok_of_continue _ _ e h2 in
      let (user, read, eq4, h4) = ok_of_continue _ _ e h3 in
      let (done', sent, eq5, h5) = ok_of_continue _ _ e h4 in
      let (value_hex, text, eq6, h6) = ok_of_continue _ _ e h5 in
      let (same, is_amount) = new_coins-ok S L denom amount c made in
      let first = mint-Shifts S L c s (ok_of_failing _ _ tt minted) in
      let second = pay-Shifts S L user c _ (ok_of_failing _ _ tt sent) in
      (
        denom,
        user,
        c.amount,
        named,
        ok_of_failing _ _ user read,
        is_amount,
        shifts_at S (settle_erc20 user c denom s _ same (then_shifts S first second))
            (ap (λ r. r.1) (eq1 ∙ (eq2 ∙ (eq3 ∙ (eq4 ∙ (eq5 ∙ eq6)))))),
      )
