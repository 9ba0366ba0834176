-- ===== src/Rollup/RoundTrip.antt =====
-- A bridged token that comes in by a deposit and goes out by a withdrawal.
use monomer.Prelude.{ℕ, ◌≡◌, ap, ◌∙◌, String, ok, arith}
use monomer.Bytes.{Bytes}
use monomer.Builder.Withdrawals.{Event}
use monomer.Rollup.Messages.{BigInt}
use monomer.Rollup.Sdk.{Sdk, IsLedger, part, coins_of}
use monomer.Rollup.Keeper.{KeeperState}
use monomer.Rollup.Books.{Shifts, coins, nothing, no_coins}
use monomer.Rollup.Deposits.{mint_erc20}
use monomer.Rollup.Deposits.Credits.{mint_erc20-Shifts}
use monomer.Rollup.Withdrawals.{burn_erc20}
use monomer.Rollup.Withdrawals.Burns.{burn_erc20-Shifts}

module _ (S : Sdk) (L : IsLedger S) where
  back :
      (user user' : Bytes) (denom denom' : String) (n n' : ℕ) (s s1 s2 : KeeperState S) (a : Bytes)
      (d : String)
      → user ≡ user'
      → denom ≡ denom'
      → n ≡ n'
      → Shifts S (part user (coins denom n)) nothing (coins_of (coins denom n)) no_coins s s1
      → Shifts S nothing (part user' (coins denom' n')) no_coins (coins_of (coins denom' n')) s1 s2
      → (S.balance a d s2.bank ≡ S.balance a d s.bank) × (S.supply d s2.bank ≡ S.supply d s.bank)
  back user user' denom denom' n n' s s1 s2 a d u e k p q =
      let parts =
        ap (λ x. part x (coins denom n) a d) u
        ∙ (ap (λ x. part user' (coins x n) a d) e ∙ ap (λ x. part user' (coins denom' x) a d) k) in
      let totals = ap (λ x. coins_of (coins x n) d) e ∙ ap (λ x. coins_of (coins denom' x) d) k in
      (
        omega (arith, p.balances a d, q.balances a d, parts),
        omega (arith, p.supplies d, q.supplies d, totals),
      )

  -- A token that is minted for an account and then burned out of it, in the same amount and under the same
  -- spelling of its address, leaves every balance and every supply as it was; if the bank keeps its books.
  pub burn_erc20-mint_erc20 :
      (ua token : String) (user : Bytes) (amount : BigInt) (s : KeeperState S) (e : Event)
      (a : Bytes) (d : String)
      → S.account_from_bech32 ua ≡ ok user
      → (mint_erc20 S ua token amount s).0 ≡ ok e
      → (burn_erc20 S user token amount (mint_erc20 S ua token amount s).1).0 ≡ ok tt
      → (S.balance a d (burn_erc20 S user token amount (mint_erc20 S ua token amount s).1).1.bank
          ≡ S.balance a d s.bank)
        × (S.supply d (burn_erc20 S user token amount (mint_erc20 S ua token amount s).1).1.bank
            ≡ S.supply d s.bank)
  burn_erc20-mint_erc20 ua token user amount s e a d reads minted burned =
      let (denom, user', n, named, reads', is_n, p) =
        mint_erc20-Shifts S L ua token amount s e minted in
      let (denom', n', named', is_n', q) = burn_erc20-Shifts S L user token amount _ burned in
      back user' user denom denom' n n' s _ _ a d (cc (reads, reads')) (cc (named, named'))
        (cc (is_n, is_n')) p q
