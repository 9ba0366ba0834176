-- ===== src/Rollup/Deposits/Keeps.antt =====
-- Minting ETH leaves the store of the module alone.
use monomer.Prelude.{
  ℕ, ◌≡◌, refl, ◌∙◌, ◌-◌, Bool, true, false, Option, String, ◌==◌, Result, ok, if◌then◌else◌,
}
use monomer.Prelude.Stateful.{keeps_on, continue, Keeps}
use monomer.Bytes.{Bytes}
use monomer.Rollup.Sdk.{Sdk}
use monomer.Rollup.Keeper.{KeeperState, Handler}
use monomer.Rollup.Deposits.{send_eth, transfer_eth, distribute_eth, mint_eth}

module _ (S : Sdk) where
  abbrev store : KeeperState S → S.Store
  store k = k.store

  then_keeps :
      {A B : Type 0} (t : S.Store) (p : Result A × KeeperState S) (f : A → Handler S B)
      → store p.1 ≡ t
      → ((a : A) (s : KeeperState S) → store s ≡ t → store (f a s).1 ≡ t)
      → store (continue p f).1 ≡ t
  then_keeps = keeps_on store

  transfer_eth-Keeps : (to : Bytes) (n : ℕ) → Keeps store (transfer_eth S to n)
  unfolding transfer_eth send_eth
  transfer_eth-Keeps to n s = go (n == 0)
    where
      go : (b : Bool) → store (if b then (ok tt, s) else send_eth S to n s).1 ≡ store s
      go true = refl
      go false = then_keeps (store s) _ _ refl (λ c s1 e1. e1)

  distribute_eth-Keeps :
      (ma ra : String) (minted t : ℕ) → Keeps store (distribute_eth S ma ra minted t)
  unfolding distribute_eth
  distribute_eth-Keeps ma ra minted t s = then_keeps (store s) _ _ refl (λ recipient s1 e1.
      then_keeps (store s) _ _ (transfer_eth-Keeps recipient t s1 ∙ e1) (λ _ s2 e2.
        then_keeps (store s) _ _ e2 (λ minter s3 e3.
          then_keeps (store s) _ _ (transfer_eth-Keeps minter (minted - t) s3 ∙ e3) (λ _ s4 e4.
            then_keeps (store s) _ _ e4 (λ _ s5 e5. then_keeps (store s) _ _ e5 (λ _ s6 e6. e6))))))

  pub mint_eth-Keeps : (ma ra : String) (m : Option ℕ) (t : ℕ) → Keeps store (mint_eth S ma ra m t)
  unfolding mint_eth
  mint_eth-Keeps ma ra m t s = then_keeps (store s) _ _ refl (λ c s1 e1.
      then_keeps (store s) _ _ e1 (λ _ s2 e2. then_keeps (store s) _ _ e2 (λ minted s3 e3.
        then_keeps (store s) _ _ e3 (λ _ s4 e4. distribute_eth-Keeps ma ra minted t s4 ∙ e4))))
