-- ===== src/Rollup/Books.antt =====
-- What the calls of the bank in x/rollup/keeper do to the books: who gains, who loses, and what is made or
-- destroyed.
use monomer.Prelude.{
  ok_of_if, if◌then◌else◌, ◌≤◌, Error, Error, ℕ, ◌+◌, ◌≡◌, refl, ap, ◌∙◌, String, ok, err, arith,
  inl, inr, ltb,
}
use mathlib.Core.Path.{subst⁻¹}
use monomer.Bytes.{Bytes}
use monomer.Rollup.Messages.{BigInt, int}
use monomer.Rollup.Sdk.{Sdk, IsLedger, Coins, part, coins_of}
use monomer.Rollup.Keeper.{KeeperState, module_name}

abbrev pub coins : String → ℕ → Coins
coins d n = record { denom = d; amount = n }

abbrev pub nothing : Bytes → String → ℕ
nothing a d = 0

abbrev pub no_coins : String → ℕ
no_coins d = 0

-- A guard that let an amount pass.
pub enough :
    (minted t : ℕ) (e : Error) → (if ltb minted t then err e else ok (tt {0})) ≡ ok tt → t ≤ minted
enough minted t e h = elim (ok_of_if (ltb minted t) (err e) (ok (tt {0})) tt h) [
  | inl (over, bad) ↦ cc
  | inr (less, done) ↦ ground (arith, less)
]

module _ (S : Sdk) where
  -- Between two states every account gains and loses what is given, and so does the supply.
  pub record Shifts (gain loss : Bytes → String → ℕ) (made gone : String → ℕ) (s s' : KeeperState S)
      : Type 0 where
    pub balances :
        (a : Bytes) (d : String)
        → S.balance a d s'.bank + loss a d ≡ S.balance a d s.bank + gain a d
    pub supplies : (d : String) → S.supply d s'.bank + gone d ≡ S.supply d s.bank + made d

  pub unchanged : (s : KeeperState S) → Shifts nothing nothing no_coins no_coins s s
  unchanged s = record { balances = λ a d. refl; supplies = λ d. refl }

  pub then_shifts :
      {g l g' l' : Bytes → String → ℕ} {m n m' n' : String → ℕ} {s s1 s2 : KeeperState S}
      → Shifts g l m n s s1
      → Shifts g' l' m' n' s1 s2
      → Shifts
          (λ a d. g a d + g' a d)
          (λ a d. l a d + l' a d)
          (λ d. m d + m' d)
          (λ d. n d + n' d)
          s
          s2
  then_shifts p q = record {
    balances = λ a d. omega (arith, p.balances a d, q.balances a d);
    supplies = λ d. omega (arith, p.supplies d, q.supplies d);
  }

  -- The books of a state, read at an equal one.
  pub shifts_at :
      {g l : Bytes → String → ℕ} {m n : String → ℕ} {s t u : KeeperState S}
      → Shifts g l m n s t
      → u ≡ t
      → Shifts g l m n s u
  shifts_at {g} {l} {m} {n} {s} p e = subst⁻¹ (λ x. Shifts g l m n s x) e p

  -- Only the bank counts.
  pub shifts_in :
      {g l : Bytes → String → ℕ} {m n : String → ℕ} {s t u : KeeperState S}
      → Shifts g l m n s t
      → u.bank ≡ t.bank
      → Shifts g l m n s u
  shifts_in p e = record {
    balances = λ a d. omega (arith, p.balances a d, ap (S.balance a d) e);
    supplies = λ d. omega (arith, p.supplies d, ap (S.supply d) e);
  }

  abbrev pub paid : KeeperState S → S.Bank → KeeperState S
  paid s b = record s { bank = b }

  module _ (L : IsLedger S) where
    abbrev pub rollup_account : Bytes
    rollup_account = L.module_account module_name

    -- Coins that were made are the ones asked for.
    pub new_coins-ok :
        (d : String) (i : BigInt) (c : Coins)
        → S.new_coins d i ≡ ok c
        → (c ≡ coins d c.amount) × (i ≡ int c.amount)
    new_coins-ok d i c h =
        let (e, f) = L.new_coins_amount d i c h in
        (λ k. record { denom = e k; amount = c.amount }, f)

    pub new_coins-int :
        (d : String) (n : ℕ) (c : Coins) → S.new_coins d (int n) ≡ ok c → c ≡ coins d n
    new_coins-int d n c h = let (e, f) = new_coins-ok d (int n) c h in e ∙ ap (coins d) (cc f)

    pub mint-Shifts :
        (c : Coins) (s : KeeperState S)
        → (S.mint_coins module_name c s.bank).0 ≡ ok tt
        → Shifts
            (part rollup_account c)
            nothing
            (coins_of c)
            no_coins
            s
            (paid s (S.mint_coins module_name c s.bank).1)
    mint-Shifts c s h =
        let (b, u) = L.mints module_name c s.bank h in
        record { balances = λ a d. omega (arith, b a d); supplies = λ d. omega (arith, u d) }

    pub burn-Shifts :
        (c : Coins) (s : KeeperState S)
        → (S.burn_coins module_name c s.bank).0 ≡ ok tt
        → Shifts nothing
            (part rollup_account c)
            no_coins
            (coins_of c)
            s
            (paid s (S.burn_coins module_name c s.bank).1)
    burn-Shifts c s h =
        let (b, u) = L.burns module_name c s.bank h in
        record { balances = λ a d. omega (arith, b a d); supplies = λ d. omega (arith, u d) }

    pub pay-Shifts :
        (to : Bytes) (c : Coins) (s : KeeperState S)
        → (S.module_to_account module_name to c s.bank).0 ≡ ok tt
        → Shifts
            (part to c)
            (part rollup_account c)
            no_coins
            no_coins
            s
            (paid s (S.module_to_account module_name to c s.bank).1)
    pay-Shifts to c s h =
        let (b, u) = L.pays module_name to c s.bank h in
        record { balances = λ a d. omega (arith, b a d); supplies = λ d. omega (arith, u d) }

    pub collect-Shifts :
        (from : Bytes) (c : Coins) (s : KeeperState S)
        → (S.account_to_module from module_name c s.bank).0 ≡ ok tt
        → Shifts
            (part rollup_account c)
            (part from c)
            no_coins
            no_coins
            s
            (paid s (S.account_to_module from module_name c s.bank).1)
    collect-Shifts from c s h =
        let (b, u) = L.collects from module_name c s.bank h in
        record { balances = λ a d. omega (arith, b a d); supplies = λ d. omega (arith, u d) }

    pub move-Shifts :
        (m : String) (c : Coins) (s : KeeperState S)
        → (S.module_to_module m module_name c s.bank).0 ≡ ok tt
        → Shifts
            (part rollup_account c)
            (part (L.module_account m) c)
            no_coins
            no_coins
            s
            (paid s (S.module_to_module m module_name c s.bank).1)
    move-Shifts m c s h =
        let (b, u) = L.moves m module_name c s.bank h in
        record { balances = λ a d. omega (arith, b a d); supplies = λ d. omega (arith, u d) }
