-- ===== src/Rollup/Deposits/Bridged.antt =====
-- Whom a message of the bridge is for, and what is made for its recipient.
use monomer.Prelude.{
  Bool, if◌then◌else◌, [], [], ℕ, ◌≡◌, refl, ap, ◌∙◌, String, ok, arith, true, false, ok_of_failing,
  Option, some, none, sym, some_injective,
}
use monomer.Prelude.Stateful.{ok_of_continue}
use monomer.Bytes.{bytes_eq, Bytes}
use monomer.Builder.Withdrawals.{Event}
use monomer.Rollup.Messages.{int}
use monomer.Rollup.Abi.{selector, unpack_inputs_into_interface, get_erc20_denom}
use monomer.Rollup.Sdk.{
  Sdk, IsLedger, Coins, part, coins_of, Slice, Abi, RelayMessageArgs, FinalizeBridgeEthArgs,
  FinalizeBridgeErc20Args,
}
use monomer.Rollup.Keeper.{KeeperState, Handler, wei}
use monomer.Rollup.Books.{Shifts, shifts_at, coins, nothing, no_coins}
use monomer.Rollup.Deposits.{
  answering, process_finalize_bridge_eth, process_finalize_bridge_erc20, process_bridge_message,
  process_cross_domain_message,
}
use monomer.Rollup.Deposits.Credits.{credit, mint_eth-Shifts, mint_erc20-Shifts}

module _ (S : Sdk) (L : IsLedger S) (A : Abi) where
  -- The account of an address on L1.
  abbrev pub AccountOf : Bytes → Bytes → Type 0
  AccountOf a who =
      (text : String) × (S.bech32_encode a ≡ ok text) × (S.account_from_bech32 text ≡ ok who)

  -- Whom the call of a bridge contract is for, and what: the recipient of the ETH, or of the token in the
  -- denomination of its address; a call of any other method is for nobody.
  pub data BridgedTo (id : Bytes) (message : Slice) (who : Bytes) (c : Coins) : Type 0 where
    bridged_eth :
        (args : FinalizeBridgeEthArgs)
        → bytes_eq id A.finalize_bridge_eth.id ≡ true
        → unpack_inputs_into_interface A.finalize_bridge_eth message ≡ ok args
        → AccountOf args.to_address who
        → c ≡ coins wei args.amount
        → BridgedTo id message who c
    bridged_erc20 :
        (args : FinalizeBridgeErc20Args) (denom : String) (n : ℕ)
        → bytes_eq id A.finalize_bridge_eth.id ≡ false
        → bytes_eq id A.finalize_bridge_erc20.id ≡ true
        → unpack_inputs_into_interface A.finalize_bridge_erc20 message ≡ ok args
        → AccountOf args.to_address who
        → get_erc20_denom (S.checksum_hex args.remote_token) ≡ ok denom
        → args.amount ≡ int n
        → c ≡ coins denom n
        → BridgedTo id message who c
    not_bridged :
        bytes_eq id A.finalize_bridge_eth.id ≡ false
        → bytes_eq id A.finalize_bridge_erc20.id ≡ false
        → c.amount ≡ 0
        → BridgedTo id message who c

  -- The message that the L1CrossDomainMessenger relays, and whom it is for.
  abbrev pub Relayed : Slice → Bytes → Coins → Type 0
  Relayed input who c =
      (args : RelayMessageArgs) × (id : Bytes) × (unpack_inputs_into_interface A.relay_message input
        ≡ ok args)
      × (selector args.message ≡ ok id)
      × BridgedTo id args.message who c

  -- What the data of a deposit says, which may be missing.
  abbrev pub Carries : Option Slice → Bytes → Coins → Type 0
  Carries none who c = c.amount ≡ 0
  Carries (some input) who c = Relayed input who c

  -- Coins are made for one account, and nothing else happens to the books.
  abbrev pub Mints : (Bytes → Coins → Type 0) → KeeperState S → KeeperState S → Type 0
  Mints P s s' =
      (who : Bytes) × (c : Coins) × P who c
      × Shifts S (part who c) nothing (coins_of c) no_coins s s'

  pub no_part :
      (who : Bytes) (c : Coins) (a : Bytes) (d : String) → c.amount ≡ 0 → part who c a d ≡ 0
  no_part who c a d h = ground (arith, h)

  pub no_coins_of : (c : Coins) (d : String) → c.amount ≡ 0 → coins_of c d ≡ 0
  no_coins_of c d h = ground (arith, h)

  pub shifts_nothing :
      (s : KeeperState S)
      → Shifts S (part [] (coins wei 0)) nothing (coins_of (coins wei 0)) no_coins s s
  shifts_nothing s = record { balances = λ a d. ground arith; supplies = λ d. ground arith }

  to_one :
      (minter recipient : Bytes) (minted t : ℕ) (s s' : KeeperState S)
      → minter ≡ recipient
      → t ≡ minted
      → Shifts S
          (credit S L minter recipient minted t)
          nothing
          (coins_of (coins wei minted))
          no_coins
          s
          s'
      → Shifts S
          (part minter (coins wei minted))
          nothing
          (coins_of (coins wei minted))
          no_coins
          s
          s'
  to_one minter recipient minted t s s' one all p = record {
    balances = λ a d. ground (arith, p.balances a d, ap (λ x. part x (coins wei t) a d) one, all);
    supplies = p.supplies;
  }

  finalize_eth-Mints :
      (id : Bytes) (message : Slice) (s : KeeperState S) (e : Event)
      → bytes_eq id A.finalize_bridge_eth.id ≡ true
      → (process_finalize_bridge_eth S A message s).0 ≡ ok e
      → Mints (BridgedTo id message) s (process_finalize_bridge_eth S A message s).1
  unfolding process_finalize_bridge_eth
  finalize_eth-Mints id message s e is_id h =
      let (args, unpacked, eq1, h1) = ok_of_continue _ _ e h in
      let (to, encoded, eq2, h2) = ok_of_continue _ _ e h1 in
      let (minted, minter, recipient, is_some, le, reads, reads', p) =
        mint_eth-Shifts S L to to (some args.amount) args.amount s e (ok_of_failing _ _ e h2) in
      let all : args.amount ≡ minted = some_injective args.amount minted is_some in
      (
        minter,
        coins wei minted,
        bridged_eth args is_id (ok_of_failing _ _ args unpacked)
            (to, ok_of_failing _ _ to encoded, reads) (ap (coins wei) (sym all)),
        shifts_at S (to_one minter recipient minted args.amount s _ (cc (reads, reads')) all p)
            (ap (λ r. r.1) (eq1 ∙ eq2)),
      )

  finalize_erc20-Mints :
      (id : Bytes) (message : Slice) (s : KeeperState S) (e : Event)
      → bytes_eq id A.finalize_bridge_eth.id ≡ false
      → bytes_eq id A.finalize_bridge_erc20.id ≡ true
      → (process_finalize_bridge_erc20 S A message s).0 ≡ ok e
      → Mints (BridgedTo id message) s (process_finalize_bridge_erc20 S A message s).1
  unfolding process_finalize_bridge_erc20
  finalize_erc20-Mints id message s e not_eth is_id h =
      let (args, unpacked, eq1, h1) = ok_of_continue _ _ e h in
      let (to, encoded, eq2, h2) = ok_of_continue _ _ e h1 in
      let (denom, user, n, named, reads, is_amount, p) =
        mint_erc20-Shifts S L to _ args.amount s e (ok_of_failing _ _ e h2) in
      (
        user,
        coins denom n,
        bridged_erc20 args denom n not_eth is_id (ok_of_failing _ _ args unpacked)
            (to, ok_of_failing _ _ to encoded, reads) named is_amount refl,
        shifts_at S p (ap (λ r. r.1) (eq1 ∙ eq2)),
      )

  answering-Mints :
      (P : Bytes → Coins → Type 0) (m : String) (step : Handler S Event) (s : KeeperState S)
      (o : Option Event)
      → ((e : Event) → (step s).0 ≡ ok e → Mints P s (step s).1)
      → (answering S A m step s).0 ≡ ok o
      → Mints P s (answering S A m step s).1
  answering-Mints P m step s o mints h =
      let (e, done, eq, h1) = ok_of_continue _ _ o h in
      let (who, c, is, p) = mints e (ok_of_failing m _ e done) in
      (who, c, is, shifts_at S p (ap (λ r. r.1) eq))

  if-Mints :
      {B : Type 0} (P : Bytes → Coins → Type 0) (b : Bool) (m n : Handler S B) (s : KeeperState S)
      (o : B)
      → (b ≡ true → (m s).0 ≡ ok o → Mints P s (m s).1)
      → (b ≡ false → (n s).0 ≡ ok o → Mints P s (n s).1)
      → (if b then m s else n s).0 ≡ ok o
      → Mints P s (if b then m s else n s).1
  if-Mints P true m n s o f g h = f refl h
  if-Mints P false m n s o f g h = g refl h

  bridge_message-Mints :
      (id : Bytes) (message : Slice) (s : KeeperState S) (o : Option Event)
      → (process_bridge_message S A id message s).0 ≡ ok o
      → Mints (BridgedTo id message) s (process_bridge_message S A id message s).1
  unfolding process_bridge_message
  bridge_message-Mints id message s o =
      if-Mints (BridgedTo id message) _ eth
        (λ s. if bytes_eq id A.finalize_bridge_erc20.id then erc20 s else (ok none, s)) s o
        (λ is_eth.
          answering-Mints _ _ (process_finalize_bridge_eth S A message) s o
            (λ e. finalize_eth-Mints id message s e is_eth))
        (λ not_eth.
          if-Mints (BridgedTo id message) _ erc20 (λ s. (ok none, s)) s o
            (λ is_erc20.
              answering-Mints _ _ (process_finalize_bridge_erc20 S A message) s o
                (λ e. finalize_erc20-Mints id message s e not_eth is_erc20))
            (λ not_erc20 h.
              ([], coins wei 0, not_bridged not_eth not_erc20 refl, shifts_nothing s)))
    where
      eth : Handler S (Option Event)
      eth =
          answering S A "failed to process finalizeBridgeETH method"
            (process_finalize_bridge_eth S A message)

      erc20 : Handler S (Option Event)
      erc20 =
          answering S A "failed to process finalizeBridgeERC20 method"
            (process_finalize_bridge_erc20 S A message)

  pub cross_domain_message-Mints :
      (input : Slice) (s : KeeperState S) (o : Option Event)
      → (process_cross_domain_message S A input s).0 ≡ ok o
      → Mints (Relayed input) s (process_cross_domain_message S A input s).1
  unfolding process_cross_domain_message
  cross_domain_message-Mints input s o h =
      let (args, unpacked, eq1, h1) = ok_of_continue _ _ o h in
      let (id, selected, eq2, h2) = ok_of_continue _ _ o h1 in
      let (who, c, is, p) = bridge_message-Mints id args.message s o h2 in
      (
        who,
        c,
        (args, id, ok_of_failing _ _ args unpacked, selected, is),
        shifts_at S p (ap (λ r. r.1) (eq1 ∙ eq2)),
      )
