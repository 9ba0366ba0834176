-- ===== src/Rollup/Deposits/Applied.antt =====
-- What `ApplyUserDeposit` does to the books: every coin that it makes reaches an account of the deposit.
use monomer.Prelude.{
  Error, Bool, if◌then◌else◌, List, [], [], ℕ, ◌+◌, ◌≤◌, ◌≡◌, refl, ap, ◌∙◌, String, ok, err, arith,
  true, false, inl, inr, ok_of_failing, Option, some, none, ◌⊎◌, sym,
}
use monomer.Prelude.Stateful.{ok_of_continue}
use monomer.Bytes.{Bytes}
use monomer.Adapters.{L1BlockInfo}
use mathlib.Core.Path.{subst⁻¹}
use monomer.Builder.Withdrawals.{Event}
use monomer.Rollup.Messages.{Params}
use monomer.Rollup.Sdk.{Sdk, IsLedger, Coins, part, coins_of, Slice, Abi, DepositTx}
use monomer.Rollup.Keeper.{
  ok_of_wrap_error, get_params, get_l1_block_info, emit_events, KeeperState, wei,
}
use monomer.Rollup.Books.{Shifts, then_shifts, shifts_at, shifts_in, coins, nothing, no_coins}
use monomer.Rollup.Deposits.{
  L1BlockInfo, relayed_events, from_messenger, cross_domain_events, process_recipient,
  process_l1_user_deposit_txs, apply_user_deposit,
}
use monomer.Rollup.Deposits.Keeps.{mint_eth-Keeps}
use monomer.Rollup.Deposits.Credits.{credit, mint_eth-Shifts}
use monomer.Rollup.Deposits.Bridged.{
  Mints, Carries, Relayed, shifts_nothing, no_part, no_coins_of, cross_domain_message-Mints,
}

module _ (S : Sdk) (L : IsLedger S) (A : Abi) where
  module _ (T : DepositTx) where
    relayed_events-Mints :
        (input : Slice) (s : KeeperState S) (es : List Event)
        → (relayed_events S A T input s).0 ≡ ok es
        → Mints S L A (Relayed S L A input) s (relayed_events S A T input s).1
    unfolding relayed_events
    relayed_events-Mints input s es h =
        let (e, done, eq, h1) = ok_of_continue _ _ es h in
        let (who, c, is, p) =
          cross_domain_message-Mints S L A input s e (ok_of_wrap_error _ _ _ e done) in
        (who, c, is, shifts_at S p (ap (λ r. r.1) eq))

    -- The coins of the message where the deposit comes from the messenger, and none where it does not.
    abbrev pub Messaged : Bool → Option Slice → Bytes → Coins → Type 0
    Messaged from_it input who c =
        ((from_it ≡ true) × Carries S L A input who c) ⊎ ((from_it ≡ false) × (c.amount ≡ 0))

    -- The second mint of a deposit.
    cross_domain_events-Mints :
        (from : Bytes) (params : Params) (input : Option Slice) (s : KeeperState S)
        (es : List Event)
        → (cross_domain_events S A T from params input s).0 ≡ ok es
        → Mints S L A
            (Messaged (from_messenger S A T from params) input)
            s
            (cross_domain_events S A T from params input s).1
    unfolding cross_domain_events
    cross_domain_events-Mints from params none s es h =
        ([], coins wei 0, silent (from_messenger S A T from params), shifts_nothing S L A s)
      where
        silent : (b : Bool) → Messaged b none [] (coins wei 0)
        silent true = inl (refl, refl)
        silent false = inr (refl, refl)
    cross_domain_events-Mints from params (some input) s es h =
        go (from_messenger S A T from params) h
      where
        go :
            (b : Bool)
            → (if b then relayed_events S A T input s else (ok [], s)).0 ≡ ok es
            → Mints S L A
                (Messaged b (some input))
                s
                (if b then relayed_events S A T input s else (ok [], s)).1
        go true h =
            let (who, c, is, p) = relayed_events-Mints input s es h in (who, c, inl (refl, is), p)
        go false h = ([], coins wei 0, inr (refl, refl), shifts_nothing S L A s)

    -- What a deposit credits: the transfer and the rest of what is minted, and the coins of its cross domain
    -- message, if the messenger sent it.
    abbrev pub deposit_credit :
        Bytes → Params → Bytes → Bytes → ℕ → ℕ → Bytes → Coins → Bytes → String → ℕ
    deposit_credit from params minter recipient minted t who c a d =
        credit S L minter recipient minted t a d
        + (if from_messenger S A T from params then part who c a d else 0)

    abbrev pub deposit_made : Bytes → Params → ℕ → Coins → String → ℕ
    deposit_made from params minted c d =
        coins_of (coins wei minted) d
        + (if from_messenger S A T from params then coins_of c d else 0)

    -- The accounts and the amounts of a deposit that is applied.
    pub record Applied (tx : T.Tx) (to : Bytes) (s s' : KeeperState S) : Type 0 where
      pub info : L1BlockInfo
      pub params : Params
      pub from : Bytes
      pub mint_addr : String
      pub recipient_addr : String
      pub minter : Bytes
      pub recipient : Bytes
      pub minted : ℕ
      pub who : Bytes
      pub c : Coins
      pub is_info : get_l1_block_info S s.store ≡ ok info
      pub is_params : get_params S s.store ≡ ok params
      pub is_message : Messaged (from_messenger S A T from params) (T.tx_data tx) who c
      pub is_sender : T.sender info.number info.time tx ≡ ok from
      pub is_mint_addr : S.bech32_encode from ≡ ok mint_addr
      pub is_minter : S.account_from_bech32 mint_addr ≡ ok minter
      pub is_recipient_addr : S.bech32_encode to ≡ ok recipient_addr
      pub is_recipient : S.account_from_bech32 recipient_addr ≡ ok recipient
      pub is_minted : T.mint tx ≡ some minted
      pub covered : T.value tx ≤ minted
      pub books :
          Shifts S
            (deposit_credit from params minter recipient minted (T.value tx) who c)
            nothing
            (deposit_made from params minted c)
            no_coins
            s
            s'

    -- The second mint counts only where the messenger sent the deposit.
    with_message :
        (from : Bytes) (params : Params) (minter recipient : Bytes) (minted t : ℕ)
        (input : Option Slice) (who : Bytes) (c : Coins) (s s' : KeeperState S)
        → Messaged (from_messenger S A T from params) input who c
        → Shifts S
            (λ a d. credit S L minter recipient minted t a d + part who c a d)
            (λ a d. nothing a d + nothing a d)
            (λ d. coins_of (coins wei minted) d + coins_of c d)
            (λ d. no_coins d + no_coins d)
            s
            s'
        → Shifts S
            (deposit_credit from params minter recipient minted t who c)
            nothing
            (deposit_made from params minted c)
            no_coins
            s
            s'
    with_message from params minter recipient minted t input who c s s' (inl (e, is)) p = record {
      balances = λ a d. rw e (omega (arith, p.balances a d));
      supplies = λ d. rw e (omega (arith, p.supplies d));
    }
    with_message from params minter recipient minted t input who c s s' (inr (e, is)) p = record {
      balances = λ a d. rw e (omega (arith, p.balances a d, no_part S L A who c a d is));
      supplies = λ d. rw e (omega (arith, p.supplies d, no_coins_of S L A c d is));
    }

    process_recipient-Applied :
        (to : Bytes) (tx : T.Tx) (info : L1BlockInfo) (s : KeeperState S) (es : List Event)
        → get_l1_block_info S s.store ≡ ok info
        → (process_recipient S A T (some to) tx info s).0 ≡ ok es
        → Applied tx to s (process_recipient S A T (some to) tx info s).1
    unfolding process_recipient
    process_recipient-Applied to tx info s es stored h =
        let (from, sent, eq1, h1) = ok_of_continue _ _ es h in
        let (mint_addr, encoded, eq2, h2) = ok_of_continue _ _ es h1 in
        let (recipient_addr, encoded', eq3, h3) = ok_of_continue _ _ es h2 in
        let (event, minted_eth, eq4, h4) = ok_of_continue _ _ es h3 in
        let (params, read, eq5, h5) = ok_of_continue _ _ es h4 in
        let (more, relayed, eq6, h6) = ok_of_continue _ _ es h5 in
        let (minted, minter, recipient, is_minted, covered, is_minter, is_recipient, p) =
          mint_eth-Shifts S L mint_addr recipient_addr (T.mint tx) (T.value tx) s event
            (ok_of_wrap_error _ _ _ event minted_eth) in
        let (who, c, is, q) = cross_domain_events-Mints from params (T.tx_data tx) _ more relayed in
        record {
          info = info;
          params = params;
          from = from;
          mint_addr = mint_addr;
          recipient_addr = recipient_addr;
          minter = minter;
          recipient = recipient;
          minted = minted;
          who = who;
          c = c;
          is_info = stored;
          is_params =
              ap (get_params S)
                (sym (mint_eth-Keeps S mint_addr recipient_addr (T.mint tx) (T.value tx) s))
              ∙ ok_of_wrap_error _ _ _ params read;
          is_message = is;
          is_sender = ok_of_wrap_error _ _ _ from sent;
          is_mint_addr = ok_of_failing _ _ mint_addr encoded;
          is_minter = is_minter;
          is_recipient_addr = ok_of_failing _ _ recipient_addr encoded';
          is_recipient = is_recipient;
          is_minted = is_minted;
          covered = covered;
          books =
              with_message from params minter recipient minted (T.value tx) (T.tx_data tx) who c s _
                is
                (shifts_at S (then_shifts S p q)
                  (ap (λ r. r.1) (eq1 ∙ (eq2 ∙ (eq3 ∙ (eq4 ∙ (eq5 ∙ eq6)))))));
        }

    at_bank :
        {tx : T.Tx} {to : Bytes} {s t u : KeeperState S}
        → Applied tx to s t
        → u.bank ≡ t.bank
        → Applied tx to s u
    at_bank p e = record {
      info = p.info;
      params = p.params;
      from = p.from;
      mint_addr = p.mint_addr;
      recipient_addr = p.recipient_addr;
      minter = p.minter;
      recipient = p.recipient;
      minted = p.minted;
      who = p.who;
      c = p.c;
      is_info = p.is_info;
      is_params = p.is_params;
      is_message = p.is_message;
      is_sender = p.is_sender;
      is_mint_addr = p.is_mint_addr;
      is_minter = p.is_minter;
      is_recipient_addr = p.is_recipient_addr;
      is_recipient = p.is_recipient;
      is_minted = p.is_minted;
      covered = p.covered;
      books = shifts_in S p.books e;
    }

    process_deposit-Applied :
        (tx_bytes : Bytes) (info : L1BlockInfo) (s : KeeperState S) (es : List Event)
        → get_l1_block_info S s.store ≡ ok info
        → (process_l1_user_deposit_txs S A T tx_bytes info s).0 ≡ ok es
        → (tx : T.Tx) × (to : Bytes) × (T.unmarshal_binary tx_bytes ≡ ok tx)
          × (T.is_system_tx tx ≡ false)
          × (T.to_address tx ≡ some to)
          × Applied tx to s (process_l1_user_deposit_txs S A T tx_bytes info s).1
    unfolding process_l1_user_deposit_txs process_recipient
    process_deposit-Applied tx_bytes info s es stored h =
        let (tx, read, eq1, h1) = ok_of_continue _ _ es h in
        let (done, checked, eq2, h2) = ok_of_continue _ _ es h1 in
        let same = ap (λ r. r.1) (eq1 ∙ eq2) in
        let (to, is_to, p) = go tx info s es stored (T.to_address tx) refl h2 in
        (
          tx,
          to,
          ok_of_failing _ _ tx read,
          user_tx (T.is_system_tx tx) _ checked,
          is_to,
          subst⁻¹ (λ x. Applied tx to s x) same p,
        )
      where
        user_tx : (b : Bool) (e : Error) → (if b then err e else ok (tt {0})) ≡ ok tt → b ≡ false
        user_tx true e h = cc
        user_tx false e h = refl

        go :
            (tx : T.Tx) (info : L1BlockInfo) (s : KeeperState S) (es : List Event)
            → get_l1_block_info S s.store ≡ ok info
            → (o : Option Bytes) → T.to_address tx ≡ o
            → (process_recipient S A T o tx info s).0 ≡ ok es
            → (to : Bytes) × (T.to_address tx ≡ some to)
              × Applied tx to s (process_recipient S A T o tx info s).1
        go tx info s es stored none e h = cc
        go tx info s es stored (some to) e h =
            (to, e, process_recipient-Applied to tx info s es stored h)

    -- A deposit that `ApplyUserDeposit` accepts is no system transaction, has a recipient, mints an amount
    -- that is set and at least its value. Of the ETH that is made, the value goes to the recipient's
    -- account and the rest to the sender's, who is read with the stored L1 block info. Where the sender is
    -- the aliased messenger of the stored parameters, the message that it relays is carried out: ETH that
    -- is bridged is made for the account of its recipient, in the amount of the message, and so is a
    -- token, in the denomination of its L1 address; any other message, and any other sender, makes
    -- nothing more. No other account changes, that of the module included, and the supply grows by what
    -- is made; if the bank keeps its books.
    pub apply_user_deposit-Applied :
        (tx_bytes : Bytes) (s : KeeperState S)
        → (apply_user_deposit S A T tx_bytes s).0 ≡ ok tt
        → (tx : T.Tx) × (to : Bytes) × (T.unmarshal_binary tx_bytes ≡ ok tx)
          × (T.is_system_tx tx ≡ false)
          × (T.to_address tx ≡ some to)
          × Applied tx to s (apply_user_deposit S A T tx_bytes s).1
    unfolding apply_user_deposit emit_events
    apply_user_deposit-Applied tx_bytes s h =
        let (info, read, eq1, h1) = ok_of_continue _ _ tt h in
        let (es, applied, eq2, h2) = ok_of_continue _ _ tt h1 in
        let (tx, to, unmarshalled, user, is_to, p) =
          process_deposit-Applied tx_bytes info s es (ok_of_failing _ _ info read)
            (ok_of_wrap_error _ _ _ es applied) in
        (tx, to, unmarshalled, user, is_to, at_bank p (ap (λ r. r.1.bank) (eq1 ∙ eq2)))
