-- ===== src/Evm/Provider.antt =====
-- The contract that keeps the root of the application, and what withdrawals in the EVM do to it: nothing.
use monomer.Prelude.{
  ℕ, ◌≤◌, ◌≡◌, refl, ap, sym, ◌∙◌, String, List, [], ◌∷◌, length, Result, ok, err, panic, failing,
  ok_of_bind, ok_of_failing, ok_injective, suc, Option, none, some, ◌==◌, ok_of_if, inl, inr,
}
use mathlib.Core.Path.{subst}
use monomer.Prelude.Stateful.{holds_on}
use monomer.Bytes.{Bytes}
use monomer.Block.{Header}
use monomer.Builder.Withdrawals.{
  Formats, Withdrawal, ExecTxResult, Event, is_withdrawal_type, find_event, append_attribute,
  nonce_attribute, parse_withdrawal_event_attributes, initiate_found, store_withdrawal_msg_in_evm,
  store_withdrawals, parse_withdrawal_messages,
}
use monomer.Builder.Results.{index_results}
use monomer.Builder.World.{TxResult}
use monomer.Evm.{
  Geth, hash, EvmConfig, ContractExecuter, new_evm, new_contract_executer, call_contract,
  initiate_withdrawal, get_call_params, get_message_nonce,
}
use monomer.Evm.Interface.{Chain, geth_evm, state_after}

module _ (G : Geth) (H : Chain G) where
  -- What go-ethereum does with the contract L2ApplicationStateRootProvider: it packs and unpacks roots, of
  -- 32 bytes; where the codes of both contracts are in the state, a call of the one function that succeeds
  -- stores a root, and a call of the other, with gas enough and no value, returns the stored one. Calls of the
  -- two contracts leave their codes alone, and calls of L2ToL1MessagePasser leave the root alone.
  pub record IsRootProvider (abi : G.Abi) : Type 0 where
    pub code_at : Bytes → G.State → Bytes
    pub provider_code : Bytes
    pub passer_code : Bytes
    pub root : G.State → Bytes
    pub set_input : Bytes → Bytes
    pub get_input : Bytes
    pub gas_needed : ℕ
    pub root_sized : (s : G.State) → length (root s) ≡ 32
    pub affordable : gas_needed ≤ 100000000
    pub packs_set :
        (r : Bytes)
        → length r ≡ 32
        → G.pack abi "setL2ApplicationStateRoot" (hash r ∷ []) ≡ ok (set_input r)
    pub packs_get : G.pack abi "l2ApplicationStateRoot" [] ≡ ok get_input
    pub unpacks : (r : Bytes) → length r ≡ 32 → G.unpack_hash abi "l2ApplicationStateRoot" r ≡ ok r
    pub stores :
        (header : Header) (from r : Bytes) (gas : ℕ) (s s' : G.State) (out : Bytes)
        → code_at H.root_provider_addr s ≡ provider_code
        → length r ≡ 32
        → G.call (new_evm header) from H.root_provider_addr (set_input r) gas 0 s ≡ (ok out, s')
        → root s' ≡ r
    pub returns :
        (header : Header) (from : Bytes) (gas : ℕ) (s : G.State)
        → code_at H.root_provider_addr s ≡ provider_code
        → gas_needed ≤ gas
        → (G.call (new_evm header) from H.root_provider_addr get_input gas 0 s).0 ≡ ok (root s)
    pub keeps_provider :
        (header : Header) (from input : Bytes) (gas value : ℕ) (s : G.State)
        → code_at H.root_provider_addr s ≡ provider_code
        → code_at H.message_passer_addr s ≡ passer_code
        → (code_at H.root_provider_addr
              (G.call (new_evm header) from H.root_provider_addr input gas value s).1
            ≡ provider_code)
          × (code_at H.message_passer_addr
                (G.call (new_evm header) from H.root_provider_addr input gas value s).1
              ≡ passer_code)
    pub spares :
        (header : Header) (from input : Bytes) (gas value : ℕ) (s : G.State)
        → code_at H.root_provider_addr s ≡ provider_code
        → code_at H.message_passer_addr s ≡ passer_code
        → (code_at H.root_provider_addr
              (G.call (new_evm header) from H.message_passer_addr input gas value s).1
            ≡ provider_code)
          × (code_at H.message_passer_addr
                (G.call (new_evm header) from H.message_passer_addr input gas value s).1
              ≡ passer_code)
          × (root (G.call (new_evm header) from H.message_passer_addr input gas value s).1 ≡ root s)

  module _ (abi : G.Abi) (L : IsRootProvider abi) where
    -- The codes of both contracts are in the state.
    abbrev pub Deployed : G.State → Type 0
    Deployed s =
        (L.code_at H.root_provider_addr s ≡ L.provider_code)
        × (L.code_at H.message_passer_addr s ≡ L.passer_code)

    -- And the contract has the root `r`.
    abbrev pub Has : Bytes → G.State → Type 0
    Has r s = Deployed s × (L.root s ≡ r)

    pub state_after-ok {κ} :
        {A : Type κ} (p : Result A × G.State) (s : G.State) → state_after p ≡ ok s → p.1 ≡ s
    state_after-ok (ok a, t) s h = ok_injective t s h
    state_after-ok (err e, t) s h = cc
    state_after-ok (panic m, t) s h = cc

    fields-parsed :
        (c : EvmConfig) (json : String) (addr : Bytes) (e : ContractExecuter G) (p : Result G.Abi)
        → G.parse_abi json ≡ p
        → new_contract_executer G c json addr ≡ ok e
        → (e.evm ≡ c) × (e.contract_addr ≡ addr)
    unfolding new_contract_executer
    fields-parsed c json addr e (ok a) q h =
        let made : new_contract_executer G c json addr
            ≡ ok (record { abi = a; evm = c; contract_addr = addr }) =
          rw (q, new_contract_executer) refl in
        let same = ok_injective e _ (sym h ∙ made) in
        (ap (λ x. x.evm) same, ap (λ x. x.contract_addr) same)
    fields-parsed c json addr e (err m) q h =
        let made : new_contract_executer G c json addr ≡ err m =
          rw (q, new_contract_executer) refl in
        cc
    fields-parsed c json addr e (panic m) q h =
        let made : new_contract_executer G c json addr ≡ panic m =
          rw (q, new_contract_executer) refl in
        cc

    pub new_contract_executer-fields :
        (c : EvmConfig) (json : String) (addr : Bytes) (e : ContractExecuter G)
        → new_contract_executer G c json addr ≡ ok e
        → (e.evm ≡ c) × (e.contract_addr ≡ addr)
    new_contract_executer-fields c json addr e h =
        fields-parsed c json addr e (G.parse_abi json) refl h

    called-Has :
        (header : Header) (from input : Bytes) (gas value : ℕ) (s : G.State) (r : Bytes)
        → Has r s
        → Has r (G.call (new_evm header) from H.message_passer_addr input gas value s).1
    called-Has header from input gas value s r ((d, d'), e) =
        let (c, c', kept) = L.spares header from input gas value s d d' in ((c, c'), kept ∙ e)

    initiate_withdrawal-Has :
        (header : Header) (x : ContractExecuter G) (w : Withdrawal) (s s' : G.State) (r : Bytes)
        → x.evm ≡ new_evm header
        → x.contract_addr ≡ H.message_passer_addr
        → state_after (initiate_withdrawal G x w s) ≡ ok s'
        → Has r s
        → Has r s'
    unfolding initiate_withdrawal call_contract get_call_params
    initiate_withdrawal-Has header x w s s' r evm addr h has =
        subst (Has r) (state_after-ok _ s' h) (
          holds_on (Has r) _ _ has (λ input packed.
            holds_on (Has r) _ _ (rw (evm, addr) (called-Has header _ input _ _ s r has))
              (λ out ran. rw (evm, addr) (called-Has header _ input _ _ s r has))))

    module _ (F : Formats) (header : Header) where
      initiate_found-Has :
          (o : Option Event) (x : ContractExecuter G) (nonce : ℕ) (q q' : ExecTxResult)
          (s s' : G.State) (r : Bytes)
          → x.evm ≡ new_evm header
          → x.contract_addr ≡ H.message_passer_addr
          → initiate_found F (geth_evm G H) header o x nonce q s ≡ ok (q', s')
          → Has r s
          → Has r s'
      unfolding initiate_found
      initiate_found-Has none x nonce q q' s s' r evm addr h has = cc
      initiate_found-Has (some event) x nonce q q' s s' r evm addr h has =
          let (w, parsed, h1) =
            ok_of_bind
              (failing "parse withdrawal attributes" (parse_withdrawal_event_attributes F event)) _
              (q', s') h in
          let (t, sent, h2) =
            ok_of_bind (failing "initiate withdrawal" (state_after (initiate_withdrawal G x w s)))
              (λ t. ok (
                record q {
                  events =
                      append_attribute (nonce_attribute F (geth_evm G H) header nonce) q.events;
                },
                t,
              ))
              (q', s') h1 in
          subst (Has r)
            (ap (λ u. u.1)
              (ok_injective
                (
                  record q {
                    events =
                        append_attribute (nonce_attribute F (geth_evm G H) header nonce) q.events;
                  },
                  t,
                )
                (q', s') h2))
            (initiate_withdrawal-Has header x w s t r evm addr
              (ok_of_failing "initiate withdrawal" _ t sent) has)

      store_withdrawal_msg-Has :
          (q q' : ExecTxResult) (s s' : G.State) (r : Bytes)
          → store_withdrawal_msg_in_evm F (geth_evm G H) header q s ≡ ok (q', s')
          → Has r s
          → Has r s'
      unfolding store_withdrawal_msg_in_evm
      store_withdrawal_msg-Has q q' s s' r h has =
          let (x, made, h2) = ok_of_bind _ _ (q', s') h in
          let (evm, addr) =
            new_contract_executer-fields (new_evm header) H.message_passer_abi H.message_passer_addr
              x (ok_of_failing _ _ x made) in
          let (nonce, told, h3) =
            ok_of_bind (failing "get message nonce" (get_message_nonce G x s).0) _ (q', s') h2 in
          initiate_found-Has (find_event q.events) x nonce q q' s s' r evm addr h3 has

      store_withdrawals-Has :
          (urls : List String) (q q' : ExecTxResult) (s s' : G.State) (r : Bytes)
          → store_withdrawals F (geth_evm G H) header urls q s ≡ ok (q', s')
          → Has r s
          → Has r s'
      unfolding store_withdrawals
      store_withdrawals-Has [] q q' s s' r h has =
          subst (Has r) (ap (λ u. u.1) (ok_injective _ (q', s') h)) has
      store_withdrawals-Has (url ∷ urls) q q' s s' r h has =
          elim (ok_of_if (is_withdrawal_type url) _ _ (q', s') h) [
            | inl (is, h) ↦
                let ((q1, t), one, h1) =
                  ok_of_bind
                    (failing "store withdrawal msg in EVM"
                      (store_withdrawal_msg_in_evm F (geth_evm G H) header q s))
                    _ (q', s') h in
                store_withdrawals-Has urls q1 q' t s' r h1 (
                  store_withdrawal_msg-Has q q1 s t r
                    (ok_of_failing "store withdrawal msg in EVM" _ (q1, t) one) has)
            | inr (other, h) ↦ store_withdrawals-Has urls q q' s s' r h has
          ]

      decoded-Has :
          (p : Result (List String)) (q q' : ExecTxResult) (s s' : G.State) (r : Bytes)
          → (elim p [
            | ok urls ↦ store_withdrawals F (geth_evm G H) header urls q s
            | err e ↦ ok (q, s)
            | panic m ↦ panic m
          ])
            ≡ ok (q', s')
          → Has r s
          → Has r s'
      decoded-Has (ok urls) q q' s s' r h has = store_withdrawals-Has urls q q' s s' r h has
      decoded-Has (err e) q q' s s' r h has =
          subst (Has r) (ap (λ u. u.1) (ok_injective (q, s) (q', s') h)) has
      decoded-Has (panic m) q q' s s' r h has = cc

      parse_withdrawal_messages-Has :
          (tx : Bytes) (q q' : ExecTxResult) (s s' : G.State) (r : Bytes)
          → parse_withdrawal_messages F (geth_evm G H) header tx q s ≡ ok (q', s')
          → Has r s
          → Has r s'
      unfolding parse_withdrawal_messages
      parse_withdrawal_messages-Has tx q q' s s' r h has =
          elim (ok_of_if (q.code == 0) _ _ (q', s') h) [
            | inl (is, h) ↦ decoded-Has (F.message_types tx) q q' s s' r h has
            | inr (other, h) ↦ subst (Has r) (ap (λ u. u.1) (ok_injective (q, s) (q', s') h)) has
          ]

      -- The withdrawals of a block leave the root as it is.
      pub index_results-Has :
          (i : ℕ) (txs : List Bytes) (results : List ExecTxResult) (s s' : G.State)
          (done : List TxResult) (r : Bytes)
          → index_results F (geth_evm G H) header i txs results s ≡ ok (done, s')
          → Has r s
          → Has r s'
      unfolding index_results
      index_results-Has i txs [] s s' done r h has =
          subst (Has r) (ap (λ u. u.1) (ok_injective _ (done, s') h)) has
      index_results-Has i [] (q ∷ qs) s s' done r h has = cc
      index_results-Has i (tx ∷ txs) (q ∷ qs) s s' done r h has =
          let ((q', t), ran, h1) = ok_of_bind _ _ (done, s') h in
          let ((rest, t'), others, h2) = ok_of_bind _ _ (done, s') h1 in
          subst (Has r) (ap (λ u. u.1) (ok_injective _ (done, s') h2)) (
            index_results-Has (suc i) txs qs t t' rest r others
              (parse_withdrawal_messages-Has tx q q' s t r (ok_of_failing _ _ (q', t) ran) has))
