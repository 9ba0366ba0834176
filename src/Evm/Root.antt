-- ===== src/Evm/Root.antt =====
-- The root of the application, as the EVM state of a block keeps it.
use mathlib.Core.Path.{subst}
use monomer.Prelude.{
  arith, ℕ, zero, suc, ◌-◌, ◌≡◌, refl, ap, sym, ◌∙◌, String, List, length, length-append, Result,
  ok, err, panic, ok_of_failing, ok_injective, failing, ◌>>=◌,
}
use monomer.Prelude.Stateful.{Step, continue, continue_ok}
use monomer.Builder.Build.{failing_at}
use monomer.Builder.Results.{index_results}
use monomer.Builder.World.{TxResult}
use monomer.Bytes.{Bytes}
use monomer.Block.{Header, zeros}
use monomer.Comet.Api.{bytes_to_hash}
use monomer.Comet.Paginate.{drop, length-drop}
use monomer.Builder.Withdrawals.{ExecTxResult, Formats, store_app_hash_in_evm}
use monomer.Evm.{
  Geth, ContractExecuter, evm_tx_origin_address, new_evm, new_contract_executer, get_call_params,
  call_contract, plain_call, get_l2_application_state_root, set_l2_application_state_root,
}
use monomer.Evm.Interface.{Chain, geth_evm, state_after}
use monomer.Evm.Provider.{IsRootProvider, Deployed, Has, index_results-Has}

-- `common.BytesToHash` makes 32 bytes.
length-zeros : (n : ℕ) → length (zeros n) ≡ n
length-zeros zero = refl
length-zeros (suc n) = ap suc (length-zeros n)

pub length-bytes_to_hash : (b : Bytes) → length (bytes_to_hash b) ≡ 32
unfolding bytes_to_hash
length-bytes_to_hash b = omega (
  arith,
  length-append (zeros (32 - length b)) (drop (length b - 32) b),
  length-zeros (32 - length b),
  length-drop (length b - 32) b,
)

module _ (G : Geth) (H : Chain G) (abi : G.Abi) (parsed : G.parse_abi H.root_provider_abi ≡ ok abi)
    (L : IsRootProvider G H abi) where
  abbrev executer : Header → ContractExecuter G
  executer h = record { abi = abi; evm = new_evm h; contract_addr = H.root_provider_addr }

  abbrev done : Bytes → Step G.State (Unit {0})
  done out s = (ok tt, s)

  called :
      (m : String) (p : Result Bytes × G.State) (out : Bytes) (s' : G.State)
      → failing_at m (λ _. p) s' ≡ (ok out, s')
      → p ≡ (ok out, s')
  called m (ok x, t) out s' h = h
  called m (err x, t) out s' h = cc
  called m (panic x, t) out s' h = cc

  answered :
      (m : String) (p : Result Bytes × G.State) (s' : G.State)
      → state_after (continue (failing m p.0, p.1) done) ≡ ok s'
      → (out : Bytes) × (p ≡ (ok out, s'))
  unfolding continue
  answered m (ok x, t) s' h = (x, ap (λ u. (ok x, u)) (ok_injective t s' h))
  answered m (err x, t) s' h = cc
  answered m (panic x, t) s' h = cc

  call_ok :
      (header : Header) (input : Bytes) (s s' : G.State) (out : Bytes)
      → call_contract G (executer header) (plain_call input) s ≡ (ok out, s')
      → G.call
          (new_evm header)
          evm_tx_origin_address
          H.root_provider_addr
          input
          (new_evm header).gas_limit
          0
          s
        ≡ (ok out, s')
  unfolding call_contract get_call_params
  call_ok header input s s' out h = called "call contract" _ out s' h

  set-root :
      (header : Header) (r : Bytes) (s s' : G.State)
      → length r ≡ 32
      → Deployed G H abi L s
      → state_after (set_l2_application_state_root G (executer header) r s) ≡ ok s'
      → Has G H abi L r s'
  unfolding set_l2_application_state_root
  set-root header r s s' sized deployed h =
      let sent =
        continue_ok _ _ (L.set_input r)
          (ap (failing "create setL2ApplicationStateRoot data") (L.packs_set r sized)) in
      let (out, ran) =
        answered "call setL2ApplicationStateRoot" _ s' (ap state_after (sym sent) ∙ h) in
      let call = call_ok header (L.set_input r) s s' out ran in
      (
        subst (Deployed G H abi L) (ap (λ x. x.1) call) (
            L.keeps_provider header evm_tx_origin_address (L.set_input r) _ 0 s deployed.0
              deployed.1),
        L.stores header evm_tx_origin_address r _ s s' out deployed.0 sized call,
      )

  get-root :
      (header : Header) (s : G.State)
      → Deployed G H abi L s
      → (get_l2_application_state_root G (executer header) s).0 ≡ ok (L.root s)
  unfolding get_l2_application_state_root call_contract get_call_params new_evm
  get-root header s deployed =
      let sent =
        continue_ok _ _ L.get_input
          (ap (failing "create l2ApplicationStateRoot data") L.packs_get) in
      let told = continue_ok _ _ (L.root s) (
        ap (λ r. failing "call getL2ApplicationStateRoot" (failing "call contract" r))
          (L.returns header evm_tx_origin_address _ s deployed.0 L.affordable)) in
      ap (λ r. r.0) (sent ∙ told)
      ∙ ap (failing "unpack l2ApplicationStateRoot") (L.unpacks (L.root s) (L.root_sized s))

  -- After the builder has stored an application hash in the EVM state of a block, and then the withdrawals
  -- of all the transactions of that block, the contract that the chain starts with returns the hash, as the
  -- 32 bytes that it is cut or filled to, to a later block also. Both contracts are deployed and do what
  -- their sources say.
  pub store_app_hash_in_evm-root :
      (F : Formats) (header later : Header) (app_hash : Bytes) (txs : List Bytes)
      (results : List ExecTxResult) (done : List TxResult) (s s1 s2 : G.State)
      → Deployed G H abi L s
      → store_app_hash_in_evm F (geth_evm G H) header app_hash s ≡ ok s1
      → index_results F (geth_evm G H) header 0 txs results s1 ≡ ok (done, s2)
      → (e : ContractExecuter G) × (new_contract_executer G
            (new_evm later)
            H.root_provider_abi
            H.root_provider_addr
          ≡ ok e)
        × ((get_l2_application_state_root G e s2).0 ≡ ok (bytes_to_hash app_hash))
  unfolding store_app_hash_in_evm new_contract_executer
  store_app_hash_in_evm-root F header later app_hash txs results done s s1 s2 deployed h indexed =
      let made : (later : Header)
          → new_contract_executer G (new_evm later) H.root_provider_abi H.root_provider_addr
            ≡ ok (executer later) =
        λ later. rw (parsed, new_contract_executer) refl in
      let sets = λ (e : ContractExecuter G).
        failing "set L2ApplicationStateRoot"
          (state_after (set_l2_application_state_root G e (bytes_to_hash app_hash) s)) in
      let stored =
        ap (λ r. failing "new L2ApplicationStateRootProviderExecuter" r >>= sets)
          (sym (made header))
        ∙ h in
      let has1 =
        set-root header (bytes_to_hash app_hash) s s1 (length-bytes_to_hash app_hash) deployed
          (ok_of_failing "set L2ApplicationStateRoot" _ s1 stored) in
      let (kept, same) =
        index_results-Has G H abi L F header 0 txs results s1 s2 done (bytes_to_hash app_hash)
          indexed has1 in
      (executer later, made later, get-root later s2 kept ∙ ap ok same)
