-- ===== src/Evm/Interface.antt =====
-- The EVM that the builder takes, filled by go-ethereum's with the executers of the bindings.
use monomer.Prelude.{ℕ, String, Result, ok, err, panic}
use monomer.Bytes.{Bytes}
use monomer.Comet.Api.{bytes_to_hash}
use monomer.Builder.Withdrawals.{Evm}
use monomer.Evm.{
  Geth, EvmConfig, ContractExecuter, new_evm, new_contract_executer, initiate_withdrawal,
  get_message_nonce, set_l2_application_state_root,
}

-- The state after a call that succeeds.
abbrev pub state_after {ℓ κ} : {S : Type ℓ} {A : Type κ} → Result A × S → Result S
state_after (ok a, s) = ok s
state_after (err e, s) = err e
state_after (panic m, s) = panic m

-- Where the contracts are, their ABIs, and the states on the disk.
pub record Chain (G : Geth) : Type 1 where
  pub Disk : Type 0
  pub root_provider_abi : String
  pub root_provider_addr : Bytes
  pub message_passer_abi : String
  pub message_passer_addr : Bytes
  pub new_state : Disk → Bytes → Result G.State
  pub commit_state : G.State → ℕ → Disk → Result Bytes × Disk

abbrev pub geth_evm : (G : Geth) → Chain G → Evm
geth_evm G H = record {
  Disk = H.Disk;
  State = G.State;
  Vm = EvmConfig;
  RootProvider = ContractExecuter G;
  MessagePasser = ContractExecuter G;
  new_state = H.new_state;
  new_evm = λ s h. ok (new_evm h);
  new_root_provider = λ vm. new_contract_executer G vm H.root_provider_abi H.root_provider_addr;
  set_root = λ e root s. state_after (set_l2_application_state_root G e (bytes_to_hash root) s);
  new_message_passer = λ vm. new_contract_executer G vm H.message_passer_abi H.message_passer_addr;
  message_nonce = λ e s. (get_message_nonce G e s).0;
  initiate_withdrawal = λ e w s. state_after (initiate_withdrawal G e w s);
  commit_state = H.commit_state;
}
