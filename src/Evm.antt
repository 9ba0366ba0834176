-- ===== src/Evm.antt =====
-- evm/evm.go, evm/executer.go, contracts/predeploys.go and the two executers of bindings: how the builder
-- calls the contracts that a chain starts with.
pub mod Interface
pub mod Provider
pub mod Root
use monomer.Prelude.{
  ℕ, zero, ◌%◌, ◌^◌, Bool, true, Option, none, some, String, List, [], ◌∷◌, Result, ok, err, panic,
  failing,
}
use monomer.Prelude.Stateful.{Step, ◌>>=◌, ◌>>◌, pure, reading}
use monomer.Bytes.{Bytes}
use monomer.Block.{Header, zeros}
use monomer.Block.Hash.{EthHeader, header_to_eth}
use monomer.Builder.Build.{failing_at}
use monomer.Builder.Withdrawals.{Withdrawal}

-- An argument of a call, as go-ethereum packs it; a pointer that is not set is nil.
pub data Argument : Type 0 where
  address : Option Bytes → Argument
  big_int : Option ℕ → Argument
  byte_string : Bytes → Argument
  hash : Bytes → Argument

-- A fork that is active from the first block, and what else the code sets for an EVM.
pub data Fork : Type 0 where
  byzantium constantinople petersburg istanbul muir_glacier arrow_glacier gray_glacier
        merge_netsplit bedrock regolith canyon :
      Fork

pub record EvmConfig : Type 0 where
  pub chain_id : ℕ
  pub forks : List Fork
  pub header : EthHeader
  pub author : Bytes
  pub gas_limit : ℕ
  pub can_transfer : Bytes → ℕ → Bool
  pub origin : Bytes
  pub gas_price : ℕ
  pub no_base_fee : Bool

-- go-ethereum: the ABI of a contract and the EVM on a state. A call changes the state that its EVM was
-- made with.
pub record Geth : Type 1 where
  pub State : Type 0
  pub Abi : Type 0
  pub parse_abi : String → Result Abi
  pub pack : Abi → String → List Argument → Result Bytes
  pub unpack_hash : Abi → String → Bytes → Result Bytes
  pub unpack_big : Abi → String → Bytes → Result ℕ
  pub unpack_bool : Abi → String → Bytes → Result Bool
  pub call : EvmConfig → (sender contract input : Bytes) → (gas value : ℕ) → Step State Bytes
  pub set_code : Bytes → Bytes → State → State

-- `MonomerEVMTxOriginAddress`
abbrev pub evm_tx_origin_address : Bytes
evm_tx_origin_address = 0x43 ∷ zeros 19

-- `CanTransfer`: no balance is looked at.
abbrev pub can_transfer : Bytes → ℕ → Bool
can_transfer addr amount = true

-- `NewEVM`
unfoldable pub new_evm : Header → EvmConfig
new_evm header = record {
  chain_id = header.chain_id;
  forks =
      Fork.byzantium ∷ Fork.constantinople ∷ Fork.petersburg ∷ Fork.istanbul ∷ Fork.muir_glacier
      ∷ Fork.arrow_glacier ∷ Fork.gray_glacier ∷ Fork.merge_netsplit ∷ Fork.bedrock ∷ Fork.regolith
      ∷ Fork.canyon ∷ [];
  header = header_to_eth header;
  author = evm_tx_origin_address;
  gas_limit = 100000000;
  can_transfer = can_transfer;
  origin = evm_tx_origin_address;
  gas_price = 0;
  no_base_fee = true;
}

-- `CallParams`
pub record CallParams : Type 0 where
  pub sender : Option Bytes
  pub value : Option ℕ
  pub call_data : Bytes

abbrev pub sender_or_origin : Option Bytes → Bytes
sender_or_origin none = evm_tx_origin_address
sender_or_origin (some a) = a

-- `uint256.Int.SetFromBig` keeps the low 256 bits.
abbrev pub uint256_value : Option ℕ → ℕ
uint256_value none = 0
uint256_value (some n) = n % 2 ^ 256

-- `getCallParams`
unfoldable pub get_call_params : CallParams → Bytes × ℕ × Bytes
get_call_params p = (sender_or_origin p.sender, uint256_value p.value, p.call_data)

-- A call with no sender and no value.
abbrev pub plain_call : Bytes → CallParams
plain_call input = record { sender = none; value = none; call_data = input }

module _ (G : Geth) where
  open G use {State, Abi, parse_abi, pack, unpack_hash, unpack_big, unpack_bool, set_code}

  -- `MonomerContractExecuter`
  pub record ContractExecuter : Type 0 where
    pub abi : Abi
    pub evm : EvmConfig
    pub contract_addr : Bytes

  -- `NewMonomerContractExecuter`; the two executers of the bindings only give it their ABI and address.
  unfoldable pub new_contract_executer : EvmConfig → String → Bytes → Result ContractExecuter
  new_contract_executer evm abi_json addr = elim (parse_abi abi_json) [
    | ok abi ↦ ok (record { abi = abi; evm = evm; contract_addr = addr })
    | err e ↦ err e
    | panic m ↦ panic m
  ]

  -- `Call`
  unfoldable pub call_contract : ContractExecuter → CallParams → Step State Bytes
  call_contract e p =
      let (sender, value, input) = get_call_params p in
      failing_at "call contract" (G.call e.evm sender e.contract_addr input e.evm.gas_limit value)

  abbrev pub packed : ContractExecuter → String → List Argument → String → Step State Bytes
  packed e method args m = failing_at m (reading (λ (s : State). pack e.abi method args))

  -- `InitiateWithdrawal`
  unfoldable pub initiate_withdrawal : ContractExecuter → Withdrawal → Step State (Unit {0})
  initiate_withdrawal e w = do
    input ←
        packed e "initiateWithdrawal"
          (address w.target ∷ big_int w.gas_limit ∷ byte_string w.call_data ∷ [])
          "create initiateWithdrawal data"
    _ ←
        failing_at "call initiateWithdrawal"
          (call_contract e (record { sender = w.sender; value = w.amount; call_data = input }))
    pure tt

  -- `GetSentMessagesMappingValue`
  unfoldable pub get_sent_messages_mapping_value : ContractExecuter → Bytes → Step State Bool
  get_sent_messages_mapping_value e withdrawal_hash = do
    input ← packed e "sentMessages" (hash withdrawal_hash ∷ []) "create sentMessages data"
    res ← failing_at "call sentMessages" (call_contract e (plain_call input))
    failing_at "unpack sentMessages" (reading (λ (s : State). unpack_bool e.abi "sentMessages" res))

  -- `GetMessageNonce`
  unfoldable pub get_message_nonce : ContractExecuter → Step State ℕ
  get_message_nonce e = do
    input ← packed e "messageNonce" [] "create messageNonce data"
    res ← failing_at "call messageNonce" (call_contract e (plain_call input))
    failing_at "unpack messageNonce" (reading (λ (s : State). unpack_big e.abi "messageNonce" res))

  -- `GetL2ApplicationStateRoot`
  unfoldable pub get_l2_application_state_root : ContractExecuter → Step State Bytes
  get_l2_application_state_root e = do
    input ← packed e "l2ApplicationStateRoot" [] "create l2ApplicationStateRoot data"
    res ← failing_at "call getL2ApplicationStateRoot" (call_contract e (plain_call input))
    failing_at "unpack l2ApplicationStateRoot"
        (reading (λ (s : State). unpack_hash e.abi "l2ApplicationStateRoot" res))

  -- `SetL2ApplicationStateRoot`
  unfoldable pub set_l2_application_state_root : ContractExecuter → Bytes → Step State (Unit {0})
  set_l2_application_state_root e state_root = do
    input ←
        packed e "setL2ApplicationStateRoot" (hash state_root ∷ [])
          "create setL2ApplicationStateRoot data"
    _ ← failing_at "call setL2ApplicationStateRoot" (call_contract e (plain_call input))
    pure tt

  -- `Predeploy`, with the addresses and the codes of `predeploys`.
  unfoldable pub predeploy : List (Bytes × Bytes) → State → State
  predeploy [] s = s
  predeploy ((addr, code) ∷ ps) s = predeploy ps (set_code addr code s)
