-- ===== src/Tests/Evm.antt =====
-- The root of the application in an EVM that has the two contracts and nothing else.
use monomer.Prelude.{
  arith, ℕ, zero, suc, ◌≡◌, ◌≤◌, ◌==◌, refl, ap, sym, ◌∙◌, Bool, true, false, List, [], ◌∷◌, ◌++◌,
  length, failure, Result, ok, err, if◌then◌else◌,
}
use monomer.Bytes.{Bytes}
use monomer.Comet.Api.{bytes_to_hash, bytes_to_hash-32}
use monomer.Comet.Paginate.{drop}
use monomer.Builder.Withdrawals.{
  Formats, ExecTxResult, store_app_hash_in_evm, append_attribute, find_event, initiate_found,
  parse_attributes, parse_withdrawal_event_attributes, store_withdrawal_msg_in_evm,
  store_withdrawals, parse_withdrawal_messages, withdrawal_initiated,
}
use monomer.Builder.Results.{index_results}
use monomer.Builder.World.{TxResult}
use monomer.Evm.{
  Geth, Argument, hash, ContractExecuter, new_evm, new_contract_executer, get_message_nonce,
  get_l2_application_state_root, set_l2_application_state_root, call_contract, get_call_params,
  initiate_withdrawal,
}
use monomer.Evm.Interface.{Chain, geth_evm}
use monomer.Evm.Provider.{IsRootProvider}
use monomer.Evm.Root.{length-bytes_to_hash, store_app_hash_in_evm-root}
use monomer.Prelude.Stateful.{continue}
use monomer.Tests.Codecs.{pad}
use monomer.Tests.Blocks.{block_1}
use monomer.Tests.Building.{formats, block_2}

abbrev pack_args : List Argument → Bytes
pack_args [] = 0 ∷ []
pack_args (hash r ∷ args) = 1 ∷ r
pack_args (a ∷ args) = 2 ∷ []

-- Whether the contracts are deployed, the root, and how many withdrawals there were.
abbrev Memory : Type 0
Memory = Bool × Bytes × ℕ

abbrev run_provider : (input : Bytes) (gas value : ℕ) (r : Bytes) (n : ℕ) → Result Bytes × Memory
run_provider input zero value r n = (err (failure "out of gas"), (true, r, n))
run_provider input (suc g) (suc v) r n = (err (failure "execution reverted"), (true, r, n))
run_provider [] (suc g) zero r n = (err (failure "execution reverted"), (true, r, n))
run_provider (zero ∷ x) (suc g) zero r n = (ok (bytes_to_hash r), (true, r, n))
run_provider (suc k ∷ x) (suc g) zero r n = (ok [], (true, x, n))

abbrev run_passer : (input : Bytes) (gas : ℕ) (r : Bytes) (n : ℕ) → Result Bytes × Memory
run_passer input zero r n = (err (failure "out of gas"), (true, r, n))
run_passer [] (suc g) r n = (ok [], (true, r, suc n))
run_passer (zero ∷ x) (suc g) r n = (ok (n ∷ []), (true, r, n))
run_passer (suc k ∷ x) (suc g) r n = (ok [], (true, r, suc n))

-- An account without code succeeds.
abbrev run : (to input : Bytes) (gas value : ℕ) → Memory → Result Bytes × Memory
run to input gas value (false, q, n) = (ok [], (false, q, n))
run [] input gas value (true, q, n) = (ok [], (true, q, n))
run (a ∷ to) input gas value (true, r, n) =
    if a == 67 then run_provider input gas value r n else run_passer input gas r n

abbrev code : Memory → Bytes
code (true, q, n) = 1 ∷ []
code (false, q, n) = []

abbrev two_contracts : Geth
two_contracts = record {
  State = Memory;
  Abi = Unit {0};
  parse_abi = λ t. ok tt;
  pack = λ abi method args. ok (pack_args args);
  unpack_hash = λ abi method b. ok b;
  unpack_big = λ abi method b. ok 0;
  unpack_bool = λ abi method b. ok false;
  call = λ c from to input gas value s. run to input gas value s;
  set_code = λ a code s. (true, s.1, s.2);
}

abbrev chain : Chain two_contracts
chain = record {
  Disk = Unit {0};
  root_provider_abi = "";
  root_provider_addr = pad 20 (67 ∷ []);
  message_passer_abi = "";
  message_passer_addr = pad 20 (66 ∷ []);
  new_state = λ d root. ok (false, [], 0);
  commit_state = λ s h d. (ok [], d);
}

provider-code :
    (input : Bytes) (gas value : ℕ) (r : Bytes) (n : ℕ)
    → code (run_provider input gas value r n).1 ≡ 1 ∷ []
provider-code input zero value r n = refl
provider-code input (suc g) (suc v) r n = refl
provider-code [] (suc g) zero r n = refl
provider-code (zero ∷ x) (suc g) zero r n = refl
provider-code (suc k ∷ x) (suc g) zero r n = refl

passer-spares :
    (input : Bytes) (gas : ℕ) (r : Bytes) (n : ℕ)
    → (code (run_passer input gas r n).1 ≡ 1 ∷ [])
      × (bytes_to_hash (run_passer input gas r n).1.1 ≡ bytes_to_hash r)
passer-spares input zero r n = (refl, refl)
passer-spares [] (suc g) r n = (refl, refl)
passer-spares (zero ∷ x) (suc g) r n = (refl, refl)
passer-spares (suc k ∷ x) (suc g) r n = (refl, refl)

stores :
    (r : Bytes) (gas : ℕ) (s s' : Memory) (out : Bytes)
    → code s ≡ 1 ∷ []
    → length r ≡ 32
    → run (pad 20 (67 ∷ [])) (1 ∷ r) gas 0 s ≡ (ok out, s')
    → bytes_to_hash s'.1 ≡ r
stores r gas (false, q, n) s' out d sized h = cc
stores r zero (true, q, n) s' out d sized h = cc
stores r (suc g) (true, q, n) s' out d sized h =
    ap (λ (x : Result Bytes × Memory). bytes_to_hash x.1.1) (sym h) ∙ bytes_to_hash-32 r sized

returns :
    (gas : ℕ) (s : Memory)
    → code s ≡ 1 ∷ []
    → 1 ≤ gas
    → (run (pad 20 (67 ∷ [])) (0 ∷ []) gas 0 s).0 ≡ ok (bytes_to_hash s.1)
returns gas (false, q, n) d enough = cc
returns zero (true, q, n) d enough = absurd (omega arith)
returns (suc g) (true, q, n) d enough = refl

keeps_provider :
    (input : Bytes) (gas value : ℕ) (s : Memory)
    → code s ≡ 1 ∷ []
    → code (run (pad 20 (67 ∷ [])) input gas value s).1 ≡ 1 ∷ []
keeps_provider input gas value (false, q, n) d = cc
keeps_provider input gas value (true, r, n) d = provider-code input gas value r n

spares :
    (input : Bytes) (gas value : ℕ) (s : Memory)
    → code s ≡ 1 ∷ []
    → (code (run (pad 20 (66 ∷ [])) input gas value s).1 ≡ 1 ∷ [])
      × (bytes_to_hash (run (pad 20 (66 ∷ [])) input gas value s).1.1 ≡ bytes_to_hash s.1)
spares input gas value (false, q, n) d = cc
spares input gas value (true, r, n) d = passer-spares input gas r n

provider : IsRootProvider two_contracts chain tt
provider = record {
  code_at = λ a s. code s;
  provider_code = 1 ∷ [];
  passer_code = 1 ∷ [];
  root = λ s. bytes_to_hash s.1;
  set_input = λ r. 1 ∷ r;
  get_input = 0 ∷ [];
  gas_needed = 1;
  root_sized = λ s. length-bytes_to_hash s.1;
  affordable = omega arith;
  packs_set = λ r sized. refl;
  packs_get = refl;
  unpacks = λ r sized. refl;
  stores = λ header from r gas s s' out d sized h. stores r gas s s' out d sized h;
  returns = λ header from gas s d enough. returns gas s d enough;
  keeps_provider = λ header from input gas value s d d'.
      (keeps_provider input gas value s d, keeps_provider input gas value s d);
  spares = λ header from input gas value s d d'.
      let (c, same) = spares input gas value s d in (c, c, same);
}

-- A block with one transaction, which makes a withdrawal.
abbrev one_withdrawal : Formats
one_withdrawal = record formats {
  message_types = λ b. ok ("/rollup.v1.MsgInitiateWithdrawal" ∷ []);
}

abbrev before_result : ExecTxResult
before_result = record {
  code = 0;
  data_bytes = [];
  events = record { event_type = withdrawal_initiated; attributes = [] } ∷ [];
}

abbrev indexed_result : TxResult
indexed_result = record {
  height = 1;
  index = 0;
  tx = 7 ∷ [];
  result = record {
    code = 0;
    data_bytes = [];
    events =
        record {
          event_type = withdrawal_initiated;
          attributes = record { name = "nonce"; value = "0x0" } ∷ [];
        }
        ∷ [];
  };
}

abbrev deployed : Memory
deployed = (true, [], 0)

abbrev with_root : Memory
with_root = (true, pad 31 [] ++ 9 ∷ [], 0)

abbrev after_block : Memory
after_block = (true, pad 31 [] ++ 9 ∷ [], 1)

stored :
    store_app_hash_in_evm one_withdrawal
      (geth_evm two_contracts chain)
      block_1.header
      (9 ∷ [])
      deployed
    ≡ ok with_root
unfolding store_app_hash_in_evm new_contract_executer set_l2_application_state_root call_contract
    get_call_params continue bytes_to_hash drop new_evm
stored = refl

indexed :
    index_results one_withdrawal
      (geth_evm two_contracts chain)
      block_1.header
      0
      ((7 ∷ []) ∷ [])
      (before_result ∷ [])
      with_root
    ≡ ok (indexed_result ∷ [], after_block)
unfolding index_results parse_withdrawal_messages store_withdrawals store_withdrawal_msg_in_evm
    find_event initiate_found parse_withdrawal_event_attributes parse_attributes append_attribute
    new_contract_executer get_message_nonce initiate_withdrawal call_contract get_call_params
    continue new_evm
indexed = refl

store_app_hash_in_evm-root_example :
    (e : ContractExecuter two_contracts) × (new_contract_executer two_contracts
        (new_evm block_2.header)
        ""
        chain.root_provider_addr
      ≡ ok e)
    × ((get_l2_application_state_root two_contracts e after_block).0 ≡ ok (bytes_to_hash (9 ∷ [])))
unfolding provider
store_app_hash_in_evm-root_example =
    store_app_hash_in_evm-root two_contracts chain tt refl provider one_withdrawal block_1.header
      block_2.header (9 ∷ []) ((7 ∷ []) ∷ []) (before_result ∷ []) (indexed_result ∷ []) deployed
      with_root after_block (refl, refl) stored indexed
