-- ===== src/Rollup/Sdk.antt =====
-- What the rollup module takes from the Cosmos SDK and from go-ethereum (x/rollup/types/expected_keepers.go
-- and the imports of x/rollup/keeper): coins, the bank, the module's store, and the contracts' ABI.
use monomer.Prelude.{
  ℕ, ◌+◌, ◌≡◌, Bool, ◌&&◌, Option, some, String, Result, ok, if◌then◌else◌, same_text,
}
use monomer.Prelude.Stateful.{Step}
use monomer.Bytes.{Bytes, bytes_eq}
use monomer.Adapters.{L1BlockInfo}
use monomer.Rollup.Messages.{Params, BigInt, int}

-- `sdk.Coins` with one coin; the coins without any are the ones of amount 0.
pub record Coins : Type 0 where
  pub denom : String
  pub amount : ℕ

-- A Go slice, whose array may go on behind its end.
pub record Slice : Type 0 where
  pub used : Bytes
  pub spare : Bytes

-- The messages of the bridge contracts, of bindings/cross_domain_args.go.
pub record RelayMessageArgs : Type 0 where
  pub nonce : BigInt
  pub sender : Bytes
  pub target : Bytes
  pub value : BigInt
  pub min_gas_limit : BigInt
  pub message : Slice

pub record FinalizeBridgeEthArgs : Type 0 where
  pub from_address : Bytes
  pub to_address : Bytes
  pub amount : ℕ
  pub extra_data : Bytes

pub record FinalizeBridgeErc20Args : Type 0 where
  pub remote_token : Bytes
  pub local_token : Bytes
  pub from_address : Bytes
  pub to_address : Bytes
  pub amount : BigInt
  pub extra_data : Bytes

-- A method of an ABI: its selector, the unpacking of its inputs into the fields of `A`, and the packing of
-- a call.
pub record Method (A : Type 0) : Type 0 where
  pub id : Bytes
  pub unpack : Bytes → Result A
  pub pack : A → Result Bytes

pub record Abi : Type 0 where
  pub relay_message : Method RelayMessageArgs
  pub finalize_bridge_eth : Method FinalizeBridgeEthArgs
  pub finalize_bridge_erc20 : Method FinalizeBridgeErc20Args

-- go-ethereum's transaction; `sender` takes the number and the time of the L1 block for its signer.
pub record DepositTx : Type 1 where
  pub Tx : Type 0
  pub unmarshal_binary : Bytes → Result Tx
  pub is_system_tx : Tx → Bool
  pub to_address : Tx → Option Bytes
  pub sender : ℕ → ℕ → Tx → Result Bytes
  pub mint : Tx → Option ℕ
  pub value : Tx → ℕ
  pub tx_data : Tx → Option Slice

-- The keepers and the store that the module is given, and the conversions of numbers and addresses.
-- A key that is not in the store reads as the empty bytes.
pub record Sdk : Type 1 where
  pub Store : Type 0
  pub Bank : Type 0
  pub get : String → Store → Result Bytes
  pub set : String → Bytes → Step Store (Unit {0})
  pub new_coins : String → BigInt → Result Coins
  pub mint_coins : String → Coins → Step Bank (Unit {0})
  pub burn_coins : String → Coins → Step Bank (Unit {0})
  pub module_to_account : String → Bytes → Coins → Step Bank (Unit {0})
  pub account_to_module : Bytes → String → Coins → Step Bank (Unit {0})
  pub module_to_module : String → String → Coins → Step Bank (Unit {0})
  pub balance : Bytes → String → Bank → ℕ
  pub supply : String → Bank → ℕ
  pub module_address : String → Option Bytes
  pub account_from_bech32 : String → Result Bytes
  pub bech32_encode : Bytes → Result String
  pub address_string : Bytes → String
  pub hex_to_address : String → Bytes
  pub is_hex_address : String → Bool
  pub checksum_hex : Bytes → String
  pub apply_l1_to_l2_alias : Bytes → Bytes
  pub encode_big : BigInt → Result String
  pub encode_hex : Bytes → String
  pub marshal_info : L1BlockInfo → Result Bytes
  pub unmarshal_info : Bytes → Result L1BlockInfo
  pub marshal_params : Params → Result Bytes
  pub unmarshal_params : Bytes → Result Params

-- `n` coins of `c` where the address and the denomination are the ones asked for.
abbrev pub part : Bytes → Coins → Bytes → String → ℕ
part holder c a d = if bytes_eq holder a && same_text c.denom d then c.amount else 0

abbrev pub coins_of : Coins → String → ℕ
coins_of c d = if same_text c.denom d then c.amount else 0

-- What the bank promises of a call that succeeds: coins are made or destroyed in the account of the
-- module, or go from one account to another, and nothing else changes.
pub record IsLedger (S : Sdk) : Type 0 where
  pub module_account : String → Bytes
  pub new_coins_amount :
      (d : String) (i : BigInt) (c : Coins)
      → S.new_coins d i ≡ ok c
      → (c.denom ≡ d) × (i ≡ int c.amount)
  pub mints :
      (m : String) (c : Coins) (b : S.Bank)
      → (S.mint_coins m c b).0 ≡ ok tt
      → ((a : Bytes) (d : String)
          → S.balance a d (S.mint_coins m c b).1 ≡ S.balance a d b + part (module_account m) c a d)
        × ((d : String) → S.supply d (S.mint_coins m c b).1 ≡ S.supply d b + coins_of c d)
  pub burns :
      (m : String) (c : Coins) (b : S.Bank)
      → (S.burn_coins m c b).0 ≡ ok tt
      → ((a : Bytes) (d : String)
          → S.balance a d (S.burn_coins m c b).1 + part (module_account m) c a d ≡ S.balance a d b)
        × ((d : String) → S.supply d (S.burn_coins m c b).1 + coins_of c d ≡ S.supply d b)
  pub pays :
      (m : String) (to : Bytes) (c : Coins) (b : S.Bank)
      → (S.module_to_account m to c b).0 ≡ ok tt
      → ((a : Bytes) (d : String)
          → S.balance a d (S.module_to_account m to c b).1 + part (module_account m) c a d
            ≡ S.balance a d b + part to c a d)
        × ((d : String) → S.supply d (S.module_to_account m to c b).1 ≡ S.supply d b)
  pub collects :
      (from : Bytes) (m : String) (c : Coins) (b : S.Bank)
      → (S.account_to_module from m c b).0 ≡ ok tt
      → ((a : Bytes) (d : String)
          → S.balance a d (S.account_to_module from m c b).1 + part from c a d
            ≡ S.balance a d b + part (module_account m) c a d)
        × ((d : String) → S.supply d (S.account_to_module from m c b).1 ≡ S.supply d b)
  pub moves :
      (m n : String) (c : Coins) (b : S.Bank)
      → (S.module_to_module m n c b).0 ≡ ok tt
      → ((a : Bytes) (d : String)
          → S.balance a d (S.module_to_module m n c b).1 + part (module_account m) c a d
            ≡ S.balance a d b + part (module_account n) c a d)
        × ((d : String) → S.supply d (S.module_to_module m n c b).1 ≡ S.supply d b)
  pub module_address_account :
      (m : String) (a : Bytes) → S.module_address m ≡ some a → module_account m ≡ a

-- What the store and the protobuf encodings promise: what is written reads back, the other keys stay.
pub record IsStore (S : Sdk) : Type 0 where
  pub get-set :
      (k : String) (v : Bytes) (s : S.Store)
      → (S.set k v s).0 ≡ ok tt
      → S.get k (S.set k v s).1 ≡ ok v
  pub get-set_other :
      (k j : String) (v : Bytes) (s : S.Store)
      → same_text k j ≡ Bool.false
      → S.get j (S.set k v s).1 ≡ S.get j s
  pub unmarshal-marshal_info :
      (i : L1BlockInfo) (b : Bytes) → S.marshal_info i ≡ ok b → S.unmarshal_info b ≡ ok i
  pub unmarshal-marshal_params :
      (p : Params) (b : Bytes) → S.marshal_params p ≡ ok b → S.unmarshal_params b ≡ ok p
