-- ===== src/Adapters.antt =====
-- adapters.go: the transactions of a payload, as the OP stack gives them and as the application takes
-- them.
pub mod RoundTrip
use monomer.Prelude.{
  ℕ, zero, suc, not, ◌≡◌, Bool, true, false, Option, none, some, List, [], ◌∷◌, ◌++◌, length,
  Result, ok, err, panic, failure, ◌>>=◌, failing, if◌then◌else◌, map,
}
use monomer.Bytes.{Bytes}
use monomer.Bytes.BigEndian.{big_bytes}

-- `derive.L1BlockInfo` of the OP node; a `*big.Int` that may be nil is an `Option`.
pub record DerivedBlockInfo : Type 0 where
  pub number : ℕ
  pub time : ℕ
  pub block_hash : Bytes
  pub sequence_number : ℕ
  pub batcher_addr : Bytes
  pub l1_fee_overhead : Bytes
  pub l1_fee_scalar : Bytes
  pub base_fee_scalar : ℕ
  pub blob_base_fee_scalar : ℕ
  pub base_fee : Option ℕ
  pub blob_base_fee : Option ℕ

-- `rolluptypes.L1BlockInfo`
pub record L1BlockInfo : Type 0 where
  pub number : ℕ
  pub time : ℕ
  pub base_fee : Bytes
  pub block_hash : Bytes
  pub sequence_number : ℕ
  pub batcher_addr : Bytes
  pub l1_fee_overhead : Bytes
  pub l1_fee_scalar : Bytes
  pub base_fee_scalar : ℕ
  pub blob_base_fee_scalar : ℕ
  pub blob_base_fee : Bytes

-- `rolluptypes.MsgSetL1Attributes` and `rolluptypes.DepositsTx`; a user deposit is its bytes.
pub record MsgSetL1Attributes : Type 0 where
  pub l1_block_info : L1BlockInfo
  pub eth_tx : Bytes

pub record DepositsTx : Type 0 where
  pub l1_attributes : Option MsgSetL1Attributes
  pub user_deposits : List Bytes

-- What the adapters take from elsewhere: go-ethereum's transactions, the OP node's reading of the L1
-- attributes (at the time of the call), and the protobuf encoding of `DepositsTx`.
pub record EthCodec : Type 1 where
  pub Tx : Type 0
  pub unmarshal_binary : Bytes → Result Tx
  pub is_deposit_tx : Tx → Bool
  pub tx_data : Tx → Bytes
  pub dynamic_fee_tx : Bytes → Tx
  pub l1_block_info_from_bytes : Bytes → Result DerivedBlockInfo
  pub marshal_deposits : DepositsTx → Result Bytes
  pub unmarshal_deposits : Bytes → Result DepositsTx
  pub unmarshal-marshal_deposits :
      (t : DepositsTx) (b : Bytes) → marshal_deposits t ≡ ok b → unmarshal_deposits b ≡ ok t

-- `x.Bytes()` of a number that is there; the field is nil otherwise.
abbrev pub fee_bytes : Option ℕ → Bytes
fee_bytes none = []
fee_bytes (some x) = big_bytes x

unfoldable pub set_l1_attributes : DerivedBlockInfo → Bytes → MsgSetL1Attributes
set_l1_attributes i tx_bytes = record {
  l1_block_info = record {
    number = i.number;
    time = i.time;
    base_fee = fee_bytes i.base_fee;
    block_hash = i.block_hash;
    sequence_number = i.sequence_number;
    batcher_addr = i.batcher_addr;
    l1_fee_overhead = i.l1_fee_overhead;
    l1_fee_scalar = i.l1_fee_scalar;
    base_fee_scalar = i.base_fee_scalar;
    blob_base_fee_scalar = i.blob_base_fee_scalar;
    blob_base_fee = fee_bytes i.blob_base_fee;
  };
  eth_tx = tx_bytes;
}

-- `ethTxs[n:]`
abbrev pub drop {ℓ} : {A : Type ℓ} → ℕ → List A → List A
drop zero xs = xs
drop (suc n) [] = []
drop (suc n) (x ∷ xs) = drop n xs

module _ (E : EthCodec) where
  open E use {
    Tx, unmarshal_binary, is_deposit_tx, tx_data, dynamic_fee_tx, l1_block_info_from_bytes,
    marshal_deposits, unmarshal_deposits,
  }

  -- The loop over the user deposits, up to the first transaction that is none.
  unfoldable pub leading_deposits : List Bytes → Result (List Bytes)
  leading_deposits [] = ok []
  leading_deposits (b ∷ bs) = do
    tx ← failing "unmarshal binary eth deposit tx bytes" (unmarshal_binary b)
    if is_deposit_tx tx then (do rest ← leading_deposits bs; ok (b ∷ rest)) else ok []

  -- The loop over the rest.
  unfoldable pub non_deposits : List Bytes → Result (List Bytes)
  non_deposits [] = ok []
  non_deposits (b ∷ bs) = do
    tx ← failing "unmarshal binary tx" (unmarshal_binary b)
    if is_deposit_tx tx
        then err (failure "found a deposit tx after a non-deposit tx")
        else (do rest ← non_deposits bs; ok (tx_data tx ∷ rest))

  -- `AdaptPayloadTxsToCosmosTxs` from the L1 block info on.
  unfoldable pub adapt_after_l1 : Bytes → Tx → List Bytes → Result (List Bytes)
  adapt_after_l1 l1_bytes l1_tx eth_txs = do
    info ← failing "l1 block info from bytes" (l1_block_info_from_bytes (tx_data l1_tx))
    deposits ← leading_deposits eth_txs
    deposit_bytes ← failing "marshal tx" (
        marshal_deposits (record {
          l1_attributes = some (set_l1_attributes info l1_bytes);
          user_deposits = deposits;
        }))
    rest ← non_deposits (drop (length deposits) eth_txs)
    ok (deposit_bytes ∷ rest)

  -- `AdaptPayloadTxsToCosmosTxs`
  unfoldable pub adapt_payload_txs_to_cosmos_txs : List Bytes → Result (List Bytes)
  adapt_payload_txs_to_cosmos_txs [] = err (failure "l1 attributes transaction not found")
  adapt_payload_txs_to_cosmos_txs (l1_bytes ∷ eth_txs) = do
    l1_tx ← failing "unmarshal binary" (unmarshal_binary l1_bytes)
    if not (is_deposit_tx l1_tx)
        then err (failure "first transaction is not a deposit transaction")
        else adapt_after_l1 l1_bytes l1_tx eth_txs

  -- `AdaptNonDepositCosmosTxToEthTx`
  unfoldable pub adapt_non_deposit_cosmos_tx_to_eth_tx : Bytes → Tx
  adapt_non_deposit_cosmos_tx_to_eth_tx cosmos_tx = dynamic_fee_tx cosmos_tx

  -- The loop over the user deposits of `AdaptCosmosTxsToEthTxs`.
  unfoldable pub user_deposit_txs : List Bytes → Result (List Tx)
  user_deposit_txs [] = ok []
  user_deposit_txs (b ∷ bs) = do
    tx ← failing "unmarshal binary user deposit tx" (unmarshal_binary b)
    if not (is_deposit_tx tx)
        then err (failure "cosmos deposit tx contains non-deposit tx")
        else (do rest ← user_deposit_txs bs; ok (tx ∷ rest))

  -- `cosmosDepositTx.L1Attributes.EthTx`: a missing message is a nil dereference.
  unfoldable pub l1_attributes_bytes : Option MsgSetL1Attributes → Result Bytes
  l1_attributes_bytes none = panic "nil pointer dereference"
  l1_attributes_bytes (some m) = ok m.eth_tx

  -- `AdaptCosmosTxsToEthTxs`
  unfoldable pub adapt_cosmos_txs_to_eth_txs : List Bytes → Result (List Tx)
  adapt_cosmos_txs_to_eth_txs [] = ok []
  adapt_cosmos_txs_to_eth_txs (deposit_bytes ∷ txs) = do
    deposits ← failing "unmarshal MsgL1Txs msg" (unmarshal_deposits deposit_bytes)
    l1_bytes ← l1_attributes_bytes deposits.l1_attributes
    l1_tx ← failing "unmarshal binary l1 attributes tx" (unmarshal_binary l1_bytes)
    user_txs ← user_deposit_txs deposits.user_deposits
    ok (l1_tx ∷ user_txs ++ map adapt_non_deposit_cosmos_tx_to_eth_tx txs)
