-- ===== src/Tests/Payloads.antt =====
-- The adapters on a payload, with transactions that are their bytes.
use monomer.Prelude.{
  ℕ, zero, suc, ◌≡◌, ◌==◌, refl, sym, ap, ◌∙◌, Bool, false, Option, none, some, List, [], ◌∷◌,
  Result, ok, err, failure, ◌>>=◌, ok_injective, map,
}
use monomer.Bytes.{Bytes}
use monomer.Tests.Codecs.{pad, put_field, take_field, take_field-put_field}
use monomer.Adapters.{
  EthCodec, DerivedBlockInfo, L1BlockInfo, MsgSetL1Attributes, DepositsTx,
  adapt_payload_txs_to_cosmos_txs, adapt_cosmos_txs_to_eth_txs, adapt_after_l1, leading_deposits,
  non_deposits, set_l1_attributes, user_deposit_txs, l1_attributes_bytes,
  adapt_non_deposit_cosmos_tx_to_eth_tx,
}
use monomer.Bytes.BigEndian.{big_bytes}
use monomer.Adapters.RoundTrip.{adapt_cosmos_txs_to_eth_txs-adapt_payload, decode_all, image}

abbrev pub put_list : List Bytes → Bytes
put_list [] = []
put_list (b ∷ bs) = put_field b (put_list bs)

abbrev pub take_list : ℕ → Bytes → Result (List Bytes)
take_list zero b = ok []
take_list (suc n) xs = do (b, rest) ← take_field xs; bs ← take_list n rest; ok (b ∷ bs)

abbrev pub count : List Bytes → ℕ
count [] = 0
count (b ∷ bs) = suc (count bs)

take_list-put_list : (bs : List Bytes) → take_list (count bs) (put_list bs) ≡ ok bs
take_list-put_list [] = refl
take_list-put_list (b ∷ bs) = rw (take_field-put_field b (put_list bs), take_list-put_list bs) refl

abbrev pub put_info : L1BlockInfo → Bytes → Bytes
put_info i rest =
    i.number
    ∷ i.time
    ∷ i.sequence_number
    ∷ i.base_fee_scalar
    ∷ i.blob_base_fee_scalar
    ∷ put_field i.base_fee (
        put_field i.block_hash (
          put_field i.batcher_addr (
            put_field i.l1_fee_overhead
              (put_field i.l1_fee_scalar (put_field i.blob_base_fee rest)))))

abbrev pub put_users : List Bytes → Bytes
put_users us = count us ∷ put_list us

abbrev pub put_deposits : Option MsgSetL1Attributes → List Bytes → Bytes
put_deposits none us = 0 ∷ put_users us
put_deposits (some m) us = 1 ∷ put_info m.l1_block_info (put_field m.eth_tx (put_users us))

abbrev pub take_users : Option MsgSetL1Attributes → Bytes → Result DepositsTx
take_users o [] = err (failure "end of input")
take_users o (n ∷ rest) = do
  bs ← take_list n rest
  ok (record { l1_attributes = o; user_deposits = bs })

abbrev pub take_attributes : Bytes → Result DepositsTx
take_attributes (number ∷ time ∷ sequence_number ∷ base_fee_scalar ∷ blob_base_fee_scalar ∷ rest) =
    do
      (base_fee, rest) ← take_field rest
      (block_hash, rest) ← take_field rest
      (batcher_addr, rest) ← take_field rest
      (l1_fee_overhead, rest) ← take_field rest
      (l1_fee_scalar, rest) ← take_field rest
      (blob_base_fee, rest) ← take_field rest
      (eth_tx, rest) ← take_field rest
      take_users
          (some (record {
            l1_block_info = record {
              number = number;
              time = time;
              base_fee = base_fee;
              block_hash = block_hash;
              sequence_number = sequence_number;
              batcher_addr = batcher_addr;
              l1_fee_overhead = l1_fee_overhead;
              l1_fee_scalar = l1_fee_scalar;
              base_fee_scalar = base_fee_scalar;
              blob_base_fee_scalar = blob_base_fee_scalar;
              blob_base_fee = blob_base_fee;
            };
            eth_tx = eth_tx;
          }))
          rest
take_attributes _ = err (failure "end of input")

abbrev pub take_deposits : Bytes → Result DepositsTx
take_deposits [] = err (failure "end of input")
take_deposits (zero ∷ rest) = take_users none rest
take_deposits (suc x ∷ rest) = take_attributes rest

pub take_deposits-put_deposits :
    (o : Option MsgSetL1Attributes) (us : List Bytes)
    → take_deposits (put_deposits o us) ≡ ok (record { l1_attributes = o; user_deposits = us })
take_deposits-put_deposits none us = rw (take_list-put_list us) refl
take_deposits-put_deposits (some m) us =
    rw
      (
        take_field-put_field m.l1_block_info.base_fee,
        take_field-put_field m.l1_block_info.block_hash,
        take_field-put_field m.l1_block_info.batcher_addr,
        take_field-put_field m.l1_block_info.l1_fee_overhead,
        take_field-put_field m.l1_block_info.l1_fee_scalar,
        take_field-put_field m.l1_block_info.blob_base_fee,
        take_field-put_field m.eth_tx,
        take_list-put_list us,
      )
      refl

abbrev pub info : DerivedBlockInfo
info = record {
  number = 7;
  time = 1700000000;
  block_hash = pad 32 [];
  sequence_number = 0;
  batcher_addr = pad 20 [];
  l1_fee_overhead = pad 32 [];
  l1_fee_scalar = pad 32 [];
  base_fee_scalar = 1;
  blob_base_fee_scalar = 1;
  base_fee = some 1000;
  blob_base_fee = none;
}

-- A deposit begins with 0x7e, any other transaction with 2.
abbrev pub starts_with : ℕ → Bytes → Bool
starts_with n [] = false
starts_with n (x ∷ xs) = n == x

abbrev pub tail : Bytes → Bytes
tail [] = []
tail (x ∷ xs) = xs

abbrev pub eth_codec : EthCodec
eth_codec = record {
  Tx = Bytes;
  unmarshal_binary = λ b. ok b;
  is_deposit_tx = starts_with 126;
  tx_data = tail;
  dynamic_fee_tx = λ b. 2 ∷ b;
  l1_block_info_from_bytes = λ b. ok info;
  marshal_deposits = λ t. ok (put_deposits t.l1_attributes t.user_deposits);
  unmarshal_deposits = take_deposits;
  unmarshal-marshal_deposits = λ t b h.
      ap take_deposits (sym (ok_injective (put_deposits t.l1_attributes t.user_deposits) b h))
      ∙ take_deposits-put_deposits t.l1_attributes t.user_deposits;
}

-- The L1 attributes, one user deposit and one transaction.
abbrev pub payload : List Bytes
payload = (126 ∷ 1 ∷ []) ∷ (126 ∷ 2 ∷ []) ∷ (2 ∷ 3 ∷ []) ∷ []

abbrev pub cosmos_txs : List Bytes
cosmos_txs =
    put_deposits (some (set_l1_attributes info (126 ∷ 1 ∷ []))) ((126 ∷ 2 ∷ []) ∷ [])
    ∷ (3 ∷ [])
    ∷ []

payload-cosmos_txs : adapt_payload_txs_to_cosmos_txs eth_codec payload ≡ ok cosmos_txs
unfolding adapt_payload_txs_to_cosmos_txs adapt_after_l1 leading_deposits non_deposits
    set_l1_attributes big_bytes
payload-cosmos_txs = refl

adapt_cosmos_txs_to_eth_txs-adapt_payload_example :
    (ts : List Bytes) × (decode_all eth_codec payload ≡ ok ts)
    × (adapt_cosmos_txs_to_eth_txs eth_codec cosmos_txs ≡ ok (map (image eth_codec) ts))
adapt_cosmos_txs_to_eth_txs-adapt_payload_example =
    adapt_cosmos_txs_to_eth_txs-adapt_payload eth_codec payload cosmos_txs payload-cosmos_txs

-- The payload comes back.
cosmos_txs-payload : adapt_cosmos_txs_to_eth_txs eth_codec cosmos_txs ≡ ok payload
unfolding adapt_cosmos_txs_to_eth_txs user_deposit_txs l1_attributes_bytes
    adapt_non_deposit_cosmos_tx_to_eth_tx set_l1_attributes big_bytes
cosmos_txs-payload = refl
