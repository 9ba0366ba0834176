-- ===== src/Adapters/RoundTrip.antt =====
-- The two adapters, one after the other.
use monomer.Prelude.{
  ok_injective, ok_of_if, ok_of_failing, ok_of_bind, ◌≡◌, refl, ap, ◌∙◌, sym, Bool, true, false,
  not, some, List, [], ◌∷◌, ◌++◌, length, Result, ok, ◌>>=◌, failing, if◌then◌else◌, map, inl, inr,
}
use monomer.Bytes.{Bytes}
use monomer.Adapters.{
  DerivedBlockInfo, adapt_after_l1, EthCodec, leading_deposits, non_deposits, drop,
  adapt_payload_txs_to_cosmos_txs, adapt_cosmos_txs_to_eth_txs, user_deposit_txs,
  adapt_non_deposit_cosmos_tx_to_eth_tx, l1_attributes_bytes, set_l1_attributes,
}

cons_eq {ℓ} : {A : Type ℓ} {x y : A} {xs ys : List A} → x ≡ y → xs ≡ ys → x ∷ xs ≡ y ∷ ys
cons_eq p q = cc

not-false : (b : Bool) → not b ≡ false → b ≡ true
not-false true h = refl
not-false false h = cc

module _ (E : EthCodec) where
  open E use {
    Tx, unmarshal_binary, is_deposit_tx, tx_data, dynamic_fee_tx, l1_block_info_from_bytes,
    marshal_deposits, unmarshal_deposits, unmarshal-marshal_deposits,
  }

  -- What a transaction of a payload is after both adapters: a deposit is itself, and any other
  -- transaction is a fresh one that carries its data.
  abbrev pub image : Tx → Tx
  image t = if is_deposit_tx t then t else dynamic_fee_tx (tx_data t)

  abbrev pub decode_all : List Bytes → Result (List Tx)
  decode_all [] = ok []
  decode_all (b ∷ bs) = do t ← unmarshal_binary b; ts ← decode_all bs; ok (t ∷ ts)

  -- What an adapted transaction is.
  image_deposit : (t : Tx) → is_deposit_tx t ≡ true → image t ≡ t
  image_deposit t h = rw h refl

  image_other : (t : Tx) → is_deposit_tx t ≡ false → image t ≡ dynamic_fee_tx (tx_data t)
  image_other t h = rw h refl

  -- One more transaction that decodes.
  decode_all-cons :
      (b : Bytes) (bs : List Bytes) (t : Tx) (ts : List Tx)
      → unmarshal_binary b ≡ ok t
      → decode_all bs ≡ ok ts
      → decode_all (b ∷ bs) ≡ ok (t ∷ ts)
  decode_all-cons b bs t ts h k = rw (h, k) refl

  user_deposit_txs-cons :
      (b : Bytes) (bs : List Bytes) (t : Tx) (ts : List Tx)
      → unmarshal_binary b ≡ ok t
      → is_deposit_tx t ≡ true
      → user_deposit_txs E bs ≡ ok ts
      → user_deposit_txs E (b ∷ bs) ≡ ok (t ∷ ts)
  unfolding user_deposit_txs
  user_deposit_txs-cons b bs t ts h d k = rw (h, d, k) refl

  image-tail :
      (t : Tx)
      → is_deposit_tx t ≡ false
      → (ts : List Tx) (rs rest : List Bytes)
      → map image ts ≡ map (adapt_non_deposit_cosmos_tx_to_eth_tx E) rs
      → ok (tx_data t ∷ rs) ≡ ok rest
      → map image (t ∷ ts) ≡ map (adapt_non_deposit_cosmos_tx_to_eth_tx E) rest
  unfolding adapt_non_deposit_cosmos_tx_to_eth_tx
  image-tail t d ts rs rest o q =
      cons_eq (image_other t d) o
      ∙ ap (map (adapt_non_deposit_cosmos_tx_to_eth_tx E)) (ok_injective (tx_data t ∷ rs) rest q)

  -- Transactions after the deposits: each is fresh, with the data of the payload's.
  pub non_deposits-decode :
      (bs rest : List Bytes)
      → non_deposits E bs ≡ ok rest
      → (ts : List Tx) × (decode_all bs ≡ ok ts)
        × (map image ts ≡ map (adapt_non_deposit_cosmos_tx_to_eth_tx E) rest)
  unfolding non_deposits adapt_non_deposit_cosmos_tx_to_eth_tx
  non_deposits-decode [] rest h =
      ([], refl, ap (map (adapt_non_deposit_cosmos_tx_to_eth_tx E)) (ok_injective [] rest h))
  non_deposits-decode (b ∷ bs) rest h =
      let (t, e, k) = ok_of_bind (failing "unmarshal binary tx" (unmarshal_binary b)) _ rest h in
      let e' = ok_of_failing "unmarshal binary tx" (unmarshal_binary b) t e in
      elim (ok_of_if (is_deposit_tx t) _ _ rest k) [
        | inl (d, k') ↦ cc
        | inr (d, k') ↦
            let (rs, m, q) = ok_of_bind (non_deposits E bs) _ rest k' in
            let (ts, n, o) = non_deposits-decode bs rs m in
            (t ∷ ts, decode_all-cons b bs t ts e' n, image-tail t d ts rs rest o q)
      ]

  -- The deposits of a payload, with what follows them.
  pub leading_deposits-decode :
      (bs ds rest : List Bytes)
      → leading_deposits E bs ≡ ok ds
      → non_deposits E (drop (length ds) bs) ≡ ok rest
      → (us ts : List Tx) × (user_deposit_txs E ds ≡ ok us)
        × (decode_all bs ≡ ok ts)
        × (map image ts ≡ us ++ map (adapt_non_deposit_cosmos_tx_to_eth_tx E) rest)
  unfolding leading_deposits user_deposit_txs
  leading_deposits-decode [] ds rest h k =
      let p = ok_injective [] ds h in
      let (ts, n, o) =
        non_deposits-decode [] rest (ap (λ z. non_deposits E (drop (length z) [])) p ∙ k) in
      ([], ts, ap (user_deposit_txs E) (sym p), n, o)
  leading_deposits-decode (b ∷ bs) ds rest h k =
      let (t, e, h') =
        ok_of_bind (failing "unmarshal binary eth deposit tx bytes" (unmarshal_binary b)) _ ds h in
      let e' = ok_of_failing "unmarshal binary eth deposit tx bytes" (unmarshal_binary b) t e in
      elim (ok_of_if (is_deposit_tx t) _ _ ds h') [
        | inl (d, m) ↦
            let (ds', n, q) = ok_of_bind (leading_deposits E bs) _ ds m in
            let p = ok_injective (b ∷ ds') ds q in
            let (us, ts, x, y, z) =
              leading_deposits-decode bs ds' rest n
                (ap (λ z. non_deposits E (drop (length z) (b ∷ bs))) p ∙ k) in
            (
              t ∷ us,
              t ∷ ts,
              ap (user_deposit_txs E) (sym p) ∙ user_deposit_txs-cons b ds' t us e' d x,
              decode_all-cons b bs t ts e' y,
              cons_eq (image_deposit t d) z,
            )
        | inr (d, m) ↦
            let p = ok_injective [] ds m in
            let (ts, n, o) =
              non_deposits-decode (b ∷ bs) rest
                (ap (λ z. non_deposits E (drop (length z) (b ∷ bs))) p ∙ k) in
            ([], ts, ap (user_deposit_txs E) (sym p), n, o)
      ]

  -- The deposit transaction of a block, read back.
  adapt_cosmos_txs_to_eth_txs-cons :
      (i : DerivedBlockInfo) (l deposit_bytes : Bytes) (ds rest : List Bytes) (t : Tx)
      (us : List Tx)
      → unmarshal_binary l ≡ ok t
      → marshal_deposits
          (record { l1_attributes = some (set_l1_attributes i l); user_deposits = ds })
        ≡ ok deposit_bytes
      → user_deposit_txs E ds ≡ ok us
      → adapt_cosmos_txs_to_eth_txs E (deposit_bytes ∷ rest)
        ≡ ok (t ∷ us ++ map (adapt_non_deposit_cosmos_tx_to_eth_tx E) rest)
  unfolding adapt_cosmos_txs_to_eth_txs l1_attributes_bytes set_l1_attributes
  adapt_cosmos_txs_to_eth_txs-cons i l deposit_bytes ds rest t us h m u =
      rw (unmarshal-marshal_deposits _ deposit_bytes m, h, u) refl

  adapt_after_l1-decode :
      (l : Bytes) (t : Tx) (bs cs : List Bytes)
      → unmarshal_binary l ≡ ok t
      → is_deposit_tx t ≡ true
      → adapt_after_l1 E l t bs ≡ ok cs
      → (ts : List Tx) × (decode_all (l ∷ bs) ≡ ok ts)
        × (adapt_cosmos_txs_to_eth_txs E cs ≡ ok (map image ts))
  unfolding adapt_after_l1
  adapt_after_l1-decode l t bs cs e d h =
      let (i, _, h) =
        ok_of_bind (failing "l1 block info from bytes" (l1_block_info_from_bytes (tx_data t))) _ cs
          h in
      let (ds, m, h) = ok_of_bind (leading_deposits E bs) _ cs h in
      let (w, f, h) =
        ok_of_bind
          (failing "marshal tx" (
            marshal_deposits
              (record { l1_attributes = some (set_l1_attributes i l); user_deposits = ds })))
          _ cs h in
      let (rest, n, h) = ok_of_bind (non_deposits E (drop (length ds) bs)) _ cs h in
      let (us, ts, x, y, z) = leading_deposits-decode bs ds rest m n in
      let back =
        adapt_cosmos_txs_to_eth_txs-cons i l w ds rest t us e (ok_of_failing "marshal tx" _ w f)
          x in
      (
        t ∷ ts,
        decode_all-cons l bs t ts e y,
        ap (adapt_cosmos_txs_to_eth_txs E) (sym (ok_injective (w ∷ rest) cs h))
            ∙ back
            ∙ ap ok (cons_eq (sym (image_deposit t d)) (sym z)),
      )

  -- A payload that the first adapter accepts comes back from the second one: the L1 attributes
  -- transaction and the user deposits as they were, in order, and each other transaction as a fresh one
  -- with the data it had.
  pub adapt_cosmos_txs_to_eth_txs-adapt_payload :
      (payload cosmos_txs : List Bytes)
      → adapt_payload_txs_to_cosmos_txs E payload ≡ ok cosmos_txs
      → (ts : List Tx) × (decode_all payload ≡ ok ts)
        × (adapt_cosmos_txs_to_eth_txs E cosmos_txs ≡ ok (map image ts))
  unfolding adapt_payload_txs_to_cosmos_txs
  adapt_cosmos_txs_to_eth_txs-adapt_payload [] cs h = cc
  adapt_cosmos_txs_to_eth_txs-adapt_payload (l ∷ bs) cs h =
      let (t, e, h1) = ok_of_bind (failing "unmarshal binary" (unmarshal_binary l)) _ cs h in
      let e' = ok_of_failing "unmarshal binary" (unmarshal_binary l) t e in
      elim (ok_of_if (not (is_deposit_tx t)) _ _ cs h1) [
        | inl (d, h2) ↦ cc
        | inr (d, h2) ↦ adapt_after_l1-decode l t bs cs e' (not-false (is_deposit_tx t) d) h2
      ]
