-- ===== src/Engine/Attributes.antt =====
-- monomer.go: `PayloadAttributes` and its id.
use monomer.Prelude.{
  ℕ, ◌≡◌, refl, Bool, true, false, ◌||◌, Option, List, [], ◌∷◌, ◌++◌, length, if◌then◌else◌,
}
use monomer.Bytes.{Bytes}
use monomer.Bytes.BigEndian.{put_uint64, first_bytes}

-- The cached id is left out: it is what `ID` computes, since the attributes are never changed.
pub record PayloadAttributes : Type 0 where
  pub timestamp : ℕ
  pub prev_randao : Bytes
  pub suggested_fee_recipient : Bytes
  pub withdrawals : Option (List Bytes)
  pub no_tx_pool : Bool
  pub gas_limit : ℕ
  pub parent_beacon_block_root : Option Bytes
  pub parent_hash : Bytes
  pub height : ℕ
  pub cosmos_txs : List Bytes

abbrev pub is_empty {ℓ} : {A : Type ℓ} → List A → Bool
is_empty [] = true
is_empty (x ∷ xs) = false

-- `binary.Write` of a `bool`
abbrev pub bool_byte : Bool → Bytes
bool_byte true = 1 ∷ []
bool_byte false = 0 ∷ []

abbrev pub concat : List Bytes → Bytes
concat [] = []
concat (b ∷ bs) = b ++ concat bs

-- What `ID` hashes about the transactions.
unfoldable pub txs_preimage : PayloadAttributes → Bytes
txs_preimage p =
    if p.no_tx_pool || is_empty p.cosmos_txs
    then bool_byte p.no_tx_pool ++ put_uint64 (length p.cosmos_txs) ++ concat p.cosmos_txs
    else []

-- What `ID` hashes.
unfoldable pub id_preimage : PayloadAttributes → Bytes
id_preimage p =
    p.parent_hash
    ++ put_uint64 p.timestamp
    ++ p.prev_randao
    ++ p.suggested_fee_recipient
    ++ put_uint64 p.gas_limit
    ++ txs_preimage p

module _ (sha256 : Bytes → Bytes) where
  -- `PayloadAttributes.ID`
  unfoldable pub payload_id : PayloadAttributes → Bytes
  payload_id p = first_bytes 8 (sha256 (id_preimage p))

  -- With transactions of its own and the pool in use, the id of a payload does not depend on its
  -- transactions.
  pub payload_id-same_txs :
      (p : PayloadAttributes) (t u : Bytes) (ts us : List Bytes)
      → p.no_tx_pool ≡ false
      → payload_id (record p { cosmos_txs = t ∷ ts })
        ≡ payload_id (record p { cosmos_txs = u ∷ us })
  unfolding payload_id id_preimage txs_preimage
  payload_id-same_txs p t u ts us h = rw h refl
