-- ===== src/LocalDb/Keys.antt =====
-- monomerdb/localdb/buckets.go, the labels, and what the block store takes from elsewhere.
pub mod Ranges
use monomer.Prelude.{ℕ, ◌+◌, ◌≡◌, [], ◌∷◌, ◌++◌, length, Result, ok, panic, leb, if◌then◌else◌}
use monomer.Bytes.{Bytes}
use monomer.Bytes.BigEndian.{put_uint64, first_bytes}
use monomer.Block.{Header}

-- `dbBucket`: `iota + 1`.
pub data Bucket : Type 0 where
  bucket_header_by_height bucket_height_by_hash bucket_hash_by_label : Bucket
  bucket_tx_by_height_and_index bucket_tx_height_and_index_by_hash bucket_height : Bucket

abbrev pub bucket_byte : Bucket → ℕ
bucket_byte bucket_header_by_height = 1
bucket_byte bucket_height_by_hash = 2
bucket_byte bucket_hash_by_label = 3
bucket_byte bucket_tx_by_height_and_index = 4
bucket_byte bucket_tx_height_and_index_by_hash = 5
bucket_byte bucket_height = 6

-- `dbBucket.Key`, with its parts joined.
abbrev pub key : Bucket → Bytes → Bytes
key b part = bucket_byte b ∷ part

-- `(bucket + 1).Key()`, where the keys of the next bucket begin.
abbrev pub next_bucket : Bucket → Bytes
next_bucket b = (bucket_byte b + 1) ∷ []

-- `eth.Unsafe`, `eth.Safe` and `eth.Finalized`.
pub data Label : Type 0 where
  unsafe safe finalized : Label

abbrev pub label_bytes : Label → Bytes
label_bytes Label.unsafe = b'u' ∷ b'n' ∷ b's' ∷ b'a' ∷ b'f' ∷ b'e' ∷ []
label_bytes Label.safe = b's' ∷ b'a' ∷ b'f' ∷ b'e' ∷ []
label_bytes Label.finalized = b'f' ∷ b'i' ∷ b'n' ∷ b'a' ∷ b'l' ∷ b'i' ∷ b'z' ∷ b'e' ∷ b'd' ∷ []

-- `unsafeLabelKey`, `safeLabelKey`, `finalizedLabelKey` and `heightKey`.
abbrev pub label_key : Label → Bytes
label_key l = key bucket_hash_by_label (label_bytes l)

abbrev pub height_key : Bytes
height_key = key bucket_height []

abbrev pub header_key : ℕ → Bytes
header_key h = key bucket_header_by_height (put_uint64 h)

abbrev pub hash_key : Bytes → Bytes
hash_key h = key bucket_height_by_hash h

-- `slices.Concat(heightBytes, marshalUint64(uint64(i)))`
abbrev pub height_and_index : ℕ → ℕ → Bytes
height_and_index h i = put_uint64 h ++ put_uint64 i

abbrev pub tx_key : ℕ → ℕ → Bytes
tx_key h i = key bucket_tx_by_height_and_index (height_and_index h i)

abbrev pub tx_hash_key : Bytes → Bytes
tx_hash_key h = key bucket_tx_height_and_index_by_hash h

-- The block store takes CBOR for headers, and CometBFT's transaction hash, from elsewhere.
pub record BlockCodec : Type 0 where
  pub tx_hash : Bytes → Bytes
  pub marshal : Header → Result Bytes
  pub unmarshal : Bytes → Result Header
  pub length-tx_hash : (tx : Bytes) → length (tx_hash tx) ≡ 32
  pub marshal_works : (h : Header) → (b : Bytes) × (marshal h ≡ ok b)
  pub unmarshal-marshal : (h : Header) (b : Bytes) → marshal h ≡ ok b → unmarshal b ≡ ok h

-- `common.Hash(b)`: the conversion of a slice that is too short panics.
unfoldable pub to_hash : Bytes → Result Bytes
to_hash b = if leb 32 (length b) then ok (first_bytes 32 b) else panic "slice to array conversion"
