-- ===== src/Tests/Codecs.antt =====
-- Encodings that stand for JSON, CBOR and the transaction hash in the tests.
use monomer.Prelude.{
  ℕ, zero, suc, ◌≡◌, refl, sym, ◌∙◌, ok_injective, Option, none, some, [], ◌∷◌, length, ap, Result,
  ok, err, failure, ◌>>=◌,
}
use monomer.Bytes.{Bytes}
use monomer.Block.{Header}
use monomer.Mempool.{TxCodec, StorageElem, storage_elem}
use monomer.LocalDb.Keys.{BlockCodec}

-- A hash of any width: the first bytes, filled up.
abbrev pub pad : ℕ → Bytes → Bytes
pad zero b = []
pad (suc n) [] = 0 ∷ pad n []
pad (suc n) (x ∷ xs) = x ∷ pad n xs

pub length-pad : (n : ℕ) (b : Bytes) → length (pad n b) ≡ n
length-pad zero b = refl
length-pad (suc n) [] = ap suc (length-pad n [])
length-pad (suc n) (x ∷ xs) = ap suc (length-pad n xs)

-- Bytes up to an end mark.
abbrev pub put_field : Bytes → Bytes → Bytes
put_field [] rest = 0 ∷ rest
put_field (x ∷ xs) rest = suc x ∷ put_field xs rest

abbrev pub take_field : Bytes → Result (Bytes × Bytes)
take_field [] = err (failure "end of input")
take_field (zero ∷ rest) = ok ([], rest)
take_field (suc x ∷ rest) = do (xs, rest) ← take_field rest; ok (x ∷ xs, rest)

pub take_field-put_field : (b rest : Bytes) → take_field (put_field b rest) ≡ ok (b, rest)
take_field-put_field [] rest = refl
take_field-put_field (x ∷ xs) rest = rw (take_field-put_field xs rest) refl

abbrev put_option : Option Bytes → Bytes
put_option none = 0 ∷ []
put_option (some b) = 1 ∷ b

abbrev take_option : Bytes → Result (Option Bytes)
take_option [] = err (failure "end of input")
take_option (zero ∷ rest) = ok none
take_option (suc x ∷ rest) = ok (some rest)

take_option-put_option : (o : Option Bytes) → take_option (put_option o) ≡ ok o
take_option-put_option none = refl
take_option-put_option (some b) = refl

abbrev write_elem : StorageElem → Bytes
write_elem e = put_field e.txn (put_option e.next_hash)

abbrev read_elem : Bytes → Result StorageElem
read_elem b = do (txn, rest) ← take_field b; next ← take_option rest; ok (storage_elem txn next)

pub read_elem-write_elem : (e : StorageElem) → read_elem (write_elem e) ≡ ok e
read_elem-write_elem e =
    rw (take_field-put_field e.txn (put_option e.next_hash), take_option-put_option e.next_hash)
      refl

abbrev pub tx_codec : TxCodec
tx_codec = record {
  hash = pad 32;
  marshal = λ e. ok (write_elem e);
  unmarshal = read_elem;
  length-hash = length-pad 32;
  marshal_works = λ e. (write_elem e, refl);
  unmarshal-marshal =
      λ e b h. ap read_elem (sym (ok_injective (write_elem e) b h)) ∙ read_elem-write_elem e;
}

abbrev pub put_header : Header → Bytes
put_header h =
    h.chain_id
    ∷ h.height
    ∷ h.time
    ∷ h.gas_limit
    ∷ put_field h.parent_hash (
        put_field h.state_root
          (put_field h.hash (put_field h.coinbase (put_option h.parent_beacon_root))))

abbrev take_header : Bytes → Result Header
take_header (chain_id ∷ height ∷ time ∷ gas_limit ∷ rest) = do
  (parent_hash, rest) ← take_field rest
  (state_root, rest) ← take_field rest
  (hash, rest) ← take_field rest
  (coinbase, rest) ← take_field rest
  root ← take_option rest
  ok (record {
    chain_id = chain_id;
    height = height;
    time = time;
    parent_hash = parent_hash;
    state_root = state_root;
    parent_beacon_root = root;
    gas_limit = gas_limit;
    hash = hash;
    coinbase = coinbase;
  })
take_header _ = err (failure "end of input")

pub take_header-put_header : (h : Header) → take_header (put_header h) ≡ ok h
take_header-put_header h =
    rw
      (
        take_field-put_field h.parent_hash,
        take_field-put_field h.state_root,
        take_field-put_field h.hash,
        take_field-put_field h.coinbase,
        take_option-put_option h.parent_beacon_root,
      )
      refl

abbrev pub block_codec : BlockCodec
block_codec = record {
  tx_hash = pad 32;
  marshal = λ h. ok (put_header h);
  unmarshal = take_header;
  length-tx_hash = length-pad 32;
  marshal_works = λ h. (put_header h, refl);
  unmarshal-marshal =
      λ h b e. ap take_header (sym (ok_injective (put_header h) b e)) ∙ take_header-put_header h;
}
