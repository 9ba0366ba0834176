-- ===== src/LocalDb/Lookup/Stored.antt =====
-- What the reads of the block store return, from what the database holds.
use monomer.Prelude.{
  inl, inr, Option-cases, wrap_close_err-none, Option-cases, wrapped, ℕ, ◌+◌, ◌%◌, ◌<◌, ◌≡◌, refl,
  ap, ◌∙◌, Option, none, some, [], arith, Result, ok, err, not_found, wrap_close_err,
}
use monomer.Bytes.{Bytes}
use monomer.Bytes.BigEndian.{u64_mod, put_uint64, uint64-put_uint64}
use monomer.KvStore.{KvStore, IsReliable, lookup, select, in_range, apply}
use monomer.KvStore.Batch.{get_now}
use monomer.Block.{Header, Block, new_block}
use monomer.LocalDb.Keys.{
  bucket_header_by_height, key, bucket_tx_by_height_and_index, height_key, header_key, hash_key,
  BlockCodec,
}
use monomer.LocalDb.Keys.Ranges.{tx_range}
use monomer.LocalDb.Lookup.{
  failing, get_value, header_by_height, header_by_hash, get_height, values, txs_in_range,
  view_block_by_height, txs_of, height, head_header, head_block, db_header_by_hash,
  db_header_by_height, block_by_height, block_by_hash,
}

module _ (S : KvStore) (C : BlockCodec) (R : IsReliable S) (d : S.Db) where
  abbrev stored : Bytes → Option Bytes
  stored k = lookup k (S.entries d)

  pub get_value-ok : (k v : Bytes) → stored k ≡ some v → get_value S C (d, []) k ≡ ok v
  unfolding get_value
  get_value-ok k v e = ground (arith, get_now S R d k)

  pub get_value-none : (k : Bytes) → stored k ≡ none → get_value S C (d, []) k ≡ err not_found
  unfolding get_value
  get_value-none k e = ground (arith, get_now S R d k)

  pub header_by_height-ok :
      (part b : Bytes) (header : Header)
      → stored (key bucket_header_by_height part) ≡ some b
      → C.unmarshal b ≡ ok header
      → header_by_height S C (d, []) part ≡ ok header
  unfolding header_by_height wrap_close_err
  header_by_height-ok part b header e dec =
      ground (arith, get_value-ok (key bucket_header_by_height part) b e, R.closes d)

  pub header_by_hash-ok :
      (hash part : Bytes) (header : Header)
      → stored (hash_key hash) ≡ some part
      → header_by_height S C (d, []) part ≡ ok header
      → header_by_hash S C (d, []) hash ≡ ok header
  unfolding header_by_hash wrap_close_err
  header_by_hash-ok hash part header e f =
      ground (arith, get_value-ok (hash_key hash) part e, R.closes d)

  pub txs_in_range-ok :
      (start end : Bytes)
      → txs_in_range S C (d, []) start end
        ≡ ok (
            values (
              select
                (in_range
                  (key bucket_tx_by_height_and_index start)
                  (key bucket_tx_by_height_and_index end))
                (S.entries d)))
  unfolding txs_in_range wrap_close_err apply
  txs_in_range-ok start end = rw (R.iterate_works d [], R.closes d) refl

  pub get_height-ok :
      (part : Bytes) → stored height_key ≡ some part → get_height S C (d, []) ≡ ok part
  unfolding get_height
  get_height-ok part e = ground (arith, get_value-ok height_key part e, R.closes d)

  pub height-ok :
      (n : ℕ) → n < u64_mod → stored height_key ≡ some (put_uint64 n) → height S C d ≡ ok n
  unfolding height
  height-ok n small top =
      ground
        (arith, get_value-ok height_key (put_uint64 n) top, uint64-put_uint64 n small, R.closes d)

  -- What `headerByHeight` makes of the bytes at its key.
  abbrev pub decoded : Option Bytes → Result Header
  decoded none = err not_found
  decoded (some b) = failing "unmarshal cbor" (C.unmarshal b)

  pub header_by_height_lem :
      (part : Bytes)
      → header_by_height S C (d, []) part ≡ decoded (stored (key bucket_header_by_height part))
  unfolding header_by_height
  header_by_height_lem part = elim (Option-cases (stored (key bucket_header_by_height part))) [
    | inl e ↦ rw (get_value-none (key bucket_header_by_height part) e, e) refl
    | inr (b, e) ↦
        rw (get_value-ok (key bucket_header_by_height part) b e, e, R.closes d)
          (wrap_close_err-none (failing "unmarshal cbor" (C.unmarshal b)))
  ]

  pub db_header_by_hash-missing :
      (hash : Bytes)
      → stored (hash_key hash) ≡ none
      → db_header_by_hash S C hash d ≡ err (wrapped "get height by hash" not_found)
  unfolding db_header_by_hash header_by_hash wrap_close_err
  db_header_by_hash-missing hash e = ground (arith, get_value-none (hash_key hash) e, R.closes d)

  -- A block that is stored under its height and its hash, with its transactions in order.
  pub record IsStored (block : Block) (b : Bytes) : Type 0 where
    pub decodes : C.unmarshal b ≡ ok block.header
    pub at_height : stored (header_key block.header.height) ≡ some b
    pub at_hash : stored (hash_key block.header.hash) ≡ some (put_uint64 block.header.height)
    pub its_txs : values (select (tx_range block.header.height) (S.entries d)) ≡ block.txs
    pub in_u64 : block.header.height < u64_mod

  module _ (block : Block) (b : Bytes) (s : IsStored block b) where
    abbrev h : ℕ
    h = block.header.height

    pub header-ok : header_by_height S C (d, []) (put_uint64 h) ≡ ok block.header
    header-ok = header_by_height-ok (put_uint64 h) b block.header s.at_height s.decodes

    pub db_header_by_height-ok : db_header_by_height S C h d ≡ ok block.header
    unfolding db_header_by_height
    db_header_by_height-ok = header-ok

    pub db_header_by_hash-ok : db_header_by_hash S C block.header.hash d ≡ ok block.header
    unfolding db_header_by_hash wrap_close_err
    db_header_by_hash-ok =
        rw
          (
            header_by_hash-ok block.header.hash (put_uint64 h) block.header s.at_hash header-ok,
            R.closes d,
          )
          refl

    pub txs-ok :
        txs_in_range S C (d, []) (put_uint64 h) (put_uint64 ((h + 1) % u64_mod)) ≡ ok block.txs
    txs-ok = txs_in_range-ok (put_uint64 h) (put_uint64 ((h + 1) % u64_mod)) ∙ ap ok s.its_txs

    view-ok : view_block_by_height S C (d, []) (put_uint64 h) ≡ ok block
    unfolding view_block_by_height new_block
    view-ok = rw (header-ok, uint64-put_uint64 h s.in_u64, txs-ok) refl

    pub block_by_height-ok : block_by_height S C h d ≡ ok block
    unfolding block_by_height wrap_close_err
    block_by_height-ok = rw (view-ok, R.closes d) refl

    pub block_by_hash-ok : block_by_hash S C block.header.hash d ≡ ok block
    unfolding block_by_hash wrap_close_err txs_of new_block
    block_by_hash-ok =
        rw
          (
            header_by_hash-ok block.header.hash (put_uint64 h) block.header s.at_hash header-ok,
            txs-ok,
            R.closes d,
          )
          refl

    module _ (top : stored height_key ≡ some (put_uint64 h)) where
      pub head_header-ok : head_header S C d ≡ ok block.header
      unfolding head_header wrap_close_err
      head_header-ok = rw (get_height-ok (put_uint64 h) top, header-ok, R.closes d) refl

      pub head_block-ok : head_block S C d ≡ ok block
      unfolding head_block wrap_close_err
      head_block-ok = rw (get_height-ok (put_uint64 h) top, view-ok, R.closes d) refl
