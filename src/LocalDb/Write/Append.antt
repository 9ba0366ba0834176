-- ===== src/LocalDb/Write/Append.antt =====
-- `AppendBlock`: the block that was appended is the one that every read returns.
use mathlib.Core.List.{append-nil, append_assoc}
use monomer.Prelude.{
  ℕ, ◌+◌, ◌<◌, ◌≡◌, refl, ap, ◌∙◌, sym, false, Option, some, List, [], ◌∷◌, ◌++◌, arith, length,
  Result, ok, ◌==◌, All,
}
use monomer.Bytes.{bytes_ne_of_head, Bytes, bytes_eq_refl}
use monomer.Bytes.BigEndian.{u64_mod, put_uint64}
use monomer.KvStore.{KvStore, IsReliable, Entries, Op, put, lookup, select, insert, apply, apply_op}
use monomer.KvStore.Laws.{after}
use monomer.KvStore.Sorted.{
  Spares, IsSorted, Below, Below-snoc, select-insert_last, select-apply, apply-IsSorted,
}
use monomer.Block.{Block}
use monomer.LocalDb.Keys.{
  height_key, header_key, hash_key, height_and_index, tx_key, tx_hash_key, BlockCodec,
}
use monomer.LocalDb.Keys.Ranges.{tx_range, tx_key-lt, tx_key-in_range, tx_range_other}
use monomer.LocalDb.Lookup.{values, height, head_header, head_block, block_by_height, block_by_hash}
use monomer.LocalDb.Lookup.Stored.{
  block_by_hash-ok, block_by_height-ok, head_block-ok, head_header-ok, height-ok, IsStored,
}
use monomer.LocalDb.Write.{append_block}
use monomer.LocalDb.Write.Ops.{tx_puts, block_puts, update-ok, append_block-ok}

-- The keys and values of a block's transactions, from index `i` on.
abbrev tx_entries : ℕ → ℕ → List Bytes → Entries
tx_entries h i [] = []
tx_entries h i (tx ∷ txs) = (tx_key h i, tx) ∷ tx_entries h (i + 1) txs

values-tx_entries : (h i : ℕ) (txs : List Bytes) → values (tx_entries h i txs) ≡ txs
values-tx_entries h i [] = refl
values-tx_entries h i (tx ∷ txs) = ap (λ r. tx ∷ r) (values-tx_entries h (i + 1) txs)

module _ (C : BlockCodec) where
  -- The transactions are written to two buckets.
  after-tx_puts :
      (h i : ℕ) (txs : List Bytes) (c : ℕ) (part : Bytes) (old : Option Bytes)
      → (4 == c) ≡ false
      → (5 == c) ≡ false
      → after (tx_puts C h i txs) (c ∷ part) old ≡ old
  after-tx_puts h i [] c part old e f = refl
  after-tx_puts h i (tx ∷ txs) c part old e f =
      after-tx_puts h (i + 1) txs c part _ e f
      ∙ ground (
        arith,
        bytes_ne_of_head 4 c (height_and_index h i) part e,
        bytes_ne_of_head 5 c (C.tx_hash tx) part f,
      )

  -- An iterator over the range of the height sees them in order.
  select-tx_puts :
      (h i : ℕ) (txs : List Bytes) (es : Entries)
      → h + 1 < u64_mod
      → i + length txs < u64_mod
      → IsSorted es
      → Below (tx_key h i) (select (tx_range h) es)
      → select (tx_range h) (apply (tx_puts C h i txs) es)
        ≡ select (tx_range h) es ++ tx_entries h i txs
  unfolding apply
  select-tx_puts h i [] es fits few s b = sym (append-nil _)
  select-tx_puts h i (tx ∷ txs) es fits few s b =
      let two =
        put (tx_key h i) tx ∷ put (tx_hash_key (C.tx_hash tx)) (height_and_index h i) ∷ [] in
      let step : select (tx_range h) (apply two es)
          ≡ select (tx_range h) es ++ (tx_key h i, tx) ∷ [] =
        unfold apply_op in
        (select-apply (tx_range h) (put (tx_hash_key (C.tx_hash tx)) (height_and_index h i) ∷ [])
            (insert (tx_key h i) tx es) (tx_range_other h 5 (C.tx_hash tx) refl, tt)
          ∙ select-insert_last (tx_range h) (tx_key h i) tx es (tx_key-in_range h i fits) s b) in
      select-tx_puts h (i + 1) txs (apply two es) fits (omega arith) (apply-IsSorted two es s) (
        rw step (
          Below-snoc (tx_key h i) tx (tx_key h (i + 1)) (select (tx_range h) es) b
            (tx_key-lt h i (omega arith))))
      ∙ ap (λ r. r ++ tx_entries h (i + 1) txs) step
      ∙ append_assoc (select (tx_range h) es) ((tx_key h i, tx) ∷ []) (tx_entries h (i + 1) txs)

  module _ (block : Block) (b : Bytes) where
    abbrev h : ℕ
    h = block.header.height

    -- The first writes of `AppendBlock`, before its loop.
    abbrev pub head_puts : List Op
    head_puts =
        put (header_key h) b
        ∷ put (hash_key block.header.hash) (put_uint64 h)
        ∷ put height_key (put_uint64 h)
        ∷ []

    pub after-block_puts :
        (c : ℕ) (part : Bytes) (old : Option Bytes)
        → (4 == c) ≡ false
        → (5 == c) ≡ false
        → after (block_puts C block b) (c ∷ part) old ≡ after head_puts (c ∷ part) old
    after-block_puts c part old =
        after-tx_puts h 0 block.txs c part (after head_puts (c ∷ part) old)

    pub after_header :
        (old : Option Bytes) → after (block_puts C block b) (header_key h) old ≡ some b
    after_header old =
        after-block_puts 1 (put_uint64 h) old refl refl
        ∙ ground (
          arith,
          bytes_eq_refl (header_key h),
          bytes_ne_of_head 2 1 block.header.hash (put_uint64 h) refl,
          bytes_ne_of_head 6 1 [] (put_uint64 h) refl,
        )

    after_hash :
        (old : Option Bytes)
        → after (block_puts C block b) (hash_key block.header.hash) old ≡ some (put_uint64 h)
    after_hash old =
        after-block_puts 2 block.header.hash old refl refl
        ∙ ground (
          arith,
          bytes_eq_refl (hash_key block.header.hash),
          bytes_ne_of_head 6 2 [] block.header.hash refl,
        )

    pub after_height :
        (old : Option Bytes) → after (block_puts C block b) height_key old ≡ some (put_uint64 h)
    after_height old =
        after-block_puts 6 [] old refl refl ∙ ground (arith, bytes_eq_refl height_key)

    spared : All (Spares (tx_range h)) head_puts
    spared = (
      tx_range_other h 1 (put_uint64 h) refl,
      (tx_range_other h 2 block.header.hash refl, (tx_range_other h 6 [] refl, tt)),
    )

    select-block_puts :
        (es : Entries)
        → h + 1 < u64_mod
        → length block.txs < u64_mod
        → IsSorted es
        → select (tx_range h) es ≡ []
        → select (tx_range h) (apply (block_puts C block b) es) ≡ tx_entries h 0 block.txs
    unfolding apply
    select-block_puts es fits few s empty =
        let none_yet : select (tx_range h) (apply head_puts es) ≡ [] =
          select-apply (tx_range h) head_puts es spared ∙ empty in
        select-tx_puts h 0 block.txs (apply head_puts es) fits (omega arith)
          (apply-IsSorted head_puts es s) (rw none_yet tt)
        ∙ ap (λ r. r ++ tx_entries h 0 block.txs) none_yet

module _ (S : KvStore) (C : BlockCodec) (R : IsReliable S) where
  -- What every read says of a block.
  abbrev pub Reads : Block → Result (Unit {0}) × S.Db → Type 0
  Reads block res =
      (res.0 ≡ ok tt)
      × (height S C res.1 ≡ ok block.header.height)
      × (head_header S C res.1 ≡ ok block.header)
      × (head_block S C res.1 ≡ ok block)
      × (block_by_height S C block.header.height res.1 ≡ ok block)
      × (block_by_hash S C block.header.hash res.1 ≡ ok block)

  -- What the database holds after a block was appended.
  pub append_block-Stored :
      (block : Block) (d : S.Db)
      → block.header.height + 1 < u64_mod
      → length block.txs < u64_mod
      → IsSorted (S.entries d)
      → select (tx_range block.header.height) (S.entries d) ≡ []
      → ((append_block S C block d).0 ≡ ok tt)
        × (b : Bytes) × IsStored S C R (append_block S C block d).1 block b
        × (lookup height_key (S.entries (append_block S C block d).1)
            ≡ some (put_uint64 block.header.height))
  append_block-Stored block d fits few s empty =
      let (b, encoded, is) = append_block-ok S C R block d in
      let (d', done, reads, holds) = update-ok S C R (block_puts C block b) d in
      rw (is, done) (stored b d' (C.unmarshal-marshal block.header b encoded) reads holds)
    where
      stored :
          (b : Bytes) (d' : S.Db)
          → C.unmarshal b ≡ ok block.header
          → ((k : Bytes)
              → lookup k (S.entries d') ≡ after (block_puts C block b) k (lookup k (S.entries d)))
          → S.entries d' ≡ apply (block_puts C block b) (S.entries d)
          → (ok (tt {0}) ≡ ok tt)
            × (b : Bytes) × IsStored S C R d' block b
            × (lookup height_key (S.entries d') ≡ some (put_uint64 block.header.height))
      stored b d' dec reads holds =
          let in_range = select-block_puts C block b (S.entries d) fits few s empty in
          (
            refl,
            b,
            record {
              decodes = dec;
              at_height = reads (header_key block.header.height) ∙ after_header C block b _;
              at_hash = reads (hash_key block.header.hash) ∙ after_hash C block b _;
              its_txs = rw (holds, in_range) (values-tx_entries block.header.height 0 block.txs);
              in_u64 = omega arith;
            },
            reads height_key ∙ after_height C block b _,
          )

  -- What is stored and at the top is what every read returns.
  pub Stored-Reads :
      (block : Block) (b : Bytes) (d' : S.Db) (r : Result (Unit {0}))
      → r ≡ ok tt
      → IsStored S C R d' block b
      → lookup height_key (S.entries d') ≡ some (put_uint64 block.header.height)
      → Reads block (r, d')
  Stored-Reads block b d' r done stored top = (
    done,
    height-ok S C R d' block.header.height stored.in_u64 top,
    head_header-ok S C R d' block b stored top,
    head_block-ok S C R d' block b stored top,
    block_by_height-ok S C R d' block b stored,
    block_by_hash-ok S C R d' block b stored,
  )

  -- After a block was appended, every read returns it, by height, by hash and as the head, if the
  -- database does not fail, holds its entries in order and holds no transaction of that height, and
  -- if the next height and the number of transactions fit 64 bits.
  pub append_block-Reads :
      (block : Block) (d : S.Db)
      → block.header.height + 1 < u64_mod
      → length block.txs < u64_mod
      → IsSorted (S.entries d)
      → select (tx_range block.header.height) (S.entries d) ≡ []
      → Reads block (append_block S C block d)
  append_block-Reads block d fits few s empty =
      let (done, b, stored, top) = append_block-Stored block d fits few s empty in
      Stored-Reads block b (append_block S C block d).1 (append_block S C block d).0 done stored top
