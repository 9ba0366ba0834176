-- ===== src/LocalDb/Write/Labels.antt =====
-- `UpdateLabels`: a block that is stored stays so, and is the one that each of its labels finds.
use monomer.Prelude.{
  ℕ, zero, suc, ◌≡◌, refl, ap, ◌∙◌, false, Option, some, [], ◌∷◌, arith, length, ok, ◌==◌, All,
  wrap_close_err,
}
use monomer.Bytes.{Bytes, bytes_eq}
use monomer.Bytes.BigEndian.{put_uint64, first_bytes}
use monomer.KvStore.{KvStore, IsReliable, lookup, select, apply}
use monomer.KvStore.Laws.{after}
use monomer.KvStore.Sorted.{Spares, select-apply}
use monomer.Block.{Block, new_block}
use monomer.LocalDb.Keys.{
  height_key, header_key, hash_key, label_key, label_bytes, Label, BlockCodec, to_hash,
}
use monomer.LocalDb.Keys.Ranges.{tx_range, tx_range_other}
use monomer.LocalDb.Lookup.{db_header_by_label, header_by_label, block_by_label, txs_of, values}
use monomer.LocalDb.Lookup.Stored.{IsStored, get_value-ok, header-ok, header_by_hash-ok, txs-ok}
use monomer.LocalDb.Write.{update_labels}
use monomer.LocalDb.Write.Ops.{label_ops-ok, label_puts, update-ok}
use monomer.LocalDb.Rollback.Effect.{label_value, label_puts-value}

module _ (S : KvStore) (C : BlockCodec) (R : IsReliable S) where
  label_puts-spared : (u s f : Bytes) (h : ℕ) → All (Spares (tx_range h)) (label_puts u s f)
  label_puts-spared u s f h =
      let label = λ (l : Label). tx_range_other h 3 (label_bytes l) refl in
      (label Label.unsafe, (label Label.safe, (label Label.finalized, tt)))

  pub label_puts-other :
      (u s f : Bytes) (n : ℕ) (k : Bytes) (old : Option Bytes)
      → (3 == n) ≡ false
      → after (label_puts u s f) (n ∷ k) old ≡ old
  unfolding bytes_eq
  label_puts-other u s f n k old other = rw other refl

  -- What the database holds after the labels were written.
  pub update_labels-Stored :
      (u s f : Bytes) (d : S.Db) (block : Block) (b : Bytes)
      → IsStored S C R d block b
      → lookup height_key (S.entries d) ≡ some (put_uint64 block.header.height)
      → ((update_labels S C u s f d).0 ≡ ok tt)
        × IsStored S C R (update_labels S C u s f d).1 block b
        × (lookup height_key (S.entries (update_labels S C u s f d).1)
            ≡ some (put_uint64 block.header.height))
        × ((l : Label)
            → lookup (label_key l) (S.entries (update_labels S C u s f d).1)
              ≡ some (label_value u s f l))
  unfolding update_labels
  update_labels-Stored u s f d block b stored top =
      let (d', done, reads, holds) = update-ok S C R (label_puts u s f) d in
      rw (label_ops-ok S C R u s f [], done) (go d' reads holds)
    where
      go :
          (d' : S.Db)
          → ((k : Bytes)
              → lookup k (S.entries d') ≡ after (label_puts u s f) k (lookup k (S.entries d)))
          → S.entries d' ≡ apply (label_puts u s f) (S.entries d)
          → (ok (tt {0}) ≡ ok tt)
            × IsStored S C R d' block b
            × (lookup height_key (S.entries d') ≡ some (put_uint64 block.header.height))
            × ((l : Label) → lookup (label_key l) (S.entries d') ≡ some (label_value u s f l))
      go d' reads holds = (
        refl,
        record {
          decodes = stored.decodes;
          at_height =
              reads (header_key block.header.height)
              ∙ (label_puts-other u s f _ _ _ refl ∙ stored.at_height);
          at_hash =
              reads (hash_key block.header.hash)
              ∙ (label_puts-other u s f _ _ _ refl ∙ stored.at_hash);
          its_txs =
              ap (λ es. values (select (tx_range block.header.height) es)) holds
              ∙ (ap values (
                    select-apply (tx_range block.header.height) (label_puts u s f) (S.entries d)
                      (label_puts-spared u s f block.header.height))
                  ∙ stored.its_txs);
          in_u64 = stored.in_u64;
        },
        reads height_key ∙ (label_puts-other u s f _ _ _ refl ∙ top),
        λ l. reads (label_key l) ∙ label_puts-value C u s f l _,
      )

  first_bytes-all : (n : ℕ) (b : Bytes) → length b ≡ n → first_bytes n b ≡ b
  unfolding first_bytes
  first_bytes-all zero [] h = refl
  first_bytes-all zero (x ∷ b) h = absurd (omega (arith, h))
  first_bytes-all (suc n) [] h = absurd (omega (arith, h))
  first_bytes-all (suc n) (x ∷ b) h = ap (λ r. x ∷ r) (first_bytes-all n b (omega (arith, h)))

  to_hash-32 : (b : Bytes) → length b ≡ 32 → to_hash b ≡ ok b
  unfolding to_hash
  to_hash-32 b h = rw h (ap ok (first_bytes-all 32 b h))

  -- A label that holds the hash of a stored block finds its header.
  pub db_header_by_label-ok :
      (l : Label) (d : S.Db) (block : Block) (b : Bytes)
      → IsStored S C R d block b
      → lookup (label_key l) (S.entries d) ≡ some block.header.hash
      → length block.header.hash ≡ 32
      → db_header_by_label S C l d ≡ ok block.header
  unfolding db_header_by_label header_by_label wrap_close_err
  db_header_by_label-ok l d block b stored labelled sized =
      rw
        (
          get_value-ok S C R d (label_key l) block.header.hash labelled,
          to_hash-32 block.header.hash sized,
          header_by_hash-ok S C R d block.header.hash (put_uint64 block.header.height) block.header
              stored.at_hash (header-ok S C R d block b stored),
          R.closes d,
        )
        refl

  pub block_by_label-ok :
      (l : Label) (d : S.Db) (block : Block) (b : Bytes)
      → IsStored S C R d block b
      → lookup (label_key l) (S.entries d) ≡ some block.header.hash
      → length block.header.hash ≡ 32
      → block_by_label S C l d ≡ ok block
  unfolding block_by_label header_by_label wrap_close_err txs_of new_block
  block_by_label-ok l d block b stored labelled sized =
      rw
        (
          get_value-ok S C R d (label_key l) block.header.hash labelled,
          to_hash-32 block.header.hash sized,
          header_by_hash-ok S C R d block.header.hash (put_uint64 block.header.height) block.header
              stored.at_hash (header-ok S C R d block b stored),
          R.closes d,
          txs-ok S C R d block b stored,
        )
        refl
