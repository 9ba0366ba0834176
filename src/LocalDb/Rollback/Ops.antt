-- ===== src/LocalDb/Rollback/Ops.antt =====
-- The batch of `Rollback` when the database does not fail and the headers that go can be read.
use mathlib.Core.List.{append_assoc, append-nil}
use monomer.Prelude.{
  true, false, Bool, ℕ, ◌+◌, ◌%◌, ◌<◌, ◌≡◌, refl, ap, sym, some, List, [], ◌∷◌, ◌++◌, arith, ok,
  wrap_close_err, All,
}
use monomer.Bytes.{bytes_lt, Bytes}
use monomer.Bytes.BigEndian.{u64_mod, put_uint64, uint64-put_uint64}
use monomer.KvStore.{
  KvStore, IsReliable, Entries, Op, put, remove, remove_range, lookup, select, in_range, apply,
}
use monomer.KvStore.Batch.{add_op-ok}
use monomer.KvStore.Sorted.{Spares, select-apply}
use monomer.Block.{Header}
use monomer.LocalDb.Keys.{
  key, next_bucket, bucket_byte, bucket_header_by_height, bucket_tx_by_height_and_index,
  bucket_tx_height_and_index_by_hash, height_key, hash_key, tx_hash_key, BlockCodec,
}
use monomer.LocalDb.Lookup.{values}
use monomer.LocalDb.Lookup.Stored.{get_value-ok}
use monomer.LocalDb.Write.Ops.{label_puts, label_ops-ok}
use monomer.LocalDb.Rollback.{
  delete_headers, delete_txs, rollback_end, rollback_txs, rollback_headers, rollback_ops,
}

-- The ranges that `Rollback` iterates over: the headers and the transactions from a height on.
abbrev pub headers_from : Bytes → Bytes → Bool
headers_from first =
    in_range (key bucket_header_by_height first) (next_bucket bucket_header_by_height)

abbrev pub txs_from : Bytes → Bytes → Bool
txs_from first =
    in_range (key bucket_tx_by_height_and_index first) (next_bucket bucket_tx_by_height_and_index)

module _ (C : BlockCodec) where
  -- The entries hold these headers.
  abbrev pub Decode : Entries → List Header → Type 0
  Decode [] [] = Unit
  Decode [] (h ∷ hs) = ⊥
  Decode (e ∷ es) [] = ⊥
  Decode (e ∷ es) (h ∷ hs) = (C.unmarshal e.1 ≡ ok h) × Decode es hs

  abbrev pub header_removes : List Header → List Op
  header_removes [] = []
  header_removes (h ∷ hs) = remove (hash_key h.hash) ∷ header_removes hs

  abbrev pub tx_removes : List Bytes → List Op
  tx_removes [] = []
  tx_removes (tx ∷ txs) = remove (tx_hash_key (C.tx_hash tx)) ∷ tx_removes txs

  -- The writes of one call, in order.
  abbrev pub end_ops : (first u s f : Bytes) → List Op
  end_ops first u s f =
      remove_range (key bucket_tx_height_and_index_by_hash first)
        (put_uint64 (bucket_byte bucket_tx_height_and_index_by_hash + 1))
      ∷ label_puts u s f

  abbrev pub rollback_puts :
      (height_bytes first : Bytes) → List Header → List Bytes → (u s f : Bytes) → List Op
  rollback_puts height_bytes first hs txs u s f =
      put height_key height_bytes ∷ header_removes hs
      ++ (remove_range (key bucket_header_by_height first) (next_bucket bucket_header_by_height)
            ∷ tx_removes txs
          ++ end_ops first u s f)

module _ (S : KvStore) (C : BlockCodec) (R : IsReliable S) where
  delete_headers-ok :
      (es : Entries) (hs : List Header) (batch : List Op)
      → Decode C es hs
      → delete_headers S C es batch ≡ ok (batch ++ header_removes C hs)
  unfolding delete_headers
  delete_headers-ok [] [] batch dec = ap ok (sym (append-nil batch))
  delete_headers-ok [] (h ∷ hs) batch dec = absurd dec
  delete_headers-ok (e ∷ es) [] batch dec = absurd dec
  delete_headers-ok (e ∷ es) (h ∷ hs) batch dec =
      rw
        (
          dec.0,
          add_op-ok S R batch (remove (hash_key h.hash)),
          delete_headers-ok es hs (batch ++ remove (hash_key h.hash) ∷ []) dec.1,
        )
        (ap ok (append_assoc batch (remove (hash_key h.hash) ∷ []) (header_removes C hs)))

  delete_txs-ok :
      (es : Entries) (batch : List Op)
      → delete_txs S C es batch ≡ ok (batch ++ tx_removes C (values es))
  unfolding delete_txs
  delete_txs-ok [] batch = ap ok (sym (append-nil batch))
  delete_txs-ok ((k, tx) ∷ es) batch =
      rw
        (
          add_op-ok S R batch (remove (tx_hash_key (C.tx_hash tx))),
          delete_txs-ok es (batch ++ remove (tx_hash_key (C.tx_hash tx)) ∷ []),
        )
        (ap ok (
          append_assoc batch (remove (tx_hash_key (C.tx_hash tx)) ∷ []) (tx_removes C (values es))))

  module _ (d : S.Db) (u s f first : Bytes) where
    rollback_end-ok :
        (batch : List Op)
        → rollback_end S C first batch
          ≡ ok (
              batch
              ++ remove_range
                  (key bucket_tx_height_and_index_by_hash first)
                  (put_uint64 (bucket_byte bucket_tx_height_and_index_by_hash + 1))
                ∷ [])
    unfolding rollback_end
    rollback_end-ok batch = rw (add_op-ok S R batch) refl

    rollback_txs-ok :
        (batch : List Op) (txs : Entries)
        → select (txs_from first) (apply batch (S.entries d)) ≡ txs
        → rollback_txs S C u s f d first batch
          ≡ ok (batch ++ (tx_removes C (values txs) ++ end_ops C first u s f))
    unfolding rollback_txs wrap_close_err
    rollback_txs-ok batch txs seen =
        rw
          (
            R.iterate_works d batch,
            seen,
            delete_txs-ok txs batch,
            rollback_end-ok,
            label_ops-ok S C R u s f,
            R.closes d,
          )
          (simp append_assoc)

    rollback_headers-ok :
        (batch : List Op) (headers txs : Entries) (hs : List Header)
        → select (headers_from first) (apply batch (S.entries d)) ≡ headers
        → Decode C headers hs
        → select (txs_from first) (
            apply
              (batch
                ++ header_removes C hs
                ++ remove_range
                    (key bucket_header_by_height first)
                    (next_bucket bucket_header_by_height)
                  ∷ [])
              (S.entries d))
          ≡ txs
        → rollback_headers S C u s f d first batch
          ≡ ok (
              batch
              ++ (header_removes C hs
                  ++ (remove_range
                          (key bucket_header_by_height first)
                          (next_bucket bucket_header_by_height)
                        ∷ tx_removes C (values txs)
                      ++ end_ops C first u s f)))
    unfolding rollback_headers wrap_close_err
    rollback_headers-ok batch headers txs hs seen dec txs_seen =
        rw
          (
            R.iterate_works d batch,
            seen,
            delete_headers-ok headers hs batch dec,
            add_op-ok S R,
            rollback_txs-ok _ txs txs_seen,
            R.closes d,
          )
          (simp append_assoc)

-- What the deletions of headers leave alone: the keys of the transactions.
module _ (first : Bytes) where
  pub height_key-spared :
      (headers_from first height_key ≡ false) × (txs_from first height_key ≡ false)
  unfolding bytes_lt
  height_key-spared = (refl, refl)

  txs_from-head :
      (j : Bytes)
      → txs_from first j ≡ true
      → in_range (key bucket_header_by_height first) (next_bucket bucket_header_by_height) j ≡ false
  unfolding bytes_lt
  txs_from-head [] h = cc
  txs_from-head (c ∷ r) h = ground arith

  txs_from-hash_key : (hash : Bytes) → txs_from first (hash_key hash) ≡ false
  unfolding bytes_lt
  txs_from-hash_key hash = refl

module _ (C : BlockCodec) where
  header_removes-spared :
      (first : Bytes) (hs : List Header) (more : List Op)
      → All (Spares (txs_from first)) more
      → All (Spares (txs_from first)) (header_removes C hs ++ more)
  header_removes-spared first [] more h = h
  header_removes-spared first (x ∷ hs) more h =
      (txs_from-hash_key first x.hash, header_removes-spared first hs more h)

module _ (S : KvStore) (C : BlockCodec) (R : IsReliable S) where
  -- One call is one batch: the height of the unsafe block, and all above it deleted.
  pub rollback_ops-ok :
      (d : S.Db) (u s f : Bytes) (n : ℕ) (hs : List Header)
      → n < u64_mod
      → lookup (hash_key u) (S.entries d) ≡ some (put_uint64 n)
      → let first = put_uint64 ((n + 1) % u64_mod) in
        Decode C (select (headers_from first) (S.entries d)) hs
        → rollback_ops S C u s f d
          ≡ ok (
              rollback_puts C
                (put_uint64 n)
                first
                hs
                (values (select (txs_from first) (S.entries d)))
                u
                s
                f)
  unfolding rollback_ops wrap_close_err
  rollback_ops-ok d u s f n hs small at_hash dec =
      let first = put_uint64 ((n + 1) % u64_mod) in
      let es = S.entries d in
      let set_height = put height_key (put_uint64 n) ∷ [] in
      let header_range =
        remove_range (key bucket_header_by_height first) (next_bucket bucket_header_by_height)
        ∷ [] in
      let headers_seen : select (headers_from first) (apply set_height es)
          ≡ select (headers_from first) es =
        select-apply (headers_from first) set_height es ((height_key-spared first).0, tt) in
      let txs_seen : select (txs_from first)
            (apply (set_height ++ header_removes C hs ++ header_range) es)
          ≡ select (txs_from first) es =
        select-apply (txs_from first) (set_height ++ header_removes C hs ++ header_range) es (
          (height_key-spared first).1,
          header_removes-spared C first hs header_range ((txs_from-head first), tt),
        ) in
      rw
        (
          get_value-ok S C R d (hash_key u) (put_uint64 n) at_hash,
          uint64-put_uint64 n small,
          add_op-ok S R [] (put height_key (put_uint64 n)),
          rollback_headers-ok S C R d u s f first set_height (select (headers_from first) es)
              (select (txs_from first) es) hs headers_seen dec txs_seen,
          R.closes d,
        )
        refl
