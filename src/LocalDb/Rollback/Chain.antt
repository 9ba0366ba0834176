-- ===== src/LocalDb/Rollback/Chain.antt =====
-- `Rollback` of the block store, by what the reads return after it.
use monomer.Prelude.{
  ℕ, ◌+◌, ◌%◌, ◌<◌, ◌≤◌, ◌≡◌, refl, ap, ◌∙◌, sym, true, false, none, some, List, [], ◌∷◌, arith,
  Result, ok, err, not_found, wrapped, All, All-map, ◌==◌, if◌then◌else◌,
}
use monomer.Bytes.{Bytes, bytes_eq, bytes_lt, bytes_eq_refl, bytes_ne_of_head}
use monomer.Bytes.BigEndian.{bytes_lt-put_uint64_eq, u64_mod, put_uint64}
use monomer.KvStore.{KvStore, IsReliable, lookup, select}
use monomer.KvStore.Laws.{after}
use monomer.KvStore.Sorted.{select-apply}
use monomer.Block.{Header}
use monomer.LocalDb.Keys.{height_key, header_key, hash_key, label_key, Label, BlockCodec}
use monomer.LocalDb.Keys.Ranges.{tx_range}
use monomer.LocalDb.Lookup.{values, height, db_header_by_height, db_header_by_hash, txs_in_range}
use monomer.LocalDb.Lookup.Stored.{
  txs_in_range-ok, height-ok, header_by_height_lem, db_header_by_hash-missing, decoded,
}
use monomer.LocalDb.Rollback.{rollback}
use monomer.LocalDb.Write.Ops.{update-ok}
use monomer.LocalDb.Rollback.Ops.{
  height_key-spared, headers_from, txs_from, Decode, rollback_puts, rollback_ops-ok,
}
use monomer.LocalDb.Rollback.Effect.{
  after-rollback_puts, after-hash_keys, Forgets, after-labels, label_value, rollback_puts-spared,
}

-- Where the range of the headers to delete begins.
headers_from-above :
    (n h : ℕ)
    → n < h
    → h < u64_mod
    → headers_from (put_uint64 ((n + 1) % u64_mod)) (header_key h) ≡ true
unfolding bytes_lt
headers_from-above n h lt small =
    let first : (n + 1) % u64_mod ≡ n + 1 = omega arith in
    rw (first, bytes_lt-put_uint64_eq h (n + 1) small (omega arith)) (ground arith)

headers_from-below :
    (n h : ℕ)
    → h ≤ n
    → n + 1 < u64_mod
    → headers_from (put_uint64 ((n + 1) % u64_mod)) (header_key h) ≡ false
unfolding bytes_lt
headers_from-below n h le small =
    let first : (n + 1) % u64_mod ≡ n + 1 = omega arith in
    rw (first, bytes_lt-put_uint64_eq h (n + 1) (omega arith) small) (ground arith)

module _ (S : KvStore) (C : BlockCodec) (R : IsReliable S) where
  abbrev pub first_after : ℕ → Bytes
  first_after n = put_uint64 ((n + 1) % u64_mod)

  -- The database after the call, against the one before it: the block at height `n` is the last one.
  pub record RolledBack (d : S.Db) (n : ℕ) (hs : List Header) (u s f : Bytes) (d' : S.Db)
      : Type 0 where
    pub at_top : height S C d' ≡ ok n
    pub above : (h : ℕ) → n < h → h < u64_mod → db_header_by_height S C h d' ≡ err not_found
    pub below : (h : ℕ) → h ≤ n → db_header_by_height S C h d' ≡ db_header_by_height S C h d
    pub forgotten :
        All (λ h. db_header_by_hash S C h.hash d' ≡ err (wrapped "get height by hash" not_found)) hs
    pub labelled : (l : Label) → lookup (label_key l) (S.entries d') ≡ some (label_value u s f l)

  -- What `txsInRange` yields for one height.
  abbrev pub txs_at : ℕ → S.Db → Result (List Bytes)
  txs_at h d = txs_in_range S C (d, []) (put_uint64 h) (put_uint64 ((h + 1) % u64_mod))

  rollback-puts :
      (d : S.Db) (u s f : Bytes) (n : ℕ) (hs : List Header)
      → n < u64_mod
      → lookup (hash_key u) (S.entries d) ≡ some (put_uint64 n)
      → Decode C (select (headers_from (first_after n)) (S.entries d)) hs
      → (d' : S.Db) × (rollback S C u s f d ≡ (ok tt, d'))
        × ((k : Bytes)
            → lookup k (S.entries d')
              ≡ after
                  (rollback_puts C
                    (put_uint64 n)
                    (first_after n)
                    hs
                    (values (select (txs_from (first_after n)) (S.entries d)))
                    u
                    s
                    f)
                  k
                  (lookup k (S.entries d)))
        × ((h : ℕ) → select (tx_range h) (S.entries d') ≡ select (tx_range h) (S.entries d))
  unfolding rollback
  rollback-puts d u s f n hs small at_hash dec =
      let ops =
        rollback_puts C (put_uint64 n) (first_after n) hs
          (values (select (txs_from (first_after n)) (S.entries d))) u s f in
      let (d', done, reads, holds) = update-ok S C R ops d in
      (
        d',
        rw (rollback_ops-ok S C R d u s f n hs small at_hash dec) done,
        reads,
        λ h. rw holds (
            select-apply (tx_range h) ops (S.entries d)
              (rollback_puts-spared C (put_uint64 n) (first_after n) u s f hs _ h)),
      )

  -- The reads of a database that holds what the batch of a call left.
  module _ (d d' : S.Db) (u s f : Bytes) (n : ℕ) (hs : List Header) (txs : List Bytes)
      (small : n + 1 < u64_mod)
      (reads : (k : Bytes)
        → lookup k (S.entries d')
          ≡ after
              (rollback_puts C (put_uint64 n) (first_after n) hs txs u s f)
              k
              (lookup k (S.entries d))) where
    at_key :
        (c : ℕ) (part : Bytes)
        → (c == 2) ≡ false
        → (3 == c) ≡ false
        → (c == 5) ≡ false
        → lookup (c ∷ part) (S.entries d') ≡ (
            if headers_from (first_after n) (c ∷ part)
            then none
            else if bytes_eq height_key (c ∷ part)
            then some (put_uint64 n)
            else lookup (c ∷ part) (S.entries d))
    at_key c part e2 e3 e5 =
        reads (c ∷ part)
        ∙ after-rollback_puts C (put_uint64 n) (first_after n) u s f hs txs c part
            (lookup (c ∷ part) (S.entries d)) e2 e3 e5

    header_at :
        (h : ℕ)
        → db_header_by_height S C h d' ≡ decoded S C R d' (lookup (header_key h) (S.entries d'))
    unfolding db_header_by_height
    header_at h = header_by_height_lem S C R d' (put_uint64 h)

    header_before :
        (h : ℕ)
        → db_header_by_height S C h d ≡ decoded S C R d (lookup (header_key h) (S.entries d))
    unfolding db_header_by_height
    header_before h = header_by_height_lem S C R d (put_uint64 h)

    gone : (h : ℕ) → n < h → h < u64_mod → lookup (header_key h) (S.entries d') ≡ none
    gone h lt fits =
        at_key 1 (put_uint64 h) refl refl refl ∙ rw (headers_from-above n h lt fits) refl

    stays :
        (h : ℕ) → h ≤ n → lookup (header_key h) (S.entries d') ≡ lookup (header_key h) (S.entries d)
    stays h le =
        at_key 1 (put_uint64 h) refl refl refl
        ∙ ground
            (arith, headers_from-below n h le small, bytes_ne_of_head 6 1 [] (put_uint64 h) refl)

    top_bytes : lookup height_key (S.entries d') ≡ some (put_uint64 n)
    top_bytes =
        at_key 6 [] refl refl refl
        ∙ ground (arith, height_key-spared (first_after n), bytes_eq_refl height_key)

    reads-RolledBack : RolledBack d n hs u s f d'
    reads-RolledBack = record {
      at_top = height-ok S C R d' n (omega arith) top_bytes;
      above = λ h lt fits. header_at h ∙ ap (decoded S C R d') (gone h lt fits);
      below = λ h le. header_at h ∙ (ap (decoded S C R d') (stays h le) ∙ sym (header_before h));
      forgotten =
          All-map (Forgets C (rollback_puts C (put_uint64 n) (first_after n) hs txs u s f))
            IsForgotten hs
            (λ h no_hash.
              db_header_by_hash-missing S C R d' h.hash
                (reads (hash_key h.hash) ∙ no_hash (lookup (hash_key h.hash) (S.entries d))))
            (after-hash_keys C (put_uint64 n) (first_after n) u s f hs txs);
      labelled = λ l.
          reads (label_key l)
          ∙ after-labels C (put_uint64 n) (first_after n) u s f hs txs l
              (lookup (label_key l) (S.entries d));
    }
      where
        IsForgotten : Header → Type 0
        IsForgotten h =
            db_header_by_hash S C h.hash d' ≡ err (wrapped "get height by hash" not_found)

  -- `Rollback` to the block at height `n`: that is the new height, headers above are not found by
  -- height nor by hash, those up to it are read by height as before, and the labels are the hashes given; if
  -- the database does not fail, the next height fits 64 bits and the headers that go can be decoded.
  pub rollback-RolledBack :
      (d : S.Db) (u s f : Bytes) (n : ℕ) (hs : List Header)
      → n + 1 < u64_mod
      → lookup (hash_key u) (S.entries d) ≡ some (put_uint64 n)
      → Decode C (select (headers_from (first_after n)) (S.entries d)) hs
      → ((rollback S C u s f d).0 ≡ ok tt) × RolledBack d n hs u s f (rollback S C u s f d).1
  rollback-RolledBack d u s f n hs small at_hash dec =
      let (d', done, reads, kept) = rollback-puts d u s f n hs (omega arith) at_hash dec in
      rw done (refl, reads-RolledBack d d' u s f n hs _ small reads)

  pub rollback-top :
      (d : S.Db) (u s f : Bytes) (n : ℕ) (hs : List Header)
      → n + 1 < u64_mod
      → lookup (hash_key u) (S.entries d) ≡ some (put_uint64 n)
      → Decode C (select (headers_from (first_after n)) (S.entries d)) hs
      → lookup height_key (S.entries (rollback S C u s f d).1) ≡ some (put_uint64 n)
  rollback-top d u s f n hs small at_hash dec =
      let (d', done, reads, kept) = rollback-puts d u s f n hs (omega arith) at_hash dec in
      rw done (top_bytes d d' u s f n hs _ small reads)

  -- `Rollback` deletes no transaction by its height: at every height, those above the new one too,
  -- `txsInRange` yields the same transactions as before.
  pub rollback-keeps_txs :
      (d : S.Db) (u s f : Bytes) (n h : ℕ) (hs : List Header)
      → n < u64_mod
      → lookup (hash_key u) (S.entries d) ≡ some (put_uint64 n)
      → Decode C (select (headers_from (first_after n)) (S.entries d)) hs
      → txs_at h (rollback S C u s f d).1 ≡ txs_at h d
  rollback-keeps_txs d u s f n h hs small at_hash dec =
      let (d', done, reads, kept) = rollback-puts d u s f n hs small at_hash dec in
      rw done (
        txs_in_range-ok S C R d' _ _
        ∙ (ap (λ es. ok (values es)) (kept h) ∙ sym (txs_in_range-ok S C R d _ _)))
