-- ===== src/LocalDb/Rollback/Effect.antt =====
-- What `Rollback` does to the headers, the labels and the transactions.
use monomer.Prelude.{
  All-append, All-map, ℕ, ◌+◌, ◌≡◌, refl, ap, ◌∙◌, true, false, Option, none, some, List, [], ◌∷◌,
  ◌++◌, arith, All, ◌==◌, if◌then◌else◌,
}
use monomer.Bytes.{Bytes, bytes_eq, bytes_lt, bytes_eq_refl, bytes_ne_of_head}
use monomer.Bytes.BigEndian.{put_uint64}
use monomer.KvStore.{Op, remove_range, in_range}
use monomer.KvStore.Laws.{after_op, after, after-append}
use monomer.KvStore.Sorted.{Spares}
use monomer.Block.{Header}
use monomer.LocalDb.Keys.{
  label_bytes, key, next_bucket, bucket_byte, bucket_header_by_height,
  bucket_tx_height_and_index_by_hash, height_key, hash_key, label_key, Label, BlockCodec,
}
use monomer.LocalDb.Keys.Ranges.{tx_range_other, tx_range}
use monomer.LocalDb.Write.Ops.{label_puts}
use monomer.LocalDb.Rollback.Ops.{headers_from, header_removes, tx_removes, end_ops, rollback_puts}

-- The hash that each label is given.
abbrev pub label_value : (u s f : Bytes) → Label → Bytes
label_value u s f Label.unsafe = u
label_value u s f Label.safe = s
label_value u s f Label.finalized = f

-- The range that `Rollback` deletes at its end holds no key at all: its bound lies below its start.
pub last_range_empty :
    (first j : Bytes)
    → in_range
        (key bucket_tx_height_and_index_by_hash first)
        (put_uint64 (bucket_byte bucket_tx_height_and_index_by_hash + 1))
        j
      ≡ false
unfolding bytes_lt put_uint64
last_range_empty first [] = refl
last_range_empty first (c ∷ r) = ground arith

module _ (C : BlockCodec) where
  after-header_removes :
      (hs : List Header) (c : ℕ) (part : Bytes) (old : Option Bytes)
      → (c == 2) ≡ false
      → after (header_removes C hs) (c ∷ part) old ≡ old
  after-header_removes [] c part old e = refl
  after-header_removes (h ∷ hs) c part old e =
      after-header_removes hs c part _ e ∙ ground (arith, bytes_ne_of_head c 2 part h.hash e)

  after-tx_removes :
      (txs : List Bytes) (c : ℕ) (part : Bytes) (old : Option Bytes)
      → (c == 5) ≡ false
      → after (tx_removes C txs) (c ∷ part) old ≡ old
  after-tx_removes [] c part old e = refl
  after-tx_removes (tx ∷ txs) c part old e =
      after-tx_removes txs c part _ e ∙ ground (arith, bytes_ne_of_head c 5 part (C.tx_hash tx) e)

  after-label_puts :
      (u s f : Bytes) (c : ℕ) (part : Bytes) (old : Option Bytes)
      → (3 == c) ≡ false
      → after (label_puts u s f) (c ∷ part) old ≡ old
  after-label_puts u s f c part old e = ground (
    arith,
    bytes_ne_of_head 3 c (label_bytes Label.unsafe) part e,
    bytes_ne_of_head 3 c (label_bytes Label.safe) part e,
    bytes_ne_of_head 3 c (label_bytes Label.finalized) part e,
  )

  -- The end of the batch: transactions by hash, the range, the labels.
  after-end :
      (first u s f : Bytes) (txs : List Bytes) (c : ℕ) (part : Bytes) (old : Option Bytes)
      → (3 == c) ≡ false
      → (c == 5) ≡ false
      → after (tx_removes C txs ++ end_ops C first u s f) (c ∷ part) old ≡ old
  after-end first u s f txs c part old e3 e5 =
      after-append (tx_removes C txs) (end_ops C first u s f) (c ∷ part) old
      ∙ (ap (after (end_ops C first u s f) (c ∷ part)) (after-tx_removes txs c part old e5)
          ∙ (rw (last_range_empty first (c ∷ part)) (after-label_puts u s f c part old e3)))

  -- The value at a key of any other bucket than those of hashes and labels.
  pub after-rollback_puts :
      (hb first u s f : Bytes) (hs : List Header) (txs : List Bytes) (c : ℕ) (part : Bytes)
      (old : Option Bytes)
      → (c == 2) ≡ false
      → (3 == c) ≡ false
      → (c == 5) ≡ false
      → after (rollback_puts C hb first hs txs u s f) (c ∷ part) old ≡ (
          if headers_from first (c ∷ part)
          then none
          else if bytes_eq height_key (c ∷ part)
          then some hb
          else old)
  after-rollback_puts hb first u s f hs txs c part old e2 e3 e5 =
      let rest =
        remove_range (key bucket_header_by_height first) (next_bucket bucket_header_by_height)
          ∷ tx_removes C txs
        ++ end_ops C first u s f in
      let now = (if bytes_eq height_key (c ∷ part) then some hb else old) in
      after-append (header_removes C hs) rest (c ∷ part) now
      ∙ (ap (after rest (c ∷ part)) (after-header_removes hs c part now e2)
          ∙ after-end first u s f txs c part (if headers_from first (c ∷ part) then none else now)
              e3 e5)

  -- The hashes of the headers that go are gone.
  header_removes-none : (hs : List Header) (k : Bytes) → after (header_removes C hs) k none ≡ none
  header_removes-none [] k = refl
  header_removes-none (h ∷ hs) k =
      ap (after (header_removes C hs) k) (ground arith) ∙ header_removes-none hs k

  -- A batch leaves no value at the key of a header's hash.
  abbrev pub Forgets : List Op → Header → Type 0
  Forgets ops h = (old : Option Bytes) → after ops (hash_key h.hash) old ≡ none

  header_removes-All : (hs : List Header) → All (Forgets (header_removes C hs)) hs
  header_removes-All [] = tt
  header_removes-All (h ∷ hs) = (
    (λ old.
        ap (after (header_removes C hs) (hash_key h.hash)) (rw bytes_eq_refl)
        ∙ header_removes-none hs (hash_key h.hash)),
    All-map (Forgets (header_removes C hs)) (Forgets (header_removes C (h ∷ hs))) hs
        (λ x gone old. gone (if bytes_eq (hash_key x.hash) (hash_key h.hash) then none else old))
        (header_removes-All hs),
  )

  after-hash_key :
      (hb first u s f : Bytes) (hs : List Header) (txs : List Bytes) (hash : Bytes)
      → ((old : Option Bytes) → after (header_removes C hs) (hash_key hash) old ≡ none)
      → (old : Option Bytes)
      → after (rollback_puts C hb first hs txs u s f) (hash_key hash) old ≡ none
  unfolding bytes_lt
  after-hash_key hb first u s f hs txs hash gone old =
      let rest =
        remove_range (key bucket_header_by_height first) (next_bucket bucket_header_by_height)
          ∷ tx_removes C txs
        ++ end_ops C first u s f in
      let now = (if bytes_eq height_key (hash_key hash) then some hb else old) in
      let removed : after_op
            (remove_range (key bucket_header_by_height first) (next_bucket bucket_header_by_height))
            (hash_key hash) none
          ≡ none =
        ground arith in
      after-append (header_removes C hs) rest (hash_key hash) now
      ∙ (ap (after rest (hash_key hash)) (gone now)
          ∙ (ap (after (tx_removes C txs ++ end_ops C first u s f) (hash_key hash)) removed
              ∙ after-end first u s f txs 2 hash none refl refl))

  -- No header that went is found by its hash.
  pub after-hash_keys :
      (hb first u s f : Bytes) (hs : List Header) (txs : List Bytes)
      → All (Forgets (rollback_puts C hb first hs txs u s f)) hs
  after-hash_keys hb first u s f hs txs =
      All-map (Forgets (header_removes C hs)) (Forgets (rollback_puts C hb first hs txs u s f)) hs
        (λ h gone. after-hash_key hb first u s f hs txs h.hash gone) (header_removes-All hs)

  pub label_puts-value :
      (u s f : Bytes) (l : Label) (old : Option Bytes)
      → after (label_puts u s f) (label_key l) old ≡ some (label_value u s f l)
  unfolding bytes_eq
  label_puts-value u s f Label.unsafe old = refl
  label_puts-value u s f Label.safe old = refl
  label_puts-value u s f Label.finalized old = refl

  -- The labels are written last.
  pub after-labels :
      (hb first u s f : Bytes) (hs : List Header) (txs : List Bytes) (l : Label)
      (old : Option Bytes)
      → after (rollback_puts C hb first hs txs u s f) (label_key l) old ≡ some (label_value u s f l)
  after-labels hb first u s f hs txs l old =
      let rest =
        remove_range (key bucket_header_by_height first) (next_bucket bucket_header_by_height)
          ∷ tx_removes C txs
        ++ end_ops C first u s f in
      after-append (header_removes C hs) rest (label_key l) _
      ∙ (after-append (tx_removes C txs) (end_ops C first u s f) (label_key l) _
          ∙ label_puts-value u s f l _)

  header_removes-spared :
      (hs : List Header) (h : ℕ) → All (Spares (tx_range h)) (header_removes C hs)
  header_removes-spared [] h = tt
  header_removes-spared (x ∷ hs) h = (tx_range_other h 2 x.hash refl, header_removes-spared hs h)

  tx_removes-spared : (txs : List Bytes) (h : ℕ) → All (Spares (tx_range h)) (tx_removes C txs)
  tx_removes-spared [] h = tt
  tx_removes-spared (tx ∷ txs) h = (tx_range_other h 5 (C.tx_hash tx) refl, tx_removes-spared txs h)

  headers-spared :
      (first : Bytes) (h : ℕ) (j : Bytes) → tx_range h j ≡ true → headers_from first j ≡ false
  unfolding bytes_lt
  headers-spared first h [] e = cc
  headers-spared first h (c ∷ r) e = ground arith

  -- Nothing of the batch touches a transaction by its height.
  pub rollback_puts-spared :
      (hb first u s f : Bytes) (hs : List Header) (txs : List Bytes) (h : ℕ)
      → All (Spares (tx_range h)) (rollback_puts C hb first hs txs u s f)
  rollback_puts-spared hb first u s f hs txs h =
      let label = λ (l : Label). tx_range_other h 3 (label_bytes l) refl in
      let ending : All (Spares (tx_range h)) (end_ops C first u s f) = (
        (λ j e. last_range_empty first j),
        (label Label.unsafe, (label Label.safe, (label Label.finalized, tt))),
      ) in
      (
        tx_range_other h 6 [] refl,
        All-append (Spares (tx_range h)) (header_removes C hs) _ (header_removes-spared hs h) (
          headers-spared first h,
          All-append (Spares (tx_range h)) (tx_removes C txs) (end_ops C first u s f)
              (tx_removes-spared txs h) ending,
        ),
      )
