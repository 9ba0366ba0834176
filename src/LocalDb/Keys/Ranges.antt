-- ===== src/LocalDb/Keys/Ranges.antt =====
-- Which keys lie in the range of the transactions of a height.
use mathlib.Core.List.{append-nil}
use monomer.Prelude.{ℕ, ◌+◌, ◌%◌, ◌<◌, ◌≡◌, ◌∙◌, Bool, true, false, [], ◌∷◌, arith, ◌==◌}
use monomer.Bytes.{Bytes, bytes_lt}
use monomer.Bytes.BigEndian.{u64_mod, put_uint64, bytes_lt-put_uint64}
use monomer.Bytes.Order.{bytes_lt-append, bytes_lt-append_left}
use monomer.KvStore.{in_range}
use monomer.LocalDb.Keys.{key, bucket_tx_by_height_and_index, tx_key}

-- The range that `txsInRange` iterates over for one height.
abbrev pub tx_range : ℕ → Bytes → Bool
tx_range h =
    in_range (key bucket_tx_by_height_and_index (put_uint64 h))
      (key bucket_tx_by_height_and_index (put_uint64 ((h + 1) % u64_mod)))

-- The indices of a block's transactions order its keys.
pub tx_key-lt : (h i : ℕ) → i + 1 < u64_mod → bytes_lt (tx_key h i) (tx_key h (i + 1)) ≡ true
unfolding bytes_lt
tx_key-lt h i lt =
    bytes_lt-append_left (put_uint64 h) (put_uint64 i) (put_uint64 (i + 1))
    ∙ (rw (append-nil, append-nil) at (bytes_lt-put_uint64 i (i + 1) [] [] (omega arith) lt))

pub tx_key-in_range : (h i : ℕ) → h + 1 < u64_mod → tx_range h (tx_key h i) ≡ true
unfolding bytes_lt
tx_key-in_range h i lt =
    let small : (h + 1) % u64_mod ≡ h + 1 = omega arith in
    rw (small, bytes_lt-append (put_uint64 h) (put_uint64 i))
      (rw append-nil at (bytes_lt-put_uint64 h (h + 1) (put_uint64 i) [] (omega arith) lt))

-- A key of another bucket lies in no such range.
pub tx_range_other : (h c : ℕ) (part : Bytes) → (c == 4) ≡ false → tx_range h (c ∷ part) ≡ false
unfolding bytes_lt
tx_range_other h c part ne = ground arith
