-- ===== src/Txstore/Effect.antt =====
-- What the rollback of the index does to the database.
use mathlib.Core.List.{append_assoc, append-nil}
use monomer.Prelude.{
  ℕ, zero, suc, ◌+◌, ◌%◌, ◌≤◌, ◌<◌, ◌≡◌, refl, ap, sym, ◌∙◌, Bool, true, false, ◌||◌, Bool-cases,
  inl, inr, leb, Option, none, some, List, [], ◌∷◌, ◌++◌, arith, ok, if◌then◌else◌,
}
use monomer.Bytes.{Bytes, bytes_eq, bytes_eq_iff}
use monomer.Bytes.BigEndian.{u64_mod}
use monomer.KvStore.{KvStore, IsReliable, Entries, Op, remove, lookup, select, apply}
use monomer.KvStore.Laws.{after, lookup-select}
use monomer.KvStore.Batch.{add_op-ok, write_sync-ok}
use monomer.Txstore.{
  height_prefix, height_range, delete_entries, rollback_one_block, rollback_blocks,
  rollback_to_height,
}

-- The deletions for the entries of an iterator.
abbrev pub removes : Entries → List Op
removes [] = []
removes ((k, v) ∷ es) = remove k ∷ remove v ∷ removes es

-- The entries of `n` heights from `h` on.
abbrev pub gathered : ℕ → ℕ → Entries → Entries
gathered zero h es = []
gathered (suc n) h es = select (height_range h) es ++ gathered n (suc h) es

-- A text that is the key or the value of an entry.
abbrev pub mentions : Bytes → Entries → Bool
mentions k [] = false
mentions k ((j, v) ∷ es) = bytes_eq k j || bytes_eq k v || mentions k es

pub removes-append : (es fs : Entries) → removes (es ++ fs) ≡ removes es ++ removes fs
removes-append [] fs = refl
removes-append ((k, v) ∷ es) fs = ap (λ r. remove k ∷ remove v ∷ r) (removes-append es fs)

pub mentions-append :
    (k : Bytes) (es fs : Entries) → mentions k (es ++ fs) ≡ (mentions k es || mentions k fs)
mentions-append k [] fs = refl
mentions-append k ((j, v) ∷ es) fs = ground (arith, mentions-append k es fs)

after-removes :
    (es : Entries) (k : Bytes) (old : Option Bytes)
    → after (removes es) k old ≡ (if mentions k es then none else old)
after-removes [] k old = refl
after-removes ((j, v) ∷ es) k old =
    after-removes es k (if bytes_eq k v then none else if bytes_eq k j then none else old)
    ∙ ground arith

-- An entry that is found mentions its key and its value.
mentions-lookup :
    (k v : Bytes) (es : Entries)
    → lookup k es ≡ some v
    → (mentions k es ≡ true) × (mentions v es ≡ true)
unfolding lookup
mentions-lookup k v [] h = cc
mentions-lookup k v ((j, w) ∷ es) h =
    ground (arith, h, bytes_eq_iff j k, bytes_eq_iff k j, bytes_eq_iff v w, mentions-lookup k v es)

-- An entry in the range of one of the heights is among those that are gathered.
pub gathered-mentions :
    (n h i : ℕ) (k v : Bytes) (es : Entries)
    → h ≤ i
    → i < h + n
    → height_range i k ≡ true
    → lookup k es ≡ some v
    → (mentions k (gathered n h es) ≡ true) × (mentions v (gathered n h es) ≡ true)
gathered-mentions zero h i k v es lo hi inside found = absurd (omega (arith, lo, hi))
gathered-mentions (suc n) h i k v es lo hi inside found =
    let here = mentions-append k (select (height_range h) es) (gathered n (suc h) es) in
    let there = mentions-append v (select (height_range h) es) (gathered n (suc h) es) in
    elim (Bool-cases (leb i h)) [
      | inl e ↦
          let same : i ≡ h = ground (arith, lo, e) in
          let inside' = rw same at inside in
          let (at_key, at_value) =
            mentions-lookup k v (select (height_range h) es)
              (lookup-select (height_range h) k es ∙ rw inside' found) in
          (ground (arith, here, at_key), ground (arith, there, at_value))
      | inr e ↦
          let (at_key, at_value) =
            gathered-mentions n (suc h) i k v es (ground (arith, e)) (omega (arith, hi)) inside
              found in
          (ground (arith, here, at_key), ground (arith, there, at_value))
    ]

module _ (S : KvStore) (R : IsReliable S) where
  delete_entries-ok :
      (es : Entries) (batch : List Op) → delete_entries S es batch ≡ ok (batch ++ removes es)
  unfolding delete_entries
  delete_entries-ok [] batch = ap ok (sym (append-nil batch))
  delete_entries-ok ((k, v) ∷ es) batch =
      rw (add_op-ok S R batch (remove k), add_op-ok S R (batch ++ remove k ∷ []) (remove v))
        (delete_entries-ok es (batch ++ remove k ∷ [] ++ remove v ∷ [])
          ∙ ap ok (
              append_assoc (batch ++ remove k ∷ []) (remove v ∷ []) (removes es)
              ∙ append_assoc batch (remove k ∷ []) (remove v ∷ removes es)))

  rollback_one_block-ok :
      (d : S.Db) (h : ℕ) (batch : List Op)
      → rollback_one_block S d h batch
        ≡ ok (batch ++ removes (select (height_range h) (S.entries d)))
  unfolding rollback_one_block apply
  rollback_one_block-ok d h batch =
      rw (R.iterate_works d [] (height_prefix h ++ 47 ∷ []) (height_prefix h ++ 126 ∷ []))
        (delete_entries-ok (select (height_range h) (S.entries d)) batch)

  -- The loop ends, with more fuel than there are heights.
  rollback_blocks-ok :
      (n fuel h : ℕ) (d : S.Db) (current : ℕ) (batch : List Op)
      → n < fuel
      → h + n ≡ suc current
      → suc current < u64_mod
      → rollback_blocks S fuel d h current batch
        ≡ some (ok (batch ++ removes (gathered n h (S.entries d))))
  unfolding rollback_blocks
  rollback_blocks-ok n zero h d current batch more all room = absurd (omega (arith, more))
  rollback_blocks-ok zero (suc fuel) h d current batch more all room =
      let done : leb h current ≡ false = ground (arith, all) in
      rw (done, rollback_blocks) (ap (λ b. some (ok b)) (sym (append-nil batch)))
  rollback_blocks-ok (suc n) (suc fuel) h d current batch more all room =
      let going : leb h current ≡ true = ground (arith, all) in
      let next : (h + 1) % u64_mod ≡ suc h = omega (arith, all, room) in
      let es = select (height_range h) (S.entries d) in
      rw (going, rollback_one_block-ok d h batch, rollback_blocks)
        (ap (λ m. rollback_blocks S fuel d m current (batch ++ removes es)) next
          ∙ rollback_blocks-ok n fuel (suc h) d current (batch ++ removes es) (omega (arith, more))
              (omega (arith, all)) room
          ∙ ap (λ b. some (ok b))
              (append_assoc batch (removes es) (removes (gathered n (suc h) (S.entries d)))
                ∙ ap (λ x. batch ++ x)
                    (sym (removes-append es (gathered n (suc h) (S.entries d))))))

  -- Every key after a rollback.
  pub rollback_to_height-ok :
      (fuel r n : ℕ) (d : S.Db)
      → n < fuel
      → suc (r + n) < u64_mod
      → (d' : S.Db) × (rollback_to_height S fuel r (r + n) d ≡ some (ok tt, d'))
        × ((k : Bytes)
            → lookup k (S.entries d') ≡ (
                if mentions k (gathered n (suc r) (S.entries d))
                then none
                else lookup k (S.entries d)))
  unfolding rollback_to_height
  rollback_to_height-ok fuel r n d enough room =
      let es = gathered n (suc r) (S.entries d) in
      let (d', written, read, all) = write_sync-ok S R d (removes es) in
      let start : (r + 1) % u64_mod ≡ suc r = omega (arith, room) in
      let looped : rollback_blocks S fuel d ((r + 1) % u64_mod) (r + n) []
          ≡ some (ok (removes es)) =
        ap (λ m. rollback_blocks S fuel d m (r + n) []) start
        ∙ rollback_blocks-ok n fuel (suc r) d (r + n) [] enough (omega arith) room in
      (
        d',
        rw (looped, written, rollback_to_height) refl,
        λ k. read k ∙ after-removes es k (lookup k (S.entries d)),
      )
