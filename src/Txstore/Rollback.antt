-- ===== src/Txstore/Rollback.antt =====
-- Which transactions a rollback of the index removes, and which it keeps.
use monomer.Prelude.{
  ℕ, zero, suc, ◌+◌, ◌-◌, ◌≤◌, ◌<◌, ◌≡◌, ◌≢◌, refl, ap, sym, ◌∙◌, ◌⊎◌, inl, inr, Bool, true, false,
  none, some, [], ◌∷◌, ◌++◌, arith, ok, if◌then◌else◌, All,
}
use monomer.Bytes.{Bytes, bytes_eq, bytes_eq_iff}
use monomer.Bytes.BigEndian.{u64_mod}
use monomer.KvStore.{KvStore, IsReliable, Entries, lookup, select}
use monomer.Txstore.{height_range, rollback_to_height}
use monomer.Txstore.Ranges.{entry_key, entry_key-in, entry_key-out}
use monomer.Txstore.Effect.{
  gathered, mentions, mentions-append, gathered-mentions, rollback_to_height-ok,
}

-- No entry has this text as its value.
abbrev pub NoValue : Bytes → Entries → Type 0
NoValue k es = All (λ e. bytes_eq k e.1 ≡ false) es

append-NoValue : (k : Bytes) (es fs : Entries) → NoValue k (es ++ fs) → NoValue k es × NoValue k fs
append-NoValue k [] fs h = (tt, h)
append-NoValue k (e ∷ es) fs h = let (p, q) = append-NoValue k es fs h.1 in ((h.0, p), q)

select-silent :
    (p : Bytes → Bool) (k : Bytes) (es : Entries)
    → p k ≡ false
    → NoValue k (select p es)
    → mentions k (select p es) ≡ false
unfolding select
select-silent p k [] out free = refl
select-silent p k ((j, w) ∷ es) out free = go (p j) refl (select-silent p k es out) free
  where
    go :
        (b : Bool)
        → p j ≡ b
        → (NoValue k (select p es) → mentions k (select p es) ≡ false)
        → NoValue k (if b then (j, w) ∷ select p es else select p es)
        → mentions k (if b then (j, w) ∷ select p es else select p es) ≡ false
    go true e rest free = ground (arith, e, out, free.0, bytes_eq_iff k j, ap p, rest free.1)
    go false e rest free = rest free

gathered-silent :
    (n h : ℕ) (k : Bytes) (es : Entries)
    → ((i : ℕ) → h ≤ i → i < h + n → height_range i k ≡ false)
    → NoValue k (gathered n h es)
    → mentions k (gathered n h es) ≡ false
gathered-silent zero h k es out free = refl
gathered-silent (suc n) h k es out free =
    let (here, rest) = append-NoValue k (select (height_range h) es) (gathered n (suc h) es) free in
    ground (
      arith,
      mentions-append k (select (height_range h) es) (gathered n (suc h) es),
      select-silent (height_range h) k es (out h (omega arith) (omega arith)) here,
      gathered-silent n (suc h) k es (λ i lo hi. out i (omega (arith, lo)) (omega (arith, hi)))
          rest,
    )

module _ (S : KvStore) where
  -- The entries of the heights above `r` up to `current`.
  abbrev pub Going : ℕ → ℕ → S.Db → Entries
  Going r current d = gathered (current - r) (suc r) (S.entries d)

  -- RollbackToHeight ends, with more fuel than there are heights to go: of a transaction above the height,
  -- up to the current one, the key by its height and the record by its hash are gone; if no call of the
  -- database fails and the next height fits 64 bits.
  pub rollback_to_height-removes :
      (R : IsReliable S) (fuel r current : ℕ) (d : S.Db) (h : ℕ) (rest hash : Bytes)
      → r < h
      → h ≤ current
      → current < r + fuel
      → suc current < u64_mod
      → lookup (entry_key h rest) (S.entries d) ≡ some hash
      → (d' : S.Db) × (rollback_to_height S fuel r current d ≡ some (ok tt, d'))
        × (lookup (entry_key h rest) (S.entries d') ≡ none)
        × (lookup hash (S.entries d') ≡ none)
  rollback_to_height-removes R fuel r current d h rest hash lo hi enough room found =
      let n = current - r in
      let e : r + n ≡ current = omega (arith, lo, hi) in
      let (d', done, read) =
        rollback_to_height-ok S R fuel r n d (omega (arith, enough, lo, hi))
          (omega (arith, e, room)) in
      let (at_key, at_hash) =
        gathered-mentions n (suc r) h (entry_key h rest) hash (S.entries d) (omega (arith, lo))
          (omega (arith, hi, e)) (entry_key-in h rest) found in
      (
        d',
        ap (λ c. rollback_to_height S fuel r c d) (sym e) ∙ done,
        read (entry_key h rest) ∙ rw at_key refl,
        read hash ∙ rw at_hash refl,
      )

  apart : (r current h i : ℕ) → (h ≤ r) ⊎ (current < h) → r < i → i ≤ current → i ≢ h
  apart r current h i (inl x) lo hi same = ground (arith, x, lo, same)
  apart r current h i (inr x) lo hi same = ground (arith, x, hi, same)

  -- The key of a transaction at any other height reads as before, unless it is the hash of one that goes; if
  -- no call of the database fails, the fuel is more than the heights to go, and the next height fits 64 bits.
  pub rollback_to_height-keeps :
      (R : IsReliable S) (fuel r current : ℕ) (d : S.Db) (h : ℕ) (rest : Bytes)
      → r ≤ current
      → current < r + fuel
      → suc current < u64_mod
      → h < u64_mod
      → (h ≤ r) ⊎ (current < h)
      → NoValue (entry_key h rest) (Going r current d)
      → (d' : S.Db) × (rollback_to_height S fuel r current d ≡ some (ok tt, d'))
        × (lookup (entry_key h rest) (S.entries d') ≡ lookup (entry_key h rest) (S.entries d))
  rollback_to_height-keeps R fuel r current d h rest above enough room fits outside free =
      let n = current - r in
      let e : r + n ≡ current = omega (arith, above) in
      let (d', done, read) =
        rollback_to_height-ok S R fuel r n d (omega (arith, enough, above))
          (omega (arith, e, room)) in
      let silent =
        gathered-silent n (suc r) (entry_key h rest) (S.entries d)
          (λ i lo hi.
            entry_key-out i h rest (omega (arith, hi, e, room)) fits
              (apart r current h i outside lo (omega (arith, hi, e))))
          free in
      (
        d',
        ap (λ c. rollback_to_height S fuel r c d) (sym e) ∙ done,
        read (entry_key h rest) ∙ rw silent refl,
      )
