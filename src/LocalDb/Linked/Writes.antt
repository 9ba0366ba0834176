-- ===== src/LocalDb/Linked/Writes.antt =====
-- `AppendBlock`, `UpdateLabels` and `Rollback` on a chain of headers.
use monomer.Prelude.{
  ℕ, ◌+◌, ◌<◌, ◌≤◌, ◌≡◌, ◌⊎◌, refl, ap, ◌∙◌, sym, Bool-cases, inl, inr, some, [], List, arith, ok,
  err, not_found, ok_injective, ◌==◌, ==_iff,
}
use monomer.Bytes.{Bytes}
use monomer.Bytes.BigEndian.{u64_mod, put_uint64}
use monomer.KvStore.{KvStore, IsReliable, lookup, select}
use monomer.Block.{Header, Block}
use monomer.LocalDb.Keys.{hash_key, BlockCodec}
use monomer.LocalDb.Lookup.{db_header_by_height}
use monomer.LocalDb.Write.{append_block, update_labels}
use monomer.LocalDb.Rollback.{rollback}
use monomer.LocalDb.Rollback.Ops.{Decode, headers_from}
use monomer.LocalDb.Rollback.Chain.{first_after, rollback-RolledBack, rollback-top}
use monomer.LocalDb.Linked.{
  IsLinked, same_header, append_block-Appends, labels-keep, empty_header, is_found, bounded,
}

module _ (S : KvStore) (C : BlockCodec) (R : IsReliable S) where
  -- The first block.
  pub append_block-first :
      (b : Block) (d : S.Db)
      → b.header.height ≡ 1
      → S.entries d ≡ []
      → IsLinked S C R (append_block S C b d).1 1
  append_block-first b d first empty =
      let d' = (append_block S C b d).1 in
      let (top, at, others) = append_block-Appends S C R b d (omega (arith, first)) in
      let missing : (h : ℕ)
          → (h ≡ 0) ⊎ (1 < h)
          → h < u64_mod
          → db_header_by_height S C h d' ≡ err not_found =
        λ h out fits.
          others h fits (λ e. ground (arith, out, e, first)) ∙ empty_header S C R d h empty in
      record {
        not_empty = omega arith;
        in_u64 = omega arith;
        top = top ∙ ap (λ h. some (put_uint64 h)) first;
        has = λ h lo hi.
            let e : h ≡ b.header.height = omega (arith, lo, hi, first) in
            (b.header, ap (λ k. db_header_by_height S C k d') e ∙ at, sym e);
        linked = λ h x y hi ex ey.
            absurd
              (is_found S C R d' h x ex (missing h (inl (omega (arith, hi))) (omega (arith, hi))));
        has_no_other = missing;
      }

  -- A block on top.
  pub append_block-Linked :
      (b : Block) (d : S.Db) (n : ℕ) (x : Header)
      → IsLinked S C R d n
      → db_header_by_height S C n d ≡ ok x
      → b.header.height ≡ n + 1
      → n + 2 < u64_mod
      → b.header.parent_hash ≡ x.hash
      → IsLinked S C R (append_block S C b d).1 (n + 1)
  append_block-Linked b d n x l at_n height fits parent =
      let d' = (append_block S C b d).1 in
      let (top, at, others) = append_block-Appends S C R b d (omega (arith, height, fits)) in
      let kept : (h : ℕ) → h ≤ n → db_header_by_height S C h d' ≡ db_header_by_height S C h d =
        λ h hi. others h (omega (arith, hi, fits)) (λ e. omega (arith, hi, e, height)) in
      let new : (h : ℕ) → h ≡ n + 1 → db_header_by_height S C h d' ≡ ok b.header =
        λ h e. ap (λ k. db_header_by_height S C k d') (e ∙ sym height) ∙ at in
      record {
        not_empty = omega arith;
        in_u64 = omega (arith, fits);
        top = top ∙ ap (λ h. some (put_uint64 h)) height;
        has = λ h lo hi. elim (Bool-cases (h == n + 1)) [
          | inl e ↦ let e = (==_iff h (n + 1)).0 e in (b.header, new h e, height ∙ sym e)
          | inr e ↦
              let below : h ≤ n = ground (arith, e, hi) in
              let (z, read, at_z) = l.has h lo below in (z, kept h below ∙ read, at_z)
        ];
        linked = λ h y z hi ey ez. elim (Bool-cases (h == n)) [
          | inl e ↦
              let e = (==_iff h n).0 e in
              let is_z = ok_injective b.header z (sym (new (h + 1) (ap (λ k. k + 1) e)) ∙ ez) in
              let is_y = ok_injective x y (
                sym at_n
                ∙ sym (kept n (omega arith))
                ∙ ap (λ k. db_header_by_height S C k d') (sym e)
                ∙ ey) in
              ap (λ (w : Header). w.parent_hash) (sym is_z)
              ∙ parent
              ∙ ap (λ (w : Header). w.hash) is_y
          | inr e ↦
              let below : h + 1 ≤ n = ground (arith, e, hi) in
              l.linked h y z below (sym (kept h (omega (arith, below))) ∙ ey)
                (sym (kept (h + 1) below) ∙ ez)
        ];
        has_no_other = λ h out small.
            others h small (λ e. ground (arith, out, e, height))
            ∙ l.has_no_other h (ground (arith, out)) small;
      }

  -- The labels are written elsewhere.
  pub update_labels-Linked :
      (u s f : Bytes) (d : S.Db) (n : ℕ)
      → IsLinked S C R d n
      → IsLinked S C R (update_labels S C u s f d).1 n
  update_labels-Linked u s f d n l =
      let d' = (update_labels S C u s f d).1 in
      let same : (h : ℕ) → db_header_by_height S C h d' ≡ db_header_by_height S C h d =
        λ h. same_header S C R h d d' (labels-keep S C R u s f d 1 (put_uint64 h) refl) in
      record {
        not_empty = l.not_empty;
        in_u64 = l.in_u64;
        top = labels-keep S C R u s f d 6 [] refl ∙ l.top;
        has = λ h lo hi. let (x, read, at) = l.has h lo hi in (x, same h ∙ read, at);
        linked = λ h x y hi ex ey. l.linked h x y hi (sym (same h) ∙ ex) (sym (same (h + 1)) ∙ ey);
        has_no_other = λ h out fits. same h ∙ l.has_no_other h out fits;
      }

  -- A rollback cuts the chain.
  pub rollback-Linked :
      (d : S.Db) (n m : ℕ) (u s f : Bytes) (hs : List Header) (x : Header)
      → IsLinked S C R d n
      → m + 1 < u64_mod
      → db_header_by_height S C m d ≡ ok x
      → lookup (hash_key u) (S.entries d) ≡ some (put_uint64 m)
      → Decode C (select (headers_from (first_after S C R m)) (S.entries d)) hs
      → IsLinked S C R (rollback S C u s f d).1 m
  rollback-Linked d n m u s f hs x l fits at_m at_hash dec =
      let (_, cut) = rollback-RolledBack S C R d u s f m hs fits at_hash dec in
      let (lo, hi) = bounded S C R d n m x l (omega (arith, fits)) at_m in
      record {
        not_empty = lo;
        in_u64 = fits;
        top = rollback-top S C R d u s f m hs fits at_hash dec;
        has = λ h pos below.
            let (z, read, at) = l.has h pos (omega (arith, below, hi)) in
            (z, cut.below h below ∙ read, at);
        linked = λ h y z below ey ez.
            l.linked h y z (omega (arith, below, hi))
              (sym (cut.below h (omega (arith, below))) ∙ ey) (sym (cut.below (h + 1) below) ∙ ez);
        has_no_other = λ h out small. elim out [
          | inl e ↦ cut.below h (omega (arith, e)) ∙ l.has_no_other h (inl e) small
          | inr above ↦ cut.above h above small
        ];
      }
