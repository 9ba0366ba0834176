-- ===== src/LocalDb/Linked.antt =====
-- The headers of a block store as a chain, and what a write leaves of them.
pub mod Writes
use monomer.Prelude.{
  ℕ, ◌+◌, ◌<◌, ◌≤◌, ◌≡◌, ◌≢◌, ◌⊎◌, refl, ap, ◌∙◌, sym, Bool-cases, inl, inr, false, some, [], ◌∷◌,
  List, arith, ok, err, not_found, failing, ltb, ok_injective, ◌==◌, ==_iff, wrap_close_err,
}
use monomer.Bytes.{Bytes, bytes_eq, bytes_eq_iff, bytes_ne_of_head}
use monomer.Bytes.BigEndian.{u64_mod, put_uint64, put_uint64-injective}
use monomer.KvStore.{KvStore, IsReliable, lookup, select}
use monomer.Block.{Header, Block}
use monomer.LocalDb.Keys.{height_key, header_key, hash_key, BlockCodec}
use monomer.LocalDb.Lookup.{db_header_by_height, head_header}
use monomer.LocalDb.Lookup.Stored.{header_by_height_lem, decoded, get_height-ok}
use monomer.LocalDb.Write.{append_block, update_labels}
use monomer.LocalDb.Write.Ops.{append_block-ok, update-ok, block_puts, label_puts, label_ops-ok}
use monomer.LocalDb.Write.Append.{after-block_puts, after_header, after_height}
use monomer.LocalDb.Write.Labels.{label_puts-other}
use monomer.LocalDb.Rollback.{rollback}
use monomer.LocalDb.Rollback.Ops.{Decode, headers_from}
use monomer.LocalDb.Rollback.Chain.{first_after, rollback-RolledBack, rollback-top}

module _ (S : KvStore) (C : BlockCodec) (R : IsReliable S) where
  -- A chain of `n` headers: one at each height from 1 on, with this height and with the hash of the one below
  -- as its parent, and no other.
  pub record IsLinked (d : S.Db) (n : ℕ) : Type 0 where
    pub not_empty : 0 < n
    pub in_u64 : n + 1 < u64_mod
    pub top : lookup height_key (S.entries d) ≡ some (put_uint64 n)
    pub has :
        (h : ℕ)
        → 0 < h
        → h ≤ n
        → (x : Header) × (db_header_by_height S C h d ≡ ok x) × (x.height ≡ h)
    pub linked :
        (h : ℕ) (x y : Header)
        → h + 1 ≤ n
        → db_header_by_height S C h d ≡ ok x
        → db_header_by_height S C (h + 1) d ≡ ok y
        → y.parent_hash ≡ x.hash
    pub has_no_other :
        (h : ℕ) → (h ≡ 0) ⊎ (n < h) → h < u64_mod → db_header_by_height S C h d ≡ err not_found

  header_lem :
      (h : ℕ) (d : S.Db)
      → db_header_by_height S C h d ≡ decoded S C R d (lookup (header_key h) (S.entries d))
  unfolding db_header_by_height
  header_lem h d = header_by_height_lem S C R d (put_uint64 h)

  -- A header is read from its key alone.
  same_header :
      (h : ℕ) (d d' : S.Db)
      → lookup (header_key h) (S.entries d') ≡ lookup (header_key h) (S.entries d)
      → db_header_by_height S C h d' ≡ db_header_by_height S C h d
  same_header h d d' e = header_lem h d' ∙ ap (decoded S C R d) e ∙ sym (header_lem h d)

  pub head_header-top :
      (d : S.Db) (n : ℕ) (x : Header)
      → lookup height_key (S.entries d) ≡ some (put_uint64 n)
      → db_header_by_height S C n d ≡ ok x
      → head_header S C d ≡ ok x
  unfolding head_header db_header_by_height wrap_close_err
  head_header-top d n x top e = rw (get_height-ok S C R d (put_uint64 n) top, e, R.closes d) refl

  -- What `AppendBlock` leaves of the headers.
  abbrev Appends : Block → S.Db → S.Db → Type 0
  Appends b d d' =
      (lookup height_key (S.entries d') ≡ some (put_uint64 b.header.height))
      × (db_header_by_height S C b.header.height d' ≡ ok b.header)
      × ((h : ℕ)
          → h < u64_mod
          → h ≢ b.header.height
          → db_header_by_height S C h d' ≡ db_header_by_height S C h d)

  other_header :
      (x y : ℕ) → x < u64_mod → y < u64_mod → y ≢ x → bytes_eq (header_key x) (header_key y) ≡ false
  other_header x y hx hy ne = elim (Bool-cases (bytes_eq (header_key x) (header_key y))) [
    | inl e ↦
        let eq : header_key x ≡ header_key y = (bytes_eq_iff (header_key x) (header_key y)).0 e in
        let parts : put_uint64 x ≡ put_uint64 y = cc in
        absurd (ne (sym (put_uint64-injective x y hx hy parts)))
    | inr e ↦ e
  ]

  append_block-Appends :
      (b : Block) (d : S.Db) → b.header.height < u64_mod → Appends b d (append_block S C b d).1
  append_block-Appends b d small =
      let (bs, encoded, is) = append_block-ok S C R b d in
      let (d', done, reads, _) = update-ok S C R (block_puts C b bs) d in
      rw (is, done)
        (
          reads height_key ∙ after_height C b bs _,
          header_lem b.header.height d'
              ∙ ap (decoded S C R d') (reads (header_key b.header.height) ∙ after_header C b bs _)
              ∙ ap (failing "unmarshal cbor") (C.unmarshal-marshal b.header bs encoded),
          λ h fits ne. same_header h d d' (
              reads (header_key h)
              ∙ after-block_puts C b bs 1 (put_uint64 h) _ refl refl
              ∙ ground (
                arith,
                other_header b.header.height h small fits ne,
                bytes_ne_of_head 2 1 b.header.hash (put_uint64 h) refl,
                bytes_ne_of_head 6 1 [] (put_uint64 h) refl,
              )),
        )

  labels-keep :
      (u s f : Bytes) (d : S.Db) (c : ℕ) (part : Bytes)
      → (3 == c) ≡ false
      → lookup (c ∷ part) (S.entries (update_labels S C u s f d).1)
        ≡ lookup (c ∷ part) (S.entries d)
  unfolding update_labels
  labels-keep u s f d c part other =
      let (d', done, reads, _) = update-ok S C R (label_puts u s f) d in
      rw (label_ops-ok S C R u s f [], done)
        (reads (c ∷ part) ∙ label_puts-other S C R u s f c part _ other)

  -- A block store that is empty has no header.
  empty_header : (d : S.Db) (h : ℕ) → S.entries d ≡ [] → db_header_by_height S C h d ≡ err not_found
  unfolding lookup
  empty_header d h e = header_lem h d ∙ ap (λ es. decoded S C R d (lookup (header_key h) es)) e

  is_found :
      (d : S.Db) (h : ℕ) (x : Header)
      → db_header_by_height S C h d ≡ ok x
      → db_header_by_height S C h d ≡ err not_found
      → ⊥
  is_found d h x found missing = cc

  -- A header that is found is one of the chain.
  bounded :
      (d : S.Db) (n h : ℕ) (x : Header)
      → IsLinked d n
      → h < u64_mod
      → db_header_by_height S C h d ≡ ok x
      → (0 < h) × (h ≤ n)
  bounded d n h x l fits found = elim (Bool-cases (ltb n h)) [
    | inl e ↦ absurd (is_found d h x found (l.has_no_other h (inr (ground (arith, e))) fits))
    | inr e ↦ elim (Bool-cases (h == 0)) [
      | inl z ↦ absurd (is_found d h x found (l.has_no_other h (inl ((==_iff h 0).0 z)) fits))
      | inr z ↦ (ground (arith, z), ground (arith, e))
    ]
  ]
