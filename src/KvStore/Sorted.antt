-- ===== src/KvStore/Sorted.antt =====
-- The entries of a database stay in order, and what an iterator sees of each kind of write.
use monomer.Prelude.{
  ◌≡◌, refl, ap, ◌∙◌, Bool, true, false, List, [], ◌∷◌, ◌++◌, arith, All, inl, inr, Bool-cases,
}
use monomer.Bytes.{Bytes, bytes_eq, bytes_lt, bytes_eq_iff, eq_of_bytes_eq, bytes_lt_irrefl}
use monomer.Bytes.Order.{bytes_lt_trans, bytes_lt_asymm, bytes_lt_total}
use monomer.KvStore.{
  Entries, Op, put, remove, remove_range, insert, select, in_range, apply_op, apply,
}

-- Every key lies above `k`; below `k`.
abbrev pub Above : Bytes → Entries → Type 0
Above k = All (λ e. bytes_lt k e.0 ≡ true)

abbrev pub Below : Bytes → Entries → Type 0
Below k = All (λ e. bytes_lt e.0 k ≡ true)

abbrev pub IsSorted : Entries → Type 0
IsSorted [] = Unit
IsSorted ((k, v) ∷ es) = Above k es × IsSorted es

pub Above-trans : (j k : Bytes) (es : Entries) → bytes_lt j k ≡ true → Above k es → Above j es
Above-trans j k [] h a = tt
Above-trans j k (e ∷ es) h a = (bytes_lt_trans j k e.0 h a.0, Above-trans j k es h a.1)

Above-insert :
    (j k v : Bytes) (es : Entries) → bytes_lt j k ≡ true → Above j es → Above j (insert k v es)
unfolding insert
Above-insert j k v [] h a = (h, tt)
Above-insert j k v ((i, w) ∷ es) h a = ground (arith, Above-insert j k v es h a.1)

Above-select : (j : Bytes) (p : Bytes → Bool) (es : Entries) → Above j es → Above j (select p es)
unfolding select
Above-select j p [] a = tt
Above-select j p ((i, w) ∷ es) a = ground (arith, Above-select j p es a.1)

insert-IsSorted : (k v : Bytes) (es : Entries) → IsSorted es → IsSorted (insert k v es)
unfolding insert
insert-IsSorted k v [] s = (tt, tt)
insert-IsSorted k v ((j, w) ∷ es) s = elim (Bool-cases (bytes_eq j k)) [
  | inl e ↦ rw (e, ← eq_of_bytes_eq j k e) s
  | inr e ↦ elim (Bool-cases (bytes_lt k j)) [
    | inl l ↦ rw (e, l) ((l, Above-trans k j es l s.0), s)
    | inr l ↦
        let below : bytes_lt j k ≡ true =
          ground (arith, bytes_lt_total k j, bytes_eq_iff j k, bytes_eq_iff k j) in
        rw (e, l) (Above-insert j k v es below s.0, insert-IsSorted k v es s.1)
  ]
]

select-IsSorted : (p : Bytes → Bool) (es : Entries) → IsSorted es → IsSorted (select p es)
unfolding select
select-IsSorted p [] s = tt
select-IsSorted p ((j, w) ∷ es) s =
    ground (arith, Above-select j p es s.0, select-IsSorted p es s.1)

apply_op-IsSorted : (op : Op) (es : Entries) → IsSorted es → IsSorted (apply_op op es)
unfolding apply_op
apply_op-IsSorted (put k v) es s = insert-IsSorted k v es s
apply_op-IsSorted (remove k) es s = select-IsSorted _ es s
apply_op-IsSorted (remove_range lower upper) es s = select-IsSorted _ es s

-- A batch leaves the entries in order.
pub apply-IsSorted : (ops : List Op) (es : Entries) → IsSorted es → IsSorted (apply ops es)
unfolding apply
apply-IsSorted [] es s = s
apply-IsSorted (op ∷ ops) es s = apply-IsSorted ops (apply_op op es) (apply_op-IsSorted op es s)

-- A write outside of what is selected is not seen.
select-insert_other :
    (p : Bytes → Bool) (k v : Bytes) (es : Entries)
    → p k ≡ false
    → select p (insert k v es) ≡ select p es
unfolding select insert
select-insert_other p k v [] h = rw h
select-insert_other p k v ((j, w) ∷ es) h =
    ground (arith, eq_of_bytes_eq j k, select-insert_other p k v es h)

pub select-select :
    (p q : Bytes → Bool) (es : Entries)
    → ((j : Bytes) → p j ≡ true → q j ≡ true)
    → select p (select q es) ≡ select p es
unfolding select
select-select p q [] h = refl
select-select p q ((j, w) ∷ es) h = ground (arith, h j, select-select p q es h)

-- What a write leaves alone.
abbrev pub Spares : (Bytes → Bool) → Op → Type 0
Spares p (put k v) = p k ≡ false
Spares p (remove k) = p k ≡ false
Spares p (remove_range lower upper) = (j : Bytes) → p j ≡ true → in_range lower upper j ≡ false

select-apply_op :
    (p : Bytes → Bool) (op : Op) (es : Entries)
    → Spares p op
    → select p (apply_op op es) ≡ select p es
unfolding apply_op
select-apply_op p (put k v) es h = select-insert_other p k v es h
select-apply_op p (remove k) es h = select-select p _ es (λ j e. ground (arith, bytes_eq_iff j k))
select-apply_op p (remove_range lower upper) es h = select-select p _ es (λ j e. rw (h j e))

-- A batch that spares a range leaves what an iterator over it yields.
pub select-apply :
    (p : Bytes → Bool) (ops : List Op) (es : Entries)
    → All (Spares p) ops
    → select p (apply ops es) ≡ select p es
unfolding apply
select-apply p [] es h = refl
select-apply p (op ∷ ops) es h =
    select-apply p ops (apply_op op es) h.1 ∙ select-apply_op p op es h.0

select-none :
    (p : Bytes → Bool) (k : Bytes) (es : Entries)
    → Above k es
    → Below k (select p es)
    → select p es ≡ []
unfolding select
select-none p k [] a b = refl
select-none p k ((j, w) ∷ es) a b = elim (Bool-cases (p j)) [
  | inl e ↦ absurd (cc (bytes_lt_asymm k j a.0, (rw e at b).0))
  | inr e ↦ rw e (select-none p k es a.1 (rw e at b))
]

-- A key above those of a range is written at its end.
pub select-insert_last :
    (p : Bytes → Bool) (k v : Bytes) (es : Entries)
    → p k ≡ true
    → IsSorted es
    → Below k (select p es)
    → select p (insert k v es) ≡ select p es ++ (k, v) ∷ []
unfolding select insert
select-insert_last p k v [] h s b = rw h
select-insert_last p k v ((j, w) ∷ es) h s b = elim (Bool-cases (p j)) [
  | inl e ↦
      let below = (rw e at b).0 in
      let apart : bytes_eq j k ≡ false =
        ground (arith, bytes_eq_iff j k, bytes_lt_irrefl k, below) in
      rw (e, apart, bytes_lt_asymm j k below, e)
        (ap (λ r. (j, w) ∷ r) (select-insert_last p k v es h s.1 (rw e at b).1))
  | inr e ↦
      let apart : bytes_eq j k ≡ false = ground (arith, bytes_eq_iff j k) in
      elim (Bool-cases (bytes_lt k j)) [
        | inl l ↦
            rw (e, apart, l, h, e, select-none p k es (Above-trans k j es l s.0) (rw e at b)) refl
        | inr l ↦ rw (e, apart, l, e) (select-insert_last p k v es h s.1 (rw e at b))
      ]
]

pub Below-trans : (j k : Bytes) (es : Entries) → bytes_lt j k ≡ true → Below j es → Below k es
Below-trans j k [] h b = tt
Below-trans j k (e ∷ es) h b = (bytes_lt_trans e.0 j k b.0 h, Below-trans j k es h b.1)

pub Below-snoc :
    (k v j : Bytes) (es : Entries) → Below k es → bytes_lt k j ≡ true → Below j (es ++ (k, v) ∷ [])
Below-snoc k v j [] b h = (h, tt)
Below-snoc k v j (e ∷ es) b h = (bytes_lt_trans e.0 k j b.0 h, Below-snoc k v j es b.1 h)
