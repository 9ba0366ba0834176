-- ===== src/KvStore/Laws.antt =====
-- Lookups and ranges after each kind of write.
use monomer.Prelude.{
  ◌≡◌, refl, Bool, not, Option, none, some, List, [], ◌∷◌, ◌++◌, arith, if◌then◌else◌,
}
use monomer.Bytes.{Bytes, bytes_eq, bytes_eq_iff}
use monomer.KvStore.{
  Entries, Op, put, remove, remove_range, lookup, insert, select, in_range, apply_op, apply,
}

pub lookup-insert :
    (k j v : Bytes) (es : Entries)
    → lookup j (insert k v es) ≡ (if bytes_eq k j then some v else lookup j es)
unfolding lookup insert
lookup-insert k j v [] = refl
lookup-insert k j v ((i, w) ∷ es) =
    ground (arith, bytes_eq_iff i k, bytes_eq_iff i j, bytes_eq_iff k j, lookup-insert k j v es)

pub lookup-select :
    (p : Bytes → Bool) (j : Bytes) (es : Entries)
    → lookup j (select p es) ≡ (if p j then lookup j es else none)
unfolding lookup select
lookup-select p j [] = ground arith
lookup-select p j ((i, w) ∷ es) = ground (arith, bytes_eq_iff i j, lookup-select p j es)

-- What one write does to the value at a key.
abbrev pub after_op : Op → Bytes → Option Bytes → Option Bytes
after_op (put k v) j old = if bytes_eq k j then some v else old
after_op (remove k) j old = if bytes_eq j k then none else old
after_op (remove_range lower upper) j old = if in_range lower upper j then none else old

abbrev pub after : List Op → Bytes → Option Bytes → Option Bytes
after [] j old = old
after (op ∷ ops) j old = after ops j (after_op op j old)

lookup-apply_op :
    (op : Op) (j : Bytes) (es : Entries) → lookup j (apply_op op es) ≡ after_op op j (lookup j es)
unfolding apply_op
lookup-apply_op (put k v) j es = lookup-insert k j v es
lookup-apply_op (remove k) j es = ground (arith, lookup-select (λ i. not (bytes_eq i k)) j es)
lookup-apply_op (remove_range lower upper) j es =
    ground (arith, lookup-select (λ i. not (in_range lower upper i)) j es)

pub lookup-apply :
    (ops : List Op) (j : Bytes) (es : Entries) → lookup j (apply ops es) ≡ after ops j (lookup j es)
unfolding apply
lookup-apply [] j es = refl
lookup-apply (op ∷ ops) j es = rw (lookup-apply ops j (apply_op op es), lookup-apply_op op j es)

pub apply-append :
    (ops more : List Op) (es : Entries) → apply (ops ++ more) es ≡ apply more (apply ops es)
unfolding apply
apply-append [] more es = refl
apply-append (op ∷ ops) more es = apply-append ops more (apply_op op es)

pub after-append :
    (ops more : List Op) (j : Bytes) (old : Option Bytes)
    → after (ops ++ more) j old ≡ after more j (after ops j old)
after-append [] more j old = refl
after-append (op ∷ ops) more j old = after-append ops more j (after_op op j old)
