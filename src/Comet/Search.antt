-- ===== src/Comet/Search.antt =====
-- comet/comet.go: `TxAPI`, the transactions by their hash and by a query, a page at a time and in order.
use mathlib.Core.Path.{subst}
use mathlib.Core.List.{Perm}
use mathlib.Core.List.Perm
use monomer.Prelude.{
  ℕ, ◌+◌, ◌^◌, ◌%◌, ◌<◌, ◌≤◌, ◌⊎◌, ok_of_if, ◌≡◌, ap, sym, ◌∙◌, ltb, ◌==◌, ℤ, Bool, true, false,
  Bool-cases, inl, inr, Option, none, some, String, List, [], ◌∷◌, map, arith, length, All, All-map,
  failure, Result, ok, err, ◌>>=◌, wrapping, if◌then◌else◌, same_text, ok_of_bind, ok_of_wrapping,
  ok_injective,
}
use monomer.Bytes.{Bytes}
use monomer.Builder.Withdrawals.{ExecTxResult}
use monomer.Builder.World.{TxResult}
use monomer.Comet.Paginate.{take, drop, paginate, paginate-within, copy_page, copy_page-lem}

-- `rpctypes.ResultTx`
pub record ResultTx : Type 0 where
  pub hash : Bytes
  pub height : ℕ
  pub index : ℕ
  pub tx_result : ExecTxResult
  pub tx : Bytes

-- The transaction index, with CometBFT's query language, and its hash of a transaction.
pub record TxIndex : Type 1 where
  pub State : Type 0
  pub Query : Type 0
  pub new_query : String → Result Query
  pub get : Bytes → State → Result (Option TxResult)
  pub search : Query → State → Result (List TxResult)
  pub tx_hash : Bytes → Bytes

pub data Order : Type 0 where
  ascending descending : Order

-- The `switch` on `orderBy`
unfoldable pub order_of : String → Result Order
order_of t =
    if same_text t "desc"
    then ok descending
    else if same_text t "asc"
    then ok ascending
    else if same_text t ""
    then ok ascending
    else err (failure "expected order_by {asc, desc}")

-- A height is an `int64`, here its 64 bits. Its rank is how far it is above the least `int64`, so that a
-- negative height is below the others.
unfoldable pub int64_rank : ℕ → ℕ
int64_rank h = (h + 2 ^ 63) % 2 ^ 64

-- The two functions that `sort.Slice` is given.
unfoldable pub before : Order → TxResult → TxResult → Bool
before ascending r s =
    if int64_rank r.height == int64_rank s.height
    then ltb r.index s.index
    else ltb (int64_rank r.height) (int64_rank s.height)
before descending r s =
    if int64_rank r.height == int64_rank s.height
    then ltb s.index r.index
    else ltb (int64_rank s.height) (int64_rank r.height)

-- `sort.Slice`, which puts the results in order. It promises no order among results that are not before
-- one another.
unfoldable pub insert : Order → TxResult → List TxResult → List TxResult
insert o r [] = r ∷ []
insert o r (s ∷ rs) = let rest = insert o r rs in if before o s r then s ∷ rest else r ∷ s ∷ rs

unfoldable pub sort : Order → List TxResult → List TxResult
sort o [] = []
sort o (r ∷ rs) = insert o r (sort o rs)

-- No result is before an earlier one.
abbrev pub Sorted : Order → List TxResult → Type 0
Sorted o [] = Unit
Sorted o (r ∷ rs) = All (λ s. before o s r ≡ false) rs × Sorted o rs

insert-perm : (o : Order) (r : TxResult) (rs : List TxResult) → Perm (insert o r rs) (r ∷ rs)
unfolding insert
insert-perm o r [] = Perm.rfl
insert-perm o r (s ∷ rs) = elim (Bool-cases (before o s r)) [
  | inl e ↦ rw e (Perm.trans (Perm.cons s (insert-perm o r rs)) (Perm.swap r s rs))
  | inr e ↦ rw e Perm.rfl
]

sort-perm : (o : Order) (rs : List TxResult) → Perm (sort o rs) rs
unfolding sort
sort-perm o [] = Perm.rfl
sort-perm o (r ∷ rs) = Perm.trans (insert-perm o r (sort o rs)) (Perm.cons r (sort-perm o rs))

before_asym : (o : Order) (r s : TxResult) → before o r s ≡ true → before o s r ≡ false
unfolding before
before_asym ascending r s h = ground (arith, h)
before_asym descending r s h = ground (arith, h)

-- Being no earlier goes on along a list.
later_trans :
    (o : Order) (r s t : TxResult)
    → before o s r ≡ false
    → before o t s ≡ false
    → before o t r ≡ false
unfolding before
later_trans ascending r s t h k = ground (arith, h, k)
later_trans descending r s t h k = ground (arith, h, k)

insert-All :
    (o : Order) (P : TxResult → Type 0) (r : TxResult) (rs : List TxResult)
    → P r
    → All P rs
    → All P (insert o r rs)
unfolding insert
insert-All o P r [] p q = (p, tt)
insert-All o P r (s ∷ rs) p q = elim (Bool-cases (before o s r)) [
  | inl e ↦ rw e (q.0, insert-All o P r rs p q.1)
  | inr e ↦ rw e (p, q)
]

insert-Sorted :
    (o : Order) (r : TxResult) (rs : List TxResult) → Sorted o rs → Sorted o (insert o r rs)
unfolding insert
insert-Sorted o r [] h = (tt, tt)
insert-Sorted o r (s ∷ rs) h = elim (Bool-cases (before o s r)) [
  | inl e ↦ rw e (
    insert-All o (λ t. before o t s ≡ false) r rs (before_asym o s r e) h.0,
    insert-Sorted o r rs h.1,
  )
  | inr e ↦ rw e (
    (
      e,
      All-map (λ t. before o t s ≡ false) (λ t. before o t r ≡ false) rs
          (λ t. later_trans o r s t e) h.0,
    ),
    h,
  )
]

sort-Sorted : (o : Order) (rs : List TxResult) → Sorted o (sort o rs)
unfolding sort
sort-Sorted o [] = tt
sort-Sorted o (r ∷ rs) = insert-Sorted o r (sort o rs) (sort-Sorted o rs)

-- A result is at a lower height, or at the same one with no higher index.
abbrev pub NotAfter : TxResult → TxResult → Type 0
NotAfter r s =
    (int64_rank r.height < int64_rank s.height)
    ⊎ ((int64_rank r.height ≡ int64_rank s.height) × (r.index ≤ s.index))

abbrev pub Ascending : List TxResult → Type 0
Ascending [] = Unit
Ascending (r ∷ rs) = All (NotAfter r) rs × Ascending rs

abbrev pub Descending : List TxResult → Type 0
Descending [] = Unit
Descending (r ∷ rs) = All (λ s. NotAfter s r) rs × Descending rs

-- The order that a text asks for.
abbrev pub InOrder : String → List TxResult → Type 0
InOrder order_by rs =
    ((same_text order_by "desc" ≡ true) × Descending rs)
    ⊎ (((same_text order_by "asc" ≡ true) ⊎ (same_text order_by "" ≡ true)) × Ascending rs)

not_before-ascending : (r s : TxResult) → before ascending s r ≡ false → NotAfter r s
unfolding before
not_before-ascending r s h = elim (Bool-cases (int64_rank s.height == int64_rank r.height)) [
  | inl e ↦ inr (ground (arith, h, e), ground (arith, h, e))
  | inr e ↦ inl (ground (arith, h, e))
]

not_before-descending : (r s : TxResult) → before descending s r ≡ false → NotAfter s r
unfolding before
not_before-descending r s h = elim (Bool-cases (int64_rank s.height == int64_rank r.height)) [
  | inl e ↦ inr (ground (arith, h, e), ground (arith, h, e))
  | inr e ↦ inl (ground (arith, h, e))
]

insertion-Ascending : (rs : List TxResult) → Sorted ascending rs → Ascending rs
insertion-Ascending [] h = tt
insertion-Ascending (r ∷ rs) h = (
  All-map (λ s. before ascending s r ≡ false) (NotAfter r) rs (not_before-ascending r) h.0,
  insertion-Ascending rs h.1,
)

insertion-Descending : (rs : List TxResult) → Sorted descending rs → Descending rs
insertion-Descending [] h = tt
insertion-Descending (r ∷ rs) h = (
  All-map (λ s. before descending s r ≡ false) (λ s. NotAfter s r) rs (not_before-descending r) h.0,
  insertion-Descending rs h.1,
)

sort-InOrder :
    (order_by : String) (o : Order) (rs : List TxResult)
    → order_of order_by ≡ ok o
    → InOrder order_by (sort o rs)
unfolding order_of
sort-InOrder order_by o rs h = elim (ok_of_if (same_text order_by "desc") _ _ o h) [
  | inl (desc, is) ↦ inl (
    desc,
    subst (λ o. Descending (sort o rs)) (ok_injective _ o is)
        (insertion-Descending (sort descending rs) (sort-Sorted descending rs)),
  )
  | inr (_, h1) ↦
      let up = insertion-Ascending (sort ascending rs) (sort-Sorted ascending rs) in
      let at_order =
        λ (is : ok ascending ≡ ok o). subst (λ o. Ascending (sort o rs)) (ok_injective _ o is) up in
      elim (ok_of_if (same_text order_by "asc") _ _ o h1) [
        | inl (asc, is) ↦ inr (inl asc, at_order is)
        | inr (_, h2) ↦ elim (ok_of_if (same_text order_by "") _ _ o h2) [
          | inl (unset, is) ↦ inr (inr unset, at_order is)
          | inr (_, e) ↦ absurd cc
        ]
      ]
]

module _ (T : TxIndex) where
  open T use {State, new_query, get, tx_hash}

  abbrev pub result_tx : TxResult → ResultTx
  result_tx r = record {
    hash = tx_hash r.tx;
    height = r.height;
    index = r.index;
    tx_result = r.result;
    tx = r.tx;
  }

  -- `TxAPI.ByHash`
  unfoldable pub tx_by_hash : Bytes → Bool → State → Result ResultTx
  tx_by_hash hash true s = err (failure "proving is not supported")
  tx_by_hash hash false s = do
    found ← get hash s
    elim found [
      | none ↦ err (failure "tx not found")
      | some r ↦ ok (record {
        hash = hash;
        height = r.height;
        index = r.index;
        tx_result = r.result;
        tx = r.tx;
      })
    ]

  -- `TxAPI.Search` from its sort on
  unfoldable pub page_of_results : Option ℤ → Option ℤ → List TxResult → Result (List ResultTx × ℕ)
  page_of_results page per_page sorted = do
    (skip, count) ← paginate page per_page (length sorted)
    rs ← copy_page skip count sorted
    ok (map result_tx rs, length sorted)

  -- `TxAPI.Search`
  unfoldable pub search_txs :
      String → Bool → Option ℤ → Option ℤ → String → State → Result (List ResultTx × ℕ)
  search_txs query true page per_page order_by s = err (failure "proving is not supported")
  search_txs query false page per_page order_by s = do
    q ← wrapping "failed to parse query" (new_query query)
    results ← wrapping "failed to search txs" (T.search q s)
    o ← order_of order_by
    page_of_results page per_page (sort o results)

  page_of_results-ok :
      (page per_page : Option ℤ) (sorted : List TxResult) (txs : List ResultTx) (total : ℕ)
      → page_of_results page per_page sorted ≡ ok (txs, total)
      → (skip : ℕ) × (count : ℕ) × (paginate page per_page (length sorted) ≡ ok (skip, count))
        × (total ≡ length sorted)
        × (txs ≡ map result_tx (take count (drop skip sorted)))
  unfolding page_of_results
  page_of_results-ok page per_page sorted txs total h =
      let (p, paged, h1) = ok_of_bind (paginate page per_page (length sorted)) _ (txs, total) h in
      let (rs, copied, h2) = ok_of_bind (copy_page p.0 p.1 sorted) _ (txs, total) h1 in
      let fits = paginate-within page per_page (length sorted) p.0 p.1 paged in
      let same = ok_injective _ _ (sym copied ∙ copy_page-lem p.0 p.1 sorted fits) in
      let e = ok_injective _ _ h2 in
      (p.0, p.1, paged, ap (λ r. r.1) (sym e), ap (λ r. r.0) (sym e) ∙ ap (map result_tx) same)

  -- `Search` that answers, answers with a page of what the index found. The results are in the order asked for,
  -- none of them lost or twice: by height and, at one height, by index, going up for "asc" and for no order,
  -- and down for "desc"; no other order is answered. The page is the one of `paginate`, and the total is
  -- the number of the results.
  pub search_txs-page :
      (query : String) (page per_page : Option ℤ) (order_by : String) (s : State)
      (txs : List ResultTx) (total : ℕ)
      → search_txs query false page per_page order_by s ≡ ok (txs, total)
      → (q : T.Query) × (results : List TxResult) × (sorted : List TxResult) × (skip : ℕ)
        × (count : ℕ) × (new_query query ≡ ok q)
        × (T.search q s ≡ ok results)
        × Perm sorted results
        × InOrder order_by sorted
        × (total ≡ length sorted)
        × (paginate page per_page total ≡ ok (skip, count))
        × (txs ≡ map result_tx (take count (drop skip sorted)))
  unfolding search_txs
  search_txs-page query page per_page order_by s txs total h =
      let (q, parsed, h1) = ok_of_bind _ _ (txs, total) h in
      let (results, found, h2) = ok_of_bind _ _ (txs, total) h1 in
      let (o, ordered, h3) = ok_of_bind _ _ (txs, total) h2 in
      let (skip, count, paged, is_total, are_txs) =
        page_of_results-ok page per_page (sort o results) txs total h3 in
      (
        q,
        results,
        sort o results,
        skip,
        count,
        ok_of_wrapping _ _ q parsed,
        ok_of_wrapping _ _ results found,
        sort-perm o results,
        sort-InOrder order_by o results ordered,
        is_total,
        ap (paginate page per_page) is_total ∙ paged,
        are_txs,
      )
