-- ===== src/Comet/Paginate.antt =====
-- comet/comet.go: `paginate`, and the loop that copies a page of results.
use native.Mathlib.Nat.{mul-le-mul_right, lt-div-mul-add, div-mul-le_self}
use mathlib.Core.Path.{subst}
use monomer.Prelude.{
  ok_injective, ℕ, zero, suc, ◌+◌, ◌-◌, ◌*◌, ◌/◌, ◌≤◌, ◌<◌, ◌≡◌, ◌≢◌, refl, ap, sym, ◌∙◌, ltb, ◌==◌,
  ==_iff, ℤ, pos, negsuc, Bool, true, false, ◌||◌, Bool-cases, inl, inr, Option, none, some, List,
  [], ◌∷◌, ◌++◌, arith, length, failure, Result, ok, err, panic, ◌>>=◌, ok_of_if, ok_injective,
  if◌then◌else◌,
}

-- The page size that is used: 30 where none is given, or one that is not from 1 to 100.
unfoldable pub page_size : Option ℤ → ℕ
page_size none = 30
page_size (some (negsuc n)) = 30
page_size (some (pos n)) = if (n == 0) || ltb 100 n then 30 else n

-- `((totalCount - 1) / pageSize) + 1`, where Go's division rounds towards zero.
unfoldable pub num_pages : ℕ → ℕ → ℕ
num_pages total size = if total == 0 then (if size == 1 then 0 else 1) else (total - 1) / size + 1

unfoldable pub page_num : Option ℤ → ℤ
page_num none = pos 1
page_num (some p) = p

-- `paginate` after the page number is known to be no less than 1: the count that is skipped, and the one
-- that is returned.
unfoldable pub page_at : ℕ → ℕ → ℕ → Result (ℕ × ℕ)
page_at p size total =
    if (p == 0) || ltb (num_pages total size) p
    then err (failure "page must be in range")
    else let skip = (p - 1) * size in
      ok (skip, (if ltb (total - skip) size then total - skip else size))

-- `paginate`
unfoldable pub paginate : Option ℤ → Option ℤ → ℕ → Result (ℕ × ℕ)
paginate page size total = elim (page_num page) [
  | pos p ↦ page_at p (page_size size) total
  | negsuc p ↦ err (failure "page must be in range")
]

module _ {ℓ} {A : Type ℓ} where
  unfoldable pub take : ℕ → List A → List A
  take zero xs = []
  take (suc n) [] = []
  take (suc n) (x ∷ xs) = x ∷ take n xs

  unfoldable pub drop : ℕ → List A → List A
  drop zero xs = xs
  drop (suc n) [] = []
  drop (suc n) (x ∷ xs) = drop n xs

  unfoldable pub item : ℕ → List A → Result A
  item i [] = panic "index out of range"
  item zero (x ∷ xs) = ok x
  item (suc i) (x ∷ xs) = item i xs

  -- The loop over `i` from `skip` to `skip + count`.
  unfoldable pub copy_page : ℕ → ℕ → List A → Result (List A)
  copy_page i zero xs = ok []
  copy_page i (suc n) xs = do x ← item i xs; rest ← copy_page (suc i) n xs; ok (x ∷ rest)

  item-drop :
      (i : ℕ) (xs : List A)
      → i < length xs
      → (x : A) × (item i xs ≡ ok x) × (drop i xs ≡ x ∷ drop (suc i) xs)
  unfolding item drop
  item-drop i [] h = absurd (omega (arith, h))
  item-drop zero (x ∷ xs) h = (x, refl, refl)
  item-drop (suc i) (x ∷ xs) h = item-drop i xs (omega (arith, h))

  -- Within the results, the loop copies the page and does not panic.
  pub copy_page-lem :
      (i n : ℕ) (xs : List A) → i + n ≤ length xs → copy_page i n xs ≡ ok (take n (drop i xs))
  unfolding copy_page take drop
  copy_page-lem i zero xs h = refl
  copy_page-lem i (suc n) xs h =
      let (x, found, same) = item-drop i xs (omega (arith, h)) in
      rw (found, same, copy_page-lem (suc i) n xs (omega (arith, h))) refl

  pub length-drop : (n : ℕ) (xs : List A) → length (drop n xs) ≡ length xs - n
  unfolding drop
  length-drop zero xs = omega arith
  length-drop (suc n) [] = omega arith
  length-drop (suc n) (x ∷ xs) = omega (arith, length-drop n xs)

  take-all : (n : ℕ) (xs : List A) → length xs ≤ n → take n xs ≡ xs
  unfolding take
  take-all zero [] h = refl
  take-all zero (x ∷ xs) h = absurd (omega (arith, h))
  take-all (suc n) [] h = refl
  take-all (suc n) (x ∷ xs) h = ap (λ r. x ∷ r) (take-all n xs (omega (arith, h)))

  none_left : (n : ℕ) → take n [] ≡ []
  unfolding take
  none_left zero = refl
  none_left (suc n) = refl

  take-add : (a b : ℕ) (xs : List A) → take a xs ++ take b (drop a xs) ≡ take (a + b) xs
  unfolding take drop
  take-add zero b xs = let e : b ≡ 0 + b = omega arith in ap (λ n. take n xs) e
  take-add (suc a) b [] = none_left b ∙ sym (none_left (suc a + b))
  take-add (suc a) b (x ∷ xs) =
      let e : suc (a + b) ≡ suc a + b = omega arith in
      ap (λ r. x ∷ r) (take-add a b xs) ∙ ap (λ n. take n (x ∷ xs)) e

-- How far the pages reach.
num_pages-reach : (total size : ℕ) → size ≢ 0 → total ≤ num_pages total size * size
unfolding num_pages
num_pages-reach total size h = go (total == 0) refl
  where
    go :
        (b : Bool)
        → (total == 0) ≡ b
        → total ≤ (if b then (if size == 1 then 0 else 1) else (total - 1) / size + 1) * size
    go true e = let none_there = (==_iff total 0).0 e in omega (arith, none_there)
    go false e =
        let below : total - 1 < (total - 1) / size * size + size =
          lt-div-mul-add (omega (arith, h)) in
        omega (arith, below)

-- A page that is not past the last one begins within the results.
page-within : (p total size : ℕ) → size ≢ 0 → p < num_pages total size → p * size ≤ total
unfolding num_pages
page-within p total size h = go (total == 0) refl
  where
    go :
        (b : Bool)
        → (total == 0) ≡ b
        → p < (if b then (if size == 1 then 0 else 1) else (total - 1) / size + 1)
        → p * size ≤ total
    go true e less = let first : p ≡ 0 = ground (arith, less) in rw first (omega arith)
    go false e less =
        let q : p ≤ (total - 1) / size = omega (arith, less) in
        omega (arith, mul-le-mul_right size q, div-mul-le_self (total - 1) size)

page_at-ok :
    (k s total : ℕ)
    → suc k ≤ num_pages total s
    → page_at (suc k) s total ≡ ok (k * s, (if ltb (total - k * s) s then total - k * s else s))
unfolding page_at
page_at-ok k s total h =
    let back : suc k - 1 ≡ k = omega arith in
    let in_range : ((suc k == 0) || ltb (num_pages total s) (suc k)) ≡ false = ground (arith, h) in
    rw (in_range, back) refl

page_size_ne : (size : Option ℤ) → page_size size ≢ 0
unfolding page_size
page_size_ne none h = omega (arith, h)
page_size_ne (some (negsuc n)) h = omega (arith, h)
page_size_ne (some (pos n)) h = ground (arith, h)

end_of_page :
    (skip s total : ℕ)
    → skip ≤ total
    → skip + (if ltb (total - skip) s then total - skip else s) ≤ total
end_of_page skip s total h = ground (arith, h)

page_at-within :
    (p s total skip count : ℕ) → s ≢ 0 → page_at p s total ≡ ok (skip, count) → skip + count ≤ total
unfolding page_at
page_at-within p s total skip count ne h =
    elim (ok_of_if ((p == 0) || ltb (num_pages total s) p) (err _) (ok _) (skip, count) h) [
      | inl (out, bad) ↦ cc
      | inr (fine, same) ↦
          subst (λ (w : ℕ × ℕ). w.0 + w.1 ≤ total) (ok_injective _ _ same)
            (end_of_page ((p - 1) * s) s total
              (page-within (p - 1) total s ne (ground (arith, fine))))
    ]

-- What is skipped and what is returned are within the results.
pub paginate-within :
    (page size : Option ℤ) (total skip count : ℕ)
    → paginate page size total ≡ ok (skip, count)
    → skip + count ≤ total
unfolding paginate
paginate-within page size total skip count = go (page_num page)
  where
    go :
        (p : ℤ)
        → elim p as (λ x. Result (ℕ × ℕ)) [
          | pos p ↦ page_at p (page_size size) total
          | negsuc p ↦ err (failure "page must be in range")
        ]
          ≡ ok (skip, count)
        → skip + count ≤ total
    go (negsuc p) h = cc
    go (pos p) h = page_at-within p (page_size size) total skip count (page_size_ne size) h

-- The pages of a search, and the first `n` of them one after the other.
module _ {ℓ} {A : Type ℓ} where
  abbrev pub page_of : Option ℤ → List A → ℕ → Result (List A)
  page_of size xs k = do
    (skip, count) ← paginate (some (pos k)) size (length xs)
    copy_page skip count xs

  abbrev pub pages_to : Option ℤ → List A → ℕ → Result (List A)
  pages_to size xs zero = ok []
  pages_to size xs (suc n) = do
    front ← pages_to size xs n
    page ← page_of size xs (suc n)
    ok (front ++ page)

  -- The part of a page that there is.
  short : (s : ℕ) (ys : List A) → take (if ltb (length ys) s then length ys else s) ys ≡ take s ys
  short s ys = elim (Bool-cases (ltb (length ys) s)) [
    | inl e ↦ rw e (take-all (length ys) ys (omega arith) ∙ sym (take-all s ys (ground (arith, e))))
    | inr e ↦ rw e refl
  ]

  page_of-lem :
      (size : Option ℤ) (xs : List A) (k : ℕ)
      → suc k ≤ num_pages (length xs) (page_size size)
      → page_of size xs (suc k) ≡ ok (take (page_size size) (drop (k * page_size size) xs))
  unfolding paginate page_num
  page_of-lem size xs k h =
      let s = page_size size in
      let within = page-within k (length xs) s (page_size_ne size) (omega (arith, h)) in
      let left = length-drop (k * s) xs in
      let count = if ltb (length xs - k * s) s then length xs - k * s else s in
      let fits : k * s + count ≤ length xs = end_of_page (k * s) s (length xs) within in
      let copied = copy_page-lem (k * s) count xs fits in
      let same = ap (λ n. take (if ltb n s then n else s) (drop (k * s) xs)) (sym left) in
      ap (λ r. r >>= λ w. copy_page w.0 w.1 xs) (page_at-ok k s (length xs) h)
      ∙ (copied ∙ ap ok (same ∙ short s (drop (k * s) xs)))

  -- The pages, one after the other, are the results: each is once in them, in the order of the results. The
  -- page size may be any number, in range or not.
  pub pages_to-all :
      (size : Option ℤ) (xs : List A)
      → pages_to size xs (num_pages (length xs) (page_size size)) ≡ ok xs
  unfolding take
  pages_to-all size xs =
      front (num_pages (length xs) s) (omega arith)
      ∙ ap ok (take-all _ xs (num_pages-reach (length xs) s (page_size_ne size)))
    where
      s : ℕ
      s = page_size size

      front :
          (n : ℕ)
          → n ≤ num_pages (length xs) (page_size size)
          → pages_to size xs n ≡ ok (take (n * page_size size) xs)
      front zero h = let e : 0 ≡ 0 * page_size size = omega arith in ap (λ m. ok (take m xs)) e
      front (suc n) h =
          let before = front n (omega (arith, h)) in
          let here = page_of-lem size xs n h in
          let e : n * page_size size + page_size size ≡ suc n * page_size size = omega arith in
          ap (λ r. r >>= λ f. page_of size xs (suc n) >>= λ page. ok (f ++ page)) before
          ∙ (ap (λ r. r >>= λ page. ok (take (n * page_size size) xs ++ page)) here
              ∙ ap ok (take-add (n * page_size size) (page_size size) xs ∙ ap (λ m. take m xs) e))

-- Where there is no result, the first page is empty for every page size but 1; with a page size of 1 there
-- is no page, so every page number is an error, and so is none.
pub paginate-empty :
    (size : Option ℤ) (page : Option ℤ)
    → page_size size ≢ 1
    → (paginate none size 0 ≡ ok (0, 0))
      × (paginate page (some (pos 1)) 0 ≡ err (failure "page must be in range"))
unfolding paginate page_at page_num num_pages page_size
paginate-empty size page h = (ground (arith, page_size_ne size, h), refused page)
  where
    refused :
        (page : Option ℤ) → paginate page (some (pos 1)) 0 ≡ err (failure "page must be in range")
    refused none = refl
    refused (some (negsuc n)) = refl
    refused (some (pos n)) = ground arith
