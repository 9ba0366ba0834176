-- ===== src/Txstore/Ranges.antt =====
-- Which keys of the index lie in the range of a height.
use monomer.Prelude.{
  ℕ, ◌<◌, ◌≡◌, ◌≢◌, refl, ap, sym, ◌∙◌, true, false, Bool-cases, inl, inr, [], ◌∷◌, ◌++◌, arith,
}
use mathlib.Core.List.{append_assoc}
use monomer.Bytes.{Bytes, bytes_lt}
use monomer.Bytes.BigEndian.{u64_mod}
use monomer.Bytes.Order.{bytes_lt-append, bytes_lt-append_left}
use monomer.Bytes.Decimal.{decimal, decimal-All, decimal-injective, before_slash}
use monomer.KvStore.{in_range}
use monomer.Txstore.{tx_height_key, height_prefix, height_range}

-- The key of a transaction at a height: CometBFT puts its index, and more, behind the height.
abbrev pub entry_key : ℕ → Bytes → Bytes
entry_key h rest = height_prefix h ++ 47 ∷ rest

pub entry_key-in : (h : ℕ) (rest : Bytes) → height_range h (entry_key h rest) ≡ true
unfolding bytes_lt
entry_key-in h rest =
    let p = height_prefix h in
    let low : bytes_lt (p ++ 47 ∷ rest) (p ++ 47 ∷ []) ≡ false =
      bytes_lt-append_left p (47 ∷ rest) (47 ∷ []) ∙ bytes_lt-append [] rest in
    let high : bytes_lt (p ++ 47 ∷ rest) (p ++ 126 ∷ []) ≡ true =
      bytes_lt-append_left p (47 ∷ rest) (126 ∷ []) in
    rw (low, high) refl

-- What lies between two ends of the same text begins with that text.
begins :
    (p : Bytes) (a b : ℕ) (k : Bytes)
    → in_range (p ++ a ∷ []) (p ++ b ∷ []) k ≡ true
    → (c : ℕ) × (rest : Bytes) × (k ≡ p ++ c ∷ rest)
unfolding bytes_lt
begins [] a b [] h = absurd (ground arith)
begins [] a b (c ∷ k) h = (c, k, refl)
begins (x ∷ p) a b [] h = absurd (ground arith)
begins (x ∷ p) a b (y ∷ k) h =
    let (c, rest, e) = begins p a b k (ground (arith, h)) in
    let same : y ≡ x = ground (arith, h) in (c, rest, rw (same, e) refl)

drop_key : (t p q : Bytes) → t ++ p ≡ t ++ q → p ≡ q
drop_key [] p q e = e
drop_key (x ∷ t) p q e = drop_key t p q (ground (arith, e))

shape :
    (h : ℕ) (r : Bytes)
    → height_prefix h ++ r ≡ (tx_height_key ++ 47 ∷ []) ++ (decimal h ++ 47 ∷ (decimal h ++ r))
unfolding height_prefix
shape h r = ap (λ x. (tx_height_key ++ 47 ∷ []) ++ x) (append_assoc (decimal h) (47 ∷ decimal h) r)

-- A key of another height is not in the range: no height begins with the text of another and a slash.
pub entry_key-out :
    (h i : ℕ) (rest : Bytes)
    → h < u64_mod
    → i < u64_mod
    → h ≢ i
    → height_range h (entry_key i rest) ≡ false
unfolding height_prefix
entry_key-out h i rest hu iu ne = elim (Bool-cases (height_range h (entry_key i rest))) [
  | inl e ↦
      let (c, more, same) = begins (height_prefix h) 47 126 (entry_key i rest) e in
      let tails : decimal i ++ 47 ∷ (decimal i ++ 47 ∷ rest)
          ≡ decimal h ++ 47 ∷ (decimal h ++ c ∷ more) =
        drop_key (tx_height_key ++ 47 ∷ []) _ _
          (sym (shape i (47 ∷ rest)) ∙ (same ∙ shape h (c ∷ more))) in
      let written =
        before_slash (decimal i) (decimal h) _ _ (decimal-All i) (decimal-All h) tails in
      absurd (ne (sym (decimal-injective i h iu hu written)))
  | inr e ↦ e
]
