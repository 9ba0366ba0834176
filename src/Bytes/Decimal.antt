-- ===== src/Bytes/Decimal.antt =====
-- How `fmt.Sprintf` writes a `uint64` with `%d`.
use monomer.Prelude.{
  ℕ, zero, suc, ◌+◌, ◌-◌, ◌*◌, ◌/◌, ◌%◌, ◌≤◌, ◌<◌, ◌≡◌, refl, ap, sym, ◌∙◌, Bool-cases, inl, inr,
  ltb, [], ◌∷◌, ◌++◌, arith, All, All-append, if◌then◌else◌,
}
use monomer.Bytes.{Bytes}
use monomer.Bytes.BigEndian.{u64_mod}

-- At most `n` digits, the first one first.
unfoldable pub digits : ℕ → ℕ → Bytes
digits zero x = []
digits (suc n) x =
    let rest = digits n (x / 10) in if ltb x 10 then (48 + x) ∷ [] else rest ++ (48 + x % 10) ∷ []

-- A `uint64` has at most 20 digits.
unfoldable pub decimal : ℕ → Bytes
decimal x = digits 20 x

-- What digits say, on top of those in front of them.
unfoldable pub value : ℕ → Bytes → ℕ
value acc [] = acc
value acc (b ∷ bs) = value (acc * 10 + (b - 48)) bs

value-append : (acc : ℕ) (xs ys : Bytes) → value acc (xs ++ ys) ≡ value (value acc xs) ys
unfolding value
value-append acc [] ys = refl
value-append acc (x ∷ xs) ys = value-append (acc * 10 + (x - 48)) xs ys

abbrev limit : ℕ → ℕ
limit zero = 1
limit (suc n) = limit n * 10

value-digits : (n x : ℕ) → x < limit n → 0 < n → value 0 (digits n x) ≡ x
unfolding digits value
value-digits zero x h k = absurd (omega (arith, k))
value-digits (suc zero) x h k = elim (Bool-cases (ltb x 10)) [
  | inl e ↦ rw e (omega arith)
  | inr e ↦ absurd (ground (arith, h, e))
]
value-digits (suc (suc n)) x h k = elim (Bool-cases (ltb x 10)) [
  | inl e ↦ rw e (omega arith)
  | inr e ↦
      let front = value-digits (suc n) (x / 10) (omega (arith, h)) (omega arith) in
      rw e (
        value-append 0 (digits (suc n) (x / 10)) ((48 + x % 10) ∷ [])
        ∙ (ap (λ v. value v ((48 + x % 10) ∷ [])) front ∙ omega arith))
]

-- A number of 64 bits is read back from its digits.
pub value-decimal : (x : ℕ) → x < u64_mod → value 0 (decimal x) ≡ x
unfolding decimal
value-decimal x h = value-digits 20 x (omega (arith, h)) (omega arith)

-- Two numbers of 64 bits are written differently.
pub decimal-injective : (x y : ℕ) → x < u64_mod → y < u64_mod → decimal x ≡ decimal y → x ≡ y
decimal-injective x y h k e = sym (value-decimal x h) ∙ (ap (value 0) e ∙ value-decimal y k)

abbrev pub IsDigit : ℕ → Type 0
IsDigit b = (48 ≤ b) × (b < 58)

digits-All : (n x : ℕ) → All IsDigit (digits n x)
unfolding digits
digits-All zero x = tt
digits-All (suc n) x = elim (Bool-cases (ltb x 10)) [
  | inl e ↦ rw e (ground (arith, e))
  | inr e ↦ rw e (
      All-append IsDigit (digits n (x / 10)) ((48 + x % 10) ∷ []) (digits-All n (x / 10))
        ((omega arith, omega arith), tt))
]

pub decimal-All : (x : ℕ) → All IsDigit (decimal x)
unfolding decimal
decimal-All x = digits-All 20 x

-- A slash ends the digits in front of it.
pub before_slash :
    (xs ys : Bytes) (p q : Bytes)
    → All IsDigit xs
    → All IsDigit ys
    → xs ++ 47 ∷ p ≡ ys ++ 47 ∷ q
    → xs ≡ ys
before_slash [] [] p q h k e = refl
before_slash [] (y ∷ ys) p q h k e = absurd (ground (arith, k.0.0, e))
before_slash (x ∷ xs) [] p q h k e = absurd (ground (arith, h.0.0, e))
before_slash (x ∷ xs) (y ∷ ys) p q h k e = ground (arith, e, before_slash xs ys p q h.1 k.1)

-- There is a digit at least.
pub decimal-cons : (x : ℕ) → (b : ℕ) × (bs : Bytes) × (decimal x ≡ b ∷ bs)
unfolding decimal digits
decimal-cons x = elim (Bool-cases (ltb x 10)) [
  | inl e ↦ (48 + x, [], rw e refl)
  | inr e ↦ rw e (snoc-cons (digits 19 (x / 10)) (48 + x % 10))
]
  where
    snoc-cons : (xs : Bytes) (c : ℕ) → (b : ℕ) × (bs : Bytes) × (xs ++ c ∷ [] ≡ b ∷ bs)
    snoc-cons [] c = (c, [], refl)
    snoc-cons (x ∷ xs) c = (x, xs ++ c ∷ [], refl)
