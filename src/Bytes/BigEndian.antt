-- ===== src/Bytes/BigEndian.antt =====
-- `encoding/binary`'s `BigEndian` at 8 bytes: what is written reads back, and the strings are
-- ordered as their numbers.
use native.Mathlib.Nat.{mul_assoc, pow-suc, le_refl, div-add-mod, mod-lt, one-le-pow}
use mathlib.Core.List.{append-nil}
use monomer.Bytes.Order.{bytes_lt_asymm}
use monomer.Prelude.{
  Bool-cases, length-append, ◌≤◌, ◌==◌, ℕ, zero, suc, ◌+◌, ◌*◌, ◌/◌, ◌%◌, ◌^◌, ◌<◌, ◌≡◌, refl, ap,
  ◌∙◌, ◌⊎◌, inl, inr, true, [], ◌∷◌, ◌++◌, arith, leb, if◌then◌else◌, length, Result, ok, panic,
}
use monomer.Bytes.{ltb, bytes_lt_irrefl, Bytes, bytes_lt}

-- The `n` low bytes of `x`, the most significant first.
be_bytes : ℕ → ℕ → Bytes
be_bytes zero x = []
be_bytes (suc n) x = (x / 256 ^ n) ∷ be_bytes n (x % 256 ^ n)

unfoldable pub be_value : Bytes → ℕ
be_value [] = 0
be_value (b ∷ bs) = b * 256 ^ length bs + be_value bs

abbrev pub u64_mod : ℕ
u64_mod = 2 ^ 64

-- `BigEndian.PutUint64` into 8 bytes, `BigEndian.AppendUint64(nil, x)`, `marshalUint64`.
unfoldable pub put_uint64 : ℕ → Bytes
unfolding be_bytes
put_uint64 x = be_bytes 8 x

unfoldable pub first_bytes : ℕ → Bytes → Bytes
first_bytes zero bs = []
first_bytes (suc n) [] = []
first_bytes (suc n) (b ∷ bs) = b ∷ first_bytes n bs

-- `BigEndian.Uint64`: a string that is too short is an index out of range, later bytes are ignored.
unfoldable pub uint64 : Bytes → Result ℕ
unfolding be_value first_bytes
uint64 bs =
    if leb 8 (length bs) then ok (be_value (first_bytes 8 bs)) else panic "index out of range"

length-be_bytes : (n x : ℕ) → length (be_bytes n x) ≡ n
unfolding be_bytes
length-be_bytes zero x = refl
length-be_bytes (suc n) x = ap suc (length-be_bytes n (x % 256 ^ n))

pow_pos : (n : ℕ) → 0 < 256 ^ n
pow_pos n = one-le-pow n 256 (omega arith)

mod_small : (n x : ℕ) → x % 256 ^ n < 256 ^ n
mod_small n x = mod-lt x (pow_pos n)

be_value-be_bytes : (n x : ℕ) → x < 256 ^ n → be_value (be_bytes n x) ≡ x
unfolding be_bytes be_value
be_value-be_bytes zero x h = omega arith
be_value-be_bytes (suc n) x h =
    rw (length-be_bytes n (x % 256 ^ n), be_value-be_bytes n (x % 256 ^ n) (mod_small n x))
      (grind (arith, div-add-mod x (256 ^ n)))

first_bytes-all : (n : ℕ) (bs : Bytes) → length bs ≡ n → first_bytes n bs ≡ bs
unfolding first_bytes
first_bytes-all zero [] h = refl
first_bytes-all zero (b ∷ bs) h = absurd (omega arith)
first_bytes-all (suc n) [] h = refl
first_bytes-all (suc n) (b ∷ bs) h = ap (λ r. b ∷ r) (first_bytes-all n bs (omega arith))

pub length-put_uint64 : (x : ℕ) → length (put_uint64 x) ≡ 8
unfolding put_uint64
length-put_uint64 x = length-be_bytes 8 x

uint64-be_value : (bs : Bytes) → length bs ≡ 8 → uint64 bs ≡ ok (be_value bs)
unfolding uint64
uint64-be_value bs h = rw (h, first_bytes-all 8 bs h)

-- Every 64-bit number reads back.
pub uint64-put_uint64 : (x : ℕ) → x < u64_mod → uint64 (put_uint64 x) ≡ ok x
uint64-put_uint64 x h =
    uint64-be_value (put_uint64 x) (length-put_uint64 x)
    ∙ ap ok (unfold put_uint64 in be_value-be_bytes 8 x (omega arith))

pub put_uint64-injective :
    (x y : ℕ) → x < u64_mod → y < u64_mod → put_uint64 x ≡ put_uint64 y → x ≡ y
put_uint64-injective x y hx hy e = ground (arith, uint64-put_uint64 x hx, uint64-put_uint64 y hy)

-- One step of the order: the leading digits, and then the rest.
digits_lt : (p x y : ℕ) → 0 < p → x < y → (x / p < y / p) ⊎ ((x / p ≡ y / p) × (x % p < y % p))
digits_lt p x y h lt = grind (arith, div-add-mod x p, div-add-mod y p, mod-lt x h, mod-lt y h)

bytes_lt-be_bytes :
    (n x y : ℕ) (s t : Bytes)
    → x < y
    → y < 256 ^ n
    → bytes_lt (be_bytes n x ++ s) (be_bytes n y ++ t) ≡ true
unfolding be_bytes bytes_lt
bytes_lt-be_bytes zero x y s t lt h = absurd (omega arith)
bytes_lt-be_bytes (suc n) x y s t lt h = elim (digits_lt (256 ^ n) x y (pow_pos n) lt) [
  | inl d ↦ ground arith
  | inr (e, d) ↦
      ground (arith, bytes_lt-be_bytes n (x % 256 ^ n) (y % 256 ^ n) s t d (mod_small n y))
]

-- The strings of two numbers are ordered as the numbers, whatever follows them.
pub bytes_lt-put_uint64 :
    (x y : ℕ) (s t : Bytes)
    → x < y
    → y < u64_mod
    → bytes_lt (put_uint64 x ++ s) (put_uint64 y ++ t) ≡ true
unfolding put_uint64
bytes_lt-put_uint64 x y s t lt h = bytes_lt-be_bytes 8 x y s t lt (omega arith)

-- The order of two numbers is the order of their strings.
pub bytes_lt-put_uint64_eq :
    (x y : ℕ) → x < u64_mod → y < u64_mod → bytes_lt (put_uint64 x) (put_uint64 y) ≡ ltb x y
bytes_lt-put_uint64_eq x y hx hy = elim (trichotomy x y) [
  | inl lt ↦ below x y lt hy ∙ ground arith
  | inr (inl e) ↦ rw e (bytes_lt_irrefl (put_uint64 y) ∙ ground arith)
  | inr (inr gt) ↦ bytes_lt_asymm (put_uint64 y) (put_uint64 x) (below y x gt hx) ∙ ground arith
]
  where
    trichotomy : (x y : ℕ) → (x < y) ⊎ ((x ≡ y) ⊎ (y < x))
    trichotomy x y = ground arith

    below : (x y : ℕ) → x < y → y < u64_mod → bytes_lt (put_uint64 x) (put_uint64 y) ≡ true
    below x y lt h =
        rw (append-nil (put_uint64 x), append-nil (put_uint64 y)) at
          (bytes_lt-put_uint64 x y [] [] lt h)

-- `big.Int.Bytes`: the digits of a number with no zero in front.
big_digits : ℕ → ℕ → Bytes
big_digits zero x = []
big_digits (suc fuel) x =
    let rest = big_digits fuel (x / 256) in if x == 0 then [] else rest ++ (x % 256) ∷ []

unfoldable pub big_bytes : ℕ → Bytes
unfolding big_digits
big_bytes x = big_digits x x

be_value-snoc : (bs : Bytes) (b : ℕ) → be_value (bs ++ b ∷ []) ≡ be_value bs * 256 + b
unfolding be_value
be_value-snoc [] b = omega arith
be_value-snoc (c ∷ bs) b =
    let longer : length (bs ++ b ∷ []) ≡ suc (length bs) =
      length-append bs (b ∷ []) ∙ omega arith in
    rw (be_value-snoc bs b, longer, pow-suc) (grind (arith, mul_assoc c (256 ^ length bs) 256))

be_value-big_digits : (fuel x : ℕ) → x ≤ fuel → be_value (big_digits fuel x) ≡ x
unfolding big_digits be_value
be_value-big_digits zero x h = omega arith
be_value-big_digits (suc fuel) x h = elim (Bool-cases (x == 0)) [
  | inl e ↦ rw e (ground arith)
  | inr e ↦ rw (e, be_value-snoc, be_value-big_digits fuel (x / 256) (ground arith)) (omega arith)
]

-- The fuel is enough: every digit is there.
pub be_value-big_bytes : (x : ℕ) → be_value (big_bytes x) ≡ x
unfolding big_bytes
be_value-big_bytes x = be_value-big_digits x x (le_refl x)
