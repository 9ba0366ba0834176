-- ===== src/Bytes.antt =====
-- Byte strings, the keys and values of the databases: Go's `[]byte` and its order `bytes.Compare`.
pub mod BigEndian
pub mod Order
pub mod Decimal
use monomer.Prelude.{
  ℕ, ◌+◌, ◌≤◌, ◌<◌, ◌≡◌, refl, ◌↔◌, ◌⊎◌, inl, inr, Bool, true, false, List, [], ◌∷◌, ◌++◌, arith,
  ltb, ◌==◌, if◌then◌else◌, ◌&&◌, ◌||◌, length, Bool-cases, ==_iff,
}

abbrev pub Bytes : Type 0
Bytes = List ℕ

unfoldable pub bytes_eq : Bytes → Bytes → Bool
bytes_eq [] [] = true
bytes_eq (x ∷ xs) (y ∷ ys) = (x == y) && bytes_eq xs ys
bytes_eq _ _ = false

-- The lexicographic order of the keys.
unfoldable pub bytes_lt : Bytes → Bytes → Bool
bytes_lt [] [] = false
bytes_lt [] (y ∷ ys) = true
bytes_lt (x ∷ xs) [] = false
bytes_lt (x ∷ xs) (y ∷ ys) = ltb x y || (x == y) && bytes_lt xs ys

pub bytes_eq_refl : (a : Bytes) → bytes_eq a a ≡ true
unfolding bytes_eq
bytes_eq_refl [] = refl
bytes_eq_refl (x ∷ xs) = ground (arith, bytes_eq_refl xs)

pub eq_of_bytes_eq : (a b : Bytes) → bytes_eq a b ≡ true → a ≡ b
unfolding bytes_eq
eq_of_bytes_eq [] [] h = refl
eq_of_bytes_eq [] (y ∷ ys) h = cc
eq_of_bytes_eq (x ∷ xs) [] h = cc
eq_of_bytes_eq (x ∷ xs) (y ∷ ys) h = ground (arith, eq_of_bytes_eq xs ys)

pub bytes_eq_iff : (a b : Bytes) → (bytes_eq a b ≡ true) ↔ (a ≡ b)
bytes_eq_iff a b = (eq_of_bytes_eq a b, λ e. ground (arith, e, bytes_eq_refl a))

pub bytes_lt_irrefl : (a : Bytes) → bytes_lt a a ≡ false
unfolding bytes_lt
bytes_lt_irrefl [] = refl
bytes_lt_irrefl (x ∷ xs) = ground (arith, bytes_lt_irrefl xs)

-- Strings of different lengths differ.
pub bytes_ne_of_length : (a b : Bytes) → length a < length b → bytes_eq a b ≡ false
bytes_ne_of_length a b h = ground (arith, eq_of_bytes_eq a b)

pub bytes_ne_of_head :
    (x y : ℕ) (xs ys : Bytes) → (x == y) ≡ false → bytes_eq (x ∷ xs) (y ∷ ys) ≡ false
unfolding bytes_eq
bytes_ne_of_head x y xs ys h = rw h
