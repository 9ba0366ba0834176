-- ===== src/Bytes/Order.antt =====
-- The order of byte strings is a strict total order.
use monomer.Prelude.{◌≡◌, refl, true, false, [], ◌∷◌, ◌++◌, arith}
use monomer.Bytes.{Bytes, bytes_eq, bytes_lt, bytes_lt_irrefl}

pub bytes_lt_trans :
    (a b c : Bytes) → bytes_lt a b ≡ true → bytes_lt b c ≡ true → bytes_lt a c ≡ true
unfolding bytes_lt
bytes_lt_trans [] [] c h k = cc
bytes_lt_trans [] (y ∷ ys) [] h k = cc
bytes_lt_trans [] (y ∷ ys) (z ∷ zs) h k = refl
bytes_lt_trans (x ∷ xs) [] c h k = cc
bytes_lt_trans (x ∷ xs) (y ∷ ys) [] h k = cc
bytes_lt_trans (x ∷ xs) (y ∷ ys) (z ∷ zs) h k = ground (arith, bytes_lt_trans xs ys zs)

pub bytes_lt_asymm : (a b : Bytes) → bytes_lt a b ≡ true → bytes_lt b a ≡ false
bytes_lt_asymm a b h = ground (arith, bytes_lt_trans a b a h, bytes_lt_irrefl a)

pub bytes_lt_total :
    (a b : Bytes) → bytes_eq a b ≡ false → bytes_lt a b ≡ false → bytes_lt b a ≡ true
unfolding bytes_lt bytes_eq
bytes_lt_total [] [] h k = cc
bytes_lt_total [] (y ∷ ys) h k = cc
bytes_lt_total (x ∷ xs) [] h k = refl
bytes_lt_total (x ∷ xs) (y ∷ ys) h k = ground (arith, bytes_lt_total xs ys)

-- A string is not below a part that it begins with.
pub bytes_lt-append : (a b : Bytes) → bytes_lt (a ++ b) a ≡ false
unfolding bytes_lt
bytes_lt-append [] [] = refl
bytes_lt-append [] (y ∷ ys) = refl
bytes_lt-append (x ∷ xs) b = ground (arith, bytes_lt-append xs b)

pub bytes_lt-append_left : (a b c : Bytes) → bytes_lt (a ++ b) (a ++ c) ≡ bytes_lt b c
unfolding bytes_lt
bytes_lt-append_left [] b c = refl
bytes_lt-append_left (x ∷ xs) b c = ground (arith, bytes_lt-append_left xs b c)
