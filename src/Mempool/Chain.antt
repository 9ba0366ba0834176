-- ===== src/Mempool/Chain.antt =====
-- The linked list of the mempool as a relation between a database and the transactions in order.
use monomer.Prelude.{
  ℕ, ◌<◌, ◌≡◌, refl, ◌∙◌, false, Option, none, some, List, [], ◌∷◌, ◌++◌, arith, length, All, ok,
}
use mathlib.Core.Path.{fun_ext}
use monomer.Bytes.{Bytes, bytes_eq, bytes_eq_iff, bytes_ne_of_length}
use monomer.Bytes.BigEndian.{u64_mod, uint64, put_uint64, uint64-put_uint64}
use monomer.KvStore.{KvStore, lookup}
use monomer.Mempool.{TxCodec, StorageElem, storage_elem, head_key, tail_key, pool_length_key}

-- The three keys of the pool differ.
pub keys_differ :
    (bytes_eq head_key tail_key ≡ false)
    × (bytes_eq head_key pool_length_key ≡ false)
    × (bytes_eq tail_key head_key ≡ false)
    × (bytes_eq tail_key pool_length_key ≡ false)
    × (bytes_eq pool_length_key head_key ≡ false)
    × (bytes_eq pool_length_key tail_key ≡ false)
unfolding bytes_eq
keys_differ = (refl, refl, refl, refl, refl, refl)

module _ (J : TxCodec) where
  open J use {hash, unmarshal, length-hash}

  abbrev pub first_hash : List Bytes → Option Bytes
  first_hash [] = none
  first_hash (x ∷ xs) = some (hash x)

  abbrev pub last_of : Bytes → List Bytes → Bytes
  last_of x [] = x
  last_of x (y ∷ ys) = last_of y ys

  abbrev pub last_hash : List Bytes → Option Bytes
  last_hash [] = none
  last_hash (x ∷ xs) = some (hash (last_of x xs))

  -- No transaction of the list has the hash of `x`.
  abbrev pub IsFresh : Bytes → List Bytes → Type 0
  IsFresh x = All (λ y. bytes_eq (hash y) (hash x) ≡ false)

  abbrev pub IsDistinct : List Bytes → Type 0
  IsDistinct [] = Unit
  IsDistinct (x ∷ xs) = IsFresh x xs × IsDistinct xs

  -- The value at a key decodes to an element.
  abbrev pub Holds : (Bytes → Option Bytes) → Bytes → StorageElem → Type 0
  Holds m k e = (b : Bytes) × (m k ≡ some b) × (unmarshal b ≡ ok e)

  -- Each transaction stands at its hash, with the hash of the next one.
  abbrev pub Nodes : (Bytes → Option Bytes) → List Bytes → Type 0
  Nodes m [] = Unit
  Nodes m (x ∷ xs) = Holds m (hash x) (storage_elem x (first_hash xs)) × Nodes m xs

  -- The stored length; a pool that was never written to has none.
  abbrev pub HasLength : Option Bytes → ℕ → Type 0
  HasLength none n = n ≡ 0
  HasLength (some b) n = uint64 b ≡ ok n

  -- The database with lookups `m` holds the pool `txs`, its oldest transaction first.
  pub record IsPool (m : Bytes → Option Bytes) (txs : List Bytes) : Type 0 where
    pub head : m head_key ≡ first_hash txs
    pub tail : m tail_key ≡ last_hash txs
    pub len : HasLength (m pool_length_key) (length txs)
    pub nodes : Nodes m txs
    pub distinct : IsDistinct txs
    pub fits : length txs < u64_mod

  -- A length that was just written.
  pub HasLength-put :
      (o : Option Bytes) (x n : ℕ) → o ≡ some (put_uint64 x) → x ≡ n → n < u64_mod → HasLength o n
  HasLength-put none x n e same h = cc
  HasLength-put (some b) x n e same h = ground (arith, uint64-put_uint64 n h)

  -- A hash is longer than every other key of the pool.
  pub hash-ne :
      (k x : Bytes) → length k < 32 → (bytes_eq k (hash x) ≡ false) × (bytes_eq (hash x) k ≡ false)
  hash-ne k x h = ground (
    arith,
    length-hash x,
    bytes_ne_of_length k (hash x),
    bytes_eq_iff k (hash x),
    bytes_eq_iff (hash x) k,
  )

  pub IsFresh-symm :
      (x y : Bytes) → bytes_eq (hash y) (hash x) ≡ false → bytes_eq (hash x) (hash y) ≡ false
  IsFresh-symm x y h =
      ground (arith, bytes_eq_iff (hash x) (hash y), bytes_eq_iff (hash y) (hash x))

  pub Nodes-last :
      (m : Bytes → Option Bytes) (x : Bytes) (xs : List Bytes)
      → Nodes m (x ∷ xs)
      → Holds m (hash (last_of x xs)) (storage_elem (last_of x xs) none)
  Nodes-last m x [] h = h.0
  Nodes-last m x (y ∷ ys) h = Nodes-last m y ys h.1

  -- Nodes that are not written to stay.
  pub Nodes-frame :
      (m m' : Bytes → Option Bytes) (xs : List Bytes)
      → All (λ y. m' (hash y) ≡ m (hash y)) xs
      → Nodes m xs
      → Nodes m' xs
  Nodes-frame m m' [] same h = tt
  Nodes-frame m m' (x ∷ xs) same ((b, at, dec), rest) =
      ((b, same.0 ∙ at, dec), Nodes-frame m m' xs same.1 rest)

  pub last-IsFresh :
      (z x : Bytes) (xs : List Bytes)
      → IsFresh z (x ∷ xs)
      → bytes_eq (hash (last_of x xs)) (hash z) ≡ false
  last-IsFresh z x [] h = h.0
  last-IsFresh z x (y ∷ ys) h = last-IsFresh z y ys h.1

  -- The last node is linked to a new one behind it.
  pub Nodes-snoc :
      (m m' : Bytes → Option Bytes) (z x : Bytes) (xs : List Bytes)
      → ((k : Bytes)
          → length k ≡ 32
          → bytes_eq (hash (last_of x xs)) k ≡ false
          → bytes_eq (hash z) k ≡ false
          → m' k ≡ m k)
      → Holds m' (hash (last_of x xs)) (storage_elem (last_of x xs) (some (hash z)))
      → Holds m' (hash z) (storage_elem z none)
      → IsFresh z (x ∷ xs)
      → IsDistinct (x ∷ xs)
      → Nodes m (x ∷ xs)
      → Nodes m' (x ∷ xs ++ z ∷ [])
  Nodes-snoc m m' z x [] same old new fresh distinct h = (old, (new, tt))
  Nodes-snoc m m' z x (y ∷ ys) same old new fresh distinct ((b, at, dec), rest) =
      let kept =
        same (hash x) (length-hash x) (last-IsFresh x y ys distinct.0) (IsFresh-symm z x fresh.0) in
      ((b, kept ∙ at, dec), Nodes-snoc m m' z y ys same old new fresh.1 distinct.1 rest)

  pub IsDistinct-snoc :
      (z : Bytes) (xs : List Bytes) → IsFresh z xs → IsDistinct xs → IsDistinct (xs ++ z ∷ [])
  IsDistinct-snoc z [] fresh h = (tt, tt)
  IsDistinct-snoc z (x ∷ xs) fresh h =
      (IsFresh-snoc x xs h.0 (IsFresh-symm z x fresh.0), IsDistinct-snoc z xs fresh.1 h.1)
    where
      IsFresh-snoc :
          (x : Bytes) (ys : List Bytes)
          → IsFresh x ys
          → bytes_eq (hash z) (hash x) ≡ false
          → IsFresh x (ys ++ z ∷ [])
      IsFresh-snoc x [] f e = (e, tt)
      IsFresh-snoc x (y ∷ ys) f e = (f.0, IsFresh-snoc x ys f.1 e)

  pub last_hash-snoc : (z : Bytes) (xs : List Bytes) → last_hash (xs ++ z ∷ []) ≡ some (hash z)
  last_hash-snoc z [] = refl
  last_hash-snoc z (x ∷ xs) = go x xs
    where
      go : (x : Bytes) (xs : List Bytes) → some (hash (last_of x (xs ++ z ∷ []))) ≡ some (hash z)
      go x [] = refl
      go x (y ∷ ys) = go y ys

-- The pool that a database holds.
abbrev pub Represents : (S : KvStore) (J : TxCodec) → S.Db → List Bytes → Type 0
Represents S J d = IsPool J (λ k. lookup k (S.entries d))

-- A pool depends on the lookups alone.
pub Represents-ext :
    (S : KvStore) (J : TxCodec) (d : S.Db) (m : Bytes → Option Bytes) (txs : List Bytes)
    → ((k : Bytes) → lookup k (S.entries d) ≡ m k)
    → IsPool J m txs
    → Represents S J d txs
Represents-ext S J d m txs same p = rw (fun_ext same) p
