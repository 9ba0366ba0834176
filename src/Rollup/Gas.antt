-- ===== src/Rollup/Gas.antt =====
-- x/rollup/tx/l1_data.go and x/rollup/tx/internal/gas.go: the gas that pays for the data of a transaction
-- on L1.
use monomer.Prelude.{
  ◌⊎◌, ℕ, ◌+◌, ◌*◌, ◌/◌, ◌≤◌, ◌<◌, ◌≡◌, refl, ltb, ◌==◌, Bool-cases, inl, inr, [], ◌∷◌, arith,
  length, failure, Result, ok, err, ◌>>=◌, if◌then◌else◌,
}
use monomer.Bytes.{Bytes}
use monomer.Bytes.BigEndian.{be_value, u64_mod}
use monomer.Adapters.{L1BlockInfo}

abbrev pub signature_cost : ℕ
signature_cost = 1088

-- The loop of `getL1GasUsed` over the bytes, from what is counted so far.
unfoldable pub add_byte_costs : ℕ → Bytes → ℕ
add_byte_costs used [] = used
add_byte_costs used (b ∷ bs) = add_byte_costs (used + (if b == 0 then 4 else 16)) bs

-- `getL1GasUsed` on the RLP encoding of the transaction
unfoldable pub l1_gas_used : Bytes → ℕ
l1_gas_used bz = add_byte_costs signature_cost bz

-- The price of a unit of gas, times 16e6.
unfoldable pub scaled_fee : L1BlockInfo → ℕ
scaled_fee i =
    be_value i.base_fee * i.base_fee_scalar * 16 + be_value i.blob_base_fee * i.blob_base_fee_scalar

abbrev pub divisor : ℕ
divisor = 16000000

-- The cost that `L1DataAnteHandler` computes, which has to fit 64 bits.
unfoldable pub l1_data_cost : L1BlockInfo → Bytes → Result ℕ
l1_data_cost i bz =
    let cost = l1_gas_used bz * scaled_fee i / divisor in
    if ltb cost u64_mod then ok cost else err (failure "l1 data cost overflow")

-- `freeInfiniteGasMeter`, and the meters of the Cosmos SDK.
pub data GasMeter (Meter : Type 0) : Type 0 where
  free : GasMeter Meter
  metered : Meter → GasMeter Meter

-- `ConsumeGas`
unfoldable pub consume_gas :
    {Meter : Type 0} → (ℕ → Meter → Result Meter) → ℕ → GasMeter Meter → Result (GasMeter Meter)
consume_gas consume n free = ok free
consume_gas consume n (metered m) = do m ← consume n m; ok (metered m)

-- How many bytes are zero, and how many are not.
abbrev pub zeroes : Bytes → ℕ
zeroes [] = 0
zeroes (b ∷ bs) = (if b == 0 then 1 else 0) + zeroes bs

abbrev pub others : Bytes → ℕ
others [] = 0
others (b ∷ bs) = (if b == 0 then 0 else 1) + others bs

add_byte_costs-lem :
    (used : ℕ) (bz : Bytes) → add_byte_costs used bz ≡ used + (4 * zeroes bz + 16 * others bz)
unfolding add_byte_costs
add_byte_costs-lem used [] = omega arith
add_byte_costs-lem used (b ∷ bs) =
    ground (arith, add_byte_costs-lem (used + (if b == 0 then 4 else 16)) bs)

-- The gas of a transaction is the cost of the signature, 4 for each zero byte and 16 for each other one;
-- so it is at least 4 and at most 16 for each byte on top of the signature.
pub l1_gas_used-lem :
    (bz : Bytes)
    → (l1_gas_used bz ≡ 1088 + (4 * zeroes bz + 16 * others bz))
      × (1088 + 4 * length bz ≤ l1_gas_used bz)
      × (l1_gas_used bz ≤ 1088 + 16 * length bz)
unfolding l1_gas_used
l1_gas_used-lem bz = (
  add_byte_costs-lem signature_cost bz,
  omega (arith, add_byte_costs-lem signature_cost bz, parts bz),
  omega (arith, add_byte_costs-lem signature_cost bz, parts bz),
)
  where
    parts : (bz : Bytes) → zeroes bz + others bz ≡ length bz
    parts [] = refl
    parts (b ∷ bs) = ground (arith, parts bs)

-- A cost that is charged is the price of the gas divided by 16e6, rounded down, and fits 64 bits; and the
-- call fails only where the price is 2^64 * 16e6 or more.
pub l1_data_cost-floor :
    (i : L1BlockInfo) (bz : Bytes)
    → ((cost : ℕ) × (l1_data_cost i bz ≡ ok cost)
        × (cost * 16000000 ≤ l1_gas_used bz * scaled_fee i)
        × (l1_gas_used bz * scaled_fee i < cost * 16000000 + 16000000)
        × (cost < u64_mod))
      ⊎ ((l1_data_cost i bz ≡ err (failure "l1 data cost overflow"))
          × (u64_mod * 16000000 ≤ l1_gas_used bz * scaled_fee i))
unfolding l1_data_cost
l1_data_cost-floor i bz = go (l1_gas_used bz * scaled_fee i)
  where
    go :
        (x : ℕ)
        → ((cost : ℕ) × ((if ltb (x / divisor) u64_mod
                then ok (x / divisor)
                else err (failure "l1 data cost overflow"))
              ≡ ok cost)
            × (cost * 16000000 ≤ x)
            × (x < cost * 16000000 + 16000000)
            × (cost < u64_mod))
          ⊎ (((if ltb (x / divisor) u64_mod
                  then ok (x / divisor)
                  else err (failure "l1 data cost overflow"))
                ≡ err (failure "l1 data cost overflow"))
              × (u64_mod * 16000000 ≤ x))
    go x = elim (Bool-cases (ltb (x / divisor) u64_mod)) [
      | inl e ↦ inl (x / divisor, rw e refl, omega arith, omega arith, ground (arith, e))
      | inr e ↦ inr (rw e refl, ground (arith, e))
    ]
