-- ===== src/Rollup/Abi.antt =====
-- x/rollup/keeper: the inputs of a contract's method, read from the bytes of a call, and the denomination of
-- a bridged token.
use Prim.Native.String.{len, slice, ◌++◌ as append_text}
use monomer.Prelude.{
  ℕ, zero, suc, ltb, String, [], ◌∷◌, ◌++◌, failure, length, Result, ok, err, panic, failing, ◌>>=◌,
  ◌>>◌, if◌then◌else◌,
}
use monomer.Bytes.{Bytes, bytes_eq}
use monomer.Bytes.BigEndian.{first_bytes}
use monomer.Rollup.Sdk.{Slice, Method}

unfoldable pub drop_bytes : ℕ → Bytes → Bytes
drop_bytes zero bs = bs
drop_bytes (suc n) [] = []
drop_bytes (suc n) (b ∷ bs) = drop_bytes n bs

-- `b[:4]` reads on behind the end of the slice, `b[4:]` does not.
unfoldable pub selector : Slice → Result Bytes
selector b =
    if ltb (length (b.used ++ b.spare)) 4
    then panic "slice bounds out of range"
    else ok (first_bytes 4 (b.used ++ b.spare))

unfoldable pub after_selector : Slice → Result Bytes
after_selector b =
    if ltb (length b.used) 4 then panic "slice bounds out of range" else ok (drop_bytes 4 b.used)

-- `getERC20Denom`: the text after the first two characters, which a shorter text does not have.
unfoldable pub get_erc20_denom : String → Result String
get_erc20_denom a =
    if ltb (len a) 2
    then panic "slice bounds out of range"
    else ok (append_text "erc20/" (slice a 2 (len a)))

-- `unpackInputsIntoInterface`
unfoldable pub unpack_inputs_into_interface : {A : Type 0} → Method A → Slice → Result A
unpack_inputs_into_interface m input = do
  id ← selector input
  if bytes_eq id m.id then ok tt else err (failure "unexpected function selector")
  body ← after_selector input
  failing "failed to unpack input data" (m.unpack body)
