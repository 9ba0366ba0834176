-- ===== src/Prelude/Outcome.antt =====
-- What a Go call that can fail returns, and how its errors are wrapped.
use mathlib.Core.Bool.{Bool, true, false}
use mathlib.Core.Path.{◌≡◌, refl}
use mathlib.Core.Logic.{◌⊎◌, inl, inr}
use monomer.Prelude.Tests.{if◌then◌else◌}
use mathlib.Core.Option.{Option, none, some}
use Prim.Native.String.{String}

-- The codes of go-ethereum's engine API errors.
pub data EngineCode : Type 0 where
  invalid_params invalid_forkchoice_state invalid_payload_attributes generic_server_error :
      EngineCode

-- `not_found` is the sentinel `monomerdb.ErrNotFound`; `failure` is an error that hides its cause
-- (`errors.New`, or `fmt.Errorf` with `%v`); `wrapped` keeps its cause (`%w`);
-- `coded` is an error of the engine API.
pub data Error : Type 0 where
  not_found : Error
  failure : String → Error
  wrapped : String → Error → Error
  coded : EngineCode → String → Error

-- `errors.Is(err, monomerdb.ErrNotFound)`
unfoldable pub is_not_found : Error → Bool
is_not_found not_found = true
is_not_found (failure m) = false
is_not_found (wrapped m e) = is_not_found e
is_not_found (coded c m) = false

pub data Result {ℓ} (A : Type ℓ) : Type ℓ where
  ok : A → Result A
  err : Error → Result A
  panic : String → Result A

infixl 5 ◌>>=◌ ◌>>◌
abbrev pub ◌>>=◌ {ℓ κ} : {A : Type ℓ} {B : Type κ} → Result A → (A → Result B) → Result B
ok a >>= f = f a
err e >>= f = err e
panic m >>= f = panic m

abbrev pub ◌>>◌ {ℓ} : {B : Type ℓ} → Result (Unit {0}) → Result B → Result B
m >> k = m >>= λ _. k

module _ {ℓ} {A : Type ℓ} where
  -- `if err != nil { return fmt.Errorf("m: %v", err) }`
  abbrev pub failing : String → Result A → Result A
  failing m (ok a) = ok a
  failing m (err e) = err (failure m)
  failing m (panic p) = panic p

  -- `if err != nil { return fmt.Errorf("m: %w", err) }`
  abbrev pub wrapping : String → Result A → Result A
  wrapping m (ok a) = ok a
  wrapping m (err e) = err (wrapped m e)
  wrapping m (panic p) = panic p

-- `if err != nil { panic(…) }`
abbrev pub panicking {ℓ} : {A : Type ℓ} → String → Result A → Result A
panicking m (ok a) = ok a
panicking m (err e) = panic m
panicking m (panic p) = panic p

-- The result of a call whose only result is an error.
abbrev pub status : Option Error → Result (Unit {0})
status none = ok tt
status (some e) = err e

-- `utils.WrapCloseErr`, deferred: the error of the body, joined with the error of the close. A
-- `multierror` of one error stands for that error.
unfoldable pub wrap_close_err {ℓ} : {A : Type ℓ} → Result A → Option Error → Result A
wrap_close_err (ok a) none = ok a
wrap_close_err (ok a) (some c) = err (failure "close")
wrap_close_err (err e) none = err e
wrap_close_err (err e) (some c) = err (wrapped "close" e)
wrap_close_err (panic m) closed = panic m

pub Result-cases {ℓ} :
    {A : Type ℓ} {P : Type ℓ} (r : Result A)
    → ((a : A) → r ≡ ok a → P)
    → ((e : Error) → r ≡ err e → P)
    → ((m : String) → r ≡ panic m → P)
    → P
Result-cases (ok a) f g h = f a refl
Result-cases (err e) f g h = g e refl
Result-cases (panic m) f g h = h m refl

-- A close that succeeds changes nothing.
pub wrap_close_err-none {ℓ} : {A : Type ℓ} (r : Result A) → wrap_close_err r none ≡ r
unfolding wrap_close_err
wrap_close_err-none (ok a) = refl
wrap_close_err-none (err e) = refl
wrap_close_err-none (panic m) = refl

-- A chain that succeeds has a first call that does.
pub ok_of_bind {ℓ κ} :
    {A : Type ℓ} {B : Type κ} (r : Result A) (f : A → Result B) (b : B)
    → r >>= f ≡ ok b
    → (a : A) × (r ≡ ok a) × (f a ≡ ok b)
ok_of_bind (ok a) f b h = (a, refl, h)
ok_of_bind (err e) f b h = cc
ok_of_bind (panic m) f b h = cc

pub ok_of_failing {ℓ} :
    {A : Type ℓ} (m : String) (r : Result A) (a : A) → failing m r ≡ ok a → r ≡ ok a
ok_of_failing m (ok x) a h = h
ok_of_failing m (err e) a h = cc
ok_of_failing m (panic p) a h = cc

pub ok_of_wrapping {ℓ} :
    {A : Type ℓ} (m : String) (r : Result A) (a : A) → wrapping m r ≡ ok a → r ≡ ok a
ok_of_wrapping m (ok x) a h = h
ok_of_wrapping m (err e) a h = cc
ok_of_wrapping m (panic p) a h = cc

pub ok_of_panicking {ℓ} :
    {A : Type ℓ} (m : String) (r : Result A) (a : A) → panicking m r ≡ ok a → r ≡ ok a
ok_of_panicking m (ok x) a h = h
ok_of_panicking m (err e) a h = cc
ok_of_panicking m (panic p) a h = cc

-- Which branch of a test succeeded.
pub ok_of_if {ℓ} :
    {A : Type ℓ} (c : Bool) (r s : Result A) (a : A)
    → (if c then r else s) ≡ ok a
    → ((c ≡ true) × (r ≡ ok a)) ⊎ ((c ≡ false) × (s ≡ ok a))
ok_of_if true r s a h = inl (refl, h)
ok_of_if false r s a h = inr (refl, h)

pub some_injective {ℓ} : {A : Type ℓ} (x y : A) → some x ≡ some y → x ≡ y
some_injective x y h = cc

pub ok_injective {ℓ} : {A : Type ℓ} (a b : A) → ok a ≡ ok b → a ≡ b
ok_injective a b h = cc
