-- ===== src/Tests/Ledger.antt =====
-- A bank that keeps its books, and a store of the module, in memory.
use monomer.Prelude.{
  same_text_refl, ok_injective, ◌>>=◌, ◌||◌, ℕ, zero, suc, ◌+◌, ◌-◌, ◌≤◌, ◌≡◌, refl, ap, sym, ◌∙◌,
  ◌==◌, ==_iff, ltb, Bool, true, false, ◌&&◌, none, some, String, List, [], ◌∷◌, arith, failure,
  Result, ok, err, panic, if◌then◌else◌, same_text, eq_of_same_text, pos, negsuc,
}
use Prim.Native.Char.{code}
use monomer.Prelude.Stateful.{Step}
use monomer.Bytes.{Bytes, bytes_eq, eq_of_bytes_eq}
use monomer.Adapters.{L1BlockInfo}
use monomer.Rollup.Messages.{Params, BigInt, default_params}
use monomer.Rollup.Sdk.{Sdk, IsLedger, IsStore, Coins, part, coins_of}

pub record Ledger : Type 0 where
  pub balances : Bytes → String → ℕ
  pub supplies : String → ℕ

abbrev pub account_of : String → Bytes
account_of m = if same_text m "rollup" then 1 ∷ [] else 2 ∷ []

abbrev has : Bytes → Coins → Ledger → Bool
has a c b = ltb (b.balances a c.denom) c.amount

unfoldable pub mint : String → Coins → Step Ledger (Unit {0})
mint m c b = (
  ok tt,
  record {
    balances = λ a d. b.balances a d + part (account_of m) c a d;
    supplies = λ d. b.supplies d + coins_of c d;
  },
)

abbrev pub burnt : String → Coins → Ledger → Ledger
burnt m c b = record {
  balances = λ a d. b.balances a d - part (account_of m) c a d;
  supplies = λ d. b.supplies d - coins_of c d;
}

abbrev pub moved : Bytes → Bytes → Coins → Ledger → Ledger
moved from to c b = record {
  balances = λ a d. b.balances a d - part from c a d + part to c a d;
  supplies = b.supplies;
}

abbrev pub unless : Bool → Ledger → Ledger → Result (Unit {0}) × Ledger
unless p x y = if p then (err (failure "insufficient funds"), x) else (ok tt, y)

unfoldable pub burn : String → Coins → Step Ledger (Unit {0})
burn m c b =
    unless (ltb (b.balances (account_of m) c.denom) c.amount || ltb (b.supplies c.denom) c.amount) b
      (burnt m c b)

unfoldable pub move : Bytes → Bytes → Coins → Step Ledger (Unit {0})
move from to c b = unless (ltb (b.balances from c.denom) c.amount) b (moved from to c b)

guard-ok :
    (p : Bool) (x y : Ledger) → (unless p x y).0 ≡ ok tt → (p ≡ false) × ((unless p x y).1 ≡ y)
guard-ok true x y h = cc
guard-ok false x y h = (refl, refl)

covered :
    (a x : Bytes) (d : String) (c : Coins) (f : Bytes → String → ℕ)
    → ltb (f x c.denom) c.amount ≡ false
    → part x c a d ≤ f a d
covered a x d c f h = go (bytes_eq x a) (same_text c.denom d) refl refl
  where
    go :
        (p q : Bool)
        → bytes_eq x a ≡ p
        → same_text c.denom d ≡ q
        → (if p && q then c.amount else 0) ≤ f a d
    go true true e k =
        let same =
          ap (λ y. f y c.denom) (eq_of_bytes_eq x a e) ∙ ap (f a) (eq_of_same_text c.denom d k) in
        ground (arith, h, same)
    go true false e k = ground arith
    go false q e k = ground arith

covered_supply :
    (d : String) (c : Coins) (f : String → ℕ)
    → ltb (f c.denom) c.amount ≡ false
    → coins_of c d ≤ f d
covered_supply d c f h = go (same_text c.denom d) refl
  where
    go : (q : Bool) → same_text c.denom d ≡ q → (if q then c.amount else 0) ≤ f d
    go true k = let same = ap f (eq_of_same_text c.denom d k) in ground (arith, h, same)
    go false k = ground arith

move-lem :
    (from to : Bytes) (c : Coins) (b : Ledger)
    → (move from to c b).0 ≡ ok tt
    → ((a : Bytes) (d : String)
        → (move from to c b).1.balances a d + part from c a d ≡ b.balances a d + part to c a d)
      × ((d : String) → (move from to c b).1.supplies d ≡ b.supplies d)
unfolding move
move-lem from to c b h =
    let (enough, same) = guard-ok _ b (moved from to c b) h in
    (
      λ a d.
          omega
            (arith, ap (λ (r : Ledger). r.balances a d) same, covered a from d c b.balances enough),
      λ d. ap (λ (r : Ledger). r.supplies d) same,
    )

burn-lem :
    (m : String) (c : Coins) (b : Ledger)
    → (burn m c b).0 ≡ ok tt
    → ((a : Bytes) (d : String)
        → (burn m c b).1.balances a d + part (account_of m) c a d ≡ b.balances a d)
      × ((d : String) → (burn m c b).1.supplies d + coins_of c d ≡ b.supplies d)
unfolding burn
burn-lem m c b h =
    let (enough, same) = guard-ok _ b (burnt m c b) h in
    let (held, there) =
      neither (ltb (b.balances (account_of m) c.denom) c.amount) (ltb (b.supplies c.denom) c.amount)
        enough in
    (
      λ a d. omega (
        arith,
        ap (λ (r : Ledger). r.balances a d) same,
        covered a (account_of m) d c b.balances held,
      ),
      λ d.
          omega
            (arith, ap (λ (r : Ledger). r.supplies d) same, covered_supply d c b.supplies there),
    )
  where
    neither : (p q : Bool) → (p || q) ≡ false → (p ≡ false) × (q ≡ false)
    neither true q h = cc
    neither false q h = (refl, h)

abbrev pub coins_from_int : String → BigInt → Result Coins
coins_from_int d none = panic "amount is nil"
coins_from_int d (some (pos n)) = ok (record { denom = d; amount = n })
coins_from_int d (some (negsuc n)) = panic "negative coin amount"

abbrev pub is_default : Params → Bool
is_default p =
    same_text p.l1_fee_recipient default_params.l1_fee_recipient
    && (same_text p.l1_cross_domain_messenger default_params.l1_cross_domain_messenger
        && (same_text p.l1_standard_bridge default_params.l1_standard_bridge
            && ((p.min_fee_withdrawal_amount == 400000) && (p.fee_withdrawal_gas_limit == 400000))))

abbrev pub zero_info : L1BlockInfo
zero_info = record {
  number = 0;
  time = 0;
  base_fee = [];
  block_hash = [];
  sequence_number = 0;
  batcher_addr = [];
  l1_fee_overhead = [];
  l1_fee_scalar = [];
  base_fee_scalar = 0;
  blob_base_fee_scalar = 0;
  blob_base_fee = [];
}

abbrev pub Stored : Type 0
Stored = List (String × Bytes)

unfoldable pub read : String → Stored → Bytes
read k [] = []
read k ((j, v) ∷ t) = if same_text j k then v else read k t

-- Accounts are written as texts of their own: "alice", "bob", and "messenger" for the aliased one.
abbrev pub account_of_text : String → Result Bytes
account_of_text t =
    if same_text t "alice"
    then ok (10 ∷ [])
    else if same_text t "bob"
    then ok (11 ∷ [])
    else if same_text t "messenger"
    then ok (21 ∷ [])
    else err (failure "decoding bech32 failed")

abbrev pub text_of_account : Bytes → Result String
text_of_account a =
    if bytes_eq a (10 ∷ [])
    then ok "alice"
    else if bytes_eq a (11 ∷ [])
    then ok "bob"
    else if bytes_eq a (21 ∷ [])
    then ok "messenger"
    else err (failure "unknown account")

-- The four numbers that the runs need.
abbrev pub small_text : Bool → Bool → Bool → Bool → Result String
small_text a b c d =
    if a
    then ok "0x1"
    else if b
    then ok "0x0"
    else if c
    then ok "0x61a80"
    else if d
    then ok "0x7a120"
    else err (failure "not needed")

abbrev pub encode_small : BigInt → Result String
encode_small (some (pos n)) = small_text (n == 1) (n == 0) (n == 400000) (n == 500000)
encode_small _ = err (failure "not needed")

abbrev pub decode_small : String → Result ℕ
decode_small t =
    if same_text t "0x1"
    then ok 1
    else if same_text t "0x0"
    then ok 0
    else if same_text t "0x61a80"
    then ok 400000
    else ok 500000

pub decode-encode_small :
    (n : ℕ) (t : String) → encode_small (some (pos n)) ≡ ok t → decode_small t ≡ ok n
decode-encode_small n t = go (n == 1) (n == 0) (n == 400000) (n == 500000) refl refl refl refl
  where
    go :
        (a b c d : Bool)
        → (n == 1) ≡ a
        → (n == 0) ≡ b
        → (n == 400000) ≡ c
        → (n == 500000) ≡ d
        → small_text a b c d ≡ ok t
        → decode_small t ≡ ok n
    go true b c d e f g k h =
        ap decode_small (sym (ok_injective "0x1" t h)) ∙ ap ok (sym ((==_iff n 1).0 e))
    go false true c d e f g k h =
        ap decode_small (sym (ok_injective "0x0" t h)) ∙ ap ok (sym ((==_iff n 0).0 f))
    go false false true d e f g k h =
        ap decode_small (sym (ok_injective "0x61a80" t h)) ∙ ap ok (sym ((==_iff n 400000).0 g))
    go false false false true e f g k h =
        ap decode_small (sym (ok_injective "0x7a120" t h)) ∙ ap ok (sym ((==_iff n 500000).0 k))
    go false false false false e f g k h = cc

-- A byte in unary: as many times `a`, and then `b`.
unfoldable pub tallied : ℕ → String → String
tallied zero t = String.◌∷◌ "b" t
tallied (suc n) t = String.◌∷◌ "a" (tallied n t)

unfoldable pub encode_hex : Bytes → String
unfolding tallied
encode_hex [] = ""
encode_hex (x ∷ xs) = tallied x (encode_hex xs)

unfoldable pub tally : ℕ → String → Result Bytes
tally n String.[] = ok []
tally n (String.◌∷◌ c t) =
    let here = tally 0 t in
    let on = tally (suc n) t in if code c == 97 then on else (do rest ← here; ok (n ∷ rest))

tally-tallied :
    (x n : ℕ) (t : String) (rest : Bytes)
    → tally 0 t ≡ ok rest
    → tally n (tallied x t) ≡ ok ((n + x) ∷ rest)
unfolding tally tallied
tally-tallied zero n t rest h = rw h (ap (λ m. ok (m ∷ rest)) (omega arith))
tally-tallied (suc x) n t rest h =
    tally-tallied x (suc n) t rest h ∙ ap (λ m. ok (m ∷ rest)) (omega arith)

pub tally-encode_hex : (b : Bytes) → tally 0 (encode_hex b) ≡ ok b
unfolding tally encode_hex
tally-encode_hex [] = refl
tally-encode_hex (x ∷ xs) =
    tally-tallied x 0 (encode_hex xs) xs (tally-encode_hex xs) ∙ ap (λ m. ok (m ∷ xs)) (omega arith)

abbrev pub sdk : Sdk
sdk = record {
  Store = Stored;
  Bank = Ledger;
  get = λ k t. ok (read k t);
  set = λ k v t. (ok tt, (k, v) ∷ t);
  new_coins = coins_from_int;
  mint_coins = mint;
  burn_coins = burn;
  module_to_account = λ m to c. move (account_of m) to c;
  account_to_module = λ from m c. move from (account_of m) c;
  module_to_module = λ m n c. move (account_of m) (account_of n) c;
  balance = λ a d b. b.balances a d;
  supply = λ d b. b.supplies d;
  module_address = λ m. some (account_of m);
  account_from_bech32 = account_of_text;
  bech32_encode = text_of_account;
  address_string = λ a. "authority";
  hex_to_address = λ t. 20 ∷ [];
  is_hex_address = λ t. true;
  checksum_hex = λ a. "0xAb";
  apply_l1_to_l2_alias = λ a. 21 ∷ [];
  encode_big = encode_small;
  encode_hex = encode_hex;
  marshal_info = λ i. err (failure "not needed");
  unmarshal_info = λ b. ok zero_info;
  marshal_params = λ p. if is_default p then ok (1 ∷ []) else err (failure "not needed");
  unmarshal_params = λ b. ok default_params;
}

coins_from_int-lem :
    (d : String) (i : BigInt) (c : Coins)
    → coins_from_int d i ≡ ok c
    → (c.denom ≡ d) × (i ≡ some (pos c.amount))
coins_from_int-lem d none c h = cc
coins_from_int-lem d (some (pos n)) c h =
    let e = ok_injective _ c h in
    (ap (λ (x : Coins). x.denom) (sym e), ap (λ (x : Coins). some (pos x.amount)) e)
coins_from_int-lem d (some (negsuc n)) c h = cc

pub sdk-IsLedger : IsLedger sdk
unfolding mint
sdk-IsLedger = record {
  module_account = account_of;
  new_coins_amount = coins_from_int-lem;
  mints = λ m c b h. (λ a d. refl, λ d. refl);
  burns = burn-lem;
  pays = λ m to c b h. move-lem (account_of m) to c b h;
  collects = λ from m c b h. move-lem from (account_of m) c b h;
  moves = λ m n c b h. move-lem (account_of m) (account_of n) c b h;
  module_address_account = λ m a h. some_injective _ a h;
}
  where
    some_injective : (x a : Bytes) → some x ≡ some a → x ≡ a
    some_injective x a h = cc

default_of : (p : Params) → is_default p ≡ true → p ≡ default_params
default_of p h =
    let (a, h) = both _ _ h in
    let (b, h) = both _ _ h in
    let (c, h) = both _ _ h in
    let (d, e) = both _ _ h in
    λ i. record {
      l1_fee_recipient = eq_of_same_text p.l1_fee_recipient default_params.l1_fee_recipient a i;
      l1_cross_domain_messenger =
          eq_of_same_text p.l1_cross_domain_messenger default_params.l1_cross_domain_messenger b i;
      l1_standard_bridge =
          eq_of_same_text p.l1_standard_bridge default_params.l1_standard_bridge c i;
      min_fee_withdrawal_amount = (==_iff p.min_fee_withdrawal_amount 400000).0 d i;
      fee_withdrawal_gas_limit = (==_iff p.fee_withdrawal_gas_limit 400000).0 e i;
    }
  where
    both : (x y : Bool) → (x && y) ≡ true → (x ≡ true) × (y ≡ true)
    both true y h = (refl, h)
    both false y h = cc

marshal-lem :
    (p : Params) (b : Bytes)
    → (if is_default p then ok (1 ∷ []) else err (failure "not needed")) ≡ ok b
    → ok default_params ≡ ok p
marshal-lem p b h = go (is_default p) refl h
  where
    go :
        (x : Bool)
        → is_default p ≡ x
        → (if x then ok (1 ∷ []) else err (failure "not needed")) ≡ ok b
        → ok default_params ≡ ok p
    go true e h = ap ok (sym (default_of p e))
    go false e h = cc

pub sdk-IsStore : IsStore sdk
unfolding read
sdk-IsStore = record {
  get-set = λ k v s h. rw (same_text_refl k) refl;
  get-set_other = λ k j v s h. rw h refl;
  unmarshal-marshal_info = λ i b h. cc h;
  unmarshal-marshal_params = marshal-lem;
}
