-- ===== src/Url.antt =====
-- e2e/url/url.go: URLs that have a port, with what they take of Go's net/url, net and strconv.
pub mod Again
use monomer.Prelude.{
  ℕ, ◌%◌, ◌^◌, ltb, leb, ◌==◌, ◌&&◌, Bool, true, false, Option, none, some, List, [], ◌∷◌, ◌++◌,
  Result, ok, err, panic, failure, failing, ◌>>=◌, if◌then◌else◌,
}
use monomer.Bytes.{Bytes}
use monomer.Bytes.Decimal.{decimal, value}

-- `url.URL`: the parts that are read or written, and the rest.
pub record StdUrl : Type 0 where
  pub scheme : Bytes
  pub user : Option Bytes
  pub host : Bytes
  pub others : Bytes

pub record Url : Type 0 where
  pub url : StdUrl
  pub port : ℕ

-- `strings.LastIndexByte(s, ':')`, as what is in front of the colon and what is behind it.
abbrev pub push : ℕ → Option (Bytes × Bytes) → Bytes → Option (Bytes × Bytes)
push b (some (front, back)) bs = some (b ∷ front, back)
push b none bs = if b == 58 then some ([], bs) else none

abbrev pub last_colon : Bytes → Option (Bytes × Bytes)
last_colon [] = none
last_colon (b ∷ bs) = push b (last_colon bs) bs

abbrev pub has_colon : Bytes → Bool
has_colon [] = false
has_colon (b ∷ bs) = if b == 58 then true else has_colon bs

abbrev pub all_digits : Bytes → Bool
all_digits [] = true
all_digits (b ∷ bs) = (leb 48 b && ltb b 58) && all_digits bs

-- What is in front of a "]" at the end.
abbrev pub add_front : ℕ → Option Bytes → Option Bytes
add_front b none = none
add_front b (some bs) = some (b ∷ bs)

abbrev pub before_bracket : Bytes → Option Bytes
before_bracket [] = none
before_bracket (b ∷ []) = if b == 93 then some [] else none
before_bracket (b ∷ c ∷ bs) = add_front b (before_bracket (c ∷ bs))

-- A host without the brackets around it.
abbrev pub or_whole : Bytes → Option Bytes → Bytes
or_whole bs none = bs
or_whole bs (some inner) = inner

unfoldable pub unbracket : Bytes → Bytes
unbracket [] = []
unbracket (b ∷ bs) = if b == 91 then or_whole (b ∷ bs) (before_bracket bs) else b ∷ bs

-- net/url's `splitHostPort`: its port is what follows the last colon, if these are digits only.
abbrev pub at_colon : Bytes → Option (Bytes × Bytes) → Bytes × Bytes
at_colon bs none = (unbracket bs, [])
at_colon bs (some (front, back)) =
    if all_digits back then (unbracket front, back) else (unbracket bs, [])

unfoldable pub split_host_port : Bytes → Bytes × Bytes
split_host_port bs = at_colon bs (last_colon bs)

-- `net.JoinHostPort`
unfoldable pub join_host_port : Bytes → Bytes → Bytes
join_host_port host port =
    if has_colon host then (91 ∷ (host ++ 93 ∷ [])) ++ 58 ∷ port else host ++ 58 ∷ port

-- `strconv.ParseUint(s, 10, 16)`
unfoldable pub parse_uint16 : Bytes → Result ℕ
parse_uint16 [] = err (failure "invalid syntax")
parse_uint16 (b ∷ bs) =
    if all_digits (b ∷ bs)
    then (if ltb (value 0 (b ∷ bs)) (2 ^ 16)
        then ok (value 0 (b ∷ bs))
        else err (failure "value out of range"))
    else err (failure "invalid syntax")

-- `Hostname` and `Port` of net/url.
abbrev pub std_hostname : StdUrl → Bytes
std_hostname u = (split_host_port u.host).0

abbrev pub std_port : StdUrl → Bytes
std_port u = (split_host_port u.host).1

-- `net.LookupPort` for "tcp".
module _ (lookup_port : Bytes → Result ℕ) where
  -- The number of the port and its text.
  unfoldable pub port_of : (scheme port : Bytes) → Result (ℕ × Bytes)
  port_of scheme [] = do
    port_int ← failing "lookup port" (lookup_port scheme)
    ok (port_int % 2 ^ 16, decimal port_int)
  port_of scheme (b ∷ bs) = do
    port_u64 ← failing "parse port string" (parse_uint16 (b ∷ bs))
    ok (port_u64 % 2 ^ 16, b ∷ bs)

  -- `Parse`
  abbrev pub parse_absolute : StdUrl → Result Url
  parse_absolute u = do
    (port, text) ← port_of u.scheme (std_port u)
    ok (record { url = record u { host = join_host_port (std_hostname u) text }; port = port })

  abbrev pub parse_scheme : Bytes → StdUrl → Result Url
  parse_scheme [] u = err (failure "url is not absolute (does not contain scheme)")
  parse_scheme (b ∷ bs) u = parse_absolute u

  unfoldable pub parse : Option StdUrl → Result Url
  parse none = err (failure "url is nil")
  parse (some u) = parse_scheme u.scheme u

  -- `ParseString`, over Go's `url.Parse`.
  unfoldable pub parse_string : (Bytes → Result StdUrl) → Bytes → Result Url
  parse_string std_parse address = std_parse address >>= λ u. parse (some u)

-- `Host`, `Hostname`, `PortU16`, `Port`, `Scheme`
abbrev pub host : Url → Bytes
host u = u.url.host

abbrev pub hostname : Url → Bytes
hostname u = std_hostname u.url

abbrev pub port_u16 : Url → ℕ
port_u16 u = u.port

abbrev pub port_text : Url → Bytes
port_text u = std_port u.url

abbrev pub scheme_of : Url → Bytes
scheme_of u = u.url.scheme
