-- ===== src/Tests/Url.antt =====
-- URLs with and without a port.
use monomer.Prelude.{
  ℕ, ◌≡◌, ◌<◌, true, ◌^◌, refl, none, some, [], ◌∷◌, arith, Result, ok, err, failure, ok_injective,
}
use monomer.Bytes.{Bytes}
use monomer.Bytes.Decimal.{decimal, digits, value}
use monomer.Url.Again.{parse-again}
use monomer.Url.{
  all_digits, StdUrl, Url, std_hostname, hostname, port_text, port_u16, parse, port_of, unbracket,
  split_host_port, join_host_port, parse_uint16,
}

abbrev lookup_port : Bytes → Result ℕ
lookup_port scheme = ok 80

lookup_port-small : (scheme : Bytes) (n : ℕ) → lookup_port scheme ≡ ok n → n < 2 ^ 16
lookup_port-small scheme n e = omega (arith, ok_injective 80 n e)

-- "http", "10.0.0.1", "[::1]", "[::1]:80" and "10.0.0.1:99999".
abbrev http : Bytes
http = 104 ∷ 116 ∷ 116 ∷ 112 ∷ []

abbrev v4 : Bytes
v4 = 49 ∷ 48 ∷ 46 ∷ 48 ∷ 46 ∷ 48 ∷ 46 ∷ 49 ∷ []

abbrev v6 : Bytes
v6 = 91 ∷ 58 ∷ 58 ∷ 49 ∷ 93 ∷ []

abbrev v6_80 : Bytes
v6_80 = 91 ∷ 58 ∷ 58 ∷ 49 ∷ 93 ∷ 58 ∷ 56 ∷ 48 ∷ []

abbrev v4_too_far : Bytes
v4_too_far = 49 ∷ 48 ∷ 46 ∷ 48 ∷ 46 ∷ 48 ∷ 46 ∷ 49 ∷ 58 ∷ 57 ∷ 57 ∷ 57 ∷ 57 ∷ 57 ∷ []

abbrev url_of : Bytes → StdUrl
url_of h = record { scheme = http; user = none; host = h; others = [] }

abbrev parsed : Url
parsed = record { url = url_of v6_80; port = 80 }

parse-some :
    (parse lookup_port none ≡ err (failure "url is nil"))
    × (parse lookup_port (some (record (url_of v4) { scheme = [] }))
        ≡ err (failure "url is not absolute (does not contain scheme)"))
    × (parse lookup_port (some (url_of v4_too_far)) ≡ err (failure "parse port string"))
unfolding parse port_of unbracket split_host_port join_host_port parse_uint16 decimal digits value
parse-some = (refl, refl, refl)

parse-v6 : parse lookup_port (some (url_of v6)) ≡ ok parsed
unfolding parse port_of unbracket split_host_port join_host_port parse_uint16 decimal digits value
parse-v6 = refl

v6-plain : unbracket (std_hostname (url_of v6)) ≡ std_hostname (url_of v6)
unfolding unbracket split_host_port
v6-plain = refl

parse-again_example :
    (hostname parsed ≡ std_hostname (url_of v6))
    × (all_digits (port_text parsed) ≡ true)
    × (value 0 (port_text parsed) ≡ port_u16 parsed)
    × (port_u16 parsed < 2 ^ 16)
    × (parse lookup_port (some parsed.url) ≡ ok parsed)
parse-again_example = parse-again lookup_port lookup_port-small (url_of v6) parsed parse-v6 v6-plain
