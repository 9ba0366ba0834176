-- ===== src/Url/Again.antt =====
-- What `Parse` makes of a URL, when it is read again.
use mathlib.Core.Path.{subst, subst⁻¹}
use mathlib.Core.List.{cons≢nil}
use native.Mathlib.Nat.{mod-eq_of_lt}
use monomer.Prelude.{
  ℕ, ◌<◌, ◌>>=◌, ◌≡◌, refl, ap, ◌∙◌, sym, ◌^◌, ltb, Bool-cases, inl, inr, true, none, some, [], ◌∷◌,
  ◌++◌, arith, Result, ok, ok_of_if, ok_of_bind, ok_of_failing, ok_injective, All,
}
use monomer.Bytes.{Bytes}
use monomer.Bytes.Decimal.{decimal, value, IsDigit, decimal-All, value-decimal, decimal-cons}
use monomer.Url.{
  StdUrl, Url, last_colon, has_colon, all_digits, before_bracket, add_front, unbracket,
  split_host_port, join_host_port, parse_uint16, std_hostname, std_port, port_of, parse_absolute,
  parse, or_whole, hostname, port_text, port_u16, parse_scheme,
}

last_colon-none : (p : Bytes) → all_digits p ≡ true → last_colon p ≡ none
last_colon-none [] d = refl
last_colon-none (b ∷ bs) d = ground (arith, d, last_colon-none bs)

last_colon-split : (x p : Bytes) → all_digits p ≡ true → last_colon (x ++ 58 ∷ p) ≡ some (x, p)
last_colon-split [] p d = rw (last_colon-none p d) refl
last_colon-split (b ∷ bs) p d = rw (last_colon-split bs p d) refl

before_bracket-snoc : (x : Bytes) → before_bracket (x ++ 93 ∷ []) ≡ some x
before_bracket-snoc [] = refl
before_bracket-snoc (b ∷ []) = refl
before_bracket-snoc (b ∷ c ∷ bs) = ap (add_front b) (before_bracket-snoc (c ∷ bs))

-- A host and a port that were joined are split again.
split_host_port-join_host_port :
    (h p : Bytes)
    → all_digits p ≡ true
    → unbracket h ≡ h
    → split_host_port (join_host_port h p) ≡ (h, p)
unfolding split_host_port join_host_port
split_host_port-join_host_port h p d plain = elim (Bool-cases (has_colon h)) [
  | inl e ↦
      rw (e, last_colon-split (91 ∷ (h ++ 93 ∷ [])) p d, d)
        (unfold unbracket in
          ap (λ x. (or_whole (91 ∷ (h ++ 93 ∷ [])) x, p)) (before_bracket-snoc h))
  | inr e ↦ rw (e, last_colon-split h p d, d, plain) refl
]

-- The text of a port, and its number.
record IsPort (n : ℕ) (text : Bytes) : Type 0 where
  is_digits : all_digits text ≡ true
  first : ℕ
  rest : Bytes
  not_empty : text ≡ first ∷ rest
  says : value 0 text ≡ n
  in_u16 : n < 2 ^ 16

all_digits-of_All : (bs : Bytes) → All IsDigit bs → all_digits bs ≡ true
all_digits-of_All [] a = refl
all_digits-of_All (b ∷ bs) a = ground (arith, a.0, all_digits-of_All bs a.1)

parse_uint16-IsPort :
    (b : ℕ) (bs : Bytes) (n : ℕ) → parse_uint16 (b ∷ bs) ≡ ok n → IsPort n (b ∷ bs)
unfolding parse_uint16
parse_uint16-IsPort b bs n h = elim (ok_of_if (all_digits (b ∷ bs)) _ _ n h) [
  | inl (d, h1) ↦ elim (ok_of_if (ltb (value 0 (b ∷ bs)) (2 ^ 16)) _ _ n h1) [
    | inl (small, is) ↦
        let says = ok_injective _ _ is in
        record {
          is_digits = d;
          first = b;
          rest = bs;
          not_empty = refl;
          says = says;
          in_u16 = ground (arith, small, says);
        }
    | inr (_, e) ↦ absurd cc
  ]
  | inr (_, e) ↦ absurd cc
]

parse_uint16-ok : (n b : ℕ) (bs : Bytes) → IsPort n (b ∷ bs) → parse_uint16 (b ∷ bs) ≡ ok n
unfolding parse_uint16
parse_uint16-ok n b bs i = ground (arith, i.is_digits, i.says, i.in_u16)

decimal-IsPort : (n : ℕ) → n < 2 ^ 16 → IsPort n (decimal n)
decimal-IsPort n h =
    let (b, bs, e) = decimal-cons n in
    record {
      is_digits = all_digits-of_All (decimal n) (decimal-All n);
      first = b;
      rest = bs;
      not_empty = e;
      says = value-decimal n (omega (arith, h));
      in_u16 = h;
    }

module _ (lookup_port : Bytes → Result ℕ)
    (in_range : (scheme : Bytes) (n : ℕ) → lookup_port scheme ≡ ok n → n < 2 ^ 16) where
  port_of-IsPort :
      (scheme text : Bytes) (r : ℕ × Bytes)
      → port_of lookup_port scheme text ≡ ok r
      → IsPort r.0 r.1
  unfolding port_of
  port_of-IsPort scheme [] r h =
      let (k, found, is) = ok_of_bind _ _ r h in
      let small = in_range scheme k (ok_of_failing _ _ k found) in
      subst (λ (x : ℕ × Bytes). IsPort x.0 x.1) (ok_injective _ r is)
        (subst (λ m. IsPort m (decimal k)) (sym (mod-eq_of_lt small)) (decimal-IsPort k small))
  port_of-IsPort scheme (b ∷ bs) r h =
      let (k, found, is) = ok_of_bind _ _ r h in
      let i = parse_uint16-IsPort b bs k (ok_of_failing _ _ k found) in
      subst (λ (x : ℕ × Bytes). IsPort x.0 x.1) (ok_injective _ r is)
        (subst (λ m. IsPort m (b ∷ bs)) (sym (mod-eq_of_lt i.in_u16)) i)

  port_of-again :
      (scheme : Bytes) (n : ℕ) (text : Bytes)
      → IsPort n text
      → port_of lookup_port scheme text ≡ ok (n, text)
  unfolding port_of
  port_of-again scheme n [] i = absurd (cons≢nil (sym i.not_empty))
  port_of-again scheme n (b ∷ bs) i =
      rw (parse_uint16-ok n b bs i) (ap (λ k. ok (k, b ∷ bs)) (mod-eq_of_lt i.in_u16))

  -- A scheme with which one URL was parsed is there.
  has_scheme :
      (s : Bytes) (u : StdUrl) (r : Url)
      → parse_scheme lookup_port s u ≡ ok r
      → (v : StdUrl) → parse_scheme lookup_port s v ≡ parse_absolute lookup_port v
  has_scheme [] u r h v = absurd cc
  has_scheme (b ∷ bs) u r h v = refl

  abbrev Again : StdUrl → Url → Type 0
  Again u r =
      (hostname r ≡ std_hostname u)
      × (all_digits (port_text r) ≡ true)
      × (value 0 (port_text r) ≡ port_u16 r)
      × (port_u16 r < 2 ^ 16)
      × (parse lookup_port (some r.url) ≡ ok r)

  -- `parse_absolute` on the parts of the host.
  abbrev with_port : StdUrl → Bytes → Result (ℕ × Bytes) → Result Url
  with_port v name r = r >>= λ (port, text).
      ok (record { url = record v { host = join_host_port name text }; port = port })

  abbrev with_parts : StdUrl → Bytes × Bytes → Result Url
  with_parts v parts = with_port v parts.0 (port_of lookup_port v.scheme parts.1)

  joined-Again :
      (u : StdUrl) (n : ℕ) (text : Bytes)
      → IsPort n text
      → unbracket (std_hostname u) ≡ std_hostname u
      → ((v : StdUrl) → parse_scheme lookup_port u.scheme v ≡ parse_absolute lookup_port v)
      → Again u
          (record { url = record u { host = join_host_port (std_hostname u) text }; port = n })
  unfolding parse
  joined-Again u n text i plain e =
      let joined = record u { host = join_host_port (std_hostname u) text } in
      let split = split_host_port-join_host_port (std_hostname u) text i.is_digits plain in
      (
        ap (λ x. x.0) split,
        subst⁻¹ (λ (x : Bytes × Bytes). all_digits x.1 ≡ true) split i.is_digits,
        ap (λ x. value 0 x.1) split ∙ i.says,
        i.in_u16,
        e joined
            ∙ ap (with_parts joined) split
            ∙ ap (with_port joined (std_hostname u)) (port_of-again u.scheme n text i),
      )

  -- A URL that `Parse` returns has the host name that it was given, without brackets around it, and a port in
  -- digits, whose number fits 16 bits and is the one that is kept beside it. It is returned unchanged when
  -- it is parsed again. The host name has no further brackets around it, and the ports that the
  -- system knows fit 16 bits.
  pub parse-again :
      (u : StdUrl) (r : Url)
      → parse lookup_port (some u) ≡ ok r
      → unbracket (std_hostname u) ≡ std_hostname u
      → (hostname r ≡ std_hostname u)
        × (all_digits (port_text r) ≡ true)
        × (value 0 (port_text r) ≡ port_u16 r)
        × (port_u16 r < 2 ^ 16)
        × (parse lookup_port (some r.url) ≡ ok r)
  unfolding parse
  parse-again u r h plain =
      let e = has_scheme u.scheme u r h in
      let ((n, text), found, is) = ok_of_bind _ _ r (sym (e u) ∙ h) in
      subst (Again u) (ok_injective _ r is)
        (joined-Again u n text (port_of-IsPort u.scheme (std_port u) (n, text) found) plain e)
