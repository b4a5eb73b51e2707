-- ===== src/Ssrf/Literals.antt =====
-- src/lib/ssrf.ts: hosts that are IPv6 literals, which `URL` writes in brackets.
use mathlib.Core.List.{reverse, reverse-append}
use x402_agent_suite.Base.{
  ℕ, ◌≤◌, ◌<◌, ◌≡◌, ◌≢◌, refl, ap, ◌∙◌, ◌⊎◌, inl, inr, false, [], ◌∷◌, ◌++◌, some, Text, text,
  text_eq, lower, lower_code, starts_with, ends_with, includes, contains, All, All-append, arith,
}
use x402_agent_suite.Ssrf.{
  Net, ParsedUrl, safe, is_hex_literal, hostname_looks_like_ip, check_host, check_parsed, check_url,
  assert_safe_outbound_url,
}

-- What an IPv6 address is written with: digits, `.`, `:` and the letters a to f.
abbrev pub IsAddressCode : ℕ → Type 0
IsAddressCode c = (c ≤ b':') ⊎ ((b'a' ≤ c) × (c ≤ b'f'))

abbrev pub bracketed : Text → Text
bracketed address = b'[' ∷ (address ++ (b']' ∷ []))

-- Neither a capital letter nor a letter after f.
abbrev IsLow : ℕ → Type 0
IsLow c = (lower_code c ≡ c) × (c ≤ b'f')

IsAddressCode-IsLow : (c : ℕ) → IsAddressCode c → IsLow c
unfolding lower_code
IsAddressCode-IsLow c (inl h) = ground arith
IsAddressCode-IsLow c (inr h) = ground arith

all-IsLow : (address : Text) → All IsAddressCode address → All IsLow address
all-IsLow [] h = tt
all-IsLow (c ∷ address) h = (IsAddressCode-IsLow c h.0, all-IsLow address h.1)

bracketed-IsLow : (address : Text) → All IsAddressCode address → All IsLow (bracketed address)
unfolding lower_code
bracketed-IsLow address h = (
  (refl, omega arith),
  All-append IsLow address (b']' ∷ []) (all-IsLow address h) ((refl, omega arith), tt),
)

lower-low : (t : Text) → All IsLow t → lower t ≡ t
unfolding lower
lower-low [] h = refl
lower-low (c ∷ t) h = cc (h.0.0, lower-low t h.1)

includes-low : (t : Text) (s : Text) → All IsLow t → includes t (b'm' ∷ s) ≡ false
unfolding includes
includes-low [] s h = refl
includes-low (c ∷ t) s h = let le = h.0.1 in ground (arith, le, includes-low t s h.1)

ends_with-bracketed :
    (address s r : Text) (c : ℕ)
    → reverse s ≡ c ∷ r
    → c ≢ b']'
    → ends_with (bracketed address) s ≡ false
unfolding ends_with
ends_with-bracketed address s r c e ne =
    rw (reverse-append (b'[' ∷ address) (b']' ∷ []), e) (first (reverse (b'[' ∷ address)))
  where
    first : (u : Text) → starts_with (b']' ∷ u) (c ∷ r) ≡ false
    first u = ground (arith, ne)

is_hex_literal-bracket : (t : Text) → is_hex_literal (b'[' ∷ t) ≡ false
unfolding is_hex_literal
is_hex_literal-bracket [] = refl
is_hex_literal-bracket (x ∷ []) = refl
is_hex_literal-bracket (x ∷ d ∷ t) = refl

module _ (net : Net) where
  looks-bracketed :
      (address : Text)
      → net.is_ip (bracketed address) ≡ false
      → hostname_looks_like_ip net (bracketed address) ≡ false
  unfolding hostname_looks_like_ip
  looks-bracketed address unknown =
      rw (unknown, is_hex_literal-bracket (address ++ (b']' ∷ []))) refl

  check_host-bracketed :
      (address : Text)
      → All IsAddressCode address
      → net.is_ip (bracketed address) ≡ false
      → check_host net (bracketed address) ≡ safe
  unfolding check_host contains text_eq
  check_host-bracketed address h unknown =
      let local = ends (text ".local") (text "acol.") b'l' refl (omega arith) in
      let internal = ends (text ".internal") (text "anretni.") b'l' refl (omega arith) in
      let localhost = ends (text ".localhost") (text "sohlacol.") b't' refl (omega arith) in
      let lan = ends (text ".lan") (text "al.") b'n' refl (omega arith) in
      let google =
        ends (text ".google.internal") (text "anretni.elgoog.") b'l' refl (omega arith) in
      let metadata =
        includes-low (bracketed address) (text "etadata") (bracketed-IsLow address h) in
      rw (local, internal, localhost, lan, looks-bracketed address unknown, google, metadata) refl
    where
      ends :
          (s r : Text) (c : ℕ)
          → reverse s ≡ c ∷ r
          → b']' < c
          → ends_with (bracketed address) s ≡ false
      ends s r c e lt =
          ends_with-bracketed address s r c e (λ same. absurd (omega (arith, same, lt)))

  -- An IPv6 literal is admitted whatever address it is, loopback and link-local ones included: a host in
  -- brackets is none that `isIP` knows, so the test for private addresses is not made.
  pub bracketed_admitted :
      (url address : Text) (u : ParsedUrl)
      → All IsAddressCode address
      → net.is_ip (bracketed address) ≡ false
      → net.parse url ≡ some u
      → u.hostname ≡ bracketed address
      → u.protocol ≡ text "https:"
      → u.username ≡ []
      → u.password ≡ []
      → assert_safe_outbound_url net url ≡ safe
  unfolding assert_safe_outbound_url text_eq contains
  bracketed_admitted url address u h unknown parsed host protocol username password =
      ap (check_url net) parsed ∙ checked u host protocol username password
    where
      checked :
          (u : ParsedUrl)
          → u.hostname ≡ bracketed address
          → u.protocol ≡ text "https:"
          → u.username ≡ []
          → u.password ≡ []
          → check_parsed net u ≡ safe
      checked u host protocol username password =
          rw
            (
              protocol,
              username,
              password,
              host,
              lower-low (bracketed address) (bracketed-IsLow address h),
            )
            (check_host-bracketed address h unknown)
