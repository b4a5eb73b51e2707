-- ===== src/Ssrf.antt =====
-- src/lib/ssrf.ts: which URLs the server may fetch. `new URL`, `isIP` of node:net and the two DNS
-- lookups are arguments; a thrown UnsafeUrlError is a constructor.
mod Addresses
pub mod Outbound
mod Literals
mod Examples
use x402_agent_suite.Base.{
  is_digit, number_from, number, ℕ, ◌+◌, ◌-◌, ◌*◌, Bool, true, false, not, ◌&&◌, ◌||◌, List, [],
  ◌∷◌, ◌++◌, Option, none, some, Text, text, text_eq, lower, is_empty, starts_with, ends_with,
  includes, contains, any, every, drop, split_dots, ltb, leb, ◌==◌, if◌then◌else◌,
}

-- A parsed URL, as far as it is looked at.
pub record ParsedUrl : Type 0 where
  pub protocol : Text
  pub username : Text
  pub password : Text
  pub hostname : Text

pub record Net : Type 0 where
  -- `new URL(url)`, `none` if it throws.
  pub parse : Text → Option ParsedUrl
  -- `isIP(host)` is not 0.
  pub is_ip : Text → Bool
  -- `resolve4` and `resolve6`, `none` if the promise is rejected.
  pub resolve4 : Text → Option (List Text)
  pub resolve6 : Text → Option (List Text)

abbrev pub blocked_hostnames : List Text
blocked_hostnames =
    text "localhost"
    ∷ text "localhost.localdomain"
    ∷ text "metadata.google.internal"
    ∷ text "metadata.goog"
    ∷ []

abbrev pub blocked_suffixes : List Text
blocked_suffixes = text ".local" ∷ text ".internal" ∷ text ".localhost" ∷ text ".lan" ∷ []

abbrev pub is_octet : Option ℕ → Bool
is_octet none = false
is_octet (some n) = leb n 255

-- The first two numbers decide.
unfoldable pub reserved_range : ℕ → ℕ → Bool
reserved_range a b =
    a == 10
    || (a == 127
        || (a == 0
            || ((a == 169 && b == 254)
                || ((a == 172 && (leb 16 b && leb b 31))
                    || ((a == 192 && b == 168) || (a == 100 && (leb 64 b && leb b 127)))))))

abbrev pub reserved_pair : Option ℕ → Option ℕ → Bool
reserved_pair (some a) (some b) = reserved_range a b
reserved_pair _ _ = true

-- Not four parts, or one that is no number up to 255: true.
unfoldable pub reserved_parts : List Text → Bool
unfolding number_from reserved_range
reserved_parts (p ∷ q ∷ r ∷ s ∷ []) =
    if not
      (is_octet (number p) && (is_octet (number q) && (is_octet (number r) && is_octet (number s))))
    then true
    else reserved_pair (number p) (number q)
reserved_parts _ = true

abbrev pub is_local_ipv6 : Text → Bool
is_local_ipv6 l =
    starts_with l (text "fe80:") || (starts_with l (text "fc") || starts_with l (text "fd"))

abbrev pub is_hex : ℕ → Bool
is_hex c = is_digit c || ((leb b'a' c && leb c b'f') || (leb b'A' c && leb c b'F'))

-- `/^0x[0-9a-f]+$/i` and `/^\d+$/`.
unfoldable pub is_hex_literal : Text → Bool
is_hex_literal (c ∷ x ∷ d ∷ s) = c == b'0' && ((x == b'x' || x == b'X') && every is_hex (d ∷ s))
is_hex_literal _ = false

abbrev pub is_digits : Text → Bool
is_digits [] = false
is_digits (c ∷ s) = every is_digit (c ∷ s)

pub data UrlCheck : Type 0 where
  safe : UrlCheck
  invalid_url only_http credentials missing_hostname blocked_hostname blocked_suffix : UrlCheck
  private_ip cloud_metadata dns_failed : UrlCheck
  resolves_to_private : Text → UrlCheck

-- `host === suffix.slice(1) || host.endsWith(suffix)`.
abbrev pub has_suffix : Text → Text → Bool
has_suffix host suffix = text_eq host (drop 1 suffix) || ends_with host suffix

abbrev pub found : Option (List Text) → List Text
found none = []
found (some ips) = ips

abbrev pub then_dns : UrlCheck → UrlCheck → UrlCheck
then_dns safe later = later
then_dns refused later = refused

abbrev pub is_safe : UrlCheck → Bool
is_safe safe = true
is_safe _ = false

module _ (net : Net) where
  unfoldable pub is_private_or_reserved_ip : Text → Bool
  unfolding reserved_parts
  is_private_or_reserved_ip ip =
      let l = lower ip in
      if text_eq ip (text "::1")
      then true
      else if is_local_ipv6 l
      then true
      else if starts_with l (text "169.254.")
      then true
      else if not (net.is_ip ip)
      then false
      else if includes ip (text ":")
      then text_eq l (text "::1") || is_local_ipv6 l
      else reserved_parts (split_dots [] ip)

  unfoldable pub hostname_looks_like_ip : Text → Bool
  unfolding is_hex_literal
  hostname_looks_like_ip host = net.is_ip host || (is_hex_literal host || is_digits host)

  unfoldable pub check_host : Text → UrlCheck
  unfolding is_private_or_reserved_ip hostname_looks_like_ip
  check_host host =
      if is_empty host
      then missing_hostname
      else if contains blocked_hostnames host
      then blocked_hostname
      else if any (has_suffix host) blocked_suffixes
      then blocked_suffix
      else if hostname_looks_like_ip host && is_private_or_reserved_ip host
      then private_ip
      else if ends_with host (text ".google.internal") || includes host (text "metadata")
      then cloud_metadata
      else safe

  unfoldable pub check_parsed : ParsedUrl → UrlCheck
  unfolding check_host
  check_parsed u =
      if not (text_eq u.protocol (text "https:")) && not (text_eq u.protocol (text "http:"))
      then only_http
      else if not (is_empty u.username) || not (is_empty u.password)
      then credentials
      else check_host (lower u.hostname)

  abbrev pub check_url : Option ParsedUrl → UrlCheck
  check_url none = invalid_url
  check_url (some u) = check_parsed u

  unfoldable pub assert_safe_outbound_url : Text → UrlCheck
  unfolding check_parsed
  assert_safe_outbound_url url = check_url (net.parse url)

  unfoldable pub check_ips : List Text → UrlCheck
  unfolding is_private_or_reserved_ip
  check_ips [] = safe
  check_ips (ip ∷ ips) =
      if is_private_or_reserved_ip ip then resolves_to_private ip else check_ips ips

  abbrev pub check_resolved : List Text → UrlCheck
  check_resolved [] = dns_failed
  check_resolved (ip ∷ ips) = check_ips (ip ∷ ips)

  abbrev pub check_dns : Option ParsedUrl → UrlCheck
  check_dns none = invalid_url
  check_dns (some u) =
      if hostname_looks_like_ip u.hostname
      then safe
      else check_resolved (found (net.resolve4 u.hostname) ++ found (net.resolve6 u.hostname))

  unfoldable pub assert_safe_resolved_url : Text → UrlCheck
  unfolding assert_safe_outbound_url hostname_looks_like_ip check_ips
  assert_safe_resolved_url url = then_dns (assert_safe_outbound_url url) (check_dns (net.parse url))

  unfoldable pub is_safe_outbound_url : Text → Bool
  unfolding assert_safe_outbound_url
  is_safe_outbound_url url = is_safe (assert_safe_outbound_url url)

  -- `hostOf` of src/lib/probe.ts.
  unfoldable pub host_of : Text → Option Text
  host_of url = elim (net.parse url) [ none ↦ none | some u ↦ some (lower u.hostname) ]
