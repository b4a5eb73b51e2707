-- ===== src/Ssrf/Examples.antt =====
-- Outbound URLs: a public address and the loopback address in brackets, and the theorems at them. The
-- parser below knows two URLs; `isIP` knows one IPv4 address.
use x402_agent_suite.Base.{
  ◌||◌, ◌≡◌, refl, inl, [], ◌∷◌, Option, none, some, Text, text, text_eq, lower, starts_with,
  includes, contains, ends_with, split_dots, if◌then◌else◌, arith,
}
use x402_agent_suite.Ssrf.{
  Net, ParsedUrl, safe, private_ip, resolves_to_private, assert_safe_outbound_url,
  assert_safe_resolved_url, is_private_or_reserved_ip, reserved_range,
}
use x402_agent_suite.Ssrf.Addresses.{dotted, is_private-dotted}
use x402_agent_suite.Ssrf.Outbound.{IsAdmitted, assert_safe_outbound_url-IsAdmitted}
use x402_agent_suite.Ssrf.Literals.{bracketed_admitted}

abbrev https_of : Text → ParsedUrl
https_of host = record { protocol = text "https:"; username = []; password = []; hostname = host }

abbrev parse : Text → Option ParsedUrl
parse url =
    if text_eq url (text "https://[::1]/")
    then some (https_of (text "[::1]"))
    else if text_eq url (text "https://8.8.4.4/")
    then some (https_of (text "8.8.4.4"))
    else if text_eq url (text "https://172.20.0.1/")
    then some (https_of (text "172.20.0.1"))
    else if text_eq url (text "https://a.dev/")
    then some (https_of (text "a.dev"))
    else none

abbrev net : Net
net = record {
  parse = parse;
  is_ip = λ host. text_eq host (text "8.8.4.4") || text_eq host (text "172.20.0.1");
  resolve4 = λ host. some (text "172.20.0.1" ∷ []);
  resolve6 = λ host. none;
}

private_refused : assert_safe_outbound_url net (text "https://172.20.0.1/") ≡ private_ip
unfolding assert_safe_outbound_url text_eq contains starts_with lower includes ends_with split_dots
private_refused = refl

rebinding_refused :
    assert_safe_resolved_url net (text "https://a.dev/") ≡ resolves_to_private (text "172.20.0.1")
unfolding assert_safe_resolved_url text_eq contains starts_with lower includes ends_with split_dots
rebinding_refused = refl

is_private-dotted_example :
    is_private_or_reserved_ip net (dotted 172 20 0 1) ≡ reserved_range 172 20
unfolding text_eq
is_private-dotted_example =
    is_private-dotted net 172 20 0 1 (omega arith) (omega arith) (omega arith) (omega arith) refl

assert_safe_outbound_url-IsAdmitted_example :
    (u : ParsedUrl) × (parse (text "https://8.8.4.4/") ≡ some u) × IsAdmitted net u
unfolding assert_safe_outbound_url text_eq contains starts_with lower includes ends_with split_dots
assert_safe_outbound_url-IsAdmitted_example =
    assert_safe_outbound_url-IsAdmitted net (text "https://8.8.4.4/") refl

bracketed_admitted_example : assert_safe_outbound_url net (text "https://[::1]/") ≡ safe
unfolding text_eq
bracketed_admitted_example =
    bracketed_admitted net (text "https://[::1]/") (text "::1") (https_of (text "[::1]"))
      (inl (omega arith), (inl (omega arith), (inl (omega arith), tt))) refl refl refl refl refl
      refl
