-- ===== src/Ssrf/Outbound.antt =====
-- src/lib/ssrf.ts: what is known of a URL that `assertSafeOutboundUrl` admits.
use x402_agent_suite.Base.{
  ℕ, ◌≤◌, ◌≡◌, ◌≢◌, refl, sym, ap, ◌∙◌, ◌⊎◌, inl, inr, Bool, true, false, not, ◌&&◌, ◌||◌, List, [],
  ◌∷◌, ◌++◌, Option, none, some, Text, text, text_eq, text_eq_iff, lower, is_empty, contains, any,
  ends_with, ends_with_iff, includes, includes_iff, All, drop, Bool-cases, if◌then◌else◌, arith,
}
use x402_agent_suite.Ssrf.{
  Net, ParsedUrl, UrlCheck, safe, only_http, credentials, missing_hostname, blocked_hostname,
  blocked_suffix, private_ip, cloud_metadata, blocked_hostnames, blocked_suffixes, has_suffix,
  hostname_looks_like_ip, is_private_or_reserved_ip, check_host, check_parsed, check_url,
  assert_safe_outbound_url,
}
use x402_agent_suite.Ssrf.Addresses.{
  dotted, is_private-dotted, IsReserved, reserved_range-IsReserved,
}

-- What is known of an admitted URL, its host in small letters.
pub record IsAdmitted (net : Net) (u : ParsedUrl) : Type 0 where
  pub web : (u.protocol ≡ text "https:") ⊎ (u.protocol ≡ text "http:")
  pub anonymous : (u.username ≡ []) × (u.password ≡ [])
  pub named : lower u.hostname ≢ []
  pub unlisted : All (λ name. lower u.hostname ≢ name) blocked_hostnames
  pub outside :
      All
        (λ suffix.
          (lower u.hostname ≢ drop 1 suffix) × ((p : Text) → lower u.hostname ≢ p ++ suffix))
        blocked_suffixes
  pub public_address :
      (a b c d : ℕ)
      → a ≤ 255
      → b ≤ 255
      → c ≤ 255
      → d ≤ 255
      → lower u.hostname ≡ dotted a b c d
      → net.is_ip (dotted a b c d) ≡ true
      → ¬ IsReserved a b
  pub no_metadata : (p q : Text) → lower u.hostname ≢ p ++ (text "metadata" ++ q)

chain_safe :
    (a b c d e : Bool)
    → (if a
        then missing_hostname
        else if b
        then blocked_hostname
        else if c
        then blocked_suffix
        else if d
        then private_ip
        else if e
        then cloud_metadata
        else safe)
      ≡ safe
    → (a ≡ false) × (b ≡ false) × (c ≡ false) × (d ≡ false) × (e ≡ false)
chain_safe a b c d e h = ground arith

contains-false :
    (names : List Text) (h : Text) → contains names h ≡ false → All (λ name. h ≢ name) names
unfolding contains
contains-false [] h e = tt
contains-false (n ∷ names) h e = (
  λ same. let hit = (text_eq_iff n h).1 (sym same) in ground (arith, hit, e),
  contains-false names h (ground (arith, e)),
)

any_suffix-false :
    (suffixes : List Text) (h : Text)
    → any (has_suffix h) suffixes ≡ false
    → All (λ suffix. (h ≢ drop 1 suffix) × ((p : Text) → h ≢ p ++ suffix)) suffixes
any_suffix-false [] h e = tt
any_suffix-false (s ∷ suffixes) h e = (
  (
    λ same. let hit = (text_eq_iff h (drop 1 s)).1 same in ground (arith, hit, e),
    λ p same. let hit = (ends_with_iff h s).1 (p, same) in ground (arith, hit, e),
  ),
  any_suffix-false suffixes h (ground (arith, e)),
)

module _ (net : Net) where
  looks-dotted : (host : Text) → net.is_ip host ≡ true → hostname_looks_like_ip net host ≡ true
  unfolding hostname_looks_like_ip
  looks-dotted host known = rw known refl

  check_parsed-safe :
      (u : ParsedUrl)
      → check_parsed net u ≡ safe
      → ((not (text_eq u.protocol (text "https:")) && not (text_eq u.protocol (text "http:")))
          ≡ false)
        × ((not (is_empty u.username) || not (is_empty u.password)) ≡ false)
        × (check_host net (lower u.hostname) ≡ safe)
  check_parsed-safe u h =
      guards (not (text_eq u.protocol (text "https:")) && not (text_eq u.protocol (text "http:")))
        (not (is_empty u.username) || not (is_empty u.password)) (check_host net (lower u.hostname))
        (unfold check_parsed in h)
    where
      guards :
          (a b : Bool) (c : UrlCheck)
          → (if a then only_http else if b then credentials else c) ≡ safe
          → (a ≡ false) × (b ≡ false) × (c ≡ safe)
      guards a b c h = ground arith

  check_parsed-IsAdmitted : (u : ParsedUrl) → check_parsed net u ≡ safe → IsAdmitted net u
  check_parsed-IsAdmitted u h =
      let host = lower u.hostname in
      let (protocol, login, checked) = check_parsed-safe u h in
      let (filled, listed, suffixed, address, metadata) =
        chain_safe (is_empty host) (contains blocked_hostnames host)
          (any (has_suffix host) blocked_suffixes)
          (hostname_looks_like_ip net host && is_private_or_reserved_ip net host)
          (ends_with host (text ".google.internal") || includes host (text "metadata"))
          (unfold check_host in checked) in
      record {
        web = protocols u.protocol protocol;
        anonymous = empties u.username u.password login;
        named = λ e. not_empty host filled e;
        unlisted = contains-false blocked_hostnames host listed;
        outside = any_suffix-false blocked_suffixes host suffixed;
        public_address = λ a b c d ha hb hc hd e known reserved.
            let private = is_private-dotted net a b c d ha hb hc hd known in
            let looks = looks-dotted (dotted a b c d) known in
            let open_range =
              sym private
              ∙ second _ _ looks (
                  ap (λ t. hostname_looks_like_ip net t && is_private_or_reserved_ip net t) (sym e)
                  ∙ address) in
            let closed = reserved_range-IsReserved a b reserved in
            ground (arith, open_range, closed);
        no_metadata = λ p q e.
            let hit = (includes_iff host (text "metadata")).1 (p, q, e) in clash _ _ hit metadata;
      }
    where
      protocols :
          (p : Text)
          → (not (text_eq p (text "https:")) && not (text_eq p (text "http:"))) ≡ false
          → (p ≡ text "https:") ⊎ (p ≡ text "http:")
      protocols p e = elim (Bool-cases (text_eq p (text "https:"))) [
        | inl secure ↦ inl ((text_eq_iff p (text "https:")).0 secure)
        | inr other ↦ inr ((text_eq_iff p (text "http:")).0 (ground (arith, other, e)))
      ]

      empties : (s t : Text) → (not (is_empty s) || not (is_empty t)) ≡ false → (s ≡ []) × (t ≡ [])
      empties [] [] e = (refl, refl)
      empties [] (c ∷ t) e = absurd (ground (arith, e))
      empties (c ∷ s) t e = absurd (ground (arith, e))

      not_empty : (t : Text) → is_empty t ≡ false → t ≢ []
      not_empty [] e f = absurd (ground (arith, e))
      not_empty (c ∷ t) e f = absurd (ground (arith, f))

      second : (a b : Bool) → a ≡ true → (a && b) ≡ false → b ≡ false
      second a b h e = ground arith

      clash : (a b : Bool) → b ≡ true → (a || b) ≡ false → ⊥
      clash a b h e = ground arith

  check_url-safe :
      (o : Option ParsedUrl)
      → check_url net o ≡ safe
      → (u : ParsedUrl) × (o ≡ some u) × (check_parsed net u ≡ safe)
  check_url-safe none h = absurd (ground (arith, h))
  check_url-safe (some u) h = (u, refl, h)

  -- A URL that is admitted is http or https, brings no credentials, and has a host that is not one of
  -- the blocked names, is not and does not end in a blocked suffix, does not contain `metadata`, and, where
  -- it is an IPv4 address in dotted decimals that `isIP` knows, lies outside 0/8, 10/8, 127/8, 169.254/16,
  -- 172.16/12, 192.168/16 and 100.64/10.
  pub assert_safe_outbound_url-IsAdmitted :
      (url : Text)
      → assert_safe_outbound_url net url ≡ safe
      → (u : ParsedUrl) × (net.parse url ≡ some u) × IsAdmitted net u
  unfolding assert_safe_outbound_url
  assert_safe_outbound_url-IsAdmitted url h =
      let (u, parsed, checked) = check_url-safe (net.parse url) h in
      (u, parsed, check_parsed-IsAdmitted u checked)
