-- ===== src/HostPolicy.antt =====
-- src/lib/host-policy.ts: host patterns, and the lists of blocked and of allowed hosts. An absent list
-- is the empty one.
pub mod Matching
use x402_agent_suite.Base.{
  Bool, true, false, List, [], ◌∷◌, Text, any, text_eq, lower, trim, is_empty, ends_with, ◌||◌,
  if◌then◌else◌,
}

abbrev pub normalized : Text → Text
normalized t = trim (lower t)

-- `.` followed by the pattern.
unfoldable pub host_matches_pattern : Text → Text → Bool
host_matches_pattern host pattern =
    let h = normalized host in
    let p = normalized pattern in
    if is_empty h || is_empty p then false else if text_eq h p then true else ends_with h (b'.' ∷ p)

unfoldable pub host_blocked : Text → List Text → Bool
unfolding host_matches_pattern
host_blocked host blocked = any (λ p. host_matches_pattern host p) blocked

unfoldable pub host_allowed : Text → List Text → Bool
unfolding host_matches_pattern
host_allowed host [] = true
host_allowed host (p ∷ allowed) = any (λ q. host_matches_pattern host q) (p ∷ allowed)
