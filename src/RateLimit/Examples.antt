-- ===== src/RateLimit/Examples.antt =====
-- Rate limits: a run of two clients, and the theorems at it.
use x402_agent_suite.Base.{
  ◌≤◌, ◌≡◌, refl, List, [], ◌∷◌, none, some, Text, text, Dict, lookup, insert, text_eq,
  keep_entries, IsUnique-insert, arith,
}
use x402_agent_suite.RateLimit.{Bucket, missing, string, Request, Limits}
use x402_agent_suite.RateLimit.Window.{Event, request, sweep, passed, perform, pass, passed_bound}
use x402_agent_suite.X402Headers.{absent, single}

-- A bucket of an earlier window, used up, that ends at the time 1000.
abbrev old_buckets : Dict Bucket
old_buckets = insert (text "1.2.3.4") (record { count = 2; reset_at = 1000 }) []

abbrev events : List Event
events =
    request (text "1.2.3.4") 990
    ∷ request (text "5.6.7.8") 1005
    ∷ request (text "1.2.3.4") 1010
    ∷ sweep 1020
    ∷ request (text "1.2.3.4") 1030
    ∷ request (text "1.2.3.4") 1040
    ∷ []

two_passed : passed 60_000 2 (text "1.2.3.4") events old_buckets ≡ 2
unfolding passed perform pass text_eq lookup insert keep_entries
two_passed = refl

passed_bound_example :
    (passed 60_000 2 (text "1.2.3.4") events old_buckets ≤ 4)
    × (lookup (text "1.2.3.4") old_buckets ≡ none
        → passed 60_000 2 (text "1.2.3.4") events old_buckets ≤ 2)
passed_bound_example =
    passed_bound 60_000 2 60_500 (text "1.2.3.4") events old_buckets
      (
        (omega arith, omega arith),
        (
          (omega arith, omega arith),
          (
            (omega arith, omega arith),
            (
              (omega arith, omega arith),
              ((omega arith, omega arith), ((omega arith, omega arith), tt)),
            ),
          ),
        ),
      )
      (IsUnique-insert (text "1.2.3.4") _ [] tt)

abbrev paid_request : Text → Request
paid_request wallet = record {
  headers = record {
    payment_signature = absent;
    x_payment = single (text "sig");
    x402_payment = absent;
  };
  ip = none;
  remote_address = some (text "1.2.3.4");
  wallet_address = string wallet;
  agent_id = missing;
}

abbrev no_limits : Limits
no_limits = record {
  buckets = [];
  hourly_buckets = [];
  buckets_unpaid = [];
  lookup_buckets = [];
  wallet_buckets = [];
}
