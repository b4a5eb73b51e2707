-- ===== src/WalletBlocklist/Examples.antt =====
-- The block list: a wallet that is listed, taken off and listed again, and the theorems at it.
use x402_agent_suite.Base.{
  ◌≡◌, refl, List, [], ◌∷◌, ◌++◌, Option, none, some, Text, text, text_eq, trim, lower, lookup,
  remove, Dict,
}
use x402_agent_suite.WalletBlocklist.{
  BlockRow, WalletRequest, next, blocklisted, wallet_blocklist_middleware, given, AdminRequest,
  post_entry, delete_entry, handle_admin,
}
use x402_agent_suite.WalletBlocklist.Members.{
  Call, run, members, history, judged, wallet_of, middleware-history,
}

abbrev digest : Text → Text
digest t = b'#' ∷ t

abbrev secret : Option Text
secret = some (text "s3cret")

abbrev call_of : Option Text → AdminRequest → Call
call_of provided request = record { provided = provided; now = 1000; request = request }

abbrev calls : List Call
calls =
    call_of secret (post_entry (given (text " 0xABCDEF1234 ")) none none)
    ∷ call_of (some (text "guess")) (delete_entry (text "0xabcdef1234"))
    ∷ []

abbrev request_of : Text → WalletRequest
request_of wallet = record { header = none; body = some wallet; query = none }

still_refused :
    wallet_blocklist_middleware (request_of (text "0xabcdEF1234")) (run digest secret calls [])
    ≡ blocklisted (text "0xabcdEF1234")
unfolding run wallet_blocklist_middleware handle_admin text_eq lookup remove trim lower
still_refused = refl

taken_off :
    wallet_blocklist_middleware
      (request_of (text "0xabcdEF1234"))
      (run digest secret (calls ++ (call_of secret (delete_entry (text "0xABCDEF1234")) ∷ [])) [])
    ≡ next
unfolding run wallet_blocklist_middleware handle_admin text_eq lookup remove trim lower
taken_off = refl

middleware-history_example :
    wallet_blocklist_middleware (request_of (text "0xabcdEF1234")) (run digest secret calls [])
    ≡ judged digest secret
        (history digest secret calls (members []))
        (wallet_of (request_of (text "0xabcdEF1234")))
middleware-history_example =
    middleware-history digest secret calls [] (request_of (text "0xabcdEF1234"))

abbrev one_row : Dict BlockRow
one_row = (text "0xabcdef1234", record { reason = none; blocked_at = 5; blocked_by = none }) ∷ []
