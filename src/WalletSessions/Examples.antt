-- ===== src/WalletSessions/Examples.antt =====
-- Wallet sessions: a session's life, and the theorems at it. The coding below stands for base64url:
-- it shifts every code, so that no dot is left.
use x402_agent_suite.Base.{
  split_dots, NoDot, ◌+◌, ◌-◌, ◌≤◌, ◌≡◌, refl, ◌↔◌, true, false, List, [], ◌∷◌, ◌++◌, none, some,
  Text, text, text_eq, lower, Dict, lookup, insert, keep_entries, arith,
}
use x402_agent_suite.WalletSessions.{
  WalletSession, CreateSessionInput, TokenCrypto, invalid, session_expired, session_revoked,
  invalid_token_signature, create_wallet_session, verify_wallet_session, revoke_wallet_session,
  counted, get_wallet_session_info, prune_expired_sessions,
}
use x402_agent_suite.WalletSessions.Token.{IsCodec}
use x402_agent_suite.WalletSessions.Limits.{is_valid, LeadsTo, Usable, IsExact, verify_valid_iff}
use x402_agent_suite.WalletSessions.Counting.{Call, verifies, prunes, accepted}
use x402_agent_suite.WalletSessions.Acceptance.{accepted-le-max_calls}

abbrev shift : Text → Text
shift [] = []
shift (c ∷ s) = (c + 100) ∷ shift s

abbrev unshift : Text → Text
unshift [] = []
unshift (c ∷ s) = (c - 100) ∷ unshift s

abbrev crypto : TokenCrypto
crypto = record { encode = shift; decode = unshift; mac = λ id. shift id }

unshift-shift : (s : Text) → unshift (shift s) ≡ s
unshift-shift [] = refl
unshift-shift (c ∷ s) = let head : c + 100 - 100 ≡ c = omega arith in cc (head, unshift-shift s)

shift-NoDot : (s : Text) → NoDot (shift s)
shift-NoDot [] = tt
shift-NoDot (c ∷ s) = (omega arith, shift-NoDot s)

crypto-IsCodec : IsCodec crypto
crypto-IsCodec = record {
  decode-encode = unshift-shift;
  encode-NoDot = shift-NoDot;
  mac-NoDot = shift-NoDot;
}

abbrev input : CreateSessionInput
input = record {
  wallet_address = text "0xAB";
  agent_id = none;
  network = text "eip155:8453";
  stablecoin = none;
  amount_paid = text "$0.05";
  ttl_seconds = some 60;
  max_calls = some 2;
  metadata = none;
}

abbrev id : Text
id = text "s1"

abbrev token : Text
token = shift id ++ (b'.' ∷ shift id)

abbrev session : WalletSession
session = record {
  session_id = id;
  wallet_address = text "0xab";
  agent_id = none;
  network = text "eip155:8453";
  stablecoin = text "USDC";
  amount_paid = text "$0.05";
  created_at = 1000;
  expires_at = 1060;
  revoked_at = none;
  call_count = 0;
  max_calls = some 2;
  metadata = none;
}

abbrev table : Dict WalletSession
table = (id, session) ∷ []

created_session : create_wallet_session crypto id 1000 input [] ≡ (table, token, session)
unfolding create_wallet_session lower insert
created_session = refl

run : Unit {0}
unfolding verify_wallet_session revoke_wallet_session lookup insert text_eq split_dots keep_entries
run = tt

refusals :
    ((verify_wallet_session crypto 1060 token table).1 ≡ invalid session_expired)
    × ((verify_wallet_session crypto 1001 (text "s1.sig") table).1
        ≡ invalid invalid_token_signature)
    × ((verify_wallet_session crypto 1001 token (revoke_wallet_session crypto 1000 token table).0).1
        ≡ invalid session_revoked)
unfolding run
refusals = (refl, refl, refl)

cleaned_up : prune_expired_sessions 9_000_000 table ≡ ([], 1)
unfolding prune_expired_sessions run
cleaned_up = refl

info : get_wallet_session_info crypto token table ≡ some session
unfolding get_wallet_session_info run
info = refl

leads : LeadsTo crypto token table id session
unfolding run
leads = (refl, refl)

verify_valid_iff_example :
    let r = verify_wallet_session crypto 1001 token table in
    ((is_valid r.1 ≡ true) ↔ Usable 1001 session)
    × (is_valid r.1 ≡ true → (lookup id r.0 ≡ some (counted session)) × IsExact 1001 session r.1)
    × (is_valid r.1 ≡ false → r.0 ≡ table)
verify_valid_iff_example = verify_valid_iff crypto 1001 token table id session leads

calls : List Call
calls = verifies 1001 token ∷ verifies 1002 token ∷ prunes 1003 ∷ verifies 1004 token ∷ []

both_calls : accepted crypto id calls table ≡ 2
unfolding accepted calls run
both_calls = refl

accepted-le-max_calls_example : accepted crypto id calls table + 0 ≤ 2
unfolding run
accepted-le-max_calls_example =
    accepted-le-max_calls crypto 2 id session calls table (refl, tt) refl refl (omega arith)
