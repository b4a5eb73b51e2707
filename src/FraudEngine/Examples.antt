-- ===== src/FraudEngine/Examples.antt =====
-- The fraud engine: scans of two wallets, and the theorems at them.
use x402_agent_suite.Base.{
  ◌≡◌, refl, List, [], ◌∷◌, some, Text, text, text_eq, lower, contains, lookup, insert, length,
}
use x402_agent_suite.FraudEngine.{
  ℤ, pos, negsuc, FraudScanInput, block, entry_or_new, push_new, run_fraud_scan,
}
use x402_agent_suite.FraudEngine.Graph.{graph_after, scans_of, IsEntry, graph_after-IsEntry}

abbrev scan : Text → ℤ → List Text → List Text → FraudScanInput
scan wallet amount hashes peers = record {
  wallet_address = some wallet;
  transaction_hashes = some hashes;
  amount_usdc = some amount;
  peer_wallets = some peers;
}

abbrev history : List FraudScanInput
history =
    scan (text "0xA") (negsuc 9_999_999) [] (text "p" ∷ text "q" ∷ [])
    ∷ scan (text "0xb") (pos 5) [] []
    ∷ scan (text "0xa") (pos 10_000_000) [] (text "p" ∷ [])
    ∷ []

abbrev repeated : List Text
repeated =
    text "0x1234567890ab"
    ∷ text "0x1234567890ac"
    ∷ text "0x1234567890ad"
    ∷ text "0x1234567890ab"
    ∷ text "0x1234567890ab"
    ∷ text "0x1234567890ab"
    ∷ []

-- A negative amount takes the volume back.
volume_zero : (entry_or_new (lookup (text "0xa") (graph_after history))).volume_usdc ≡ pos 0
unfolding graph_after run_fraud_scan lookup insert text_eq lower contains
volume_zero = refl

-- One peer in two spellings is two peers.
peers_spelling : length (push_new [] (text "0xAB" ∷ text "0xab" ∷ [])) ≡ 2
unfolding push_new contains text_eq
peers_spelling = refl

two_signals :
    (run_fraud_scan (scan (text "0xa") (pos 10_000) repeated []) []).1.recommendation ≡ block
unfolding run_fraud_scan text_eq lookup contains lower
two_signals = refl

graph_after-IsEntry_example :
    IsEntry
      (scans_of (text "0xa") history)
      (entry_or_new (lookup (text "0xa") (graph_after history)))
graph_after-IsEntry_example = graph_after-IsEntry (text "0xa") history
