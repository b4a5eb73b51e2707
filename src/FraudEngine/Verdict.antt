-- ===== src/FraudEngine/Verdict.antt =====
-- src/protocol/fraud-engine.ts: what the recommendation of a scan goes by.
use x402_agent_suite.Base.{ℕ, zero, suc, ◌≤◌, ◌≡◌, refl, Bool, true, false, length, arith}
use x402_agent_suite.FraudEngine.{
  FraudScanInput, Recommendation, block, require_escrow, proceed, Wallets, FraudScanResult,
  amount_of, listed, is_repeated, is_wash, concluded, note_wallet, signals_of, run_fraud_scan,
}

-- The recommendation by the number of signals.
abbrev pub by_number : ℕ → Recommendation
by_number zero = proceed
by_number (suc zero) = require_escrow
by_number (suc (suc n)) = block

abbrev pub IsGraded : FraudScanResult → Type 0
IsGraded r =
    (r.recommendation ≡ by_number (length r.signals))
    × (r.fraud_score ≤ 93)
    × (r.fraud_score ≤ r.risk_score)
    × (r.risk_score ≤ 93)

concluded-IsGraded :
    (wallets : Wallets) (cluster repeated wash : Bool)
    → IsGraded (concluded wallets (signals_of cluster repeated wash))
concluded-IsGraded wallets true true true = (refl, omega arith, omega arith, omega arith)
concluded-IsGraded wallets true true false = (refl, omega arith, omega arith, omega arith)
concluded-IsGraded wallets true false true = (refl, omega arith, omega arith, omega arith)
concluded-IsGraded wallets true false false = (refl, omega arith, omega arith, omega arith)
concluded-IsGraded wallets false true true = (refl, omega arith, omega arith, omega arith)
concluded-IsGraded wallets false true false = (refl, omega arith, omega arith, omega arith)
concluded-IsGraded wallets false false true = (refl, omega arith, omega arith, omega arith)
concluded-IsGraded wallets false false false = (refl, omega arith, omega arith, omega arith)

-- A scan recommends to block the payment when it raises two or three signals, to require an escrow when it
-- raises exactly one, and to proceed when it raises none. The fraud score is at most the risk score, which is
-- at most 93, so the cap of 100 takes nothing off.
pub run_fraud_scan-IsGraded :
    (input : FraudScanInput) (wallets : Wallets) → IsGraded (run_fraud_scan input wallets).1
unfolding run_fraud_scan
run_fraud_scan-IsGraded input wallets =
    let hashes = listed input.transaction_hashes in
    let (graph, cluster) = note_wallet input input.wallet_address wallets in
    concluded-IsGraded graph cluster (is_repeated hashes)
      (is_wash (amount_of input.amount_usdc) hashes)
