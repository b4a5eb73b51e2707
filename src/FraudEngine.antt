-- ===== src/FraudEngine.antt =====
-- src/protocol/fraud-engine.ts: the scan of an agent's payments, with the graph of wallets in the protocol
-- store. Amounts are micro-USDC and may be negative, since the route admits any number. The details of
-- the signals are left out, and so are the flags and the confidence, which repeat what the signals say.
mod Verdict
mod Graph
mod Examples
use x402_agent_suite.Base.{
  ℕ, suc, ◌+◌, ◌-◌, Bool, true, false, ◌&&◌, List, [], ◌∷◌, ◌++◌, Option, none, some, Text, text,
  is_empty, lower, contains, Dict, lookup, insert, length, map, take, min, max, ltb, leb,
  if◌then◌else◌,
}

-- Whole numbers; `negsuc n` is -(n + 1).
pub data ℤ : Type 0 where
  pos : ℕ → ℤ
  negsuc : ℕ → ℤ

infixl 6 ◌+ℤ◌
abbrev pub ◌+ℤ◌ : ℤ → ℤ → ℤ
pos m +ℤ pos n = pos (m + n)
pos m +ℤ negsuc n = if ltb n m then pos (m - suc n) else negsuc (n - m)
negsuc m +ℤ pos n = if ltb m n then pos (n - suc m) else negsuc (m - n)
negsuc m +ℤ negsuc n = negsuc (suc (m + n))

pub record FraudScanInput : Type 0 where
  pub wallet_address : Option Text
  pub transaction_hashes : Option (List Text)
  pub amount_usdc : Option ℤ
  pub peer_wallets : Option (List Text)

pub data Signal : Type 0 where
  wallet_cluster_low_value circular_or_repeated_tx wash_micro_payments : Signal

pub data Recommendation : Type 0 where
  block require_escrow proceed : Recommendation

pub record WalletEntry : Type 0 where
  pub peers : List Text
  pub volume_usdc : ℤ
  pub tx_count : ℕ

-- `graph.wallets`.
abbrev pub Wallets : Type 0
Wallets = Dict WalletEntry

pub record FraudScanResult : Type 0 where
  pub fraud_score : ℕ
  pub risk_score : ℕ
  pub signals : List Signal
  pub nodes : ℕ
  pub edges : ℕ
  pub recommendation : Recommendation

abbrev pub amount_of : Option ℤ → ℤ
amount_of none = pos 0
amount_of (some amount) = amount

abbrev pub listed : Option (List Text) → List Text
listed none = []
listed (some texts) = texts

abbrev pub entry_or_new : Option WalletEntry → WalletEntry
entry_or_new none = record { peers = []; volume_usdc = pos 0; tx_count = 0 }
entry_or_new (some entry) = entry

-- `if (!peers.includes(peer)) peers.push(peer)`, for every peer; a `Set` grows in the same way.
unfoldable pub push_new : List Text → List Text → List Text
push_new peers [] = peers
push_new peers (p ∷ ps) = push_new (if contains peers p then peers else peers ++ p ∷ []) ps

abbrev pub updated : FraudScanInput → WalletEntry → WalletEntry
updated input entry = record {
  peers = push_new entry.peers (listed input.peer_wallets);
  volume_usdc = entry.volume_usdc +ℤ amount_of input.amount_usdc;
  tx_count = suc entry.tx_count;
}

-- `volumeUsdc < 1`, and `0 < amountUsdc < 0.02`.
abbrev pub below_one : ℤ → Bool
below_one (pos v) = ltb v 1_000_000
below_one (negsuc v) = true

abbrev pub is_micro : ℤ → Bool
is_micro (pos a) = ltb 0 a && ltb a 20_000
is_micro (negsuc a) = false

abbrev pub is_cluster : WalletEntry → Bool
is_cluster entry = ltb 8 (length entry.peers) && below_one entry.volume_usdc

abbrev pub is_repeated : List Text → Bool
is_repeated hashes = leb 3 (length hashes) && leb (length (push_new [] (map (take 12) hashes))) 1

abbrev pub is_wash : ℤ → List Text → Bool
is_wash amount hashes = is_micro amount && ltb 5 (length hashes)

abbrev pub signal_if : Bool → Signal → List Signal
signal_if b s = if b then s ∷ [] else []

abbrev pub fraud_weight : Signal → ℕ
fraud_weight wallet_cluster_low_value = 35
fraud_weight circular_or_repeated_tx = 28
fraud_weight wash_micro_payments = 22

abbrev pub risk_weight : Signal → ℕ
risk_weight wallet_cluster_low_value = 30
risk_weight _ = 0

abbrev pub total_of : (Signal → ℕ) → List Signal → ℕ
total_of weight [] = 0
total_of weight (s ∷ signals) = weight s + total_of weight signals

abbrev pub total_edges : Wallets → ℕ
total_edges [] = 0
total_edges ((w, entry) ∷ wallets) = length entry.peers + total_edges wallets

abbrev pub recommended : ℕ → Recommendation
recommended score = if leb 50 score then block else if leb 25 score then require_escrow else proceed

abbrev pub fraud_score_of : List Signal → ℕ
fraud_score_of signals = min 100 (8 + total_of fraud_weight signals)

abbrev pub concluded : Wallets → List Signal → FraudScanResult
concluded wallets signals = record {
  fraud_score = fraud_score_of signals;
  risk_score = min 100 (max (fraud_score_of signals) (12 + total_of risk_weight signals));
  signals = signals;
  nodes = length wallets;
  edges = total_edges wallets;
  recommendation = recommended (fraud_score_of signals);
}

-- The graph with the scan noted, and whether the wallet looks like a cluster.
abbrev pub noted : FraudScanInput → Text → Wallets → Wallets × Bool
noted input wallet wallets =
    let entry = updated input (entry_or_new (lookup wallet wallets)) in
    (insert wallet entry wallets, is_cluster entry)

abbrev pub note_wallet : FraudScanInput → Option Text → Wallets → Wallets × Bool
note_wallet input none wallets = (wallets, false)
note_wallet input (some wallet) wallets =
    if is_empty wallet then (wallets, false) else noted input (lower wallet) wallets

abbrev pub signals_of : Bool → Bool → Bool → List Signal
signals_of cluster repeated wash =
    signal_if cluster wallet_cluster_low_value
    ++ (signal_if repeated circular_or_repeated_tx ++ signal_if wash wash_micro_payments)

unfoldable pub run_fraud_scan : FraudScanInput → Wallets → Wallets × FraudScanResult
unfolding push_new
run_fraud_scan input wallets =
    let hashes = listed input.transaction_hashes in
    let (graph, cluster) = note_wallet input input.wallet_address wallets in
    (
      graph,
      concluded graph
          (signals_of cluster (is_repeated hashes) (is_wash (amount_of input.amount_usdc) hashes)),
    )
