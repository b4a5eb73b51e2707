-- ===== src/FraudEngine/Graph.antt =====
-- src/protocol/fraud-engine.ts: what the graph of wallets tells of the scans it has seen.
use mathlib.Core.Path.{subst}
use x402_agent_suite.Base.{
  suc, ◌≡◌, refl, sym, ap, ◌∙◌, inl, inr, Bool, true, false, not, ◌&&◌, ◌||◌, List, [], ◌∷◌, ◌++◌,
  Option, none, some, Text, text_eq, text_eq_iff, is_empty, lower, contains, contains-append, any,
  keep, length, lookup, lookup-insert, Bool-cases, if◌then◌else◌, arith,
}
use x402_agent_suite.FraudEngine.{
  ℤ, pos, ◌+ℤ◌, FraudScanInput, WalletEntry, Wallets, amount_of, listed, entry_or_new, push_new,
  updated, noted, note_wallet, run_fraud_scan,
}

-- The graph after scans, the latest first, that began with an empty one.
unfoldable pub graph_after : List FraudScanInput → Wallets
graph_after [] = []
graph_after (input ∷ earlier) = (run_fraud_scan input (graph_after earlier)).0

abbrev pub names_wallet : Text → Option Text → Bool
names_wallet w none = false
names_wallet w (some wallet) = not (is_empty wallet) && text_eq (lower wallet) w

-- The scans of a wallet, and what they say together.
abbrev pub scans_of : Text → List FraudScanInput → List FraudScanInput
scans_of w scans = keep (λ input. names_wallet w input.wallet_address) scans

abbrev pub total_amount : List FraudScanInput → ℤ
total_amount [] = pos 0
total_amount (input ∷ earlier) = total_amount earlier +ℤ amount_of input.amount_usdc

abbrev pub named_peer : Text → List FraudScanInput → Bool
named_peer p scans = any (λ input. contains (listed input.peer_wallets) p) scans

abbrev pub IsDistinct : List Text → Type 0
IsDistinct [] = Unit
IsDistinct (x ∷ xs) = (contains xs x ≡ false) × IsDistinct xs

IsDistinct-snoc :
    (xs : List Text) (x : Text) → contains xs x ≡ false → IsDistinct xs → IsDistinct (xs ++ x ∷ [])
unfolding contains
IsDistinct-snoc [] x fresh d = (refl, tt)
IsDistinct-snoc (y ∷ xs) x fresh d = (
  ground (arith, contains-append xs y x, text_eq_iff x y, text_eq_iff y x, fresh, d.0),
  IsDistinct-snoc xs x (ground (arith, fresh)) d.1,
)

contains_same :
    (xs : List Text) (x p : Text) → contains xs x ≡ true → text_eq x p ≡ true → contains xs p ≡ true
contains_same xs x p h e = rw (sym ((text_eq_iff x p).0 e)) h

push_new-IsDistinct : (xs ps : List Text) → IsDistinct xs → IsDistinct (push_new xs ps)
unfolding push_new
push_new-IsDistinct xs [] d = d
push_new-IsDistinct xs (p ∷ ps) d = elim (Bool-cases (contains xs p)) [
  | inl old ↦ rw old (push_new-IsDistinct xs ps d)
  | inr fresh ↦ rw fresh (push_new-IsDistinct (xs ++ p ∷ []) ps (IsDistinct-snoc xs p fresh d))
]

contains-push_new :
    (xs ps : List Text) (p : Text) → contains (push_new xs ps) p ≡ (contains xs p || contains ps p)
unfolding push_new contains
contains-push_new xs [] p = ground arith
contains-push_new xs (q ∷ ps) p = elim (Bool-cases (contains xs q)) [
  | inl old ↦ rw old (contains-push_new xs ps p ∙ ground (arith, old, contains_same xs q p))
  | inr fresh ↦
      rw fresh (contains-push_new (xs ++ q ∷ []) ps p ∙ ground (arith, contains-append xs p q))
]

-- What an entry says of the scans it was made from.
pub record IsEntry (scans : List FraudScanInput) (entry : WalletEntry) : Type 0 where
  pub counted : entry.tx_count ≡ length scans
  pub summed : entry.volume_usdc ≡ total_amount scans
  pub distinct : IsDistinct entry.peers
  pub named : (p : Text) → contains entry.peers p ≡ named_peer p scans

new-IsEntry : IsEntry [] (entry_or_new none)
unfolding contains
new-IsEntry = record { counted = refl; summed = refl; distinct = tt; named = λ p. refl }

updated-IsEntry :
    (input : FraudScanInput) (scans : List FraudScanInput) (entry : WalletEntry)
    → IsEntry scans entry
    → IsEntry (input ∷ scans) (updated input entry)
updated-IsEntry input scans entry e = record {
  counted = ap suc e.counted;
  summed = ap (λ v. v +ℤ amount_of input.amount_usdc) e.summed;
  distinct = push_new-IsDistinct entry.peers (listed input.peer_wallets) e.distinct;
  named =
      λ p. contains-push_new entry.peers (listed input.peer_wallets) p ∙ ground (arith, e.named p);
}

noted-IsEntry :
    (w wallet : Text) (input : FraudScanInput) (scans : List FraudScanInput) (wallets : Wallets)
    → IsEntry (scans_of w scans) (entry_or_new (lookup w wallets))
    → IsEntry
        (if text_eq wallet w then input ∷ scans_of w scans else scans_of w scans)
        (entry_or_new (lookup w (noted input wallet wallets).0))
noted-IsEntry w wallet input scans wallets e =
    rw (lookup-insert wallet w (updated input (entry_or_new (lookup wallet wallets))) wallets)
      (elim (Bool-cases (text_eq wallet w)) [
        | inl same ↦ rw same (
            updated-IsEntry input (scans_of w scans) (entry_or_new (lookup wallet wallets)) (
              subst (λ k. IsEntry (scans_of w scans) (entry_or_new (lookup k wallets)))
                (sym ((text_eq_iff wallet w).0 same)) e))
        | inr other ↦ rw other e
      ])

note_wallet-IsEntry :
    (w : Text) (o : Option Text) (input : FraudScanInput) (scans : List FraudScanInput)
    (wallets : Wallets)
    → IsEntry (scans_of w scans) (entry_or_new (lookup w wallets))
    → IsEntry
        (if names_wallet w o then input ∷ scans_of w scans else scans_of w scans)
        (entry_or_new (lookup w (note_wallet input o wallets).0))
note_wallet-IsEntry w none input scans wallets e = e
note_wallet-IsEntry w (some wallet) input scans wallets e = elim (Bool-cases (is_empty wallet)) [
  | inl empty ↦ rw empty e
  | inr filled ↦ rw filled (noted-IsEntry w (lower wallet) input scans wallets e)
]

-- After any scans, from an empty graph, the entry of a wallet (an empty one where it is missing) tells the scans
-- that named the wallet in any spelling, and no others: their number, the sum of their amounts, and
-- exactly the peers that they named, each once.
pub graph_after-IsEntry :
    (w : Text) (scans : List FraudScanInput)
    → IsEntry (scans_of w scans) (entry_or_new (lookup w (graph_after scans)))
unfolding graph_after run_fraud_scan lookup
graph_after-IsEntry w [] = new-IsEntry
graph_after-IsEntry w (input ∷ earlier) =
    note_wallet-IsEntry w input.wallet_address input earlier (graph_after earlier)
      (graph_after-IsEntry w earlier)
