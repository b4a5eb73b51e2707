-- ===== src/ProtocolCrypto/Examples.antt =====
-- Merkle roots of a few leaves, and the theorems at them. The hash below puts brackets round a text.
use x402_agent_suite.Base.{◌≡◌, refl, List, [], ◌∷◌, ◌++◌, some, Text, text, text_eq, true}
use x402_agent_suite.ProtocolCrypto.{merkle_root, verify_hmac}
use x402_agent_suite.ProtocolCrypto.Merkle.{Sibling, climb, merkle_root-includes, merkle_root-odd}

abbrev bracketed : Text → Text
bracketed t = text "(" ++ (t ++ text ")")

abbrev three : List Text
three = text "a" ∷ text "b" ∷ text "c" ∷ []

root_of_three : merkle_root bracketed three ≡ some (text "(((a):(b)):((c):(c)))")
unfolding merkle_root
root_of_three = refl

signature_accepted : verify_hmac bracketed bracketed (text "x") (text "(x)") ≡ true
unfolding verify_hmac text_eq
signature_accepted = refl

merkle_root-includes_example :
    (root : Text) × (path : List Sibling) × (merkle_root bracketed three ≡ some root)
    × (climb bracketed (text "(b)") path ≡ root)
merkle_root-includes_example = merkle_root-includes bracketed three 1 (text "b") refl

merkle_root-odd_example :
    merkle_root bracketed (text "a" ∷ text "b" ∷ text "c" ∷ [])
    ≡ merkle_root bracketed (text "a" ∷ text "b" ∷ text "c" ∷ text "c" ∷ [])
merkle_root-odd_example = merkle_root-odd bracketed (text "a") (text "b" ∷ []) (text "c") refl
