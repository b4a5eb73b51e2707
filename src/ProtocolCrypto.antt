-- ===== src/ProtocolCrypto.antt =====
-- src/protocol/crypto.ts: comparison in constant time and the Merkle root. SHA-256 (hex) and the HMAC
-- under the configured secret are functions of node and are arguments.
mod Merkle
mod Examples
use x402_agent_suite.Base.{
  ℕ, zero, suc, Bool, List, [], ◌∷◌, ◌++◌, map, Option, none, some, Text, text, text_eq, length,
}

module _ (sha256_hex : Text → Text) where
  -- The digests are compared: two texts are taken as equal when their digests are.
  unfoldable pub constant_time_equal : Text → Text → Bool
  constant_time_equal a b = text_eq (sha256_hex a) (sha256_hex b)

  unfoldable pub verify_hmac : (Text → Text) → Text → Text → Bool
  unfolding constant_time_equal
  verify_hmac hmac_sign payload signature = constant_time_equal (hmac_sign payload) signature

  abbrev pub parent : Text → Text → Text
  parent left right = sha256_hex (left ++ (b':' ∷ right))

  -- The `for` loop over one layer: the last node of an odd layer is its own sibling.
  unfoldable pub next_layer : List Text → List Text
  next_layer [] = []
  next_layer (x ∷ []) = parent x x ∷ []
  next_layer (x ∷ y ∷ rest) = parent x y ∷ next_layer rest

  -- `while (layer.length > 1)`, on fuel; `layer[0]!` of an empty layer does not exist.
  unfoldable pub reduce_layers : ℕ → List Text → Option Text
  reduce_layers zero layer = none
  reduce_layers (suc fuel) [] = none
  reduce_layers (suc fuel) (x ∷ []) = some x
  reduce_layers (suc fuel) (x ∷ y ∷ rest) = reduce_layers fuel (next_layer (x ∷ y ∷ rest))

  unfoldable pub merkle_root : List Text → Option Text
  unfolding reduce_layers next_layer
  merkle_root [] = some (sha256_hex (text "empty"))
  merkle_root (l ∷ leaves) = reduce_layers (length (l ∷ leaves)) (map sha256_hex (l ∷ leaves))
