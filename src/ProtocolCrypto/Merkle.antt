-- ===== src/ProtocolCrypto/Merkle.antt =====
-- src/protocol/crypto.ts: the loop of `merkleRoot`, and which leaves a root stands for.
use mathlib.Core.List.{map-append}
use x402_agent_suite.Base.{
  ℕ, zero, suc, ◌+◌, ◌*◌, ◌%◌, ◌≤◌, ◌<◌, ◌≡◌, refl, sym, ap, ◌∙◌, List, [], ◌∷◌, ◌++◌, map, some,
  Text, length, length-append, length-map, get_elem?, arith,
}
use x402_agent_suite.ProtocolCrypto.{parent, next_layer, reduce_layers, merkle_root}

-- A step up the tree: the sibling stands right of the node, or left of it.
pub data Sibling : Type 0 where
  right left : Text → Sibling

get_elem?-map :
    (f : Text → Text) (xs : List Text) (i : ℕ) (x : Text)
    → get_elem? xs i ≡ some x
    → get_elem? (map f xs) i ≡ some (f x)
get_elem?-map f [] i x h = cc
get_elem?-map f (y ∷ xs) zero x h = cc
get_elem?-map f (y ∷ xs) (suc i) x h = get_elem?-map f xs i x h

module _ (sha256_hex : Text → Text) where
  -- The hash at the top of a path of siblings.
  abbrev pub climb : Text → List Sibling → Text
  climb node [] = node
  climb node (right s ∷ path) = climb (parent sha256_hex node s) path
  climb node (left s ∷ path) = climb (parent sha256_hex s node) path

  length-next_layer : (xs : List Text) → 2 * length (next_layer sha256_hex xs) ≤ length xs + 1
  unfolding next_layer
  length-next_layer [] = omega arith
  length-next_layer (x ∷ []) = omega arith
  length-next_layer (x ∷ y ∷ xs) = omega (arith, length-next_layer xs)

  next_layer-pos : (x : Text) (xs : List Text) → 0 < length (next_layer sha256_hex (x ∷ xs))
  unfolding next_layer
  next_layer-pos x [] = omega arith
  next_layer-pos x (y ∷ xs) = omega arith

  -- Fuel of the length of the layer is enough, and more changes nothing.
  reduce_layers-total :
      (f : ℕ) (xs : List Text)
      → 0 < length xs
      → length xs ≤ f
      → (r : Text) × (reduce_layers sha256_hex f xs ≡ some r)
  unfolding reduce_layers
  reduce_layers-total zero xs p h = absurd (omega arith)
  reduce_layers-total (suc f) [] p h = absurd (omega arith)
  reduce_layers-total (suc f) (x ∷ []) p h = (x, refl)
  reduce_layers-total (suc f) (x ∷ y ∷ xs) p h =
      reduce_layers-total f (next_layer sha256_hex (x ∷ y ∷ xs)) (next_layer-pos x (y ∷ xs))
        (let shorter = length-next_layer (x ∷ y ∷ xs) in omega (arith, shorter))

  reduce_layers-fuel :
      (f g : ℕ) (xs : List Text)
      → length xs ≤ f
      → length xs ≤ g
      → 0 < length xs
      → reduce_layers sha256_hex f xs ≡ reduce_layers sha256_hex g xs
  unfolding reduce_layers
  reduce_layers-fuel zero g xs h k p = absurd (omega arith)
  reduce_layers-fuel (suc f) zero xs h k p = absurd (omega arith)
  reduce_layers-fuel (suc f) (suc g) [] h k p = refl
  reduce_layers-fuel (suc f) (suc g) (x ∷ []) h k p = refl
  reduce_layers-fuel (suc f) (suc g) (x ∷ y ∷ xs) h k p =
      let shorter = length-next_layer (x ∷ y ∷ xs) in
      reduce_layers-fuel f g (next_layer sha256_hex (x ∷ y ∷ xs)) (omega (arith, shorter))
        (omega (arith, shorter)) (next_layer-pos x (y ∷ xs))

  -- The node at a place has its parent at half the place in the next layer.
  step_up :
      (xs : List Text) (i : ℕ) (x : Text)
      → get_elem? xs i ≡ some x
      → (s : Sibling) × (j : ℕ) × (get_elem? (next_layer sha256_hex xs) j ≡ some (climb x (s ∷ [])))
  unfolding next_layer
  step_up [] i x h = absurd (ground (arith, h))
  step_up (a ∷ []) zero x h = (right a, 0, cc)
  step_up (a ∷ []) (suc i) x h = absurd (ground (arith, h))
  step_up (a ∷ b ∷ xs) zero x h = (right b, 0, cc)
  step_up (a ∷ b ∷ xs) (suc zero) x h = (left a, 0, cc)
  step_up (a ∷ b ∷ xs) (suc (suc i)) x h = let (s, j, e) = step_up xs i x h in (s, suc j, e)

  reduce_layers-path :
      (f : ℕ) (xs : List Text) (i : ℕ) (x r : Text)
      → get_elem? xs i ≡ some x
      → reduce_layers sha256_hex f xs ≡ some r
      → (path : List Sibling) × (climb x path ≡ r)
  unfolding reduce_layers
  reduce_layers-path zero xs i x r h e = absurd (ground (arith, e))
  reduce_layers-path (suc f) [] i x r h e = absurd (ground (arith, e))
  reduce_layers-path (suc f) (a ∷ []) zero x r h e = ([], cc)
  reduce_layers-path (suc f) (a ∷ []) (suc i) x r h e = absurd (ground (arith, h))
  reduce_layers-path (suc f) (a ∷ b ∷ xs) i x r h e =
      let (s, j, up) = step_up (a ∷ b ∷ xs) i x h in
      let (path, top) =
        reduce_layers-path f (next_layer sha256_hex (a ∷ b ∷ xs)) j (climb x (s ∷ [])) r up e in
      (s ∷ path, climb-cons x s path ∙ top)
    where
      climb-cons :
          (x : Text) (s : Sibling) (path : List Sibling)
          → climb x (s ∷ path) ≡ climb (climb x (s ∷ [])) path
      climb-cons x (right t) path = refl
      climb-cons x (left t) path = refl

  next_layer-pairs :
      (xs ys : List Text)
      → length xs % 2 ≡ 0
      → next_layer sha256_hex (xs ++ ys) ≡ next_layer sha256_hex xs ++ next_layer sha256_hex ys
  unfolding next_layer
  next_layer-pairs [] ys even = refl
  next_layer-pairs (x ∷ []) ys even = absurd (omega (arith, even))
  next_layer-pairs (x ∷ y ∷ xs) ys even =
      ap (λ r. parent sha256_hex x y ∷ r) (next_layer-pairs xs ys (omega (arith, even)))

  -- The layer above an odd layer is that of the layer with its last node twice.
  next_layer-odd :
      (xs : List Text) (c : Text)
      → length xs % 2 ≡ 0
      → next_layer sha256_hex (xs ++ (c ∷ [])) ≡ next_layer sha256_hex (xs ++ (c ∷ c ∷ []))
  next_layer-odd xs c even =
      next_layer-pairs xs (c ∷ []) even ∙ (last c ∙ sym (next_layer-pairs xs (c ∷ c ∷ []) even))
    where
      last :
          (c : Text)
          → next_layer sha256_hex xs ++ next_layer sha256_hex (c ∷ [])
            ≡ next_layer sha256_hex xs ++ next_layer sha256_hex (c ∷ c ∷ [])
      last c = unfold next_layer in refl

  -- Every list of leaves has a root, and the root commits to each of them: the hash of the leaf at any
  -- place, joined with a list of siblings one after the other, gives the root.
  pub merkle_root-includes :
      (leaves : List Text) (i : ℕ) (l : Text)
      → get_elem? leaves i ≡ some l
      → (root : Text) × (path : List Sibling) × (merkle_root sha256_hex leaves ≡ some root)
        × (climb (sha256_hex l) path ≡ root)
  unfolding merkle_root
  merkle_root-includes [] i l h = absurd (ground (arith, h))
  merkle_root-includes (a ∷ leaves) i l h =
      let hashed = map sha256_hex (a ∷ leaves) in
      let same = length-map sha256_hex (a ∷ leaves) in
      let (root, e) =
        reduce_layers-total (length (a ∷ leaves)) hashed (omega (arith, same))
          (omega (arith, same)) in
      let (path, top) =
        reduce_layers-path (length (a ∷ leaves)) hashed i (sha256_hex l) root
          (get_elem?-map sha256_hex (a ∷ leaves) i l h) e in
      (root, path, e, top)

  -- The number of leaves is not committed to: of an odd number of leaves, at least three, the last may be
  -- given twice, and the root stays the same.
  pub merkle_root-odd :
      (a : Text) (leaves : List Text) (c : Text)
      → length (a ∷ leaves) % 2 ≡ 0
      → merkle_root sha256_hex ((a ∷ leaves) ++ (c ∷ []))
        ≡ merkle_root sha256_hex ((a ∷ leaves) ++ (c ∷ c ∷ []))
  unfolding merkle_root
  merkle_root-odd a [] c even = absurd (omega (arith, even))
  merkle_root-odd a (b ∷ leaves) c even =
      let hashes = map sha256_hex leaves in
      let h = sha256_hex c in
      let top = parent sha256_hex (sha256_hex a) (sha256_hex b) in
      let twice = leaves ++ (c ∷ c ∷ []) in
      let same = length-map sha256_hex leaves in
      let layers : next_layer sha256_hex (map sha256_hex (leaves ++ (c ∷ [])))
          ≡ next_layer sha256_hex (map sha256_hex twice) =
        ap (next_layer sha256_hex) (map-append sha256_hex leaves (c ∷ []))
        ∙ (next_layer-odd hashes h (omega (arith, even, same))
            ∙ sym (ap (next_layer sha256_hex) (map-append sha256_hex leaves (c ∷ c ∷ [])))) in
      let shorter = length-next_layer (map sha256_hex twice) in
      let mapped = length-map sha256_hex twice in
      let one = length-append leaves (c ∷ []) in
      let two = length-append leaves (c ∷ c ∷ []) in
      ap (λ n. reduce_layers sha256_hex (suc (length (leaves ++ (c ∷ [])))) (top ∷ n)) layers
      ∙ reduce_layers-fuel (suc (length (leaves ++ (c ∷ [])))) (suc (length twice))
          (top ∷ next_layer sha256_hex (map sha256_hex twice))
          (omega (arith, shorter, mapped, one, two)) (omega (arith, shorter, mapped, one, two))
          (omega arith)
