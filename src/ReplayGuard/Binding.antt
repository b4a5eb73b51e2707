-- ===== src/ReplayGuard/Binding.antt =====
-- src/protocol/replay-guard.ts: the key under which the nonce of a binding is consumed.
use x402_agent_suite.Base.{
  ℕ, zero, suc, ◌≤◌, ◌≡◌, refl, ap, ◌∙◌, true, false, [], ◌∷◌, ◌++◌, Text, text, is_empty, trim,
  trim_solid, is_space, IsSolid, keep, take, length, arith,
}
use x402_agent_suite.NonceStore.{is_untracked}
use x402_agent_suite.ReplayGuard.{is_hex, safe_nonce}

abbrev pub IsHex : Text → Type 0
IsHex [] = Unit
IsHex (c ∷ s) = (is_hex c ≡ true) × IsHex s

-- What `createReplayBinding` takes as a nonce: 32 hex digits.
abbrev pub IsNonce : Text → Type 0
IsNonce n = IsHex n × (length n ≡ 32)

abbrev pub proto_key : Text → Text
proto_key nonce = text "proto:" ++ safe_nonce nonce

keep-IsHex : (s : Text) → IsHex s → keep is_hex s ≡ s
keep-IsHex [] h = refl
keep-IsHex (c ∷ s) h = rw h.0 (ap (λ t. c ∷ t) (keep-IsHex s h.1))

pub take_short : (n : ℕ) (s : Text) → length s ≤ n → take n s ≡ s
take_short zero [] h = refl
take_short (suc n) [] h = refl
take_short zero (c ∷ s) h = ground arith
take_short (suc n) (c ∷ s) h = ap (λ t. c ∷ t) (take_short n s (omega (arith, h)))

hex-solid : (c : ℕ) → is_hex c ≡ true → is_space c ≡ false
unfolding is_space
hex-solid c h = ground arith

IsHex-IsSolid : (s : Text) → IsHex s → IsSolid s
IsHex-IsSolid [] h = tt
IsHex-IsSolid (c ∷ s) h = (hex-solid c h.0, IsHex-IsSolid s h.1)

pub safe_nonce-id : (n : Text) → IsNonce n → safe_nonce n ≡ n
unfolding safe_nonce
safe_nonce-id n (hex, len) = ap (take 64) (keep-IsHex n hex) ∙ take_short 64 n (omega (arith, len))

pub safe_nonce-filled : (n : Text) → IsNonce n → is_empty (safe_nonce n) ≡ false
safe_nonce-filled n h = rw (safe_nonce-id n h) (filled n h.1)
  where
    filled : (n : Text) → length n ≡ 32 → is_empty n ≡ false
    filled [] e = ground arith
    filled (c ∷ n) e = refl

trim-proto_key : (n : Text) → IsNonce n → trim (proto_key n) ≡ proto_key n
unfolding is_space
trim-proto_key n h =
    trim_solid (proto_key n)
      (rw (safe_nonce-id n h) (refl, (refl, (refl, (refl, (refl, (refl, IsHex-IsSolid n h.0)))))))

-- The key of a nonce is long enough to be tracked.
pub proto_key-tracked : (n : Text) → IsNonce n → is_untracked (proto_key n) ≡ false
unfolding is_untracked
proto_key-tracked n h = rw (trim-proto_key n h, safe_nonce-id n h) (rw h.1 refl)
