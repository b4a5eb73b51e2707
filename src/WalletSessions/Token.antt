-- ===== src/WalletSessions/Token.antt =====
-- src/lib/wallet-sessions.ts: which tokens `verifyToken` accepts.
use mathlib.Core.List.{append-nil, append_assoc}
use x402_agent_suite.Base.{
  split_dots, NoDot, split_dots-NoDot, split_dots-part, ℕ, ◌≡◌, refl, sym, ap, ◌∙◌, ◌≢◌, inl, inr,
  List, [], ◌∷◌, ◌++◌, some, Text, text_eq, text_eq_iff, text_eq_refl, Bool-cases, some_inj, ◌==◌,
  ==_iff, arith,
}
use x402_agent_suite.WalletSessions.{TokenCrypto, verify_parts, sign_token, verify_token}

split_dots-two : (s t : Text) → NoDot s → NoDot t → split_dots [] (s ++ (b'.' ∷ t)) ≡ s ∷ t ∷ []
split_dots-two s t h k =
    split_dots-part [] s t h ∙ ap (λ parts. s ∷ parts) (split_dots-NoDot [] t k)

-- What the coding and the HMAC are documented to do.
pub record IsCodec (k : TokenCrypto) : Type 0 where
  pub decode-encode : (id : Text) → k.decode (k.encode id) ≡ id
  pub encode-NoDot : (id : Text) → NoDot (k.encode id)
  pub mac-NoDot : (id : Text) → NoDot (k.mac id)

-- The token that is issued for a session id is accepted, and leads back to that id.
pub verify_token-sign_token :
    (k : TokenCrypto) → IsCodec k → (id : Text) → verify_token k (sign_token k id) ≡ some id
unfolding verify_token sign_token
verify_token-sign_token k c id =
    ap (verify_parts k)
      (split_dots-two (k.encode id) (k.mac id) (c.encode-NoDot id) (c.mac-NoDot id))
    ∙ rw c.decode-encode (rw (text_eq_refl (k.mac id)))

-- The parts joined again by dots.
abbrev join_dots : List Text → Text
join_dots [] = []
join_dots (a ∷ []) = a
join_dots (a ∷ b ∷ parts) = a ++ (b'.' ∷ join_dots (b ∷ parts))

join_dots-cons :
    (cur : Text) (parts : List Text)
    → parts ≢ []
    → join_dots (cur ∷ parts) ≡ cur ++ (b'.' ∷ join_dots parts)
join_dots-cons cur [] h = absurd (h refl)
join_dots-cons cur (a ∷ parts) h = refl

split_dots-ne-nil : (cur s : Text) → split_dots cur s ≢ []
unfolding split_dots
split_dots-ne-nil cur [] e = cc
split_dots-ne-nil cur (c ∷ s) e = ground (arith, split_dots-ne-nil (cur ++ c ∷ []) s)

join_dots-split_dots : (cur s : Text) → join_dots (split_dots cur s) ≡ cur ++ s
unfolding split_dots
join_dots-split_dots cur [] = sym (append-nil cur)
join_dots-split_dots cur (c ∷ s) = elim (Bool-cases (c == b'.')) [
  | inl hit ↦ rw hit (
      join_dots-cons cur (split_dots [] s) (split_dots-ne-nil [] s)
      ∙ ap (λ d. cur ++ d)
          (ap (λ r. b'.' ∷ r) (join_dots-split_dots [] s)
            ∙ ap (λ (d : ℕ). d ∷ s) (sym ((==_iff c b'.').0 hit))))
  | inr miss ↦ rw miss (join_dots-split_dots (cur ++ c ∷ []) s ∙ append_assoc cur (c ∷ []) s)
]

verify_parts_sound :
    (k : TokenCrypto) (parts : List Text) (id : Text)
    → verify_parts k parts ≡ some id
    → (encoded : Text) × (parts ≡ encoded ∷ k.mac id ∷ []) × (k.decode encoded ≡ id)
verify_parts_sound k [] id h = cc
verify_parts_sound k (a ∷ []) id h = cc
verify_parts_sound k (a ∷ b ∷ c ∷ rest) id h = cc
verify_parts_sound k (encoded ∷ sig ∷ []) id h =
    elim (Bool-cases (text_eq sig (k.mac (k.decode encoded)))) [
      | inl good ↦
          let same : k.decode encoded ≡ id = some_inj (rw good at h) in
          (
            encoded,
            ap (λ x. encoded ∷ x ∷ [])
                ((text_eq_iff sig (k.mac (k.decode encoded))).0 good ∙ ap k.mac same),
            same,
          )
      | inr bad ↦ cc (rw bad at h)
    ]

-- A token is accepted for an id only if it is a coding of that id, a dot and the HMAC of that id.
pub verify_token_sound :
    (k : TokenCrypto) (token id : Text)
    → verify_token k token ≡ some id
    → (encoded : Text) × (token ≡ encoded ++ (b'.' ∷ k.mac id)) × (k.decode encoded ≡ id)
unfolding verify_token
verify_token_sound k token id h =
    let (encoded, parts, same) = verify_parts_sound k (split_dots [] token) id h in
    (encoded, sym (join_dots-split_dots [] token) ∙ ap join_dots parts, same)
