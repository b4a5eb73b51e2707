-- ===== src/WalletBlocklist/Members.antt =====
-- src/middleware/wallet-blocklist.ts: the table as a set of addresses.
use mathlib.Core.Path.{fun_ext}
use mathlib.Core.List.{append-nil}
use x402_agent_suite.Base.{
  ℕ, ◌≡◌, refl, ap, ◌∙◌, inl, inr, Bool, true, false, not, ◌&&◌, find, is_empty, List, [], ◌∷◌,
  ◌++◌, Option, none, some, Text, text_eq, text_eq_iff, trim, length, Dict, lookup, remove,
  lookup-remove, lookup-remove_self, ltb, Bool-cases, if◌then◌else◌, arith,
}
use x402_agent_suite.ProtocolCrypto.{constant_time_equal}
use x402_agent_suite.WalletBlocklist.{
  BlockRow, normalized, is_some, is_blocked, replace_row, row_of, WalletRequest, filled,
  extract_wallet, Verdict, next, blocklisted, wallet_blocklist_middleware, Admin, not_configured,
  unauthorized, granted, trimmed, not_text, given, AdminRequest, get_list, post_entry, delete_entry,
  require_admin, handle, admitted, handle_admin,
}

-- The addresses that are blocked, each in small letters and trimmed.
abbrev pub Members : Type 0
Members = Text → Bool

abbrev pub members : Dict BlockRow → Members
members table address = is_some (lookup address table)

abbrev pub update : Text → Bool → Members → Members
update key b set address = if text_eq key address then b else set address

-- What a granted request does to the set.
abbrev pub updated : AdminRequest → Members → Members
updated (get_list limit offset) set = set
updated (post_entry not_text reason blocked_by) set = set
updated (post_entry (given address) reason blocked_by) set =
    if ltb (length (trim address)) 10 then set else update (normalized address) true set
updated (delete_entry address) set = update (normalized address) false set

-- The request brings the secret that is configured: neither is empty, the white space around the one
-- configured left out, and their digests are equal.
abbrev pub brings_secret : (Text → Text) → Option Text → Option Text → Bool
brings_secret digest (some secret) (some p) =
    not (is_empty (trim secret)) && (not (is_empty p) && text_eq (digest (trim secret)) (digest p))
brings_secret digest _ _ = false

-- The first of the texts in the header, the body and the query that is not blank, trimmed.
abbrev pub given_text : Option Text → List Text
given_text none = []
given_text (some t) = trim t ∷ []

abbrev pub wallet_of : WalletRequest → Option Text
wallet_of r =
    find (λ t. not (is_empty t)) (given_text r.header ++ (given_text r.body ++ given_text r.query))

filled-find :
    (o rest : Option Text) (more : List Text)
    → rest ≡ find (λ t. not (is_empty t)) more
    → filled o rest ≡ find (λ t. not (is_empty t)) (given_text o ++ more)
filled-find none rest more e = e
filled-find (some t) rest more e = elim (Bool-cases (is_empty (trim t))) [
  | inl blank ↦ rw blank e
  | inr solid ↦ rw solid refl
]

extract_wallet_lem : (r : WalletRequest) → extract_wallet r ≡ wallet_of r
unfolding extract_wallet
extract_wallet_lem r =
    let last : filled r.query none ≡ find (λ t. not (is_empty t)) (given_text r.query) =
      filled-find r.query none [] refl
      ∙ ap (find (λ t. not (is_empty t))) (append-nil (given_text r.query)) in
    filled-find r.header _ _ (filled-find r.body _ _ last)

lookup-append :
    (j : Text) (row : BlockRow) (k : Text) (m : Dict BlockRow)
    → lookup k m ≡ none
    → lookup j (m ++ ((k, row) ∷ [])) ≡ (if text_eq k j then some row else lookup j m)
unfolding lookup
lookup-append j row k [] free = refl
lookup-append j row k ((i, w) ∷ m) free = elim (Bool-cases (text_eq i k)) [
  | inl same ↦ absurd (ground (arith, same, free))
  | inr other ↦ elim (Bool-cases (text_eq i j)) [
    | inl found ↦ rw found (elim (Bool-cases (text_eq k j)) [
      | inl both ↦ absurd (clash i j k found both other)
      | inr differ ↦ rw differ refl
    ])
    | inr later ↦ rw later (lookup-append j row k m (rw other at free))
  ]
]
  where
    clash : (i j k : Text) → text_eq i j ≡ true → text_eq k j ≡ true → text_eq i k ≡ false → ⊥
    clash i j k found both other =
        ground (arith, found, both, other, text_eq_iff i j, text_eq_iff k j, text_eq_iff i k)

lookup-replace_row :
    (k j : Text) (row : BlockRow) (m : Dict BlockRow)
    → lookup j (replace_row k row m) ≡ (if text_eq k j then some row else lookup j m)
lookup-replace_row k j row m =
    lookup-append j row k (remove k m) (lookup-remove_self k m) ∙ elim (Bool-cases (text_eq k j)) [
      | inl same ↦ rw same refl
      | inr other ↦ rw other (lookup-remove k j m ∙ rw other refl)
    ]

members-replace :
    (k : Text) (row : BlockRow) (m : Dict BlockRow)
    → members (replace_row k row m) ≡ update k true (members m)
members-replace k row m = fun_ext λ j.
    ap is_some (lookup-replace_row k j row m)
    ∙ elim (Bool-cases (text_eq k j)) [ inl same ↦ rw same refl | inr other ↦ rw other refl ]

members-remove : (k : Text) (m : Dict BlockRow) → members (remove k m) ≡ update k false (members m)
members-remove k m = fun_ext λ j.
    ap is_some (lookup-remove k j m)
    ∙ elim (Bool-cases (text_eq k j)) [ inl same ↦ rw same refl | inr other ↦ rw other refl ]

members-handle :
    (now : ℕ) (request : AdminRequest) (table : Dict BlockRow)
    → members (handle now request table).0 ≡ updated request (members table)
unfolding handle
members-handle now (get_list limit offset) table = refl
members-handle now (post_entry not_text reason blocked_by) table = refl
members-handle now (post_entry (given address) reason blocked_by) table =
    elim (Bool-cases (ltb (length (trim address)) 10)) [
      | inl short ↦ rw short refl
      | inr long ↦
          rw long (members-replace (normalized address) (row_of now reason blocked_by) table)
    ]
members-handle now (delete_entry address) table = elim (Bool-cases (is_blocked address table)) [
  | inl gone ↦ rw gone (members-remove (normalized address) table)
  | inr missing ↦ rw missing (members-remove (normalized address) table)
]

-- An admin request, the header that it brings, and when.
pub record Call : Type 0 where
  pub provided : Option Text
  pub now : ℕ
  pub request : AdminRequest

module _ (sha256_hex : Text → Text) (configured : Option Text) where
  unfoldable pub run : List Call → Dict BlockRow → Dict BlockRow
  unfolding handle_admin
  run [] table = table
  run (c ∷ cs) table =
      run cs (handle_admin sha256_hex configured c.provided c.now c.request table).0

  -- The same history on a set of addresses: a request without the secret does nothing.
  abbrev pub history : List Call → Members → Members
  history [] set = set
  history (c ∷ cs) set =
      history cs
        (if brings_secret sha256_hex configured c.provided then updated c.request set else set)

  abbrev decided : Admin → AdminRequest → Members → Members
  decided granted request set = updated request set
  decided not_configured request set = set
  decided unauthorized request set = set

  decided-by_secret :
      (provided : Option Text) (request : AdminRequest) (set : Members)
      → decided (require_admin sha256_hex configured provided) request set
        ≡ (if brings_secret sha256_hex configured provided then updated request set else set)
  unfolding require_admin constant_time_equal
  decided-by_secret provided request set = by_texts configured provided
    where
      by_texts :
          (o p : Option Text)
          → decided (require_admin sha256_hex o p) request set
            ≡ (if brings_secret sha256_hex o p then updated request set else set)
      by_texts none p = refl
      by_texts (some secret) none = elim (Bool-cases (is_empty (trim secret))) [
        | inl blank ↦ rw (decided, trimmed, blank) refl
        | inr solid ↦ rw (decided, trimmed, solid) refl
      ]
      by_texts (some secret) (some p) = elim (Bool-cases (is_empty (trim secret))) [
        | inl blank ↦ rw (decided, trimmed, blank) refl
        | inr solid ↦ elim (Bool-cases (is_empty p)) [
          | inl empty ↦ rw (decided, trimmed, solid, empty) refl
          | inr some_text ↦ elim (Bool-cases (text_eq (sha256_hex (trim secret)) (sha256_hex p))) [
            | inl same ↦ rw (decided, trimmed, solid, some_text, same) refl
            | inr other ↦ rw (decided, trimmed, solid, some_text, other) refl
          ]
        ]
      ]

  members-handle_admin :
      (c : Call) (table : Dict BlockRow)
      → members (handle_admin sha256_hex configured c.provided c.now c.request table).0 ≡ (
          if brings_secret sha256_hex configured c.provided
          then updated c.request (members table)
          else members table)
  unfolding handle_admin
  members-handle_admin c table =
      verdict (require_admin sha256_hex configured c.provided)
      ∙ decided-by_secret c.provided c.request (members table)
    where
      verdict :
          (a : Admin)
          → members (admitted a (handle c.now c.request table) table).0
            ≡ decided a c.request (members table)
      verdict granted = members-handle c.now c.request table
      verdict not_configured = refl
      verdict unauthorized = refl

  members-run :
      (cs : List Call) (table : Dict BlockRow) → members (run cs table) ≡ history cs (members table)
  unfolding run
  members-run [] table = refl
  members-run (c ∷ cs) table =
      members-run cs (handle_admin sha256_hex configured c.provided c.now c.request table).0
      ∙ ap (history cs) (members-handle_admin c table)

  -- What a set of addresses says of a request that names a wallet.
  abbrev pub judged : Members → Option Text → Verdict
  judged set none = next
  judged set (some wallet) = if set (normalized wallet) then blocklisted wallet else next

  -- The table implements a set of addresses in small letters: after any admin requests the middleware
  -- refuses a request exactly when the wallet that it names, the first text of header, body and query that
  -- is not blank, is in the set that the history leaves. In the history a request that does not bring the
  -- configured secret (compared by digests, neither text empty) does nothing; of the others an entry puts its
  -- address in, if it has ten characters or more, and a deletion takes it out.
  pub middleware-history :
      (cs : List Call) (table : Dict BlockRow) (r : WalletRequest)
      → wallet_blocklist_middleware r (run cs table)
        ≡ judged (history cs (members table)) (wallet_of r)
  unfolding wallet_blocklist_middleware
  middleware-history cs table r =
      by_wallet (extract_wallet r)
      ∙ (ap (λ set. judged set (extract_wallet r)) (members-run cs table)
          ∙ ap (judged (history cs (members table))) (extract_wallet_lem r))
    where
      by_wallet :
          (o : Option Text)
          → (elim o [
            | none ↦ next
            | some wallet ↦ if is_blocked wallet (run cs table) then blocklisted wallet else next
          ])
            ≡ judged (members (run cs table)) o
      by_wallet none = refl
      by_wallet (some wallet) = refl
