-- ===== src/WalletBlocklist.antt =====
-- src/middleware/wallet-blocklist.ts: the table wallet_blocklist, the middleware that refuses listed
-- wallets, and the admin routes. Times are milliseconds. The clock, the environment variable
-- ADMIN_SECRET and SHA-256 are arguments; log lines are left out.
mod Members
mod Pages
mod Examples
use x402_agent_suite.Base.{
  ℕ, ◌+◌, Bool, true, false, not, List, [], ◌∷◌, ◌++◌, map, Option, none, some, Text, is_empty,
  lower, trim, length, take, drop, Dict, lookup, remove, ltb, leb, min, if◌then◌else◌,
}
use x402_agent_suite.ProtocolCrypto.{constant_time_equal}

-- A row, which stands under its address.
pub record BlockRow : Type 0 where
  pub reason : Option Text
  pub blocked_at : ℕ
  pub blocked_by : Option Text

pub record BlockedWallet : Type 0 where
  pub address : Text
  pub reason : Option Text
  pub blocked_at : ℕ
  pub blocked_by : Option Text

abbrev pub row_to_wallet : Text × BlockRow → BlockedWallet
row_to_wallet (address, row) = record {
  address = address;
  reason = row.reason;
  blocked_at = row.blocked_at;
  blocked_by = row.blocked_by;
}

-- `address.toLowerCase().trim()`.
abbrev pub normalized : Text → Text
normalized address = trim (lower address)

abbrev pub is_some {ℓ} : {A : Type ℓ} → Option A → Bool
is_some none = false
is_some (some a) = true

unfoldable pub is_blocked : Text → Dict BlockRow → Bool
is_blocked address table = is_some (lookup (normalized address) table)

-- `INSERT OR REPLACE`: the old row goes, the new one stands last.
abbrev pub replace_row : Text → BlockRow → Dict BlockRow → Dict BlockRow
replace_row key row table = remove key table ++ ((key, row) ∷ [])

abbrev pub row_of : ℕ → Option Text → Option Text → BlockRow
row_of now reason blocked_by = record { reason = reason; blocked_at = now; blocked_by = blocked_by }

unfoldable pub add_to_blocklist :
    ℕ → Text → Option Text → Option Text → Dict BlockRow → Dict BlockRow × BlockedWallet
add_to_blocklist now address reason blocked_by table =
    let row = row_of now reason blocked_by in
    (replace_row (normalized address) row table, row_to_wallet (normalized address, row))

unfoldable pub remove_from_blocklist : Text → Dict BlockRow → Dict BlockRow × Bool
unfolding is_blocked
remove_from_blocklist address table = (remove (normalized address) table, is_blocked address table)

-- `ORDER BY blocked_at DESC`: rows of one time stay in the order of the table.
unfoldable pub insert_by_time : Text × BlockRow → Dict BlockRow → Dict BlockRow
insert_by_time e [] = e ∷ []
insert_by_time e (f ∷ rows) =
    if ltb e.1.blocked_at f.1.blocked_at then f ∷ insert_by_time e rows else e ∷ f ∷ rows

unfoldable pub by_time : Dict BlockRow → Dict BlockRow
unfolding insert_by_time
by_time [] = []
by_time (e ∷ rows) = insert_by_time e (by_time rows)

-- `Number(x)` of a query parameter that is a whole number, or is none.
pub data QueryNumber : Type 0 where
  nan : QueryNumber
  whole : ℕ → QueryNumber
  -- `minus n` is -(n + 1).
  minus : ℕ → QueryNumber

-- `Math.min(Number(req.query.limit) || 200, 1000)`.
unfoldable pub page_limit : QueryNumber → QueryNumber
page_limit nan = whole 200
page_limit (whole n) = if ltb 0 n then whole (min n 1000) else whole 200
page_limit (minus n) = minus n

-- `Number(req.query.offset) || 0`.
abbrev pub page_offset : QueryNumber → QueryNumber
page_offset nan = whole 0
page_offset n = n

-- `LIMIT ? OFFSET ?`: a negative limit is no limit, a negative offset is 0.
abbrev pub limited {ℓ} : {A : Type ℓ} → QueryNumber → List A → List A
limited (whole n) rows = take n rows
limited _ rows = rows

abbrev pub skipped {ℓ} : {A : Type ℓ} → QueryNumber → List A → List A
skipped (whole n) rows = drop n rows
skipped _ rows = rows

unfoldable pub list_blocklist : QueryNumber → QueryNumber → Dict BlockRow → List BlockedWallet
unfolding by_time
list_blocklist limit offset table =
    map row_to_wallet (limited limit (skipped offset (by_time table)))

unfoldable pub count_blocklist : Dict BlockRow → ℕ
count_blocklist table = length table

-- The places where a wallet may stand, each if it is a text.
pub record WalletRequest : Type 0 where
  pub header : Option Text
  pub body : Option Text
  pub query : Option Text

abbrev pub filled : Option Text → Option Text → Option Text
filled none rest = rest
filled (some t) rest = if is_empty (trim t) then rest else some (trim t)

unfoldable pub extract_wallet : WalletRequest → Option Text
extract_wallet r = filled r.header (filled r.body (filled r.query none))

pub data Verdict : Type 0 where
  next : Verdict
  -- 403.
  blocklisted : Text → Verdict

unfoldable pub wallet_blocklist_middleware : WalletRequest → Dict BlockRow → Verdict
unfolding is_blocked extract_wallet
wallet_blocklist_middleware r table = elim (extract_wallet r) [
  | none ↦ next
  | some wallet ↦ if is_blocked wallet table then blocklisted wallet else next
]

pub data Admin : Type 0 where
  -- 503 and 401.
  not_configured unauthorized granted : Admin

abbrev pub trimmed : Option Text → Option Text
trimmed none = none
trimmed (some t) = if is_empty (trim t) then none else some (trim t)

-- A body's `address`, which may be anything.
pub data AddressField : Type 0 where
  not_text : AddressField
  given : Text → AddressField

pub data AdminRequest : Type 0 where
  get_list : QueryNumber → QueryNumber → AdminRequest
  post_entry : AddressField → Option Text → Option Text → AdminRequest
  delete_entry : Text → AdminRequest

pub data AdminResponse : Type 0 where
  denied : Admin → AdminResponse
  -- 200: total, limit, offset, entries.
  entries : ℕ → QueryNumber → QueryNumber → List BlockedWallet → AdminResponse
  -- 201, 400, 404 and 200.
  added : BlockedWallet → AdminResponse
  address_required address_not_found : AdminResponse
  removed : Text → AdminResponse

module _ (sha256_hex : Text → Text) where
  -- The configured secret, and the header x-admin-secret (the first, if there are several).
  unfoldable pub require_admin : Option Text → Option Text → Admin
  unfolding constant_time_equal
  require_admin configured provided = elim (trimmed configured) [
    | none ↦ not_configured
    | some secret ↦ elim provided [
      | none ↦ unauthorized
      | some p ↦
          if is_empty p
          then unauthorized
          else if constant_time_equal sha256_hex secret p
          then granted
          else unauthorized
    ]
  ]

abbrev pub post_blocklist :
    ℕ → AddressField → Option Text → Option Text → Dict BlockRow → Dict BlockRow × AdminResponse
post_blocklist now not_text reason blocked_by table = (table, address_required)
post_blocklist now (given address) reason blocked_by table =
    if ltb (length (trim address)) 10
    then (table, address_required)
    else let (table', entry) = add_to_blocklist now address reason blocked_by table in
      (table', added entry)

unfoldable pub handle : ℕ → AdminRequest → Dict BlockRow → Dict BlockRow × AdminResponse
unfolding add_to_blocklist remove_from_blocklist list_blocklist count_blocklist page_limit
handle now (get_list limit offset) table =
    let l = page_limit limit in
    let o = page_offset offset in
    (table, entries (count_blocklist table) l o (list_blocklist l o table))
handle now (post_entry address reason blocked_by) table =
    post_blocklist now address reason blocked_by table
handle now (delete_entry address) table =
    let (table', gone) = remove_from_blocklist address table in
    if gone then (table', removed address) else (table', address_not_found)

-- `if (!requireAdmin(req, res)) return;`.
abbrev pub admitted :
    Admin → Dict BlockRow × AdminResponse → Dict BlockRow → Dict BlockRow × AdminResponse
admitted granted done table = done
admitted not_configured done table = (table, denied not_configured)
admitted unauthorized done table = (table, denied unauthorized)

-- An admin request with the secret that it brings.
unfoldable pub handle_admin :
    (Text → Text)
    → Option Text
    → Option Text
    → ℕ
    → AdminRequest
    → Dict BlockRow
    → Dict BlockRow × AdminResponse
unfolding require_admin handle
handle_admin sha256_hex configured provided now request table =
    admitted (require_admin sha256_hex configured provided) (handle now request table) table
