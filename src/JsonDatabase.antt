-- ===== src/JsonDatabase.antt =====
-- src/lib/db.ts: JsonDatabase, which stands in for SQLite where the native module is missing. A statement
-- is recognised by parts of its text. The clock is an argument, in seconds; the file, which is a copy of
-- the data, is left out.
mod Queries
mod Tables
mod Ledger
mod Misread
mod Examples
use x402_agent_suite.Base.{
  ℕ, zero, suc, ◌+◌, Bool, true, false, not, ◌&&◌, ◌||◌, List, [], ◌∷◌, ◌++◌, Option, none, some,
  Text, text, text_eq, is_empty, lower, trim, is_space, starts_with, includes, Dict, lookup, insert,
  keep, keep_entries, length, number, show, ltb, ◌==◌, if◌then◌else◌,
}

-- A bound value.
pub data Value : Type 0 where
  str : Text → Value
  num : ℕ → Value
  null undefined : Value

-- A number; `none` is NaN.
abbrev pub Num : Type 0
Num = Option ℕ

-- `String(v)`, `Number(v)` and the truth of a value.
unfoldable pub to_string : Value → Text
to_string (str t) = t
to_string (num n) = show n
to_string null = text "null"
to_string undefined = text "undefined"

unfoldable pub to_number : Value → Num
to_number (str t) = number t
to_number (num n) = some n
to_number null = some 0
to_number undefined = none

abbrev pub is_truthy : Value → Bool
is_truthy (str t) = not (is_empty t)
is_truthy (num n) = ltb 0 n
is_truthy null = false
is_truthy undefined = false

-- `v ? Number(v) : null`.
abbrev pub number_or_null : Value → Option Num
number_or_null v = if is_truthy v then some (to_number v) else none

-- `const [a, b, ..] = args`.
abbrev pub arg : List Value → ℕ → Value
arg [] i = undefined
arg (v ∷ args) zero = v
arg (v ∷ args) (suc i) = arg args i

pub record SpendEntry : Type 0 where
  pub id : ℕ
  pub agent_id : Text
  pub amount_usdc : Num
  pub day_key : Text
  pub created_at : ℕ

pub record NonceEntry : Type 0 where
  pub nonce : Text
  pub network : Text
  pub used_at : ℕ

pub record MppEntry : Type 0 where
  pub session_id : Text
  pub agent_id : Text
  pub budget_usdc : Num
  pub spent_usdc : Num
  pub status : Text
  pub created_at : Num
  pub closed_at : Option Num
  pub payload : Text

pub record EscrowEntry : Type 0 where
  pub escrow_id : Text
  pub buyer_agent_id : Text
  pub seller_agent_id : Text
  pub amount_usdc : Num
  pub condition_hash : Text
  pub status : Text
  pub created_at : Num
  pub released_at : Option Num
  pub payload : Text

pub record AttestationEntry : Type 0 where
  pub id : Text
  pub agent_id : Text
  pub wallet_address : Text
  pub payload : Text
  pub hmac_signature : Text
  pub created_at : ℕ
  pub expires_at : Option Num
  pub revoked : Bool

pub record JsonData : Type 0 where
  pub attestations : Dict AttestationEntry
  pub spend_ledger : List SpendEntry
  pub mpp_sessions : Dict MppEntry
  pub escrow_records : Dict EscrowEntry
  pub used_nonces : Dict NonceEntry

unfoldable pub data_size : JsonData → ℕ
data_size d =
    length d.attestations
    + length d.spend_ledger
    + length d.mpp_sessions
    + length d.escrow_records
    + length d.used_nonces

-- `query.trim().replace(/\s+/g, " ")`: runs of white space become one blank.
unfoldable pub squeeze : Text → Text
unfolding is_space
squeeze [] = []
squeeze (c ∷ []) = (if is_space c then b' ' else c) ∷ []
squeeze (c ∷ d ∷ s) =
    let rest = squeeze (d ∷ s) in
    if is_space c then (if is_space d then rest else b' ' ∷ rest) else c ∷ rest

-- The branches of `executeWrite`.
pub data Write : Type 0 where
  spend_insert nonce_insert nonce_delete mpp_upsert escrow_upsert : Write
  attestation_upsert attestation_revoke no_write : Write

unfoldable pub write_kind : Text → Write
write_kind query =
    let q = lower query in
    if starts_with q (text "insert into spend_ledger")
    then spend_insert
    else if starts_with q (text "insert or ignore into used_nonces")
    then nonce_insert
    else if starts_with q (text "delete from used_nonces")
    then nonce_delete
    else if starts_with q (text "insert into mpp_sessions")
        || includes q (text "on conflict(session_id)")
    then mpp_upsert
    else if starts_with q (text "insert into escrow_records")
        || includes q (text "on conflict(escrow_id)")
    then escrow_upsert
    else if starts_with q (text "insert into attestations") || includes q (text "on conflict(id)")
    then attestation_upsert
    else if starts_with q (text "update attestations set revoked = 1")
    then attestation_revoke
    else no_write

abbrev pub spend_entry : ℕ → List Value → ℕ → SpendEntry
spend_entry unix args count = record {
  id = count + 1;
  agent_id = to_string (arg args 0);
  amount_usdc = to_number (arg args 1);
  day_key = to_string (arg args 2);
  created_at = unix;
}

abbrev pub nonce_entry : ℕ → List Value → NonceEntry
nonce_entry unix args = record {
  nonce = to_string (arg args 0);
  network = to_string (arg args 1);
  used_at = unix;
}

-- `used_at < limit`, which is false for NaN.
abbrev pub is_before : Num → NonceEntry → Bool
is_before none e = false
is_before (some limit) e = ltb e.used_at limit

abbrev pub mpp_entry : List Value → MppEntry
mpp_entry args = record {
  session_id = to_string (arg args 0);
  agent_id = to_string (arg args 1);
  budget_usdc = to_number (arg args 2);
  spent_usdc = to_number (arg args 3);
  status = to_string (arg args 4);
  created_at = to_number (arg args 5);
  closed_at = number_or_null (arg args 6);
  payload = to_string (arg args 7);
}

abbrev pub escrow_entry : List Value → EscrowEntry
escrow_entry args = record {
  escrow_id = to_string (arg args 0);
  buyer_agent_id = to_string (arg args 1);
  seller_agent_id = to_string (arg args 2);
  amount_usdc = to_number (arg args 3);
  condition_hash = to_string (arg args 4);
  status = to_string (arg args 5);
  created_at = to_number (arg args 6);
  released_at = number_or_null (arg args 7);
  payload = to_string (arg args 8);
}

-- A payload that is no text is turned into JSON, as a number or null is printed.
abbrev pub attestation_entry : ℕ → List Value → AttestationEntry
attestation_entry unix args = record {
  id = to_string (arg args 0);
  agent_id = to_string (arg args 1);
  wallet_address = to_string (arg args 2);
  payload = to_string (arg args 3);
  hmac_signature = to_string (arg args 4);
  created_at = unix;
  expires_at = number_or_null (arg args 5);
  revoked = false;
}

abbrev pub revoked_in :
    Text → Option AttestationEntry → Dict AttestationEntry → Dict AttestationEntry
revoked_in id none rows = rows
revoked_in id (some e) rows = insert id (record e { revoked = true }) rows

abbrev pub nonce_added : Text → NonceEntry → Option NonceEntry → Dict NonceEntry → Dict NonceEntry
nonce_added key e none rows = insert key e rows
nonce_added key e (some old) rows = rows

unfoldable pub perform : ℕ → List Value → Write → JsonData → JsonData
unfolding to_string to_number
perform unix args spend_insert d = record d {
  spend_ledger = d.spend_ledger ++ (spend_entry unix args (length d.spend_ledger) ∷ []);
}
perform unix args nonce_insert d =
    let key = to_string (arg args 0) in
    record d {
      used_nonces =
          nonce_added key (nonce_entry unix args) (lookup key d.used_nonces) d.used_nonces;
    }
perform unix args nonce_delete d = record d {
  used_nonces = keep_entries (λ e. not (is_before (to_number (arg args 0)) e)) d.used_nonces;
}
perform unix args mpp_upsert d = record d {
  mpp_sessions = insert (to_string (arg args 0)) (mpp_entry args) d.mpp_sessions;
}
perform unix args escrow_upsert d = record d {
  escrow_records = insert (to_string (arg args 0)) (escrow_entry args) d.escrow_records;
}
perform unix args attestation_upsert d = record d {
  attestations = insert (to_string (arg args 0)) (attestation_entry unix args) d.attestations;
}
perform unix args attestation_revoke d =
    let id = to_string (arg args 0) in
    record d { attestations = revoked_in id (lookup id d.attestations) d.attestations }
perform unix args no_write d = d

unfoldable pub execute_write : ℕ → Text → List Value → JsonData → JsonData
unfolding write_kind perform
execute_write unix query args d = perform unix args (write_kind query) d

-- `Statement.run`: `changes` is 1 if the size has changed, and 0 otherwise.
unfoldable pub run_statement : ℕ → Text → List Value → JsonData → JsonData × ℕ
unfolding squeeze execute_write data_size
run_statement unix query args d =
    let d' = execute_write unix (squeeze (trim query)) args d in
    (d', if data_size d' == data_size d then 0 else 1)

-- What `executeGet` finds; `nothing` is null or undefined.
pub data Row : Type 0 where
  nothing found_nonce : Row
  total : Num → Row
  mpp_row : MppEntry → Row
  escrow_row : EscrowEntry → Row
  attestation_row : AttestationEntry → Row

pub data Read : Type 0 where
  spend_total nonce_check mpp_get escrow_get attestation_get no_read : Read

unfoldable pub read_kind : Text → Read
read_kind query =
    let q = lower query in
    if includes q (text "coalesce(sum(amount_usdc)")
    then spend_total
    else if includes q (text "from used_nonces where nonce = ?")
    then nonce_check
    else if includes q (text "from mpp_sessions where session_id = ?")
    then mpp_get
    else if includes q (text "from escrow_records where escrow_id = ?")
    then escrow_get
    else if includes q (text "from attestations where id = ?")
    then attestation_get
    else no_read

abbrev pub add_num : Num → Num → Num
add_num (some a) (some b) = some (a + b)
add_num _ _ = none

-- `.filter(..).reduce((sum, row) => sum + row.amount_usdc, 0)`; the order of the sum does not matter.
unfoldable pub sum_entries : Text → Text → List SpendEntry → Num
sum_entries agent_id day_key [] = some 0
sum_entries agent_id day_key (e ∷ es) =
    let rest = sum_entries agent_id day_key es in
    if text_eq e.agent_id agent_id && text_eq e.day_key day_key
    then add_num e.amount_usdc rest
    else rest

abbrev pub found {ℓ} : {A : Type ℓ} → (A → Row) → Option A → Row
found f none = nothing
found f (some a) = f a

unfoldable pub fetch : List Value → Read → JsonData → Row
unfolding to_string sum_entries
fetch args spend_total d =
    total (sum_entries (to_string (arg args 0)) (to_string (arg args 1)) d.spend_ledger)
fetch args nonce_check d = found (λ e. found_nonce) (lookup (to_string (arg args 0)) d.used_nonces)
fetch args mpp_get d = found mpp_row (lookup (to_string (arg args 0)) d.mpp_sessions)
fetch args escrow_get d = found escrow_row (lookup (to_string (arg args 0)) d.escrow_records)
fetch args attestation_get d =
    found attestation_row (lookup (to_string (arg args 0)) d.attestations)
fetch args no_read d = nothing

unfoldable pub execute_get : Text → List Value → JsonData → Row
unfolding read_kind fetch
execute_get query args d = fetch args (read_kind query) d

unfoldable pub get_statement : Text → List Value → JsonData → Row
unfolding squeeze execute_get
get_statement query args d = execute_get (squeeze (trim query)) args d

-- `b.created_at - a.created_at` as the order; NaN counts as equal.
abbrev pub is_later : Num → Num → Bool
is_later (some a) (some b) = ltb b a
is_later _ _ = false

unfoldable pub insert_latest : MppEntry → List MppEntry → List MppEntry
insert_latest e [] = e ∷ []
insert_latest e (f ∷ es) =
    if is_later f.created_at e.created_at then f ∷ insert_latest e es else e ∷ f ∷ es

unfoldable pub latest_first : List MppEntry → List MppEntry
unfolding insert_latest
latest_first [] = []
latest_first (e ∷ es) = insert_latest e (latest_first es)

abbrev pub values : Dict MppEntry → List MppEntry
values [] = []
values ((k, e) ∷ m) = e ∷ values m

-- What `executeAll` finds.
pub data Rows : Type 0 where
  mpp_rows : List MppEntry → Rows
  payload_column no_rows : Rows

unfoldable pub execute_all : Text → List Value → JsonData → Rows
unfolding to_string latest_first
execute_all query args d =
    let q = lower query in
    if includes q (text "from mpp_sessions where agent_id = ?")
    then mpp_rows (
        latest_first
          (keep (λ e. text_eq e.agent_id (to_string (arg args 0))) (values d.mpp_sessions)))
    else if includes q (text "pragma table_info")
    then payload_column
    else no_rows
