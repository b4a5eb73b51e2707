-- ===== src/JsonDatabase/Queries.antt =====
-- The statements of src/lib/nonce-store.ts, src/lib/ledger.ts, src/lib/db-persistence.ts and
-- src/lib/escrow-unified.ts that reach JsonDatabase, with single blanks for white space, and the
-- branches of src/lib/db.ts that they are taken for.
use x402_agent_suite.Base.{ℕ, ◌≡◌, refl, ap, List, Text, text, trim, lower, starts_with, includes}
use x402_agent_suite.JsonDatabase.{
  Value, JsonData, perform, run_statement, fetch, get_statement, squeeze, Write, spend_insert,
  nonce_insert, nonce_delete, escrow_upsert, no_write, write_kind, Read, spend_total, nonce_check,
  escrow_get, read_kind,
}

abbrev pub check_nonce : Text
check_nonce = text "SELECT 1 AS ok FROM used_nonces WHERE nonce = ?"

abbrev pub insert_nonce_sql : Text
insert_nonce_sql = text "INSERT OR IGNORE INTO used_nonces (nonce, network) VALUES (?, ?)"

abbrev pub clean_old : Text
clean_old = text "DELETE FROM used_nonces WHERE used_at < ?"

abbrev pub sum_day_sql : Text
sum_day_sql =
    text
      "SELECT COALESCE(SUM(amount_usdc), 0) AS total FROM spend_ledger WHERE agent_id = ? AND day_key = ?"

abbrev pub insert_spend : Text
insert_spend = text "INSERT INTO spend_ledger (agent_id, amount_usdc, day_key) VALUES (?, ?, ?)"

abbrev pub get_escrow_sql : Text
get_escrow_sql =
    text
      "SELECT escrow_id, buyer_agent_id, seller_agent_id, amount_usdc, condition_hash, status, created_at, released_at, payload FROM escrow_records WHERE escrow_id = ?"

abbrev pub upsert_escrow_record : Text
upsert_escrow_record =
    text
      "INSERT INTO escrow_records (escrow_id, buyer_agent_id, seller_agent_id, amount_usdc, condition_hash, status, created_at, released_at, payload) VALUES (?, ?, ?, ?, ?, ?, ?, ?, ?) ON CONFLICT(escrow_id) DO UPDATE SET status = excluded.status, released_at = excluded.released_at, payload = excluded.payload"

abbrev pub release_escrow_sql : Text
release_escrow_sql =
    text
      "UPDATE escrow_records SET status = 'released', released_at = ?, payload = ? WHERE escrow_id = ? AND status = 'pending'"

-- The upsert into `escrows`.
abbrev pub upsert_unified : Text
upsert_unified =
    text
      "INSERT INTO escrows ( escrow_id, payer_agent_id, payee_id, amount_usdc, state, resource_hash, session_id, release_condition, quality_score, state_proof, metadata, updated_at ) VALUES (?, ?, ?, ?, ?, ?, ?, ?, ?, ?, ?, unixepoch()) ON CONFLICT(escrow_id) DO UPDATE SET state = excluded.state, state_proof = excluded.state_proof, metadata = excluded.metadata, updated_at = unixepoch(), settled_at = CASE WHEN excluded.state = 'SETTLED' THEN unixepoch() ELSE settled_at END"

pub kind-check_nonce : read_kind (squeeze (trim check_nonce)) ≡ nonce_check
unfolding read_kind squeeze trim lower starts_with includes
kind-check_nonce = refl

pub kind-sum_day_sql : read_kind (squeeze (trim sum_day_sql)) ≡ spend_total
unfolding read_kind squeeze trim lower starts_with includes
kind-sum_day_sql = refl

pub kind-get_escrow_sql : read_kind (squeeze (trim get_escrow_sql)) ≡ escrow_get
unfolding read_kind squeeze trim lower starts_with includes
kind-get_escrow_sql = refl

pub kind-insert_nonce_sql : write_kind (squeeze (trim insert_nonce_sql)) ≡ nonce_insert
unfolding write_kind squeeze trim lower starts_with includes
kind-insert_nonce_sql = refl

pub kind-clean_old : write_kind (squeeze (trim clean_old)) ≡ nonce_delete
unfolding write_kind squeeze trim lower starts_with includes
kind-clean_old = refl

pub kind-insert_spend : write_kind (squeeze (trim insert_spend)) ≡ spend_insert
unfolding write_kind squeeze trim lower starts_with includes
kind-insert_spend = refl

pub kind-upsert_escrow_record : write_kind (squeeze (trim upsert_escrow_record)) ≡ escrow_upsert
unfolding write_kind squeeze trim lower starts_with includes
kind-upsert_escrow_record = refl

pub kind-release_escrow_sql : write_kind (squeeze (trim release_escrow_sql)) ≡ no_write
unfolding write_kind squeeze trim lower starts_with includes
kind-release_escrow_sql = refl

pub kind-upsert_unified : write_kind (squeeze (trim upsert_unified)) ≡ escrow_upsert
unfolding write_kind squeeze trim lower starts_with includes
kind-upsert_unified = refl

-- A statement does what its branch does.
pub run_statement-kind :
    (unix : ℕ) (query : Text) (args : List Value) (d : JsonData) (w : Write)
    → write_kind (squeeze (trim query)) ≡ w
    → (run_statement unix query args d).0 ≡ perform unix args w d
run_statement-kind unix query args d w h = unfold run_statement in ap (λ k. perform unix args k d) h

pub get_statement-kind :
    (query : Text) (args : List Value) (d : JsonData) (r : Read)
    → read_kind (squeeze (trim query)) ≡ r
    → get_statement query args d ≡ fetch args r d
get_statement-kind query args d r h = unfold get_statement in ap (λ k. fetch args k d) h
