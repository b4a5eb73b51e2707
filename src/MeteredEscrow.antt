-- ===== src/MeteredEscrow.antt =====
-- src/agents/metered-escrow.ts: pay-as-you-go sessions in `data/metered-escrows.json`. Amounts are
-- micro-USDC; the routes admit positive amounts only. The random id and the clock are arguments.
mod Invariant
mod Settlement
mod Examples
use x402_agent_suite.Base.{
  ℕ, ◌+◌, ◌-◌, Bool, true, false, List, [], ◌∷◌, ◌++◌, Option, none, some, Text, text, text_eq,
  lower, trim, find, ltb, to_fixed4, if◌then◌else◌,
}

pub data Status : Type 0 where
  active closed : Status

pub record MeteredSession : Type 0 where
  pub session_id : Text
  pub buyer_wallet : Text
  pub seller_host : Text
  pub budget_usdc : ℕ
  pub spent_usdc : ℕ
  pub status : Status
  pub opened_at : Text
  pub closed_at : Option Text

-- One constructor for each return of the three operations. `closing s refund settled` and
-- `closed_before s refund settled` carry `refundUsdc` and `settledUsdc`.
pub data MeteredResult : Type 0 where
  opened : MeteredSession → MeteredResult
  session_not_found : Text → MeteredResult
  already_closed : MeteredSession → MeteredResult
  insufficient_funds : ℕ → MeteredSession → MeteredResult
  charged : MeteredSession → MeteredResult
  closed_before : MeteredSession → ℕ → ℕ → MeteredResult
  closing : MeteredSession → ℕ → ℕ → MeteredResult

abbrev pub has_id : Text → MeteredSession → Bool
has_id id s = text_eq s.session_id id

-- `sessions.find(...)` hands out the object in the array, and the caller writes to its fields.
unfoldable pub update_first :
    Text → (MeteredSession → MeteredSession) → List MeteredSession → List MeteredSession
update_first id f [] = []
update_first id f (s ∷ rest) = if has_id id s then f s ∷ rest else s ∷ update_first id f rest

unfoldable pub open_metered_session :
    Text → Text → Text → Text → ℕ → List MeteredSession → List MeteredSession × MeteredResult
open_metered_session random now buyer_wallet seller_host budget_usdc sessions =
    (sessions ++ new_session ∷ [], opened new_session)
  where
    new_session : MeteredSession
    new_session = record {
      session_id = text "escrow_" ++ random;
      buyer_wallet = lower (trim buyer_wallet);
      seller_host = lower (trim seller_host);
      budget_usdc = budget_usdc;
      spent_usdc = 0;
      status = active;
      opened_at = now;
      closed_at = none;
    }

abbrev pub set_spent : ℕ → MeteredSession → MeteredSession
set_spent spent s = record s { spent_usdc = spent }

abbrev pub set_closed : Text → MeteredSession → MeteredSession
set_closed now s = record s { status = closed; closed_at = some now }

-- A charge of a session that is open.
unfoldable pub charge_active :
    Text → ℕ → MeteredSession → List MeteredSession → List MeteredSession × MeteredResult
unfolding update_first
charge_active id amount_usdc session sessions =
    let new_spent = to_fixed4 (session.spent_usdc + amount_usdc) in
    if ltb session.budget_usdc new_spent
    then (sessions, insufficient_funds new_spent session)
    else (update_first id (set_spent new_spent) sessions, charged (set_spent new_spent session))

abbrev pub charge_found :
    Text → ℕ → Status → MeteredSession → List MeteredSession → List MeteredSession × MeteredResult
charge_found id amount_usdc closed session sessions = (sessions, already_closed session)
charge_found id amount_usdc active session sessions = charge_active id amount_usdc session sessions

unfoldable pub charge_metered_session :
    Text → ℕ → List MeteredSession → List MeteredSession × MeteredResult
unfolding charge_active
charge_metered_session id amount_usdc sessions = elim (find (has_id id) sessions) [
  | none ↦ (sessions, session_not_found id)
  | some session ↦ charge_found id amount_usdc session.status session sessions
]

unfoldable pub refund_of : MeteredSession → ℕ
refund_of s = to_fixed4 (s.budget_usdc - s.spent_usdc)

abbrev pub close_found :
    Text
    → Text
    → Status
    → MeteredSession
    → List MeteredSession
    → List MeteredSession × MeteredResult
close_found now id closed session sessions =
    (sessions, closed_before session (refund_of session) session.spent_usdc)
close_found now id active session sessions =
    let session' = set_closed now session in
    (
      update_first id (set_closed now) sessions,
      closing session' (refund_of session') session'.spent_usdc,
    )

unfoldable pub close_metered_session :
    Text → Text → List MeteredSession → List MeteredSession × MeteredResult
unfolding update_first refund_of
close_metered_session now id sessions = elim (find (has_id id) sessions) [
  | none ↦ (sessions, session_not_found id)
  | some session ↦ close_found now id session.status session sessions
]
